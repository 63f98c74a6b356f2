-- ===== src/Notifications/Registrations/Saved.antt =====
-- What configureAt and Forget leave in the file.
use falkn.Base.{
  ℕ, ◌+◌, ◌-◌, ◌≡◌, ◌≤◌, refl, ap, sym, ◌∙◌, Bool, true, ◌||◌, List, [], ◌∷◌, ◌++◌, some, length,
  arith, if◌then◌else◌, same, same_self, nat_eq, list_eq, ◌==◌, Bool-cases, Option-cases, inl, inr,
}
use falkn.Base.Text.{Text, is_empty}
use falkn.Notifications.Registrations.{
  Registration, Configuration, File, absent, broken, holds, loaded, Checks, validate_registration,
  all_valid, load_configuration, normalized_registration, same_device, stamped, kept_registrations,
  stored_before, write_file, configure, without_device, forget, forget_from, forget_loaded, lowered,
}

-- The registrations of the device and host of `r`.
unfoldable pub copies : Registration → List Registration → ℕ
copies r [] = 0
copies r (q ∷ qs) = let rest = copies r qs in if same_device q r then 1 + rest else rest

copies-append :
    (r : Registration) (xs ys : List Registration) → copies r (xs ++ ys) ≡ copies r xs + copies r ys
unfolding copies
copies-append r [] ys = omega arith
copies-append r (q ∷ xs) ys = ground (arith, copies-append r xs ys)

stamped-same_device :
    (seconds : ℕ) (r q : Registration) → same_device (stamped seconds r) q ≡ same_device r q
unfolding stamped same_device
stamped-same_device seconds r q = elim (Bool-cases (r.updated_at == 0)) [
  | inl z ↦ rw z refl
  | inr z ↦ rw z refl
]

stamped-valid :
    (checks : Checks) (seconds : ℕ) (r : Registration)
    → validate_registration checks (stamped seconds r) ≡ validate_registration checks r
unfolding stamped validate_registration
stamped-valid checks seconds r = elim (Bool-cases (r.updated_at == 0)) [
  | inl z ↦ rw z refl
  | inr z ↦ rw z refl
]

kept-copies :
    (new : Registration) (seconds now : ℕ) (rs : List Registration)
    → copies new (kept_registrations new seconds now rs) ≡ 0
unfolding kept_registrations copies
kept-copies new seconds now [] = refl
kept-copies new seconds now (r ∷ rs) =
    ground (arith, kept-copies new seconds now rs, stamped-same_device seconds r new)

kept-valid :
    (checks : Checks) (new : Registration) (seconds now : ℕ) (rs : List Registration)
    → all_valid checks rs ≡ true
    → all_valid checks (kept_registrations new seconds now rs) ≡ true
unfolding kept_registrations all_valid
kept-valid checks new seconds now [] h = refl
kept-valid checks new seconds now (r ∷ rs) h =
    ground (arith, kept-valid checks new seconds now rs, stamped-valid checks seconds r)

all_valid-append :
    (checks : Checks) (xs ys : List Registration)
    → all_valid checks xs ≡ true
    → all_valid checks ys ≡ true
    → all_valid checks (xs ++ ys) ≡ true
unfolding all_valid
all_valid-append checks [] ys h k = k
all_valid-append checks (r ∷ xs) ys h k = ground (arith, all_valid-append checks xs ys)

load_configuration-written :
    (checks : Checks) (rs : List Registration)
    → all_valid checks rs ≡ true
    → load_configuration checks (holds (record { version = 1; registrations = rs }))
      ≡ loaded (record { version = 1; registrations = rs })
unfolding load_configuration
load_configuration-written checks rs h = rw h refl

loaded-valid :
    (checks : Checks) (file : File) (rs : List Registration)
    → stored_before (load_configuration checks file) ≡ some rs
    → all_valid checks rs ≡ true
unfolding load_configuration stored_before all_valid
loaded-valid checks absent rs q =
    let none_invalid : all_valid checks [] ≡ true = refl in cc (none_invalid, q)
loaded-valid checks broken rs q = cc
loaded-valid checks (holds c) rs q = elim (Bool-cases (c.version == 1)) [
  | inl v ↦ elim (Bool-cases (all_valid checks c.registrations)) [
    | inl h ↦ let q' = rw (v, h) at q in cc (h, q')
    | inr h ↦ cc (rw (v, h) at q)
  ]
  | inr v ↦ cc (rw v at q)
]

-- A file that LoadConfiguration reads, with exactly one registration of the device and host of `new`.
pub record Holds (checks : Checks) (new : Registration) (file : File) : Type 0 where
  pub registrations : List Registration
  pub reads :
      load_configuration checks file
      ≡ loaded (record { version = 1; registrations = registrations })
  pub once : copies new registrations ≡ 1

written-Holds :
    (checks : Checks) (new : Registration) (seconds now : ℕ) (rs : List Registration)
    → all_valid checks rs ≡ true
    → validate_registration checks new ≡ true
    → Holds checks new (
        holds (record {
          version = 1;
          registrations = kept_registrations new seconds now rs ++ new ∷ [];
        }))
written-Holds checks new seconds now rs h v = record {
  registrations = kept_registrations new seconds now rs ++ new ∷ [];
  reads = load_configuration-written checks _ (
      all_valid-append checks (kept_registrations new seconds now rs) (new ∷ [])
        (kept-valid checks new seconds now rs h) (unfold all_valid in rw v refl));
  once =
      copies-append new (kept_registrations new seconds now rs) (new ∷ [])
      ∙ rw (kept-copies new seconds now rs)
          (unfold copies same_device in rw (same_self new.device_id, same_self new.host_id) refl);
}

-- When configureAt succeeds, LoadConfiguration accepts the file that it wrote, and the file has
-- exactly one registration of the device and host.
pub configure-Holds :
    (checks : Checks) (writable : Bool) (file : File) (params : Registration) (seconds now : ℕ)
    → (configure checks writable file params seconds now).0 ≡ true
    → Holds checks
        (normalized_registration checks params seconds)
        (configure checks writable file params seconds now).1
unfolding configure write_file
configure-Holds checks writable file params seconds now q =
    elim (Bool-cases
      (validate_registration checks (normalized_registration checks params seconds))) [
        | inr v ↦ cc (rw v at q)
        | inl v ↦ elim (Option-cases (stored_before (load_configuration checks file))) [
          | inl n ↦ cc (rw (v, n) at q)
          | inr (rs, h) ↦ elim (Bool-cases writable) [
            | inr w ↦ cc (rw (v, h, w) at q)
            | inl w ↦
                rw (v, h, w)
                  (written-Holds checks _ seconds now rs (loaded-valid checks file rs h) v)
          ]
        ]
      ]

without_device-valid :
    (checks : Checks) (device : Text) (rs : List Registration)
    → all_valid checks rs ≡ true
    → all_valid checks (without_device device rs) ≡ true
unfolding all_valid without_device
without_device-valid checks device [] h = refl
without_device-valid checks device (r ∷ rs) h =
    ground (arith, without_device-valid checks device rs)

length-without_device :
    (device : Text) (rs : List Registration) → length (without_device device rs) ≤ length rs
unfolding without_device
length-without_device device [] = omega arith
length-without_device device (r ∷ rs) = ground (arith, length-without_device device rs)

without_device_same :
    (device : Text) (rs : List Registration)
    → length rs ≡ length (without_device device rs)
    → without_device device rs ≡ rs
unfolding without_device
without_device_same device [] h = refl
without_device_same device (r ∷ rs) h =
    elim (Bool-cases (is_empty device || same r.device_id device)) [
      | inl d ↦ let h' = rw d at h in ground (arith, h', length-without_device device rs)
      | inr d ↦
          let h' = rw d at h in rw (d, without_device_same device rs (ground (arith, h'))) refl
    ]

forget_from-keeps :
    (checks : Checks) (writable : Bool) (file : File) (device : Text) (rs : List Registration)
    (n : ℕ)
    → stored_before (load_configuration checks file) ≡ some rs
    → (forget_from writable file rs (without_device device rs)).0 ≡ some n
    → (stored_before
          (load_configuration checks (forget_from writable file rs (without_device device rs)).1)
        ≡ some (without_device device rs))
      × (length rs ≡ n + length (without_device device rs))
unfolding forget_from stored_before
forget_from-keeps checks writable file device rs n h q =
    let kept = without_device device rs in
    elim (Bool-cases (length rs == length kept)) [
      | inl e ↦
          let q' = rw e at q in
          let z : 0 ≡ n = cc q' in
          let same_length : length rs ≡ length kept = ground (arith, e) in
          rw e (rw (without_device_same device rs same_length) h, omega (arith, same_length, z))
      | inr e ↦ elim (Bool-cases writable) [
        | inr w ↦ cc (rw (e, w) at q)
        | inl w ↦
            let q' = rw (e, w) at q in
            let z : length rs - length kept ≡ n = cc q' in
            rw (e, w)
              (
                rw
                    (load_configuration-written checks kept
                      (without_device-valid checks device rs (loaded-valid checks file rs h)))
                    refl,
                omega (arith, z, length-without_device device rs),
              )
      ]
    ]

-- Forget of a file that LoadConfiguration reads: when it succeeds, the file holds the registrations
-- of the other devices, in their order, and the answer is the number of those that went.
pub forget-keeps :
    (checks : Checks) (writable : Bool) (file : File) (device : Text) (c : Configuration) (n : ℕ)
    → load_configuration checks file ≡ loaded c
    → (forget checks writable file device).0 ≡ some n
    → (stored_before (load_configuration checks (forget checks writable file device).1)
        ≡ some (without_device (lowered checks device) c.registrations))
      × (length c.registrations
          ≡ n + length (without_device (lowered checks device) c.registrations))
forget-keeps checks writable file device c n e q =
    let found : forget checks writable file device
        ≡ forget_from writable file c.registrations
            (without_device (lowered checks device) c.registrations) =
      unfold forget forget_loaded in rw e refl in
    rw found (
      forget_from-keeps checks writable file (lowered checks device) c.registrations n
        (unfold stored_before in rw e refl) (ap (λ x. x.0) (sym found) ∙ q))
