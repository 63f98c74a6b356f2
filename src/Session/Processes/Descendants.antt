-- ===== src/Session/Processes/Descendants.antt =====
-- The loop of activeAgentProcess that marks the processes below the root: it ends, and marks those
-- that a chain of parents leads to.
use mathlib.Core.Logic.{∥∥₁_elim}
use mathlib.Core.Bool.{So-prop}
use mathlib.Core.List.{Memᴰ}
use falkn.Base.{
  ℕ, zero, suc, ◌+◌, ◌≤◌, ◌<◌, ◌≡◌, ◌↔◌, inl, inr, refl, ap, subst, ◌∙◌, Bool, true, false, not,
  ◌&&◌, List, [], ◌∷◌, some, length, arith, if◌then◌else◌, same, same_iff, same_self, Bool-cases,
  All, All-Mem,
}
use falkn.Base.Int.{ℤ, int_eq}
use falkn.Session.Processes.{
  ProcessRecord, Marks, marked, mark, mark_all, mark_until, find_descendants,
}

-- The processes that a chain of parents connects with the root.
pub data Below (records : List ProcessRecord) (root : ℤ) : ℤ → Type 0 where
  self : Below records root root
  child :
      {r : ProcessRecord} → Memᴰ r records → Below records root r.parent → Below records root r.pid

marked-cons : (p q : ℤ) (d : List ℤ) → marked p d ≡ true → marked p (q ∷ d) ≡ true
unfolding marked
marked-cons p q d h = rw h (ground arith)

abbrev is_new : ProcessRecord → Marks → Bool
is_new r s = not (marked r.pid s.descendants) && marked r.parent s.descendants

abbrev with_mark : ProcessRecord → Marks → Marks
with_mark r s = record { descendants = r.pid ∷ s.descendants; changed = true }

mark-new : (r : ProcessRecord) (s : Marks) → is_new r s ≡ true → mark r s ≡ with_mark r s
unfolding mark
mark-new r s t = rw t refl

mark-old : (r : ProcessRecord) (s : Marks) → is_new r s ≡ false → mark r s ≡ s
unfolding mark
mark-old r s t = rw t refl

marked-mark :
    (p : ℤ) (r : ProcessRecord) (s : Marks)
    → marked p s.descendants ≡ true
    → marked p (mark r s).descendants ≡ true
marked-mark p r s h = elim (Bool-cases (is_new r s)) [
  | inl t ↦ rw (mark-new r s t) (marked-cons p r.pid s.descendants h)
  | inr t ↦ rw (mark-old r s t) h
]

marked-mark_all :
    (p : ℤ) (xs : List ProcessRecord) (s : Marks)
    → marked p s.descendants ≡ true
    → marked p (mark_all xs s).descendants ≡ true
unfolding mark_all
marked-mark_all p [] s h = h
marked-mark_all p (x ∷ xs) s h = marked-mark_all p xs (mark x s) (marked-mark p x s h)

-- How many processes are unmarked.
unmarked : List ProcessRecord → List ℤ → ℕ
unmarked [] d = 0
unmarked (r ∷ rs) d = (if marked r.pid d then 0 else 1) + unmarked rs d

unmarked-length : (rs : List ProcessRecord) (d : List ℤ) → unmarked rs d ≤ length rs
unfolding unmarked
unmarked-length [] d = omega arith
unmarked-length (r ∷ rs) d = ground (arith, unmarked-length rs d)

module _ (d e : List ℤ) (grows : (p : ℤ) → marked p d ≡ true → marked p e ≡ true) where
  unmarked-le : (rs : List ProcessRecord) → unmarked rs e ≤ unmarked rs d
  unfolding unmarked
  unmarked-le [] = omega arith
  unmarked-le (r ∷ rs) = ground (arith, grows r.pid, unmarked-le rs)

  unmarked-lt :
      (r : ProcessRecord) (rs : List ProcessRecord)
      → Memᴰ r rs
      → marked r.pid d ≡ false
      → marked r.pid e ≡ true
      → unmarked rs e < unmarked rs d
  unfolding unmarked
  unmarked-lt r [] m h k = elim m [ ]
  unmarked-lt r (x ∷ xs) (Memᴰ.head q) h k =
      let h' : marked x.pid d ≡ false = subst (λ y. marked y.pid d ≡ false) q h in
      let k' : marked x.pid e ≡ true = subst (λ y. marked y.pid e ≡ true) q k in
      rw (h', k') (omega (arith, unmarked-le xs))
  unmarked-lt r (x ∷ xs) (Memᴰ.tail m) h k = ground (arith, grows x.pid, unmarked-lt r xs m h k)

mark_all-cons :
    (x : ProcessRecord) (xs : List ProcessRecord) (s : Marks)
    → mark_all (x ∷ xs) s ≡ mark_all xs (mark x s)
unfolding mark_all
mark_all-cons x xs s = refl

marked-with_mark : (r : ProcessRecord) (s : Marks) → marked r.pid (with_mark r s).descendants ≡ true
unfolding marked
marked-with_mark r s = rw (same_self r.pid) refl

-- A round that changes something marks a process that was not marked.
mark_all-changed :
    (xs : List ProcessRecord) (s : Marks)
    → s.changed ≡ false
    → (mark_all xs s).changed ≡ true
    → (r : ProcessRecord) × Memᴰ r xs
      × (marked r.pid s.descendants ≡ false)
      × (marked r.pid (mark_all xs s).descendants ≡ true)
unfolding mark_all
mark_all-changed [] s h k = cc
mark_all-changed (x ∷ xs) s h k = elim (Bool-cases (is_new x s)) [
  | inl t ↦
      let marks : marked x.pid (mark_all (x ∷ xs) s).descendants ≡ true =
        rw (mark_all-cons x xs s, mark-new x s t)
          (marked-mark_all x.pid xs (with_mark x s) (marked-with_mark x s)) in
      (x, Memᴰ.head refl, ground arith, marks)
  | inr t ↦
      let (r, m, u, v) = mark_all-changed xs s h (rw (mark_all-cons x xs s, mark-old x s t) at k) in
      (r, Memᴰ.tail m, u, rw (mark_all-cons x xs s, mark-old x s t) v)
]

mark_all-true :
    (xs : List ProcessRecord) (s : Marks) → s.changed ≡ true → (mark_all xs s).changed ≡ true
unfolding mark_all
mark_all-true [] s h = h
mark_all-true (x ∷ xs) s h = mark_all-true xs (mark x s) (elim (Bool-cases (is_new x s)) [
  | inl t ↦ rw (mark-new x s t) refl
  | inr t ↦ rw (mark-old x s t) h
])

abbrev IsClosed : List ℤ → ProcessRecord → Type 0
IsClosed d r = marked r.parent d ≡ true → marked r.pid d ≡ true

-- A round that changes nothing leaves the marks, and finds every process below a marked one marked.
mark_all-unchanged :
    (xs : List ProcessRecord) (s : Marks)
    → (mark_all xs s).changed ≡ false
    → ((mark_all xs s).descendants ≡ s.descendants) × All (IsClosed s.descendants) xs
unfolding mark_all
mark_all-unchanged [] s k = (refl, tt)
mark_all-unchanged (x ∷ xs) s k = elim (Bool-cases (is_new x s)) [
  | inl t ↦
      let k' = rw (mark_all-cons x xs s, mark-new x s t) at k in
      cc (mark_all-true xs (with_mark x s) refl, k')
  | inr t ↦
      let (kept, closed) =
        mark_all-unchanged xs s (rw (mark_all-cons x xs s, mark-old x s t) at k) in
      (rw (mark_all-cons x xs s, mark-old x s t) kept, (λ h. ground arith, closed))
]

abbrev round : List ProcessRecord → List ℤ → Marks
round records d = mark_all records (record { descendants = d; changed = false })

mark_until-more :
    (fuel : ℕ) (records : List ProcessRecord) (d : List ℤ)
    → (round records d).changed ≡ true
    → mark_until (suc fuel) records d ≡ mark_until fuel records (round records d).descendants
unfolding mark_until
mark_until-more fuel records d c = rw (mark_until, c) refl

mark_until-ends :
    (fuel : ℕ) (records : List ProcessRecord) (d : List ℤ)
    → (round records d).changed ≡ false
    → mark_until (suc fuel) records d ≡ some (round records d).descendants
unfolding mark_until
mark_until-ends fuel records d c = rw (mark_until, c) refl

module _ (records : List ProcessRecord) (root : ℤ) where
  abbrev IsBelow : List ℤ → Type 0
  IsBelow d = (p : ℤ) → marked p d ≡ true → Below records root p

  mark_all-Below :
      (xs : List ProcessRecord) (s : Marks)
      → ((r : ProcessRecord) → Memᴰ r xs → Memᴰ r records)
      → IsBelow s.descendants
      → IsBelow (mark_all xs s).descendants
  unfolding mark_all marked
  mark_all-Below [] s i h = h
  mark_all-Below (x ∷ xs) s i h =
      mark_all-Below xs (mark x s) (λ r m. i r (Memᴰ.tail m))
        (elim (Bool-cases (is_new x s)) [
          | inl t ↦
              let new : Below records root x.pid =
                child (i x (Memᴰ.head refl)) (h x.parent (ground arith)) in
              rw (mark-new x s t) (λ p q. elim (Bool-cases (same x.pid p)) [
                | inl e ↦ subst (Below records root) ((same_iff x.pid p).0 e) new
                | inr e ↦ h p (rw e at q)
              ])
          | inr t ↦ rw (mark-old x s t) h
        ])

  Below-marked :
      (d : List ℤ)
      → All (IsClosed d) records
      → marked root d ≡ true
      → (p : ℤ) → Below records root p
      → marked p d ≡ true
  Below-marked d closed h p self = h
  Below-marked d closed h p (child {r} m b) =
      All-Mem (IsClosed d) closed m (Below-marked d closed h r.parent b)

  record IsExact (d : List ℤ) : Type 0 where
    sound : IsBelow d
    complete : (p : ℤ) → Below records root p → marked p d ≡ true

  mark_until_lem :
      (fuel : ℕ) (d : List ℤ)
      → unmarked records d < fuel
      → marked root d ≡ true
      → IsBelow d
      → (e : List ℤ) × (mark_until fuel records d ≡ some e) × IsExact e
  unfolding mark_until
  mark_until_lem zero d l h b = absurd (omega arith)
  mark_until_lem (suc fuel) d l h b =
      let s : Marks = record { descendants = d; changed = false } in
      let t = mark_all records s in
      let grows = λ (p : ℤ). marked-mark_all p records s in
      elim (Bool-cases t.changed) [
        | inl c ↦
            let (r, m, u, v) = mark_all-changed records s refl c in
            let (e, ends, exact) =
              mark_until_lem fuel t.descendants
                (omega (arith, unmarked-lt d t.descendants grows r records m u v)) (grows root h)
                (mark_all-Below records s (λ r m. m) b) in
            (e, mark_until-more fuel records d c ∙ ends, exact)
        | inr c ↦
            let (kept, closed) = mark_all-unchanged records s c in
            (
              d,
              mark_until-ends fuel records d c ∙ ap some kept,
              record { sound = b; complete = λ p w. Below-marked d closed h p w },
            )
      ]

-- The loop that collects the processes below the root ends for every table of processes, also one
-- whose parents form a cycle, and it marks a process exactly when a chain of parents leads from it
-- to the root.
pub find_descendants_lem :
    (root : ℤ) (records : List ProcessRecord)
    → (d : List ℤ) × (find_descendants root records ≡ some d)
      × ((p : ℤ) → (marked p d ≡ true) ↔ ∥ Below records root p ∥₁)
unfolding find_descendants marked
find_descendants_lem root records =
    let (d, ends, exact) =
      mark_until_lem records root (suc (length records)) (root ∷ [])
        (omega (arith, unmarked-length records (root ∷ []))) (rw (same_self root) refl)
        (λ p q. elim (Bool-cases (same root p)) [
          | inl e ↦ subst (Below records root) ((same_iff root p).0 e) self
          | inr e ↦ cc (rw e at q)
        ]) in
    (d, ends, λ p. (λ m. ∣ exact.sound p m ∣₁, λ w. ∥∥₁_elim w (So-prop _) (exact.complete p)))
