-- ===== src/Server/Switch/Targets.antt =====
-- A switch lands on a running session.
use Prim.Native.String.{String}
use falkn.Base.{
  ℕ, zero, suc, ◌-◌, ◌<◌, ◌≡◌, ◌⊎◌, inl, inr, refl, subst, true, false, ◌||◌, List, [], ◌∷◌, Option,
  some, length, get_elem?, ltb, ◌==◌, All, All-each, arith, Bool-cases, if_cases,
}
use falkn.Base.Int.{ℤ, pos, negsuc, rem_ℤ}
use falkn.Base.Text.{string_eq}
use falkn.Session.Live.{SessionRecord}
use falkn.Server.Switch.{
  is_switchable, running_records, insert_before, sort_oldest, switchable_sessions,
  session_comes_before, id_at, select_index, select_step, select_switch_target, wrapped, is_zero,
}

pub Switchable : SessionRecord → Type 0
Switchable r = is_switchable r ≡ true

-- `x` stands in the list.
abbrev pub IsListed : {A : Type 0} → List A → A → Type 0
IsListed xs x = (i : ℕ) × (get_elem? xs i ≡ some x)

pub IsListed-All : {A : Type 0} (xs : List A) → All (IsListed xs) xs
IsListed-All [] = tt
IsListed-All (x ∷ xs) =
    ((0, refl), All-each (λ y (h : IsListed xs y). (suc h.0, h.1)) xs (IsListed-All xs))

-- `r` is one of the records, runs and is not archived.
abbrev pub IsOffered : List SessionRecord → SessionRecord → Type 0
IsOffered records r = IsListed records r × Switchable r

module _ (P : SessionRecord → Type 0) where
  running_records-All :
      (records : List SessionRecord)
      → All P records
      → All (λ r. P r × Switchable r) (running_records records)
  unfolding running_records Switchable
  running_records-All [] p = tt
  running_records-All (r ∷ rs) p = elim (Bool-cases (is_switchable r)) [
    | inl h ↦ rw h ((p.0, h), running_records-All rs p.1)
    | inr h ↦ rw h (running_records-All rs p.1)
  ]

  pub insert_before-All :
      (r : SessionRecord) (rs : List SessionRecord) → P r → All P rs → All P (insert_before r rs)
  unfolding insert_before
  insert_before-All r [] h k = (h, tt)
  insert_before-All r (q ∷ qs) h k = elim (Bool-cases (session_comes_before q r)) [
    | inl b ↦ rw b (k.0, insert_before-All r qs h k.1)
    | inr b ↦ rw b (h, k)
  ]

  sort_oldest-All : (rs : List SessionRecord) → All P rs → All P (sort_oldest rs)
  unfolding sort_oldest
  sort_oldest-All [] h = tt
  sort_oldest-All (r ∷ rs) h = insert_before-All r (sort_oldest rs) h.0 (sort_oldest-All rs h.1)

  insert_before-each :
      (r : SessionRecord) (rs : List SessionRecord) → All P (insert_before r rs) → P r × All P rs
  unfolding insert_before
  insert_before-each r [] h = h
  insert_before-each r (q ∷ qs) h = elim (Bool-cases (session_comes_before q r)) [
    | inl b ↦ let k = rw b at h in let l = insert_before-each r qs k.1 in (l.0, (k.0, l.1))
    | inr b ↦ rw b at h
  ]

  sort_oldest-each : (rs : List SessionRecord) → All P (sort_oldest rs) → All P rs
  unfolding sort_oldest
  sort_oldest-each [] h = tt
  sort_oldest-each (r ∷ rs) h =
      let k = insert_before-each r (sort_oldest rs) h in (k.0, sort_oldest-each rs k.1)

  running_records-each :
      (records : List SessionRecord)
      → All P (running_records records)
      → All (λ r. (is_switchable r ≡ false) ⊎ P r) records
  unfolding running_records
  running_records-each [] h = tt
  running_records-each (r ∷ rs) h = elim (Bool-cases (is_switchable r)) [
    | inl b ↦ let k = rw b at h in (inr k.0, running_records-each rs k.1)
    | inr b ↦ let k = rw b at h in (inl b, running_records-each rs k)
  ]

  -- What holds of the switcher's sessions holds of every record that is running and not archived.
  pub switchable_sessions-each :
      (records : List SessionRecord)
      → All P (switchable_sessions records)
      → All (λ r. (is_switchable r ≡ false) ⊎ P r) records
  unfolding switchable_sessions
  switchable_sessions-each records h =
      running_records-each records (sort_oldest-each (running_records records) h)

pub switchable_sessions-All :
    (records : List SessionRecord) → All (IsOffered records) (switchable_sessions records)
unfolding switchable_sessions
switchable_sessions-All records =
    sort_oldest-All (IsOffered records) (running_records records)
      (running_records-All (IsListed records) records (IsListed-All records))

-- The session at a position that is in range.
pub id_at-some :
    (rs : List SessionRecord) (i : ℕ)
    → i < length rs
    → (r : SessionRecord) × (get_elem? rs i ≡ some r) × (id_at (get_elem? rs i) ≡ some r.id)
unfolding id_at
id_at-some [] i l = absurd (omega (arith, l))
id_at-some (r ∷ rs) zero l = (r, refl, refl)
id_at-some (r ∷ rs) (suc i) l = id_at-some rs i (omega (arith, l))

pub All-get_elem? :
    (P : SessionRecord → Type 0) (rs : List SessionRecord) (i : ℕ) (r : SessionRecord)
    → All P rs
    → get_elem? rs i ≡ some r
    → P r
All-get_elem? P [] i r h e = cc
All-get_elem? P (q ∷ qs) zero r h e = let z : q ≡ r = cc in subst P z h.0
All-get_elem? P (q ∷ qs) (suc i) r h e = All-get_elem? P qs i r h.1 e

pub wrapped_lt : (z : ℤ) (size : ℕ) → 0 < size → wrapped (rem_ℤ z size) size < size
wrapped_lt (pos a) size h = omega (arith, h)
wrapped_lt (negsuc a) size h = ground (arith, h)

-- No session has the index, counted from 1.
pub Outside : ℤ → ℕ → Type 0
Outside (negsuc n) size = Unit
Outside (pos n) size = (n ≡ 0) ⊎ (size < n)

-- The request for a switch has no target: nothing runs, or it asks for an index that no session has.
abbrev pub NoTarget : List SessionRecord → ℤ → ℤ → Type 0
NoTarget running step index =
    (running ≡ []) ⊎ ((is_zero step ≡ true) × Outside index (length running))

-- The answer is the identifier of a record that runs and is not archived, or it is empty, which is
-- for `Nowhere` only.
pub Lands : Type 0 → List SessionRecord → Option String → Type 0
Lands Nowhere records o =
    (Nowhere × (o ≡ some "")) ⊎ ((r : SessionRecord) × IsOffered records r × (o ≡ some r.id))

module _ (records : List SessionRecord) (Nowhere : Type 0) where
  id_at-Lands :
      (rs : List SessionRecord) (i : ℕ)
      → All (IsOffered records) rs
      → i < length rs
      → Lands Nowhere records (id_at (get_elem? rs i))
  unfolding Lands
  id_at-Lands rs i h l =
      let (r, e, q) = id_at-some rs i l in inr (r, All-get_elem? (IsOffered records) rs i r h e, q)

  select_index-Lands :
      (running : List SessionRecord) (index : ℤ)
      → All (IsOffered records) running
      → (Outside index (length running) → Nowhere)
      → Lands Nowhere records (select_index running index)
  unfolding select_index Lands Outside
  select_index-Lands running (negsuc n) h away = inl (away tt, refl)
  select_index-Lands running (pos n) h away = elim (Bool-cases (n == 0 || ltb (length running) n)) [
    | inl out ↦ rw out (inl (away (ground (arith, out)), refl))
    | inr within ↦
        let inside : n - 1 < length running = ground (arith, within) in
        let landed = id_at-Lands running (n - 1) h inside in rw within landed
  ]

  select_step-Lands :
      (running : List SessionRecord) (current_id : String) (step : ℤ)
      → All (IsOffered records) running
      → 0 < length running
      → Lands Nowhere records (select_step running current_id step)
  unfolding select_step
  select_step-Lands running current_id step h l =
      id_at-Lands running _ h (wrapped_lt _ (length running) l)

among-Lands :
    (records running : List SessionRecord) (current_id : String) (step index : ℤ)
    → All (IsOffered records) running
    → Lands
        (NoTarget running step index)
        records
        (select_switch_target running current_id step index)
unfolding select_switch_target Lands
among-Lands records [] current_id step index h = inl (inl refl, refl)
among-Lands records (r ∷ rs) current_id step index h =
    let Nowhere = NoTarget (r ∷ rs) step index in
    if_cases (Lands Nowhere records) (is_zero step) _ _
      (λ z. select_index-Lands records Nowhere (r ∷ rs) index h (λ out. inr (z, out)))
      (λ _. select_step-Lands records Nowhere (r ∷ rs) current_id step h (omega arith))

-- A switch, by a step or by a number, from whatever session, never indexes out of range. It lands on
-- one of the records that were fetched, which is running and not archived; it goes nowhere only when
-- the switcher offers no session or when it asks for a number that no session has.
pub select_switch_target-Lands :
    (records : List SessionRecord) (current_id : String) (step index : ℤ)
    → Lands
        (NoTarget (switchable_sessions records) step index)
        records
        (select_switch_target (switchable_sessions records) current_id step index)
select_switch_target-Lands records current_id step index =
    among-Lands records (switchable_sessions records) current_id step index
      (switchable_sessions-All records)
