-- ===== src/Server/Switch/Steps.antt =====
-- A step of the switcher goes to a neighbour, and a number to the session that has it.
use Prim.Native.String.{String}
use falkn.Base.{
  ℕ, zero, suc, ◌+◌, ◌-◌, ◌%◌, ◌<◌, ◌≡◌, ◌⊎◌, refl, sym, ap, ◌∙◌, inl, inr, ◌||◌, leb, List, [],
  ◌∷◌, Option, some, length, get_elem?, ltb, ◌==◌, arith, if_cases, Bool-cases,
}
use native.Mathlib.Nat.{mod-eq_of_lt, mod_self}
use falkn.Base.Int.{ℤ, pos, negsuc, rem_ℤ, ◌+ℤ◌}
use falkn.Session.Live.{SessionRecord}
use falkn.Server.Switch.{
  switchable_sessions, position, id_at, wrapped, select_index, select_step, select_switch_target,
}
use falkn.Server.Switch.Selection.{position-lt}
use falkn.Server.Switch.Order.{IsSorted, switchable_sessions-IsSorted}
use falkn.Server.Switch.Targets.{id_at-some, wrapped_lt}

-- The answer is the session at the position `j`.
pub Reaches : List SessionRecord → ℕ → Option String → Type 0
Reaches running j o = (r : SessionRecord) × (get_elem? running j ≡ some r) × (o ≡ some r.id)

-- `j` follows `i` among `n` positions, the first one the last one.
abbrev pub Follows : ℕ → ℕ → ℕ → Type 0
Follows n i j = (j ≡ suc i) ⊎ ((suc i ≡ n) × (j ≡ 0))

-- The answer for the number `n`: the session that has it, counted from 1, or none when no session has.
pub ByNumber : List SessionRecord → ℕ → Option String → Type 0
ByNumber running n o =
    ((i : ℕ) × (n ≡ suc i) × Reaches running i o)
    ⊎ (((n ≡ 0) ⊎ (length running < n)) × (o ≡ some ""))

select_index-ByNumber :
    (running : List SessionRecord) (n : ℕ) → ByNumber running n (select_index running (pos n))
unfolding select_index ByNumber Reaches
select_index-ByNumber running zero = inr (inl refl, refl)
select_index-ByNumber running (suc i) =
    let P = ByNumber running (suc i) in
    if_cases P (suc i == 0 || ltb (length running) (suc i)) (some "")
      (id_at (get_elem? running (suc i - 1))) (λ e. inr (inr (ground (arith, e)), refl))
      (λ e.
        let (r, q, s) = id_at-some running i (ground (arith, e)) in
        inl (i, refl, (r, q, ap (λ (k : ℕ). id_at (get_elem? running k)) (omega arith) ∙ s)))

-- The position that a step goes to.
abbrev stepped : ℕ → ℤ → ℕ → ℕ
stepped i step n = wrapped (rem_ℤ (pos i +ℤ step) n) n

plus_one : (i : ℕ) → pos i +ℤ pos 1 ≡ pos (suc i)
plus_one i =
    if_cases (λ (z : ℤ). z ≡ pos (suc i)) (leb 0 (i + 1)) (pos (i + 1 - 0)) _
      (λ _. ap pos (omega arith)) (λ e. absurd (ground (arith, e)))

minus_one : (i : ℕ) → pos (suc i) +ℤ negsuc 0 ≡ pos i
minus_one i =
    if_cases (λ (z : ℤ). z ≡ pos i) (leb 1 (suc i + 0)) (pos (suc i + 0 - 1)) _
      (λ _. ap pos (omega arith)) (λ e. absurd (ground (arith, e)))

stepped_to : (z : ℤ) (a n : ℕ) → z ≡ pos a → wrapped (rem_ℤ z n) n ≡ a % n
stepped_to z a n e = ap (λ (y : ℤ). wrapped (rem_ℤ y n) n) e

forward : (i n : ℕ) → i < n → Follows n i (stepped i (pos 1) n)
forward i n h =
    let e = stepped_to (pos i +ℤ pos 1) (suc i) n (plus_one i) in
    elim (Bool-cases (ltb (suc i) n)) [
      | inl l ↦ inl (e ∙ mod-eq_of_lt (ground (arith, l)))
      | inr l ↦
          let last : suc i ≡ n = ground (arith, l, h) in
          inr (last, e ∙ ap (λ (k : ℕ). k % n) last ∙ mod_self n)
    ]

first-backward : (n : ℕ) → 0 < n → suc (stepped 0 (negsuc 0) n) ≡ n
first-backward n h =
    let P = λ (z : ℤ). suc (wrapped z n) ≡ n in
    elim (Bool-cases (n == 1)) [
      | inl one ↦
          let z : 1 % n ≡ 0 =
            ap (λ (k : ℕ). 1 % k) (let q : n ≡ 1 = ground (arith, one) in q) ∙ mod_self 1 in
          if_cases P (leb (1 % n) 0) (pos (0 - 1 % n)) _ (λ _. ground (arith, one))
            (λ e. absurd (ground (arith, z, e)))
      | inr more ↦
          let z : 1 % n ≡ 1 = mod-eq_of_lt (ground (arith, more, h)) in
          if_cases P (leb (1 % n) 0) _ (negsuc (1 % n - 0 - 1)) (λ e. absurd (ground (arith, z, e)))
            (λ _. omega (arith, z, h))
    ]

backward : (i n : ℕ) → i < n → Follows n (stepped i (negsuc 0) n) i
backward zero n h = inr (first-backward n h, refl)
backward (suc i) n h =
    let e = stepped_to (pos (suc i) +ℤ negsuc 0) i n (minus_one i) in
    inl (ap suc (sym (e ∙ mod-eq_of_lt (omega (arith, h)))))

id_at-Reaches :
    (running : List SessionRecord) (j : ℕ)
    → j < length running
    → Reaches running j (id_at (get_elem? running j))
unfolding Reaches
id_at-Reaches running j l = id_at-some running j l

select_step-Reaches :
    (running : List SessionRecord) (current_id : String) (i : ℕ) (step : ℤ)
    → position current_id running ≡ some i
    → Reaches running (stepped i step (length running)) (select_step running current_id step)
unfolding select_step
select_step-Reaches running current_id i step e =
    let l = position-lt current_id running i e in
    let size = length running in
    rw (select_step, e)
      (id_at-Reaches running (stepped i step size)
        (wrapped_lt (pos i +ℤ step) size (omega (arith, l))))

among-Reaches :
    (running : List SessionRecord) (current_id : String) (i n : ℕ)
    → position current_id running ≡ some i
    → (ByNumber running n (select_switch_target running current_id (pos 0) (pos n))
        × ((j : ℕ) × Follows (length running) i j
            × Reaches running j (select_switch_target running current_id (pos 1) (pos n))))
      × ((j : ℕ) × Follows (length running) j i
          × Reaches running j (select_switch_target running current_id (negsuc 0) (pos n)))
unfolding select_switch_target
among-Reaches [] current_id i n e =
    let l = position-lt current_id [] i e in absurd (omega (arith, l))
among-Reaches (r ∷ rs) current_id i n e =
    let running = r ∷ rs in
    let l = position-lt current_id running i e in
    let size = length running in
    (
      (
        select_index-ByNumber running n,
        (
          stepped i (pos 1) size,
          forward i size l,
          select_step-Reaches running current_id i (pos 1) e,
        ),
      ),
      (
        stepped i (negsuc 0) size,
        backward i size l,
        select_step-Reaches running current_id i (negsuc 0) e,
      ),
    )

-- With the attached session among those that the switcher offers: a number goes to the session that
-- has it in the switcher's order, counted from 1, and nowhere when none has; the step to the next one
-- goes to the session behind the attached one, and from the last one to the first; the step back goes
-- to the one in front, and from the first one to the last. In that order no session stands in front
-- of an older one.
pub select_switch_target-Reaches :
    (records : List SessionRecord) (current_id : String) (i n : ℕ)
    → position current_id (switchable_sessions records) ≡ some i
    → (ByNumber
          (switchable_sessions records)
          n
          (select_switch_target (switchable_sessions records) current_id (pos 0) (pos n))
        × ((j : ℕ) × Follows (length (switchable_sessions records)) i j
            × Reaches
                (switchable_sessions records)
                j
                (select_switch_target (switchable_sessions records) current_id (pos 1) (pos n))))
      × ((j : ℕ) × Follows (length (switchable_sessions records)) j i
          × Reaches
              (switchable_sessions records)
              j
              (select_switch_target (switchable_sessions records) current_id (negsuc 0) (pos n)))
      × IsSorted (switchable_sessions records)
select_switch_target-Reaches records current_id i n e =
    let (numbers_and_next, back) = among-Reaches (switchable_sessions records) current_id i n e in
    (numbers_and_next, back, switchable_sessions-IsSorted records)
