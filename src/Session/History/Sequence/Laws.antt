-- ===== src/Session/History/Sequence/Laws.antt =====
-- What containsLineSequence and longestSuffixPrefix compute.
use falkn.Base.{
  ℕ, zero, suc, ◌+◌, ◌-◌, ◌≤◌, ◌≡◌, ◌↔◌, refl, sym, ap, ◌∙◌, inl, inr, true, List, [], ◌∷◌, ◌++◌,
  length, take, drop, min, Eq, ltb, arith, Bool-cases, take-append-drop, length-append, length-take,
  length-drop, drop-append_exact, drop_all, suffix,
}
use falkn.Session.History.Sequence.{
  matched, matched_from, contains_line_sequence, overlap_from, longest_suffix_prefix,
}

module _ {ℓ} {A : Type ℓ} where
  -- `candidate` stands in `lines` as a run of neighbours.
  abbrev pub IsRun : List A → List A → Type ℓ
  IsRun candidate lines =
      (before : List A) × (after : List A) × (lines ≡ before ++ (candidate ++ after))

  abbrev pub Overlaps : List A → List A → ℕ → Type ℓ
  Overlaps left right n = suffix n left ≡ take n right

module _ {ℓ} {A : Type ℓ} ⦃e : Eq A⦄ where
  pub matched-take :
      (lines candidate : List A)
      → matched lines candidate ≡ true
      → lines ≡ candidate ++ drop (length candidate) lines
  unfolding matched
  matched-take lines [] h = refl
  matched-take [] (c ∷ cs) h = cc
  matched-take (l ∷ ls) (c ∷ cs) h = ground (arith, e.test_iff l c, matched-take ls cs)

  pub matched-append : (candidate after : List A) → matched (candidate ++ after) candidate ≡ true
  unfolding matched
  matched-append [] after = refl
  matched-append (c ∷ cs) after = ground (arith, e.test_iff c c, matched-append cs after)

  matched_from-IsRun :
      (lines candidate : List A) (start rounds : ℕ)
      → matched_from lines candidate start rounds ≡ true
      → IsRun candidate lines
  unfolding matched_from
  matched_from-IsRun lines candidate start zero h = cc
  matched_from-IsRun lines candidate start (suc rounds) h =
      elim (Bool-cases (matched (drop start lines) candidate)) [
        | inl here ↦ (
          take start lines,
          drop (length candidate) (drop start lines),
          sym (take-append-drop start lines)
              ∙ ap (◌++◌ (take start lines)) (matched-take (drop start lines) candidate here),
        )
        | inr later ↦ matched_from-IsRun lines candidate (start + 1) rounds (ground arith)
      ]

  matched_from_complete :
      (lines candidate after : List A) (start rounds : ℕ) (place : ℕ)
      → start ≤ place
      → place + 1 ≤ start + rounds
      → drop place lines ≡ candidate ++ after
      → matched_from lines candidate start rounds ≡ true
  unfolding matched_from
  matched_from_complete lines candidate after start zero place h k d = absurd (omega arith)
  matched_from_complete lines candidate after start (suc rounds) place h k d =
      elim (Bool-cases (ltb start place)) [
        | inl less ↦ ground (
          arith,
          matched_from_complete lines candidate after (start + 1) rounds place (ground arith)
              (omega arith) d,
        )
        | inr at ↦
            let e : start ≡ place = ground arith in rw (e, d, matched-append candidate after) refl
      ]

  contains_line_sequence_complete :
      (before candidate after : List A)
      → contains_line_sequence (before ++ (candidate ++ after)) candidate ≡ true
  unfolding contains_line_sequence
  contains_line_sequence_complete before [] after = refl
  contains_line_sequence_complete before (c ∷ cs) after =
      let lines = before ++ (c ∷ cs ++ after) in
      let n : length lines ≡ length before + (suc (length cs) + length after) =
        omega (arith, length-append before (c ∷ cs ++ after), length-append (c ∷ cs) after) in
      let found =
        matched_from_complete lines (c ∷ cs) after 0 (suc (length lines - suc (length cs)))
          (length before) (omega arith) (omega arith)
          (drop-append_exact before (c ∷ cs ++ after)) in
      ground (arith, found)

  contains_line_sequence_sound :
      (lines candidate : List A)
      → contains_line_sequence lines candidate ≡ true
      → IsRun candidate lines
  unfolding contains_line_sequence
  contains_line_sequence_sound lines [] h = ([], lines, refl)
  contains_line_sequence_sound lines (c ∷ cs) h =
      matched_from-IsRun lines (c ∷ cs) 0 (suc (length lines - length (c ∷ cs))) (ground arith)

  -- containsLineSequence answers true exactly when the candidate is a run of neighbouring lines; an
  -- empty candidate always is.
  pub contains_line_sequence_iff :
      (lines candidate : List A)
      → (contains_line_sequence lines candidate ≡ true) ↔ IsRun candidate lines
  contains_line_sequence_iff lines candidate = (
    contains_line_sequence_sound lines candidate,
    λ (before, after, split). rw split (contains_line_sequence_complete before candidate after),
  )

  matched_iff_eq : (xs ys : List A) → length xs ≡ length ys → (matched xs ys ≡ true) ↔ (xs ≡ ys)
  unfolding matched
  matched_iff_eq [] [] h = ground arith
  matched_iff_eq [] (y ∷ ys) h = absurd (omega arith)
  matched_iff_eq (x ∷ xs) [] h = absurd (omega arith)
  matched_iff_eq (x ∷ xs) (y ∷ ys) h = ground (arith, e.test_iff x y, matched_iff_eq xs ys)

  overlap_lengths :
      (left right : List A) (n : ℕ)
      → n ≤ length left
      → n ≤ length right
      → length (suffix n left) ≡ length (take n right)
  overlap_lengths left right n h k =
      omega (arith, length-drop (length left - n) left, length-take n right)

  overlap_from_lem :
      (left right : List A) (n : ℕ)
      → n ≤ length left
      → n ≤ length right
      → (overlap_from left right n ≤ n)
        × Overlaps left right (overlap_from left right n)
        × ((m : ℕ) → m ≤ n → Overlaps left right m → m ≤ overlap_from left right n)
  unfolding overlap_from
  overlap_from_lem left right zero h k =
      (omega arith, drop_all (length left - 0) left (omega arith), λ m q o. q)
  overlap_from_lem left right (suc n) h k =
      elim (Bool-cases (matched (drop (length left - suc n) left) (take (suc n) right))) [
        | inl yes' ↦ rw yes' (
          omega arith,
          (matched_iff_eq _ _ (overlap_lengths left right (suc n) h k)).0 yes',
          λ m q o. q,
        )
        | inr no' ↦
            let (below, overlaps, greatest) =
              overlap_from_lem left right n (omega arith) (omega arith) in
            rw no' (
              omega arith,
              overlaps,
              λ m q o. elim (Bool-cases (ltb n m)) [
                | inl most ↦
                    let e' : m ≡ suc n = ground arith in
                    let o' : Overlaps left right (suc n) = rw e' at o in
                    let hit = (matched_iff_eq _ _ (overlap_lengths left right (suc n) h k)).1 o' in
                    absurd (cc (no', hit))
                | inr less ↦ greatest m (ground arith) o
              ],
            )
      ]

  -- longestSuffixPrefix is the greatest `n` for which the last `n` lines of the left list are the
  -- first `n` of the right one.
  pub longest_suffix_prefix_greatest :
      (left right : List A)
      → let n = longest_suffix_prefix left right in
        (n ≤ length left)
        × (n ≤ length right)
        × Overlaps left right n
        × ((m : ℕ) → m ≤ length left → m ≤ length right → Overlaps left right m → m ≤ n)
  unfolding longest_suffix_prefix
  longest_suffix_prefix_greatest left right =
      let (below, overlaps, greatest) =
        overlap_from_lem left right (min (length left) (length right)) (omega arith)
          (omega arith) in
      (omega arith, omega arith, overlaps, λ m h k o. greatest m (omega arith) o)
