-- ===== src/Session/History/Sequence.antt =====
-- containsLineSequence, longestSuffixPrefix, commonLinePrefix, appendWithLineOverlap and
-- joinedTerminalHistory (screen_history.go), on lists whose elements can be compared.
pub mod Laws
pub mod Overlap
use falkn.Base.{
  ℕ, zero, suc, ◌+◌, ◌-◌, Bool, true, false, ◌&&◌, ◌||◌, List, [], ◌∷◌, ◌++◌, length, take, drop,
  min, Eq, same, ltb, if◌then◌else◌,
}

module _ {ℓ} {A : Type ℓ} ⦃e : Eq A⦄ where
  -- The comparison of `candidate` with the lines from some place on, offset by offset.
  unfoldable pub matched : List A → List A → Bool
  matched lines [] = true
  matched [] (c ∷ cs) = false
  matched (l ∷ ls) (c ∷ cs) = same l c && matched ls cs

  -- `for start := ...`, with the rounds left.
  matched_from : List A → List A → ℕ → ℕ → Bool
  matched_from lines candidate start zero = false
  matched_from lines candidate start (suc rounds) =
      matched (drop start lines) candidate || matched_from lines candidate (start + 1) rounds

  unfoldable pub contains_line_sequence : List A → List A → Bool
  unfolding matched_from
  contains_line_sequence lines [] = true
  contains_line_sequence lines (c ∷ cs) =
      if ltb (length lines) (length (c ∷ cs))
      then false
      else matched_from lines (c ∷ cs) 0 (suc (length lines - length (c ∷ cs)))

  -- `for length := maximum; length > 0; length--`
  overlap_from : List A → List A → ℕ → ℕ
  overlap_from left right zero = 0
  overlap_from left right (suc n) =
      let shorter = overlap_from left right n in
      if matched (drop (length left - suc n) left) (take (suc n) right) then suc n else shorter

  unfoldable pub longest_suffix_prefix : List A → List A → ℕ
  unfolding overlap_from
  longest_suffix_prefix left right = overlap_from left right (min (length left) (length right))

  unfoldable pub common_line_prefix : List A → List A → ℕ
  common_line_prefix [] right = 0
  common_line_prefix (l ∷ ls) [] = 0
  common_line_prefix (l ∷ ls) (r ∷ rs) =
      let rest = common_line_prefix ls rs in if same l r then suc rest else 0

  overlap_append : List A → List A → List A
  overlap_append existing addition =
      existing ++ drop (longest_suffix_prefix existing addition) addition

  unfoldable pub append_with_line_overlap : List A → List A → List A
  unfolding overlap_append
  append_with_line_overlap [] addition = addition
  append_with_line_overlap (x ∷ xs) [] = x ∷ xs
  append_with_line_overlap (x ∷ xs) (y ∷ ys) =
      if contains_line_sequence (x ∷ xs) (y ∷ ys) then x ∷ xs else overlap_append (x ∷ xs) (y ∷ ys)

  unfoldable pub joined_terminal_history : List A → List A → List A
  joined_terminal_history history screen = append_with_line_overlap history screen
