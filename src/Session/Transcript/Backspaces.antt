-- ===== src/Session/Transcript/Backspaces.antt =====
-- What applyBackspaces erases.
use falkn.Base.{
  ℕ, suc, ◌+◌, ◌-◌, ◌≡◌, ◌≢◌, refl, ap, ◌∙◌, inl, inr, ◌⊎◌, List, [], ◌∷◌, ◌++◌, some, arith, All,
  All-append, All-append_left, Bool-cases, ◌==◌, if◌then◌else◌, length, take, get_elem?,
}
use falkn.Session.Transcript.{erase_last, apply_from, apply_backspaces}

abbrev pub newlines : List ℕ → ℕ
newlines [] = 0
newlines (c ∷ cs) = (if c == b'\n' then 1 else 0) + newlines cs

newlines-append : (xs ys : List ℕ) → newlines (xs ++ ys) ≡ newlines xs + newlines ys
newlines-append [] ys = omega arith
newlines-append (x ∷ xs) ys = omega (arith, newlines-append xs ys)

-- A list that is not empty, split before its last element.
last_split :
    (x : ℕ) (xs : List ℕ)
    → (last : ℕ) × (get_elem? (x ∷ xs) (length xs) ≡ some last)
      × (x ∷ xs ≡ take (length xs) (x ∷ xs) ++ last ∷ [])
last_split x [] = (x, refl, refl)
last_split x (y ∷ ys) = let (last, got, split) = last_split y ys in (last, got, ap (◌∷◌ x) split)

last_split_at :
    (x : ℕ) (xs : List ℕ) (n : ℕ)
    → n ≡ length xs
    → (last : ℕ) × (get_elem? (x ∷ xs) n ≡ some last) × (x ∷ xs ≡ take n (x ∷ xs) ++ last ∷ [])
last_split_at x xs n e = rw e (last_split x xs)

-- A character that is no backspace.
abbrev pub IsKept : ℕ → Type 0
IsKept c = c ≢ 8

-- Erasing leaves the list, or takes off its last element, which ends no line.
erase_last_cases :
    (runes : List ℕ)
    → (erase_last runes ≡ runes)
      ⊎ ((last : ℕ) × (last ≢ b'\n') × (runes ≡ erase_last runes ++ last ∷ []))
unfolding erase_last
erase_last_cases [] = inl refl
erase_last_cases (x ∷ xs) =
    let (last, got, split) = last_split_at x xs (suc (length xs) - 1) (omega arith) in
    elim (Bool-cases (last == b'\n')) [
      | inl stays ↦ inl (rw (got, stays, erase_last) refl)
      | inr goes ↦ inr (last, ground arith, rw (got, goes, erase_last) split)
    ]

erase_last_lem :
    (runes : List ℕ)
    → All IsKept runes
    → All IsKept (erase_last runes) × (newlines (erase_last runes) ≡ newlines runes)
erase_last_lem runes h = elim (erase_last_cases runes) [
  | inl e ↦ rw e (h, refl)
  | inr (last, no_line, e) ↦
      let counted = ap newlines e ∙ newlines-append (erase_last runes) (last ∷ []) in
      (All-append_left IsKept (erase_last runes) (last ∷ []) (rw e at h), ground (arith, counted))
]

apply_from_lem :
    (runes text : List ℕ)
    → All IsKept runes
    → All IsKept (apply_from runes text)
      × (newlines (apply_from runes text) ≡ newlines runes + newlines text)
unfolding apply_from
apply_from_lem runes [] h = (h, omega arith)
apply_from_lem runes (v ∷ vs) h = elim (Bool-cases (v == 8)) [
  | inl back ↦
      let (kept, counted) = erase_last_lem runes h in
      let (kept', counted') = apply_from_lem (erase_last runes) vs kept in
      rw back (kept', ground arith)
  | inr plain ↦
      let kept = All-append IsKept runes (v ∷ []) h (ground arith, tt) in
      let (kept', counted') = apply_from_lem (runes ++ v ∷ []) vs kept in
      rw plain (kept', ground (arith, newlines-append runes (v ∷ [])))
]

-- Applying the backspaces leaves none in the text, and never erases the end of a line: the text has
-- as many lines as before.
pub apply_backspaces_lem :
    (text : List ℕ)
    → All IsKept (apply_backspaces text) × (newlines (apply_backspaces text) ≡ newlines text)
unfolding apply_backspaces
apply_backspaces_lem text = let (kept, counted) = apply_from_lem [] text tt in (kept, omega arith)
