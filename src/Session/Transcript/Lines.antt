-- ===== src/Session/Transcript/Lines.antt =====
-- Cutting a transcript to its last lines, and compacting its blank ones.
use falkn.Base.{
  subst, if_cases, take, drop, take-append-drop, true, ◌<◌, ℕ, ◌+◌, ◌-◌, ◌≤◌, ◌≡◌, ◌≢◌, refl, sym,
  ap, ◌∙◌, inl, inr, false, List, [], ◌∷◌, ◌++◌, arith, All, All-append, All-drop, Bool-cases, ◌==◌,
  ltb, length, length-drop, min, append_assoc, append-nil,
}
use falkn.Base.Int.{ℤ, pos, leb_ℤ}
use falkn.Session.Transcript.{
  split_onto, split_lines, join_lines, history_limit, last_lines, clean_text, clean_transcript,
  compact_from, compact_blank_lines,
}

abbrev IsLine : List ℕ → Type 0
IsLine l = All (λ c. c ≢ b'\n') l

split_onto-IsLine : (line text : List ℕ) → IsLine line → All IsLine (split_onto line text)
unfolding split_onto
split_onto-IsLine line [] h = (h, tt)
split_onto-IsLine line (c ∷ cs) h = elim (Bool-cases (c == b'\n')) [
  | inl end ↦ rw end (h, split_onto-IsLine [] cs tt)
  | inr inside ↦ rw inside (
      split_onto-IsLine (line ++ c ∷ []) cs
        (All-append (λ c. c ≢ b'\n') line (c ∷ []) h (ground arith, tt)))
]

split_onto-append :
    (line l : List ℕ) (rest : List ℕ)
    → IsLine l
    → split_onto line (l ++ rest) ≡ split_onto (line ++ l) rest
unfolding split_onto
split_onto-append line [] rest h = rw append-nil
split_onto-append line (c ∷ cs) rest h =
    let no' : (c == b'\n') ≡ false = let n = h.0 in ground arith in
    rw no' (split_onto-append (line ++ c ∷ []) cs rest h.1 ∙ rw append_assoc)

split_onto-newline :
    (line rest : List ℕ) → split_onto line (b'\n' ∷ rest) ≡ line ∷ split_onto [] rest
unfolding split_onto
split_onto-newline line rest = refl

split_onto-nil : (line : List ℕ) → split_onto line [] ≡ line ∷ []
unfolding split_onto
split_onto-nil line = refl

-- Splitting undoes joining, for lines that hold no newline.
split_lines-join_lines :
    (l : List ℕ) (ls : List (List ℕ))
    → All IsLine (l ∷ ls)
    → split_onto [] (join_lines (l ∷ ls)) ≡ l ∷ ls
unfolding join_lines
split_lines-join_lines l [] h =
    ap (split_onto []) (sym (append-nil l)) ∙ split_onto-append [] l [] h.0 ∙ split_onto-nil l
split_lines-join_lines l (m ∷ ls) h =
    split_onto-append [] l (b'\n' ∷ join_lines (m ∷ ls)) h.0
    ∙ split_onto-newline l (join_lines (m ∷ ls))
    ∙ ap (◌∷◌ l) (split_lines-join_lines m ls h.1)

split_join_ne : (ls : List (List ℕ)) → ls ≢ [] → All IsLine ls → split_lines (join_lines ls) ≡ ls
unfolding split_lines
split_join_ne [] ne h = absurd (ne refl)
split_join_ne (l ∷ ls) ne h = split_lines-join_lines l ls h

split_onto-ne : (line text : List ℕ) → 1 ≤ length (split_onto line text)
unfolding split_onto
split_onto-ne line [] = omega arith
split_onto-ne line (c ∷ cs) = ground (arith, split_onto-ne (line ++ c ∷ []) cs)

history_limit_bounds : (n : ℤ) → (1 ≤ history_limit n) × (history_limit n ≤ 2000)
unfolding history_limit
history_limit_bounds n = ground arith

last_lines-length {ℓ} :
    {A : Type ℓ} (n : ℕ) (lines : List A)
    → 1 ≤ n
    → 1 ≤ length lines
    → (length (last_lines n lines) ≤ n) × (1 ≤ length (last_lines n lines))
unfolding last_lines
last_lines-length n lines h k = ground (arith, length-drop (length lines - n) lines)

last_lines-IsLine :
    (n : ℕ) (lines : List (List ℕ)) → All IsLine lines → All IsLine (last_lines n lines)
unfolding last_lines
last_lines-IsLine n lines h = ground (arith, All-drop IsLine (length lines - n) lines h)

last_lines-ne :
    (n : ℕ) (lines : List (List ℕ)) → 1 ≤ length (last_lines n lines) → last_lines n lines ≢ []
last_lines-ne n lines h e = absurd (omega (arith, ap length e))

-- How many lines a request for `n` asks for: `n` from 1 to 2,000, 2,000 for more, and 600 otherwise.
pub data AsksFor : ℤ → ℕ → Type 0 where
  unstated : (n : ℤ) → leb_ℤ n (pos 0) ≡ true → AsksFor n 600
  stated : (n : ℕ) → 1 ≤ n → n ≤ 2000 → AsksFor (pos n) n
  too_many : (n : ℕ) → 2000 < n → AsksFor (pos n) 2000

AsksFor-history_limit : {n : ℤ} {limit : ℕ} → AsksFor n limit → history_limit n ≡ limit
unfolding history_limit
AsksFor-history_limit (unstated n h) = rw h refl
AsksFor-history_limit (stated n h k) = ground (arith, h, k)
AsksFor-history_limit (too_many n h) = ground (arith, h)

-- The last lines are what is left without some lines at the beginning.
last_lines-split {ℓ} :
    {A : Type ℓ} (n : ℕ) (lines : List A)
    → ((earlier : List A) × (lines ≡ earlier ++ last_lines n lines))
      × (length (last_lines n lines) ≡ min n (length lines))
unfolding last_lines
last_lines-split {A = A} n lines =
    let P = λ (l : List A).
      ((earlier : List A) × (lines ≡ earlier ++ l)) × (length l ≡ min n (length lines)) in
    if_cases P (ltb n (length lines)) (drop (length lines - n) lines) lines
      (λ e. (
        (take (length lines - n) lines, sym (take-append-drop (length lines - n) lines)),
        ground (arith, e, length-drop (length lines - n) lines),
      ))
      (λ e. (([], refl), ground (arith, e)))

-- A cleaned transcript reads back as the last lines of the cleaned text, as many as the request asks
-- for, or all of them when there are fewer.
pub split_lines-clean_transcript :
    (valid : List ℕ → List ℕ) (raw : List ℕ) (n : ℤ) (limit : ℕ)
    → AsksFor n limit
    → ((earlier : List (List ℕ)) × (split_lines (clean_text valid raw)
          ≡ earlier ++ split_lines (clean_transcript valid raw n)))
      × (length (split_lines (clean_transcript valid raw n))
          ≡ min limit (length (split_lines (clean_text valid raw))))
unfolding clean_transcript split_lines
split_lines-clean_transcript valid raw n limit h =
    let lines = split_onto [] (clean_text valid raw) in
    let asked = AsksFor-history_limit h in
    let (lo, hi) = history_limit_bounds n in
    let (short, some_line) =
      last_lines-length (history_limit n) lines lo (split_onto-ne [] (clean_text valid raw)) in
    let back =
      split_join_ne (last_lines (history_limit n) lines)
        (last_lines-ne (history_limit n) lines some_line)
        (last_lines-IsLine (history_limit n) lines
          (split_onto-IsLine [] (clean_text valid raw) tt)) in
    let P = λ (l : List (List ℕ)).
      ((earlier : List (List ℕ)) × (lines ≡ earlier ++ l))
      × (length l ≡ min (history_limit n) (length lines)) in
    let whole : P (split_onto [] (join_lines (last_lines (history_limit n) lines))) =
      subst P (sym back) (last_lines-split (history_limit n) lines) in
    (whole.0, whole.1 ∙ ap (λ (k : ℕ). min k (length lines)) asked)

-- No more than `maximum` blank lines in a row, behind `run` of them.
abbrev pub RunsWithin : ℕ → ℕ → List (List ℕ) → Type 0
RunsWithin run maximum [] = Unit
RunsWithin run maximum ([] ∷ lines) = (run + 1 ≤ maximum) × RunsWithin (run + 1) maximum lines
RunsWithin run maximum ((c ∷ cs) ∷ lines) = RunsWithin 0 maximum lines

-- The lines that are not blank.
abbrev pub written : List (List ℕ) → List (List ℕ)
written [] = []
written ([] ∷ lines) = written lines
written ((c ∷ cs) ∷ lines) = (c ∷ cs) ∷ written lines

compact_from-RunsWithin :
    (run maximum : ℕ) (lines : List (List ℕ))
    → RunsWithin (min run maximum) maximum (compact_from run maximum lines)
unfolding compact_from
compact_from-RunsWithin run maximum [] = tt
compact_from-RunsWithin run maximum ([] ∷ lines) =
    let rest = compact_from-RunsWithin (run + 1) maximum lines in
    elim (Bool-cases (ltb maximum (run + 1))) [
      | inl over ↦
          let e : min (run + 1) maximum ≡ min run maximum = ground arith in rw over (rw e at rest)
      | inr fits ↦
          let e : min (run + 1) maximum ≡ min run maximum + 1 = ground arith in
          rw fits (ground arith, rw e at rest)
    ]
compact_from-RunsWithin run maximum ((c ∷ cs) ∷ lines) =
    let e : min 0 maximum ≡ 0 = omega arith in rw e at (compact_from-RunsWithin 0 maximum lines)

compact_from-written :
    (run maximum : ℕ) (lines : List (List ℕ))
    → written (compact_from run maximum lines) ≡ written lines
unfolding compact_from
compact_from-written run maximum [] = refl
compact_from-written run maximum ([] ∷ lines) =
    ground (arith, compact_from-written (run + 1) maximum lines)
compact_from-written run maximum ((c ∷ cs) ∷ lines) =
    ap (◌∷◌ (c ∷ cs)) (compact_from-written 0 maximum lines)

compact_from_fixed :
    (run maximum : ℕ) (lines : List (List ℕ))
    → RunsWithin run maximum lines
    → compact_from run maximum lines ≡ lines
unfolding compact_from
compact_from_fixed run maximum [] h = refl
compact_from_fixed run maximum ([] ∷ lines) h =
    let fits : ltb maximum (run + 1) ≡ false = let n = h.0 in ground arith in
    rw fits (ap (◌∷◌ []) (compact_from_fixed (run + 1) maximum lines h.1))
compact_from_fixed run maximum ((c ∷ cs) ∷ lines) h =
    ap (◌∷◌ (c ∷ cs)) (compact_from_fixed 0 maximum lines h)

-- Compacting leaves no more than `maximum` blank lines in a row, keeps every other line in its order,
-- and changes nothing when it is done again.
pub compact_blank_lines_lem :
    (lines : List (List ℕ)) (maximum : ℕ)
    → RunsWithin 0 maximum (compact_blank_lines lines maximum)
      × (written (compact_blank_lines lines maximum) ≡ written lines)
      × (compact_blank_lines (compact_blank_lines lines maximum) maximum
          ≡ compact_blank_lines lines maximum)
unfolding compact_blank_lines
compact_blank_lines_lem lines maximum =
    let e : min 0 maximum ≡ 0 = omega arith in
    let runs = rw e at (compact_from-RunsWithin 0 maximum lines) in
    (runs, compact_from-written 0 maximum lines, compact_from_fixed 0 maximum _ runs)
