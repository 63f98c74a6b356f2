-- ===== src/Session/History/Journal/Capture.antt =====
-- What captureTerminalHistoryLocked keeps of the screens that a terminal shows.
use falkn.Base.{
  ℕ, ◌-◌, ◌≤◌, ◌<◌, ◌≡◌, ◌≢◌, refl, sym, ap, ◌∙◌, inl, inr, true, List, [], ◌∷◌, ◌++◌, Option, none,
  some, length, take, drop, list_eq, nat_eq, arith, ltb, Bool-cases, append-nil, suffix,
  length-drop, length-take, length-append, drop-append_left,
}
use falkn.Session.History.Sequence.{
  contains_line_sequence, longest_suffix_prefix, append_with_line_overlap,
}
use falkn.Session.History.Sequence.Laws.{
  IsRun, contains_line_sequence_iff, longest_suffix_prefix_greatest,
}
use falkn.Session.History.Sequence.Overlap.{Keeps, append_with_line_overlap-Keeps}
use falkn.Session.History.Journal.{
  Line, Journal, Terminal, maximum_terminal_history_lines, bounded_history, append_terminal_history,
  capture_new, capture_next, capture_lines, capture_terminal_history,
}

abbrev pub IsBounded : Journal → Type 0
IsBounded s = length s.terminal_history ≤ maximum_terminal_history_lines

bounded_history-le :
    (lines : List Line) → length (bounded_history lines) ≤ maximum_terminal_history_lines
unfolding bounded_history
bounded_history-le lines =
    ground (arith, length-drop (length lines - maximum_terminal_history_lines) lines)

append_terminal_history-IsBounded :
    (s : Journal) (lines : List Line) → IsBounded s → IsBounded (append_terminal_history s lines)
unfolding append_terminal_history
append_terminal_history-IsBounded s [] b = b
append_terminal_history-IsBounded s (l ∷ ls) b =
    bounded_history-le (append_with_line_overlap s.terminal_history (l ∷ ls))

capture_new-IsBounded :
    (s : Journal) (next : List Line) (overlap : ℕ)
    → IsBounded s
    → IsBounded (capture_new s next overlap)
unfolding capture_new
capture_new-IsBounded s next overlap b = ground (
  arith,
  append_terminal_history-IsBounded s
      (take (length s.last_terminal_screen - overlap) s.last_terminal_screen) b,
)

capture_next-IsBounded :
    (screen : List Line) (s : Journal) (next : List Line)
    → IsBounded s
    → IsBounded (capture_next screen s next)
unfolding capture_next
capture_next-IsBounded [] s next b = b
capture_next-IsBounded (l ∷ ls) s next b =
    ground
      (arith, capture_new-IsBounded s next (longest_suffix_prefix s.last_terminal_screen next) b)

capture_lines-IsBounded :
    (s : Journal) (next : List Line) → IsBounded s → IsBounded (capture_lines s next)
unfolding capture_lines
capture_lines-IsBounded s [] b = b
capture_lines-IsBounded s (l ∷ ls) b = capture_next-IsBounded s.last_terminal_screen s (l ∷ ls) b

capture-IsBounded :
    (s : Journal) (t : Option Terminal) → IsBounded s → IsBounded (capture_terminal_history s t)
unfolding capture_terminal_history
capture-IsBounded s none b = b
capture-IsBounded s (some t) b = ground (arith, capture_lines-IsBounded s t.alt_lines b)

-- The captures of a session, one for each chunk of output and each reading of the transcript.
pub capture_all : Journal → List (Option Terminal) → Journal
capture_all s [] = s
capture_all s (t ∷ ts) = capture_all (capture_terminal_history s t) ts

-- However many screens a session shows, its journal never holds more than 2,000 lines.
pub capture_all-IsBounded :
    (s : Journal) (ts : List (Option Terminal)) → IsBounded s → IsBounded (capture_all s ts)
unfolding capture_all
capture_all-IsBounded s [] b = b
capture_all-IsBounded s (t ∷ ts) b =
    capture_all-IsBounded (capture_terminal_history s t) ts (capture-IsBounded s t b)

-- The rows that a session has journalled and shows: `known` in the source.
abbrev pub known : Journal → List Line
known s = s.terminal_history ++ s.last_terminal_screen

capture_new-last :
    (s : Journal) (next : List Line) (overlap : ℕ)
    → (capture_new s next overlap).last_terminal_screen ≡ next
unfolding capture_new
capture_new-last s next overlap = ground arith

last-IsRun : (s : Journal) (next : List Line) → s.last_terminal_screen ≡ next → IsRun next (known s)
last-IsRun s next e =
    (s.terminal_history, [], ap (◌++◌ s.terminal_history) (e ∙ sym (append-nil next)))

capture_next-known :
    (screen : List Line) (s : Journal) (next : List Line)
    → IsRun next (known (capture_next screen s next))
unfolding capture_next
capture_next-known [] s next = last-IsRun _ next refl
capture_next-known (l ∷ ls) s next = elim (Bool-cases (contains_line_sequence (known s) next)) [
  | inl old ↦ rw old ((contains_line_sequence_iff (known s) next).0 old)
  | inr new ↦
      let n : ℕ = longest_suffix_prefix s.last_terminal_screen next in
      rw new (last-IsRun (capture_new s next n) next (capture_new-last s next n))
]

capture_next-last :
    (screen : List Line) (s : Journal) (next : List Line)
    → s.last_terminal_screen ≡ screen
    → next ≢ []
    → (capture_next screen s next).last_terminal_screen ≢ []
unfolding capture_next
capture_next-last [] s next e h = h
capture_next-last (l ∷ ls) s next e h = elim (Bool-cases (contains_line_sequence (known s) next)) [
  | inl old ↦ rw old (λ x. cc)
  | inr new ↦ rw new (λ x. h (sym (capture_new-last s next _) ∙ x))
]

capture_next_local :
    (screen : List Line) (s : Journal) (next : List Line)
    → screen ≢ []
    → IsRun next (known s)
    → capture_next screen s next ≡ s
unfolding capture_next
capture_next_local [] s next h r = absurd (h refl)
capture_next_local (l ∷ ls) s next h r = rw ((contains_line_sequence_iff (known s) next).1 r)

-- Capturing the same screen twice is capturing it once: a repaint of a screen that is already
-- recorded leaves the journal alone.
pub capture_lines_idem :
    (s : Journal) (next : List Line)
    → capture_lines (capture_lines s next) next ≡ capture_lines s next
unfolding capture_lines
capture_lines_idem s [] = refl
capture_lines_idem s (l ∷ ls) =
    let next = l ∷ ls in
    let s' = capture_next s.last_terminal_screen s next in
    capture_next_local s'.last_terminal_screen s' next
      (capture_next-last s.last_terminal_screen s next refl (λ x. cc))
      (capture_next-known s.last_terminal_screen s next)

drop-before :
    (n : ℕ) (before lines : List Line) → length lines ≤ n → IsRun lines (suffix n (before ++ lines))
drop-before n before lines h = (
  drop (length (before ++ lines) - n) before,
  [],
  drop-append_left _ before lines (omega (arith, length-append before lines))
      ∙ ap (◌++◌ (drop (length (before ++ lines) - n) before)) (sym (append-nil lines)),
)

bounded_history-IsRun :
    (existing lines result : List Line)
    → Keeps existing lines result
    → length existing ≤ maximum_terminal_history_lines
    → length lines ≤ maximum_terminal_history_lines
    → IsRun lines (bounded_history result)
unfolding bounded_history
bounded_history-IsRun existing lines result k h n =
    elim (Bool-cases (ltb maximum_terminal_history_lines (length result))) [
      | inl over ↦ rw over (elim k.ends [
        | inl same_rows ↦ absurd (ground (arith, ap length same_rows))
        | inr (before, e) ↦ rw e (drop-before maximum_terminal_history_lines before lines n)
      ])
      | inr fits ↦ rw fits k.holds
    ]

append_terminal_history-IsRun :
    (s : Journal) (lines : List Line)
    → IsBounded s
    → length lines ≤ maximum_terminal_history_lines
    → IsRun lines (append_terminal_history s lines).terminal_history
unfolding append_terminal_history
append_terminal_history-IsRun s [] b n = ([], s.terminal_history, refl)
append_terminal_history-IsRun s (l ∷ ls) b n =
    bounded_history-IsRun s.terminal_history (l ∷ ls) _
      (append_with_line_overlap-Keeps s.terminal_history (l ∷ ls)) b n

-- The rows of the last screen that are not on the next one, for an overlap of `n` rows.
abbrev pub departed : Journal → ℕ → List Line
departed s n = take (length s.last_terminal_screen - n) s.last_terminal_screen

capture_new-IsRun :
    (s : Journal) (next : List Line) (n : ℕ)
    → IsBounded s
    → length s.last_terminal_screen ≤ maximum_terminal_history_lines
    → 0 < n
    → IsRun (departed s n) (capture_new s next n).terminal_history
unfolding capture_new
capture_new-IsRun s next n b h k =
    let t : ltb 0 n ≡ true = ground arith in
    rw t (
      append_terminal_history-IsRun s (departed s n) b
        (omega (arith, length-take (length s.last_terminal_screen - n) s.last_terminal_screen)))

capture_next_scrolled :
    (screen : List Line) (s : Journal) (next : List Line)
    → s.last_terminal_screen ≡ screen
    → ¬ IsRun next (known s)
    → 0 < longest_suffix_prefix s.last_terminal_screen next
    → capture_next screen s next
      ≡ capture_new s next (longest_suffix_prefix s.last_terminal_screen next)
unfolding capture_next
capture_next_scrolled [] s next e new n =
    absurd
      (omega (arith, ap length e, (longest_suffix_prefix_greatest s.last_terminal_screen next).0))
capture_next_scrolled (l ∷ ls) s next e new n =
    elim (Bool-cases (contains_line_sequence (known s) next)) [
      | inl old ↦ absurd (new ((contains_line_sequence_iff (known s) next).0 old))
      | inr c ↦ rw c
    ]

-- When a screen scrolls, that is, when the end of the last screen is the start of the next and the
-- next one is not recorded already, every row that left the screen can be read in the journal
-- afterwards, in its order and with its neighbours, and the next screen is the live one. The journal
-- was within its bound, and the screen no taller than it.
pub capture_lines_scrolled :
    (s : Journal) (next : List Line)
    → IsBounded s
    → length s.last_terminal_screen ≤ maximum_terminal_history_lines
    → next ≢ []
    → ¬ IsRun next (known s)
    → 0 < longest_suffix_prefix s.last_terminal_screen next
    → IsRun
        (departed s (longest_suffix_prefix s.last_terminal_screen next))
        (capture_lines s next).terminal_history
      × ((capture_lines s next).last_terminal_screen ≡ next)
unfolding capture_lines
capture_lines_scrolled s [] b h ne new n = absurd (ne refl)
capture_lines_scrolled s (l ∷ ls) b h ne new n =
    rw (capture_next_scrolled s.last_terminal_screen s (l ∷ ls) refl new n)
      (capture_new-IsRun s (l ∷ ls) _ b h n, capture_new-last s (l ∷ ls) _)
