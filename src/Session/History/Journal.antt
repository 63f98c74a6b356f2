-- ===== src/Session/History/Journal.antt =====
-- The journal of a session (screen_history.go): `terminalHistory` and `lastTerminalScreen`.
-- terminalMu is held by every caller, so each method is one step. The terminal emulator is the
-- third-party xterm-go: what it shows is an argument, the rows of a buffer.
pub mod Capture
use falkn.Base.{
  ℕ, zero, suc, ◌+◌, ◌-◌, Bool, true, false, ◌&&◌, List, [], ◌∷◌, ◌++◌, Option, none, some, map,
  length, take, drop, get_elem?, ltb, if◌then◌else◌, Eq, list_eq, nat_eq,
}
use falkn.Session.History.Sequence.{
  contains_line_sequence, longest_suffix_prefix, common_line_prefix, append_with_line_overlap,
  joined_terminal_history,
}

abbrev pub Line : Type 0
Line = List ℕ

abbrev pub maximum_terminal_history_lines : ℕ
maximum_terminal_history_lines = 2000

-- `line == ""`
abbrev pub is_blank : Line → Bool
is_blank [] = true
is_blank (c ∷ cs) = false

abbrev pub row_is_blank : Option Line → Bool
row_is_blank none = false
row_is_blank (some line) = is_blank line

-- The first loop of trimEmptyTerminalRows: the number of blank rows at the top.
pub blank_start : List Line → ℕ
blank_start [] = 0
blank_start (l ∷ ls) = let rest = blank_start ls in if is_blank l then suc rest else 0

-- The second loop, from `end`, down to `start`.
pub blank_end : List Line → ℕ → ℕ → ℕ
blank_end lines start zero = zero
blank_end lines start (suc n) =
    let rest = blank_end lines start n in
    if ltb start (suc n) && row_is_blank (get_elem? lines n) then rest else suc n

unfoldable pub trim_empty_terminal_rows : List Line → List Line
unfolding blank_start blank_end
trim_empty_terminal_rows lines =
    let start = blank_start lines in drop start (take (blank_end lines start (length lines)) lines)

-- A row that the buffer does not have is the empty line; `trim_right` is the trimming of spaces at
-- the end of a row, which the standard library decides by the Unicode tables.
buffer_line : (Line → Line) → Option Line → Line
buffer_line trim_right none = []
buffer_line trim_right (some row) = trim_right row

unfoldable pub terminal_buffer_lines : (Line → Line) → List (Option Line) → List Line
unfolding buffer_line trim_empty_terminal_rows
terminal_buffer_lines trim_right rows = trim_empty_terminal_rows (map (buffer_line trim_right) rows)

pub record Journal : Type 0 where
  pub terminal_history : List Line
  pub last_terminal_screen : List Line

-- What a terminal shows: the lines of its alternate buffer, while that is active, and of the normal
-- one.
pub record Terminal : Type 0 where
  pub is_alt_buffer_active : Bool
  pub alt_lines : List Line
  pub normal_lines : List Line

bounded_history : List Line → List Line
bounded_history lines =
    if ltb maximum_terminal_history_lines (length lines)
    then drop (length lines - maximum_terminal_history_lines) lines
    else lines

unfoldable pub append_terminal_history : Journal → List Line → Journal
unfolding bounded_history
append_terminal_history s [] = s
append_terminal_history s (l ∷ ls) = record s {
  terminal_history = bounded_history (append_with_line_overlap s.terminal_history (l ∷ ls));
}

-- The last part of captureTerminalHistoryLocked, for the overlap of the last screen with the next.
-- Both remaining cases only replace the live screen.
capture_new : Journal → List Line → ℕ → Journal
capture_new s next overlap =
    if ltb 0 overlap
    then record (append_terminal_history s
        (take (length s.last_terminal_screen - overlap) s.last_terminal_screen)) {
          last_terminal_screen = next;
        }
    else if ltb 0 (common_line_prefix s.last_terminal_screen next)
    then record s { last_terminal_screen = next }
    else record s { last_terminal_screen = next }

capture_next : List Line → Journal → List Line → Journal
unfolding capture_new
capture_next [] s next = record s { last_terminal_screen = next }
capture_next (l ∷ ls) s next =
    if contains_line_sequence (s.terminal_history ++ s.last_terminal_screen) next
    then s
    else capture_new s next (longest_suffix_prefix s.last_terminal_screen next)

pub capture_lines : Journal → List Line → Journal
unfolding capture_next
capture_lines s [] = s
capture_lines s (l ∷ ls) = capture_next s.last_terminal_screen s (l ∷ ls)

-- captureTerminalHistoryLocked; a session restored from disk has no terminal.
unfoldable pub capture_terminal_history : Journal → Option Terminal → Journal
unfolding capture_lines
capture_terminal_history s none = s
capture_terminal_history s (some t) =
    if t.is_alt_buffer_active then capture_lines s t.alt_lines else s

-- The end of renderedTerminalLinesLocked, for the journal's history and last screen.
normal_terminal_lines : List Line → List Line → List Line → List Line
normal_terminal_lines [] [] normal = normal
normal_terminal_lines history screen normal =
    append_with_line_overlap (joined_terminal_history history screen) normal

joined_lines : Journal → List Line
joined_lines s = joined_terminal_history s.terminal_history s.last_terminal_screen

-- renderedTerminalLinesLocked: the rows, and the journal that the capture leaves.
unfoldable pub rendered_terminal_lines : Journal → Terminal → List Line × Journal
unfolding normal_terminal_lines joined_lines
rendered_terminal_lines s t =
    if t.is_alt_buffer_active
    then (joined_lines (capture_terminal_history s (some t)), capture_terminal_history s (some t))
    else (normal_terminal_lines s.terminal_history s.last_terminal_screen t.normal_lines, s)
