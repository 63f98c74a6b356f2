-- ===== src/Session/Transcript.antt =====
-- internal/session/transcript.go and the line helpers of renderedTranscript (manager.go): raw
-- terminal bytes turned into readable text.
pub mod Controls
pub mod Backspaces
pub mod Lines
use falkn.Base.{
  ℕ, zero, suc, ◌+◌, ◌-◌, Bool, true, false, not, ◌&&◌, ◌||◌, List, [], ◌∷◌, ◌++◌, Option, none,
  some, length, take, drop, get_elem?, ltb, leb, ◌==◌, if◌then◌else◌,
}
use falkn.Base.Int.{ℤ, pos, leb_ℤ, ltb_ℤ, pos_part}

-- Where the loops of stripTerminalControls stand: between sequences, behind an ESC, in the loop of
-- `case '['`, in that of `case ']'`, and at the backslash that ends the latter.
pub data Scan : Type 0 where
  plain escape csi osc osc_end : Scan

abbrev next_is : ℕ → List ℕ → Bool
next_is c [] = false
next_is c (b ∷ rest) = b == c

-- The bytes below the space that stay: newline, return, tab and backspace.
unfoldable pub is_control : ℕ → Bool
is_control b =
    b == 0
    || (ltb b 0x20 && not (b == b'\n') && not (b == b'\r') && not (b == b'\t') && not (b == 8))

unfoldable pub keeps : Scan → ℕ → Bool
unfolding is_control
keeps plain b = not (b == 0x1b) && not (is_control b)
keeps _ b = false

scan : Scan → ℕ → List ℕ → Scan
scan plain b rest = if b == 0x1b then escape else plain
scan escape b rest = if b == b'[' then csi else if b == b']' then osc else plain
scan csi b rest = if leb 0x40 b && leb b 0x7e then plain else csi
scan osc b rest = if b == 7 then plain else if b == 0x1b && next_is b'\\' rest then osc_end else osc
scan osc_end b rest = plain

strip_from : Scan → List ℕ → List ℕ
unfolding scan keeps
strip_from m [] = []
strip_from m (b ∷ rest) =
    let out = strip_from (scan m b rest) rest in if keeps m b then b ∷ out else out

unfoldable pub strip_terminal_controls : List ℕ → List ℕ
unfolding strip_from
strip_terminal_controls = strip_from plain

-- `runes[:len(runes)-1]`, unless there is none or it ends a line.
erase_last : List ℕ → List ℕ
erase_last runes =
    let cut = take (length runes - 1) runes in
    elim (get_elem? runes (length runes - 1)) [
      | none ↦ runes
      | some last ↦ if last == b'\n' then runes else cut
    ]

apply_from : List ℕ → List ℕ → List ℕ
unfolding erase_last
apply_from runes [] = runes
apply_from runes (v ∷ vs) = apply_from (if v == 8 then erase_last runes else runes ++ v ∷ []) vs

unfoldable pub apply_backspaces : List ℕ → List ℕ
unfolding apply_from
apply_backspaces = apply_from []

-- `strings.ReplaceAll(clean, "\r\n", "\n")` and `strings.ReplaceAll(clean, "\r", "\n")`
replace_crlf : List ℕ → List ℕ
replace_crlf [] = []
replace_crlf (c ∷ rest) =
    let out = replace_crlf rest in if c == b'\r' && next_is b'\n' rest then out else c ∷ out

replace_cr : List ℕ → List ℕ
replace_cr [] = []
replace_cr (c ∷ rest) = (if c == b'\r' then b'\n' else c) ∷ replace_cr rest

-- `strings.TrimRight(clean, "\n")`
trim_newlines : List ℕ → List ℕ
trim_newlines [] = []
trim_newlines (c ∷ rest) = put (trim_newlines rest)
  where
    put : List ℕ → List ℕ
    put [] = if c == b'\n' then [] else c ∷ []
    put (d ∷ ds) = c ∷ d ∷ ds

-- `strings.Split(clean, "\n")`: a line before every newline, and one behind the last.
split_onto : List ℕ → List ℕ → List (List ℕ)
split_onto line [] = line ∷ []
split_onto line (c ∷ rest) =
    if c == b'\n' then line ∷ split_onto [] rest else split_onto (line ++ c ∷ []) rest

unfoldable pub split_lines : List ℕ → List (List ℕ)
unfolding split_onto
split_lines = split_onto []

unfoldable pub join_lines : List (List ℕ) → List ℕ
join_lines [] = []
join_lines (l ∷ []) = l
join_lines (l ∷ m ∷ ls) = l ++ (b'\n' ∷ join_lines (m ∷ ls))

-- The bounds that cleanTranscript and renderedTranscript put on the number of lines asked for.
unfoldable pub history_limit : ℤ → ℕ
history_limit n = if leb_ℤ n (pos 0) then 600 else if ltb_ℤ (pos 2000) n then 2000 else pos_part n

unfoldable pub last_lines {ℓ} : {A : Type ℓ} → ℕ → List A → List A
last_lines n lines = if ltb n (length lines) then drop (length lines - n) lines else lines

-- The text of `clean` before it is cut to lines. `valid` is `strings.ToValidUTF8(clean, "")` read as
-- a sequence of characters.
pub clean_text : (List ℕ → List ℕ) → List ℕ → List ℕ
unfolding strip_terminal_controls replace_crlf replace_cr trim_newlines apply_backspaces
clean_text valid raw =
    trim_newlines
      (apply_backspaces (replace_cr (replace_crlf (valid (strip_terminal_controls raw)))))

unfoldable pub clean_transcript : (List ℕ → List ℕ) → List ℕ → ℤ → List ℕ
unfolding clean_text split_lines join_lines last_lines history_limit
clean_transcript valid raw history_lines =
    join_lines (last_lines (history_limit history_lines) (split_lines (clean_text valid raw)))

-- compactBlankLines, with `emptyRun` of the lines read so far.
compact_from : ℕ → ℕ → List (List ℕ) → List (List ℕ)
compact_from run maximum_run [] = []
compact_from run maximum_run ([] ∷ lines) =
    let rest = compact_from (run + 1) maximum_run lines in
    if ltb maximum_run (run + 1) then rest else [] ∷ rest
compact_from run maximum_run ((c ∷ cs) ∷ lines) = (c ∷ cs) ∷ compact_from 0 maximum_run lines

unfoldable pub compact_blank_lines : List (List ℕ) → ℕ → List (List ℕ)
unfolding compact_from
compact_blank_lines lines maximum_run = compact_from 0 maximum_run lines
