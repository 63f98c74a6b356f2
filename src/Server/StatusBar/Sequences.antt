-- ===== src/Server/StatusBar/Sequences.antt =====
-- The bytes that attachStatusBar (internal/server/status_bar.go) writes and looks for, and the rows
-- that it counts.
use falkn.Base.{
  ℕ, zero, suc, ◌-◌, Bool, false, ◌&&◌, ◌||◌, List, [], ◌∷◌, ◌++◌, ltb, leb, ◌==◌, if◌then◌else◌,
  same,
}
use falkn.Base.Int.{ℤ, pos, negsuc, ◌+ℤ◌, leb_ℤ, int_eq}
use falkn.Base.Text.{Text, codes, contains_any}
use falkn.Base.Strings.{decimal_ℤ}

abbrev pub minimum_status_bar_columns : ℕ
minimum_status_bar_columns = 40

abbrev pub minimum_status_bar_rows : ℕ
minimum_status_bar_rows = 4

abbrev pub layout_sequence_tail_bytes : ℕ
layout_sequence_tail_bytes = 32

abbrev pub handoff_sequence_tail_bytes : ℕ
handoff_sequence_tail_bytes = 512

abbrev pub status_bar_style_sequence : Text
status_bar_style_sequence = 0x1b ∷ codes "[0;38;5;75m"

abbrev pub status_bar_visible : ℤ → ℤ → Bool
status_bar_visible columns rows =
    leb_ℤ (pos minimum_status_bar_columns) columns && leb_ℤ (pos minimum_status_bar_rows) rows

-- `a - n` for a count `n`
abbrev pub minus : ℤ → ℕ → ℤ
minus a zero = a
minus a (suc n) = a +ℤ negsuc n

abbrev pub terminal_content_rows : ℤ → ℤ → ℤ
terminal_content_rows columns rows = if status_bar_visible columns rows then minus rows 1 else rows

unfoldable pub has_row : ℤ → List ℤ → Bool
has_row row [] = false
has_row row (r ∷ rs) = same r row || has_row row rs

unfoldable pub append_unique_row : List ℤ → ℤ → List ℤ
unfolding has_row
append_unique_row rows row = if has_row row rows then rows else rows ++ row ∷ []

abbrev pub escape : Text → Text
escape t = 0x1b ∷ t

unfoldable pub claim_rows : ℕ → ℕ → Text
unfolding decimal_ℤ
claim_rows claimed reserved =
    let opened = if claimed == 0 then 1 else claimed in
    let index = if claimed == 0 then escape (codes "D") ++ escape (codes "[A") else [] in
    let grown = decimal_ℤ (pos (reserved - opened)) in
    if leb reserved claimed
    then []
    else if ltb opened reserved
    then index
      ++ (escape (codes "[")
          ++ (grown ++ (codes "S" ++ (escape (codes "[") ++ (grown ++ codes "A")))))
    else index

unfoldable pub clear_sequence : ℤ → Text
unfolding decimal_ℤ
clear_sequence row =
    escape (codes "7")
    ++ (escape (codes "[r")
        ++ (escape (codes "[0m")
            ++ (escape (codes "[")
                ++ (decimal_ℤ row
                    ++ (codes ";1H" ++ (escape (codes "[2K") ++ escape (codes "8")))))))

-- A line at a row, on a cleared row.
abbrev pub line_at : ℤ → Text → Text
line_at row line =
    escape (codes "[") ++ (decimal_ℤ row ++ (codes ";1H" ++ (escape (codes "[2K") ++ line)))

unfoldable pub menu_frame : ℤ → List Text → Text
unfolding decimal_ℤ
menu_frame row [] = []
menu_frame row (l ∷ ls) =
    line_at row l ++ (status_bar_style_sequence ++ menu_frame (row +ℤ pos 1) ls)

unfoldable pub layout_sequences : List Text
layout_sequences =
    escape (codes "c")
    ∷ escape (codes "[J")
    ∷ escape (codes "[0J")
    ∷ escape (codes "[1J")
    ∷ escape (codes "[2J")
    ∷ escape (codes "[3J")
    ∷ escape (codes "[r")
    ∷ escape (codes "[;r")
    ∷ escape (codes "[?47h")
    ∷ escape (codes "[?47l")
    ∷ escape (codes "[?1047h")
    ∷ escape (codes "[?1047l")
    ∷ escape (codes "[?1049h")
    ∷ escape (codes "[?1049l")
    ∷ []

unfoldable pub terminal_output_resets_layout : List ℕ → Bool
unfolding contains_any layout_sequences
terminal_output_resets_layout bytes = contains_any bytes layout_sequences

-- The `n` rows from `row` upwards are to be cleared.
unfoldable pub given_back : ℕ → ℤ → List ℤ → List ℤ
unfolding append_unique_row
given_back zero row rows = rows
given_back (suc n) row rows = given_back n (minus row 1) (append_unique_row rows row)
