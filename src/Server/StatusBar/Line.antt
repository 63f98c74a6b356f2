-- ===== src/Server/StatusBar/Line.antt =====
-- statusBarLine and its parts (internal/server/status_bar_content.go). A text is a list of runes, so
-- runeCount is its length.
pub mod Clean
pub mod Shows
pub mod Width
use falkn.Base.{
  ℕ, zero, suc, ◌+◌, ◌-◌, Bool, true, false, List, [], ◌∷◌, ◌++◌, Option, none, some, length, take,
  leb, ltb, ◌==◌, if◌then◌else◌,
}
use falkn.Base.Int.{ℤ, pos, negsuc}
use falkn.Base.Text.{Text, codes, is_empty}
use falkn.Base.Strings.{trim_prefix}
use falkn.Server.StatusBar.Sequences.{status_bar_style_sequence}
use falkn.Server.StatusBar.Content.{
  FooterContent, FooterSegment, droppable_segments, kept_segments, hint_forms,
}

abbrev pub prefix_armed_style : Text
prefix_armed_style = 0x1b ∷ codes "[0;7;38;5;75m"

abbrev pub footer_mark : Text
footer_mark = codes "─ Falkn"

-- strings.Repeat of the rule
abbrev pub rule : ℕ → Text
rule zero = []
rule (suc n) = 0x2500 ∷ rule n

abbrev pub at_least_one : ℕ → ℕ
at_least_one n = if ltb n 1 then 1 else n

-- max(columns-1, 1)
abbrev pub line_width : ℤ → ℕ
line_width (pos n) = at_least_one (n - 1)
line_width (negsuc n) = 1

unfoldable pub segments_width : List FooterSegment → ℕ
segments_width [] = 0
segments_width (s ∷ ss) = length (codes " · ") + length s.text + segments_width ss

abbrev pub footer_visible_width : List FooterSegment → ℕ
footer_visible_width segments = length footer_mark + segments_width segments

abbrev pub styled : FooterSegment → Text
styled s = if is_empty s.style then s.text else s.style ++ (s.text ++ status_bar_style_sequence)

unfoldable pub render_segments : List FooterSegment → Text
render_segments [] = []
render_segments (s ∷ ss) = codes " · " ++ (styled s ++ render_segments ss)

abbrev pub render_footer : List FooterSegment → Text
render_footer segments = footer_mark ++ render_segments segments

-- The padding behind a line, for the columns that remain.
abbrev pub padding : ℕ → Text
padding remaining =
    if ltb 1 remaining
    then codes " " ++ rule (remaining - 1)
    else if remaining == 1
    then codes " "
    else []

abbrev pub pad_footer : Text → ℕ → ℕ → Text
pad_footer line visible width = line ++ padding (width - visible)

unfoldable pub truncate_runes : Text → ℕ → Text
truncate_runes value maximum =
    if maximum == 0
    then []
    else if leb (length value) maximum
    then value
    else if maximum == 1
    then codes "…"
    else take (maximum - 1) value ++ codes "…"

unfoldable pub render_hint : FooterContent → Text → Text
unfolding trim_prefix
render_hint content hint =
    if content.prefix_armed
    then prefix_armed_style
      ++ (content.prefix_name
          ++ (status_bar_style_sequence ++ trim_prefix hint content.prefix_name))
    else hint

unfoldable pub last_only : List Text → List Text
last_only [] = []
last_only (h ∷ []) = h ∷ []
last_only (h ∷ g ∷ gs) = last_only (g ∷ gs)

abbrev pub or_else : Option Text → Option Text → Option Text
or_else (some t) later = some t
or_else none later = later

module _ (width : ℕ) (content : FooterContent) where
  -- The line with a hint, and the first hint with which the segments fit.
  abbrev pub with_hint : List FooterSegment → Text → Text
  with_hint candidate hint =
      let gap = width - footer_visible_width candidate - length hint - 2 in
      render_footer candidate
      ++ (codes " " ++ (rule (at_least_one gap) ++ (codes " " ++ render_hint content hint)))

  unfoldable pub first_hint : List FooterSegment → List Text → Option Text
  unfolding segments_width render_segments render_hint
  first_hint candidate [] = none
  first_hint candidate (h ∷ hs) =
      let later = first_hint candidate hs in
      if ltb width (footer_visible_width candidate + length h + 3)
      then later
      else some (with_hint candidate h)

  -- The loops over the number of the segments that are dropped.
  unfoldable pub fit_hint : List Text → List FooterSegment → List FooterSegment → Option Text
  unfolding first_hint
  fit_hint hints [] kept = first_hint kept hints
  fit_hint hints (d ∷ ds) kept =
      or_else (first_hint ((d ∷ ds) ++ kept) hints) (fit_hint hints ds kept)

module _ (width : ℕ) where
  abbrev pub fit_segments : List FooterSegment → Option Text
  fit_segments candidate =
      let visible = footer_visible_width candidate in
      if leb visible width then some (pad_footer (render_footer candidate) visible width) else none

  unfoldable pub fit_plain : List FooterSegment → List FooterSegment → Option Text
  unfolding segments_width render_segments
  fit_plain [] kept = fit_segments kept
  fit_plain (d ∷ ds) kept = or_else (fit_segments ((d ∷ ds) ++ kept)) (fit_plain ds kept)

abbrev pub line_or : Option Text → Text → Text
line_or (some t) other = t
line_or none other = other

unfoldable pub status_bar_line : ℤ → FooterContent → Bool → Text
unfolding droppable_segments kept_segments hint_forms last_only fit_hint fit_plain truncate_runes
status_bar_line columns content menu_open =
    let width = line_width columns in
    let droppable = droppable_segments content in
    let kept = kept_segments content in
    let hints = if menu_open then last_only (hint_forms content) else hint_forms content in
    let truncated = truncate_runes footer_mark width in
    line_or (fit_hint width content hints droppable kept)
      (line_or (fit_plain width droppable kept) (pad_footer truncated (length truncated) width))
