-- ===== src/Server/MenuLines/Width.antt =====
-- The rows of the open switcher take up the columns that they are given.
use falkn.Base.{
  ℕ, zero, suc, ◌+◌, ◌-◌, ◌≤◌, ◌<◌, ◌≡◌, refl, ap, ◌∙◌, Bool, true, false, List, [], ◌∷◌, ◌++◌,
  length, length-append, drop, length-take, length-drop, All, All-drop, All-take, arith, min, max,
  ltb, leb, ◌==◌, if◌then◌else◌, if_cases, same, not,
}
use Prim.Native.String.{String}
use falkn.Base.Int.{ℤ, pos, negsuc}
use falkn.Base.Text.{Text, codes, string_eq, has_prefix}
use falkn.Base.Strings.{decimal}
use falkn.Agent.State.{AttentionState, no_attention, needs_input, completed, failed}
use falkn.Session.Live.{SessionRecord}
use falkn.Server.Switch.{Menu}
use falkn.Server.StatusBar.Sequences.{status_bar_style_sequence}
use falkn.Server.StatusBar.Content.{clean_status_label}
use falkn.Server.StatusBar.Line.{rule, at_least_one, truncate_runes}
use falkn.Server.StatusBar.Line.Clean.{
  IsClean, IsClean-append, literal, decimal-IsClean, clean_status_label-IsClean, Style,
  needs_input_style, failed_style, completed_style, dim_style, armed_style, footer_style, sequence,
}
use falkn.Server.StatusBar.Line.Shows.{
  Shows, nothing, rune, style, counted, Shows-append, clean-Shows, style_alone, rule-Shows,
  truncate_runes-IsClean,
}
use falkn.Server.MenuLines.{
  Flag, attention_flag, attention_flag_of, blanks, replace_first, right_text, left_text, spread,
  plain_row, flagged, session_line, session_lines, menu_width, first_row, visible_sessions,
  menu_hint, menu_footer_line, session_rows, drawn_menu_lines, menu_header_style,
}

has_prefix-rest : (s p : Text) → has_prefix s p ≡ true → s ≡ p ++ drop (length p) s
unfolding has_prefix
has_prefix-rest s [] h = refl
has_prefix-rest [] (c ∷ p) h = cc
has_prefix-rest (d ∷ s) (c ∷ p) h =
    let e : d ≡ c = ground (arith, h) in
    let k : has_prefix s p ≡ true = ground (arith, h) in
    ap (λ (x : ℕ). x ∷ s) e ∙ ap (◌∷◌ c) (has_prefix-rest s p k)

-- Setting a part in a style takes up no columns.
replace_first-Shows :
    (a b : Style) (s part : Text)
    → IsClean s
    → IsClean part
    → Shows (length s) (replace_first s part (sequence a ++ (part ++ sequence b)))
unfolding replace_first
replace_first-Shows a b [] part h k = nothing
replace_first-Shows a b (c ∷ cs) part h k =
    let s = c ∷ cs in
    let rest = drop (length part) s in
    let by = sequence a ++ (part ++ sequence b) in
    if_cases (Shows (length s)) (has_prefix s part) (by ++ rest) (c ∷ replace_first cs part by)
      (λ e.
        let whole = has_prefix-rest s part e in
        let columns : length part + 0 + length rest ≡ length s =
          omega (arith, length-append part rest, ap length whole) in
        counted columns (
          Shows-append (style a (Shows-append (clean-Shows part k) (style_alone b)))
            (clean-Shows rest (All-drop _ (length part) s h))))
      (λ _. rune c h.0 (replace_first-Shows a b cs part h.1 k))

blanks-IsClean : (n : ℕ) → IsClean (blanks n)
blanks-IsClean zero = tt
blanks-IsClean (suc n) = (refl, blanks-IsClean n)

length-blanks : (n : ℕ) → length (blanks n) ≡ n
length-blanks zero = refl
length-blanks (suc n) = ap suc (length-blanks n)

-- The right end of a row has no control characters and leaves three columns.
pub record IsNarrow (width : ℕ) (t : Text) : Type 0 where
  pub clean : IsClean t
  pub narrow : length t + 3 ≤ width

spread-IsClean :
    (l : Text) (gap : ℕ) (r : Text)
    → IsClean l
    → IsClean r
    → IsClean (spread l gap r) × (length (spread l gap r) ≡ length l + gap + length r + 1)
spread-IsClean l gap r h k = (
  IsClean-append l _ h (
      IsClean-append (blanks gap) _ (blanks-IsClean gap)
        (IsClean-append r (codes " ") k (refl, tt))),
  omega (
    arith,
    length-append l (blanks gap ++ (r ++ codes " ")),
    length-append (blanks gap) (r ++ codes " "),
    length-append r (codes " "),
    length-blanks gap,
  ),
)

plain_row-IsClean :
    (width : ℕ) (l r : Text)
    → IsClean l
    → IsNarrow width r
    → IsClean (plain_row width l r) × (length (plain_row width l r) ≡ width)
unfolding plain_row
plain_row-IsClean width l r h k =
    let P = λ (t : Text). IsClean t × (length t ≡ width) in
    let gap = width - length l - length r - 1 in
    let room = at_least_one (width - length r - 2) in
    let cut = truncate_runes l room in
    let rest = at_least_one (width - length cut - length r - 1) in
    let narrow = k.narrow in
    let truncated = truncate_runes-IsClean l room h in
    let short : length cut + length r + 2 ≤ width = ground (arith, truncated.1, narrow) in
    let whole = spread-IsClean l gap r h k.clean in
    let parted = spread-IsClean cut rest r truncated.0 k.clean in
    if_cases P (leb (length l + length r + 2) width) (spread l gap r) (spread cut rest r)
      (λ e. (whole.0, whole.1 ∙ ground (arith, e)))
      (λ _. (parted.0, parted.1 ∙ ground (arith, short)))

left_text-IsClean :
    (selected : Bool) (index : ℕ) (r : SessionRecord) → IsClean (left_text selected index r)
unfolding left_text
left_text-IsClean selected index r =
    let label = codes "] " ++ clean_status_label r.title in
    IsClean-append _ _ (marker selected) (
      refl,
      IsClean-append _ _ (number index) (
        refl,
        (
          refl,
          IsClean-append (attention_flag r).letter label letter
              (refl, (refl, clean_status_label-IsClean r.title)),
        ),
      ),
    )
  where
    marker : (b : Bool) → IsClean (if b then codes "▸" else codes " ")
    marker true = (refl, tt)
    marker false = (refl, tt)

    number : (i : ℕ) → IsClean (if ltb i 9 then decimal (i + 1) else codes " ")
    number i =
        if_cases IsClean (ltb i 9) (decimal (i + 1)) (codes " ") (λ _. decimal-IsClean (i + 1))
          (λ _. (refl, tt))

    of : (s : AttentionState) → IsClean (attention_flag_of s).letter
    of no_attention = (refl, tt)
    of needs_input = (refl, tt)
    of completed = (refl, tt)
    of failed = (refl, tt)

    letter : IsClean (attention_flag r).letter
    letter =
        if_cases (λ (f : Flag). IsClean f.letter) (not (same r.status "running")) _ _
          (λ _. (refl, tt)) (λ _. of r.attention)

flagged-Shows :
    (r : SessionRecord) (t : Text) → IsClean t → Shows (length t) (flagged (attention_flag r) t)
flagged-Shows r t h =
    if_cases (λ (f : Flag). Shows (length t) (flagged f t)) (not (same r.status "running")) _ _
      (λ _. clean-Shows t h) (λ _. of r.attention)
  where
    of : (s : AttentionState) → Shows (length t) (flagged (attention_flag_of s) t)
    of no_attention = clean-Shows t h
    of needs_input =
        replace_first-Shows needs_input_style dim_style t (codes "[w]") h
          (literal (codes "[w]") refl)
    of completed =
        replace_first-Shows completed_style dim_style t (codes "[d]") h (literal (codes "[d]") refl)
    of failed =
        replace_first-Shows failed_style dim_style t (codes "[!]") h (literal (codes "[!]") refl)

-- A style, and the footer's own behind.
in_style-Shows :
    (st : Style) {n : ℕ} {t : Text}
    → Shows n t
    → Shows n (sequence st ++ (t ++ status_bar_style_sequence))
in_style-Shows st h = style st (counted (omega arith) (Shows-append h (style_alone footer_style)))

session_line-Shows :
    (id : String) (width selection : ℕ) (r : SessionRecord) (index : ℕ)
    → IsNarrow width (right_text id r)
    → Shows width (session_line id width selection r index)
unfolding session_line
session_line-Shows id width selection r index k =
    let selected = index == selection in
    let plain = plain_row width (left_text selected index r) (right_text id r) in
    let row =
      plain_row-IsClean width (left_text selected index r) (right_text id r)
        (left_text-IsClean selected index r) k in
    if_cases (Shows width) selected _ _
      (λ _. in_style-Shows armed_style (counted row.1 (clean-Shows plain row.0)))
      (λ _. in_style-Shows dim_style (counted row.1 (flagged-Shows r plain row.0)))

session_lines-Shows :
    (id : String) (width selection : ℕ) (rs : List SessionRecord) (index : ℕ)
    → All (λ r. IsNarrow width (right_text id r)) rs
    → All (Shows width) (session_lines id width selection rs index)
unfolding session_lines
session_lines-Shows id width selection [] index h = tt
session_lines-Shows id width selection (r ∷ rs) index h = (
  session_line-Shows id width selection r index h.0,
  session_lines-Shows id width selection rs (suc index) h.1,
)

menu_footer_line-Shows : (width : ℕ) → 39 ≤ width → Shows (max 46 width) (menu_footer_line width)
unfolding menu_footer_line
menu_footer_line-Shows width h =
    let header = codes "─ sessions " in
    let space : Shows 1 (codes " ") = rune 0x20 refl nothing in
    let long = at_least_one (width - 32 - 13) in
    let line = λ (u : Text).
      menu_header_style
      ++ (header
          ++ (rule (at_least_one (width - length u - 13))
              ++ (codes " " ++ (u ++ (codes " " ++ status_bar_style_sequence))))) in
    let P = λ (u : Text). Shows (max 46 width) (line u) in
    if_cases P (ltb width (length menu_hint)) _ menu_hint (λ e. absurd (ground (arith, e, h)))
      (λ _.
        let columns : 11 + (long + (1 + (32 + (1 + 0)))) ≡ max 46 width = ground arith in
        style footer_style (
          counted columns (
            Shows-append (clean-Shows header (literal header refl)) (
              Shows-append (rule-Shows long) (
                Shows-append space (
                  Shows-append (clean-Shows menu_hint (literal menu_hint refl))
                    (Shows-append space (style_alone footer_style))))))))

menu_width-least : (columns : ℤ) → 39 ≤ menu_width columns
menu_width-least (pos n) = ground arith
menu_width-least (negsuc n) = omega arith

length-session_lines :
    (id : String) (width selection : ℕ) (rs : List SessionRecord) (index : ℕ)
    → length (session_lines id width selection rs index) ≡ length rs
unfolding session_lines
length-session_lines id width selection [] index = refl
length-session_lines id width selection (r ∷ rs) index =
    ap suc (length-session_lines id width selection rs (suc index))

-- The selected session is among the first ones from `first` that there is room for.
first_row-window :
    (selection count : ℕ)
    → selection < count
    → (first_row selection count ≤ selection)
      × (selection < first_row selection count + min 12 (count - first_row selection count))
first_row-window selection count h = (ground (arith, h), ground (arith, h))

-- The open switcher draws at most twelve sessions and a last line. The selected session is among
-- those that it draws. A session's row shows exactly the columns of the menu, without a control
-- character, whatever its title holds, given that the text at its right end has none and leaves
-- three columns. The last line shows as many columns, but at least 46, also where the terminal has
-- fewer.
pub drawn_menu_lines-Shows :
    (id : String) (columns : ℤ) (menu : Menu)
    → menu.is_open ≡ true
    → menu.selection < length menu.sessions
    → All (λ r. IsNarrow (menu_width columns) (right_text id r)) menu.sessions
    → (drawn_menu_lines id columns menu
        ≡ session_rows id columns menu ++ menu_footer_line (menu_width columns) ∷ [])
      × All (Shows (menu_width columns)) (session_rows id columns menu)
      × Shows (max 46 (menu_width columns)) (menu_footer_line (menu_width columns))
      × (length (session_rows id columns menu) ≤ 12)
      × (first_row menu.selection (length menu.sessions) ≤ menu.selection)
      × (menu.selection
          < first_row menu.selection (length menu.sessions) + length (session_rows id columns menu))
unfolding drawn_menu_lines
drawn_menu_lines-Shows id columns menu opened selected narrow =
    let first = first_row menu.selection (length menu.sessions) in
    let width = menu_width columns in
    let shown = visible_sessions menu in
    let window = first_row-window menu.selection (length menu.sessions) selected in
    let rows : length (session_rows id columns menu) ≡ min 12 (length menu.sessions - first) =
      length-session_lines id width menu.selection shown first
      ∙ length-take 12 (drop first menu.sessions)
      ∙ ap (min 12) (length-drop first menu.sessions) in
    (
      rw opened refl,
      session_lines-Shows id width menu.selection shown first
          (All-take _ 12 (drop first menu.sessions) (All-drop _ first menu.sessions narrow)),
      menu_footer_line-Shows width (menu_width-least columns),
      omega (arith, rows),
      window.0,
      omega (arith, rows, window.1),
    )
