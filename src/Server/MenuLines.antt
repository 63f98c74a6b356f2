-- ===== src/Server/MenuLines.antt =====
-- What the open switcher draws (internal/server/attach_menu.go: linesLocked, sessionLine and
-- menuFooterLine, with attentionFlag of internal/server/status_bar_content.go).
pub mod Width
use Prim.Native.String.{String}
use falkn.Base.{
  ℕ, zero, suc, ◌+◌, ◌-◌, Bool, true, false, not, List, [], ◌∷◌, ◌++◌, length, take, drop, min, leb,
  ltb, ◌==◌, if◌then◌else◌, same,
}
use falkn.Base.Int.{ℤ, pos, negsuc}
use falkn.Base.Text.{Text, codes, string_eq, is_empty, has_prefix, trim_space}
use falkn.Base.Strings.{decimal}
use falkn.Agent.State.{AttentionState, no_attention, needs_input, completed, failed}
use falkn.Session.Live.{SessionRecord}
use falkn.Server.Switch.{Menu}
use falkn.Server.StatusBar.Sequences.{minimum_status_bar_columns, status_bar_style_sequence}
use falkn.Server.StatusBar.Content.{
  attention_needs_input_style, attention_failed_style, clean_status_label,
}
use falkn.Server.StatusBar.Line.{rule, at_least_one, truncate_runes}

abbrev pub attention_completed_style : Text
attention_completed_style = 0x1b ∷ codes "[0;38;5;114m"

abbrev pub menu_selected_style : Text
menu_selected_style = 0x1b ∷ codes "[0;7;38;5;75m"

abbrev pub menu_dim_style : Text
menu_dim_style = 0x1b ∷ codes "[0;38;5;245m"

abbrev pub menu_header_style : Text
menu_header_style = 0x1b ∷ codes "[0;38;5;75m"

abbrev pub menu_maximum_rows : ℕ
menu_maximum_rows = 12

pub record Flag : Type 0 where
  pub letter : Text
  pub flag_style : Text

abbrev pub attention_flag_of : AttentionState → Flag
attention_flag_of needs_input = record {
  letter = codes "w";
  flag_style = attention_needs_input_style;
}
attention_flag_of failed = record { letter = codes "!"; flag_style = attention_failed_style }
attention_flag_of completed = record { letter = codes "d"; flag_style = attention_completed_style }
attention_flag_of no_attention = record { letter = codes "r"; flag_style = [] }

abbrev pub attention_flag : SessionRecord → Flag
attention_flag r =
    if not (same r.status "running")
    then record { letter = codes "·"; flag_style = [] }
    else attention_flag_of r.attention

abbrev attention_label_of : AttentionState → Text
attention_label_of needs_input = codes "needs input"
attention_label_of failed = codes "failed"
attention_label_of completed = codes "done"
attention_label_of no_attention = []

abbrev pub attention_label : SessionRecord → Text
attention_label r =
    if not (same r.status "running") then codes r.status else attention_label_of r.attention

-- strings.Repeat of a space
abbrev pub blanks : ℕ → Text
blanks zero = []
blanks (suc n) = 0x20 ∷ blanks n

-- strings.Replace of the first `part`, which is not empty.
unfoldable pub replace_first : Text → Text → Text → Text
unfolding has_prefix
replace_first [] part by = []
replace_first (c ∷ cs) part by =
    let rest = replace_first cs part by in
    if has_prefix (c ∷ cs) part then by ++ drop (length part) (c ∷ cs) else c ∷ rest

-- What stands at the right end of a session's row, for the attached session `id`.
unfoldable pub right_text : String → SessionRecord → Text
unfolding trim_space
right_text id r =
    let agent = if same r.agent_id "shell" then [] else codes r.agent_id in
    let said = trim_space (agent ++ (codes " " ++ attention_label r)) in
    if same r.id id then trim_space (said ++ codes " · attached") else said

unfoldable pub left_text : Bool → ℕ → SessionRecord → Text
unfolding clean_status_label decimal
left_text selected index r =
    (if selected then codes "▸" else codes " ")
    ++ (codes " "
        ++ ((if ltb index 9 then decimal (index + 1) else codes " ")
            ++ (codes " ["
                ++ ((attention_flag r).letter ++ (codes "] " ++ clean_status_label r.title)))))

abbrev pub spread : Text → ℕ → Text → Text
spread left gap right = left ++ (blanks gap ++ (right ++ codes " "))

-- The two ends of a row with the gap between them; the left one gives way.
unfoldable pub plain_row : ℕ → Text → Text → Text
unfolding truncate_runes
plain_row width left right =
    let cut = truncate_runes left (at_least_one (width - length right - 2)) in
    if leb (length left + length right + 2) width
    then spread left (width - length left - length right - 1) right
    else spread cut (at_least_one (width - length cut - length right - 1)) right

abbrev pub flagged : Flag → Text → Text
flagged flag plain =
    let shown = codes "[" ++ (flag.letter ++ codes "]") in
    if is_empty flag.flag_style
    then plain
    else replace_first plain shown (flag.flag_style ++ (shown ++ menu_dim_style))

unfoldable pub session_line : String → ℕ → ℕ → SessionRecord → ℕ → Text
unfolding plain_row left_text right_text replace_first
session_line id width selection r index =
    let selected = index == selection in
    let plain = plain_row width (left_text selected index r) (right_text id r) in
    if selected
    then menu_selected_style ++ (plain ++ status_bar_style_sequence)
    else menu_dim_style ++ (flagged (attention_flag r) plain ++ status_bar_style_sequence)

unfoldable pub session_lines : String → ℕ → ℕ → List SessionRecord → ℕ → List Text
unfolding session_line
session_lines id width selection [] index = []
session_lines id width selection (r ∷ rs) index =
    session_line id width selection r index ∷ session_lines id width selection rs (suc index)

-- max(columns-1, menuAvailableColumns-1)
abbrev pub menu_width : ℤ → ℕ
menu_width (pos n) =
    if ltb n minimum_status_bar_columns then minimum_status_bar_columns - 1 else n - 1
menu_width (negsuc n) = minimum_status_bar_columns - 1

-- The first session that is shown.
abbrev pub first_row : ℕ → ℕ → ℕ
first_row selection count =
    if ltb menu_maximum_rows count then min (selection - 6) (count - menu_maximum_rows) else 0

abbrev pub visible_sessions : Menu → List SessionRecord
visible_sessions menu =
    take menu_maximum_rows (drop (first_row menu.selection (length menu.sessions)) menu.sessions)

abbrev pub menu_hint : Text
menu_hint = codes "↑↓ select · ⏎ switch · esc close"

unfoldable pub menu_footer_line : ℕ → Text
unfolding truncate_runes
menu_footer_line width =
    let hint = if ltb width (length menu_hint) then truncate_runes menu_hint width else menu_hint in
    menu_header_style
    ++ (codes "─ sessions "
        ++ (rule (at_least_one (width - length hint - 13))
            ++ (codes " " ++ (hint ++ (codes " " ++ status_bar_style_sequence)))))

abbrev pub session_rows : String → ℤ → Menu → List Text
session_rows id columns menu =
    session_lines id (menu_width columns) menu.selection (visible_sessions menu)
      (first_row menu.selection (length menu.sessions))

unfoldable pub drawn_menu_lines : String → ℤ → Menu → List Text
unfolding session_lines menu_footer_line
drawn_menu_lines id columns menu =
    if not menu.is_open
    then []
    else session_rows id columns menu ++ menu_footer_line (menu_width columns) ∷ []
