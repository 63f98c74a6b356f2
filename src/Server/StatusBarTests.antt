-- ===== src/Server/StatusBarTests.antt =====
-- Runs of the status bar and the switcher's rows, and inputs at which its theorems hold.
use Prim.Native.String.{String}
use falkn.Base.{
  ℕ, ◌<◌, max, length, All, arith, none, ◌+◌, ◌≤◌, ◌↔◌, ◌≡◌, refl, Bool, true, false, not, List, [],
  ◌∷◌, ◌++◌, some,
}
use falkn.Base.Int.{ℤ, pos}
use falkn.Base.Strings.{decimal_ℤ}
use falkn.Base.Text.{Text, codes}
use falkn.Agent.State.{AttentionState, no_attention, needs_input}
use falkn.Session.Live.{SessionRecord}
use falkn.Server.Handoff.{Base64}
use falkn.Server.Switch.{
  switchable_sessions, running_records, sort_oldest, insert_before, session_comes_before, position,
  select_switch_target, Menu,
}
use falkn.Server.Stream.{start}
use falkn.Server.MenuLines.{
  drawn_menu_lines, session_rows, menu_footer_line, menu_width, first_row, right_text,
}
use falkn.Server.MenuLines.Width.{IsNarrow, drawn_menu_lines-Shows}
use falkn.Server.StatusBar.{
  chrome, StatusBar, BarCall, write_child, render_now, close_bar, resize_to, menu,
  new_attach_status_bar, clear_rows, frame, render, render_locked, draw, reserved_rows,
}
use falkn.Server.StatusBar.Sequences.{
  claim_rows, has_row, append_unique_row, terminal_content_rows, terminal_output_resets_layout,
  menu_frame,
}
use falkn.Server.StatusBar.Content.{
  FooterContent, empty_content, footer_content_for, tell_records, tell_record,
}
use falkn.Server.StatusBar.Content.Numbered.{
  running_beside, stays_or_goes, footer_content_for-Returns,
}
use falkn.Server.StatusBar.Line.{status_bar_line}
use falkn.Server.StatusBar.Line.Clean.{literal}
use falkn.Server.StatusBar.Line.Width.{status_bar_line-Shows}
use falkn.Server.StatusBar.Line.Shows.{Shows}
use falkn.Server.StatusBar.Placed.{state_after, child_bytes, Placed}
use falkn.Server.StatusBar.Passing.{all_taken, after_calls, after_calls-passes}

rows_given :
    (terminal_content_rows (pos 80) (pos 24) ≡ pos 23)
    × (terminal_content_rows (pos 39) (pos 24) ≡ pos 24)
    × (append_unique_row (pos 3 ∷ []) (pos 3) ≡ pos 3 ∷ [])
    × (append_unique_row (pos 3 ∷ []) (pos 4) ≡ pos 3 ∷ pos 4 ∷ [])
unfolding append_unique_row has_row
rows_given = (refl, refl, refl, refl)

rows_claimed :
    (claim_rows 0 1 ≡ codes "\u{1b}D\u{1b}[A")
    × (claim_rows 1 4 ≡ codes "\u{1b}[3S\u{1b}[3A")
    × (claim_rows 0 3 ≡ codes "\u{1b}D\u{1b}[A\u{1b}[2S\u{1b}[2A")
    × (claim_rows 2 2 ≡ [])
unfolding claim_rows decimal_ℤ
rows_claimed = (refl, refl, refl, refl)

resets :
    (terminal_output_resets_layout (codes "a\u{1b}[2J") ≡ true)
    × (terminal_output_resets_layout (codes "a\u{1b}[K") ≡ false)
unfolding terminal_output_resets_layout falkn.Base.Text.contains
resets = (refl, refl)

-- A footer that names its content.
abbrev named : ℤ → Text → Bool → Text
named columns content menu_open = content

abbrev willing : Text → Bool
willing t = true

abbrev new_bar : StatusBar Text
new_bar = new_attach_status_bar (pos 80) (pos 24) (codes "Falkn")

drawn :
    (render named willing new_bar).1.written
    ≡ chrome (
        codes
          "\u{1b}D\u{1b}[A\u{1b}7\u{1b}[1;23r\u{1b}[0;38;5;75m\u{1b}[24;1H\u{1b}[2KFalkn\u{1b}[0m\u{1b}8")
      ∷ []
unfolding render render_locked clear_rows draw frame claim_rows reserved_rows menu_frame decimal_ℤ
    new_attach_status_bar
drawn = refl

abbrev plain : Base64
plain = record { encode_string = λ t. t; decode_string = λ t. some t }

-- The child writes half a sequence, the bar is to be drawn, and the child ends the sequence.
abbrev calls : List ((Text → Bool) × BarCall Text)
calls =
    (willing, render_now)
    ∷ (willing, write_child (codes "ab\u{1b}[") 4 true)
    ∷ (willing, resize_to (pos 90) (pos 30))
    ∷ (willing, write_child (codes "2Jc") 2 true)
    ∷ (willing, menu (codes "one" ∷ []))
    ∷ (willing, close_bar)
    ∷ []

after_calls-passes_example :
    (child_bytes (after_calls named plain (pos 80) (pos 24) (codes "Falkn") calls).written
      ≡ all_taken named plain calls)
    × Placed start (after_calls named plain (pos 80) (pos 24) (codes "Falkn") calls).written
    × ((after_calls named plain (pos 80) (pos 24) (codes "Falkn") calls).stream_state
        ≡ state_after start
            (after_calls named plain (pos 80) (pos 24) (codes "Falkn") calls).written)
after_calls-passes_example = after_calls-passes named plain (pos 80) (pos 24) (codes "Falkn") calls

-- Two sessions, of which the second needs input.
abbrev numbered : String → ℕ → AttentionState → SessionRecord
numbered id created attention = record {
  id = id;
  title = codes "fix\u{1b}[2J the  bar";
  directory = codes "/";
  agent_id = "codex";
  created_at = created;
  status = "running";
  process = "codex";
  attached_clients = 1;
  focused_clients = 0;
  notifications_muted = false;
  attention = attention;
  archived = false;
  permission_mode = "standard";
  kind = "agent";
}

abbrev records : List SessionRecord
records = numbered "a" 1 no_attention ∷ numbered "b" 2 needs_input ∷ []

abbrev content : FooterContent
content = record (footer_content_for "a" records) { prefix_name = codes "^a" }

told :
    (content.session_number ≡ 1) × (content.session_count ≡ 2) × (content.others_needing_input ≡ 1)
unfolding footer_content_for tell_records tell_record switchable_sessions running_records
    sort_oldest insert_before session_comes_before position
told = (refl, refl, refl)

footer_content_for-Returns_example :
    (select_switch_target
        (switchable_sessions records)
        "b"
        (pos 0)
        (pos (footer_content_for "a" records).session_number)
      ≡ stays_or_goes "a" (footer_content_for "a" records).session_number)
    × (((footer_content_for "a" records).session_number ≡ 0)
        ↔ (position "a" (switchable_sessions records) ≡ none))
    × ((footer_content_for "a" records).other_sessions ≡ running_beside "a" records)
    × ((footer_content_for "a" records).others_needing_input
          + (footer_content_for "a" records).others_failed
        ≤ (footer_content_for "a" records).other_sessions)
footer_content_for-Returns_example = footer_content_for-Returns "a" "b" records

-- What the bar shows at 60 columns and at 12.
abbrev sample : FooterContent
sample = record empty_content {
  title = codes "fix\u{1b}  the bar";
  agent = codes "codex";
  others_needing_input = 1;
  other_sessions = 1;
  prefix_name = codes "^a";
  session_number = 1;
  session_count = 2;
}

lines :
    (status_bar_line (pos 60) sample true
      ≡ codes
          "─ Falkn · fix the bar · codex · \u{1b}[0;1;38;5;214m1 needs input\u{1b}[0;38;5;75m ────── ^a [1]")
    × (status_bar_line (pos 12) sample false ≡ codes "─ Falkn ───")
    × (status_bar_line (pos 5) sample false ≡ codes "─ F…")
unfolding status_bar_line falkn.Base.Strings.join_with falkn.Base.Strings.fields falkn.Base.list_beq
lines = (refl, refl, refl)

status_bar_line-Shows_example : Shows 59 (status_bar_line (pos 60) sample false)
status_bar_line-Shows_example =
    status_bar_line-Shows (pos 60) sample false (literal (codes "^a") refl)

abbrev shown_menu : Menu
shown_menu = record { is_open = true; sessions = records; selection = 1 }

menu_drawn :
    drawn_menu_lines "a" (pos 48) shown_menu
    ≡ codes "\u{1b}[0;38;5;245m  1 [r] fix[2J the bar        codex · attached \u{1b}[0;38;5;75m"
      ∷ codes "\u{1b}[0;7;38;5;75m▸ 2 [w] fix[2J the bar       codex needs input \u{1b}[0;38;5;75m"
      ∷ codes "\u{1b}[0;38;5;75m─ sessions ── ↑↓ select · ⏎ switch · esc close \u{1b}[0;38;5;75m"
      ∷ []
unfolding drawn_menu_lines falkn.Base.Strings.join_with falkn.Base.Strings.fields
    falkn.Base.list_beq
menu_drawn = refl

narrow : All (λ r. IsNarrow 47 (right_text "a" r)) records
unfolding right_text
narrow = (
  record { clean = literal (codes "codex · attached") refl; narrow = omega arith },
  (record { clean = literal (codes "codex needs input") refl; narrow = omega arith }, tt),
)

drawn_menu_lines-Shows_example :
    (drawn_menu_lines "a" (pos 48) shown_menu
      ≡ session_rows "a" (pos 48) shown_menu ++ menu_footer_line (menu_width (pos 48)) ∷ [])
    × All (Shows (menu_width (pos 48))) (session_rows "a" (pos 48) shown_menu)
    × Shows (max 46 (menu_width (pos 48))) (menu_footer_line (menu_width (pos 48)))
    × (length (session_rows "a" (pos 48) shown_menu) ≤ 12)
    × (first_row shown_menu.selection (length shown_menu.sessions) ≤ shown_menu.selection)
    × (shown_menu.selection
        < first_row shown_menu.selection (length shown_menu.sessions)
          + length (session_rows "a" (pos 48) shown_menu))
drawn_menu_lines-Shows_example =
    drawn_menu_lines-Shows "a" (pos 48) shown_menu refl (omega arith) narrow
