-- ===== src/Server/StatusBar.antt =====
-- attachStatusBar (internal/server/status_bar.go): what reaches the attached terminal. The history of
-- the writes is kept as pieces, the child's bytes and the bar's own. The text of the footer's line is
-- an argument, as are the writes that the terminal takes.
pub mod Sequences
pub mod Content
pub mod Line
pub mod Placed
pub mod Passing
use falkn.Base.{
  ℕ, zero, suc, ◌+◌, ◌-◌, Bool, true, false, not, ◌&&◌, ◌||◌, List, [], ◌∷◌, ◌++◌, length, take,
  suffix, ltb, leb, ◌==◌, if◌then◌else◌, same,
}
use falkn.Base.Int.{ℤ, pos, negsuc, ◌+ℤ◌, leb_ℤ, ltb_ℤ, int_eq}
use falkn.Base.Text.{Text, codes, is_empty, contains_any}
use falkn.Base.Strings.{decimal_ℤ}
use falkn.Server.Handoff.{Base64, attach_handoff_session_id}
use falkn.Server.Stream.{TerminalStreamState, start, safe_boundary, consume}
use falkn.Server.StatusBar.Sequences.{
  layout_sequence_tail_bytes, handoff_sequence_tail_bytes, status_bar_style_sequence,
  status_bar_visible, minus, append_unique_row, escape, claim_rows, clear_sequence, line_at,
  menu_frame, terminal_output_resets_layout, given_back,
}

pub data Piece : Type 0 where
  child chrome : List ℕ → Piece

-- `C` is the type of the footer's content.
pub record StatusBar (C : Type 0) : Type 0 where
  pub columns : ℤ
  pub rows : ℤ
  pub content : C
  pub menu_lines : List Text
  pub scroll_region_dirty : Bool
  pub reserved_rows_claimed : ℕ
  pub render_pending : Bool
  pub pending_clear_rows : List ℤ
  pub layout_sequence_tail : List ℕ
  pub handoff_sequence_tail : List ℕ
  pub handoff_session_id : Text
  pub stream_state : TerminalStreamState
  pub closed : Bool
  pub written : List Piece

pub data BarResult : Type 0 where
  fine write_failed handoff : BarResult

module _ {C : Type 0} where
  unfoldable pub new_attach_status_bar : ℤ → ℤ → C → StatusBar C
  new_attach_status_bar columns rows content = record {
    columns = columns;
    rows = rows;
    content = content;
    menu_lines = [];
    scroll_region_dirty = true;
    reserved_rows_claimed = 0;
    render_pending = true;
    pending_clear_rows = [];
    layout_sequence_tail = [];
    handoff_sequence_tail = [];
    handoff_session_id = [];
    stream_state = start;
    closed = false;
    written = [];
  }

  abbrev pub is_visible : StatusBar C → Bool
  is_visible bar = status_bar_visible bar.columns bar.rows

  unfoldable pub reserved_rows : StatusBar C → ℕ
  reserved_rows bar = if not (is_visible bar) then 0 else 1 + length bar.menu_lines

  abbrev pub menu_open : StatusBar C → Bool
  menu_open bar = ltb 0 (length bar.menu_lines)

  abbrev pub columns_and_content_rows : StatusBar C → ℤ × ℤ
  columns_and_content_rows bar = (bar.columns, minus bar.rows (reserved_rows bar))

  -- A write of the bar's own, which the history holds also when it fails.
  abbrev pub write_own : Text → StatusBar C → StatusBar C
  write_own t bar = record bar { written = bar.written ++ chrome t ∷ [] }

  unfoldable pub observe_layout : List ℕ → StatusBar C → StatusBar C
  unfolding terminal_output_resets_layout
  observe_layout bytes bar =
      let combined = bar.layout_sequence_tail ++ bytes in
      let resets = terminal_output_resets_layout combined in
      record bar {
        scroll_region_dirty = resets || bar.scroll_region_dirty;
        render_pending = resets || bar.render_pending;
        layout_sequence_tail = suffix layout_sequence_tail_bytes combined;
      }

module _ {C : Type 0} where
  abbrev pub with_content : C → StatusBar C → StatusBar C
  with_content content bar = record bar { content = content; render_pending = true }

  -- resize, before it renders.
  unfoldable pub resized : ℤ → ℤ → StatusBar C → StatusBar C
  unfolding append_unique_row
  resized columns rows bar =
      let cleared =
        if is_visible bar
        then append_unique_row bar.pending_clear_rows bar.rows
        else bar.pending_clear_rows in
      let shown = status_bar_visible columns rows in
      record bar {
        pending_clear_rows = cleared;
        columns = columns;
        rows = rows;
        reserved_rows_claimed = if shown then bar.reserved_rows_claimed else 0;
        menu_lines = if shown then bar.menu_lines else [];
        scroll_region_dirty = true;
        render_pending = true;
      }

  -- setMenuLines, before it renders.
  unfoldable pub with_menu : List Text → StatusBar C → StatusBar C
  unfolding given_back
  with_menu lines bar =
      let fewer = ltb (length lines) (length bar.menu_lines) in
      let back =
        given_back (length bar.menu_lines - length lines) (minus bar.rows 1)
          bar.pending_clear_rows in
      record bar {
        pending_clear_rows = if fewer then back else bar.pending_clear_rows;
        reserved_rows_claimed = if fewer then 1 + length lines else bar.reserved_rows_claimed;
        menu_lines = lines;
        scroll_region_dirty = true;
        render_pending = true;
      }

  abbrev pub result_of : Bool × StatusBar C → BarResult × StatusBar C
  result_of (true, bar) = (fine, bar)
  result_of (false, bar) = (write_failed, bar)

  abbrev pub nothing_pending : StatusBar C → Bool
  nothing_pending bar = not bar.render_pending && length bar.pending_clear_rows == 0

  abbrev pub with_handoff : Text → StatusBar C → StatusBar C
  with_handoff id bar = record bar { handoff_session_id = id }

  abbrev pub with_handoff_tail : List ℕ → StatusBar C → StatusBar C
  with_handoff_tail combined bar = record bar {
    handoff_sequence_tail = suffix handoff_sequence_tail_bytes combined;
  }

  -- observeHandoffLocked
  unfoldable pub observe_handoff : Base64 → List ℕ → StatusBar C → StatusBar C
  unfolding attach_handoff_session_id
  observe_handoff base64 bytes bar =
      let combined = bar.handoff_sequence_tail ++ bytes in
      let id = attach_handoff_session_id base64 combined in
      if not (is_empty bar.handoff_session_id)
      then bar
      else if not (is_empty id)
      then with_handoff id bar
      else with_handoff_tail combined bar

  -- The bytes are written, and the layout and the stream are kept up with.
  unfoldable pub followed : List ℕ → StatusBar C → StatusBar C
  unfolding observe_layout
  followed taken bar =
      let laid = observe_layout taken (record bar { written = bar.written ++ child taken ∷ [] }) in
      record laid { stream_state = consume laid.stream_state taken }

  -- What Write does with the bytes that the terminal took.
  unfoldable pub observed : Base64 → List ℕ → StatusBar C → StatusBar C
  unfolding followed observe_handoff
  observed base64 taken bar = observe_handoff base64 taken (followed taken bar)

  unfoldable pub request_handoff : Text → StatusBar C → Bool × StatusBar C
  request_handoff id bar =
      if not (is_empty bar.handoff_session_id) then (false, bar) else (true, with_handoff id bar)

module _ {C : Type 0} (line : ℤ → C → Bool → Text) (accepts : Text → Bool) where
  -- clearLocked of the rows in turn, until a write fails.
  unfoldable pub clear_rows : List ℤ → StatusBar C → Bool × StatusBar C
  unfolding clear_sequence
  clear_rows [] bar = (true, bar)
  clear_rows (row ∷ rows) bar =
      let cleared = write_own (clear_sequence row) bar in
      elim (accepts (clear_sequence row)) [
        | true ↦ clear_rows rows cleared
        | false ↦ (false, cleared)
      ]

  unfoldable pub frame : StatusBar C → Text
  unfolding claim_rows reserved_rows menu_frame decimal_ℤ
  frame bar =
      let reserved = reserved_rows bar in
      let content_bottom = minus bar.rows reserved in
      let region = escape (codes "[1;") ++ (decimal_ℤ content_bottom ++ codes "r") in
      claim_rows bar.reserved_rows_claimed reserved
      ++ (escape (codes "7")
          ++ ((if bar.scroll_region_dirty then region else [])
              ++ (status_bar_style_sequence
                  ++ (menu_frame (content_bottom +ℤ pos 1) bar.menu_lines
                      ++ (line_at bar.rows (line bar.columns bar.content (menu_open bar))
                          ++ (escape (codes "[0m") ++ escape (codes "8")))))))

  unfoldable pub draw : StatusBar C → Bool × StatusBar C
  unfolding frame reserved_rows
  draw bar =
      if not (is_visible bar)
      then (true, record bar { render_pending = false })
      else if accepts (frame bar)
      then (
        true,
        record (write_own (frame bar) bar) {
          scroll_region_dirty = false;
          reserved_rows_claimed = reserved_rows bar;
          render_pending = false;
        },
      )
      else (false, write_own (frame bar) bar)

  abbrev pub draw_after : Bool × StatusBar C → Bool × StatusBar C
  draw_after (false, bar) = (false, bar)
  draw_after (true, bar) = draw (record bar { pending_clear_rows = [] })

  -- renderLocked
  unfoldable pub render_locked : StatusBar C → Bool × StatusBar C
  unfolding clear_rows draw safe_boundary
  render_locked bar =
      if (bar.closed || not (safe_boundary bar.stream_state)) || nothing_pending bar
      then (true, bar)
      else draw_after (clear_rows bar.pending_clear_rows bar)

  unfoldable pub render : StatusBar C → Bool × StatusBar C
  unfolding render_locked
  render bar = render_locked (record bar { render_pending = true })

  unfoldable pub resize : ℤ → ℤ → StatusBar C → Bool × StatusBar C
  unfolding render_locked
  resize columns rows bar = render_locked (resized columns rows bar)

  unfoldable pub set_menu_lines : List Text → StatusBar C → Bool × StatusBar C
  unfolding render_locked
  set_menu_lines lines bar =
      if length lines == 0 && length bar.menu_lines == 0
      then (true, bar)
      else render_locked (with_menu lines bar)

  -- setNotificationsMuted, setPrefixArmed and updateSessions, for the content that they install and
  -- whether it differs from the one shown.
  unfoldable pub set_content : C → Bool → StatusBar C → Bool × StatusBar C
  unfolding render_locked
  set_content content differs bar =
      if differs then render_locked (with_content content bar) else (true, bar)

  -- The reserved rows, the last one first.
  abbrev pub cleared_all : Bool × StatusBar C → Bool × StatusBar C
  cleared_all (false, bar) = (false, bar)
  cleared_all (true, bar) =
      if is_visible bar
      then clear_rows (given_back (reserved_rows bar) bar.rows []) bar
      else (true, bar)

  unfoldable pub close : StatusBar C → Bool × StatusBar C
  unfolding clear_rows reserved_rows given_back safe_boundary
  close bar =
      let shut = record bar { closed = true } in
      if bar.closed
      then (true, bar)
      else if not (safe_boundary bar.stream_state)
      then (true, shut)
      else cleared_all (clear_rows bar.pending_clear_rows shut)

  -- Write of the child's bytes, of which the terminal takes the first `count`, perhaps with an error.
  unfoldable pub write : Base64 → List ℕ → ℕ → Bool → StatusBar C → BarResult × StatusBar C
  unfolding observed render_locked
  write base64 bytes count no_error bar =
      let taken = take count bytes in
      let seen = if length taken == 0 then bar else observed base64 taken bar in
      if not no_error
      then (write_failed, seen)
      else if not (is_empty seen.handoff_session_id)
      then (handoff, seen)
      else result_of (render_locked seen)

-- The calls of the bar, in the order in which its lock admits them.
pub data BarCall (C : Type 0) : Type 0 where
  write_child : List ℕ → ℕ → Bool → BarCall C
  render_now close_bar : BarCall C
  resize_to : ℤ → ℤ → BarCall C
  menu : List Text → BarCall C
  show : C → Bool → BarCall C
  prefix_named : C → BarCall C
  ask_handoff : Text → BarCall C

module _ {C : Type 0} (line : ℤ → C → Bool → Text) (base64 : Base64) where
  unfoldable pub act : (Text → Bool) → BarCall C → StatusBar C → StatusBar C
  unfolding write render close resize set_menu_lines set_content request_handoff
  act accepts (write_child bytes count no_error) bar =
      (write line accepts base64 bytes count no_error bar).1
  act accepts render_now bar = (render line accepts bar).1
  act accepts close_bar bar = (close line accepts bar).1
  act accepts (resize_to columns rows) bar = (resize line accepts columns rows bar).1
  act accepts (menu lines) bar = (set_menu_lines line accepts lines bar).1
  act accepts (show content differs) bar = (set_content line accepts content differs bar).1
  act accepts (prefix_named content) bar = record bar { content = content }
  act accepts (ask_handoff id) bar = (request_handoff id bar).1

  -- Each call with the writes that the terminal takes at that time.
  unfoldable pub act_all : List ((Text → Bool) × BarCall C) → StatusBar C → StatusBar C
  act_all [] bar = bar
  act_all ((accepts, c) ∷ cs) bar = act_all cs (act accepts c bar)
