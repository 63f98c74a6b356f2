-- ===== src/Session/Manager/Calls.antt =====
-- The calls of the manager (manager.go and shell.go).
use Prim.Native.String.{String}
use falkn.Base.{
  ℕ, ◌*◌, Bool, true, false, not, ◌||◌, List, [], ◌∷◌, ◌++◌, Option, none, some, length, ltb, ◌==◌,
  if◌then◌else◌, same, nat_eq, list_eq,
}
use falkn.Base.Assoc.{lookup, remove}
use falkn.Base.Int.{ℤ, pos, ltb_ℤ}
use falkn.Base.Text.{Text, codes, string_eq, trim_space, is_empty, any}
use falkn.Session.Live.{
  SessionRecord, LiveSession, is_running, normalized_terminal_size, rendered_transcript,
  set_stopped_transcript, set_archived, set_title, set_muted, add_subscriber, detach,
  close_subscribers, read_chunk, noted, exited,
}
use falkn.Session.Live.Foreground.{refresh_foreground_agent}
use falkn.Session.Manager.{
  Manager, World, title_required, title_too_long, kill_failed, stop_first, empty_input,
  input_too_long, unsupported_key, write_failed, resize_failed, Result, ok, err, M, ◌>>=◌, ◌>>◌,
  pure, fail, ensure, find, running, update,
}
use falkn.Session.Manager.Disk.{persist}

abbrev pub max_input_bytes : ℕ
max_input_bytes = 256 * 1024

-- Stop, for a running session: the text is rendered before the process is killed.
unfoldable pub stop_running : World → String → LiveSession → M (Unit {0})
stop_running w id s = do
  let text = (rendered_transcript w.valid s (w.screen id) (pos 2000)).0
  update id (λ x. (rendered_transcript w.valid x (w.screen id) (pos 2000)).1)
  ensure (not s.live || w.killable) kill_failed
  update id (set_stopped_transcript "stopped" text)
  persist w

unfoldable pub stop : World → String → M (Unit {0})
unfolding stop_running
stop w id = do s ← find id; if is_running s then stop_running w id s else pure tt

unfoldable pub forget : String → M (Unit {0})
forget id m = (ok tt, record m { sessions = remove id m.sessions })

-- The world that the second replacement of the state file meets.
abbrev pub later : World → World
later w = record w { writable = w.writable_again }

-- The world in which a session that was running has been stopped.
abbrev pub stopped_in : World → Bool → World
stopped_in w true = later w
stopped_in w false = w

-- Delete
unfoldable pub delete : World → String → M (Unit {0})
delete w id = do
  s ← find id
  if is_running s then stop w id else pure tt
  forget id
  persist (stopped_in w (is_running s))

unfoldable pub archive : World → String → M (Unit {0})
archive w id = do
  s ← find id
  ensure (not (is_running s)) stop_first
  update id (set_archived true)
  persist w

unfoldable pub restore : World → String → M (Unit {0})
restore w id = do s ← find id; update id (set_archived false); persist w

-- The title of a new or renamed session, trimmed.
unfoldable pub checked_title : Text → M Text
checked_title title = do
  let trimmed = trim_space title
  ensure (not (is_empty trimmed)) title_required
  ensure (not (ltb 200 (length trimmed))) title_too_long
  pure trimmed

-- The end of Rename: a failure to persist puts the previous title back.
unfoldable pub undo_title :
    String → Text → Result (Unit {0}) × Manager → Result (Unit {0}) × Manager
undo_title id previous (ok u, m) = (ok u, m)
undo_title id previous (err e, m) = (err e, (update id (set_title previous) m).1)

unfoldable pub rename : World → String → Text → M (Unit {0})
unfolding checked_title undo_title
rename w id requested = do
  title ← checked_title requested
  s ← find id
  let previous = s.session_record.title
  update id (set_title title)
  if same previous title then pure tt else (λ m. undo_title id previous (persist w m))

abbrev pub equal_flags : Bool → Bool → Bool
equal_flags true b = b
equal_flags false b = not b

unfoldable pub set_notifications_muted : World → String → Bool → M (Unit {0})
set_notifications_muted w id muted = do
  s ← find id
  let unchanged = equal_flags s.session_record.notifications_muted muted
  update id (set_muted muted)
  if unchanged then pure tt else persist w

-- liveSession.write
unfoldable pub write_pty : Bool → String → List ℕ → M (Unit {0})
write_pty accepts id bytes = do
  ensure accepts write_failed
  update id (λ s. record s { typed = s.typed ++ bytes ∷ [] })

abbrev paste_start : List ℕ
paste_start = 0x1b ∷ codes "[200~"

abbrev paste_end : List ℕ
paste_end = 0x1b ∷ codes "[201~"

-- The bytes that Send writes before the return: text with a line end is bracketed as a paste.
unfoldable pub pasted : List ℕ → List ℕ
pasted text =
    if any (λ c. c == b'\r' || c == b'\n') text then paste_start ++ (text ++ paste_end) else text

-- Send, for the bytes of the text.
unfoldable pub send : World → String → List ℕ → M (Unit {0})
send w id text = do
  ensure (not (is_empty text)) empty_input
  ensure (not (ltb max_input_bytes (length text))) input_too_long
  s ← running id
  write_pty w.accepts_input id (pasted text)
  write_pty w.accepts_return id (b'\r' ∷ [])

abbrev pub key_table : List (String × List ℕ)
key_table =
    ("Enter", b'\r' ∷ [])
    ∷ ("Escape", 0x1b ∷ [])
    ∷ ("Up", 0x1b ∷ b'[' ∷ b'A' ∷ [])
    ∷ ("Down", 0x1b ∷ b'[' ∷ b'B' ∷ [])
    ∷ ("C-c", 3 ∷ [])
    ∷ []

unfoldable pub send_sequence : World → String → Option (List ℕ) → M (Unit {0})
send_sequence w id none = fail unsupported_key
send_sequence w id (some sequence) = do s ← running id; write_pty w.accepts_input id sequence

unfoldable pub send_key : World → String → String → M (Unit {0})
unfolding send_sequence
send_key w id key = send_sequence w id (lookup key key_table)

unfoldable pub write_raw : World → String → List ℕ → M (Unit {0})
write_raw w id bytes = do
  ensure (not (ltb max_input_bytes (length bytes))) input_too_long
  s ← running id
  write_pty w.accepts_input id bytes

-- WriteRaw answers at once for no bytes.
unfoldable pub write_raw_bytes : World → String → List ℕ → M (Unit {0})
write_raw_bytes w id [] = pure tt
write_raw_bytes w id (b ∷ bs) = write_raw w id (b ∷ bs)

unfoldable pub resize : World → String → ℤ → ℤ → M (Unit {0})
resize w id columns rows = do
  s ← running id
  ensure w.resizable resize_failed
  let (c, r) = normalized_terminal_size columns rows
  update id (λ x. record x { columns = c; rows = r })

-- Attach: the history that the client is sent and its number.
unfoldable pub attach : World → String → ℤ → ℤ → M (List ℕ × ℕ)
attach w id columns rows = do
  s ← running id
  if ltb_ℤ (pos 0) columns || ltb_ℤ (pos 0) rows then resize w id columns rows else pure tt
  x ← find id
  let (history, number, _x) = add_subscriber x
  update id (λ y. (add_subscriber y).2)
  pure (history, number)

unfoldable pub detach_client : String → ℕ → M (Unit {0})
detach_client id number = update id (detach number)

-- One chunk of output; `w.screen` is what the terminal shows behind it.
unfoldable pub output : World → String → List ℕ → M (Unit {0})
output w id chunk = update id (read_chunk chunk (w.screen id))

-- A failure that is not reported.
unfoldable pub ignored : Result (Unit {0}) × Manager → Result (Unit {0}) × Manager
ignored (r, m) = (ok tt, m)

-- The end of readOutput: the line of a read error, if it was not the end of the output.
unfoldable pub output_ends : String → Option (List ℕ) → M (Unit {0})
output_ends id line = update id (noted line)

-- The emulator's answer to a query of the program, which `OnData` writes to the PTY; an error is not
-- reported.
unfoldable pub terminal_reply : World → String → List ℕ → M (Unit {0})
unfolding ignored
terminal_reply w id bytes m = ignored (write_pty w.accepts_input id bytes m)

unfoldable pub wait_for_exit : World → String → Option (List ℕ) → M (Unit {0})
unfolding ignored
wait_for_exit w id exit_note = do
  s ← find id
  update id (exited w.valid exit_note (w.screen id))
  if is_running s then (λ m. ignored (persist w m)) else pure tt
  update id close_subscribers

-- Transcript
unfoldable pub transcript : World → String → ℤ → M (Text × SessionRecord)
transcript w id n = do
  _s ← find id
  update id (refresh_foreground_agent (w.foreground id) (w.shell_name id))
  s ← find id
  let (text, _s) = rendered_transcript w.valid s (w.screen id) n
  update id (λ x. (rendered_transcript w.valid x (w.screen id) n).1)
  pure (text, s.session_record)
