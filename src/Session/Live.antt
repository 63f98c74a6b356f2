-- ===== src/Session/Live.antt =====
-- A session of the daemon: protocol.SessionRecord (internal/protocol/protocol.go), liveSession and
-- its methods (internal/session/manager.go and shell.go). Each method holds the session's locks, so
-- it is one step. The terminal emulator, the PTY and the process are the environment's: what the
-- emulator shows is an argument, and the bytes written to the PTY are a history.
pub mod Clients
pub mod Settled
pub mod Foreground
use Prim.Native.String.{String}
use falkn.Base.{
  ℕ, zero, suc, ◌+◌, ◌-◌, ◌%◌, ◌^◌, Bool, true, false, not, ◌&&◌, ◌||◌, List, [], ◌∷◌, ◌++◌, map,
  Option, none, some, length, take, get_elem?, min, max, ltb, ◌==◌, if◌then◌else◌, Eq, same, nat_eq,
}
use falkn.Base.Assoc.{insert, lookup, remove}
use falkn.Base.Int.{ℤ, pos, negsuc, ltb_ℤ}
use falkn.Base.Text.{Text, codes, string_eq, trim_space, is_empty}
use falkn.Agent.State.{AttentionState, Tables, no_attention, attention_state_for}
use falkn.Session.Ring.{ByteRing, new_byte_ring, write}
use falkn.Session.Subscriber.{
  OutputSubscriber, new_output_subscriber, enqueue, close, max_transcript_bytes,
}
use falkn.Session.History.Journal.{
  Journal, Line, Terminal, is_blank, capture_terminal_history, rendered_terminal_lines,
}
use falkn.Session.Transcript.{
  clean_transcript, compact_blank_lines, history_limit, join_lines, last_lines,
}

pub record SessionRecord : Type 0 where
  pub id : String
  pub title : Text
  pub directory : Text
  pub agent_id : String
  pub created_at : ℕ
  pub status : String
  pub process : String
  pub attached_clients : ℕ
  pub focused_clients : ℕ
  pub notifications_muted : Bool
  pub attention : AttentionState
  pub archived : Bool
  pub permission_mode : String
  pub kind : String

-- `live` tells that the session has a terminal, a PTY and a process: one restored from disk has
-- none. `columns` and `rows` are the size of the PTY, `typed` the bytes written to it.
pub record LiveSession : Type 0 where
  pub session_record : SessionRecord
  pub live : Bool
  pub columns : ℕ
  pub rows : ℕ
  pub transcript : ByteRing
  pub journal : Journal
  pub subscribers : List (ℕ × OutputSubscriber)
  pub next_subscriber : ℕ
  pub stored_text : Text
  pub output_sequence : ℕ
  pub attention_sequence : ℕ
  pub attention_state : AttentionState
  pub attention_valid : Bool
  pub typed : List (List ℕ)

abbrev pub is_running : LiveSession → Bool
is_running s = same s.session_record.status "running"

-- normalizedTerminalSize, one dimension at a time.
clamp_size : ℕ → ℕ → ℕ → ℤ → ℕ
clamp_size default minimum maximum (pos zero) = min (max default minimum) maximum
clamp_size default minimum maximum (pos n) = min (max n minimum) maximum
clamp_size default minimum maximum (negsuc n) = min minimum maximum

unfoldable pub normalized_terminal_size : ℤ → ℤ → ℕ × ℕ
unfolding clamp_size
normalized_terminal_size columns rows = (clamp_size 60 40 160 columns, clamp_size 44 20 100 rows)

-- `for len(lines) > 0 && lines[len(lines)-1] == ""`
drop_blank_end : List Line → List Line
drop_blank_end [] = []
drop_blank_end (l ∷ ls) =
    let rest = drop_blank_end ls in
    elim rest [ [] ↦ if is_blank l then [] else l ∷ [] | r ∷ rs ↦ l ∷ r ∷ rs ]

rendered_text : Text → Text → Text
rendered_text [] fallback = fallback
rendered_text (c ∷ cs) fallback = c ∷ cs

-- The text of the rows that the emulator and the journal give, or else of the raw output.
-- `valid` is strings.ToValidUTF8 read as characters.
pub text_of_lines : (Text → Text) → List Line → ByteRing → ℕ → Text
unfolding drop_blank_end rendered_text
text_of_lines valid lines ring n =
    rendered_text
      (trim_space (join_lines (compact_blank_lines (drop_blank_end (last_lines n lines)) 2)))
      (clean_transcript valid ring.bytes (pos n))

-- renderedTranscript: the text, and the session with the journal that the capture leaves.
unfoldable pub rendered_transcript :
    (Text → Text) → LiveSession → Option Terminal → ℤ → Text × LiveSession
unfolding text_of_lines
rendered_transcript valid s none n = (s.stored_text, s)
rendered_transcript valid s (some t) n =
    let (lines, journal) = rendered_terminal_lines s.journal t in
    (text_of_lines valid lines s.transcript (history_limit n), record s { journal = journal })

unfoldable pub set_stopped_transcript : String → Text → LiveSession → LiveSession
set_stopped_transcript status transcript s = record s {
  session_record = record s.session_record { status = status };
  stored_text = transcript;
}

unfoldable pub set_archived : Bool → LiveSession → LiveSession
set_archived archived s = record s {
  session_record = record s.session_record { archived = archived };
}

unfoldable pub set_title : Text → LiveSession → LiveSession
set_title title s = record s { session_record = record s.session_record { title = title } }

-- refreshAttention: the state is computed anew only after output since the last answer.
unfoldable pub refresh_attention :
    Tables → (Text → Text) → Option Terminal → LiveSession → LiveSession
refresh_attention tables valid t s =
    let fresh = s.attention_valid && s.attention_sequence == s.output_sequence in
    let (text, s') = rendered_transcript valid s t (pos 600) in
    let r = s.session_record in
    if fresh
    then record s { session_record = record r { attention = s.attention_state } }
    else (let attention = attention_state_for tables r.kind r.agent_id text r.status in
        record s' {
          session_record = record r { attention = attention };
          attention_state = attention;
          attention_sequence = s.output_sequence;
          attention_valid = true;
        })

-- updateNotificationSuppressionLocked
suppressed : SessionRecord → ℕ → SessionRecord
suppressed r clients = record r {
  attached_clients = clients;
  focused_clients = if r.notifications_muted && clients == 0 then 1 else clients;
}

unfoldable pub update_notification_suppression : LiveSession → LiveSession
unfolding suppressed
update_notification_suppression s = record s {
  session_record = suppressed s.session_record (length s.subscribers);
}

-- The locked part of SetNotificationsMuted.
unfoldable pub set_muted : Bool → LiveSession → LiveSession
set_muted muted s =
    update_notification_suppression
      (record s { session_record = record s.session_record { notifications_muted = muted } })

-- The locked part of Attach: the history that the client is sent, its number and the session.
unfoldable pub add_subscriber : LiveSession → List ℕ × ℕ × LiveSession
add_subscriber s =
    let id = s.next_subscriber in
    (
      s.transcript.bytes,
      id,
      update_notification_suppression (record s {
        next_subscriber = (id + 1) % 2 ^ 64;
        subscribers = insert id new_output_subscriber s.subscribers;
      }),
    )

-- `detach`, which runs once.
unfoldable pub detach : ℕ → LiveSession → LiveSession
detach id s = update_notification_suppression (record s { subscribers = remove id s.subscribers })

unfoldable pub close_subscribers : LiveSession → LiveSession
close_subscribers s = update_notification_suppression (record s { subscribers = [] })

-- The loop of readOutput over the subscribers: those that take the chunk, and whether one did not.
keep_enqueued : List ℕ → List (ℕ × OutputSubscriber) → List (ℕ × OutputSubscriber) × Bool
keep_enqueued chunk [] = ([], false)
keep_enqueued chunk ((id, q) ∷ rest) =
    let (kept, changed) = keep_enqueued chunk rest in
    let (q', took) = enqueue q chunk in if took then ((id, q') ∷ kept, changed) else (kept, true)

-- One chunk of readOutput. `t` is the terminal after it has interpreted the chunk.
unfoldable pub read_chunk : List ℕ → Option Terminal → LiveSession → LiveSession
unfolding keep_enqueued
read_chunk chunk t s =
    let (kept, changed) = keep_enqueued chunk s.subscribers in
    let s' = record s {
      transcript = write s.transcript chunk;
      output_sequence = s.output_sequence + 1;
      subscribers = kept;
      journal = capture_terminal_history s.journal t;
    } in
    if changed then update_notification_suppression s' else s'

-- The line that waitForExit writes for an exit error, or readOutput for a read error, if there is one.
unfoldable pub noted : Option (List ℕ) → LiveSession → LiveSession
noted none s = s
noted (some bytes) s = record s { transcript = write s.transcript bytes }

end_session : (Text → Text) → Option Terminal → LiveSession → LiveSession
end_session valid t s =
    let (text, rendered) = rendered_transcript valid s t (pos 2000) in
    if is_running s then set_stopped_transcript "ended" text rendered else s

-- The change of waitForExit to a session whose process has exited, but for closeSubscribers.
unfoldable pub exited :
    (Text → Text) → Option (List ℕ) → Option Terminal → LiveSession → LiveSession
unfolding noted end_session
exited valid exit_note t s = end_session valid t (noted exit_note s)
