-- ===== src/Session/Manager/Create.antt =====
-- Create (manager.go) and CreateShell (shell.go). Finding an executable, resolving a directory,
-- drawing an identifier and starting a process are the machine's.
use Prim.Native.String.{String}
use falkn.Base.{ℕ, Bool, true, false, List, [], ◌∷◌, Option, none, some, if◌then◌else◌, same}
use falkn.Base.Assoc.{insert}
use falkn.Base.Int.{ℤ}
use falkn.Base.Text.{Text, string_eq}
use falkn.Agent.Launch.{Spec, launch_arguments}
use falkn.Agent.Launch
use falkn.Agent.State.{no_attention}
use falkn.Session.Ring.{new_byte_ring}
use falkn.Session.Subscriber.{max_transcript_bytes}
use falkn.Session.Live.{SessionRecord, LiveSession, normalized_terminal_size}
use falkn.Session.Manager.{
  Manager, World, Error, unsupported_agent, not_available, launch_refused, path_error, no_id,
  start_failed, Result, ok, err, M, ◌>>=◌, ◌>>◌, pure, ensure,
}
use falkn.Session.Manager.Calls.{checked_title, forget}
use falkn.Session.Manager.Disk.{persist}
use falkn.Workspace.{Files, Checked, found, refused, resolve}

pub record CreateParams : Type 0 where
  pub title : Text
  pub directory : Text
  pub agent_id : String
  pub permission_mode : String
  pub additional_arguments : List Text
  pub terminal_columns : ℤ
  pub terminal_rows : ℤ

-- ResolveExecutable, ResolveUserShell (the base name of the shell), the files that workspace.Resolve asks, newSessionID,
-- pty.StartWithSize and the clock, at this call.
pub record Machine : Type 0 where
  pub has_executable : Spec → Bool
  pub user_shell : Option String
  pub files : Files
  pub new_session_id : Option String
  pub starts : Bool
  pub now : ℕ
  pub lower_rune : ℕ → ℕ

abbrev pub or_fail : {A : Type 0} → Option A → Error → M A
or_fail none e m = (err e, m)
or_fail (some a) e m = (ok a, m)

abbrev pub or_refuse : {A : Type 0} → Launch.Checked A → M A
or_refuse (Launch.accepted a) m = (ok a, m)
or_refuse (Launch.refused e) m = (err launch_refused, m)

abbrev pub or_path : {A : Type 0} → Checked A → M A
or_path (found a) m = (ok a, m)
or_path (refused k) m = (err (path_error k), m)

-- Registry.Find: the last agent of an identifier wins.
unfoldable pub find_spec : String → List Spec → Option Spec
find_spec id [] = none
find_spec id (s ∷ rest) =
    let later = find_spec id rest in
    elim later [ none ↦ if same s.id id then some s else none | some t ↦ some t ]

unfoldable pub normalized_permission_mode : String → String
normalized_permission_mode value = if same value "full_access" then "full_access" else "standard"

unfoldable pub new_session : SessionRecord → ℤ → ℤ → LiveSession
new_session r columns rows =
    let (c, n) = normalized_terminal_size columns rows in
    record {
      session_record = r;
      live = true;
      columns = c;
      rows = n;
      transcript = new_byte_ring max_transcript_bytes;
      journal = record { terminal_history = []; last_terminal_screen = [] };
      subscribers = [];
      next_subscriber = 0;
      stored_text = [];
      output_sequence = 0;
      attention_sequence = 0;
      attention_state = no_attention;
      attention_valid = false;
      typed = [];
    }

unfoldable pub add_session : String → LiveSession → M (Unit {0})
add_session id s m = (ok tt, record m { sessions = insert id s m.sessions })

-- A session that cannot be persisted is taken back.
unfoldable pub undo_create : String → Result (Unit {0}) × Manager → Result (Unit {0}) × Manager
undo_create id (ok u, m) = (ok u, m)
undo_create id (err e, m) = (err e, (forget id m).1)

-- The end of both calls.
unfoldable pub launch : World → String → SessionRecord → ℤ → ℤ → M SessionRecord
unfolding undo_create
launch w id r columns rows = do
  add_session id (new_session r columns rows)
  (λ m. undo_create id (persist w m))
  pure r

unfoldable pub create : World → Machine → List Spec → CreateParams → M SessionRecord
unfolding find_spec
create w machine agents params = do
  title ← checked_title params.title
  spec ← or_fail (find_spec params.agent_id agents) unsupported_agent
  ensure (machine.has_executable spec) not_available
  arguments ←
      or_refuse (
        launch_arguments machine.lower_rune spec params.permission_mode params.additional_arguments)
  directory ← or_path (resolve machine.files params.directory)
  id ← or_fail machine.new_session_id no_id
  ensure machine.starts start_failed
  launch w id
      (record {
        id = id;
        title = title;
        directory = directory;
        agent_id = spec.id;
        created_at = machine.now;
        status = "running";
        process = spec.executable;
        attached_clients = 0;
        focused_clients = 0;
        notifications_muted = false;
        attention = no_attention;
        archived = false;
        permission_mode = normalized_permission_mode params.permission_mode;
        kind = "agent";
      })
      params.terminal_columns params.terminal_rows

unfoldable pub create_shell : World → Machine → CreateParams → M SessionRecord
create_shell w machine params = do
  title ← checked_title params.title
  directory ← or_path (resolve machine.files params.directory)
  shell ← or_fail machine.user_shell start_failed
  id ← or_fail machine.new_session_id no_id
  ensure machine.starts start_failed
  launch w id
      (record {
        id = id;
        title = title;
        directory = directory;
        agent_id = "shell";
        created_at = machine.now;
        status = "running";
        process = shell;
        attached_clients = 0;
        focused_clients = 0;
        notifications_muted = false;
        attention = no_attention;
        archived = false;
        permission_mode = "standard";
        kind = "shell";
      })
      params.terminal_columns params.terminal_rows
