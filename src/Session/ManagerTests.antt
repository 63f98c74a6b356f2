-- ===== src/Session/ManagerTests.antt =====
-- Tests of the manager, and each of its theorems at a concrete input.
use Prim.Native.String.{String}
use falkn.Base.{
  ℕ, ◌≡◌, refl, subst, true, false, List, [], ◌∷◌, ◌++◌, Option, none, some, if◌then◌else◌, same,
  list_eq, nat_eq,
}
use falkn.Base.Assoc.{Entries, lookup, remove, adjust, map_some}
use falkn.Base.Int.{pos}
use falkn.Base.Text.{codes, string_eq, trim_space, any}
use falkn.Workspace.{Files, directory, entries}
use falkn.Session.Live.{SessionRecord}
use falkn.Agent.State.{no_attention}
use falkn.Agent.Launch.{Spec}
use falkn.Session.Manager.{
  Manager, World, PersistedState, ok, err, write_failed, new_manager, find, running, update,
}
use falkn.Session.Manager.Disk.{persist, enable_persistence}
use falkn.Session.Manager.Calls.{send, write_pty, rename, delete, stop, pasted, forget}
use falkn.Session.Manager.Create.{Machine, CreateParams, create, create_shell, new_session}
use falkn.Session.Manager.Invariant.{Inv}
use falkn.Session.Manager.Invariant.Every.{
  Call, create_terminal, archive_session, stop_session, attach_client, mute, leave, perform_all,
  perform_all-Inv,
}
use falkn.Session.Manager.Effects.{record_of, typed_of}
use falkn.Session.Manager.Effects.Typing.{Sends, send-typed_of}
use falkn.Session.Manager.Effects.Naming.{renamed, rename-record_of}
use falkn.Session.Manager.Effects.Ending.{delete-record_of}
use falkn.Session.Manager.Effects.Starting.{Added, launches-Added}
use falkn.Session.Manager.Effects.Stopping.{AtRest, restart-AtRest}

abbrev world : World
world = record {
  valid = λ t. t;
  screen = λ id. none;
  foreground = λ id. ("", "");
  shell_name = λ id. "zsh";
  writable = true;
  writable_again = true;
  killable = true;
  accepts_input = true;
  accepts_return = true;
  resizable = true;
}

abbrev full_disk : World
full_disk = record world { writable = false }

abbrev host_files : Files
host_files = record {
  home = some (codes "/home/me");
  stat = λ p. directory;
  read_dir = λ p. entries [];
}

abbrev machine : Machine
machine = record {
  has_executable = λ s. true;
  user_shell = some "zsh";
  files = host_files;
  new_session_id = some "s2";
  starts = true;
  now = 7;
  lower_rune = λ c. c;
}

abbrev params : CreateParams
params = record {
  title = codes " build ";
  directory = codes "/tmp";
  agent_id = "codex";
  permission_mode = "standard";
  additional_arguments = [];
  terminal_columns = pos 80;
  terminal_rows = pos 24;
}

abbrev agents : List Spec
agents = record { id = "codex"; display_name = "Codex"; executable = "codex" } ∷ []

abbrev old_record : SessionRecord
old_record = record {
  id = "s1";
  title = codes "old";
  directory = codes "/tmp";
  agent_id = "codex";
  created_at = 3;
  status = "running";
  process = "codex";
  attached_clients = 0;
  focused_clients = 0;
  notifications_muted = false;
  attention = no_attention;
  archived = false;
  permission_mode = "standard";
  kind = "agent";
}

abbrev stored_state : PersistedState
stored_state = record {
  version = 1;
  sessions = record { stored = old_record; transcript = [] } ∷ [];
}

abbrev one_session : Manager
one_session = record {
  sessions = ("s1", new_session old_record (pos 80) (pos 24)) ∷ [];
  persistent = true;
  disk = none;
}

abbrev calls : List (World × Call)
calls =
    (world, create_terminal machine params)
    ∷ (world, attach_client "s2" (pos 100) (pos 30))
    ∷ (world, mute "s2" true)
    ∷ (world, archive_session "s2")
    ∷ (world, leave "s2" 0)
    ∷ (full_disk, stop_session "s2")
    ∷ (world, archive_session "s2")
    ∷ []

perform_all-Inv_example : Inv (perform_all calls (new_manager (some stored_state)))
perform_all-Inv_example = perform_all-Inv calls (some stored_state)

send_paste :
    typed_of "s1" (send world "s1" (codes "a\nb") one_session).1
    ≡ some ((0x1b ∷ (codes "[200~a\nb" ++ (0x1b ∷ codes "[201~"))) ∷ codes "\r" ∷ [])
unfolding send running find update pasted typed_of lookup adjust any new_session write_pty
send_paste = refl

-- A terminal that takes the text and not the return.
abbrev half_open : World
half_open = record world { accepts_return = false }

send_half :
    (typed_of "s1" (send half_open "s1" (codes "make") one_session).1 ≡ some (codes "make" ∷ []))
    × ((send half_open "s1" (codes "make") one_session).0 ≡ err write_failed)
unfolding send running find update pasted typed_of lookup adjust any new_session write_pty
send_half = (refl, refl)

send-typed_of_example :
    (sent : List (List ℕ)) × Sends half_open
      (codes "make")
      (send half_open "s1" (codes "make") one_session).0
      sent
    × (typed_of "s1" (send half_open "s1" (codes "make") one_session).1
        ≡ map_some (λ t. t ++ sent) (typed_of "s1" one_session))
send-typed_of_example = send-typed_of half_open "s1" (codes "make") one_session

rename-record_of_example :
    record_of "s1" (rename full_disk "s1" (codes " new ") one_session).1
    ≡ map_some
        (renamed (rename full_disk "s1" (codes " new ") one_session).0 (trim_space (codes " new ")))
        (record_of "s1" one_session)
rename-record_of_example = rename-record_of full_disk "s1" (codes " new ") one_session

deleted : (delete world "s1" one_session).0 ≡ ok tt
unfolding delete stop find update forget persist lookup remove adjust new_session
deleted = refl

delete-record_of_example :
    record_of "s1" (delete world "s1" one_session).1
    ≡ (if same {A = String} "s1" "s1" then none else record_of "s1" one_session)
delete-record_of_example = delete-record_of world "s1" one_session "s1" deleted

abbrev UnusedIn : Option String → Type 0
UnusedIn none = Unit {0}
UnusedIn (some id) = record_of id one_session ≡ none

unused : (id : String) → machine.new_session_id ≡ some id → record_of id one_session ≡ none
unfolding record_of lookup
unused id q = subst UnusedIn q refl

launches-Added_example :
    Added one_session (create world machine agents params one_session)
    × Added one_session (create_shell world machine params one_session)
launches-Added_example = launches-Added world machine params one_session unused agents

restart-AtRest_example :
    Entries AtRest (enable_persistence world (new_manager (some stored_state))).1.sessions
restart-AtRest_example = restart-AtRest world (some stored_state)
