-- ===== src/Session/Manager/Invariant/Every.antt =====
-- The daemon's calls of the manager and the events of its sessions, one after the other: in the
-- source each holds the locks that its change needs.
use Prim.Native.String.{String}
use falkn.Base.{◌≡◌, refl, ℕ, Bool, List, [], ◌∷◌, Option}
use falkn.Base.Int.{ℤ}
use falkn.Base.Text.{Text, string_eq}
use falkn.Agent.Launch.{Spec}
use falkn.Agent.State.{Tables}
use falkn.Session.Manager.{
  bind_result, Result, ok, err, Manager, World, M, new_manager, PersistedState, ◌>>=◌, pure,
}
use falkn.Session.Manager.Disk.{enable_persistence}
use falkn.Session.Manager.Calls
use falkn.Session.Manager.Create.{Machine, CreateParams, create, create_shell}
use falkn.Session.Manager.Listing.{list, running_sessions}
use falkn.Session.Manager.Invariant.{Inv, Keeps, bind-Keeps, pure-Keeps}
use falkn.Session.Manager.Invariant.Storage.{enable_persistence-Keeps}
use falkn.Session.Manager.Invariant.Steps
use falkn.Session.Manager.Invariant.Created

pub data Call : Type 0 where
  enable : Call
  create_agent : Machine → List Spec → CreateParams → Call
  create_terminal : Machine → CreateParams → Call
  list_all list_running : Tables → Call
  read_transcript : String → ℤ → Call
  stop_session delete_session archive_session restore_session : String → Call
  rename_session : String → Text → Call
  mute : String → Bool → Call
  send_text : String → List ℕ → Call
  press_key : String → String → Call
  write_bytes : String → List ℕ → Call
  resize_terminal : String → ℤ → ℤ → Call
  attach_client : String → ℤ → ℤ → Call
  leave : String → ℕ → Call
  read_output : String → List ℕ → Call
  reading_ends : String → Option (List ℕ) → Call
  reply : String → List ℕ → Call
  process_exit : String → Option (List ℕ) → Call

unfoldable pub unanswered : {A : Type 0} → M A → M (Unit {0})
unanswered x = x >>= λ a. pure tt

unfoldable pub perform : World → Call → M (Unit {0})
unfolding unanswered
perform w enable = enable_persistence w
perform w (create_agent machine agents params) = unanswered (create w machine agents params)
perform w (create_terminal machine params) = unanswered (create_shell w machine params)
perform w (list_all tables) = unanswered (list w tables)
perform w (list_running tables) = unanswered (running_sessions w tables)
perform w (read_transcript id n) = unanswered (Calls.transcript w id n)
perform w (stop_session id) = Calls.stop w id
perform w (delete_session id) = Calls.delete w id
perform w (archive_session id) = Calls.archive w id
perform w (restore_session id) = Calls.restore w id
perform w (rename_session id title) = Calls.rename w id title
perform w (mute id muted) = Calls.set_notifications_muted w id muted
perform w (send_text id text) = Calls.send w id text
perform w (press_key id key) = Calls.send_key w id key
perform w (write_bytes id bytes) = Calls.write_raw_bytes w id bytes
perform w (resize_terminal id columns rows) = Calls.resize w id columns rows
perform w (attach_client id columns rows) = unanswered (Calls.attach w id columns rows)
perform w (leave id number) = Calls.detach_client id number
perform w (read_output id chunk) = Calls.output w id chunk
perform w (reading_ends id line) = Calls.output_ends id line
perform w (reply id bytes) = Calls.terminal_reply w id bytes
perform w (process_exit id exit_note) = Calls.wait_for_exit w id exit_note

-- Forgetting what a call answers does not change the manager that it leaves.
forgotten-manager : {A : Type 0} (r : Result A × Manager) → (bind_result r (λ a. pure tt)).1 ≡ r.1
forgotten-manager (ok a, m) = refl
forgotten-manager (err e, m) = refl

pub unanswered-manager : {A : Type 0} (x : M A) (m : Manager) → (unanswered x m).1 ≡ (x m).1
unfolding unanswered
unanswered-manager x m = forgotten-manager (x m)

unanswered-Keeps : {A : Type 0} {x : M A} → Keeps x → Keeps (unanswered x)
unfolding unanswered
unanswered-Keeps k = bind-Keeps k (λ a. pure-Keeps tt)

pub perform-Keeps : (w : World) (c : Call) → Keeps (perform w c)
unfolding perform
perform-Keeps w enable = enable_persistence-Keeps w
perform-Keeps w (create_agent machine agents params) =
    unanswered-Keeps (Created.create-Keeps w machine params agents)
perform-Keeps w (create_terminal machine params) =
    unanswered-Keeps (Created.create_shell-Keeps w machine params)
perform-Keeps w (list_all tables) = unanswered-Keeps (Created.list-Keeps w tables)
perform-Keeps w (list_running tables) = unanswered-Keeps (Created.running_sessions-Keeps w tables)
perform-Keeps w (read_transcript id n) = unanswered-Keeps (Steps.transcript-Keeps w id n)
perform-Keeps w (stop_session id) = Steps.stop-Keeps w id
perform-Keeps w (delete_session id) = Steps.delete-Keeps w id
perform-Keeps w (archive_session id) = Steps.archive-Keeps w id
perform-Keeps w (restore_session id) = Steps.restore-Keeps w id
perform-Keeps w (rename_session id title) = Steps.rename-Keeps w id title
perform-Keeps w (mute id muted) = Steps.set_notifications_muted-Keeps w id muted
perform-Keeps w (send_text id text) = Steps.send-Keeps w id text
perform-Keeps w (press_key id key) = Steps.send_key-Keeps w id key
perform-Keeps w (write_bytes id bytes) = Steps.write_raw_bytes-Keeps w id bytes
perform-Keeps w (resize_terminal id columns rows) = Steps.resize-Keeps w id columns rows
perform-Keeps w (attach_client id columns rows) =
    unanswered-Keeps (Steps.attach-Keeps w id columns rows)
perform-Keeps w (leave id number) = Steps.detach_client-Keeps w id number
perform-Keeps w (read_output id chunk) = Steps.output-Keeps w id chunk
perform-Keeps w (reading_ends id line) = Steps.output_ends-Keeps w id line
perform-Keeps w (reply id bytes) = Steps.terminal_reply-Keeps w id bytes
perform-Keeps w (process_exit id exit_note) = Steps.wait_for_exit-Keeps w id exit_note

-- The calls in turn, each in the world that it meets.
unfoldable pub perform_all : List (World × Call) → Manager → Manager
perform_all [] m = m
perform_all ((w, c) ∷ rest) m = perform_all rest (perform w c m).1

perform_all-Keeps : (calls : List (World × Call)) (m : Manager) → Inv m → Inv (perform_all calls m)
unfolding perform_all
perform_all-Keeps [] m v = v
perform_all-Keeps ((w, c) ∷ rest) m v = perform_all-Keeps rest _ ((perform-Keeps w c).kept m v)

-- Whatever calls and events a new manager meets, in whatever order and with whatever failures of the
-- machine, and whatever the state file holds: every session stands under its own identifier, its
-- record counts the clients that are attached, with the suppression marker of a muted session, and
-- no archived session is running.
pub perform_all-Inv :
    (calls : List (World × Call)) (disk : Option PersistedState)
    → Inv (perform_all calls (new_manager disk))
perform_all-Inv calls disk = perform_all-Keeps calls _ (unfold Inv new_manager in tt)
