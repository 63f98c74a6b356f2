-- ===== src/Session/Manager.antt =====
-- Manager (internal/session/manager.go and shell.go): the sessions of the daemon and the file that
-- keeps them. A method takes the manager and returns its outcome with the manager it leaves, on
-- every path. The lock of the map and those of a session are held step by step in the source; here a
-- method is one step.
pub mod Disk
pub mod Calls
pub mod Create
pub mod Listing
pub mod Invariant
pub mod Effects
use Prim.Native.String.{String}
use falkn.Base.{
  ℕ, ◌+◌, ◌≡◌, refl, Bool, true, false, not, ◌&&◌, ◌||◌, List, [], ◌∷◌, ◌++◌, Option, none, some,
  if◌then◌else◌, Eq, same,
}
use falkn.Base.Assoc.{lookup, adjust}
use falkn.Base.Text.{Text, string_eq}
use falkn.Session.History.Journal.{Terminal}
use falkn.Session.Live.{SessionRecord, LiveSession, is_running}
use falkn.Workspace.{ErrorKind}

pub record PersistedSession : Type 0 where
  pub stored : SessionRecord
  pub transcript : Text

pub record PersistedState : Type 0 where
  pub version : ℕ
  pub sessions : List PersistedSession

-- `persistent` tells that a storage path is set; `disk` is what the file there holds.
pub record Manager : Type 0 where
  pub sessions : List (String × LiveSession)
  pub persistent : Bool
  pub disk : Option PersistedState

unfoldable pub new_manager : Option PersistedState → Manager
new_manager disk = record { sessions = []; persistent = false; disk = disk }

-- What the rest of the machine does during one call: how bytes are decoded, what the terminals show,
-- which agents run in the foreground of the shells, and whether the state file can be replaced, a
-- process killed, a PTY written to and resized. A call that replaces the file or writes twice meets
-- `writable_again` or `accepts_return` the second time.
pub record World : Type 0 where
  pub valid : Text → Text
  pub screen : String → Option Terminal
  pub foreground : String → String × String
  pub shell_name : String → String
  pub writable : Bool
  pub writable_again : Bool
  pub killable : Bool
  pub accepts_input : Bool
  pub accepts_return : Bool
  pub resizable : Bool

pub data Error : Type 0 where
  session_not_found session_not_running title_required title_too_long : Error
  unsupported_agent not_available launch_refused no_id start_failed : Error
  path_error : ErrorKind → Error
  kill_failed stop_first empty_input input_too_long unsupported_key write_failed : Error
  resize_failed persist_failed : Error

pub data Result {ℓ} (A : Type ℓ) : Type ℓ where
  ok : A → Result A
  err : Error → Result A

abbrev pub M : Type 0 → Type 0
M A = Manager → Result A × Manager

abbrev pub bind_result : {A B : Type 0} → Result A × Manager → (A → M B) → Result B × Manager
bind_result (ok a, m) f = f a m
bind_result (err e, m) f = (err e, m)

infixl 5 ◌>>=◌ ◌>>◌
abbrev pub ◌>>=◌ : {A B : Type 0} → M A → (A → M B) → M B
◌>>=◌ x f m = bind_result (x m) f

abbrev pub ◌>>◌ : {B : Type 0} → M (Unit {0}) → M B → M B
x >> k = x >>= λ _. k

abbrev pub pure : {A : Type 0} → A → M A
pure a m = (ok a, m)

abbrev pub fail : {A : Type 0} → Error → M A
fail e m = (err e, m)

abbrev pub ensure : Bool → Error → M (Unit {0})
ensure true e m = (ok tt, m)
ensure false e m = (err e, m)

abbrev pub found_or : Option LiveSession → Error → Manager → Result LiveSession × Manager
found_or none e m = (err e, m)
found_or (some s) e m = (ok s, m)

unfoldable pub find : String → M LiveSession
find id m = found_or (lookup id m.sessions) session_not_found m

unfoldable pub running : String → M LiveSession
running id = do s ← find id; ensure (is_running s) session_not_running; pure s

-- A change of one session, through the pointer that `find` gave.
unfoldable pub update : String → (LiveSession → LiveSession) → M (Unit {0})
update id f m = (ok tt, record m { sessions = adjust id f m.sessions })
