-- ===== src/Server/Requests.antt =====
-- The daemon's answer to a request: dispatch, decodeParams, sessionFailure and workspaceFailure
-- (internal/server/server.go), Request, Response, Success and Failure (internal/protocol/protocol.go).
-- JSON is the environment's: `J` is the type of the documents, and `Decoders` reads the parameters of
-- each method.
pub mod Effects
pub mod Answers
pub mod Asked
use Prim.Native.String.{String}
use falkn.Base.{
  ℕ, Bool, true, false, not, ◌&&◌, ◌||◌, List, [], ◌∷◌, Option, none, some, length, take, ltb, ◌==◌,
  if◌then◌else◌, same, map,
}
use falkn.Base.Int.{ℤ, pos, int_eq}
use falkn.Base.Text.{Text, codes, string_eq}
use falkn.Agent.Launch.{Spec}
use falkn.Agent.State.{Tables}
use falkn.Session.Live.{SessionRecord}
use falkn.Session.Manager.{
  Manager, World, Error, session_not_found, session_not_running, path_error, Result, ok, err, M,
}
use falkn.Session.Manager.Calls
use falkn.Session.Manager.Create.{Machine, CreateParams, create, create_shell}
use falkn.Session.Manager.Listing.{list, running_sessions}
use falkn.Workspace
use falkn.Workspace.{ErrorKind, Listing, list_directories}

pub record Request (J : Type 0) : Type 0 where
  pub version : ℤ
  pub request_id : String
  pub method : String
  pub params : Option J

pub record Capability : Type 0 where
  pub id : String
  pub display_name : String
  pub path : String

pub data Reply : Type 0 where
  capable : List Capability → Reply
  accepted : Reply
  sessions : List SessionRecord → Reply
  directories : Listing → Reply
  created : SessionRecord → Reply
  transcribed : Text → SessionRecord → Reply

-- The error of a response: its code and its message.
pub data Outcome : Type 0 where
  success : Reply → Outcome
  failure : String → Text → Outcome

pub record Response : Type 0 where
  pub request_id : String
  pub outcome : Outcome

-- Success and Failure, for the request's identifier.
abbrev pub respond : String → Outcome → Response
respond id o = record { request_id = id; outcome = o }

pub record SessionParams : Type 0 where
  pub session_id : String

pub record TranscriptParams : Type 0 where
  pub session_id : String
  pub history_lines : ℤ

pub record ResizeParams : Type 0 where
  pub session_id : String
  pub columns : ℤ
  pub rows : ℤ

pub record SendParams : Type 0 where
  pub session_id : String
  pub text : List ℕ

pub record KeyParams : Type 0 where
  pub session_id : String
  pub key : String

pub record RenameParams : Type 0 where
  pub session_id : String
  pub title : Text

-- json.Unmarshal into each type of parameters; `none` is an error.
pub record Decoders (J : Type 0) : Type 0 where
  pub directory_params : J → Option Text
  pub create_params : J → Option CreateParams
  pub shell_params : J → Option CreateParams
  pub transcript_params : J → Option TranscriptParams
  pub resize_params : J → Option ResizeParams
  pub send_params : J → Option SendParams
  pub key_params : J → Option KeyParams
  pub session_params : J → Option SessionParams
  pub rename_params : J → Option RenameParams

-- The daemon beside its sessions: the agents, their executables, the text of each error, and what
-- fmt.Sprintf makes of a version, of a number of sessions and of a method.
pub record Host : Type 0 where
  pub machine : Machine
  pub tables : Tables
  pub agents : List Spec
  pub executable : Spec → Option String
  pub describe : Error → Text
  pub describe_path : ErrorKind → Text
  pub say_version : ℤ → Text
  pub say_busy : ℕ → Text
  pub say_method : String → Text

pub data Method : Type 0 where
  preflight daemon_shutdown list_sessions directories_list create_agent shell_create : Method
  transcript_of resize_to send_text press stop_session delete_session : Method
  archive_session restore_session rename_session : Method

-- The switch on the method's name.
unfoldable pub method_of : String → Option Method
method_of name =
    if same name "preflight"
    then some preflight
    else if same name "daemon.shutdown"
    then some daemon_shutdown
    else if same name "list"
    then some list_sessions
    else if same name "directories.list"
    then some directories_list
    else if same name "create"
    then some create_agent
    else if same name "shell.create"
    then some shell_create
    else if same name "transcript"
    then some transcript_of
    else if same name "resize"
    then some resize_to
    else if same name "send"
    then some send_text
    else if same name "key"
    then some press
    else if same name "stop"
    then some stop_session
    else if same name "delete" || same name "end"
    then some delete_session
    else if same name "archive"
    then some archive_session
    else if same name "restore"
    then some restore_session
    else if same name "rename"
    then some rename_session
    else none

abbrev pub path_or_empty : Option String → String
path_or_empty none = ""
path_or_empty (some path) = path

unfoldable pub capabilities : (Spec → Option String) → List Spec → List Capability
capabilities executable [] = []
capabilities executable (s ∷ rest) =
    record { id = s.id; display_name = s.display_name; path = path_or_empty (executable s) }
    ∷ capabilities executable rest

unfoldable pub path_code : ErrorKind → String
path_code Workspace.required = "path_required"
path_code Workspace.not_found = "path_not_found"
path_code Workspace.not_directory = "path_not_directory"
path_code Workspace.permission = "path_permission_denied"
path_code Workspace.unavailable = "path_unavailable"

unfoldable pub session_code : Error → String
unfolding path_code
session_code (path_error k) = path_code k
session_code session_not_found = "session_not_found"
session_code session_not_running = "session_not_running"
session_code _ = "session_error"

-- sessionFailure; a message is cut to 1,000 bytes, save that of a path.
unfoldable pub session_failure : Host → Error → Outcome
unfolding session_code path_code
session_failure host (path_error k) = failure (path_code k) (host.describe_path k)
session_failure host e = failure (session_code e) (take 1000 (host.describe e))

-- What a method does with the manager.
abbrev pub Handler : Type 0
Handler = Manager → Outcome × Manager

abbrev pub replies : Outcome → Handler
replies o m = (o, m)

abbrev pub answered : {A : Type 0} → Host → (A → Reply) → Result A × Manager → Outcome × Manager
answered host f (ok a, m) = (success (f a), m)
answered host f (err e, m) = (session_failure host e, m)

-- A call of the manager, its answer or the failure that its error stands for.
abbrev pub call : {A : Type 0} → Host → (A → Reply) → M A → Handler
call host f x m = answered host f (x m)

abbrev pub acknowledge : Unit {0} → Reply
acknowledge u = accepted

abbrev pub decoded : {P : Type 0} → Option P → (P → Handler) → Handler
decoded none k = replies (failure "invalid_params" (codes "params did not match the method"))
decoded (some p) k = k p

-- decodeParams
abbrev pub with_params : {J P : Type 0} → (J → Option P) → Option J → (P → Handler) → Handler
with_params decode none k = replies (failure "invalid_params" (codes "params are required"))
with_params decode (some j) k = decoded (decode j) k

unfoldable pub shutdown_outcome : Host → List SessionRecord → Outcome
shutdown_outcome host [] = success accepted
shutdown_outcome host (r ∷ rs) = failure "daemon_busy" (host.say_busy (length (r ∷ rs)))

unfoldable pub listing_outcome : Host → Workspace.Checked Listing → Outcome
unfolding path_code
listing_outcome host (Workspace.found l) = success (directories l)
listing_outcome host (Workspace.refused k) = failure (path_code k) (host.describe_path k)

-- RunningSessions does not fail.
abbrev pub shutdown_answer : Host → Result (List SessionRecord) × Manager → Outcome × Manager
shutdown_answer host (ok rs, m) = (shutdown_outcome host rs, m)
shutdown_answer host (err e, m) = (success accepted, m)

abbrev pub shutdown : Host → M (List SessionRecord) → Handler
shutdown host x m = shutdown_answer host (x m)

abbrev pub transcript_answer : Text × SessionRecord → Reply
transcript_answer (t, r) = transcribed t r

module _ {J : Type 0} (decode : Decoders J) (host : Host) (w : World) where
  unfoldable pub perform_method : Method → Option J → Handler
  unfolding capabilities listing_outcome shutdown_outcome
  perform_method preflight params =
      replies (success (capable (capabilities host.executable host.agents)))
  perform_method daemon_shutdown params = shutdown host (running_sessions w host.tables)
  perform_method list_sessions params = call host sessions (list w host.tables)
  perform_method directories_list params = with_params decode.directory_params params (λ path.
      replies
        (listing_outcome host (list_directories host.machine.lower_rune host.machine.files path)))
  perform_method create_agent params =
      with_params decode.create_params params
        (λ p. call host created (create w host.machine host.agents p))
  perform_method shell_create params =
      with_params decode.shell_params params
        (λ p. call host created (create_shell w host.machine p))
  perform_method transcript_of params =
      with_params decode.transcript_params params
        (λ p. call host transcript_answer (Calls.transcript w p.session_id p.history_lines))
  perform_method resize_to params =
      with_params decode.resize_params params
        (λ p. call host acknowledge (Calls.resize w p.session_id p.columns p.rows))
  perform_method send_text params =
      with_params decode.send_params params
        (λ p. call host acknowledge (Calls.send w p.session_id p.text))
  perform_method press params =
      with_params decode.key_params params
        (λ p. call host acknowledge (Calls.send_key w p.session_id p.key))
  perform_method stop_session params =
      with_params decode.session_params params
        (λ p. call host acknowledge (Calls.stop w p.session_id))
  perform_method delete_session params =
      with_params decode.session_params params
        (λ p. call host acknowledge (Calls.delete w p.session_id))
  perform_method archive_session params =
      with_params decode.session_params params
        (λ p. call host acknowledge (Calls.archive w p.session_id))
  perform_method restore_session params =
      with_params decode.session_params params
        (λ p. call host acknowledge (Calls.restore w p.session_id))
  perform_method rename_session params =
      with_params decode.rename_params params
        (λ p. call host acknowledge (Calls.rename w p.session_id p.title))

  abbrev pub perform_known : String → Option Method → Option J → Handler
  perform_known name none params = replies (failure "unknown_method" (host.say_method name))
  perform_known name (some k) params = perform_method k params

  abbrev pub responded : String → Outcome × Manager → Response × Manager
  responded id (o, m) = (respond id o, m)

  unfoldable pub dispatch : Request J → Manager → Response × Manager
  unfolding perform_method method_of
  dispatch request m =
      if not (same request.version (pos 1))
      then (
        respond request.request_id
            (failure "unsupported_protocol" (host.say_version request.version)),
        m,
      )
      else if same request.request_id ""
      then (respond "" (failure "invalid_request" (codes "request_id is required")), m)
      else responded request.request_id
          (perform_known request.method (method_of request.method) request.params m)
