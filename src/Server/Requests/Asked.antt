-- ===== src/Server/Requests/Asked.antt =====
-- Each method of the protocol makes the manager's call that it names, and answers as the call does.
use Prim.Native.String.{String}
use falkn.Base.{◌≡◌, some}
use falkn.Session.Manager.{Manager, World, Result, ok, err}
use falkn.Session.Manager.Create.{CreateParams}
use falkn.Session.Manager.Invariant.Every
use falkn.Session.Manager.Invariant.Every.{Call, perform, unanswered-manager}
use falkn.Server.Requests
use falkn.Server.Requests.{
  Request, Outcome, success, Reply, Host, Decoders, Handler, session_failure, TranscriptParams,
  ResizeParams, SendParams, KeyParams, SessionParams, RenameParams,
}

-- The answer to a call: a success when it succeeds, and the failure that its error stands for.
pub Answers : Host → Result (Unit {0}) → Outcome → Type 0
Answers host (ok u) o = (reply : Reply) × (o ≡ success reply)
Answers host (err e) o = o ≡ session_failure host e

-- The handler does what the call does, and answers it.
Serves : Host → World → Handler → Call → Manager → Type 0
Serves host w h c m = ((h m).1 ≡ (perform w c m).1) × Answers host (perform w c m).0 (h m).0

module _ {J : Type 0} (decode : Decoders J) (host : Host) (w : World) where
  -- The protocol: the call that a request asks for.
  pub data Asks (request : Request J) : Call → Type 0 where
    asks_list : request.method ≡ "list" → Asks request (Every.list_all host.tables)
    asks_create :
        (j : J) (p : CreateParams)
        → request.method ≡ "create"
        → request.params ≡ some j
        → decode.create_params j ≡ some p
        → Asks request (Every.create_agent host.machine host.agents p)
    asks_shell :
        (j : J) (p : CreateParams)
        → request.method ≡ "shell.create"
        → request.params ≡ some j
        → decode.shell_params j ≡ some p
        → Asks request (Every.create_terminal host.machine p)
    asks_transcript :
        (j : J) (p : TranscriptParams)
        → request.method ≡ "transcript"
        → request.params ≡ some j
        → decode.transcript_params j ≡ some p
        → Asks request (Every.read_transcript p.session_id p.history_lines)
    asks_resize :
        (j : J) (p : ResizeParams)
        → request.method ≡ "resize"
        → request.params ≡ some j
        → decode.resize_params j ≡ some p
        → Asks request (Every.resize_terminal p.session_id p.columns p.rows)
    asks_send :
        (j : J) (p : SendParams)
        → request.method ≡ "send"
        → request.params ≡ some j
        → decode.send_params j ≡ some p
        → Asks request (Every.send_text p.session_id p.text)
    asks_key :
        (j : J) (p : KeyParams)
        → request.method ≡ "key"
        → request.params ≡ some j
        → decode.key_params j ≡ some p
        → Asks request (Every.press_key p.session_id p.key)
    asks_stop :
        (j : J) (p : SessionParams)
        → request.method ≡ "stop"
        → request.params ≡ some j
        → decode.session_params j ≡ some p
        → Asks request (Every.stop_session p.session_id)
    asks_delete :
        (j : J) (p : SessionParams)
        → request.method ≡ "delete"
        → request.params ≡ some j
        → decode.session_params j ≡ some p
        → Asks request (Every.delete_session p.session_id)
    asks_end :
        (j : J) (p : SessionParams)
        → request.method ≡ "end"
        → request.params ≡ some j
        → decode.session_params j ≡ some p
        → Asks request (Every.delete_session p.session_id)
    asks_archive :
        (j : J) (p : SessionParams)
        → request.method ≡ "archive"
        → request.params ≡ some j
        → decode.session_params j ≡ some p
        → Asks request (Every.archive_session p.session_id)
    asks_restore :
        (j : J) (p : SessionParams)
        → request.method ≡ "restore"
        → request.params ≡ some j
        → decode.session_params j ≡ some p
        → Asks request (Every.restore_session p.session_id)
    asks_rename :
        (j : J) (p : RenameParams)
        → request.method ≡ "rename"
        → request.params ≡ some j
        → decode.rename_params j ≡ some p
        → Asks request (Every.rename_session p.session_id p.title)
