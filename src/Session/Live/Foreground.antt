-- ===== src/Session/Live/Foreground.antt =====
-- refreshForegroundAgent (internal/session/shell.go). `ps` is asked by activeAgentProcess, which is
-- the environment's: the agent that it finds under the session's process and the process's name, both
-- empty when there is none.
use Prim.Native.String.{String}
use falkn.Base.{refl, ◌&&◌, Bool-cases, inl, inr, if◌then◌else◌, same}
use falkn.Base.Text.{string_eq}
use falkn.Session.Live.{LiveSession, is_running}
use falkn.Session.Live.Clients.{same_clients}
use falkn.Session.Live.Settled.{Settled, same_status}

-- `shell` is the base name of the session's command.
unfoldable pub refresh_foreground_agent : String × String → String → LiveSession → LiveSession
refresh_foreground_agent (agent_id, process) shell s =
    let r = s.session_record in
    if same r.kind "shell" && (is_running s && s.live)
    then if same agent_id ""
      then record s { session_record = record r { agent_id = "shell"; process = shell } }
      else record s { session_record = record r { agent_id = agent_id; process = process } }
    else s

pub foreground-Settled :
    (id : String) (s : LiveSession) (v : Settled id s) (found : String × String) (shell : String)
    → Settled id (refresh_foreground_agent found shell s)
unfolding refresh_foreground_agent
foreground-Settled id s v (agent_id, process) shell =
    elim (Bool-cases (same s.session_record.kind "shell" && (is_running s && s.live))) [
      | inl shown ↦ elim (Bool-cases (same agent_id "")) [
        | inl idle ↦
            rw (shown, idle)
              (same_status v (same_clients v.clients refl refl refl refl) refl refl refl)
        | inr busy ↦
            rw (shown, busy)
              (same_status v (same_clients v.clients refl refl refl refl) refl refl refl)
      ]
      | inr hidden ↦ rw hidden v
    ]
