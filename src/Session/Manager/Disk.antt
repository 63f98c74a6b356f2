-- ===== src/Session/Manager/Disk.antt =====
-- persist and EnablePersistence (manager.go). JSON is the standard library's: the file is the state
-- that it encodes.
use Prim.Native.String.{String}
use falkn.Base.{
  true, false, not, ◌&&◌, List, [], ◌∷◌, Option, none, some, ltb, ◌==◌, if◌then◌else◌, same,
}
use falkn.Base.Assoc.{insert}
use falkn.Base.Int.{pos}
use falkn.Base.Text.{string_eq, is_empty}
use falkn.Agent.State.{no_attention}
use falkn.Session.Ring.{new_byte_ring}
use falkn.Session.Subscriber.{max_transcript_bytes}
use falkn.Session.Live.{LiveSession, is_running, rendered_transcript}
use falkn.Session.Manager.{PersistedSession, PersistedState, World, ok, err, persist_failed, M}

-- What persist stores of a session, and the session: a finished session whose text is not stored yet
-- is rendered once more.
unfoldable pub store_session : World → LiveSession → PersistedSession × LiveSession
store_session w s =
    let (text, rendered) =
      rendered_transcript w.valid s (w.screen s.session_record.id) (pos 2000) in
    if not (is_running s) && is_empty s.stored_text
    then (record { stored = s.session_record; transcript = text }, rendered)
    else (record { stored = s.session_record; transcript = s.stored_text }, s)

unfoldable pub store_all :
    World → List (String × LiveSession) → List PersistedSession × List (String × LiveSession)
store_all w [] = ([], [])
store_all w ((id, s) ∷ rest) =
    let (p, s') = store_session w s in
    let (ps, rest') = store_all w rest in (p ∷ ps, (id, s') ∷ rest')

-- sort.Slice by `CreatedAt`, latest first.
unfoldable pub sort_into : PersistedSession → List PersistedSession → List PersistedSession
sort_into p [] = p ∷ []
sort_into p (q ∷ qs) =
    let later = sort_into p qs in
    if ltb p.stored.created_at q.stored.created_at then q ∷ later else p ∷ q ∷ qs

unfoldable pub sort_stored : List PersistedSession → List PersistedSession
unfolding sort_into
sort_stored [] = []
sort_stored (p ∷ ps) = sort_into p (sort_stored ps)

-- The file is replaced whole, or left as it is.
unfoldable pub persist_stored :
    World → List PersistedSession × List (String × LiveSession) → M (Unit {0})
persist_stored w (ps, sessions) m =
    if w.writable
    then (
      ok tt,
      record m {
        sessions = sessions;
        disk = some (record { version = 1; sessions = sort_stored ps });
      },
    )
    else (err persist_failed, record m { sessions = sessions })

unfoldable pub persist : World → M (Unit {0})
unfolding persist_stored store_all store_session sort_stored
persist w m = if m.persistent then persist_stored w (store_all w m.sessions) m else (ok tt, m)

-- What a restart makes of a stored session: it is not running, and no client is attached.
unfoldable pub restored : PersistedSession → LiveSession
restored p =
    let r = p.stored in
    record {
      session_record = record r {
        status = if same r.status "running" then "stopped" else r.status;
        attached_clients = 0;
        focused_clients = if r.notifications_muted then 1 else 0;
      };
      live = false;
      columns = 0;
      rows = 0;
      transcript = new_byte_ring max_transcript_bytes;
      journal = record { terminal_history = []; last_terminal_screen = [] };
      subscribers = [];
      next_subscriber = 0;
      stored_text = p.transcript;
      output_sequence = 0;
      attention_sequence = 0;
      attention_state = no_attention;
      attention_valid = false;
      typed = [];
    }

unfoldable pub restore_all :
    List PersistedSession → List (String × LiveSession) → List (String × LiveSession)
restore_all [] sessions = sessions
restore_all (p ∷ ps) sessions =
    restore_all ps
      (if same p.stored.id "" then sessions else insert p.stored.id (restored p) sessions)

unfoldable pub stored_sessions : Option PersistedState → Option (List PersistedSession)
stored_sessions none = some []
stored_sessions (some state) = if state.version == 1 then some state.sessions else none

-- EnablePersistence for a file that is absent or holds a decoded state; another version is refused.
unfoldable pub enable_with : World → Option (List PersistedSession) → M (Unit {0})
unfolding restore_all
enable_with w none m = (err persist_failed, m)
enable_with w (some ps) m =
    persist w (record m { persistent = true; sessions = restore_all ps m.sessions })

unfoldable pub enable_persistence : World → M (Unit {0})
unfolding enable_with stored_sessions restored
enable_persistence w m = enable_with w (stored_sessions m.disk) m
