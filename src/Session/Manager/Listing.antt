-- ===== src/Session/Manager/Listing.antt =====
-- List and RunningSessions (internal/session/manager.go).
use Prim.Native.String.{String}
use falkn.Base.{List, [], ◌∷◌, ltb, if◌then◌else◌, same}
use falkn.Base.Text.{string_eq}
use falkn.Agent.State.{Tables}
use falkn.Session.Live.{LiveSession, SessionRecord, refresh_attention}
use falkn.Session.Live.Foreground.{refresh_foreground_agent}
use falkn.Session.Manager.{World, ok, M, ◌>>=◌, pure}

unfoldable pub refreshed : World → Tables → String → LiveSession → LiveSession
refreshed w tables id s =
    refresh_attention tables w.valid (w.screen id)
      (refresh_foreground_agent (w.foreground id) (w.shell_name id) s)

unfoldable pub refresh_all :
    World → Tables → List (String × LiveSession) → List (String × LiveSession)
unfolding refreshed
refresh_all w tables [] = []
refresh_all w tables ((id, s) ∷ rest) = (id, refreshed w tables id s) ∷ refresh_all w tables rest

unfoldable pub records : List (String × LiveSession) → List SessionRecord
records [] = []
records ((id, s) ∷ rest) = s.session_record ∷ records rest

-- `sort.Slice` by `CreatedAt`, latest first.
unfoldable pub insert_record : SessionRecord → List SessionRecord → List SessionRecord
insert_record r [] = r ∷ []
insert_record r (q ∷ qs) =
    let later = insert_record r qs in
    if ltb r.created_at q.created_at then q ∷ later else r ∷ q ∷ qs

unfoldable pub sort_records : List SessionRecord → List SessionRecord
unfolding insert_record
sort_records [] = []
sort_records (r ∷ rs) = insert_record r (sort_records rs)

unfoldable pub list : World → Tables → M (List SessionRecord)
unfolding refresh_all
list w tables m =
    let sessions = refresh_all w tables m.sessions in
    (ok (sort_records (records sessions)), record m { sessions = sessions })

unfoldable pub only_running : List SessionRecord → List SessionRecord
only_running [] = []
only_running (r ∷ rs) =
    let rest = only_running rs in if same r.status "running" then r ∷ rest else rest

unfoldable pub running_sessions : World → Tables → M (List SessionRecord)
unfolding only_running
running_sessions w tables = list w tables >>= λ rs. pure (only_running rs)
