-- ===== src/Session/Manager/Effects/Listed.antt =====
-- RunningSessions: what it answers is read off the statuses that the sessions have.
use Prim.Native.String.{String}
use falkn.Base.{
  ◌≡◌, ◌↔◌, refl, sym, ap, ◌∙◌, inl, inr, false, ◌&&◌, List, [], ◌∷◌, All, ltb, same, Bool-cases,
}
use falkn.Base.Assoc.{Entries}
use falkn.Base.Text.{string_eq}
use falkn.Agent.State.{Tables}
use falkn.Session.Live.{SessionRecord, LiveSession, is_running}
use falkn.Session.Live.Foreground.{refresh_foreground_agent}
use falkn.Session.Manager.{Manager, World, ok}
use falkn.Session.Manager.Invariant.Created.{refresh_attention-Untouched, Untouched}
use falkn.Session.Manager.Listing.{
  refreshed, refresh_all, records, insert_record, sort_records, list, only_running,
  running_sessions,
}

-- No session of the map is running.
abbrev pub NoneRunning : List (String × LiveSession) → Type 0
NoneRunning = Entries (λ (id : String) (s : LiveSession). is_running s ≡ false)

abbrev Idle : SessionRecord → Type 0
Idle r = same r.status "running" ≡ false

insert_record-Idle :
    (r : SessionRecord) (rs : List SessionRecord)
    → All Idle (insert_record r rs) ↔ (Idle r × All Idle rs)
unfolding insert_record
insert_record-Idle r [] = (λ h. h, λ h. h)
insert_record-Idle r (q ∷ qs) =
    let rest = insert_record-Idle r qs in
    elim (Bool-cases (ltb r.created_at q.created_at)) [
      | inl b ↦ rw b (
        λ h. let (i, others) = rest.0 h.1 in (i, (h.0, others)),
        λ h. let (i, (j, others)) = h in (j, rest.1 (i, others)),
      )
      | inr b ↦ rw b (λ h. h, λ h. h)
    ]

sort_records-Idle : (rs : List SessionRecord) → All Idle (sort_records rs) ↔ All Idle rs
unfolding sort_records
sort_records-Idle [] = (λ h. h, λ h. h)
sort_records-Idle (r ∷ rs) =
    let one = insert_record-Idle r (sort_records rs) in
    let rest = sort_records-Idle rs in
    (λ h. let (i, others) = one.0 h in (i, rest.0 others), λ h. one.1 (h.0, rest.1 h.1))

only_running-Idle : (rs : List SessionRecord) → (only_running rs ≡ []) ↔ All Idle rs
unfolding only_running
only_running-Idle [] = (λ h. tt, λ h. refl)
only_running-Idle (r ∷ rs) = elim (Bool-cases (same r.status "running")) [
  | inl b ↦ rw b (λ h. cc, λ h. cc)
  | inr b ↦ let rest = only_running-Idle rs in rw b (λ h. (refl, rest.0 h), λ h. rest.1 h.1)
]

foreground-status :
    (found : String × String) (shell : String) (s : LiveSession)
    → (refresh_foreground_agent found shell s).session_record.status ≡ s.session_record.status
unfolding refresh_foreground_agent
foreground-status (agent_id, process) shell s =
    elim (Bool-cases (same s.session_record.kind "shell" && (is_running s && s.live))) [
      | inl shown ↦ elim (Bool-cases (same agent_id "")) [
        | inl idle ↦ rw (shown, idle) refl
        | inr busy ↦ rw (shown, busy) refl
      ]
      | inr hidden ↦ rw hidden refl
    ]

refreshed-status :
    (w : World) (tables : Tables) (id : String) (s : LiveSession)
    → (refreshed w tables id s).session_record.status ≡ s.session_record.status
unfolding refreshed Untouched
refreshed-status w tables id s =
    let u = refresh_foreground_agent (w.foreground id) (w.shell_name id) s in
    let (named, archived, status) = refresh_attention-Untouched tables w.valid (w.screen id) u in
    status ∙ foreground-status (w.foreground id) (w.shell_name id) s

refresh_all-Idle :
    (w : World) (tables : Tables) (ss : List (String × LiveSession))
    → All Idle (records (refresh_all w tables ss)) ↔ NoneRunning ss
unfolding refresh_all records
refresh_all-Idle w tables [] = (λ h. tt, λ h. tt)
refresh_all-Idle w tables ((id, s) ∷ ss) =
    let e = ap (λ (t : String). same t "running") (refreshed-status w tables id s) in
    let rest = refresh_all-Idle w tables ss in
    (λ h. (sym e ∙ h.0, rest.0 h.1), λ h. (e ∙ h.0, rest.1 h.1))

-- RunningSessions answers the running records of the refreshed map, and none exactly when no session
-- is running.
pub running_sessions-NoneRunning :
    (w : World) (tables : Tables) (m : Manager)
    → (rs : List SessionRecord) × ((running_sessions w tables m).0 ≡ ok rs)
      × ((rs ≡ []) ↔ NoneRunning m.sessions)
unfolding running_sessions list
running_sessions-NoneRunning w tables m =
    let all = records (refresh_all w tables m.sessions) in
    let one = only_running-Idle (sort_records all) in
    let two = sort_records-Idle all in
    let three = refresh_all-Idle w tables m.sessions in
    (
      only_running (sort_records all),
      refl,
      (λ h. three.0 (two.0 (one.0 h)), λ h. one.1 (two.1 (three.1 h))),
    )
