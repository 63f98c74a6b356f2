-- ===== src/Session/Manager/Effects/Stopping.antt =====
-- What does not run: every session after a restart of the daemon, and a session that was stopped.
use Prim.Native.String.{String}
use falkn.Base.{◌≡◌, false, List, [], ◌∷◌, Option, none, some, same, Bool-cases, inl, inr}
use falkn.Base.Assoc.{Entries, Entries-insert}
use falkn.Base.Text.{string_eq}
use falkn.Session.Live.{LiveSession, is_running}
use falkn.Session.Manager.{PersistedState, PersistedSession, Manager, World, new_manager}
use falkn.Session.Manager.Disk.{
  persist, persist_stored, store_all, restored, restore_all, enable_with, stored_sessions,
  enable_persistence,
}
use falkn.Session.Manager.Invariant.Storage.{restored-at_rest}
use falkn.Session.Manager.Effects.{store_session-record}

pub AtRest : String → LiveSession → Type 0
AtRest id s = is_running s ≡ false

store_all-AtRest :
    (w : World) (sessions : List (String × LiveSession))
    → Entries AtRest sessions
    → Entries AtRest (store_all w sessions).1
unfolding store_all AtRest
store_all-AtRest w [] h = tt
store_all-AtRest w ((id, s) ∷ rest) h =
    (rw (store_session-record w s) h.0, store_all-AtRest w rest h.1)

persist-AtRest :
    (w : World) (m : Manager) → Entries AtRest m.sessions → Entries AtRest (persist w m).1.sessions
unfolding persist persist_stored
persist-AtRest w m h = elim (Bool-cases m.persistent) [
  | inl p ↦ elim (Bool-cases w.writable) [
    | inl q ↦ rw (p, q) (store_all-AtRest w m.sessions h)
    | inr q ↦ rw (p, q) (store_all-AtRest w m.sessions h)
  ]
  | inr p ↦ rw p h
]

restore_all-AtRest :
    (ps : List PersistedSession) (sessions : List (String × LiveSession))
    → Entries AtRest sessions
    → Entries AtRest (restore_all ps sessions)
unfolding restore_all AtRest
restore_all-AtRest [] sessions h = h
restore_all-AtRest (p ∷ ps) sessions h =
    restore_all-AtRest ps _ (elim (Bool-cases (same p.stored.id "")) [
      | inl e ↦ rw e h
      | inr e ↦
          rw e (Entries-insert AtRest p.stored.id (restored p) sessions (restored-at_rest p) h)
    ])

enable_with-AtRest :
    (w : World) (o : Option (List PersistedSession)) (m : Manager)
    → Entries AtRest m.sessions
    → Entries AtRest (enable_with w o m).1.sessions
unfolding enable_with
enable_with-AtRest w none m h = h
enable_with-AtRest w (some ps) m h = persist-AtRest w _ (restore_all-AtRest ps m.sessions h)

-- After a restart of the daemon no session is running, whatever the state file says of it.
pub restart-AtRest :
    (w : World) (disk : Option PersistedState)
    → Entries AtRest (enable_persistence w (new_manager disk)).1.sessions
unfolding enable_persistence
restart-AtRest w disk =
    enable_with-AtRest w (stored_sessions (new_manager disk).disk) (new_manager disk)
      (unfold new_manager in tt)
