-- ===== src/Session/Manager/Invariant/Storage.antt =====
-- persist and EnablePersistence keep the invariant.
use Prim.Native.String.{String}
use falkn.Base.{
  ◌≡◌, refl, false, not, ◌&&◌, List, [], ◌∷◌, Option, none, some, same, Bool-cases, inl, inr,
}
use falkn.Base.Assoc.{Entries, Entries-insert}
use falkn.Base.Text.{string_eq, is_empty}
use falkn.Base.Int.{pos}
use falkn.Session.Live.{LiveSession, is_running}
use falkn.Session.Live.Settled.{Settled, rendered-Settled}
use falkn.Session.Manager.{Manager, World, PersistedSession, ok}
use falkn.Session.Manager.Disk.{
  store_session, store_all, persist_stored, persist, restored, restore_all, stored_sessions,
  enable_with, enable_persistence,
}
use falkn.Session.Manager.Invariant.{Inv, Keeps, if-Inv}

store_session-Settled :
    (w : World) (id : String) (s : LiveSession) → Settled id s → Settled id (store_session w s).1
unfolding store_session
store_session-Settled w id s v = elim (Bool-cases (not (is_running s) && is_empty s.stored_text)) [
  | inl h ↦ rw h (rendered-Settled id s v w.valid (w.screen s.session_record.id) (pos 2000))
  | inr h ↦ rw h v
]

store_all-Inv :
    (w : World) (sessions : List (String × LiveSession))
    → Entries Settled sessions
    → Entries Settled (store_all w sessions).1
unfolding store_all
store_all-Inv w [] v = tt
store_all-Inv w ((id, s) ∷ rest) v = (store_session-Settled w id s v.0, store_all-Inv w rest v.1)

persist_stored-Inv :
    (w : World) (stored : List PersistedSession × List (String × LiveSession)) (m : Manager)
    → Entries Settled stored.1
    → Inv (persist_stored w stored m).1
unfolding persist_stored Inv
persist_stored-Inv w (ps, sessions) m v = if-Inv w.writable _ _ v v

pub persist-Keeps : (w : World) → Keeps (persist w)
unfolding persist Inv
persist-Keeps w = record {
  kept = λ m v.
      if-Inv m.persistent (persist_stored w (store_all w m.sessions) m) (ok tt, m)
        (persist_stored-Inv w (store_all w m.sessions) m (store_all-Inv w m.sessions v)) v;
}

-- A restored session is not running, whatever was stored.
pub restored-at_rest : (p : PersistedSession) → is_running (restored p) ≡ false
unfolding restored
restored-at_rest p = elim (Bool-cases (same p.stored.status "running")) [
  | inl h ↦ rw h refl
  | inr h ↦ rw (h, h) refl
]

restored-Settled : (p : PersistedSession) → Settled p.stored.id (restored p)
restored-Settled p = record {
  named = unfold restored in refl;
  clients = record {
    attached = unfold restored in refl;
    focused =
        unfold restored in
        elim (Bool-cases p.stored.notifications_muted) [ inl h ↦ rw h refl | inr h ↦ rw h refl ];
  };
  at_rest = λ h. restored-at_rest p;
}

restore_all-Inv :
    (ps : List PersistedSession) (sessions : List (String × LiveSession))
    → Entries Settled sessions
    → Entries Settled (restore_all ps sessions)
unfolding restore_all
restore_all-Inv [] sessions v = v
restore_all-Inv (p ∷ ps) sessions v =
    restore_all-Inv ps _ (elim (Bool-cases (same p.stored.id "")) [
      | inl h ↦ rw h v
      | inr h ↦
          rw h (Entries-insert Settled p.stored.id (restored p) sessions (restored-Settled p) v)
    ])

enable_with-Inv :
    (w : World) (o : Option (List PersistedSession)) (m : Manager)
    → Inv m
    → Inv (enable_with w o m).1
unfolding enable_with Inv
enable_with-Inv w none m v = v
enable_with-Inv w (some ps) m v = (persist-Keeps w).kept _ (restore_all-Inv ps m.sessions v)

pub enable_persistence-Keeps : (w : World) → Keeps (enable_persistence w)
unfolding enable_persistence
enable_persistence-Keeps w = record { kept = λ m v. enable_with-Inv w (stored_sessions m.disk) m v }
