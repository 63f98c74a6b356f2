-- ===== src/Session/Manager/Effects.antt =====
-- What the calls of the manager do to one session, seen through its record and through the bytes
-- written to its terminal.
pub mod Typing
pub mod Naming
pub mod Ending
pub mod Starting
pub mod Stopping
pub mod Listed
use Prim.Native.String.{String}
use falkn.Base.{
  ℕ, ◌≡◌, refl, Bool, true, false, not, ◌&&◌, List, [], ◌∷◌, Option, none, some, arith,
  if◌then◌else◌, Eq, same, Bool-cases, Option-cases, inl, inr,
}
use falkn.Base.Assoc.{lookup, adjust, map_some, lookup-adjust_self}
use falkn.Base.Text.{Text, string_eq, is_empty}
use falkn.Base.Int.{ℤ, pos}
use falkn.Session.History.Journal.{Terminal}
use falkn.Session.Live.{SessionRecord, LiveSession, is_running, rendered_transcript}
use falkn.Session.Manager.{Manager, World, Result, ok, err, M, update}
use falkn.Session.Manager.Disk.{store_session, store_all, persist_stored, persist}

abbrev pub record_in : Option LiveSession → Option SessionRecord
record_in none = none
record_in (some s) = some s.session_record

abbrev pub typed_in : Option LiveSession → Option (List (List ℕ))
typed_in none = none
typed_in (some s) = some s.typed

unfoldable pub record_of : String → Manager → Option SessionRecord
record_of id m = record_in (lookup id m.sessions)

unfoldable pub typed_of : String → Manager → Option (List (List ℕ))
typed_of id m = typed_in (lookup id m.sessions)

pub rendered-record :
    (valid : Text → Text) (t : Option Terminal) (n : ℤ) (s : LiveSession)
    → (rendered_transcript valid s t n).1.session_record ≡ s.session_record
unfolding rendered_transcript
rendered-record valid none n s = refl
rendered-record valid (some t) n s = refl

pub store_session-record :
    (w : World) (s : LiveSession) → (store_session w s).1.session_record ≡ s.session_record
unfolding store_session
store_session-record w s = elim (Bool-cases (not (is_running s) && is_empty s.stored_text)) [
  | inl h ↦ rw h (rendered-record w.valid (w.screen s.session_record.id) (pos 2000) s)
  | inr h ↦ rw h refl
]

store_all-record :
    (w : World) (id : String) (sessions : List (String × LiveSession))
    → record_in (lookup id (store_all w sessions).1) ≡ record_in (lookup id sessions)
unfolding store_all lookup
store_all-record w id [] = refl
store_all-record w id ((j, s) ∷ rest) = elim (Bool-cases (same j id)) [
  | inl h ↦ rw (h, store_session-record w s) refl
  | inr h ↦ rw (h, store_all-record w id rest) refl
]

-- Persisting changes no record.
pub persist-record_of :
    (w : World) (id : String) (m : Manager) → record_of id (persist w m).1 ≡ record_of id m
unfolding persist persist_stored record_of
persist-record_of w id m = elim (Bool-cases m.persistent) [
  | inl p ↦ elim (Bool-cases w.writable) [
    | inl h ↦ rw (p, h) (store_all-record w id m.sessions)
    | inr h ↦ rw (p, h) (store_all-record w id m.sessions)
  ]
  | inr p ↦ rw p refl
]

-- A change of a session that changes its record by `g`.
pub update-record_of :
    (id : String) (f : LiveSession → LiveSession) (g : SessionRecord → SessionRecord) (m : Manager)
    → ((s : LiveSession) → (f s).session_record ≡ g s.session_record)
    → record_of id (update id f m).1 ≡ map_some g (record_of id m)
unfolding update record_of
update-record_of id f g m h =
    rw (lookup-adjust_self id f m.sessions) (changed (lookup id m.sessions))
  where
    changed : (o : Option LiveSession) → record_in (map_some f o) ≡ map_some g (record_in o)
    changed none = refl
    changed (some s) = rw (h s) refl

pub record_of_found :
    (id : String) (m : Manager) (s : LiveSession)
    → lookup id m.sessions ≡ some s
    → record_of id m ≡ some s.session_record
unfolding record_of
record_of_found id m s q = rw q refl
