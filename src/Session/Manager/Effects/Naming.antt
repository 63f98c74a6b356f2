-- ===== src/Session/Manager/Effects/Naming.antt =====
-- Rename.
use Prim.Native.String.{String}
use falkn.Base.{
  ◌≡◌, ◌⊎◌, refl, ◌∙◌, Option, none, some, same, list_eq, nat_eq, Bool-cases, Option-cases, inl,
  inr, length, ltb,
}
use falkn.Base.Assoc.{lookup, map_some}
use falkn.Base.Text.{Text, string_eq, is_empty, trim_space}
use falkn.Session.Live.{SessionRecord, LiveSession, set_title}
use falkn.Session.Manager.{
  Manager, World, Error, title_required, title_too_long, session_not_found, Result, ok, err, update,
  find,
}
use falkn.Session.Manager.Disk.{persist}
use falkn.Session.Manager.Calls.{checked_title, undo_title, rename}
use falkn.Session.Manager.Effects.{record_of, persist-record_of, update-record_of, record_of_found}

-- The outcome of a rename on the record `r`.
abbrev pub renamed : {A : Type 0} → Result A → Text → SessionRecord → SessionRecord
renamed (ok u) title r = record r { title = title }
renamed (err e) title r = r

same_record :
    (o : Option SessionRecord) (e : Error) (title : Text)
    → o ≡ map_some (renamed {A = Unit {0}} (err e) title) o
same_record none e title = refl
same_record (some r) e title = refl

-- The end of a rename of a session with the record `r`.
finished :
    (id : String) (title : Text) (r : SessionRecord) (x : Result (Unit {0}) × Manager)
    → record_of id x.1 ≡ some (record r { title = title })
    → record_of id (undo_title id r.title x).1 ≡ some (renamed (undo_title id r.title x).0 title r)
unfolding undo_title
finished id title r (ok u, n) q = q
finished id title r (err e, n) q =
    update-record_of id (set_title r.title) (λ x. record x { title = r.title }) n
      (λ s. unfold set_title in refl)
    ∙ rw q refl

module _ (w : World) (id : String) (requested : Text) (m : Manager) where
  titled : Manager
  titled = (update id (set_title (trim_space requested)) m).1

  titled-record_of :
      (s : LiveSession)
      → lookup id m.sessions ≡ some s
      → record_of id titled ≡ some (record s.session_record { title = trim_space requested })
  unfolding titled
  titled-record_of s q =
      update-record_of id (set_title (trim_space requested))
        (λ x. record x { title = trim_space requested }) m (λ s. unfold set_title in refl)
      ∙ rw (record_of_found id m s q) refl

  rename-outcome :
      ((e : Error) × (rename w id requested m ≡ (err e, m)))
      ⊎ ((s : LiveSession) × (lookup id m.sessions ≡ some s)
          × ((rename w id requested m ≡ (ok tt, titled))
              ⊎ (rename w id requested m
                  ≡ undo_title id s.session_record.title (persist w titled))))
  unfolding rename checked_title find titled update
  rename-outcome = elim (Bool-cases (is_empty (trim_space requested))) [
    | inl e ↦ inl (title_required, rw e refl)
    | inr e ↦ elim (Bool-cases (ltb 200 (length (trim_space requested)))) [
      | inl l ↦ inl (title_too_long, rw (e, l) refl)
      | inr l ↦ elim (Option-cases (lookup id m.sessions)) [
        | inl q ↦ inl (session_not_found, rw (e, l, q) refl)
        | inr (s, q) ↦ elim (Bool-cases (same s.session_record.title (trim_space requested))) [
          | inl u ↦ inr (s, q, inl (rw (e, l, q, u) refl))
          | inr u ↦ inr (s, q, inr (rw (e, l, q, u) refl))
        ]
      ]
    ]
  ]

-- A rename that succeeds gives the session the trimmed title and changes nothing else of its record;
-- one that fails, also when the state file cannot be replaced, leaves the record as it was.
pub rename-record_of :
    (w : World) (id : String) (requested : Text) (m : Manager)
    → record_of id (rename w id requested m).1
      ≡ map_some (renamed (rename w id requested m).0 (trim_space requested)) (record_of id m)
rename-record_of w id requested m = elim (rename-outcome w id requested m) [
  | inl (e, q) ↦ rw q (same_record (record_of id m) e (trim_space requested))
  | inr (s, q, inl u) ↦ rw (u, record_of_found id m s q) (titled-record_of w id requested m s q)
  | inr (s, q, inr u) ↦
      rw (u, record_of_found id m s q)
        (finished id (trim_space requested) s.session_record (persist w (titled w id requested m)) (
          persist-record_of w id (titled w id requested m) ∙ titled-record_of w id requested m s q))
]
