-- ===== src/Session/Manager/Effects/Ending.antt =====
-- Stop and Delete, and the rules for what a call leaves behind when it succeeds and for the records
-- that it spares.
use Prim.Native.String.{String}
use falkn.Base.{
  ◌≡◌, refl, ◌∙◌, Bool, true, false, Option, none, some, if◌then◌else◌, same, same_iff, subst,
  Bool-cases, inl, inr,
}
use falkn.Base.Assoc.{lookup, remove, lookup-adjust, lookup-remove, lookup-remove_self}
use falkn.Base.Text.{string_eq}
use falkn.Session.Live.{LiveSession, is_running}
use falkn.Session.Manager.{
  Manager, World, Error, Result, ok, err, M, bind_result, ◌>>=◌, ◌>>◌, pure, ensure, found_or, find,
  update,
}
use falkn.Session.Manager.Disk.{persist}
use falkn.Session.Manager.Calls.{stop_running, stop, forget, delete, stopped_in}
use falkn.Session.Manager.Effects.{record_of, persist-record_of}

-- When `x` succeeds, its answer and the manager that it leaves satisfy `P`.
pub record Ends {A : Type 0} (P : A → Manager → Type 0) (x : M A) : Type 0 where
  pub ended : (m : Manager) (a : A) → (x m).0 ≡ ok a → P a (x m).1

bind_result-Ends :
    {A B : Type 0} (P : B → Manager → Type 0) (r : Result A × Manager) (f : A → M B)
    → ((a : A) → Ends P (f a))
    → (b : B) → (bind_result r f).0 ≡ ok b
    → P b (bind_result r f).1
bind_result-Ends P (ok a, m) f k b q = (k a).ended m b q
bind_result-Ends P (err e, m) f k b q = cc

pub bind-Ends :
    {A B : Type 0} {P : B → Manager → Type 0} (x : M A) {f : A → M B}
    → ((a : A) → Ends P (f a))
    → Ends P (x >>= f)
bind-Ends {P = P} x {f = f} k = record { ended = λ m b q. bind_result-Ends P (x m) f k b q }

-- `x` spares the record of the session `j`.
pub record Spares (j : String) {A : Type 0} (x : M A) : Type 0 where
  pub spared : (m : Manager) → record_of j (x m).1 ≡ record_of j m

bind_result-Spares :
    {A B : Type 0} (j : String) (r : Result A × Manager) (f : A → M B)
    → ((a : A) → Spares j (f a))
    → record_of j (bind_result r f).1 ≡ record_of j r.1
bind_result-Spares j (ok a, m) f k = (k a).spared m
bind_result-Spares j (err e, m) f k = refl

pub bind-Spares :
    {j : String} {A B : Type 0} {x : M A} {f : A → M B}
    → Spares j x
    → ((a : A) → Spares j (f a))
    → Spares j (x >>= f)
bind-Spares {j = j} {x = x} {f = f} k g = record {
  spared = λ m. bind_result-Spares j (x m) f g ∙ k.spared m;
}

ensure-Spares : (j : String) (b : Bool) (e : Error) → Spares j (ensure b e)
ensure-Spares j true e = record { spared = λ m. refl }
ensure-Spares j false e = record { spared = λ m. refl }

found_or-Spares :
    (j : String) (o : Option LiveSession) (e : Error) (m : Manager)
    → record_of j (found_or o e m).1 ≡ record_of j m
found_or-Spares j none e m = refl
found_or-Spares j (some s) e m = refl

find-Spares : (j id : String) → Spares j (find id)
unfolding find
find-Spares j id = record { spared = λ m. found_or-Spares j (lookup id m.sessions) _ m }

update-Spares :
    (j id : String) (f : LiveSession → LiveSession) → same id j ≡ false → Spares j (update id f)
unfolding update record_of
update-Spares j id f d = record { spared = λ m. rw (lookup-adjust id j f m.sessions, d) refl }

persist-Spares : (j : String) (w : World) → Spares j (persist w)
persist-Spares j w = record { spared = λ m. persist-record_of w j m }

forget-Spares : (j id : String) → same id j ≡ false → Spares j (forget id)
unfolding forget record_of
forget-Spares j id d = record { spared = λ m. rw (lookup-remove id j m.sessions, d) refl }

if-Spares :
    (j : String) (b : Bool) {x : M (Unit {0})} → Spares j x → Spares j (if b then x else pure tt)
if-Spares j true k = k
if-Spares j false k = record { spared = λ m. refl }

module _ (w : World) (id j : String) (d : same id j ≡ false) where
  stop_running-Spares : (s : LiveSession) → Spares j (stop_running w id s)
  unfolding stop_running
  stop_running-Spares s = bind-Spares (update-Spares j id _ d) (λ a.
      bind-Spares (ensure-Spares j _ _)
        (λ b. bind-Spares (update-Spares j id _ d) (λ c. persist-Spares j w)))

  stop-Spares : Spares j (stop w id)
  unfolding stop
  stop-Spares = bind-Spares (find-Spares j id) (λ s. if-Spares j _ (stop_running-Spares s))

  delete-Spares : Spares j (delete w id)
  unfolding delete
  delete-Spares = bind-Spares (find-Spares j id) (λ s. bind-Spares (if-Spares j _ stop-Spares) (λ a.
      bind-Spares (forget-Spares j id d) (λ b. persist-Spares j (stopped_in w (is_running s)))))

removed-record_of :
    (id : String) (m : Manager) → record_of id (record m { sessions = remove id m.sessions }) ≡ none
unfolding record_of
removed-record_of id m = rw (lookup-remove_self id m.sessions) refl

gone : (w : World) (id : String) → Ends (λ a m. record_of id m ≡ none) (forget id >> persist w)
unfolding forget
gone w id = record {
  ended = λ m u q.
      persist-record_of w id (record m { sessions = remove id m.sessions })
      ∙ removed-record_of id m;
}

delete-Ends : (w : World) (id : String) → Ends (λ a m. record_of id m ≡ none) (delete w id)
unfolding delete
delete-Ends w id = bind-Ends (find id) (λ s.
    bind-Ends (if is_running s then stop w id else pure tt)
      (λ a. gone (stopped_in w (is_running s)) id))

-- Delete, running or not: when it succeeds, no session has the identifier any more, and every other
-- session keeps its record.
pub delete-record_of :
    (w : World) (id : String) (m : Manager) (j : String)
    → (delete w id m).0 ≡ ok tt
    → record_of j (delete w id m).1 ≡ (if same id j then none else record_of j m)
delete-record_of w id m j q = elim (Bool-cases (same id j)) [
  | inl s ↦ rw s (
      subst (λ i. record_of i (delete w id m).1 ≡ none) ((same_iff id j).0 s)
        ((delete-Ends w id).ended m tt q))
  | inr d ↦ rw d ((delete-Spares w id j d).spared m)
]
