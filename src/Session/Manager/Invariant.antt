-- ===== src/Session/Manager/Invariant.antt =====
-- The invariant of the manager's map and the rules with which a call keeps it.
pub mod Storage
pub mod Steps
pub mod Created
pub mod Every
use Prim.Native.String.{String}
use falkn.Base.{
  ◌≡◌, refl, sym, Bool, true, false, not, List, [], ◌∷◌, Option, none, some, arith, if◌then◌else◌,
  Eq, same, Bool-cases, inl, inr,
}
use falkn.Base.Assoc.{
  lookup, insert, remove, adjust, Entries, Entries-insert, Entries-remove, Entries-adjust,
}
use falkn.Base.Text.{string_eq}
use falkn.Session.Live.{LiveSession}
use falkn.Session.Live.Settled.{Settled}
use falkn.Session.Manager.{
  Manager, Error, Result, ok, err, M, bind_result, ◌>>=◌, pure, fail, ensure, found_or, find,
  running, update,
}

-- Every session stands under its identifier, counts its clients and is not running when archived.
unfoldable pub Inv : Manager → Type 0
Inv m = Entries Settled m.sessions

pub record Keeps {A : Type 0} (x : M A) : Type 0 where
  pub kept : (m : Manager) → Inv m → Inv (x m).1

bind_result-Inv :
    {A B : Type 0} (r : Result A × Manager) (f : A → M B)
    → Inv r.1
    → ((a : A) → Keeps (f a))
    → Inv (bind_result r f).1
bind_result-Inv (ok a, m) f v k = (k a).kept m v
bind_result-Inv (err e, m) f v k = v

pub bind-Keeps :
    {A B : Type 0} {x : M A} {f : A → M B} → Keeps x → ((a : A) → Keeps (f a)) → Keeps (x >>= f)
bind-Keeps {x = x} {f = f} k g = record { kept = λ m v. bind_result-Inv (x m) f (k.kept m v) g }

pub pure-Keeps : {A : Type 0} (a : A) → Keeps (pure a)
pure-Keeps a = record { kept = λ m v. v }

pub fail-Keeps : {A : Type 0} (e : Error) → Keeps (fail {A = A} e)
fail-Keeps e = record { kept = λ m v. v }

pub ensure-Keeps : (b : Bool) (e : Error) → Keeps (ensure b e)
ensure-Keeps true e = record { kept = λ m v. v }
ensure-Keeps false e = record { kept = λ m v. v }

found_or-same : (o : Option LiveSession) (e : Error) (m : Manager) → (found_or o e m).1 ≡ m
found_or-same none e m = refl
found_or-same (some s) e m = refl

pub find-Keeps : (id : String) → Keeps (find id)
unfolding find
find-Keeps id = record { kept = λ m v. rw (found_or-same (lookup id m.sessions) _ m) v }

pub running-Keeps : (id : String) → Keeps (running id)
unfolding running
running-Keeps id =
    bind-Keeps (find-Keeps id) (λ s. bind-Keeps (ensure-Keeps _ _) (λ u. pure-Keeps s))

pub update-Keeps :
    (id : String) (f : LiveSession → LiveSession)
    → ((j : String) (s : LiveSession) → Settled j s → Settled j (f s))
    → Keeps (update id f)
unfolding update Inv
update-Keeps id f g = record { kept = λ m v. Entries-adjust Settled id f m.sessions g v }

pub if-Keeps : {A : Type 0} (b : Bool) {x y : M A} → Keeps x → Keeps y → Keeps (if b then x else y)
if-Keeps true k l = k
if-Keeps false k l = l

pub if-Inv :
    {A : Type 0} (b : Bool) (x y : Result A × Manager)
    → Inv x.1
    → Inv y.1
    → Inv (if b then x else y).1
if-Inv true x y k l = k
if-Inv false x y k l = l
