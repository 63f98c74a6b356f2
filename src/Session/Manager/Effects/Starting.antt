-- ===== src/Session/Manager/Effects/Starting.antt =====
-- Create and CreateShell: the new session is there when they succeed, and nothing is when they fail.
use Prim.Native.String.{String}
use falkn.Base.{
  ◌≡◌, refl, sym, ◌∙◌, Bool, true, false, not, List, Option, none, some, if◌then◌else◌, same,
  same_iff, subst, length, ltb, Bool-cases, inl, inr, ap,
}
use falkn.Base.Assoc.{remove, lookup-remove, lookup-insert}
use falkn.Base.Int.{ℤ}
use falkn.Base.Text.{Text, string_eq, is_empty, trim_space}
use falkn.Agent.Launch
use falkn.Agent.Launch.{Spec, launch_arguments}
use falkn.Session.Live.{SessionRecord}
use falkn.Session.Manager.{
  Manager, World, Error, title_required, title_too_long, unsupported_agent, not_available, no_id,
  start_failed, Result, ok, err, M, bind_result, ◌>>=◌, ◌>>◌, pure, ensure,
}
use falkn.Session.Manager.Disk.{persist}
use falkn.Session.Manager.Calls.{forget, checked_title}
use falkn.Workspace
use falkn.Workspace.{Checked, found, resolve}
use falkn.Session.Manager.Create.{
  or_path, Machine, CreateParams, create, create_shell, launch, add_session, new_session,
  undo_create, or_fail, or_refuse, find_spec,
}
use falkn.Session.Manager.Effects.{record_of, persist-record_of}

-- The answer of a call on the manager `m` that adds one session: a failure leaves every record as it
-- was, and a success answers the record that the session now has, in a manager that keeps the others.
pub data Added (m : Manager) : Result SessionRecord × Manager → Type 0 where
  refused :
      (e : Error) (n : Manager)
      → ((j : String) → record_of j n ≡ record_of j m)
      → Added m (err e, n)
  added :
      (r : SessionRecord) (n : Manager)
      → record_of r.id m ≡ none
      → ((j : String) → record_of j n ≡ (if same r.id j then some r else record_of j m))
      → Added m (ok r, n)

-- A step that only reads.
record Reads {A : Type 0} (x : M A) : Type 0 where
  reads : (m : Manager) → (x m).1 ≡ m

ensure-Reads : (b : Bool) (e : Error) → Reads (ensure b e)
ensure-Reads true e = record { reads = λ m. refl }
ensure-Reads false e = record { reads = λ m. refl }

or_fail-Reads : {A : Type 0} (o : Option A) (e : Error) → Reads (or_fail o e)
or_fail-Reads none e = record { reads = λ m. refl }
or_fail-Reads (some a) e = record { reads = λ m. refl }

or_refuse-Reads : {A : Type 0} (r : Launch.Checked A) → Reads (or_refuse r)
or_refuse-Reads (Launch.accepted a) = record { reads = λ m. refl }
or_refuse-Reads (Launch.refused e) = record { reads = λ m. refl }

or_path-Reads : {A : Type 0} (c : Checked A) → Reads (or_path c)
or_path-Reads (found a) = record { reads = λ m. refl }
or_path-Reads (Workspace.refused k) = record { reads = λ m. refl }

bind_result-Added :
    {A : Type 0} (m : Manager) (r : Result A × Manager) (f : A → M SessionRecord)
    → r.1 ≡ m
    → ((a : A) → r.0 ≡ ok a → Added m (f a m))
    → Added m (bind_result r f)
bind_result-Added m (ok a, n) f q k = subst (λ x. Added m (f a x)) (sym q) (k a refl)
bind_result-Added m (err e, n) f q k = refused e n (λ j. ap (record_of j) q)

bind-Added :
    {A : Type 0} (m : Manager) (x : M A) (f : A → M SessionRecord)
    → Reads x
    → ((a : A) → (x m).0 ≡ ok a → Added m (f a m))
    → Added m ((x >>= f) m)
bind-Added m x f k g = bind_result-Added m (x m) f (k.reads m) g

bind_result-Reads :
    {A B : Type 0} (r : Result A × Manager) (f : A → M B)
    → ((a : A) → Reads (f a))
    → (bind_result r f).1 ≡ r.1
bind_result-Reads (ok a, m) f k = (k a).reads m
bind_result-Reads (err e, m) f k = refl

bind-Reads :
    {A B : Type 0} (x : M A) (f : A → M B) → Reads x → ((a : A) → Reads (f a)) → Reads (x >>= f)
bind-Reads x f k g = record { reads = λ m. bind_result-Reads (x m) f g ∙ k.reads m }

checked_title-Reads : (title : Text) → Reads (checked_title title)
unfolding checked_title
checked_title-Reads title =
    bind-Reads (ensure (not (is_empty (trim_space title))) title_required) _ (ensure-Reads _ _)
      (λ a.
        bind-Reads (ensure (not (ltb 200 (length (trim_space title)))) title_too_long) _
          (ensure-Reads _ _) (λ b. record { reads = λ m. refl }))

or_fail-some :
    {A : Type 0} (o : Option A) (e : Error) (m : Manager) (a : A)
    → (or_fail o e m).0 ≡ ok a
    → o ≡ some a
or_fail-some none e m a q = cc
or_fail-some (some b) e m a q = cc

removed-record_of :
    (j id : String) (n : Manager)
    → record_of j (record n { sessions = remove id n.sessions })
      ≡ (if same id j then none else record_of j n)
unfolding record_of
removed-record_of j id n = elim (Bool-cases (same id j)) [
  | inl s ↦ rw (lookup-remove id j n.sessions, s) refl
  | inr d ↦ rw (lookup-remove id j n.sessions, d) refl
]

add_session-record_of :
    (j id : String) (r : SessionRecord) (columns rows : ℤ) (m : Manager)
    → record_of j (add_session id (new_session r columns rows) m).1
      ≡ (if same id j then some r else record_of j m)
unfolding add_session new_session record_of
add_session-record_of j id r columns rows m = elim (Bool-cases (same id j)) [
  | inl s ↦ rw (lookup-insert id j (new_session r columns rows) m.sessions, s) refl
  | inr d ↦ rw (lookup-insert id j (new_session r columns rows) m.sessions, d) refl
]

persisted :
    (m : Manager) (id : String) (r : SessionRecord) (x : Result (Unit {0}) × Manager)
    → r.id ≡ id
    → record_of id m ≡ none
    → ((j : String) → record_of j x.1 ≡ (if same id j then some r else record_of j m))
    → Added m (bind_result (undo_create id x) (λ u. pure r))
unfolding undo_create forget
persisted m id r (ok u, n) q f h =
    added r n (subst (λ i. record_of i m ≡ none) (sym q) f)
      (λ j. subst (λ i. record_of j n ≡ (if same i j then some r else record_of j m)) (sym q) (h j))
persisted m id r (err e, n) q f h = refused e _ (λ j.
    removed-record_of j id n ∙ elim (Bool-cases (same id j)) [
      | inl s ↦ rw s (subst (λ i. none ≡ record_of i m) ((same_iff id j).0 s) (sym f))
      | inr d ↦ rw d (h j ∙ rw d refl)
    ])

launch-Added :
    (w : World) (id : String) (r : SessionRecord) (columns rows : ℤ) (m : Manager)
    → r.id ≡ id
    → record_of id m ≡ none
    → Added m (launch w id r columns rows m)
unfolding launch
launch-Added w id r columns rows m q f =
    let m' = (add_session id (new_session r columns rows) m).1 in
    unfold add_session in
    persisted m id r (persist w m') q f
      (λ j. persist-record_of w j m' ∙ add_session-record_of j id r columns rows m)

module _ (w : World) (machine : Machine) (params : CreateParams) (m : Manager)
    (fresh : (id : String) → machine.new_session_id ≡ some id → record_of id m ≡ none) where
  drawn-Added :
      (r : String → SessionRecord) (columns rows : ℤ)
      → ((id : String) → (r id).id ≡ id)
      → Added m (
          (or_fail machine.new_session_id no_id >>= λ id.
          ensure machine.starts start_failed >> launch w id (r id) columns rows)
            m)
  drawn-Added r columns rows named =
      bind-Added m (or_fail machine.new_session_id no_id) _
        (or_fail-Reads machine.new_session_id no_id)
        (λ id p. bind-Added m (ensure machine.starts start_failed) _ (ensure-Reads _ _) (λ a q.
          launch-Added w id (r id) columns rows m (named id)
            (fresh id (or_fail-some machine.new_session_id no_id m id p))))

  create-Added : (agents : List Spec) → Added m (create w machine agents params m)
  unfolding create
  create-Added agents =
      bind-Added m (checked_title params.title) _ (checked_title-Reads params.title) (λ title p.
        bind-Added m (or_fail (find_spec params.agent_id agents) unsupported_agent) _
          (or_fail-Reads (find_spec params.agent_id agents) _)
          (λ spec p.
            bind-Added m (ensure (machine.has_executable spec) not_available) _ (ensure-Reads _ _)
              (λ a p.
                bind-Added m
                  (or_refuse (
                    launch_arguments machine.lower_rune spec params.permission_mode
                      params.additional_arguments))
                  _ (or_refuse-Reads _)
                  (λ arguments p.
                    bind-Added m (or_path (resolve machine.files params.directory)) _
                      (or_path-Reads (resolve machine.files params.directory))
                      (λ directory p.
                        drawn-Added _ params.terminal_columns params.terminal_rows (λ id. refl))))))

  create_shell-Added : Added m (create_shell w machine params m)
  unfolding create_shell
  create_shell-Added =
      bind-Added m (checked_title params.title) _ (checked_title-Reads params.title) (λ title p.
        bind-Added m (or_path (resolve machine.files params.directory)) _
          (or_path-Reads (resolve machine.files params.directory))
          (λ directory p.
            bind-Added m (or_fail machine.user_shell start_failed) _
              (or_fail-Reads machine.user_shell start_failed)
              (λ shell p. drawn-Added _ params.terminal_columns params.terminal_rows (λ id. refl))))

  -- Create and CreateShell, when the identifier that they draw belongs to no session: a failure, also
  -- one to persist, leaves every session's record as it was, and a success answers the record that
  -- the new session has, the others keeping theirs.
  pub launches-Added :
      (agents : List Spec)
      → Added m (create w machine agents params m) × Added m (create_shell w machine params m)
  launches-Added agents = (create-Added agents, create_shell-Added)
