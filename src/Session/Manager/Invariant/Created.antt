-- ===== src/Session/Manager/Invariant/Created.antt =====
-- Create, CreateShell, List and RunningSessions keep the invariant.
use Prim.Native.String.{String}
use falkn.Base.{
  ◌≡◌, refl, false, ◌&&◌, List, [], ◌∷◌, Option, none, some, Bool-cases, inl, inr, ◌==◌,
}
use falkn.Base.Assoc.{Entries, Entries-insert, Entries-remove}
use falkn.Base.Int.{ℤ}
use falkn.Base.Text.{Text, string_eq}
use falkn.Agent.Launch.{Spec, launch_arguments}
use falkn.Agent.Launch
use falkn.Agent.State.{Tables}
use falkn.Session.History.Journal.{Terminal}
use falkn.Session.Live.{SessionRecord, LiveSession, refresh_attention, rendered_transcript}
use falkn.Session.Live.Clients.{refresh_attention-Counts}
use falkn.Session.Live.Settled.{Settled, same_status}
use falkn.Session.Live.Foreground.{foreground-Settled}
use falkn.Session.Manager.{Manager, World, Error, Result, ok, err}
use falkn.Session.Manager.Calls.{forget}
use falkn.Workspace.{Checked, found, refused, resolve}
use falkn.Session.Manager.Create.{
  or_path, CreateParams, Machine, or_fail, or_refuse, find_spec, new_session, add_session,
  undo_create, launch, create, create_shell,
}
use falkn.Session.Manager.Disk.{persist}
use falkn.Session.Manager.Listing.{refreshed, refresh_all, list, running_sessions}
use falkn.Session.Manager.Invariant.{Inv, Keeps, bind-Keeps, pure-Keeps, ensure-Keeps}
use falkn.Session.Manager.Invariant.Storage.{persist-Keeps}
use falkn.Session.Manager.Invariant.Steps.{checked_title-Keeps}

or_fail-Keeps : {A : Type 0} (o : Option A) (e : Error) → Keeps (or_fail o e)
or_fail-Keeps none e = record { kept = λ m v. v }
or_fail-Keeps (some a) e = record { kept = λ m v. v }

or_refuse-Keeps : {A : Type 0} (r : Launch.Checked A) → Keeps (or_refuse r)
or_refuse-Keeps (Launch.accepted a) = record { kept = λ m v. v }
or_refuse-Keeps (Launch.refused e) = record { kept = λ m v. v }

or_path-Keeps : {A : Type 0} (c : Checked A) → Keeps (or_path c)
or_path-Keeps (found a) = record { kept = λ m v. v }
or_path-Keeps (refused k) = record { kept = λ m v. v }

-- The record of a session that is about to be launched.
record Fresh (id : String) (r : SessionRecord) : Type 0 where
  named : r.id ≡ id
  attached : r.attached_clients ≡ 0
  focused : r.focused_clients ≡ 0
  unmuted : r.notifications_muted ≡ false
  kept : r.archived ≡ false

new_session-Settled :
    (id : String) (r : SessionRecord) (columns rows : ℤ)
    → Fresh id r
    → Settled id (new_session r columns rows)
unfolding new_session
new_session-Settled id r columns rows f = record {
  named = f.named;
  clients = record { attached = f.attached; focused = rw f.unmuted f.focused };
  at_rest = λ h. cc (f.kept, h);
}

undo_create-Inv :
    (id : String) (r : Result (Unit {0}) × Manager) → Inv r.1 → Inv (undo_create id r).1
unfolding undo_create Inv forget
undo_create-Inv id (ok u, m) v = v
undo_create-Inv id (err e, m) v = Entries-remove Settled id m.sessions v

add_session-Keeps : (id : String) (s : LiveSession) → Settled id s → Keeps (add_session id s)
unfolding add_session Inv
add_session-Keeps id s v = record { kept = λ m h. Entries-insert Settled id s m.sessions v h }

launch-Keeps :
    (w : World) (id : String) (r : SessionRecord) (columns rows : ℤ)
    → Fresh id r
    → Keeps (launch w id r columns rows)
unfolding launch
launch-Keeps w id r columns rows f =
    bind-Keeps (add_session-Keeps id _ (new_session-Settled id r columns rows f)) (λ a.
      bind-Keeps {x = λ m. undo_create id (persist w m)}
        (record { kept = λ m v. undo_create-Inv id (persist w m) ((persist-Keeps w).kept m v) })
        (λ b. pure-Keeps r))

module _ (w : World) (machine : Machine) (params : CreateParams) where
  pub create-Keeps : (agents : List Spec) → Keeps (create w machine agents params)
  unfolding create
  create-Keeps agents = bind-Keeps (checked_title-Keeps params.title) (λ title.
      bind-Keeps (or_fail-Keeps (find_spec params.agent_id agents) _) (λ spec.
        bind-Keeps (ensure-Keeps (machine.has_executable spec) _) (λ a.
          bind-Keeps (or_refuse-Keeps _) (λ arguments.
            bind-Keeps (or_path-Keeps (resolve machine.files params.directory)) (λ directory.
              bind-Keeps (or_fail-Keeps machine.new_session_id _) (λ id.
                bind-Keeps (ensure-Keeps machine.starts _) (λ b. launch-Keeps w id _ _ _ (record {
                  named = refl;
                  attached = refl;
                  focused = refl;
                  unmuted = refl;
                  kept = refl;
                }))))))))

  pub create_shell-Keeps : Keeps (create_shell w machine params)
  unfolding create_shell
  create_shell-Keeps = bind-Keeps (checked_title-Keeps params.title) (λ title.
      bind-Keeps (or_path-Keeps (resolve machine.files params.directory)) (λ directory.
        bind-Keeps (or_fail-Keeps machine.user_shell _) (λ shell.
          bind-Keeps (or_fail-Keeps machine.new_session_id _) (λ id.
            bind-Keeps (ensure-Keeps machine.starts _) (λ b. launch-Keeps w id _ _ _ (record {
              named = refl;
              attached = refl;
              focused = refl;
              unmuted = refl;
              kept = refl;
            }))))))

-- What refreshAttention leaves alone.
unfoldable pub Untouched : LiveSession → LiveSession → Type 0
Untouched s u =
    (u.session_record.id ≡ s.session_record.id)
    × (u.session_record.archived ≡ s.session_record.archived)
    × (u.session_record.status ≡ s.session_record.status)

pub refresh_attention-Untouched :
    (tables : Tables) (valid : Text → Text) (t : Option Terminal) (s : LiveSession)
    → Untouched s (refresh_attention tables valid t s)
unfolding refresh_attention rendered_transcript Untouched
refresh_attention-Untouched tables valid none s =
    elim (Bool-cases (s.attention_valid && s.attention_sequence == s.output_sequence)) [
      | inl f ↦ rw f (refl, refl, refl)
      | inr f ↦ rw f (refl, refl, refl)
    ]
refresh_attention-Untouched tables valid (some t) s =
    elim (Bool-cases (s.attention_valid && s.attention_sequence == s.output_sequence)) [
      | inl f ↦ rw f (refl, refl, refl)
      | inr f ↦ rw f (refl, refl, refl)
    ]

refresh_attention-Settled :
    (tables : Tables) (valid : Text → Text) (t : Option Terminal) (id : String) (s : LiveSession)
    → Settled id s
    → Settled id (refresh_attention tables valid t s)
unfolding Untouched
refresh_attention-Settled tables valid t id s v =
    let (named, kept, status) = refresh_attention-Untouched tables valid t s in
    same_status v (refresh_attention-Counts tables valid t s v.clients) named kept status

refresh_all-Inv :
    (w : World) (tables : Tables) (sessions : List (String × LiveSession))
    → Entries Settled sessions
    → Entries Settled (refresh_all w tables sessions)
unfolding refresh_all refreshed
refresh_all-Inv w tables [] v = tt
refresh_all-Inv w tables ((id, s) ∷ rest) v = (
  refresh_attention-Settled tables w.valid (w.screen id) id _
      (foreground-Settled id s v.0 (w.foreground id) (w.shell_name id)),
  refresh_all-Inv w tables rest v.1,
)

pub list-Keeps : (w : World) (tables : Tables) → Keeps (list w tables)
unfolding list Inv
list-Keeps w tables = record { kept = λ m v. refresh_all-Inv w tables m.sessions v }

pub running_sessions-Keeps : (w : World) (tables : Tables) → Keeps (running_sessions w tables)
unfolding running_sessions
running_sessions-Keeps w tables = bind-Keeps (list-Keeps w tables) (λ rs. pure-Keeps _)
