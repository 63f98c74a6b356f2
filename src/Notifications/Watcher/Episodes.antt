-- ===== src/Notifications/Watcher/Episodes.antt =====
-- An episode is reported once.
use Prim.Native.String.{String}
use falkn.Base.{
  ℕ, ◌≡◌, ◌≤◌, refl, sym, ◌∙◌, ap, subst, true, false, not, ◌||◌, Bool, ◌≢◌, List, [], ◌∷◌, Option,
  none, some, All, arith, ltb, if_cases,
}
use falkn.Base.Text.{Text, string_eq}
use falkn.Base.Assoc.{lookup-insert_self}
use falkn.Agent.State.{AttentionState, no_attention}
use falkn.Notifications.Registrations.{Registration, File, Checks}
use falkn.Notifications.Watcher.{
  SessionState, Sight, pass, Polled, Setting, is_none, decide_settled, decide, carry_out,
  poll_screen, poll_session, poll_sessions, seen_attention, state_of, Decision, remember, announce,
  decide_new, decide_awaiting, seen_state, working_state, no_state, same_attention,
  session_recently_viewed, ready_after_fast_completion, arrives, deliver_all, skips, forgotten,
  Round, announced,
}

-- The state of a session whose present episode was told, or is not to be told.
pub record Reported (s : SessionState) : Type 0 where
  pub settled : is_none s.attention ≡ false
  pub idle : s.awaiting_work ≡ false

-- One more look at the same episode of the session `id`: no input since `activity`, and the screen,
-- if it can be read, still asks for attention.
pub record Continues (set : Setting) (id : String) (activity : ℕ) (sight : Sight) : Type 0 where
  pub about : sight.session.id ≡ id
  pub untouched : sight.activity ≤ activity
  pub asking :
      (screen : Text × String)
      → sight.screen ≡ some screen
      → is_none (seen_attention set sight screen) ≡ false

decide-pass :
    (sight : Sight) (seen : AttentionState) (fingerprint : String) (s : SessionState)
    → Reported s
    → sight.activity ≤ s.activity
    → is_none seen ≡ false
    → decide false sight seen fingerprint s ≡ pass
unfolding decide decide_settled
decide-pass sight seen fingerprint s r h n =
    let early : ltb s.activity sight.activity ≡ false = ground (arith, h) in
    simp (early, r.idle, n, r.settled)

poll_screen-same :
    (set : Setting) (sight : Sight) (screen : Option (Text × String)) (p : Polled)
    → set.baseline ≡ false
    → Reported (state_of sight.session.id p.states)
    → sight.activity ≤ (state_of sight.session.id p.states).activity
    → ((seen : Text × String)
        → screen ≡ some seen
        → is_none (seen_attention set sight seen) ≡ false)
    → poll_screen set sight screen p ≡ p
unfolding poll_screen carry_out
poll_screen-same set sight none p b r h n = refl
poll_screen-same set sight (some screen) p b r h n = simp (
  b,
  decide-pass sight (seen_attention set sight screen)
      (set.digest screen.0 (seen_attention set sight screen)) (state_of sight.session.id p.states) r
      h (n screen refl),
)

-- While an episode that was told goes on, without input, polls of the session send nothing and
-- change nothing, however often they come and whoever follows or leaves the session.
told_polls :
    (set : Setting) (id : String) (sights : List Sight) (p : Polled)
    → set.baseline ≡ false
    → Reported (state_of id p.states)
    → All (Continues set id (state_of id p.states).activity) sights
    → poll_sessions set sights p ≡ p
unfolding poll_sessions poll_session
told_polls set id [] p b r h = refl
told_polls set id (sight ∷ rest) p b r (c, h) =
    let same_state : state_of sight.session.id p.states ≡ state_of id p.states =
      ap (λ i. state_of i p.states) c.about in
    let step : poll_screen set sight sight.screen p ≡ p =
      poll_screen-same set sight sight.screen p b (subst Reported (sym same_state) r)
        (subst (λ x. sight.activity ≤ x.activity) (sym same_state) c.untouched) c.asking in
    ap (poll_sessions set rest) step ∙ told_polls set id rest p b r h

-- A decision to announce comes from a poll that is not the first one, and remembers the state that is
-- announced with the activity that was read.
Announces : Bool → Sight → AttentionState → Decision → Type 0
Announces baseline sight seen pass = Unit {0}
Announces baseline sight seen (remember s) = Unit {0}
Announces baseline sight seen (announce s) =
    (baseline ≡ false)
    × ((is_none s.attention ≡ false) × ((s.awaiting_work ≡ false) × (s.activity ≡ sight.activity)))

module _ (sight : Sight) (seen : AttentionState) (fingerprint : String) where
  abbrev Shape : Decision → Type 0
  Shape = Announces false sight seen

  new-Announces :
      (previous : SessionState)
      → is_none seen ≡ false
      → Shape (decide_new sight seen fingerprint previous)
  unfolding decide_new Announces
  new-Announces previous n =
      if_cases Shape (not sight.followed) (remember (seen_state seen fingerprint sight.activity)) _
        (λ _. tt)
        (λ _.
          if_cases Shape
            (ltb 0 sight.session.attached_clients
              || (sight.session.notifications_muted
                  || session_recently_viewed sight.viewed sight.view_clock))
            pass _ (λ _. tt)
            (λ _.
              if_cases Shape (ltb sight.activity sight.latest_activity)
                (remember (working_state previous sight.latest_activity))
                (announce (seen_state seen fingerprint sight.activity)) (λ _. tt)
                (λ _. (refl, (n, (refl, refl))))))

  settled-Announces :
      (previous : SessionState) → Shape (decide_settled sight seen fingerprint previous)
  unfolding decide_settled Announces
  settled-Announces previous =
      if_cases Shape (is_none seen) _ _
        (λ _.
          if_cases Shape (same_attention previous.attention seen) pass
            (remember (seen_state no_attention fingerprint sight.activity)) (λ _. tt) (λ _. tt))
        (λ n.
          if_cases Shape (is_none previous.attention) (decide_new sight seen fingerprint previous)
            pass (λ _. new-Announces previous n) (λ _. tt))

  awaiting-Announces :
      (previous : SessionState) → Shape (decide_awaiting sight seen fingerprint previous)
  unfolding decide_awaiting Announces
  awaiting-Announces previous =
      if_cases Shape (is_none seen)
        (remember (record previous { awaiting_work = false; fingerprint = fingerprint })) _
        (λ _. tt)
        (λ _.
          if_cases Shape (ready_after_fast_completion previous seen fingerprint sight.clock)
            (decide_settled sight seen fingerprint (record no_state { activity = sight.activity }))
            pass (λ _. settled-Announces _) (λ _. tt))

  decide-Announces :
      (baseline : Bool) (previous : SessionState)
      → Announces baseline sight seen (decide baseline sight seen fingerprint previous)
  unfolding decide Announces
  decide-Announces true previous = tt
  decide-Announces false previous =
      if_cases Shape (ltb previous.activity sight.activity)
        (remember (working_state previous sight.activity)) _ (λ _. tt)
        (λ _.
          if_cases Shape previous.awaiting_work (decide_awaiting sight seen fingerprint previous)
            (decide_settled sight seen fingerprint previous) (λ _. awaiting-Announces previous)
            (λ _. settled-Announces previous))

-- Every delivery of the poll arrives, or finds its device gone.
abbrev pub Arriving : Setting → Sight → Type 0
Arriving set sight = All (λ r. arrives (sight.answer r) ≡ true) set.registrations

deliver_all-All :
    (checks : Checks) (writable : Bool) (sight : Sight) (seen : AttentionState)
    (rs : List Registration) (file : File)
    → All (λ r. arrives (sight.answer r) ≡ true) rs
    → (deliver_all checks writable sight seen rs file).all_delivered ≡ true
unfolding deliver_all
deliver_all-All checks writable sight seen [] file h = refl
deliver_all-All checks writable sight seen (r ∷ rs) file h =
    if_cases (λ (x : Round). x.all_delivered ≡ true) (skips sight seen r) _ _
      (λ _. deliver_all-All checks writable sight seen rs file h.1)
      (λ _.
        let later =
          deliver_all-All checks writable sight seen rs
            (forgotten checks writable r (sight.answer r) file) h.1 in
        let now = h.0 in rw (now, later) refl)

-- What a poll that sends something leaves of the session.
record Told (set : Setting) (sight : Sight) (q : Polled) : Type 0 where
  later_poll : set.baseline ≡ false
  reported : Reported (state_of sight.session.id q.states)
  activity : (state_of sight.session.id q.states).activity ≡ sight.activity

announced-state_of :
    (id : String) (s : SessionState) (round : Round) (p : Polled)
    → round.all_delivered ≡ true
    → state_of id (announced id s round p).states ≡ s
unfolding announced state_of
announced-state_of id s round p e =
    let state : Option SessionState → SessionState = λ o. elim o [ none ↦ no_state | some x ↦ x ] in
    rw e (ap state (lookup-insert_self id s p.states))

carry_out-Told :
    (set : Setting) (sight : Sight) (seen : AttentionState) (d : Decision) (p : Polled)
    → Arriving set sight
    → Announces set.baseline sight seen d
    → (carry_out set sight seen d p).sent ≢ p.sent
    → Told set sight (carry_out set sight seen d p)
unfolding carry_out Announces
carry_out-Told set sight seen pass p h a n = absurd (n refl)
carry_out-Told set sight seen (remember s) p h a n = absurd (n refl)
carry_out-Told set sight seen (announce s) p h (b, (settled, (idle, same_activity))) n =
    let round = deliver_all set.checks set.writable sight seen set.registrations p.file in
    let delivered = deliver_all-All set.checks set.writable sight seen set.registrations p.file h in
    let e = announced-state_of sight.session.id s round p delivered in
    record {
      later_poll = b;
      reported = subst Reported (sym e) (record { settled = settled; idle = idle });
      activity = ap SessionState.activity e ∙ same_activity;
    }

poll_screen-Told :
    (set : Setting) (sight : Sight) (screen : Option (Text × String)) (p : Polled)
    → Arriving set sight
    → (poll_screen set sight screen p).sent ≢ p.sent
    → Told set sight (poll_screen set sight screen p)
unfolding poll_screen
poll_screen-Told set sight none p h n = absurd (n refl)
poll_screen-Told set sight (some screen) p h n =
    let seen = seen_attention set sight screen in
    let fingerprint = set.digest screen.0 seen in
    let previous = state_of sight.session.id p.states in
    carry_out-Told set sight seen (decide set.baseline sight seen fingerprint previous) p h
      (decide-Announces sight seen fingerprint set.baseline previous) n

-- An episode is told once: when a poll of a session sends something, and each of its deliveries
-- arrives or finds its device gone, then the polls of the session that follow send nothing and
-- change nothing, as long as they find no later input and the screens that they can read ask for
-- attention; however often they come, and whoever follows or leaves the session.
pub poll_sessions-once :
    (set : Setting) (first : Sight) (later : List Sight) (p : Polled)
    → Arriving set first
    → (poll_session set first p).sent ≢ p.sent
    → All (Continues set first.session.id first.activity) later
    → poll_sessions set (first ∷ later) p ≡ poll_session set first p
unfolding poll_sessions
poll_sessions-once set first later p arrived sends goes_on =
    let q = poll_session set first p in
    let told : Told set first q =
      unfold poll_session in poll_screen-Told set first first.screen p arrived sends in
    told_polls set first.session.id later q told.later_poll told.reported
      (subst (λ a. All (Continues set first.session.id a) later) (sym told.activity) goes_on)
