-- ===== src/Notifications/Watcher/Due.antt =====
-- When the watcher sends.
use Prim.Native.String.{String}
use mathlib.Core.List.{Memᴰ}
use falkn.Base.{
  ◌≡◌, ◌≤◌, refl, sym, Bool, true, false, not, ◌||◌, List, [], ◌∷◌, ◌++◌, Option, none, some, All,
  arith, append-nil, if◌then◌else◌, ltb, Bool-cases, inl, inr,
}
use falkn.Base.Text.{Text, string_eq}
use falkn.Agent.State.{AttentionState}
use falkn.Notifications.Registrations.{
  Registration, File, registration_allows, registration_expired,
}
use falkn.Notifications.Watcher.{
  SessionState, Sight, Decision, pass, remember, announce, Sent, Polled, Setting, is_none,
  state_name, same_attention, session_recently_viewed, ready_after_fast_completion, decide_new,
  decide_settled, decide_awaiting, decide, skips, deliver_all, announced, carry_out, poll_screen,
  poll_session,
}

-- What a session's poll must find before a state is told of it.
pub record Permitted (sight : Sight) (seen : AttentionState) : Type 0 where
  pub settled : is_none seen ≡ false
  pub followed : sight.followed ≡ true
  pub alone : sight.session.attached_clients ≡ 0
  pub unmuted : sight.session.notifications_muted ≡ false
  pub unwatched : session_recently_viewed sight.viewed sight.view_clock ≡ false
  pub unanswered : sight.latest_activity ≤ sight.activity

Allowed : Sight → AttentionState → Decision → Type 0
Allowed sight seen pass = Unit {0}
Allowed sight seen (remember s) = Unit {0}
Allowed sight seen (announce s) = Permitted sight seen

if-Allowed :
    (sight : Sight) (seen : AttentionState) (b : Bool) (x y : Decision)
    → (b ≡ true → Allowed sight seen x)
    → (b ≡ false → Allowed sight seen y)
    → Allowed sight seen (if b then x else y)
if-Allowed sight seen true x y h k = h refl
if-Allowed sight seen false x y h k = k refl

module _ (sight : Sight) (seen : AttentionState) (fingerprint : String) where
  decide_new-Allowed :
      (previous : SessionState)
      → is_none seen ≡ false
      → Allowed sight seen (decide_new sight seen fingerprint previous)
  unfolding decide_new Allowed
  decide_new-Allowed previous h =
      if-Allowed sight seen (not sight.followed) _ _ (λ f. tt)
        (λ f.
          if-Allowed sight seen
            (ltb 0 sight.session.attached_clients
              || (sight.session.notifications_muted
                  || session_recently_viewed sight.viewed sight.view_clock))
            _ _ (λ b. tt)
            (λ b.
              if-Allowed sight seen (ltb sight.activity sight.latest_activity) _ _ (λ l. tt)
                (λ l. record {
                  settled = h;
                  followed = ground (arith, f);
                  alone = ground (arith, b);
                  unmuted = ground (arith, b);
                  unwatched = ground (arith, b);
                  unanswered = ground (arith, l);
                })))

  decide_settled-Allowed :
      (previous : SessionState)
      → Allowed sight seen (decide_settled sight seen fingerprint previous)
  unfolding decide_settled Allowed
  decide_settled-Allowed previous =
      if-Allowed sight seen (is_none seen) _ _
        (λ n.
          if-Allowed sight seen (same_attention previous.attention seen) _ _ (λ a. tt) (λ a. tt))
        (λ n.
          if-Allowed sight seen (is_none previous.attention) _ _
            (λ p. decide_new-Allowed previous n) (λ p. tt))

  decide_awaiting-Allowed :
      (previous : SessionState)
      → Allowed sight seen (decide_awaiting sight seen fingerprint previous)
  unfolding decide_awaiting Allowed
  decide_awaiting-Allowed previous =
      if-Allowed sight seen (is_none seen) _ _ (λ n. tt)
        (λ n.
          if-Allowed sight seen (ready_after_fast_completion previous seen fingerprint sight.clock)
            _ _ (λ r. decide_settled-Allowed _) (λ r. tt))

  decide-Allowed :
      (previous : SessionState) (baseline : Bool)
      → Allowed sight seen (decide baseline sight seen fingerprint previous)
  unfolding decide Allowed
  decide-Allowed previous baseline =
      if-Allowed sight seen baseline _ _ (λ b. tt)
        (λ b.
          if-Allowed sight seen (ltb previous.activity sight.activity) _ _ (λ l. tt)
            (λ l.
              if-Allowed sight seen previous.awaiting_work _ _
                (λ a. decide_awaiting-Allowed previous) (λ a. decide_settled-Allowed previous)))

-- A request for one of the registered devices that wants this state and has not gone silent.
pub record Due (set : Setting) (sight : Sight) (x : Sent) : Type 0 where
  pub permitted : Permitted sight x.told
  pub about : x.session_id ≡ sight.session.id
  pub registered : Memᴰ x.registration set.registrations
  pub wanted : registration_allows x.registration (state_name x.told) ≡ true
  pub current : registration_expired (sight.relay_clock x.registration) x.registration ≡ false

deliver_all-Due :
    (set : Setting) (sight : Sight) (seen : AttentionState) (rs : List Registration) (file : File)
    → Permitted sight seen
    → ((r : Registration) → Memᴰ r rs → Memᴰ r set.registrations)
    → All (Due set sight) (deliver_all set.checks set.writable sight seen rs file).sent
unfolding deliver_all skips
deliver_all-Due set sight seen [] file h known = tt
deliver_all-Due set sight seen (r ∷ rs) file h known =
    elim (Bool-cases (
      not (registration_allows r (state_name seen))
      || registration_expired (sight.relay_clock r) r)) [
        | inl skip ↦
            rw skip (deliver_all-Due set sight seen rs file h (λ x m. known x (Memᴰ.tail m)))
        | inr go ↦ rw go (
          record {
            permitted = h;
            about = refl;
            registered = known r (Memᴰ.head refl);
            wanted = ground (arith, go);
            current = ground (arith, go);
          },
          deliver_all-Due set sight seen rs _ h (λ x m. known x (Memᴰ.tail m)),
        )
      ]

-- What a poll of one session sends, on top of what was sent before it.
pub Sends : Setting → Sight → Polled → Polled → Type 0
Sends set sight p q = (new : List Sent) × (q.sent ≡ p.sent ++ new) × All (Due set sight) new

carry_out-Sends :
    (set : Setting) (sight : Sight) (seen : AttentionState) (d : Decision) (p : Polled)
    → Allowed sight seen d
    → Sends set sight p (carry_out set sight seen d p)
unfolding carry_out announced Sends Allowed
carry_out-Sends set sight seen pass p h = ([], sym (append-nil p.sent), tt)
carry_out-Sends set sight seen (remember s) p h = ([], sym (append-nil p.sent), tt)
carry_out-Sends set sight seen (announce s) p h =
    (_, refl, deliver_all-Due set sight seen set.registrations p.file h (λ _ m. m))

poll_screen-Sends :
    (set : Setting) (sight : Sight) (screen : Option (Text × String)) (p : Polled)
    → Sends set sight p (poll_screen set sight screen p)
unfolding poll_screen
poll_screen-Sends set sight none p = unfold Sends in ([], sym (append-nil p.sent), tt)
poll_screen-Sends set sight (some screen) p =
    carry_out-Sends set sight _ _ p (decide-Allowed sight _ _ _ set.baseline)

-- Polling one session adds requests only about that session, only while it is followed, no client is
-- attached, it is not muted, it was not viewed within five seconds and no input has come, and only to
-- registered devices that want the state and have not gone silent.
pub poll_session-Sends :
    (set : Setting) (sight : Sight) (p : Polled) → Sends set sight p (poll_session set sight p)
unfolding poll_session
poll_session-Sends set sight p = poll_screen-Sends set sight sight.screen p
