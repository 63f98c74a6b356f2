-- ===== src/Notifications/Watcher.antt =====
-- poll of internal/notifications/watcher.go: what the watcher remembers of each session and what it
-- sends. The RPC to the daemon, the marker files and the relay are the environment's: a `Sight` is
-- what one poll sees of a session. The digest of a transcript is an argument. Times are nanoseconds.
pub mod Due
pub mod Episodes
pub mod Sweep
use Prim.Native.String.{String}
use falkn.Base.{
  ℕ, ◌+◌, ◌-◌, ◌*◌, Bool, true, false, not, ◌&&◌, ◌||◌, List, [], ◌∷◌, ◌++◌, Option, none, some,
  ltb, leb, ◌==◌, if◌then◌else◌, Eq, same,
}
use falkn.Base.Assoc.{lookup, insert, remove}
use falkn.Base.Text.{Text, string_eq, any}
use falkn.Agent.State.{
  AttentionState, Tables, no_attention, needs_input, completed, failed, attention_state_for,
}
use falkn.Session.Live.{SessionRecord}
use falkn.Notifications.Registrations.{
  Registration, Configuration, File, Checks, Loaded, missing, unusable, loaded, load_configuration,
  registration_allows, registration_expired, forget,
}

pub record SessionState : Type 0 where
  pub attention : AttentionState
  pub fingerprint : String
  pub activity : ℕ
  pub awaiting_work : Bool

abbrev pub no_state : SessionState
no_state = record {
  attention = no_attention;
  fingerprint = "";
  activity = 0;
  awaiting_work = false;
}

-- The relay's answer to one delivery.
pub data Answer : Type 0 where
  accepted device_gone not_sent : Answer

-- `screen` is what the transcript call answers, the text and the status, if it succeeds; `activity`
-- and `latest_activity` the two readings of the activity marker, `viewed` that of the presence marker,
-- 0 where there is none. `clock`, `view_clock` and `relay_clock` are the readings of the time,
-- the last of them one for each registration.
pub record Sight : Type 0 where
  pub session : SessionRecord
  pub screen : Option (Text × String)
  pub activity : ℕ
  pub latest_activity : ℕ
  pub followed : Bool
  pub viewed : ℕ
  pub clock : ℕ
  pub view_clock : ℕ
  pub relay_clock : Registration → ℕ
  pub answer : Registration → Answer

abbrev pub is_none : AttentionState → Bool
is_none no_attention = true
is_none needs_input = false
is_none completed = false
is_none failed = false

abbrev pub state_name : AttentionState → String
state_name no_attention = ""
state_name needs_input = "needs_input"
state_name completed = "completed"
state_name failed = "failed"

abbrev pub same_attention : AttentionState → AttentionState → Bool
same_attention a b = same (state_name a) (state_name b)

abbrev pub fast_completion_grace : ℕ
fast_completion_grace = 4 * 1000000000

abbrev pub visible_session_grace : ℕ
visible_session_grace = 5 * 1000000000

-- The difference of the times is negative where the activity is later, and then no grace has passed.
unfoldable pub ready_after_fast_completion : SessionState → AttentionState → String → ℕ → Bool
ready_after_fast_completion previous attention fingerprint now =
    previous.awaiting_work
    && (not (is_none attention)
        && (not (same fingerprint previous.fingerprint)
            && leb (previous.activity + fast_completion_grace) now))

unfoldable pub session_recently_viewed : ℕ → ℕ → Bool
session_recently_viewed viewed now =
    not (viewed == 0) && (leb viewed now && leb now (viewed + visible_session_grace))

-- What is to be done for one session.
pub data Decision : Type 0 where
  pass : Decision
  remember : SessionState → Decision
  announce : SessionState → Decision

abbrev pub seen_state : AttentionState → String → ℕ → SessionState
seen_state attention fingerprint activity = record {
  attention = attention;
  fingerprint = fingerprint;
  activity = activity;
  awaiting_work = false;
}

abbrev pub working_state : SessionState → ℕ → SessionState
working_state previous activity = record {
  attention = no_attention;
  fingerprint = previous.fingerprint;
  activity = activity;
  awaiting_work = true;
}

-- The part of the loop behind the wait for work, for an episode that is not reported yet.
unfoldable pub decide_new : Sight → AttentionState → String → SessionState → Decision
decide_new sight attention fingerprint previous =
    if not sight.followed
    then remember (seen_state attention fingerprint sight.activity)
    else if ltb 0 sight.session.attached_clients
        || (sight.session.notifications_muted
            || session_recently_viewed sight.viewed sight.view_clock)
    then pass
    else if ltb sight.activity sight.latest_activity
    then remember (working_state previous sight.latest_activity)
    else announce (seen_state attention fingerprint sight.activity)

unfoldable pub decide_settled : Sight → AttentionState → String → SessionState → Decision
decide_settled sight attention fingerprint previous =
    if is_none attention
    then if same_attention previous.attention attention
      then pass
      else remember (seen_state no_attention fingerprint sight.activity)
    else if is_none previous.attention
    then decide_new sight attention fingerprint previous
    else pass

unfoldable pub decide_awaiting : Sight → AttentionState → String → SessionState → Decision
decide_awaiting sight attention fingerprint previous =
    if is_none attention
    then remember (record previous { awaiting_work = false; fingerprint = fingerprint })
    else if ready_after_fast_completion previous attention fingerprint sight.clock
    then decide_settled sight attention fingerprint (record no_state { activity = sight.activity })
    else pass

unfoldable pub decide : Bool → Sight → AttentionState → String → SessionState → Decision
decide baseline sight attention fingerprint previous =
    if baseline
    then remember (seen_state attention fingerprint sight.activity)
    else if ltb previous.activity sight.activity
    then remember (working_state previous sight.activity)
    else if previous.awaiting_work
    then decide_awaiting sight attention fingerprint previous
    else decide_settled sight attention fingerprint previous

-- A request to the relay: the device, the session and the state that it tells.
pub record Sent : Type 0 where
  pub registration : Registration
  pub session_id : String
  pub told : AttentionState

-- The loop over the registrations: whether no delivery is outstanding, the requests and the
-- configuration file. A registration that the relay forgot is let go, whether or not that can be
-- written.
pub record Round : Type 0 where
  pub all_delivered : Bool
  pub sent : List Sent
  pub file : File

unfoldable pub skips : Sight → AttentionState → Registration → Bool
skips sight attention r =
    not (registration_allows r (state_name attention))
    || registration_expired (sight.relay_clock r) r

unfoldable pub forgotten : Checks → Bool → Registration → Answer → File → File
forgotten checks writable r accepted file = file
forgotten checks writable r not_sent file = file
forgotten checks writable r device_gone file = (forget checks writable file r.device_id).1

unfoldable pub arrives : Answer → Bool
arrives accepted = true
arrives device_gone = true
arrives not_sent = false

unfoldable pub deliver_all :
    Checks → Bool → Sight → AttentionState → List Registration → File → Round
unfolding skips forgotten arrives
deliver_all checks writable sight seen [] file = record {
  all_delivered = true;
  sent = [];
  file = file;
}
deliver_all checks writable sight seen (r ∷ rs) file =
    let answer = sight.answer r in
    let next =
      deliver_all checks writable sight seen rs (forgotten checks writable r answer file) in
    let skipped = deliver_all checks writable sight seen rs file in
    if skips sight seen r then skipped else record {
      all_delivered = arrives answer && next.all_delivered;
      sent = record { registration = r; session_id = sight.session.id; told = seen } ∷ next.sent;
      file = next.file;
    }

-- What the poll has done so far.
pub record Polled : Type 0 where
  pub states : List (String × SessionState)
  pub sent : List Sent
  pub file : File

unfoldable pub state_of : String → List (String × SessionState) → SessionState
state_of id states = elim (lookup id states) [ none ↦ no_state | some s ↦ s ]

-- The poll's setting: the tables of the agents, the digest, the configuration and the checks.
pub record Setting : Type 0 where
  pub tables : Tables
  pub digest : Text → AttentionState → String
  pub checks : Checks
  pub writable : Bool
  pub registrations : List Registration
  pub baseline : Bool

unfoldable pub announced : String → SessionState → Round → Polled → Polled
announced id s round p = record {
  states = if round.all_delivered then insert id s p.states else p.states;
  sent = p.sent ++ round.sent;
  file = round.file;
}

unfoldable pub carry_out : Setting → Sight → AttentionState → Decision → Polled → Polled
unfolding announced
carry_out set sight seen pass p = p
carry_out set sight seen (remember s) p = record p { states = insert sight.session.id s p.states }
carry_out set sight seen (announce s) p =
    announced sight.session.id s
      (deliver_all set.checks set.writable sight seen set.registrations p.file) p

unfoldable pub seen_attention : Setting → Sight → Text × String → AttentionState
seen_attention set sight (text, status) =
    attention_state_for set.tables sight.session.kind sight.session.agent_id text status

unfoldable pub poll_screen : Setting → Sight → Option (Text × String) → Polled → Polled
unfolding carry_out seen_attention
poll_screen set sight none p = p
poll_screen set sight (some screen) p =
    let attention = seen_attention set sight screen in
    let fingerprint = set.digest screen.0 attention in
    carry_out set sight attention
      (decide set.baseline sight attention fingerprint (state_of sight.session.id p.states)) p

-- One turn of the loop over the listed sessions.
unfoldable pub poll_session : Setting → Sight → Polled → Polled
unfolding poll_screen
poll_session set sight p = poll_screen set sight sight.screen p

unfoldable pub poll_sessions : Setting → List Sight → Polled → Polled
poll_sessions set [] p = p
poll_sessions set (sight ∷ rest) p = poll_sessions set rest (poll_session set sight p)

-- The states of sessions that the daemon no longer lists go.
unfoldable pub listed : List Sight → String → Bool
listed [] id = false
listed (sight ∷ rest) id = same sight.session.id id || listed rest id

unfoldable pub prune_states :
    List Sight → List (String × SessionState) → List (String × SessionState)
prune_states sights [] = []
prune_states sights ((id, s) ∷ rest) =
    let pruned = prune_states sights rest in if listed sights id then (id, s) ∷ pruned else pruned

-- poll, once the configuration has registrations and the daemon has listed its sessions.
unfoldable pub poll : Setting → List Sight → Polled → Polled
poll set sights p =
    let done = poll_sessions set sights p in
    record done { states = prune_states sights done.states }
