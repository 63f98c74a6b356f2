-- ===== src/Notifications/Tests.antt =====
-- Tests of the watcher and of the registrations, and each of their theorems at a concrete input.
use falkn.Base.{
  ◌≡◌, ◌≢◌, subst, refl, true, false, [], ◌∷◌, none, some, arith, nat_eq, list_eq, list_beq,
}
use falkn.Base.Assoc.{lookup}
use falkn.Base.Text.{codes, string_eq, trim_space}
use falkn.Agent.State.{needs_input, no_attention, failed, attention_state_for}
use falkn.Session.Live.{SessionRecord}
use falkn.Notifications.Registrations.{
  Registration, File, holds, loaded, Checks, load_configuration, validate_registration, configure,
  normalized_registration, forget, registration_allows, registration_expired, without_device,
  lowered, all_valid,
}
use falkn.Notifications.Registrations.Saved.{Holds, configure-Holds}
use falkn.Notifications.Watcher.{
  Sight, accepted, Polled, Setting, state_of, poll_session, poll_sessions, poll_screen,
  seen_attention, decide, decide_settled, decide_new, carry_out, announced, deliver_all, skips,
  arrives, is_none, session_recently_viewed,
}
use falkn.Notifications.Watcher.Due.{Sends, poll_session-Sends}
use falkn.Notifications.Watcher.Episodes.{Continues, Arriving, poll_sessions-once}

abbrev checks : Checks
checks = record {
  is_https = λ u. true;
  is_uuid = λ u. true;
  key_length = λ k. some 32;
  lower_rune = λ c. c;
}

abbrev phone : Registration
phone = record {
  relay_url = codes "https://relay/";
  device_id = codes "d1";
  device_secret = codes "0123456789abcdef0123456789abcdef";
  encryption_key = codes "key";
  host_id = codes "h1";
  host_name = codes "mac";
  enabled_states = none;
  updated_at = 0;
}

abbrev stored_file : File
stored_file = holds (record { version = 1; registrations = phone ∷ [] })

configured : (configure checks true stored_file phone 5 5000000000).0 ≡ true
unfolding configure load_configuration validate_registration all_valid normalized_registration
    trim_space lowered
configured = refl

configure-Holds_example :
    Holds checks
      (normalized_registration checks phone 5)
      (configure checks true stored_file phone 5 5000000000).1
configure-Holds_example = configure-Holds checks true stored_file phone 5 5000000000 configured

stored_file-loads :
    load_configuration checks stored_file
    ≡ loaded (record { version = 1; registrations = phone ∷ [] })
unfolding load_configuration validate_registration all_valid
stored_file-loads = refl

forgot : (forget checks true stored_file (codes "d1")).0 ≡ some 1
unfolding forget load_configuration validate_registration all_valid without_device lowered
    trim_space list_beq
forgot = refl

abbrev listed_record : SessionRecord
listed_record = record {
  id = "s1";
  title = codes "build";
  directory = codes "/tmp";
  agent_id = "pi";
  created_at = 3;
  status = "running";
  process = "pi";
  attached_clients = 0;
  focused_clients = 0;
  notifications_muted = false;
  attention = no_attention;
  archived = false;
  permission_mode = "standard";
  kind = "agent";
}

abbrev approval : Sight
approval = record {
  session = listed_record;
  screen = some (codes "Approve?", "running");
  activity = 4;
  latest_activity = 4;
  followed = true;
  viewed = 0;
  clock = 9;
  view_clock = 9;
  relay_clock = λ _. 9;
  answer = λ r. accepted;
}

abbrev setting : Setting
setting = record {
  tables = record { codex_idle_footer = λ t. false; lower_rune = λ c. c };
  digest = λ t a. "digest";
  checks = checks;
  writable = true;
  registrations = phone ∷ [];
  baseline = false;
}

abbrev known_session : Polled
known_session = record {
  states =
      (
        "s1",
        record {
          attention = needs_input;
          fingerprint = "digest";
          activity = 4;
          awaiting_work = false;
        },
      )
      ∷ [];
  sent = [];
  file = stored_file;
}

abbrev nothing_known : Polled
nothing_known = record known_session { states = [] }

poll_session-Sends_example :
    Sends setting approval nothing_known (poll_session setting approval nothing_known)
poll_session-Sends_example = poll_session-Sends setting approval nothing_known

-- The session is known and asked for nothing when it was seen; now its agent is gone.
abbrev quiet : Polled
quiet = record known_session {
  states =
      (
        "s1",
        record { attention = no_attention; fingerprint = ""; activity = 4; awaiting_work = false },
      )
      ∷ [];
}

abbrev gone : Sight
gone = record approval { screen = some (codes "bye", "ended") }

-- A later look, when nobody follows the session any more.
abbrev left : Sight
left = record gone { followed = false; clock = 12 }

tells_one :
    (poll_session setting gone quiet).sent
    ≡ record { registration = phone; session_id = "s1"; told = failed } ∷ []
unfolding poll_session poll_screen state_of lookup seen_attention attention_state_for decide
    decide_settled decide_new carry_out announced deliver_all skips session_recently_viewed
    registration_allows registration_expired
tells_one = refl

tells : (poll_session setting gone quiet).sent ≢ quiet.sent
tells e = cc (tells_one, e)

asks : is_none (seen_attention setting left (codes "bye", "ended")) ≡ false
unfolding seen_attention attention_state_for
asks = refl

goes_on : Continues setting "s1" 4 left
goes_on = record {
  about = refl;
  untouched = omega arith;
  asking = λ s q.
      let e : (codes "bye", "ended") ≡ s = cc in
      subst (λ x. is_none (seen_attention setting left x) ≡ false) e asks;
}

arrived : Arriving setting gone
unfolding arrives
arrived = (refl, tt)

poll_sessions-once_example :
    poll_sessions setting (gone ∷ left ∷ []) quiet ≡ poll_session setting gone quiet
poll_sessions-once_example =
    poll_sessions-once setting gone (left ∷ []) quiet arrived tells (goes_on, tt)
