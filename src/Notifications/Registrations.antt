-- ===== src/Notifications/Registrations.antt =====
-- internal/notifications/config.go: the devices that are told of a session's state. JSON, url.Parse,
-- the UUID pattern and Base64 are the libraries': `Checks` tells what they answer. A file is the
-- value that it decodes to.
pub mod Saved
use Prim.Native.String.{String}
use falkn.Base.{
  ℕ, ◌+◌, ◌*◌, Bool, true, false, not, ◌&&◌, ◌||◌, List, [], ◌∷◌, ◌++◌, map, Option, none, some,
  length, ltb, ◌==◌, if◌then◌else◌, Eq, same, nat_eq, list_eq, ◌-◌,
}
use falkn.Base.Text.{Text, codes, string_eq, trim_space, trim_right, is_empty, byte_length, any}

pub record Registration : Type 0 where
  pub relay_url : Text
  pub device_id : Text
  pub device_secret : Text
  pub encryption_key : Text
  pub host_id : Text
  pub host_name : Text
  pub enabled_states : Option (List String)
  pub updated_at : ℕ

pub record Configuration : Type 0 where
  pub version : ℕ
  pub registrations : List Registration

pub data File : Type 0 where
  absent broken : File
  holds : Configuration → File

pub data Loaded : Type 0 where
  missing unusable : Loaded
  loaded : Configuration → Loaded

-- `is_https` is what validateRegistration asks of url.Parse, `key_length` the length of the decoded
-- key, if it decodes.
pub record Checks : Type 0 where
  pub is_https : Text → Bool
  pub is_uuid : Text → Bool
  pub key_length : Text → Option ℕ
  pub lower_rune : ℕ → ℕ

known_state : String → Bool
known_state state = same state "needs_input" || (same state "completed" || same state "failed")

-- The loop over the enabled states with the map of those seen.
states_valid : List String → List String → Bool
states_valid seen [] = true
states_valid seen (state ∷ rest) =
    known_state state && (not (any (same state) seen) && states_valid (state ∷ seen) rest)

enabled_valid : Option (List String) → Bool
enabled_valid none = true
enabled_valid (some states) = states_valid [] states

key_valid : Option ℕ → Bool
key_valid none = false
key_valid (some n) = n == 32

unfoldable pub validate_registration : Checks → Registration → Bool
unfolding known_state states_valid enabled_valid key_valid
validate_registration checks r =
    checks.is_https r.relay_url
    && (checks.is_uuid r.device_id
        && (not (ltb (byte_length r.device_secret) 32 || ltb 128 (byte_length r.device_secret))
            && (key_valid (checks.key_length r.encryption_key)
                && (checks.is_uuid r.host_id
                    && (not (ltb 200 (byte_length r.host_name))
                        && enabled_valid r.enabled_states)))))

unfoldable pub all_valid : Checks → List Registration → Bool
all_valid checks [] = true
all_valid checks (r ∷ rs) = validate_registration checks r && all_valid checks rs

-- LoadConfiguration
unfoldable pub load_configuration : Checks → File → Loaded
load_configuration checks absent = missing
load_configuration checks broken = unusable
load_configuration checks (holds c) =
    if c.version == 1
    then if all_valid checks c.registrations then loaded c else unusable
    else unusable

-- `registrationRetention` in nanoseconds; the clock is in nanoseconds, `updated_at` in seconds.
abbrev pub registration_retention : ℕ
registration_retention = 30 * 24 * 3600 * 1000000000

unfoldable pub registration_expired : ℕ → Registration → Bool
registration_expired now r =
    not (r.updated_at == 0) && ltb (r.updated_at * 1000000000 + registration_retention) now

unfoldable pub registration_allows : Registration → String → Bool
registration_allows r state = allowed r.enabled_states
  where
    allowed : Option (List String) → Bool
    allowed none = true
    allowed (some states) = any (same state) states

unfoldable pub lowered : Checks → Text → Text
lowered checks t = map checks.lower_rune (trim_space t)

-- The registration that configureAt makes of its parameters; `now` is in seconds.
unfoldable pub normalized_registration : Checks → Registration → ℕ → Registration
unfolding lowered
normalized_registration checks params now = record params {
  relay_url = trim_right (λ c. c == b'/') (trim_space params.relay_url);
  device_id = lowered checks params.device_id;
  device_secret = trim_space params.device_secret;
  encryption_key = trim_space params.encryption_key;
  host_id = lowered checks params.host_id;
  host_name = trim_space params.host_name;
  updated_at = now;
}

unfoldable pub same_device : Registration → Registration → Bool
same_device r q = same r.device_id q.device_id && same r.host_id q.host_id

stamped : ℕ → Registration → Registration
stamped seconds r = if r.updated_at == 0 then record r { updated_at = seconds } else r

-- The registrations that configureAt keeps beside the new one.
unfoldable pub kept_registrations : Registration → ℕ → ℕ → List Registration → List Registration
unfolding stamped
kept_registrations new seconds now [] = []
kept_registrations new seconds now (r ∷ rs) =
    let rest = kept_registrations new seconds now rs in
    if same_device r new
    then rest
    else if registration_expired now (stamped seconds r)
    then rest
    else stamped seconds r ∷ rest

unfoldable pub stored_before : Loaded → Option (List Registration)
stored_before missing = some []
stored_before unusable = none
stored_before (loaded c) = some c.registrations

write_file : Bool → List Registration → File → Bool × File
write_file writable rs file =
    if writable then (true, holds (record { version = 1; registrations = rs })) else (false, file)

-- configureAt, at `now` nanoseconds and `seconds` seconds: whether it succeeds, and the file.
unfoldable pub configure : Checks → Bool → File → Registration → ℕ → ℕ → Bool × File
unfolding stored_before write_file
configure checks writable file params seconds now =
    let new = normalized_registration checks params seconds in
    if validate_registration checks new
    then elim (stored_before (load_configuration checks file)) [
      | none ↦ (false, file)
      | some rs ↦ write_file writable (kept_registrations new seconds now rs ++ new ∷ []) file
    ]
    else (false, file)

unfoldable pub without_device : Text → List Registration → List Registration
without_device device [] = []
without_device device (r ∷ rs) =
    let rest = without_device device rs in
    if is_empty device || same r.device_id device then rest else r ∷ rest

-- The end of Forget: nothing is written when no registration goes.
forget_from : Bool → File → List Registration → List Registration → Option ℕ × File
forget_from writable file before kept =
    if length before == length kept
    then (some 0, file)
    else if writable
    then (some (length before - length kept), holds (record { version = 1; registrations = kept }))
    else (none, file)

forget_loaded : Bool → File → Text → Loaded → Option ℕ × File
unfolding forget_from
forget_loaded writable file device missing = (none, file)
forget_loaded writable file device unusable = (none, file)
forget_loaded writable file device (loaded c) =
    forget_from writable file c.registrations (without_device device c.registrations)

-- Forget: the number of registrations that went, or an error.
unfoldable pub forget : Checks → Bool → File → Text → Option ℕ × File
unfolding lowered forget_loaded
forget checks writable file device =
    forget_loaded writable file (lowered checks device) (load_configuration checks file)
