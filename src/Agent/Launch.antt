-- ===== src/Agent/Launch.antt =====
-- internal/agent/launch.go. A Go string is the list of its code points, and its length counts their
-- bytes. `lower_rune` stands for unicode.ToLower, which is a table.
pub mod Limits
use Prim.Native.String.{String}
use falkn.Base.{
  ℕ, ◌+◌, Bool, true, false, not, ◌&&◌, ◌||◌, List, [], ◌∷◌, ◌≡◌, refl, map, length, ltb, ◌==◌,
  if◌then◌else◌, Eq, same, nat_eq, list_eq,
}
use falkn.Base.Text.{
  Text, codes, string_eq, trim_space, has_prefix, contains, contains_any, is_empty, byte_length,
  any,
}

pub record Spec : Type 0 where
  pub id : String
  pub display_name : String
  pub executable : String

abbrev pub max_additional_args : ℕ
max_additional_args = 64

abbrev pub max_argument_bytes : ℕ
max_argument_bytes = 4096

abbrev pub max_total_arg_bytes : ℕ
max_total_arg_bytes = 16384

pub data LaunchError : Type 0 where
  unsupported_mode too_many empty_argument null_byte too_long total_too_long : LaunchError
  bypass_flag no_full_access : LaunchError

-- An outcome with Go's error value.
pub data Checked {ℓ} (A : Type ℓ) : Type ℓ where
  accepted : A → Checked A
  refused : LaunchError → Checked A

infixl 5 ◌>>=◌ ◌>>◌
abbrev pub ◌>>=◌ {ℓ κ} : {A : Type ℓ} {B : Type κ} → Checked A → (A → Checked B) → Checked B
accepted a >>= f = f a
refused e >>= f = refused e

abbrev pub ◌>>◌ {ℓ} : {B : Type ℓ} → Checked (Unit {0}) → Checked B → Checked B
m >> k = m >>= λ _. k

abbrev pub refuse_if : Bool → LaunchError → Checked (Unit {0})
refuse_if true e = refused e
refuse_if false e = accepted tt

abbrev pub bypass_codex : Text
bypass_codex = codes "--dangerously-bypass-approvals-and-sandbox"

abbrev pub bypass_claude : Text
bypass_claude = codes "--dangerously-skip-permissions"

-- `strings.ReplaceAll(value, " ", "")`
without_spaces : Text → Text
without_spaces [] = []
without_spaces (c ∷ cs) = let rest = without_spaces cs in if c == 0x20 then rest else c ∷ rest

dangerous_config : Text → Bool
unfolding without_spaces
dangerous_config value = contains_any (without_spaces value) (
    codes "sandbox_mode=\"danger-full-access\""
    ∷ codes "sandbox_mode='danger-full-access'"
    ∷ codes "sandbox_mode=danger-full-access"
    ∷ codes "approval_policy=\"never\""
    ∷ codes "approval_policy='never'"
    ∷ codes "approval_policy=never"
    ∷ [])

-- `strings.HasPrefix(s, prefix) && dangerousConfig(strings.TrimPrefix(s, prefix))`
inline_config : Text → Text → Bool
unfolding dangerous_config
inline_config prefix s = has_prefix s prefix && dangerous_config (drop_prefix prefix s)
  where
    drop_prefix : Text → Text → Text
    drop_prefix [] s = s
    drop_prefix (p ∷ ps) [] = []
    drop_prefix (p ∷ ps) (c ∷ cs) = drop_prefix ps cs

abbrev is : Text → String → Bool
is s literal = same s (codes literal)

bypasses_claude : Text → Text → Bool
bypasses_claude lower next =
    is lower "--dangerously-skip-permissions"
    || is lower "--permission-mode=bypasspermissions"
    || (is lower "--permission-mode" && is next "bypasspermissions")

bypasses_codex : Text → Text → Bool
unfolding inline_config dangerous_config
bypasses_codex lower next =
    is lower "--dangerously-bypass-approvals-and-sandbox"
    || is lower "--yolo"
    || is lower "--sandbox=danger-full-access"
    || is lower "--ask-for-approval=never"
    || (is lower "--sandbox" && is next "danger-full-access")
    || ((is lower "--ask-for-approval" || is lower "-a") && is next "never")
    || ((is lower "--config" || is lower "-c") && dangerous_config next)
    || inline_config (codes "--config=") lower
    || inline_config (codes "-c=") lower

bypasses : String → Text → Text → Bool
unfolding bypasses_claude bypasses_codex
bypasses agent_id lower next =
    if same agent_id "claude"
    then bypasses_claude lower next
    else if same agent_id "codex"
    then bypasses_codex lower next
    else false

-- The loop of validateAdditionalArguments: the total number of bytes.
total_bytes : ℕ → List Text → Checked ℕ
total_bytes total [] = accepted total
total_bytes total (a ∷ rest) =
    let later = total_bytes (total + byte_length a) rest in
    if is_empty a
    then refused empty_argument
    else if any (λ c. c == 0) a
    then refused null_byte
    else if ltb max_argument_bytes (byte_length a)
    then refused too_long
    else later

unfoldable pub normalized_mode : String → String
normalized_mode mode = if same mode "" then "standard" else mode

bypass_arguments : Spec → List Text → Checked (List Text)
bypass_arguments spec additional =
    if same spec.id "codex"
    then accepted (bypass_codex ∷ additional)
    else if same spec.id "claude"
    then accepted (bypass_claude ∷ additional)
    else refused no_full_access

module _ (lower_rune : ℕ → ℕ) where
  -- `strings.ToLower(strings.TrimSpace(argument))`
  folded : Text → Text
  folded argument = map lower_rune (trim_space argument)

  next_folded : List Text → Text
  unfolding folded
  next_folded [] = []
  next_folded (a ∷ rest) = folded a

  unfoldable pub requests_full_access : String → List Text → Bool
  unfolding folded next_folded bypasses
  requests_full_access agent_id [] = false
  requests_full_access agent_id (a ∷ rest) =
      bypasses agent_id (folded a) (next_folded rest) || requests_full_access agent_id rest

  unfoldable pub validate_additional_arguments : String → String → List Text → Checked (Unit {0})
  unfolding total_bytes
  validate_additional_arguments agent_id permission_mode arguments = do
    refuse_if (ltb max_additional_args (length arguments)) too_many
    total ← total_bytes 0 arguments
    refuse_if (ltb max_total_arg_bytes total) total_too_long
    refuse_if (same permission_mode "standard" && requests_full_access agent_id arguments)
        bypass_flag

  -- LaunchArguments
  unfoldable pub launch_arguments : Spec → String → List Text → Checked (List Text)
  unfolding bypass_arguments normalized_mode
  launch_arguments spec permission_mode additional = do
    let mode = normalized_mode permission_mode
    refuse_if (not (same mode "standard") && not (same mode "full_access")) unsupported_mode
    validate_additional_arguments spec.id mode additional
    if not (same mode "full_access") then accepted additional else bypass_arguments spec additional

pub bind-accepted {ℓ κ} :
    {A : Type ℓ} {B : Type κ} (m : Checked A) (f : A → Checked B) {b : B}
    → (m >>= f) ≡ accepted b
    → (a : A) × (m ≡ accepted a) × (f a ≡ accepted b)
bind-accepted (accepted a) f h = (a, refl, h)
bind-accepted (refused e) f h = cc

pub refuse_if-accepted :
    (b : Bool) (e : LaunchError) {x : Unit {0}} → refuse_if b e ≡ accepted x → b ≡ false
refuse_if-accepted true e h = cc
refuse_if-accepted false e h = refl
