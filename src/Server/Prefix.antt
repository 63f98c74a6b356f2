-- ===== src/Server/Prefix.antt =====
-- The prefix of the hotkeys (internal/server/attach_prefix.go): parseAttachPrefix and
-- AttachPrefixName.
pub mod Accepted
use Prim.Native.String.{String}
use falkn.Base.{
  ℕ, ◌+◌, ◌%◌, Bool, true, false, not, ◌&&◌, ◌||◌, List, [], ◌∷◌, ◌++◌, length, leb, ltb, ◌==◌,
  if◌then◌else◌,
}
use falkn.Base.Text.{Text, codes, has_prefix, is_empty, trim_space}
use falkn.Base.Strings.{to_lower, trim_prefix}

abbrev pub default_attach_prefix : ℕ
default_attach_prefix = 0x1c

-- A prefix, or the reason that the value has none.
pub data Prefix : Type 0 where
  accepted : ℕ → Prefix
  no_control_key no_letter : Prefix
  taken : String → Prefix

-- reservedAttachPrefixes: what each of them does; "" is no entry.
unfoldable pub reserved_purpose : ℕ → String
reserved_purpose b =
    if b == 3
    then "interrupt"
    else if b == 4
    then "end-of-file"
    else if b == 0x1a
    then "suspend"
    else ""

unfoldable pub is_reserved : ℕ → Bool
is_reserved b = b == 3 || b == 4 || b == 0x1a

-- The switch that takes the spelling of the modifier off.
unfoldable pub without_modifier : Text → Text
unfolding has_prefix trim_prefix
without_modifier key =
    if has_prefix key (codes "ctrl-")
    then trim_prefix key (codes "ctrl-")
    else if has_prefix key (codes "ctrl+")
    then trim_prefix key (codes "ctrl+")
    else if ltb 1 (length key) && has_prefix key (codes "^")
    then trim_prefix key (codes "^")
    else key

abbrev pub is_control_key : ℕ → Bool
is_control_key c = (leb b'a' c && leb c b'z') || (leb b'@' c && leb c b'_')

-- `character & 0x1f`
abbrev pub control_byte : ℕ → ℕ
control_byte c = c % 32

unfoldable pub prefix_of_byte : ℕ → Prefix
unfolding is_reserved reserved_purpose
prefix_of_byte b = if is_reserved b then taken (reserved_purpose b) else accepted b

-- A key of one rune; a rune beyond ASCII begins with a byte beyond every key.
unfoldable pub prefix_of_key : Text → Prefix
unfolding prefix_of_byte
prefix_of_key [] = no_control_key
prefix_of_key (c ∷ d ∷ cs) = no_control_key
prefix_of_key (c ∷ []) = if is_control_key c then prefix_of_byte (control_byte c) else no_letter

unfoldable pub parse_attach_prefix : Text → Prefix
unfolding prefix_of_key without_modifier to_lower trim_space
parse_attach_prefix requested =
    let value = trim_space requested in
    if is_empty value
    then accepted default_attach_prefix
    else prefix_of_key (without_modifier (to_lower value))

-- `prefix|0x40` of a byte below 0x40
abbrev pub named_key : ℕ → ℕ
named_key b = 64 + b % 64

unfoldable pub attach_prefix_name : ℕ → Text
attach_prefix_name b = codes "Ctrl-" ++ named_key b ∷ []
