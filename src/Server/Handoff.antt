-- ===== src/Server/Handoff.antt =====
-- The private OSC command that hands a terminal to another session
-- (internal/server/attach_handoff.go). Base64 is an argument.
pub mod Stripped
pub mod Written
pub mod Unterminated
use falkn.Base.{
  ℕ, zero, suc, ◌+◌, ◌-◌, Bool, true, false, not, ◌&&◌, ◌||◌, List, [], ◌∷◌, ◌++◌, Option, none,
  some, length, take, drop, ltb, leb, ◌==◌, if◌then◌else◌,
}
use falkn.Base.Text.{Text, codes, has_prefix, is_empty, byte_length}

-- base64.RawURLEncoding
pub record Base64 : Type 0 where
  pub encode_string : Text → Text
  pub decode_string : Text → Option Text

-- strings.Index and strings.LastIndex of a text that is not empty
unfoldable pub index : Text → Text → Option ℕ
unfolding has_prefix
index [] sub = none
index (c ∷ cs) sub = elim (has_prefix (c ∷ cs) sub) [
  | true ↦ some 0
  | false ↦ elim (index cs sub) [ none ↦ none | some i ↦ some (suc i) ]
]

unfoldable pub last_index : Text → Text → Option ℕ
unfolding has_prefix
last_index [] sub = none
last_index (c ∷ cs) sub = elim (last_index cs sub) [
  | some i ↦ some (suc i)
  | none ↦ if has_prefix (c ∷ cs) sub then some 0 else none
]

abbrev pub attach_handoff_prefix : Text
attach_handoff_prefix = 0x1b ∷ codes "]1337;FalknAttach="

abbrev pub attach_handoff_suffix : Text
attach_handoff_suffix = 7 ∷ []

abbrev pub max_session_id_bytes : ℕ
max_session_id_bytes = 256

abbrev pub id_prefix : Text
id_prefix = codes "falkn-"

-- A character of an identifier.
abbrev pub is_id_rune : ℕ → Bool
is_id_rune c =
    (leb b'a' c && leb c b'z')
    || (leb b'A' c && leb c b'Z')
    || (leb b'0' c && leb c b'9')
    || c == b'-'
    || c == b'_'
    || c == b'.'

unfoldable pub all_id_runes : Text → Bool
all_id_runes [] = true
all_id_runes (c ∷ cs) = is_id_rune c && all_id_runes cs

unfoldable pub valid_attach_handoff_session_id : Text → Bool
unfolding all_id_runes has_prefix
valid_attach_handoff_session_id id =
    if leb (byte_length id) 6
      || ltb max_session_id_bytes (byte_length id)
      || not (has_prefix id id_prefix)
    then false
    else all_id_runes id

-- WriteAttachHandoff: `none` is its error.
unfoldable pub write_attach_handoff : Base64 → Text → Option Text
unfolding valid_attach_handoff_session_id
write_attach_handoff base64 id =
    if not (valid_attach_handoff_session_id id)
    then none
    else some (attach_handoff_prefix ++ (base64.encode_string id ++ attach_handoff_suffix))

abbrev pub checked_id : Option Text → Text
checked_id none = []
checked_id (some id) = if not (valid_attach_handoff_session_id id) then [] else id

abbrev pub encoded_id : Base64 → Text → Option ℕ → Text
encoded_id base64 rest none = []
encoded_id base64 rest (some end_at) = checked_id (base64.decode_string (take end_at rest))

abbrev pub command_id : Base64 → Text → Option ℕ → Text
command_id base64 value none = []
command_id base64 value (some start) =
    let rest = drop (start + length attach_handoff_prefix) value in
    encoded_id base64 rest (index rest attach_handoff_suffix)

unfoldable pub attach_handoff_session_id : Base64 → Text → Text
unfolding index last_index valid_attach_handoff_session_id
attach_handoff_session_id base64 value =
    command_id base64 value (last_index value attach_handoff_prefix)

-- data[from:to]
abbrev pub slice : ℕ → ℕ → Text → Text
slice from to bytes = take (to - from) (drop from bytes)

-- The end of the loop, with what was kept so far; `none` is nil.
abbrev pub strip_rest : Option Text → ℕ → Text → Text
strip_rest none cursor bytes = bytes
strip_rest (some stripped) cursor bytes = stripped ++ drop cursor bytes

abbrev pub kept_so_far : Option Text → Text
kept_so_far none = []
kept_so_far (some stripped) = stripped

-- One turn of the loop: leave it, or go on with a cursor, a place to search from, and what is kept.
pub data StripTurn : Type 0 where
  leave : StripTurn
  strip_on : ℕ → ℕ → Option Text → StripTurn

abbrev pub end_turn : Base64 → Text → ℕ → Option Text → ℕ → Option ℕ → StripTurn
end_turn base64 bytes cursor stripped start none = leave
end_turn base64 bytes cursor stripped start (some relative_end) =
    let encoded_start = start + length attach_handoff_prefix in
    let end_at = encoded_start + relative_end + length attach_handoff_suffix in
    if is_empty (attach_handoff_session_id base64 (slice start end_at bytes))
    then strip_on cursor encoded_start stripped
    else strip_on end_at end_at (some (kept_so_far stripped ++ slice cursor start bytes))

abbrev pub start_turn : Base64 → Text → ℕ → ℕ → Option Text → Option ℕ → StripTurn
start_turn base64 bytes cursor search_from stripped none = leave
start_turn base64 bytes cursor search_from stripped (some relative_start) =
    let start = search_from + relative_start in
    end_turn base64 bytes cursor stripped start
      (index (drop (start + length attach_handoff_prefix) bytes) attach_handoff_suffix)

unfoldable pub strip_turn : Base64 → Text → ℕ → ℕ → Option Text → StripTurn
unfolding index attach_handoff_session_id
strip_turn base64 bytes cursor search_from stripped =
    if ltb search_from (length bytes)
    then start_turn base64 bytes cursor search_from stripped
        (index (drop search_from bytes) attach_handoff_prefix)
    else leave

-- The loop on fuel; `none` when it runs out.
unfoldable pub strip_loop : ℕ → Base64 → Text → ℕ → ℕ → Option Text → Option Text
unfolding strip_turn
strip_loop zero base64 bytes cursor search_from stripped = none
strip_loop (suc fuel) base64 bytes cursor search_from stripped =
    elim (strip_turn base64 bytes cursor search_from stripped) [
      | leave ↦ some (strip_rest stripped cursor bytes)
      | strip_on next_cursor next_search next ↦
          strip_loop fuel base64 bytes next_cursor next_search next
    ]

-- Each turn that goes on moves the place to search from, so a turn for each byte is enough.
unfoldable pub strip_attach_handoffs : Base64 → Text → Option Text
unfolding strip_loop
strip_attach_handoffs base64 bytes = strip_loop (suc (length bytes)) base64 bytes 0 0 none
