-- ===== src/Server/Stream.antt =====
-- terminalStreamState (internal/server/status_bar.go): how far the child's output is into an escape
-- sequence or a UTF-8 character. Bytes are numbers below 256.
pub mod Tokens
pub mod Boundary
pub mod Titles
use falkn.Base.{
  ℕ, zero, suc, ◌-◌, ◌/◌, ◌%◌, Bool, true, false, ◌&&◌, ◌||◌, List, [], ◌∷◌, ltb, leb, ◌==◌,
  if◌then◌else◌,
}

pub data Mode : Type 0 where
  ground_mode escape csi osc osc_escape control_string control_string_escape : Mode

pub record TerminalStreamState : Type 0 where
  pub mode : Mode
  pub utf8_remaining : ℕ

abbrev pub start : TerminalStreamState
start = record { mode = ground_mode; utf8_remaining = 0 }

abbrev is_ground : Mode → Bool
is_ground ground_mode = true
is_ground _ = false

unfoldable pub safe_boundary : TerminalStreamState → Bool
safe_boundary s = is_ground s.mode && s.utf8_remaining == 0

-- `value & 0xc0 == 0x80`
abbrev pub is_continuation : ℕ → Bool
is_continuation v = v / 64 % 4 == 2

abbrev within : ℕ → ℕ → ℕ → Bool
within lo hi v = leb lo v && leb v hi

-- consumeGround
consume_ground : ℕ → TerminalStreamState
consume_ground v =
    if v == 0x1b
    then record { mode = escape; utf8_remaining = 0 }
    else if v == 0x90 || v == 0x98 || v == 0x9e || v == 0x9f
    then record { mode = control_string; utf8_remaining = 0 }
    else if v == 0x9b
    then record { mode = csi; utf8_remaining = 0 }
    else if v == 0x9d
    then record { mode = osc; utf8_remaining = 0 }
    else if within 0xc2 0xdf v
    then record { mode = ground_mode; utf8_remaining = 1 }
    else if within 0xe0 0xef v
    then record { mode = ground_mode; utf8_remaining = 2 }
    else if within 0xf0 0xf4 v
    then record { mode = ground_mode; utf8_remaining = 3 }
    else start

-- The mode behind a byte that is read in a mode other than the ground one.
next_mode : Mode → ℕ → Mode
next_mode ground_mode v = ground_mode
next_mode escape v =
    if v == b'['
    then csi
    else if v == b']'
    then osc
    else if v == b'P' || v == b'X' || v == b'^' || v == b'_'
    then control_string
    else if ltb v 0x20 || ltb 0x2f v
    then ground_mode
    else escape
next_mode csi v = if v == 0x1b then escape else if within 0x40 0x7e v then ground_mode else csi
next_mode osc v = if v == 7 || v == 0x9c then ground_mode else if v == 0x1b then osc_escape else osc
next_mode osc_escape v =
    if v == b'\\' || v == 7 || v == 0x9c then ground_mode else if v == 0x1b then osc_escape else osc
next_mode control_string v =
    if v == 0x9c then ground_mode else if v == 0x1b then control_string_escape else control_string
next_mode control_string_escape v =
    if v == b'\\' || v == 0x9c
    then ground_mode
    else if v == 0x1b
    then control_string_escape
    else control_string

-- The switch of `consume`, with no character begun.
unfoldable pub consume_token : Mode → ℕ → TerminalStreamState
unfolding consume_ground next_mode
consume_token ground_mode v = consume_ground v
consume_token m v = record { mode = next_mode m v; utf8_remaining = 0 }

-- One round of the loop of `consume`.
unfoldable pub consume_byte : TerminalStreamState → ℕ → TerminalStreamState
unfolding consume_token
consume_byte s v =
    if ltb 0 s.utf8_remaining && is_continuation v
    then record s { utf8_remaining = s.utf8_remaining - 1 }
    else consume_token s.mode v

pub consume : TerminalStreamState → List ℕ → TerminalStreamState
consume s [] = s
consume s (v ∷ vs) = consume (consume_byte s v) vs
