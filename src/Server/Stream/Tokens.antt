-- ===== src/Server/Stream/Tokens.antt =====
-- The complete units of a terminal's output, each of which the state machine reads as one.
use falkn.Base.{
  ℕ, ◌+◌, ◌≤◌, ◌<◌, ◌≡◌, ◌≢◌, refl, true, false, ◌&&◌, ◌||◌, List, [], ◌∷◌, ◌++◌, arith, All, ltb,
  leb,
}
use falkn.Server.Stream.{
  Mode, ground_mode, escape, csi, osc, osc_escape, control_string, control_string_escape,
  TerminalStreamState, start, safe_boundary, is_continuation, consume_byte,
}

abbrev pub IsContinuation : ℕ → Type 0
IsContinuation v = is_continuation v ≡ true

-- Parameters and intermediates of a control sequence.
abbrev pub IsParameter : ℕ → Type 0
IsParameter v = (v ≢ 0x1b) × ((leb 0x40 v && leb v 0x7e) ≡ false)

-- A byte that ends a two-byte escape sequence: no intermediate, and no start of a longer sequence.
abbrev pub IsEscapeFinal : ℕ → Type 0
IsEscapeFinal v =
    ((ltb v 0x20 || ltb 0x2f v) ≡ true)
    × (v ≢ b'[')
    × (v ≢ b']')
    × (v ≢ b'P')
    × (v ≢ b'X')
    × (v ≢ b'^')
    × (v ≢ b'_')

-- A byte inside an operating system command, or another control string.
abbrev pub IsStringByte : ℕ → Type 0
IsStringByte v = (v ≢ 7) × (v ≢ 0x1b) × (v ≢ 0x9c)

-- What ends a control string: BEL (an OSC only), the one-byte terminator, or ESC and a backslash.
pub data IsTerminator : List ℕ → Type 0 where
  st : IsTerminator (0x9c ∷ [])
  esc_backslash : IsTerminator (0x1b ∷ b'\\' ∷ [])

pub data Token : List ℕ → Type 0 where
  ascii : (c : ℕ) → c < 0x80 → c ≢ 0x1b → Token (c ∷ [])
  utf8_2 : (a b : ℕ) → 0xc2 ≤ a → a ≤ 0xdf → IsContinuation b → Token (a ∷ b ∷ [])
  utf8_3 :
      (a b c : ℕ)
      → 0xe0 ≤ a
      → a ≤ 0xef
      → IsContinuation b
      → IsContinuation c
      → Token (a ∷ b ∷ c ∷ [])
  utf8_4 :
      (a b c d : ℕ)
      → 0xf0 ≤ a
      → a ≤ 0xf4
      → IsContinuation b
      → IsContinuation c
      → IsContinuation d
      → Token (a ∷ b ∷ c ∷ d ∷ [])
  escape_pair : (c : ℕ) → IsEscapeFinal c → Token (0x1b ∷ c ∷ [])
  control_sequence :
      (params : List ℕ) (final : ℕ)
      → All IsParameter params
      → 0x40 ≤ final
      → final ≤ 0x7e
      → Token (0x1b ∷ b'[' ∷ (params ++ final ∷ []))
  system_command_bell :
      (body : List ℕ) → All IsStringByte body → Token (0x1b ∷ b']' ∷ (body ++ 7 ∷ []))
  system_command :
      (body terminator : List ℕ)
      → All IsStringByte body
      → IsTerminator terminator
      → Token (0x1b ∷ b']' ∷ (body ++ terminator))
  device_control :
      (body terminator : List ℕ)
      → All IsStringByte body
      → IsTerminator terminator
      → Token (0x1b ∷ b'P' ∷ (body ++ terminator))

-- The bytes `cs`, read from state `s`, lead back to the start, and not before the last of them.
pub data Closing : TerminalStreamState → List ℕ → Type 0 where
  last : {s : TerminalStreamState} (c : ℕ) → consume_byte s c ≡ start → Closing s (c ∷ [])
  more :
      {s : TerminalStreamState} (c : ℕ) {cs : List ℕ}
      → safe_boundary (consume_byte s c) ≡ false
      → Closing (consume_byte s c) cs
      → Closing s (c ∷ cs)

abbrev pub at_mode : Mode → TerminalStreamState
at_mode m = record { mode = m; utf8_remaining = 0 }

abbrev pub in_character : ℕ → TerminalStreamState
in_character n = record { mode = ground_mode; utf8_remaining = n }

-- A byte that leads to an unsafe state.
moves :
    (s s' : TerminalStreamState) (c : ℕ) {cs : List ℕ}
    → consume_byte s c ≡ s'
    → safe_boundary s' ≡ false
    → Closing s' cs
    → Closing s (c ∷ cs)
moves s s' c e u k = more c (rw e u) (rw e k)

csi-Closing :
    (params : List ℕ) (final : ℕ)
    → All IsParameter params
    → 0x40 ≤ final
    → final ≤ 0x7e
    → Closing (at_mode csi) (params ++ final ∷ [])
unfolding consume_byte safe_boundary
csi-Closing [] final p lo hi = last final (ground arith)
csi-Closing (c ∷ cs) final p lo hi =
    moves (at_mode csi) (at_mode csi) c (let q = p.0 in ground arith) refl
      (csi-Closing cs final p.1 lo hi)

body-Closing :
    (m : Mode) (body end : List ℕ)
    → ((c : ℕ) → IsStringByte c → consume_byte (at_mode m) c ≡ at_mode m)
    → safe_boundary (at_mode m) ≡ false
    → All IsStringByte body
    → Closing (at_mode m) end
    → Closing (at_mode m) (body ++ end)
body-Closing m [] end keep u b k = k
body-Closing m (c ∷ cs) end keep u b k =
    moves (at_mode m) (at_mode m) c (keep c b.0) u (body-Closing m cs end keep u b.1 k)

osc_stays : (c : ℕ) → IsStringByte c → consume_byte (at_mode osc) c ≡ at_mode osc
unfolding consume_byte
osc_stays c b = ground arith

control_stays :
    (c : ℕ) → IsStringByte c → consume_byte (at_mode control_string) c ≡ at_mode control_string
unfolding consume_byte
control_stays c b = ground arith

osc-terminator : {end : List ℕ} → IsTerminator end → Closing (at_mode osc) end
unfolding consume_byte safe_boundary
osc-terminator st = last 0x9c refl
osc-terminator esc_backslash = moves _ (at_mode osc_escape) 0x1b refl refl (last b'\\' refl)

control-terminator : {end : List ℕ} → IsTerminator end → Closing (at_mode control_string) end
unfolding consume_byte safe_boundary
control-terminator st = last 0x9c refl
control-terminator esc_backslash =
    moves _ (at_mode control_string_escape) 0x1b refl refl (last b'\\' refl)

utf8_next :
    (n c : ℕ) {cs : List ℕ}
    → IsContinuation c
    → Closing (in_character (n + 1)) cs
    → Closing (in_character (n + 2)) (c ∷ cs)
unfolding consume_byte safe_boundary
utf8_next n c h k =
    moves (in_character (n + 2)) (in_character (n + 1)) c (ground arith) (ground arith) k

utf8_last : (c : ℕ) → IsContinuation c → Closing (in_character 1) (c ∷ [])
unfolding consume_byte
utf8_last c h = last c (ground arith)

pub Token-Closing : {t : List ℕ} → Token t → Closing start t
unfolding consume_byte safe_boundary
Token-Closing (ascii c lt ne) = last c (ground arith)
Token-Closing (utf8_2 a b lo hi x) = moves _ (in_character 1) a (ground arith) refl (utf8_last b x)
Token-Closing (utf8_3 a b c lo hi x y) =
    moves _ (in_character 2) a (ground arith) refl (utf8_next 0 b x (utf8_last c y))
Token-Closing (utf8_4 a b c d lo hi x y z) =
    moves _ (in_character 3) a (ground arith) refl
      (utf8_next 1 b x (utf8_next 0 c y (utf8_last d z)))
Token-Closing (escape_pair c h) = moves _ (at_mode escape) 0x1b refl refl (last c (ground arith))
Token-Closing (control_sequence params final p lo hi) =
    moves _ (at_mode escape) 0x1b refl refl
      (moves _ (at_mode csi) b'[' refl refl (csi-Closing params final p lo hi))
Token-Closing (system_command_bell body b) =
    moves _ (at_mode escape) 0x1b refl refl (
      moves _ (at_mode osc) b']' refl refl (body-Closing osc body _ osc_stays refl b (last 7 refl)))
Token-Closing (system_command body end b t) = moves _ (at_mode escape) 0x1b refl refl (
    moves _ (at_mode osc) b']' refl refl
      (body-Closing osc body end osc_stays refl b (osc-terminator t)))
Token-Closing (device_control body end b t) = moves _ (at_mode escape) 0x1b refl refl (
    moves _ (at_mode control_string) b'P' refl refl
      (body-Closing control_string body end control_stays refl b (control-terminator t)))
