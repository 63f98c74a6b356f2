-- ===== src/Server/Input.antt =====
-- attachInputReader (internal/server/attach_input.go): how a read of the keyboard is split between
-- the session, Falkn's prefixed keys and the open switcher. What the reader does outside itself is a
-- list of events; whether the switcher is open and whether a frame can be written depend on the
-- events so far, and are the environment's.
pub mod Typing
use falkn.Base.{
  ℕ, zero, suc, ◌+◌, ◌-◌, Bool, true, false, not, ◌&&◌, ◌||◌, List, [], ◌∷◌, ◌++◌, leb, ◌==◌,
  if◌then◌else◌,
}
use falkn.Base.Int.{ℤ, pos, negsuc}

pub data Mode : Type 0 where
  idle armed escape sequence : Mode

pub data Event : Type 0 where
  typed : List ℕ → Event
  focused : Bool → Event
  detached new_session toggled chose closed : Event
  muted : Bool → Event
  switched : ℤ → ℕ → Event
  moved : ℤ → Event
  selected : ℕ → Event
  prefix_armed : Bool → Event

pub record Handlers : Type 0 where
  pub prefix : ℕ
  pub supports_notifications : Bool
  pub on_new_session : Bool
  pub on_switch : Bool
  pub on_prefix_armed : Bool
  pub menu : Bool
  pub menu_open : List Event → Bool
  pub writes : List Event → Bool

-- `history` is every event so far.
pub record Reader : Type 0 where
  pub mode : Mode
  pub introducer : ℕ
  pub menu_mode : Mode
  pub out : List ℕ
  pub armed_reported : Bool
  pub notifications_muted : Bool
  pub history : List Event

abbrev pub is_idle : Mode → Bool
is_idle idle = true
is_idle armed = false
is_idle escape = false
is_idle sequence = false

unfoldable pub emit : Event → Reader → Reader
emit e r = record r { history = r.history ++ e ∷ [] }

unfoldable pub push : List ℕ → Reader → Reader
push bytes r = record r { out = r.out ++ bytes }

-- `flush`: whether the frame could be written, and the reader. Nothing is written for no bytes.
unfoldable pub flush_bytes : Handlers → List ℕ → Reader → Bool × Reader
flush_bytes h [] r = (true, r)
flush_bytes h (b ∷ bs) r =
    if h.writes r.history
    then (true, emit (typed (b ∷ bs)) (record r { out = [] }))
    else (false, record r { out = [] })

unfoldable pub flush : Handlers → Reader → Bool × Reader
unfolding flush_bytes emit
flush h r = flush_bytes h r.out r

-- `if !r.flush() { return false }`, and then one event.
unfoldable pub then_emit : Event → Bool × Reader → Bool × Reader
then_emit e (true, r) = (true, emit e r)
then_emit e (false, r) = (false, r)

unfoldable pub then_mute : Handlers → Bool × Reader → Bool × Reader
then_mute h (false, r) = (false, r)
then_mute h (true, r) =
    let r' = record r { notifications_muted = not r.notifications_muted } in
    if h.writes r.history then (true, emit (muted r'.notifications_muted) r') else (false, r')

unfoldable pub is_key : ℕ → ℕ → ℕ → Bool
is_key v lower upper = v == lower || v == upper

unfoldable pub consume_armed : Handlers → ℕ → Reader → Bool × Reader
unfolding then_emit then_mute is_key flush
consume_armed h v r0 =
    let r = record r0 { mode = idle } in
    if is_key v b'q' b'Q'
    then (false, emit detached (flush h r).1)
    else if is_key v b'm' b'M' && h.supports_notifications
    then then_mute h (flush h r)
    else if is_key v b'n' b'N' && h.on_new_session
    then then_emit new_session (flush h r)
    else if (leb b'1' v && leb v b'9') && h.on_switch
    then then_emit (switched (pos 0) (v - b'0')) (flush h r)
    else if v == 0x1b
    then (true, record r { mode = escape })
    else if v == h.prefix
    then (true, push (h.prefix ∷ []) r)
    else (true, push (h.prefix ∷ v ∷ []) r)

unfoldable pub consume_sequence : Handlers → ℕ → Reader → Bool × Reader
unfolding then_emit is_key flush
consume_sequence h final r =
    if is_key final b'C' b'D' && h.on_switch
    then then_emit (switched (if final == b'D' then negsuc 0 else pos 1) 0) (flush h r)
    else if is_key final b'A' b'B' && h.menu
    then then_emit toggled (flush h r)
    else (true, push (h.prefix ∷ 0x1b ∷ r.introducer ∷ final ∷ []) r)

unfoldable pub consume_in : Handlers → ℕ → Mode → Reader → Bool × Reader
consume_in h v idle r =
    if v == h.prefix then (true, record r { mode = armed }) else (true, push (v ∷ []) r)
consume_in h v armed r = consume_armed h v r
consume_in h v escape r =
    if v == b'[' || v == b'O'
    then (true, record r { mode = sequence; introducer = v })
    else (true, push (h.prefix ∷ 0x1b ∷ v ∷ []) (record r { mode = idle }))
consume_in h v sequence r = consume_sequence h v (record r { mode = idle })

unfoldable pub consume_byte : Handlers → ℕ → Reader → Bool × Reader
unfolding consume_in
consume_byte h v r = consume_in h v r.mode r

-- `consumeMenuByte`: whether the switcher takes the byte, and the reader.
unfoldable pub consume_menu_in : Handlers → ℕ → Mode → Reader → Bool × Reader
unfolding is_key
consume_menu_in h v escape r =
    if v == b'[' || v == b'O'
    then (true, record r { menu_mode = sequence })
    else (false, emit closed (record r { menu_mode = idle }))
consume_menu_in h v sequence r0 =
    let r = record r0 { menu_mode = idle } in
    if v == b'A'
    then (true, emit (moved (negsuc 0)) r)
    else if v == b'B'
    then (true, emit (moved (pos 1)) r)
    else (true, r)
consume_menu_in h v _ r =
    if v == 0x1b
    then (true, record r { menu_mode = escape })
    else if is_key v b'\r' b'\n'
    then (true, emit chose r)
    else if v == b'k'
    then (true, emit (moved (negsuc 0)) r)
    else if v == b'j'
    then (true, emit (moved (pos 1)) r)
    else if leb b'1' v && leb v b'9'
    then (true, emit (selected (v - b'0')) r)
    else if is_key v b'q' b'Q' || (v == 3 || v == h.prefix)
    then (true, emit closed r)
    else (true, r)

-- The head of the loop: the switcher's share of one byte.
unfoldable pub offer_menu : Handlers → ℕ → Reader → Bool × Reader
unfolding consume_menu_in
offer_menu h v r =
    if not h.menu || not (h.menu_open r.history)
    then (false, record r { menu_mode = idle })
    else if is_idle r.mode
    then consume_menu_in h v r.menu_mode r
    else (false, r)

-- A focus report, ESC [ I or ESC [ O, at the front of what is left.
unfoldable pub focus_report : List ℕ → Bool
focus_report (a ∷ b ∷ c ∷ rest) = a == 0x1b && (b == b'[' && (c == b'I' || c == b'O'))
focus_report _ = false

unfoldable pub focus_in : List ℕ → Bool
focus_in (a ∷ b ∷ c ∷ rest) = c == b'I'
focus_in _ = false

-- How one byte of the loop ends: the loop goes on, the byte ends reading, or a frame before a focus
-- report could not be written.
pub data Went : Type 0 where
  onward ended broken : Went

abbrev pub byte_went : Bool → Went
byte_went true = onward
byte_went false = ended

abbrev pub focus_went : Bool → Went
focus_went true = onward
focus_went false = broken

-- One byte of the loop, at the front of `bytes`: how it ends, how many of the next bytes it takes as
-- well, and the reader.
unfoldable pub consume_front : Handlers → List ℕ → ℕ → Bool × Reader → Went × ℕ × Reader
unfolding consume_byte then_emit flush
consume_front h bytes v (true, r) = (onward, 0, r)
consume_front h bytes v (false, r) =
    if is_idle r.mode && focus_report bytes
    then (let (kept, r') = then_emit (focused (focus_in bytes)) (flush h r) in
        (focus_went kept, 2, r'))
    else (let (kept, r') = consume_byte h v r in (byte_went kept, 0, r'))

abbrev pub go_on : (ℕ → Reader → Went × Reader) → Went × ℕ × Reader → Went × Reader
go_on k (onward, skip, r) = k skip r
go_on k (ended, skip, r) = (ended, r)
go_on k (broken, skip, r) = (broken, r)

-- The loop, with the number of bytes that a focus report has taken.
unfoldable pub consume_from : Handlers → ℕ → List ℕ → Reader → Went × Reader
unfolding consume_front offer_menu
consume_from h skip [] r = (onward, r)
consume_from h (suc skip) (v ∷ rest) r = consume_from h skip rest r
consume_from h zero (v ∷ rest) r =
    go_on (λ skip r'. consume_from h skip rest r') (consume_front h (v ∷ rest) v (offer_menu h v r))

-- `reportPrefixState`
unfoldable pub report_prefix_state : Handlers → Reader → Reader
unfolding emit
report_prefix_state h r =
    let is_armed = not (is_idle r.mode) in
    let unchanged = if is_armed then r.armed_reported else not r.armed_reported in
    let r' = record r { armed_reported = is_armed } in
    if unchanged || not h.on_prefix_armed then r' else emit (prefix_armed is_armed) r'

unfoldable pub finish : Handlers → Went × Reader → Bool × Reader
unfolding report_prefix_state flush
finish h (onward, r) = flush h (report_prefix_state h r)
finish h (ended, r) = (false, report_prefix_state h r)
finish h (broken, r) = (false, r)

-- `consume`: whether the caller should keep reading, and the reader.
unfoldable pub consume : Handlers → List ℕ → Reader → Bool × Reader
unfolding consume_from finish
consume h bytes r = finish h (consume_from h 0 bytes (record r { out = [] }))

-- `resolveMenuEscape`
unfoldable pub resolve_menu_escape : Handlers → Mode → Reader → Reader
unfolding emit
resolve_menu_escape h escape r =
    let r' = record r { menu_mode = idle } in if h.menu then emit closed r' else r'
resolve_menu_escape h _ r = r
