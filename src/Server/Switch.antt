-- ===== src/Server/Switch.antt =====
-- The session switcher: switchableSessions, sessionComesBefore and selectEndedSessionFallback
-- (internal/server/attach_client.go), selectSwitchTarget (internal/server/attach_input.go) and the
-- state of attachMenu (internal/server/attach_menu.go).
pub mod Targets
pub mod Selection
pub mod Ended
pub mod Order
pub mod Steps
use Prim.Native.String.{String, compare}
use Prim.Native.Nat.{Ordering}
use falkn.Base.{
  ℕ, zero, suc, ◌+◌, ◌-◌, Bool, true, false, not, ◌&&◌, ◌||◌, List, [], ◌∷◌, Option, none, some,
  length, get_elem?, ltb, ◌==◌, if◌then◌else◌, Eq, same,
}
use falkn.Base.Int.{ℤ, pos, negsuc, ◌+ℤ◌, rem_ℤ, ltb_ℤ}
use falkn.Base.Text.{string_eq}
use falkn.Session.Live.{SessionRecord}

id_before : String → String → Bool
id_before a b = elim (compare a b) [ Ordering.lt ↦ true | _ ↦ false ]

unfoldable pub session_comes_before : SessionRecord → SessionRecord → Bool
unfolding id_before
session_comes_before l r =
    if l.created_at == r.created_at then id_before l.id r.id else ltb l.created_at r.created_at

abbrev pub is_switchable : SessionRecord → Bool
is_switchable r = same r.status "running" && not r.archived

unfoldable pub running_records : List SessionRecord → List SessionRecord
running_records [] = []
running_records (r ∷ rs) =
    let rest = running_records rs in if is_switchable r then r ∷ rest else rest

unfoldable pub insert_before : SessionRecord → List SessionRecord → List SessionRecord
insert_before r [] = r ∷ []
insert_before r (q ∷ qs) =
    let later = insert_before r qs in if session_comes_before q r then q ∷ later else r ∷ q ∷ qs

unfoldable pub sort_oldest : List SessionRecord → List SessionRecord
sort_oldest [] = []
sort_oldest (r ∷ rs) = insert_before r (sort_oldest rs)

unfoldable pub switchable_sessions : List SessionRecord → List SessionRecord
switchable_sessions records = sort_oldest (running_records records)

-- The first position of the identifier, if it is there.
unfoldable pub position : String → List SessionRecord → Option ℕ
position id [] = none
position id (r ∷ rs) =
    let later = position id rs in
    if same r.id id then some 0 else elim later [ none ↦ none | some i ↦ some (suc i) ]

abbrev pub is_zero : ℤ → Bool
is_zero (pos n) = n == 0
is_zero (negsuc n) = false

-- Where stepping starts when the attached session is not among the running ones.
abbrev pub start_position : Option ℕ → ℤ → ℕ → ℕ
start_position (some i) step size = i
start_position none step size = if ltb_ℤ step (pos 0) then 0 else size - 1

-- `if next < 0 { next += len(running) }`
abbrev pub wrapped : ℤ → ℕ → ℕ
wrapped (pos n) size = n
wrapped (negsuc n) size = size - suc n

-- The identifier at an index; an index out of range is a panic, `none`.
unfoldable pub id_at : Option SessionRecord → Option String
id_at none = none
id_at (some r) = some r.id

unfoldable pub select_index : List SessionRecord → ℤ → Option String
select_index running (negsuc n) = some ""
select_index running (pos n) =
    if n == 0 || ltb (length running) n then some "" else id_at (get_elem? running (n - 1))

unfoldable pub select_step : List SessionRecord → String → ℤ → Option String
select_step running current_id step =
    let current = start_position (position current_id running) step (length running) in
    id_at
      (get_elem? running (wrapped (rem_ℤ (pos current +ℤ step) (length running)) (length running)))

unfoldable pub select_switch_target : List SessionRecord → String → ℤ → ℤ → Option String
select_switch_target [] current_id step index = some ""
select_switch_target (r ∷ rs) current_id step index =
    if is_zero step then select_index (r ∷ rs) index else select_step (r ∷ rs) current_id step

-- The menu: what it shows and where the selection is.
pub record Menu : Type 0 where
  pub is_open : Bool
  pub sessions : List SessionRecord
  pub selection : ℕ

pub data Key : Type 0 where
  toggle : Option (List SessionRecord) → Key
  move : ℤ → Key
  select : ℤ → Key
  choose close : Key

abbrev pub closed_menu : Menu → Menu
closed_menu menu = if menu.is_open then record menu { is_open = false; sessions = [] } else menu

abbrev pub found_position : Option ℕ → ℕ
found_position none = 0
found_position (some i) = i

-- `toggle` with what fetchAttachSessions gives, for the attached session `id`.
unfoldable pub toggle_menu : String → Option (List SessionRecord) → Menu → Menu
toggle_menu id none menu = if menu.is_open then closed_menu menu else menu
toggle_menu id (some records) menu =
    let sessions = switchable_sessions records in
    if menu.is_open then closed_menu menu else if length sessions == 0 then menu else record {
      is_open = true;
      sessions = sessions;
      selection = found_position (position id sessions);
    }

unfoldable pub move_menu : ℤ → Menu → Menu
move_menu delta menu = if not menu.is_open || length menu.sessions == 0 then menu else record menu {
  selection =
      wrapped (rem_ℤ (pos menu.selection +ℤ delta) (length menu.sessions)) (length menu.sessions);
}

-- `choose`: the session to hand the terminal to, "" for none, and the closed menu.
unfoldable pub choose_target : String → Menu → Option String
choose_target id menu =
    if menu.is_open && ltb menu.selection (length menu.sessions)
    then id_at (get_elem? menu.sessions menu.selection)
    else some ""

unfoldable pub select_menu : ℤ → Menu → Menu
select_menu (negsuc n) menu = menu
select_menu (pos n) menu =
    if not menu.is_open || (n == 0 || ltb (length menu.sessions) n)
    then menu
    else closed_menu (record menu { selection = n - 1 })

unfoldable pub press : String → Key → Menu → Menu
press id (toggle fetched) menu = toggle_menu id fetched menu
press id (move delta) menu = move_menu delta menu
press id (select index) menu = select_menu index menu
press id choose menu = closed_menu menu
press id close menu = closed_menu menu

unfoldable pub press_all : String → List Key → Menu → Menu
press_all id [] menu = menu
press_all id (k ∷ ks) menu = press_all id ks (press id k menu)

unfoldable pub new_menu : Menu
new_menu = record { is_open = false; sessions = []; selection = 0 }

-- selectEndedSessionFallback
unfoldable pub record_named : String → List SessionRecord → Option SessionRecord
record_named id [] = none
record_named id (r ∷ rs) = if same r.id id then some r else record_named id rs

unfoldable pub last_id : SessionRecord → List SessionRecord → String
last_id r [] = r.id
last_id r (q ∷ qs) = last_id q qs

-- The loop over the running sessions, with `previous` so far.
unfoldable pub nearest : SessionRecord → String → List SessionRecord → String
unfolding session_comes_before
nearest current previous [] = previous
nearest current previous (r ∷ rs) =
    let later = nearest current r.id rs in
    if session_comes_before r current
    then later
    else if not (same previous "")
    then previous
    else r.id

unfoldable pub fallback : Option SessionRecord → List SessionRecord → String
unfolding last_id nearest
fallback current [] = ""
fallback none (r ∷ rs) = last_id r rs
fallback (some current) (r ∷ rs) =
    if same current.status "running" then "" else nearest current "" (r ∷ rs)

unfoldable pub select_ended_session_fallback : List SessionRecord → String → String
unfolding record_named fallback switchable_sessions
select_ended_session_fallback records current_id =
    fallback (record_named current_id records) (switchable_sessions records)
