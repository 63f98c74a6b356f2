-- ===== src/Server/SwitchTests.antt =====
-- Tests of the switcher, and each of its theorems at a concrete input.
use Prim.Native.String.{String}
use falkn.Base.{ℕ, ◌≡◌, ◌≢◌, refl, true, false, List, [], ◌∷◌, some, length, All}
use falkn.Base.Int.{pos, negsuc}
use falkn.Base.Text.{codes}
use falkn.Agent.State.{no_attention}
use falkn.Session.Live.{SessionRecord}
use falkn.Server.Switch.{
  Key, toggle, move, select_switch_target, switchable_sessions, running_records, sort_oldest,
  insert_before, press_all, new_menu, choose_target, select_step, id_at, position,
  session_comes_before, record_named, select_ended_session_fallback,
}
use falkn.Server.Switch.Targets.{Lands, NoTarget, select_switch_target-Lands}
use falkn.Server.Switch.Ended.{IsNearest, select_ended_session_fallback-IsNearest}
use falkn.Server.Switch.Selection.{InRange, Chooses, choose_target-Chooses}
use falkn.Server.Switch.Order.{IsSorted}
use falkn.Server.Switch.Steps.{Reaches, Follows, ByNumber, select_switch_target-Reaches}

abbrev numbered : String → ℕ → SessionRecord
numbered id created_at = record {
  id = id;
  title = codes id;
  directory = codes "/tmp";
  agent_id = "codex";
  created_at = created_at;
  status = "running";
  process = "codex";
  attached_clients = 0;
  focused_clients = 0;
  notifications_muted = false;
  attention = no_attention;
  archived = false;
  permission_mode = "standard";
  kind = "agent";
}

abbrev records : List SessionRecord
records = numbered "c" 3 ∷ record (numbered "b" 1) { archived = true } ∷ numbered "a" 3 ∷ []

back_from_first :
    select_switch_target (switchable_sessions records) "a" (negsuc 0) (pos 0) ≡ some "c"
unfolding select_switch_target switchable_sessions running_records sort_oldest insert_before
    session_comes_before select_step id_at position
back_from_first = refl

select_switch_target-Lands_example :
    Lands
      (NoTarget (switchable_sessions records) (negsuc 0) (pos 0))
      records
      (select_switch_target (switchable_sessions records) "a" (negsuc 0) (pos 0))
select_switch_target-Lands_example = select_switch_target-Lands records "a" (negsuc 0) (pos 0)

abbrev keys : List Key
keys = toggle (some records) ∷ move (negsuc 0) ∷ move (pos 5) ∷ []

choose_target-Chooses_example :
    InRange keys (press_all "a" keys new_menu)
    × Chooses (press_all "a" keys new_menu) (choose_target "a" (press_all "a" keys new_menu))
choose_target-Chooses_example = choose_target-Chooses "a" keys

attached_first : position "a" (switchable_sessions records) ≡ some 0
unfolding switchable_sessions running_records sort_oldest insert_before session_comes_before
    position
attached_first = refl

select_switch_target-Reaches_example :
    (ByNumber
        (switchable_sessions records)
        2
        (select_switch_target (switchable_sessions records) "a" (pos 0) (pos 2))
      × ((j : ℕ) × Follows (length (switchable_sessions records)) 0 j
          × Reaches
              (switchable_sessions records)
              j
              (select_switch_target (switchable_sessions records) "a" (pos 1) (pos 2))))
    × ((j : ℕ) × Follows (length (switchable_sessions records)) j 0
        × Reaches
            (switchable_sessions records)
            j
            (select_switch_target (switchable_sessions records) "a" (negsuc 0) (pos 2)))
    × IsSorted (switchable_sessions records)
select_switch_target-Reaches_example = select_switch_target-Reaches records "a" 0 2 attached_first

abbrev ended : SessionRecord
ended = record (numbered "b" 2) { status = "ended" }

abbrev with_ended : List SessionRecord
with_ended = numbered "c" 3 ∷ ended ∷ numbered "a" 1 ∷ numbered "d" 4 ∷ []

falls_back : select_ended_session_fallback with_ended "b" ≡ "a"
unfolding select_ended_session_fallback switchable_sessions running_records sort_oldest
    insert_before session_comes_before
falls_back = refl

abbrev IsNamed : List SessionRecord → Type 0
IsNamed rs = All (λ (r : SessionRecord). r.id ≢ "") rs

named : IsNamed (switchable_sessions with_ended)
unfolding switchable_sessions running_records sort_oldest insert_before session_comes_before
named = (λ q. cc, (λ q. cc, (λ q. cc, tt)))

found : record_named "b" with_ended ≡ some ended
unfolding record_named
found = refl

some_run : switchable_sessions with_ended ≢ []
unfolding switchable_sessions running_records sort_oldest insert_before session_comes_before
some_run q = cc

select_ended_session_fallback-IsNearest_example :
    (r : SessionRecord) × (select_ended_session_fallback with_ended "b" ≡ r.id)
    × IsNearest with_ended ended r
select_ended_session_fallback-IsNearest_example =
    select_ended_session_fallback-IsNearest with_ended "b" ended found refl some_run named
