-- ===== src/Session/ProcessTests.antt =====
-- Runs of the search for an agent, and inputs at which its theorems hold.
use Prim.Native.String.{String}
use falkn.Base.{◌≡◌, ◌↔◌, refl, true, List, [], ◌∷◌, Option, some, list_beq}
use falkn.Base.Int.{ℤ, pos}
use falkn.Base.Text.{Text, codes}
use falkn.Base.Strings.{atoi, base_name}
use falkn.Session.Processes.{
  ProcessRecord, parse_processes, marked, find_descendants, supported_agent_name,
  active_agent_process, or_empty, mark_all,
}
use falkn.Session.Processes.Descendants.{Below, find_descendants_lem}
use falkn.Session.Processes.Found.{IsLast, active_agent_process_lem}

abbrev agent_below_shell : Text
agent_below_shell =
    codes
      "  9 7 node /usr/bin/node '/opt/Codex.js' --x\n 7 5 sh sh -c\nbad line here x\n 5 1 zsh -zsh\n"

parse_runs : atoi (codes "-12") ≡ some (ℤ.negsuc 11)
unfolding atoi
parse_runs = refl

base_name_runs : base_name (codes "/usr/local//") ≡ codes "local"
unfolding base_name
base_name_runs = refl

name_runs : supported_agent_name (codes "/bin/zsh") (codes "node '/opt/Codex.js'") ≡ "codex"
unfolding supported_agent_name list_beq
name_runs = refl

search_runs : active_agent_process (pos 5) (some agent_below_shell) ≡ some ("codex", codes "node")
unfolding active_agent_process parse_processes find_descendants mark_all list_beq
search_runs = refl

-- The shell's own process and the processes beside it do not count.
search_beside : active_agent_process (pos 9) (some agent_below_shell) ≡ some ("", [])
unfolding active_agent_process parse_processes find_descendants mark_all list_beq
search_beside = refl

abbrev cycle : List ProcessRecord
cycle =
    record { pid = pos 2; parent = pos 3; command = codes "a"; args = [] }
    ∷ record { pid = pos 3; parent = pos 2; command = codes "b"; args = [] }
    ∷ []

find_descendants_lem_example :
    (d : List ℤ) × (find_descendants (pos 2) cycle ≡ some d)
    × ((p : ℤ) → (marked p d ≡ true) ↔ ∥ Below cycle (pos 2) p ∥₁)
find_descendants_lem_example = find_descendants_lem (pos 2) cycle

active_agent_process_lem_example :
    (found : Option (String × Text)) × (active_agent_process (pos 5) (some agent_below_shell)
      ≡ some (or_empty found))
    × IsLast (pos 5) (parse_processes agent_below_shell) (parse_processes agent_below_shell) found
active_agent_process_lem_example = active_agent_process_lem (pos 5) agent_below_shell
