-- ===== src/Session/Processes.antt =====
-- activeAgentProcess and supportedAgentName (internal/session/shell.go): the agent that runs below
-- the process of a shell session, found in what `ps` prints.
pub mod Descendants
pub mod Found
use Prim.Native.String.{String}
use falkn.Base.{
  ℕ, zero, suc, Bool, true, false, not, ◌&&◌, ◌||◌, List, [], ◌∷◌, Option, none, some, length,
  if◌then◌else◌, ◌==◌, same, nat_eq, list_eq,
}
use falkn.Base.Int.{ℤ, int_eq}
use falkn.Base.Text.{Text, codes, string_eq}
use falkn.Base.Strings.{atoi, fields, split_by, join_with, to_lower, base_name, trim_both}

pub record ProcessRecord : Type 0 where
  pub pid : ℤ
  pub parent : ℤ
  pub command : Text
  pub args : Text

-- A line of `ps`; `none` is `continue`.
abbrev process_of : Option ℤ → Option ℤ → Text → List Text → Option ProcessRecord
process_of (some pid) (some parent) command rest =
    some record { pid = pid; parent = parent; command = command; args = join_with (b' ' ∷ []) rest }
process_of none parent command rest = none
process_of (some pid) none command rest = none

unfoldable pub read_fields : List Text → Option ProcessRecord
unfolding atoi join_with
read_fields (pid ∷ parent ∷ command ∷ rest) = process_of (atoi pid) (atoi parent) command rest
read_fields _ = none

abbrev with_process {ℓ} : {A : Type ℓ} → Option A → List A → List A
with_process none rest = rest
with_process (some a) rest = a ∷ rest

unfoldable pub read_lines : List Text → List ProcessRecord
unfolding read_fields fields
read_lines [] = []
read_lines (l ∷ ls) = with_process (read_fields (fields l)) (read_lines ls)

unfoldable pub parse_processes : Text → List ProcessRecord
unfolding read_lines split_by
parse_processes output = read_lines (split_by b'\n' output)

-- The map `descendants`, as the list of its keys.
unfoldable pub marked : ℤ → List ℤ → Bool
marked p [] = false
marked p (q ∷ d) = same q p || marked p d

pub record Marks : Type 0 where
  pub descendants : List ℤ
  pub changed : Bool

unfoldable pub mark : ProcessRecord → Marks → Marks
unfolding marked
mark r s =
    if not (marked r.pid s.descendants) && marked r.parent s.descendants
    then record { descendants = r.pid ∷ s.descendants; changed = true }
    else s

-- The body of the outer loop.
unfoldable pub mark_all : List ProcessRecord → Marks → Marks
unfolding mark
mark_all [] s = s
mark_all (r ∷ rs) s = mark_all rs (mark r s)

-- The outer loop, on fuel; `none` when it runs out.
unfoldable pub mark_until : ℕ → List ProcessRecord → List ℤ → Option (List ℤ)
mark_until zero records d = none
mark_until (suc fuel) records d =
    let s = mark_all records (record { descendants = d; changed = false }) in
    elim s.changed [ true ↦ mark_until fuel records s.descendants | false ↦ some s.descendants ]

-- One round more than there are processes.
unfoldable pub find_descendants : ℤ → List ProcessRecord → Option (List ℤ)
unfolding mark_until
find_descendants root records = mark_until (suc (length records)) records (root ∷ [])

abbrev is_quote : ℕ → Bool
is_quote c = c == 0x27 || c == 0x22

abbrev agent_of_base : Text → String
agent_of_base base =
    if same base (codes "codex") || same base (codes "codex.js") || same base (codes "codex.mjs")
    then "codex"
    else if same base (codes "claude")
        || same base (codes "claude.js")
        || same base (codes "claude.mjs")
    then "claude"
    else ""

unfoldable pub agent_of_candidates : List Text → String
unfolding to_lower base_name trim_both
agent_of_candidates [] = ""
agent_of_candidates (c ∷ cs) =
    let found = agent_of_base (to_lower (base_name (trim_both is_quote c))) in
    if same found "" then agent_of_candidates cs else found

unfoldable pub supported_agent_name : Text → Text → String
unfolding agent_of_candidates fields
supported_agent_name command arguments = agent_of_candidates (command ∷ fields arguments)

-- One turn of the last loop: `none` goes on.
unfoldable pub agent_at : ℤ → List ℤ → ProcessRecord → Option (String × Text)
unfolding supported_agent_name marked base_name
agent_at root descendants r =
    let id = supported_agent_name r.command r.args in
    if same r.pid root || not (marked r.pid descendants) || same id ""
    then none
    else some (id, base_name r.command)

-- The last loop goes from the last process to the first.
unfoldable pub last_agent : ℤ → List ℤ → List ProcessRecord → Option (String × Text)
unfolding agent_at
last_agent root descendants [] = none
last_agent root descendants (r ∷ rs) = elim (last_agent root descendants rs) [
  | some found ↦ some found
  | none ↦ agent_at root descendants r
]

abbrev pub or_empty : Option (String × Text) → String × Text
or_empty none = ("", [])
or_empty (some found) = found

abbrev agent_below : ℤ → List ProcessRecord → Option (List ℤ) → Option (String × Text)
agent_below root records none = none
agent_below root records (some descendants) = some (or_empty (last_agent root descendants records))

-- What `ps` prints is the environment's; it may fail. `none` is a loop that does not end.
unfoldable pub active_agent_process : ℤ → Option Text → Option (String × Text)
unfolding parse_processes find_descendants last_agent
active_agent_process root none = some ("", [])
active_agent_process root (some output) =
    let records = parse_processes output in agent_below root records (find_descendants root records)
