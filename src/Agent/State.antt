-- ===== src/Agent/State.antt =====
-- internal/agent/state.go: what a session's screen says about its agent. Text is a list of code
-- points. The regular expression of Codex's idle footer and the table of unicode.ToLower are
-- arguments.
pub mod Reports
use Prim.Native.String.{String}
use falkn.Base.{
  ℕ, Bool, true, false, not, ◌&&◌, ◌||◌, List, [], ◌∷◌, map, leb, ◌==◌, if◌then◌else◌, Eq, same,
  nat_eq, list_eq,
}
use falkn.Base.Text.{
  Text, codes, string_eq, trim_space, has_prefix, contains_any, is_empty, byte_length,
}
use falkn.Session.Transcript.{split_lines}

pub data AttentionState : Type 0 where
  no_attention needs_input completed failed : AttentionState

-- `value[start:]` for the first start at or behind `len(value) - maximumBytes` where a character
-- begins: the longest end of `value` of at most that many bytes.
unfoldable pub terminal_tail : Text → ℕ → Text
terminal_tail [] maximum_bytes = []
terminal_tail (c ∷ cs) maximum_bytes =
    let rest = terminal_tail cs maximum_bytes in
    if leb (byte_length (c ∷ cs)) maximum_bytes then c ∷ cs else rest

-- The last of the lines that is not blank when it is trimmed, trimmed.
last_line_of : List Text → Text
last_line_of [] = []
last_line_of (l ∷ ls) =
    let later = last_line_of ls in if is_empty later then trim_space l else later

unfoldable pub last_non_empty_line : Text → Text
unfolding last_line_of
last_non_empty_line value = last_line_of (split_lines value)

abbrev pub codex_prompts : List Text
codex_prompts =
    codes "press enter to confirm or esc to cancel"
    ∷ codes "would you like to run the following command"
    ∷ codes "do you want to allow"
    ∷ codes "yes, and don't ask again"
    ∷ codes "approve this command"
    ∷ []

abbrev codex_activity : List Text
codex_activity =
    codes "esc to interrupt"
    ∷ codes "working ("
    ∷ codes "thinking ("
    ∷ codes "running command"
    ∷ codes "booting mcp server:"
    ∷ []

abbrev pub claude_prompts : List Text
claude_prompts =
    codes "do you want to proceed?"
    ∷ codes "allow this command?"
    ∷ codes "yes, allow once"
    ∷ codes "yes, and don't ask again"
    ∷ codes "esc to cancel"
    ∷ []

abbrev claude_activity : List Text
claude_activity = codes "esc to interrupt" ∷ codes "ctrl+c to interrupt" ∷ []

abbrev pub pi_prompts : List Text
pi_prompts = codes "confirm?" ∷ codes "approve?" ∷ codes "allow this" ∷ []

-- The standard library's tables: a regular expression's match, and the lower case of a character.
pub record Tables : Type 0 where
  pub codex_idle_footer : Text → Bool
  pub lower_rune : ℕ → ℕ

module _ (tables : Tables) where
  open tables use {codex_idle_footer, lower_rune}

  -- hasStableCodexFooter: the last line that is not blank is matched, and there is one.
  has_stable_codex_footer : Text → Bool
  has_stable_codex_footer transcript =
      not (is_empty (last_non_empty_line transcript))
      && codex_idle_footer (last_non_empty_line transcript)

  codex_attention_state : Text → AttentionState
  unfolding has_stable_codex_footer
  codex_attention_state transcript =
      let tail = terminal_tail transcript 4000 in
      if contains_any tail codex_prompts
      then needs_input
      else if contains_any (last_non_empty_line tail) codex_activity
      then no_attention
      else if has_stable_codex_footer tail
      then completed
      else no_attention

  claude_attention_state : Text → AttentionState
  claude_attention_state transcript =
      let tail = terminal_tail transcript 4000 in
      let line = last_non_empty_line tail in
      if contains_any tail claude_prompts
      then needs_input
      else if (has_prefix line (0x276f ∷ []) || has_prefix line (b'>' ∷ []))
          && not (contains_any line claude_activity)
      then completed
      else no_attention

  pi_attention_state : Text → AttentionState
  pi_attention_state transcript =
      let tail = terminal_tail transcript 4000 in
      let line = last_non_empty_line tail in
      if contains_any tail pi_prompts
      then needs_input
      else if same line (codes ">") || has_prefix line (codes "> ")
      then completed
      else no_attention

  normalized : Text → Text
  normalized transcript = map lower_rune (trim_space transcript)

  screen_attention : String → Text → AttentionState
  unfolding codex_attention_state claude_attention_state pi_attention_state
  screen_attention agent_id [] = no_attention
  screen_attention agent_id (c ∷ cs) =
      if same agent_id "codex"
      then codex_attention_state (c ∷ cs)
      else if same agent_id "claude"
      then claude_attention_state (c ∷ cs)
      else if same agent_id "pi"
      then pi_attention_state (c ∷ cs)
      else no_attention

  unfoldable pub attention_state_for : String → String → Text → String → AttentionState
  unfolding normalized screen_attention
  attention_state_for kind agent_id transcript process_status =
      if same process_status "stopped"
      then no_attention
      else if same process_status "ended"
      then (if same kind "shell" then no_attention else failed)
      else screen_attention agent_id (normalized transcript)
