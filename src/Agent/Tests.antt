-- ===== src/Agent/Tests.antt =====
-- Tests of the agents' launch and attention code, and each of their theorems at a concrete input.
use Prim.Native.String.{String}
use falkn.Base.{
  ℕ, ◌+◌, ◌≡◌, ◌↔◌, refl, true, false, ◌&&◌, List, [], ◌∷◌, leb, if◌then◌else◌, same, list_beq,
  nat_eq,
}
use falkn.Base.Text.{Text, codes, string_eq, contains_any, contains, has_prefix, trim_space, any}
use falkn.Agent.Launch.{
  Spec, accepted, refused, bypass_flag, launch_arguments, validate_additional_arguments,
  requests_full_access,
}
use falkn.Agent.Launch.Limits.{Within, Launched, launch_arguments-Launched}
use falkn.Agent.State.{Tables, failed, needs_input, attention_state_for, terminal_tail}
use falkn.Agent.State.Reports.{attention-failed_iff}

-- unicode.ToLower on ASCII.
lower_ascii : ℕ → ℕ
lower_ascii c = if leb b'A' c && leb c b'Z' then c + 32 else c

abbrev codex : Spec
codex = record { id = "codex"; display_name = "Codex"; executable = "codex" }

abbrev model_flag : List Text
model_flag = codes "--model" ∷ codes "o3" ∷ []

launch_model : launch_arguments lower_ascii codex "" model_flag ≡ accepted model_flag
unfolding launch_arguments validate_additional_arguments requests_full_access trim_space any
    contains_any contains has_prefix list_beq lower_ascii
launch_model = refl

launch_yolo :
    launch_arguments lower_ascii codex "standard" (codes " --YOLO" ∷ []) ≡ refused bypass_flag
unfolding launch_arguments validate_additional_arguments requests_full_access trim_space any
    contains_any contains has_prefix list_beq lower_ascii
launch_yolo = refl

launch_arguments-Launched_example :
    Within model_flag × Launched lower_ascii "codex" "" model_flag model_flag
launch_arguments-Launched_example =
    launch_arguments-Launched lower_ascii codex "" model_flag launch_model

abbrev tables : Tables
tables = record { codex_idle_footer = has_prefix (codes "gpt-"); lower_rune = lower_ascii }

approval :
    attention_state_for tables "agent" "pi" (codes "Write it. Approve? ") "running" ≡ needs_input
unfolding attention_state_for trim_space terminal_tail contains_any contains lower_ascii
approval = refl

attention-failed_iff_example :
    (attention_state_for tables "agent" "codex" (codes "done") "ended" ≡ failed)
    ↔ ((same {A = String} "ended" "ended" ≡ true) × (same {A = String} "agent" "shell" ≡ false))
attention-failed_iff_example = attention-failed_iff tables "agent" "codex" (codes "done") "ended"
