-- ===== src/Agent/State/Reports.antt =====
-- Which attention states a session can report.
use Prim.Native.String.{String}
use falkn.Base.{◌≡◌, ◌≢◌, ◌↔◌, refl, true, false, [], ◌∷◌, arith, same, same_iff, nat_eq, list_eq}
use falkn.Base.Text.{Text, string_eq}
use falkn.Agent.State.{Tables, failed, attention_state_for, normalized, screen_attention}

module _ (tables : Tables) where
  screen-ne-failed :
      (agent_id : String) (text : Text) → screen_attention tables agent_id text ≢ failed
  unfolding screen_attention
  screen-ne-failed agent_id [] e = cc
  screen-ne-failed agent_id (c ∷ cs) e = ground arith

  ended-ne-stopped : (status : String) → same status "ended" ≡ true → same status "stopped" ≡ false
  ended-ne-stopped status h = let e : status ≡ "ended" = (same_iff status "ended").0 h in rw e refl

  -- A failure is reported exactly for an agent's session whose process has ended: never for a shell,
  -- for a session that was stopped, or for anything that stands on a screen.
  pub attention-failed_iff :
      (kind agent_id : String) (transcript : Text) (status : String)
      → (attention_state_for tables kind agent_id transcript status ≡ failed)
        ↔ ((same status "ended" ≡ true) × (same kind "shell" ≡ false))
  unfolding attention_state_for
  attention-failed_iff kind agent_id transcript status =
      ground
        (arith, screen-ne-failed agent_id (normalized tables transcript), ended-ne-stopped status)
