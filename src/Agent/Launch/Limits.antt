-- ===== src/Agent/Launch/Limits.antt =====
-- What a session's command line can hold.
use Prim.Native.String.{String}
use falkn.Base.{
  ℕ, ◌+◌, ◌≤◌, ◌≡◌, ◌≢◌, ◌⊎◌, inl, inr, refl, sym, ◌∙◌, Bool, true, false, not, ◌&&◌, List, [], ◌∷◌,
  length, ltb, ◌==◌, All, arith, Bool-cases, same, same_iff, nat_eq, list_eq,
}
use falkn.Base.Text.{Text, string_eq, byte_length, any}
use falkn.Agent.Launch.{
  Spec, accepted, refuse_if, total_bytes, validate_additional_arguments, launch_arguments,
  requests_full_access, bypass_arguments, normalized_mode, bind-accepted, refuse_if-accepted,
  too_many, total_too_long, bypass_flag, unsupported_mode, bypass_codex, bypass_claude,
  max_additional_args, max_argument_bytes, max_total_arg_bytes,
}

abbrev pub total : List Text → ℕ
total [] = 0
total (a ∷ rest) = byte_length a + total rest

-- An argument that the operating system and Falkn accept.
abbrev pub IsArgument : Text → Type 0
IsArgument a = (a ≢ []) × (any (λ c. c == 0) a ≡ false) × (byte_length a ≤ max_argument_bytes)

pub record Within (arguments : List Text) : Type 0 where
  pub few : length arguments ≤ max_additional_args
  pub each : All IsArgument arguments
  pub short : total arguments ≤ max_total_arg_bytes

total_bytes-accepted :
    (start : ℕ) (arguments : List Text) {n : ℕ}
    → total_bytes start arguments ≡ accepted n
    → All IsArgument arguments × (n ≡ start + total arguments)
unfolding total_bytes
total_bytes-accepted start [] e = (tt, ground arith)
total_bytes-accepted start ([] ∷ rest) e = cc
total_bytes-accepted start ((c ∷ cs) ∷ rest) e = elim (Bool-cases (any (λ x. x == 0) (c ∷ cs))) [
  | inl null ↦ cc (rw null at e)
  | inr clean ↦ elim (Bool-cases (ltb max_argument_bytes (byte_length (c ∷ cs)))) [
    | inl long ↦ cc (rw (clean, long) at e)
    | inr short ↦
        let e' = rw (clean, short) at e in
        let (each, sum) = total_bytes-accepted (start + byte_length (c ∷ cs)) rest e' in
        ((((λ z. cc), clean, ground arith), each), ground arith)
  ]
]

module _ (lower_rune : ℕ → ℕ) where
  validate-accepted :
      (agent_id mode : String) (arguments : List Text)
      → validate_additional_arguments lower_rune agent_id mode arguments ≡ accepted tt
      → Within arguments
        × ((same mode "standard" ≡ true)
            → requests_full_access lower_rune agent_id arguments ≡ false)
  unfolding validate_additional_arguments
  validate-accepted agent_id mode arguments e =
      let (u, few, e1) =
        bind-accepted (refuse_if (ltb max_additional_args (length arguments)) too_many) _ e in
      let (n, counted, e2) = bind-accepted (total_bytes 0 arguments) _ e1 in
      let (u', short, e3) =
        bind-accepted (refuse_if (ltb max_total_arg_bytes n) total_too_long) _ e2 in
      let few' = refuse_if-accepted _ too_many few in
      let short' = refuse_if-accepted _ total_too_long short in
      let flag = refuse_if-accepted _ bypass_flag e3 in
      let (each, sum) = total_bytes-accepted 0 arguments counted in
      (record { few = ground arith; each = each; short = ground arith }, λ std. ground arith)

  -- The command line of a session, for the mode that it was asked for.
  abbrev pub Launched : String → String → List Text → List Text → Type 0
  Launched agent_id mode additional arguments =
      ((same mode "full_access" ≡ false)
        × (arguments ≡ additional)
        × (requests_full_access lower_rune agent_id additional ≡ false))
      ⊎ ((same mode "full_access" ≡ true)
          × (((same agent_id "codex" ≡ true) × (arguments ≡ bypass_codex ∷ additional))
              ⊎ ((same agent_id "claude" ≡ true) × (arguments ≡ bypass_claude ∷ additional))))

  bypass_arguments-accepted :
      (spec : Spec) (additional : List Text) {arguments : List Text}
      → bypass_arguments spec additional ≡ accepted arguments
      → ((same spec.id "codex" ≡ true) × (arguments ≡ bypass_codex ∷ additional))
        ⊎ ((same spec.id "claude" ≡ true) × (arguments ≡ bypass_claude ∷ additional))
  unfolding bypass_arguments
  bypass_arguments-accepted spec additional e = ground arith

  standard_if_known : (std full : Bool) → full ≡ false → (not std && not full) ≡ false → std ≡ true
  standard_if_known std full f k = ground arith

  normalized_mode_full :
      (mode : String) → same (normalized_mode mode) "full_access" ≡ same mode "full_access"
  unfolding normalized_mode
  normalized_mode_full mode = elim (Bool-cases (same mode "")) [
    | inl blank ↦ let e : mode ≡ "" = (same_iff mode "").0 blank in rw (blank, e) refl
    | inr other ↦ rw other refl
  ]

  -- A command line that is accepted has at most 64 additional arguments, none of them empty, with a
  -- null byte or longer than 4,096 bytes, and 16,384 bytes in all. In any mode but Full Access it is
  -- exactly those arguments and they hold no bypass flag that Falkn knows; in Full Access it begins
  -- with the agent's own bypass flag, for Codex and Claude Code only.
  pub launch_arguments-Launched :
      (spec : Spec) (mode : String) (additional : List Text) {arguments : List Text}
      → launch_arguments lower_rune spec mode additional ≡ accepted arguments
      → Within additional × Launched spec.id mode additional arguments
  unfolding launch_arguments
  launch_arguments-Launched spec mode additional e =
      let m = normalized_mode mode in
      let full = same m "full_access" in
      let refused = not (same m "standard") && not full in
      let (u, known, e1) = bind-accepted (refuse_if refused unsupported_mode) _ e in
      let (u', valid, e2) =
        bind-accepted (validate_additional_arguments lower_rune spec.id m additional) _ e1 in
      let known' = refuse_if-accepted refused unsupported_mode known in
      let (within, no_flag) = validate-accepted spec.id m additional valid in
      let same_mode = normalized_mode_full mode in
      elim (Bool-cases full) [
        | inl f ↦ (
          within,
          inr (sym same_mode ∙ f, bypass_arguments-accepted spec additional (rw f at e2)),
        )
        | inr f ↦ (
          within,
          inl (sym same_mode ∙ f, ground arith, no_flag (standard_if_known _ full f known')),
        )
      ]
