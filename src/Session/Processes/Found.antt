-- ===== src/Session/Processes/Found.antt =====
-- Which agent activeAgentProcess reports.
use Prim.Native.String.{String}
use falkn.Base.{
  ◌≡◌, ◌≢◌, ◌⊎◌, ◌↔◌, inl, inr, refl, ap, ◌∙◌, true, List, [], ◌∷◌, ◌++◌, Option, some, none, same,
  same_iff, Bool-cases, All,
}
use falkn.Base.Int.{ℤ, int_eq}
use falkn.Base.Text.{Text, string_eq}
use falkn.Base.Strings.{base_name}
use falkn.Session.Processes.{
  ProcessRecord, marked, parse_processes, supported_agent_name, agent_at, last_agent, or_empty,
  active_agent_process,
}
use falkn.Session.Processes.Descendants.{Below, find_descendants_lem}

-- A process below the root, not the root itself, that an agent's name is found in.
pub IsAgent : ℤ → List ProcessRecord → ProcessRecord → Type 0
IsAgent root records r =
    (r.pid ≢ root) × ∥ Below records root r.pid ∥₁ × (supported_agent_name r.command r.args ≢ "")

abbrev report : ProcessRecord → String × Text
report r = (supported_agent_name r.command r.args, base_name r.command)

-- `found` is the report of the last agent among `xs`, or `none` when there is none.
pub IsLast : ℤ → List ProcessRecord → List ProcessRecord → Option (String × Text) → Type 0
IsLast root records xs found =
    ((found ≡ none) × All (λ r. ¬ IsAgent root records r) xs)
    ⊎ ((before : List ProcessRecord) × (r : ProcessRecord) × (after : List ProcessRecord) × (xs
          ≡ before ++ r ∷ after)
        × (found ≡ some (report r))
        × IsAgent root records r
        × All (λ q. ¬ IsAgent root records q) after)

module _ (root : ℤ) (records : List ProcessRecord) (d : List ℤ)
    (exact : (p : ℤ) → (marked p d ≡ true) ↔ ∥ Below records root p ∥₁) where
  agent_at-cases :
      (r : ProcessRecord)
      → ((agent_at root d r ≡ none) × (¬ IsAgent root records r))
        ⊎ ((agent_at root d r ≡ some (report r)) × IsAgent root records r)
  unfolding agent_at IsAgent
  agent_at-cases r = elim (Bool-cases (same r.pid root)) [
    | inl a ↦ inl (rw a refl, λ h. h.0 ((same_iff r.pid root).0 a))
    | inr a ↦ elim (Bool-cases (marked r.pid d)) [
      | inr b ↦ inl (rw (a, b) refl, λ h. cc ((exact r.pid).1 h.1, b))
      | inl b ↦
          let named = same_iff (supported_agent_name r.command r.args) "" in
          elim (Bool-cases (same (supported_agent_name r.command r.args) "")) [
            | inl c ↦ inl (rw (a, b, c) refl, λ h. h.2 (named.0 c))
            | inr c ↦
                let agent : IsAgent root records r = (
                  λ q. cc ((same_iff r.pid root).1 q, a),
                  (exact r.pid).0 b,
                  λ q. cc (named.1 q, c),
                ) in
                inr (rw (a, b, c) refl, agent)
          ]
    ]
  ]

  last_agent-cons :
      (x : ProcessRecord) (xs : List ProcessRecord) (o : Option (String × Text))
      → last_agent root d xs ≡ o
      → last_agent root d (x ∷ xs) ≡ elim o [ some found ↦ some found | none ↦ agent_at root d x ]
  unfolding last_agent
  last_agent-cons x xs o e =
      ap
        (λ (k : Option (String × Text)). elim k [
          | some found ↦ some found
          | none ↦ agent_at root d x
        ])
        e

  last_agent-IsLast : (xs : List ProcessRecord) → IsLast root records xs (last_agent root d xs)
  unfolding last_agent IsLast
  last_agent-IsLast [] = inl (refl, tt)
  last_agent-IsLast (x ∷ xs) = elim (last_agent-IsLast xs) [
    | inl (e, others) ↦ elim (agent_at-cases x) [
      | inl (q, no_agent) ↦ inl (last_agent-cons x xs none e ∙ q, (no_agent, others))
      | inr (q, agent) ↦ inr ([], x, xs, refl, last_agent-cons x xs none e ∙ q, agent, others)
    ]
    | inr (before, r, after, split, e, agent, others) ↦ inr (
      x ∷ before,
      r,
      after,
      ap (◌∷◌ x) split,
      last_agent-cons x xs (some (report r)) e,
      agent,
      others,
    )
  ]

-- Whatever `ps` prints, the search ends. It reports the last process of the table that lies below
-- the root by a chain of parents, is not the root, and has an agent's name in its command line; when
-- there is no such process, it reports nothing.
pub active_agent_process_lem :
    (root : ℤ) (output : Text)
    → (found : Option (String × Text)) × (active_agent_process root (some output)
        ≡ some (or_empty found))
      × IsLast root (parse_processes output) (parse_processes output) found
unfolding active_agent_process
active_agent_process_lem root output =
    let records = parse_processes output in
    let (d, ends, exact) = find_descendants_lem root records in
    (last_agent root d records, rw ends refl, last_agent-IsLast root records d exact records)
