-- ===== src/Server/HandoffTests.antt =====
-- Runs of the handoff command and of the prefix, and inputs at which their theorems hold.
use falkn.Base.{ℕ, ◌+◌, ◌-◌, ◌≡◌, ◌≢◌, refl, ap, ◌∙◌, [], ◌∷◌, ◌++◌, some, none, All, arith}
use falkn.Base.Text.{Text, codes, trim_space}
use falkn.Base.Strings.{to_lower}
use falkn.Server.Handoff.{
  Base64, write_attach_handoff, attach_handoff_session_id, strip_attach_handoffs, strip_loop,
  attach_handoff_prefix,
}
use falkn.Server.Handoff.Written.{IsBase64, write_attach_handoff-session_id}
use falkn.Server.Handoff.Unterminated.{strip_attach_handoffs_unterminated}
use falkn.Server.Prefix.{
  parse_attach_prefix, attach_prefix_name, accepted, no_control_key, no_letter, taken, is_reserved,
}
use falkn.Server.Prefix.Accepted.{IsFree, parse_attach_prefix-IsFree}

-- In place of Base64, letters that are moved behind the control characters.
moved : Text → Text
moved [] = []
moved (c ∷ cs) = (c + 64) ∷ moved cs

moved_back : Text → Text
moved_back [] = []
moved_back (c ∷ cs) = (c - 64) ∷ moved_back cs

abbrev base64 : Base64
base64 = record { encode_string = moved; decode_string = λ t. some (moved_back t) }

moved_back-moved : (t : Text) → moved_back (moved t) ≡ t
unfolding moved moved_back
moved_back-moved [] = refl
moved_back-moved (c ∷ cs) =
    let e : c + 64 - 64 ≡ c = omega arith in
    ap (λ (d : ℕ). d ∷ moved_back (moved cs)) e ∙ ap (◌∷◌ c) (moved_back-moved cs)

moved-All : (b : ℕ) (t : Text) → ((c : ℕ) → c + 64 ≢ b) → All (λ c. c ≢ b) (moved t)
unfolding moved
moved-All b [] h = tt
moved-All b (c ∷ cs) h = (h c, moved-All b cs h)

laws : IsBase64 base64
laws = record {
  decodes = λ t. ap some (moved_back-moved t);
  no_bell = λ t. moved-All 7 t (λ c. omega arith);
  no_escape = λ t. moved-All 0x1b t (λ c. omega arith);
}

abbrev command : Text
command = attach_handoff_prefix ++ (moved (codes "falkn-a1") ++ 7 ∷ [])

written : write_attach_handoff base64 (codes "falkn-a1") ≡ some command
unfolding write_attach_handoff
written = refl

refused : write_attach_handoff base64 (codes "falkn-") ≡ none
unfolding write_attach_handoff
refused = refl

strip_runs :
    strip_attach_handoffs base64 (codes "ab" ++ (command ++ codes "c")) ≡ some (codes "abc")
unfolding strip_attach_handoffs strip_loop moved moved_back
strip_runs = refl

-- The command of another application stays.
strip_other :
    strip_attach_handoffs base64 (0x1b ∷ codes "]1337;FalknAttach=x\u{7}!")
    ≡ some (0x1b ∷ codes "]1337;FalknAttach=x\u{7}!")
unfolding strip_attach_handoffs strip_loop moved_back
strip_other = refl

write_attach_handoff-session_id_example :
    attach_handoff_session_id base64 (codes "$ falkn attach" ++ command) ≡ codes "falkn-a1"
write_attach_handoff-session_id_example =
    write_attach_handoff-session_id base64 laws (codes "$ falkn attach") (codes "falkn-a1") command
      written

no_bell : All (λ c. c ≢ 7) (codes "log")
no_bell = (omega arith, (omega arith, (omega arith, tt)))

strip_attach_handoffs_unterminated_example :
    strip_attach_handoffs base64 (attach_handoff_prefix ++ (codes "log" ++ command)) ≡ some []
strip_attach_handoffs_unterminated_example =
    strip_attach_handoffs_unterminated base64 laws (codes "log") (codes "falkn-a1") command no_bell
      written

prefix_runs :
    (parse_attach_prefix (codes " Ctrl-A ") ≡ accepted 1)
    × (parse_attach_prefix (codes "^c") ≡ taken "interrupt")
    × (parse_attach_prefix (codes "^") ≡ accepted 30)
    × (parse_attach_prefix (codes "F1") ≡ no_control_key)
    × (parse_attach_prefix (codes "1") ≡ no_letter)
unfolding parse_attach_prefix to_lower trim_space is_reserved
prefix_runs = (refl, refl, refl, refl, refl)

parse_attach_prefix-IsFree_example :
    IsFree 1 × (parse_attach_prefix (attach_prefix_name 1) ≡ accepted 1)
parse_attach_prefix-IsFree_example = parse_attach_prefix-IsFree (codes " Ctrl-A ") 1 prefix_runs.0
