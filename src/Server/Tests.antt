-- ===== src/Server/Tests.antt =====
-- Tests of the attached terminal's components, and each of their theorems at a concrete input.
use falkn.Base.{ℕ, ◌≡◌, ◌↔◌, refl, true, List, [], ◌∷◌, ◌++◌, arith}
use falkn.Server.Stream.{start, safe_boundary, consume}
use falkn.Server.Stream.Tokens.{Token, ascii, control_sequence}
use falkn.Server.Stream.Boundary.{Tokens, none, token, safe_boundary_iff}
use falkn.Server.Stream.Titles.{title_boundary}

-- The stream state.

abbrev bold : List ℕ
bold = 0x1b ∷ b'[' ∷ b'1' ∷ b'm' ∷ []

bold-Token : Token bold
bold-Token =
    control_sequence (b'1' ∷ []) b'm' (((λ e. absurd (omega arith)), refl), tt) (omega arith)
      (omega arith)

bold_a : Tokens (bold ++ (b'a' ∷ []))
bold_a = token bold-Token (token (ascii b'a' (omega arith) (omega arith)) none)

safe_boundary_iff_example : (safe_boundary (consume start bold) ≡ true) ↔ Tokens bold
safe_boundary_iff_example = safe_boundary_iff bold_a bold (b'a' ∷ []) refl

title_boundary_example :
    safe_boundary (consume start (0x1b ∷ b']' ∷ b'0' ∷ b';' ∷ 0xc3 ∷ 0x9c ∷ [])) ≡ true
title_boundary_example =
    title_boundary (b'0' ∷ b';' ∷ []) 0xc3 (omega arith) (omega arith) (omega arith)
