-- ===== src/Server/Stream/Titles.antt =====
-- A window title whose text holds the byte 0x9c: the second byte of "Ü" and of other characters.
use falkn.Base.{ℕ, ◌≤◌, ◌≡◌, refl, true, List, [], ◌∷◌, ◌++◌, ap, arith, All}
use falkn.Server.Stream.{start, safe_boundary, consume_byte, consume, osc}
use falkn.Server.Stream.Tokens.{IsStringByte, at_mode}
use falkn.Server.Stream.Boundary.{consume-append}

in_title : (body : List ℕ) → All IsStringByte body → consume (at_mode osc) body ≡ at_mode osc
unfolding consume consume_byte
in_title [] h = refl
in_title (c ∷ cs) h =
    let keep : consume_byte (at_mode osc) c ≡ at_mode osc = let b = h.0 in ground arith in
    rw keep (in_title cs h.1)

title_opens : (rest : List ℕ) → consume start (0x1b ∷ b']' ∷ rest) ≡ consume (at_mode osc) rest
unfolding consume consume_byte
title_opens rest = refl

title_closes :
    (lead : ℕ) → 0xc2 ≤ lead → lead ≤ 0xdf → consume (at_mode osc) (lead ∷ 0x9c ∷ []) ≡ start
unfolding consume consume_byte
title_closes lead lo hi =
    let keep : consume_byte (at_mode osc) lead ≡ at_mode osc = ground arith in
    ap (λ s. consume_byte s 0x9c) keep

-- In a title that holds a character of two bytes whose second byte is 0x9c, the state machine reports
-- a safe boundary behind that byte, whatever text stands before it, although neither the title nor
-- its control string has ended.
pub title_boundary :
    (body : List ℕ) (lead : ℕ)
    → All IsStringByte body
    → 0xc2 ≤ lead
    → lead ≤ 0xdf
    → safe_boundary (consume start (0x1b ∷ b']' ∷ (body ++ (lead ∷ 0x9c ∷ [])))) ≡ true
unfolding safe_boundary
title_boundary body lead h lo hi =
    let rest = lead ∷ 0x9c ∷ [] in
    rw
      (
        title_opens (body ++ rest),
        consume-append (at_mode osc) body rest,
        in_title body h,
        title_closes lead lo hi,
      )
      refl
