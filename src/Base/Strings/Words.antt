-- ===== src/Base/Strings/Words.antt =====
-- The words of a text, joined texts, and the digits of a number.
use Prim.Native.Nat.{ℕ, zero, suc, ◌+◌, ◌≤◌, ◌<◌, ◌*◌, ◌-◌, ◌/◌, ◌%◌}
use mathlib.Core.Path.{◌≡◌, ap, ◌∙◌}
use mathlib.Core.Bool.{true, ◌&&◌}
use mathlib.Core.Option.{some}
use mathlib.Core.Logic.{inl, inr}
use mathlib.Core.List.{List, [], ◌∷◌, ◌++◌}
use native.Mathlib.Omega.{arith}
use falkn.Base.Tests.{ltb, leb, Bool-cases}
use falkn.Base.Lists.{All, All-append}
use falkn.Base.Text.{Text, is_space}
use falkn.Base.Strings.{word_then, fields_onto, fields, join_with, decimal_on, decimal, digits_from}

module _ {κ} (P : ℕ → Type κ) where
  word_then-All :
      (word : Text) (rest : List Text)
      → All P word
      → All (All P) rest
      → All (All P) (word_then word rest)
  word_then-All [] rest h k = k
  word_then-All (c ∷ cs) rest h k = (h, k)

  fields_onto-All : (word s : Text) → All P word → All P s → All (All P) (fields_onto word s)
  unfolding fields_onto
  fields_onto-All word [] h k = word_then-All word [] h tt
  fields_onto-All word (c ∷ cs) h k = elim (Bool-cases (is_space c)) [
    | inl e ↦
        rw (fields_onto, e)
          (word_then-All word (fields_onto [] cs) h (fields_onto-All [] cs tt k.1))
    | inr e ↦
        rw (fields_onto, e)
          (fields_onto-All (word ++ c ∷ []) cs (All-append P word (c ∷ []) h (k.0, tt)) k.1)
  ]

  pub fields-All : (s : Text) → All P s → All (All P) (fields s)
  unfolding fields
  fields-All s h = fields_onto-All [] s tt h

  pub join_with-All :
      (sep : Text) (ts : List Text) → All P sep → All (All P) ts → All P (join_with sep ts)
  unfolding join_with
  join_with-All sep [] h k = tt
  join_with-All sep (t ∷ []) h k = k.0
  join_with-All sep (t ∷ u ∷ ts) h k =
      All-append P (t ++ sep) _ (All-append P t sep k.0 h) (join_with-All sep (u ∷ ts) h k.1)

abbrev pub IsDigit : ℕ → Type 0
IsDigit c = (b'0' ≤ c) × (c ≤ b'9')

digit : (n : ℕ) → IsDigit (b'0' + n % 10)
digit n = (omega arith, omega arith)

decimal_on-IsDigits :
    (fuel n : ℕ) (rest : Text) → All IsDigit rest → All IsDigit (decimal_on fuel n rest)
unfolding decimal_on
decimal_on-IsDigits zero n rest h = h
decimal_on-IsDigits (suc fuel) n rest h =
    let all = (b'0' + n % 10) ∷ rest in
    elim (Bool-cases (ltb n 10)) [
      | inl e ↦ rw (decimal_on, e) (digit n, h)
      | inr e ↦ rw (decimal_on, e) (decimal_on-IsDigits fuel (n / 10) all (digit n, h))
    ]

pub decimal-IsDigits : (n : ℕ) → All IsDigit (decimal n)
unfolding decimal
decimal-IsDigits n = decimal_on-IsDigits (suc n) n [] tt

last_digit :
    (m n : ℕ) (rest : Text)
    → digits_from m ((b'0' + n % 10) ∷ rest) ≡ digits_from (10 * m + n % 10) rest
unfolding digits_from
last_digit m n rest =
    let c = b'0' + n % 10 in
    let is_digit : (leb b'0' c && leb c b'9') ≡ true = ground arith in
    let shift : 10 * m + (c - b'0') ≡ 10 * m + n % 10 = omega arith in
    rw (digits_from, is_digit) (ap (λ i. digits_from i rest) shift)

-- The rounds are enough: the digits of a number are read back as the number.
decimal_on-digits :
    (fuel n : ℕ) (rest : Text)
    → n < fuel
    → digits_from 0 (decimal_on fuel n rest) ≡ digits_from n rest
unfolding decimal_on
decimal_on-digits zero n rest h = absurd (omega arith)
decimal_on-digits (suc fuel) n rest h =
    let all = (b'0' + n % 10) ∷ rest in
    elim (Bool-cases (ltb n 10)) [
      | inl e ↦
          rw (decimal_on, e)
            (last_digit 0 n rest ∙ ap (λ m. digits_from m rest) (ground (arith, e)))
      | inr e ↦
          rw (decimal_on, e)
            (decimal_on-digits fuel (n / 10) all (ground (arith, e, h))
              ∙ last_digit (n / 10) n rest
              ∙ ap (λ m. digits_from m rest) (omega arith))
    ]

pub decimal-digits : (n : ℕ) → digits_from 0 (decimal n) ≡ some n
unfolding decimal digits_from
decimal-digits n = decimal_on-digits (suc n) n [] (omega arith)
