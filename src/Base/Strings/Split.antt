-- ===== src/Base/Strings/Split.antt =====
-- What a text is split into.
use Prim.Native.Nat.{ℕ}
use mathlib.Core.Logic.{◌≢◌, inl, inr}
use mathlib.Core.List.{[], ◌∷◌, ◌++◌}
use native.Mathlib.Omega.{arith}
use falkn.Base.Tests.{◌==◌, Bool-cases}
use falkn.Base.Lists.{All, All-append}
use falkn.Base.Text.{Text}
use falkn.Base.Strings.{split_parts, split_by}

split_parts-Without :
    (by : ℕ) (word s : Text)
    → All (λ c. c ≢ by) word
    → All (All (λ c. c ≢ by)) (split_parts by word s)
unfolding split_parts
split_parts-Without by word [] h = (h, tt)
split_parts-Without by word (c ∷ cs) h = elim (Bool-cases (c == by)) [
  | inl e ↦ rw (split_parts, e) (h, split_parts-Without by [] cs tt)
  | inr e ↦
      rw (split_parts, e)
        (split_parts-Without by (word ++ c ∷ []) cs
          (All-append (λ c. c ≢ by) word (c ∷ []) h (ground arith, tt)))
]

-- The parts do not hold the byte that they are split by.
pub split_by-Without : (by : ℕ) (s : Text) → All (All (λ c. c ≢ by)) (split_by by s)
unfolding split_by
split_by-Without by s = split_parts-Without by [] s tt
