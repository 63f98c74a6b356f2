-- ===== src/Base/Strings.antt =====
-- The functions of Go's strings, strconv and path/filepath that the components call, on texts.
pub mod Split
pub mod Words
use falkn.Base.Tests.{ltb, leb, ◌==◌, if◌then◌else◌}
use falkn.Base.Text.{Text, is_space, is_empty, trim_left, trim_right, codes, has_prefix}
use falkn.Base.Lists.{length, drop}
use falkn.Base.Int.{ℤ, pos, negsuc}
use Prim.Native.Nat.{ℕ, zero, suc, ◌+◌, ◌-◌, ◌*◌, ◌/◌, ◌%◌}
use mathlib.Core.Bool.{Bool, ◌&&◌, ◌||◌, true, false}
use mathlib.Core.Option.{Option, none, some}
use mathlib.Core.List.{List, [], ◌∷◌, ◌++◌, map}

-- strings.ToLower on the letters that have a lower case letter of ASCII; the others stay outside ASCII.
unfoldable pub lower_rune : ℕ → ℕ
lower_rune c =
    if leb b'A' c && leb c b'Z'
    then c + 32
    else if c == 0x212a
    then b'k'
    else if c == 0x130
    then b'i'
    else c

unfoldable pub to_lower : Text → Text
unfolding lower_rune
to_lower = map lower_rune

-- strings.Fields
abbrev word_then : Text → List Text → List Text
word_then [] rest = rest
word_then (c ∷ cs) rest = (c ∷ cs) ∷ rest

fields_onto : Text → Text → List Text
unfolding is_space
fields_onto word [] = word_then word []
fields_onto word (c ∷ cs) = elim (is_space c) [
  | true ↦ word_then word (fields_onto [] cs)
  | false ↦ fields_onto (word ++ c ∷ []) cs
]

unfoldable pub fields : Text → List Text
unfolding fields_onto
fields = fields_onto []

-- strings.Split by one byte
split_parts : ℕ → Text → Text → List Text
split_parts by word [] = word ∷ []
split_parts by word (c ∷ cs) = elim (c == by) [
  | true ↦ word ∷ split_parts by [] cs
  | false ↦ split_parts by (word ++ c ∷ []) cs
]

unfoldable pub split_by : ℕ → Text → List Text
unfolding split_parts
split_by by = split_parts by []

-- strings.Join
unfoldable pub join_with : Text → List Text → Text
join_with sep [] = []
join_with sep (t ∷ []) = t
join_with sep (t ∷ u ∷ ts) = t ++ sep ++ join_with sep (u ∷ ts)

-- strings.TrimPrefix and strings.Trim
unfoldable pub trim_prefix : Text → Text → Text
unfolding has_prefix
trim_prefix s p = if has_prefix s p then drop (length p) s else s

unfoldable pub trim_both : (ℕ → Bool) → Text → Text
unfolding trim_left trim_right
trim_both p s = trim_right p (trim_left p s)

-- strconv.Atoi
pub digits_from : ℕ → Text → Option ℕ
digits_from n [] = some n
digits_from n (c ∷ cs) = elim (leb b'0' c && leb c b'9') [
  | true ↦ digits_from (10 * n + (c - b'0')) cs
  | false ↦ none
]

digits : Text → Option ℕ
unfolding digits_from
digits [] = none
digits (c ∷ cs) = digits_from 0 (c ∷ cs)

abbrev positive : Option ℕ → Option ℤ
positive none = none
positive (some n) = if ltb n 0x8000000000000000 then some (pos n) else none

abbrev negative : Option ℕ → Option ℤ
negative none = none
negative (some n) =
    if n == 0
    then some (pos 0)
    else if leb n 0x8000000000000000
    then some (negsuc (n - 1))
    else none

unfoldable pub atoi : Text → Option ℤ
unfolding digits
atoi [] = none
atoi (c ∷ cs) =
    if c == b'-'
    then negative (digits cs)
    else if c == b'+'
    then positive (digits cs)
    else positive (digits (c ∷ cs))

-- filepath.Base
abbrev is_slash : ℕ → Bool
is_slash c = c == b'/'

last_part : Text → Text → Text
last_part part [] = part
last_part part (c ∷ cs) = elim (is_slash c) [
  | true ↦ last_part [] cs
  | false ↦ last_part (part ++ c ∷ []) cs
]

unfoldable pub base_name : Text → Text
unfolding last_part trim_right
base_name path =
    if is_empty path
    then b'.' ∷ []
    else let part = last_part [] (trim_right is_slash path) in
      if is_empty part then b'/' ∷ [] else part

-- strconv.Itoa: the digits of a number, on fuel; a number has at most as many digits as it counts.
decimal_on : ℕ → ℕ → Text → Text
decimal_on zero n digits_behind = digits_behind
decimal_on (suc fuel) n digits_behind =
    let all = (b'0' + n % 10) ∷ digits_behind in
    elim (ltb n 10) [ true ↦ all | false ↦ decimal_on fuel (n / 10) all ]

unfoldable pub decimal : ℕ → Text
unfolding decimal_on
decimal n = decimal_on (suc n) n []

unfoldable pub decimal_ℤ : ℤ → Text
unfolding decimal
decimal_ℤ (pos n) = decimal n
decimal_ℤ (negsuc n) = b'-' ∷ decimal (suc n)
