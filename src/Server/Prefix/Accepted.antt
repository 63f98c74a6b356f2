-- ===== src/Server/Prefix/Accepted.antt =====
-- Which bytes become the prefix, and what their names parse to.
use falkn.Base.{
  ℕ, zero, suc, ◌<◌, ◌≡◌, refl, sym, subst, inl, inr, Bool, true, false, ◌&&◌, ◌||◌, [], ◌∷◌, arith,
  ◌==◌, Bool-cases,
}
use falkn.Base.Text.{Text, is_empty, trim_space}
use falkn.Base.Strings.{to_lower}
use falkn.Server.Prefix.{
  Prefix, accepted, no_control_key, no_letter, taken, is_reserved, without_modifier, is_control_key,
  control_byte, prefix_of_byte, prefix_of_key, parse_attach_prefix, attach_prefix_name,
}

-- A control byte that no program loses without notice.
pub record IsFree (b : ℕ) : Type 0 where
  pub control : b < 32
  pub free : is_reserved b ≡ false

accepted_test : ℕ → Prefix → Bool
accepted_test b (accepted c) = c == b
accepted_test b _ = false

accepted_test-lem : (b : ℕ) (p : Prefix) → accepted_test b p ≡ true → p ≡ accepted b
unfolding accepted_test
accepted_test-lem b (accepted c) h = ground arith
accepted_test-lem b no_control_key h = cc
accepted_test-lem b no_letter h = cc
accepted_test-lem b (taken s) h = cc

-- The names of the bytes below `n` parse to them, save the reserved ones.
names_below : ℕ → Bool
names_below zero = true
names_below (suc n) =
    (is_reserved n || accepted_test n (parse_attach_prefix (attach_prefix_name n))) && names_below n

names_below-lem :
    (n b : ℕ)
    → names_below n ≡ true
    → b < n
    → is_reserved b ≡ false
    → parse_attach_prefix (attach_prefix_name b) ≡ accepted b
unfolding names_below
names_below-lem zero b h l f = absurd (omega arith)
names_below-lem (suc n) b h l f = elim (Bool-cases (b == n)) [
  | inl e ↦
      let q : n ≡ b = ground arith in
      subst (λ i. parse_attach_prefix (attach_prefix_name i) ≡ accepted i) q
        (accepted_test-lem n (parse_attach_prefix (attach_prefix_name n)) (
          let f' : is_reserved n ≡ false = subst (λ i. is_reserved i ≡ false) (sym q) f in
          ground (arith, f')))
  | inr e ↦ names_below-lem n b (ground arith) (ground arith) f
]

names_below-all : names_below 32 ≡ true
unfolding names_below accepted_test parse_attach_prefix attach_prefix_name is_reserved to_lower
    trim_space
names_below-all = refl

prefix_of_byte-IsFree : (c b : ℕ) → prefix_of_byte (control_byte c) ≡ accepted b → IsFree b
unfolding prefix_of_byte
prefix_of_byte-IsFree c b q = elim (Bool-cases (is_reserved (control_byte c))) [
  | inl r ↦ cc (rw r at q)
  | inr r ↦
      let e : control_byte c ≡ b = cc (rw r at q) in
      record { control = omega (arith, e); free = rw (← e) r }
]

prefix_of_key-IsFree : (key : Text) (b : ℕ) → prefix_of_key key ≡ accepted b → IsFree b
unfolding prefix_of_key
prefix_of_key-IsFree [] b q = cc
prefix_of_key-IsFree (c ∷ d ∷ cs) b q = cc
prefix_of_key-IsFree (c ∷ []) b q = elim (Bool-cases (is_control_key c)) [
  | inl k ↦ prefix_of_byte-IsFree c b (rw k at q)
  | inr k ↦ cc (rw k at q)
]

default-IsFree : (b : ℕ) → accepted 0x1c ≡ accepted b → IsFree b
unfolding is_reserved
default-IsFree b q =
    let e : 0x1c ≡ b = cc in record { control = omega (arith, e); free = rw (← e) refl }

parsed-IsFree : (value : Text) (b : ℕ) → parse_attach_prefix value ≡ accepted b → IsFree b
unfolding parse_attach_prefix
parsed-IsFree value b q = elim (Bool-cases (is_empty (trim_space value))) [
  | inl e ↦ default-IsFree b (rw (parse_attach_prefix, e) at q)
  | inr e ↦
      prefix_of_key-IsFree (without_modifier (to_lower (trim_space value))) b
        (rw (parse_attach_prefix, e) at q)
]

-- Every prefix that a value of FALKN_PREFIX gives is a control byte other than those of interrupt,
-- end-of-file and suspend, and the name that the help shows for it parses to the same byte.
pub parse_attach_prefix-IsFree :
    (value : Text) (b : ℕ)
    → parse_attach_prefix value ≡ accepted b
    → IsFree b × (parse_attach_prefix (attach_prefix_name b) ≡ accepted b)
parse_attach_prefix-IsFree value b q =
    let free = parsed-IsFree value b q in
    (free, names_below-lem 32 b names_below-all free.control free.free)
