-- ===== src/Base/Same.antt =====
-- Equality tests as an interface, with the instances for numbers and for lists.
use Prim.Native.Nat.{ℕ}
use mathlib.Core.Path.{◌≡◌, refl}
use mathlib.Core.Logic.{◌↔◌, ◌≢◌, inl, inr}
use mathlib.Core.Bool.{Bool, true, false, ◌&&◌}
use mathlib.Core.List.{List, [], ◌∷◌}
use native.Mathlib.Omega.{arith}
use falkn.Base.Tests.{◌==◌, ==_iff, Bool-cases}

pub record Eq {ℓ} (A : Type ℓ) : Type ℓ where
  pub test : A → A → Bool
  pub test_iff : (a b : A) → (test a b ≡ true) ↔ (a ≡ b)

abbrev pub same {ℓ} : {A : Type ℓ} ⦃e : Eq A⦄ → A → A → Bool
same ⦃e⦄ = e.test

pub same_iff {ℓ} : {A : Type ℓ} ⦃e : Eq A⦄ (a b : A) → (same a b ≡ true) ↔ (a ≡ b)
same_iff ⦃e⦄ = e.test_iff

pub same_self {ℓ} : {A : Type ℓ} ⦃e : Eq A⦄ (a : A) → same a a ≡ true
same_self ⦃e⦄ a = (e.test_iff a a).1 refl

pub same_ne {ℓ} : {A : Type ℓ} ⦃e : Eq A⦄ (a b : A) → a ≢ b → same a b ≡ false
same_ne ⦃e⦄ a b n = elim (Bool-cases (same a b)) [
  | inl q ↦ absurd (n ((e.test_iff a b).0 q))
  | inr q ↦ q
]

abbrev nat_beq : ℕ → ℕ → Bool
nat_beq a b = a == b

instance abbrev pub nat_eq : Eq ℕ
nat_eq = record { test = nat_beq; test_iff = ==_iff }

unfoldable pub list_beq {ℓ} : {A : Type ℓ} ⦃e : Eq A⦄ → List A → List A → Bool
list_beq [] [] = true
list_beq (x ∷ xs) (y ∷ ys) = same x y && list_beq xs ys
list_beq _ _ = false

pub list_beq_iff {ℓ} : {A : Type ℓ} ⦃e : Eq A⦄ (a b : List A) → (list_beq a b ≡ true) ↔ (a ≡ b)
unfolding list_beq
list_beq_iff [] [] = ground arith
list_beq_iff [] (y ∷ b) = ground arith
list_beq_iff (x ∷ a) [] = ground arith
list_beq_iff ⦃e⦄ (x ∷ a) (y ∷ b) = ground (arith, e.test_iff x y, list_beq_iff a b)

instance abbrev pub list_eq {ℓ} : {A : Type ℓ} ⦃e : Eq A⦄ → Eq (List A)
list_eq = record { test = list_beq; test_iff = list_beq_iff }
