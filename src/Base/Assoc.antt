-- ===== src/Base/Assoc.antt =====
-- Go maps as association lists, for keys that can be compared.
use mathlib.Core.Path.{◌≡◌, refl, sym, subst}
use mathlib.Core.Logic.{inl, inr}
use mathlib.Core.Option.{Option, none, some}
use mathlib.Core.List.{List, [], ◌∷◌}
use native.Mathlib.Omega.{arith}
use falkn.Base.Tests.{if◌then◌else◌, Bool-cases}
use falkn.Base.Same.{Eq, same, same_self}

abbrev pub map_some {κ} : {V : Type κ} → (V → V) → Option V → Option V
map_some f none = none
map_some f (some v) = some (f v)

module _ {ℓ κ} {K : Type ℓ} {V : Type κ} ⦃e : Eq K⦄ where
  unfoldable pub lookup : K → List (K × V) → Option V
  lookup k [] = none
  lookup k ((j, v) ∷ m) = if same j k then some v else lookup k m

  unfoldable pub insert : K → V → List (K × V) → List (K × V)
  insert k v [] = (k, v) ∷ []
  insert k v ((j, w) ∷ m) = if same j k then (k, v) ∷ m else (j, w) ∷ insert k v m

  unfoldable pub remove : K → List (K × V) → List (K × V)
  remove k [] = []
  remove k ((j, v) ∷ m) = let rest = remove k m in if same j k then rest else (j, v) ∷ rest

  -- A change of the value behind a pointer that the map holds.
  unfoldable pub adjust : K → (V → V) → List (K × V) → List (K × V)
  adjust k f [] = []
  adjust k f ((j, v) ∷ m) = if same j k then (j, f v) ∷ m else (j, v) ∷ adjust k f m

  pub lookup-insert :
      (k j : K) (v : V) (m : List (K × V))
      → lookup j (insert k v m) ≡ (if same k j then some v else lookup j m)
  unfolding lookup insert
  lookup-insert k j v [] = refl
  lookup-insert k j v ((i, w) ∷ m) =
      ground (arith, e.test_iff k j, e.test_iff i k, e.test_iff i j, lookup-insert k j v m)

  pub lookup-remove :
      (k j : K) (m : List (K × V)) → lookup j (remove k m) ≡ (if same k j then none else lookup j m)
  unfolding lookup remove
  lookup-remove k j [] = ground arith
  lookup-remove k j ((i, w) ∷ m) =
      ground (arith, e.test_iff k j, e.test_iff i k, e.test_iff i j, lookup-remove k j m)

  pub lookup-adjust :
      (k j : K) (f : V → V) (m : List (K × V))
      → lookup j (adjust k f m) ≡ (if same k j then map_some f (lookup j m) else lookup j m)
  unfolding lookup adjust
  lookup-adjust k j f [] = ground arith
  lookup-adjust k j f ((i, w) ∷ m) =
      ground (arith, e.test_iff k j, e.test_iff i k, e.test_iff i j, lookup-adjust k j f m)

module _ {ℓ κ} {K : Type ℓ} {V : Type κ} ⦃e : Eq K⦄ where
  -- Every entry satisfies `P`.
  abbrev pub Entries {μ} : (K → V → Type μ) → List (K × V) → Type μ
  Entries P [] = Unit
  Entries P ((k, v) ∷ m) = P k v × Entries P m

  pub Entries-insert {μ} :
      (P : K → V → Type μ) (k : K) (v : V) (m : List (K × V))
      → P k v
      → Entries P m
      → Entries P (insert k v m)
  unfolding insert
  Entries-insert P k v [] p h = (p, tt)
  Entries-insert P k v ((j, w) ∷ m) p h = ground (arith, Entries-insert P k v m p h.1)

  pub Entries-remove {μ} :
      (P : K → V → Type μ) (k : K) (m : List (K × V)) → Entries P m → Entries P (remove k m)
  unfolding remove
  Entries-remove P k [] h = tt
  Entries-remove P k ((j, w) ∷ m) h = ground (arith, Entries-remove P k m h.1)

  pub Entries-adjust {μ} :
      (P : K → V → Type μ) (k : K) (f : V → V) (m : List (K × V))
      → ((j : K) (v : V) → P j v → P j (f v))
      → Entries P m
      → Entries P (adjust k f m)
  unfolding adjust
  Entries-adjust P k f [] g h = tt
  Entries-adjust P k f ((j, w) ∷ m) g h = ground (arith, Entries-adjust P k f m g h.1, g j w h.0)

  pub Entries-lookup {μ} :
      (P : K → V → Type μ) (k : K) (v : V) (m : List (K × V))
      → Entries P m
      → lookup k m ≡ some v
      → P k v
  unfolding lookup
  Entries-lookup P k v [] h q = cc
  Entries-lookup P k v ((j, w) ∷ m) h q = ground (arith, e.test_iff j k, Entries-lookup P k v m h.1)

  -- A change at `k` alone, where what `k` leads to is known.
  pub Entries-adjust_found {μ} :
      (P : K → V → Type μ) (k : K) (f : V → V) (m : List (K × V))
      → ((v : V) → lookup k m ≡ some v → P k v → P k (f v))
      → Entries P m
      → Entries P (adjust k f m)
  unfolding adjust lookup
  Entries-adjust_found P k f [] g h = tt
  Entries-adjust_found P k f ((j, w) ∷ m) g h = elim (Bool-cases (same j k)) [
    | inl s ↦
        let q = (e.test_iff j k).0 s in
        rw s (subst (λ i. P i (f w)) (sym q) (g w (rw s refl) (subst (λ i. P i w) q h.0)), h.1)
    | inr s ↦ rw s (h.0, Entries-adjust_found P k f m (λ v q p. g v (rw s q) p) h.1)
  ]

  pub lookup-adjust_self :
      (k : K) (f : V → V) (m : List (K × V)) → lookup k (adjust k f m) ≡ map_some f (lookup k m)
  lookup-adjust_self k f m = rw (lookup-adjust k k f m, same_self k) refl

  pub lookup-remove_self : (k : K) (m : List (K × V)) → lookup k (remove k m) ≡ none
  lookup-remove_self k m = rw (lookup-remove k k m, same_self k) refl

  pub lookup-insert_self : (k : K) (v : V) (m : List (K × V)) → lookup k (insert k v m) ≡ some v
  lookup-insert_self k v m = rw (lookup-insert k k v m, same_self k) refl
