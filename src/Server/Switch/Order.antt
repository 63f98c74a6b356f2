-- ===== src/Server/Switch/Order.antt =====
-- The order of the switcher: session_comes_before is a strict order, and switchable_sessions is
-- sorted by it.
use Prim.Native.String
use Prim.Native.String.{String, compare}
use Prim.Native.String.compare
use Prim.Native.Nat.{Ordering, compare as compare_ℕ}
use Prim.Native.Nat.compare as compare_ℕ
use Prim.Native.Char.{code}
use falkn.Base.{
  ℕ, zero, suc, ◌≡◌, ◌<◌, ◌⊎◌, ◌↔◌, refl, sym, ap, subst, inl, inr, Bool, true, false, List, [],
  ◌∷◌, All, All-each, arith, ltb, Bool-cases, ◌==◌, if_cases,
}
use falkn.Server.Switch.Targets.{insert_before-All}
use falkn.Session.Live.{SessionRecord}
use falkn.Server.Switch.{
  session_comes_before, id_before, insert_before, sort_oldest, switchable_sessions, running_records,
}

-- The lexicographic order of identifiers.
pub Lex : String → String → Type 0
Lex String.[] String.[] = ⊥
Lex String.[] (String.◌∷◌ d t) = Unit
Lex (String.◌∷◌ c s) String.[] = ⊥
Lex (String.◌∷◌ c s) (String.◌∷◌ d t) = (code c < code d) ⊎ ((code c ≡ code d) × Lex s t)

-- What the comparison of two numbers answers.
data Compared (m n : ℕ) : Ordering → Type 0 where
  less : m < n → Compared m n Ordering.lt
  equal : m ≡ n → Compared m n Ordering.eq
  greater : n < m → Compared m n Ordering.gt

Compared-suc : {m n : ℕ} {o : Ordering} → Compared m n o → Compared (suc m) (suc n) o
Compared-suc (less h) = less (omega (arith, h))
Compared-suc (equal h) = equal (ap suc h)
Compared-suc (greater h) = greater (omega (arith, h))

compared : (m n : ℕ) → Compared m n (compare_ℕ m n)
compared zero zero = subst (Compared zero zero) (sym compare_ℕ.zero-zero) (equal refl)
compared zero (suc n) =
    subst (Compared zero (suc n)) (sym (compare_ℕ.zero-suc n)) (less (omega arith))
compared (suc m) zero =
    subst (Compared (suc m) zero) (sym (compare_ℕ.suc-zero m)) (greater (omega arith))
compared (suc m) (suc n) =
    subst (Compared (suc m) (suc n)) (sym (compare_ℕ.suc-suc m n)) (Compared-suc (compared m n))

-- Two numbers stand in one of three orders.
three_ways : (m n : ℕ) → (m < n) ⊎ ((m ≡ n) ⊎ (n < m))
three_ways m n = of (compared m n)
  where
    of : {o : Ordering} → Compared m n o → (m < n) ⊎ ((m ≡ n) ⊎ (n < m))
    of (less h) = inl h
    of (equal h) = inr (inl h)
    of (greater h) = inr (inr h)

abbrev is_lt : Ordering → Bool
is_lt Ordering.lt = true
is_lt _ = false

Decides : Type 0 → Ordering → Type 0
Decides P o = (is_lt o ≡ true) ↔ P

then-Decides :
    {m n : ℕ} {o : Ordering} (p : Ordering) (P : Type 0)
    → Compared m n o
    → Decides P p
    → Decides ((m < n) ⊎ ((m ≡ n) × P)) (String.then o p)
unfolding Decides
then-Decides p P (less h) d = (λ _. inl h, λ _. refl)
then-Decides p P (equal h) d =
    (λ q. inr (h, d.0 q), λ q. elim q [ inl l ↦ absurd (omega (arith, l, h)) | inr e ↦ d.1 e.1 ])
then-Decides p P (greater h) d = (
  λ q. cc,
  λ q. elim q [
    | inl l ↦ absurd (omega (arith, l, h))
    | inr e ↦ let z = e.0 in absurd (omega (arith, z, h))
  ],
)

Lex-Decides : (s t : String) → Decides (Lex s t) (compare s t)
unfolding Lex Decides
Lex-Decides String.[] String.[] = subst (Decides ⊥) (sym compare.nil-nil) (λ q. cc, λ q. absurd q)
Lex-Decides String.[] (String.◌∷◌ d t) =
    subst (Decides Unit) (sym (compare.nil-cons d t)) (λ q. tt, λ q. refl)
Lex-Decides (String.◌∷◌ c s) String.[] =
    subst (Decides ⊥) (sym (compare.cons-nil c s)) (λ q. cc, λ q. absurd q)
Lex-Decides (String.◌∷◌ c s) (String.◌∷◌ d t) =
    subst (Decides (Lex (String.◌∷◌ c s) (String.◌∷◌ d t))) (sym (compare.cons-cons c d s t))
      (then-Decides (compare s t) (Lex s t) (compared (code c) (code d)) (Lex-Decides s t))

Lex-cases : (a b c : String) → Lex a c → Lex a b ⊎ Lex b c
unfolding Lex
Lex-cases String.[] String.[] c h = inr h
Lex-cases String.[] (String.◌∷◌ y b) c h = inl tt
Lex-cases (String.◌∷◌ x a) b String.[] h = absurd h
Lex-cases (String.◌∷◌ x a) String.[] (String.◌∷◌ z c) h = inr tt
Lex-cases (String.◌∷◌ x a) (String.◌∷◌ y b) (String.◌∷◌ z c) (inl h) =
    elim (three_ways (code x) (code y)) [
      | inl l ↦ inl (inl l)
      | inr (inl e) ↦ inr (inl (omega (arith, e, h)))
      | inr (inr l) ↦ inr (inl (omega (arith, l, h)))
    ]
Lex-cases (String.◌∷◌ x a) (String.◌∷◌ y b) (String.◌∷◌ z c) (inr h) =
    let same_code = h.0 in
    elim (three_ways (code x) (code y)) [
      | inl l ↦ inl (inl l)
      | inr (inl e) ↦ elim (Lex-cases a b c h.1) [
        | inl k ↦ inl (inr (e, k))
        | inr k ↦ inr (inr (omega (arith, e, same_code), k))
      ]
      | inr (inr l) ↦ inr (inl (omega (arith, l, same_code)))
    ]

Lex-irreflexive : (a : String) → Lex a a → ⊥
unfolding Lex
Lex-irreflexive String.[] h = h
Lex-irreflexive (String.◌∷◌ x a) (inl h) = absurd (omega (arith, h))
Lex-irreflexive (String.◌∷◌ x a) (inr h) = Lex-irreflexive a h.1

Lex-asymmetric : (a b : String) → Lex a b → Lex b a → ⊥
unfolding Lex
Lex-asymmetric String.[] String.[] h k = h
Lex-asymmetric String.[] (String.◌∷◌ y b) h k = k
Lex-asymmetric (String.◌∷◌ x a) String.[] h k = h
Lex-asymmetric (String.◌∷◌ x a) (String.◌∷◌ y b) (inl h) (inl k) = absurd (omega (arith, h, k))
Lex-asymmetric (String.◌∷◌ x a) (String.◌∷◌ y b) (inl h) (inr k) =
    let e = k.0 in absurd (omega (arith, h, e))
Lex-asymmetric (String.◌∷◌ x a) (String.◌∷◌ y b) (inr h) (inl k) =
    let e = h.0 in absurd (omega (arith, e, k))
Lex-asymmetric (String.◌∷◌ x a) (String.◌∷◌ y b) (inr h) (inr k) = Lex-asymmetric a b h.1 k.1

-- `l` comes before `r`: it is older, or as old with the smaller identifier.
Comes : SessionRecord → SessionRecord → Type 0
Comes l r = (l.created_at < r.created_at) ⊎ ((l.created_at ≡ r.created_at) × Lex l.id r.id)

id_before_iff : (a b : String) → (id_before a b ≡ true) ↔ Lex a b
unfolding id_before Decides
id_before_iff a b = Lex-Decides a b

Comes-iff : (l r : SessionRecord) → (session_comes_before l r ≡ true) ↔ Comes l r
unfolding session_comes_before Comes
Comes-iff l r =
    let ids = id_before_iff l.id r.id in
    if_cases
      (λ (b : Bool).
        (b ≡ true)
        ↔ ((l.created_at < r.created_at) ⊎ ((l.created_at ≡ r.created_at) × Lex l.id r.id)))
      (l.created_at == r.created_at) (id_before l.id r.id) (ltb l.created_at r.created_at)
      (λ e.
        let q : l.created_at ≡ r.created_at = ground (arith, e) in
        (
          λ h. inr (q, ids.0 h),
          λ h. elim h [ inl k ↦ absurd (omega (arith, k, q)) | inr k ↦ ids.1 k.1 ],
        ))
      (λ e. (
        λ h. inl (ground (arith, h)),
        λ h. elim h [ inl k ↦ ground (arith, k) | inr k ↦ let q = k.0 in ground (arith, e, q) ],
      ))

Comes-cases : (a b c : SessionRecord) → Comes a c → Comes a b ⊎ Comes b c
unfolding Comes
Comes-cases a b c (inl h) = elim (three_ways a.created_at b.created_at) [
  | inl l ↦ inl (inl l)
  | inr (inl e) ↦ inr (inl (omega (arith, e, h)))
  | inr (inr l) ↦ inr (inl (omega (arith, l, h)))
]
Comes-cases a b c (inr h) =
    let same_time = h.0 in
    elim (three_ways a.created_at b.created_at) [
      | inl l ↦ inl (inl l)
      | inr (inl e) ↦ elim (Lex-cases a.id b.id c.id h.1) [
        | inl k ↦ inl (inr (e, k))
        | inr k ↦ inr (inr (omega (arith, e, same_time), k))
      ]
      | inr (inr l) ↦ inr (inl (omega (arith, l, same_time)))
    ]

Comes-asymmetric : (a b : SessionRecord) → Comes a b → Comes b a → ⊥
unfolding Comes
Comes-asymmetric a b (inl h) (inl k) = absurd (omega (arith, h, k))
Comes-asymmetric a b (inl h) (inr k) = let e = k.0 in absurd (omega (arith, h, e))
Comes-asymmetric a b (inr h) (inl k) = let e = h.0 in absurd (omega (arith, e, k))
Comes-asymmetric a b (inr h) (inr k) = Lex-asymmetric a.id b.id h.1 k.1

-- `b` does not come before `a`.
abbrev pub IsFrom : SessionRecord → SessionRecord → Type 0
IsFrom a b = session_comes_before b a ≡ false

pub IsFrom-asymmetric : (a b : SessionRecord) → session_comes_before a b ≡ true → IsFrom a b
IsFrom-asymmetric a b h = elim (Bool-cases (session_comes_before b a)) [
  | inl k ↦ absurd (Comes-asymmetric a b ((Comes-iff a b).0 h) ((Comes-iff b a).0 k))
  | inr k ↦ k
]

pub IsFrom-self : (a : SessionRecord) → IsFrom a a
IsFrom-self a = elim (Bool-cases (session_comes_before a a)) [
  | inl h ↦ IsFrom-asymmetric a a h
  | inr h ↦ h
]

pub IsFrom-chain : (a b c : SessionRecord) → IsFrom a b → IsFrom b c → IsFrom a c
IsFrom-chain a b c h k = elim (Bool-cases (session_comes_before c a)) [
  | inl q ↦ elim (Comes-cases c b a ((Comes-iff c a).0 q)) [
    | inl l ↦ let x = (Comes-iff c b).1 l in cc
    | inr l ↦ let x = (Comes-iff b a).1 l in cc
  ]
  | inr q ↦ q
]

-- No session of the list comes before one that stands in front of it.
abbrev pub IsSorted : List SessionRecord → Type 0
IsSorted [] = Unit
IsSorted (r ∷ rs) = All (IsFrom r) rs × IsSorted rs

insert_before-IsSorted :
    (r : SessionRecord) (rs : List SessionRecord) → IsSorted rs → IsSorted (insert_before r rs)
unfolding insert_before
insert_before-IsSorted r [] h = (tt, tt)
insert_before-IsSorted r (q ∷ qs) h =
    if_cases IsSorted (session_comes_before q r) (q ∷ insert_before r qs) (r ∷ q ∷ qs)
      (λ b. (
        insert_before-All (IsFrom q) r qs (IsFrom-asymmetric q r b) h.0,
        insert_before-IsSorted r qs h.1,
      ))
      (λ b. ((b, All-each (λ x k. IsFrom-chain r q x b k) qs h.0), h))

sort_oldest-IsSorted : (rs : List SessionRecord) → IsSorted (sort_oldest rs)
unfolding sort_oldest
sort_oldest-IsSorted [] = tt
sort_oldest-IsSorted (r ∷ rs) = insert_before-IsSorted r (sort_oldest rs) (sort_oldest-IsSorted rs)

-- The switcher's order.
pub switchable_sessions-IsSorted :
    (records : List SessionRecord) → IsSorted (switchable_sessions records)
unfolding switchable_sessions
switchable_sessions-IsSorted records = sort_oldest-IsSorted (running_records records)
