-- ===== src/Base/Paths/Clean.antt =====
-- A cleaned absolute path is a list of names below the root.
use mathlib.Core.Path.{◌≡◌, refl}
use mathlib.Core.Logic.{◌≢◌, inl, inr}
use mathlib.Core.Bool.{true}
use mathlib.Core.List.{List, [], ◌∷◌, ◌++◌}
use falkn.Base.Tests.{Bool-cases}
use falkn.Base.Lists.{All}
use falkn.Base.Same.{same, same_iff, nat_eq, list_eq}
use falkn.Base.Text.{Text, has_prefix}
use falkn.Base.Strings.{split_by, join_with}
use falkn.Base.Strings.Split.{split_by-Without}
use falkn.Base.Paths.{
  slash, dot, dot_dot, is_abs, pop, push_part, push_parts, turned, clean_parts, clean, join_path,
}

-- A name of an entry of a directory.
pub record IsName (t : Text) : Type 0 where
  pub not_empty : t ≢ []
  pub not_dot : t ≢ dot
  pub not_dot_dot : t ≢ dot_dot
  pub no_slash : All (λ c. c ≢ b'/') t

push_part-IsName :
    (p : Text) (stack : List Text)
    → All (λ c. c ≢ b'/') p
    → All IsName stack
    → All IsName (push_part true p stack)
unfolding push_part pop
push_part-IsName p stack n h = elim (Bool-cases (same p [])) [
  | inl e ↦ rw e h
  | inr e ↦ elim (Bool-cases (same p dot)) [
    | inl d ↦ rw (e, d) h
    | inr d ↦ elim (Bool-cases (same p dot_dot)) [
      | inl u ↦ rw (e, d, u) (popped stack h)
      | inr u ↦
          let name : IsName p = record {
            not_empty = λ q. cc ((same_iff p []).1 q, e);
            not_dot = λ q. cc ((same_iff p dot).1 q, d);
            not_dot_dot = λ q. cc ((same_iff p dot_dot).1 q, u);
            no_slash = n;
          } in
          rw (e, d, u) (name, h)
    ]
  ]
]
  where
    popped : (ts : List Text) → All IsName ts → All IsName (pop true ts)
    popped [] h = tt
    popped (t ∷ ts) h = elim (Bool-cases (same t dot_dot)) [
      | inl u ↦ absurd (h.0.not_dot_dot ((same_iff t dot_dot).0 u))
      | inr u ↦ rw u h.1
    ]

push_parts-IsName :
    (ps stack : List Text)
    → All (All (λ c. c ≢ b'/')) ps
    → All IsName stack
    → All IsName (push_parts true ps stack)
unfolding push_parts
push_parts-IsName [] stack n h = h
push_parts-IsName (p ∷ ps) stack n h =
    push_parts-IsName ps (push_part true p stack) n.1 (push_part-IsName p stack n.0 h)

turned-IsName :
    (ts done : List Text) → All IsName ts → All IsName done → All IsName (turned ts done)
turned-IsName [] done h k = k
turned-IsName (t ∷ ts) done h k = turned-IsName ts (t ∷ done) h.1 (h.0, k)

-- Names below the root, joined.
pub IsRooted : Text → Type 0
IsRooted path = (names : List Text) × (path ≡ b'/' ∷ join_with slash names) × All IsName names

pub clean-IsRooted : (path : Text) → is_abs path ≡ true → IsRooted (clean path)
unfolding IsRooted clean clean_parts
clean-IsRooted path h = (
  clean_parts true path,
  rw h refl,
  turned-IsName (push_parts true (split_by b'/' path) []) []
      (push_parts-IsName (split_by b'/' path) [] (split_by-Without b'/' path) tt) tt,
)

is_abs-append : (a b : Text) → is_abs a ≡ true → is_abs (a ++ b) ≡ true
unfolding is_abs has_prefix
is_abs-append [] b h = cc
is_abs-append (c ∷ cs) b h = h

pub join_path-IsRooted : (a b : Text) → is_abs a ≡ true → IsRooted (join_path a b)
unfolding join_path is_abs has_prefix
join_path-IsRooted [] b h = cc
join_path-IsRooted (c ∷ cs) [] h = clean-IsRooted (c ∷ cs) h
join_path-IsRooted (c ∷ cs) (d ∷ ds) h =
    clean-IsRooted (c ∷ cs ++ (b'/' ∷ d ∷ ds)) (is_abs-append (c ∷ cs) (b'/' ∷ d ∷ ds) h)

-- A path of names below the root begins with the root.
pub IsRooted-is_abs : (path : Text) → IsRooted path → is_abs path ≡ true
unfolding IsRooted is_abs has_prefix
IsRooted-is_abs path (names, e, h) = rw e refl
