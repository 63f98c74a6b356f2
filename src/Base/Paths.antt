-- ===== src/Base/Paths.antt =====
-- The functions of Go's path/filepath that are lexical, on Unix.
pub mod Clean
use Prim.Native.Nat.{ℕ}
use mathlib.Core.Bool.{Bool, true, false, ◌||◌, ◌&&◌}
use mathlib.Core.List.{List, [], ◌∷◌, ◌++◌}
use falkn.Base.Tests.{if◌then◌else◌, ◌==◌}
use falkn.Base.Same.{same, nat_eq, list_eq}
use falkn.Base.Text.{Text, has_prefix, is_empty}
use falkn.Base.Strings.{split_by, join_with}

abbrev pub slash : Text
slash = b'/' ∷ []

abbrev pub dot : Text
dot = b'.' ∷ []

abbrev pub dot_dot : Text
dot_dot = b'.' ∷ b'.' ∷ []

-- filepath.IsAbs
unfoldable pub is_abs : Text → Bool
unfolding has_prefix
is_abs path = has_prefix path slash

-- `..` removes the last part; at the root it is dropped, and in front of a relative path it stays.
pop : Bool → List Text → List Text
pop rooted [] = if rooted then [] else dot_dot ∷ []
pop rooted (t ∷ ts) = if same t dot_dot then dot_dot ∷ t ∷ ts else ts

-- The parts so far, the last one first.
push_part : Bool → Text → List Text → List Text
unfolding pop
push_part rooted part stack =
    if same part [] || same part dot
    then stack
    else if same part dot_dot
    then pop rooted stack
    else part ∷ stack

push_parts : Bool → List Text → List Text → List Text
unfolding push_part
push_parts rooted [] stack = stack
push_parts rooted (p ∷ ps) stack = push_parts rooted ps (push_part rooted p stack)

abbrev turned : List Text → List Text → List Text
turned [] done = done
turned (t ∷ ts) done = turned ts (t ∷ done)

clean_parts : Bool → Text → List Text
unfolding split_by push_parts
clean_parts rooted path = turned (push_parts rooted (split_by b'/' path) []) []

abbrev or_dot : Text → Text
or_dot [] = dot
or_dot (c ∷ cs) = c ∷ cs

-- filepath.Clean
unfoldable pub clean : Text → Text
unfolding clean_parts join_with is_abs
clean path =
    if is_abs path
    then b'/' ∷ join_with slash (clean_parts true path)
    else or_dot (join_with slash (clean_parts false path))

-- filepath.Join of two elements
unfoldable pub join_path : Text → Text → Text
unfolding clean
join_path a b =
    if is_empty a
    then if is_empty b then [] else clean b
    else if is_empty b
    then clean a
    else clean (a ++ (b'/' ∷ b))

-- The path up to its last slash.
abbrev with_first : ℕ → Text → Text
with_first c [] = if c == b'/' then c ∷ [] else []
with_first c (d ∷ ds) = c ∷ d ∷ ds

through_slash : Text → Text
through_slash [] = []
through_slash (c ∷ cs) = with_first c (through_slash cs)

-- filepath.Dir
unfoldable pub dir_name : Text → Text
unfolding through_slash clean
dir_name path = clean (through_slash path)
