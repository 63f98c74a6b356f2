-- ===== src/Workspace/Resolved.antt =====
-- What Resolve accepts.
use falkn.Base.{
  ◌≡◌, refl, inl, inr, true, not, Option, none, some, same, nat_eq, list_eq, Bool-cases, if_cases,
  arith,
}
use falkn.Base.Text.{Text, trim_space, is_empty, has_prefix}
use falkn.Base.Strings.{trim_prefix}
use falkn.Base.Paths.{is_abs, clean}
use falkn.Base.Paths.Clean.{IsRooted, clean-IsRooted, join_path-IsRooted, IsRooted-is_abs}
use falkn.Workspace.{
  Files, Stat, directory, other_file, stat_failed, found, expand, resolved, resolve_in, resolve,
  home_sign, home_prefix,
}

-- Whatever is asked for, the path to look at begins with the root, if the home directory's does.
expand-is_abs : (home value : Text) → is_abs home ≡ true → is_abs (expand home value) ≡ true
unfolding expand
expand-is_abs home value h =
    let P = λ (v : Text). is_abs v ≡ true in
    if_cases P (same value home_sign) _ _ (λ _. h)
      (λ _.
        if_cases P (has_prefix value home_prefix) _ _
          (λ _. IsRooted-is_abs _ (join_path-IsRooted home (trim_prefix value home_prefix) h))
          (λ _.
            if_cases P (not (is_abs value)) _ _
              (λ _. IsRooted-is_abs _ (join_path-IsRooted home value h)) (λ c. ground (arith, c))))

resolved-found :
    (path p : Text) (s : Stat) → resolved path s ≡ found p → (path ≡ p) × (s ≡ directory)
unfolding resolved
resolved-found path p directory q = (cc, refl)
resolved-found path p other_file q = cc
resolved-found path p (stat_failed e) q = cc

resolve_in-found :
    (files : Files) (value : Text) (o : Option Text) (p : Text)
    → ((home : Text) → o ≡ some home → is_abs home ≡ true)
    → resolve_in files value o ≡ found p
    → IsRooted p × (files.stat p ≡ directory)
unfolding resolve_in
resolve_in-found files value none p h q = cc
resolve_in-found files value (some home) p h q =
    let path = clean (expand home value) in
    let (e, is_directory) = resolved-found path p (files.stat path) q in
    let rooted = clean-IsRooted (expand home value) (expand-is_abs home value (h home refl)) in
    rw (← e) (rooted, is_directory)

-- A path that Resolve accepts is that of a directory, and is written as names below the root: with no
-- empty name, no `.` and no `..`, whatever was asked for. The home directory's path is absolute.
pub resolve-IsRooted :
    (files : Files) (value p : Text)
    → ((home : Text) → files.home ≡ some home → is_abs home ≡ true)
    → resolve files value ≡ found p
    → IsRooted p × (files.stat p ≡ directory)
unfolding resolve
resolve-IsRooted files value p h q = elim (Bool-cases (is_empty (trim_space value))) [
  | inl e ↦ cc (rw e at q)
  | inr e ↦ resolve_in-found files (trim_space value) files.home p h (rw e at q)
]
