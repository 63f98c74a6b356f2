-- ===== src/Workspace/Tests.antt =====
-- Runs of Resolve and List, and an input at which the theorem on Resolve holds.
use falkn.Base.{
  ◌≡◌, refl, true, false, [], ◌∷◌, Option, some, none, if◌then◌else◌, same, nat_eq, list_eq, subst,
  list_beq,
}
use falkn.Base.Text.{Text, codes}
use falkn.Base.Paths.{clean, is_abs, dir_name, slash}
use falkn.Base.Paths.Clean.{IsRooted}
use falkn.Workspace.{
  Files, Entry, directory, other_file, entries, found, refused, not_directory, required, resolve,
  list_directories,
}
use falkn.Workspace.Resolved.{resolve-IsRooted}

abbrev entry_named : Text → Entry
entry_named n = record { name = n; is_dir = true; is_symlink = false }

abbrev host : Files
host = record {
  home = some (codes "/home/me");
  stat = λ p. if same p (codes "/etc/passwd") then other_file else directory;
  read_dir = λ p. entries (
      entry_named (codes ".git")
      ∷ entry_named (codes "src")
      ∷ record { name = codes "a.txt"; is_dir = false; is_symlink = false }
      ∷ entry_named (codes "Bin")
      ∷ []);
}

clean_runs :
    (clean (codes "/a/./b//../../../c/") ≡ codes "/c")
    × (clean (codes "../x/../..") ≡ codes "../..")
    × (clean [] ≡ codes ".")
unfolding clean list_beq
clean_runs = (refl, refl, refl)

resolve_home : resolve host (codes " ~/src/../doc ") ≡ found (codes "/home/me/doc")
unfolding resolve list_beq
resolve_home = refl

resolve_file : resolve host (codes "../../etc/passwd") ≡ refused not_directory
unfolding resolve list_beq
resolve_file = refl

resolve_blank : resolve host (codes "  ") ≡ refused required
unfolding resolve
resolve_blank = refl

list_runs :
    list_directories (λ c. c) host (codes "/srv")
    ≡ found record {
      path = codes "/srv";
      parent_path = slash;
      home_path = codes "/home/me";
      directories =
          record { name = codes "Bin"; path = codes "/srv/Bin" }
          ∷ record { name = codes "src"; path = codes "/srv/src" }
          ∷ record { name = codes ".git"; path = codes "/srv/.git" }
          ∷ [];
      truncated = false;
    }
unfolding list_directories list_beq dir_name
list_runs = refl

abbrev AbsoluteHome : Option Text → Type 0
AbsoluteHome none = Unit
AbsoluteHome (some home) = is_abs home ≡ true

host_home : (home : Text) → host.home ≡ some home → is_abs home ≡ true
unfolding is_abs
host_home home q = subst AbsoluteHome q refl

resolve-IsRooted_example :
    IsRooted (codes "/home/me/doc") × (host.stat (codes "/home/me/doc") ≡ directory)
resolve-IsRooted_example =
    resolve-IsRooted host (codes " ~/src/../doc ") (codes "/home/me/doc") host_home resolve_home
