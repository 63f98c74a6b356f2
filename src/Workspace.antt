-- ===== src/Workspace.antt =====
-- The directories of the host (internal/workspace/directories.go): Resolve, List, classifyError.
-- What the files are is an argument: the home directory, what Stat says of a path and what ReadDir
-- gives.
pub mod Resolved
mod Tests
use falkn.Base.{
  ℕ, Bool, true, false, not, ◌&&◌, ◌||◌, List, [], ◌∷◌, Option, none, some, length, take, map, ltb,
  ◌==◌, if◌then◌else◌, same, nat_eq, list_eq,
}
use falkn.Base.Text.{Text, trim_space, is_empty, has_prefix}
use falkn.Base.Strings.{trim_prefix}
use falkn.Base.Paths.{is_abs, clean, join_path, dir_name}

pub data ErrorKind : Type 0 where
  required not_found not_directory permission unavailable : ErrorKind

-- The failures of the file system that classifyError tells apart.
pub data Failure : Type 0 where
  not_exist not_permitted other_failure : Failure

pub data Stat : Type 0 where
  directory other_file : Stat
  stat_failed : Failure → Stat

pub record Entry : Type 0 where
  pub name : Text
  pub is_dir : Bool
  pub is_symlink : Bool

pub data DirEntries : Type 0 where
  entries : List Entry → DirEntries
  read_failed : Failure → DirEntries

pub record Files : Type 0 where
  pub home : Option Text
  pub stat : Text → Stat
  pub read_dir : Text → DirEntries

-- An answer, or the kind of a PathError.
pub data Checked {ℓ} (A : Type ℓ) : Type ℓ where
  found : A → Checked A
  refused : ErrorKind → Checked A

unfoldable pub classify_error : Failure → ErrorKind
classify_error not_exist = not_found
classify_error not_permitted = permission
classify_error other_failure = unavailable

abbrev home_sign : Text
home_sign = b'~' ∷ []

abbrev home_prefix : Text
home_prefix = b'~' ∷ b'/' ∷ []

-- The switch of Resolve, before Clean.
unfoldable pub expand : Text → Text → Text
unfolding has_prefix trim_prefix is_abs join_path
expand home value =
    if same value home_sign
    then home
    else if has_prefix value home_prefix
    then join_path home (trim_prefix value home_prefix)
    else if not (is_abs value)
    then join_path home value
    else value

unfoldable pub resolved : Text → Stat → Checked Text
resolved path directory = found path
resolved path other_file = refused not_directory
resolved path (stat_failed e) = refused (classify_error e)

unfoldable pub resolve_in : Files → Text → Option Text → Checked Text
unfolding expand clean resolved
resolve_in files value none = refused unavailable
resolve_in files value (some home) =
    let path = clean (expand home value) in resolved path (files.stat path)

unfoldable pub resolve : Files → Text → Checked Text
unfolding resolve_in trim_space
resolve files requested =
    let value = trim_space requested in
    if is_empty value then refused required else resolve_in files value files.home

pub record Directory : Type 0 where
  pub name : Text
  pub path : Text

pub record Listing : Type 0 where
  pub path : Text
  pub parent_path : Text
  pub home_path : Text
  pub directories : List Directory
  pub truncated : Bool

abbrev is_directory : Stat → Bool
is_directory directory = true
is_directory other_file = false
is_directory (stat_failed e) = false

-- A symbolic link counts when it leads to a directory.
unfoldable pub leads_to_directory : Files → Text → Entry → Bool
leads_to_directory files path e =
    if e.is_symlink then is_directory (files.stat (join_path path e.name)) else e.is_dir

unfoldable pub child_directories : Files → Text → List Entry → List Directory
unfolding leads_to_directory
child_directories files path [] = []
child_directories files path (e ∷ es) =
    let rest = child_directories files path es in
    if leads_to_directory files path e
    then record { name = e.name; path = join_path path e.name } ∷ rest
    else rest

-- `<` on strings
unfoldable pub text_before : Text → Text → Bool
text_before [] [] = false
text_before [] (d ∷ ds) = true
text_before (c ∷ cs) [] = false
text_before (c ∷ cs) (d ∷ ds) = let later = text_before cs ds in if c == d then later else ltb c d

abbrev pub is_hidden : Directory → Bool
is_hidden d = has_prefix d.name (b'.' ∷ [])

-- The order of the listing; `lower` is strings.ToLower on a rune.
unfoldable pub directory_before : (ℕ → ℕ) → Directory → Directory → Bool
unfolding text_before
directory_before lower l r =
    if is_hidden l
    then is_hidden r && text_before (map lower l.name) (map lower r.name)
    else is_hidden r || text_before (map lower l.name) (map lower r.name)

unfoldable pub insert_directory : (ℕ → ℕ) → Directory → List Directory → List Directory
unfolding directory_before
insert_directory lower d [] = d ∷ []
insert_directory lower d (e ∷ es) =
    let later = insert_directory lower d es in
    if directory_before lower e d then e ∷ later else d ∷ e ∷ es

unfoldable pub sort_directories : (ℕ → ℕ) → List Directory → List Directory
unfolding insert_directory
sort_directories lower [] = []
sort_directories lower (d ∷ ds) = insert_directory lower d (sort_directories lower ds)

abbrev pub max_directory_entries : ℕ
max_directory_entries = 1000

abbrev parent_of : Text → Text
parent_of path = let parent = dir_name path in if same parent path then [] else parent

unfoldable pub listing_of : Text → Text → List Directory → Listing
listing_of home path directories = record {
  path = path;
  parent_path = parent_of path;
  home_path = clean home;
  directories = take max_directory_entries directories;
  truncated = ltb max_directory_entries (length directories);
}

unfoldable pub read_listing : (ℕ → ℕ) → Files → Text → Text → DirEntries → Checked Listing
unfolding listing_of sort_directories child_directories
read_listing lower files home path (read_failed e) = refused (classify_error e)
read_listing lower files home path (entries es) =
    found (listing_of home path (sort_directories lower (child_directories files path es)))

unfoldable pub list_in : (ℕ → ℕ) → Files → Text → Option Text → Checked Listing
unfolding read_listing
list_in lower files path none = refused unavailable
list_in lower files path (some home) = read_listing lower files home path (files.read_dir path)

unfoldable pub list_resolved : (ℕ → ℕ) → Files → Checked Text → Checked Listing
unfolding list_in
list_resolved lower files (refused k) = refused k
list_resolved lower files (found path) = list_in lower files path files.home

unfoldable pub list_directories : (ℕ → ℕ) → Files → Text → Checked Listing
unfolding list_resolved resolve
list_directories lower files value = list_resolved lower files (resolve files value)
