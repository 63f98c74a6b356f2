-- ===== src/Server/Uploads.antt =====
-- The cache of uploaded media (internal/server/uploads.go): its listing, the removal of one file,
-- clearing it, and what the end of a session removes. The state is the tree below the uploads
-- directory; a directory that does not exist is one without entries. What the file system refuses is
-- an argument.
pub mod Removed
pub mod Cleared
use falkn.Base.{
  ℕ, zero, suc, ◌+◌, Bool, true, false, not, ◌&&◌, ◌||◌, List, [], ◌∷◌, ◌++◌, Option, none, some,
  leb, ltb, ◌==◌, if◌then◌else◌, same, nat_eq, list_eq,
}
use falkn.Base.Assoc.{lookup, remove, adjust, insert}
use falkn.Base.Text.{Text, codes, is_empty, byte_length, contains}
use falkn.Base.Strings.{to_lower}
use falkn.Workspace.{text_before}

pub data FileKind : Type 0 where
  regular folder_kind link_file special : FileKind

pub record FileNode : Type 0 where
  pub kind : FileKind
  pub size : ℕ
  pub modified : ℕ

-- An entry of the uploads directory: a directory, a symbolic link to one, or anything else.
pub data SessionNode : Type 0 where
  folder link : List (Text × FileNode) → SessionNode
  plain : SessionNode

abbrev pub Uploads : Type 0
Uploads = List (Text × SessionNode)

-- What the file system allows at this moment.
pub record FileAccess : Type 0 where
  pub root_readable : Bool
  pub readable : Text → Bool
  pub inspectable : Text → Text → Bool
  pub removable : Text → Text → Bool
  pub droppable : Text → Bool

abbrev pub is_upload_rune : ℕ → Bool
is_upload_rune c =
    ((leb b'a' c && leb c b'z') || (leb b'A' c && leb c b'Z'))
    || (leb b'0' c && leb c b'9')
    || c == b'-'
    || c == b'_'
    || c == b'.'

unfoldable pub all_upload_runes : Text → Bool
all_upload_runes [] = true
all_upload_runes (c ∷ cs) = is_upload_rune c && all_upload_runes cs

unfoldable pub is_safe_upload_component : Text → ℕ → Bool
unfolding all_upload_runes
is_safe_upload_component value maximum_length =
    if is_empty value
      || ltb maximum_length (byte_length value)
      || same value (codes ".")
      || same value (codes "..")
    then false
    else all_upload_runes value

-- filepath.Ext
abbrev with_extension : ℕ → Text → Text → Text
with_extension c cs [] = if c == b'.' && not (contains cs (codes "/")) then c ∷ cs else []
with_extension c cs (d ∷ ds) = d ∷ ds

unfoldable pub extension : Text → Text
unfolding contains
extension [] = []
extension (c ∷ cs) = with_extension c cs (extension cs)

abbrev pub media_extensions : List Text
media_extensions =
    codes ".jpg"
    ∷ codes ".jpeg"
    ∷ codes ".png"
    ∷ codes ".gif"
    ∷ codes ".heic"
    ∷ codes ".heif"
    ∷ codes ".webp"
    ∷ []

unfoldable pub is_one_of : Text → List Text → Bool
is_one_of t [] = false
is_one_of t (u ∷ us) = same t u || is_one_of t us

unfoldable pub is_media_filename : Text → Bool
unfolding extension to_lower is_one_of
is_media_filename filename = is_one_of (to_lower (extension filename)) media_extensions

pub record CacheItem : Type 0 where
  pub session_id : Text
  pub filename : Text
  pub byte_count : ℕ
  pub modified : ℕ

abbrev pub may_be_media : FileKind → Bool
may_be_media regular = true
may_be_media special = true
may_be_media folder_kind = false
may_be_media link_file = false

abbrev pub is_regular : FileKind → Bool
is_regular regular = true
is_regular _ = false

-- One file of a session's directory: an item, nothing, or `none` for an error.
unfoldable pub file_item : FileAccess → Text → Text → FileNode → Option (List CacheItem)
file_item allowed session_id filename node =
    if not (may_be_media node.kind)
      || not (is_safe_upload_component filename 255)
      || not (is_media_filename filename)
    then some []
    else if not (allowed.inspectable session_id filename)
    then none
    else if not (is_regular node.kind)
    then some []
    else some (
        record {
          session_id = session_id;
          filename = filename;
          byte_count = node.size;
          modified = node.modified;
        }
        ∷ [])

abbrev pub appended : Option (List CacheItem) → Option (List CacheItem) → Option (List CacheItem)
appended none rest = none
appended (some items) none = none
appended (some items) (some more) = some (items ++ more)

unfoldable pub file_items : FileAccess → Text → List (Text × FileNode) → Option (List CacheItem)
unfolding file_item
file_items allowed session_id [] = some []
file_items allowed session_id ((filename, node) ∷ rest) =
    appended (file_item allowed session_id filename node) (file_items allowed session_id rest)

unfoldable pub session_items : FileAccess → Text → SessionNode → Option (List CacheItem)
unfolding file_items
session_items allowed name (folder files) =
    if not (is_safe_upload_component name 128)
    then some []
    else if allowed.readable name
    then file_items allowed name files
    else none
session_items allowed name (link files) = some []
session_items allowed name plain = some []

unfoldable pub all_items : FileAccess → Uploads → Option (List CacheItem)
unfolding session_items
all_items allowed [] = some []
all_items allowed ((name, node) ∷ rest) =
    appended (session_items allowed name node) (all_items allowed rest)

-- The order of the listing: the latest first, then by filename.
unfoldable pub item_before : CacheItem → CacheItem → Bool
unfolding text_before
item_before l r =
    if l.modified == r.modified
    then text_before l.filename r.filename
    else ltb r.modified l.modified

unfoldable pub insert_item : CacheItem → List CacheItem → List CacheItem
unfolding item_before
insert_item i [] = i ∷ []
insert_item i (j ∷ js) =
    let later = insert_item i js in if item_before j i then j ∷ later else i ∷ j ∷ js

unfoldable pub sort_items : List CacheItem → List CacheItem
unfolding insert_item
sort_items [] = []
sort_items (i ∷ is) = insert_item i (sort_items is)

unfoldable pub cached_bytes : List CacheItem → ℕ
cached_bytes [] = 0
cached_bytes (i ∷ is) = i.byte_count + cached_bytes is

abbrev pub sorted : Option (List CacheItem) → Option (List CacheItem × ℕ)
sorted none = none
sorted (some items) = some (sort_items items, cached_bytes items)

unfoldable pub media_cache_listing : FileAccess → Uploads → Option (List CacheItem × ℕ)
unfolding all_items sort_items cached_bytes
media_cache_listing allowed uploads =
    if allowed.root_readable then sorted (all_items allowed uploads) else none

pub data Removal : Type 0 where
  removed invalid not_exist failed : Removal

-- Lstat of a file in a session's directory.
pub data Lstat : Type 0 where
  missing unreachable : Lstat
  node_at : FileNode → Lstat

abbrev pub lstat_in : Option FileNode → Lstat
lstat_in none = missing
lstat_in (some node) = node_at node

unfoldable pub lstat_of : Text → Option SessionNode → Lstat
unfolding lookup
lstat_of filename none = missing
lstat_of filename (some plain) = unreachable
lstat_of filename (some (folder files)) = lstat_in (lookup filename files)
lstat_of filename (some (link files)) = lstat_in (lookup filename files)

unfoldable pub without_file : Text → SessionNode → SessionNode
unfolding remove
without_file filename (folder files) = folder (remove filename files)
without_file filename (link files) = link (remove filename files)
without_file filename plain = plain

abbrev pub has_no_files : Option SessionNode → Bool
has_no_files (some (folder [])) = true
has_no_files (some (link [])) = true
has_no_files _ = false

-- os.Remove of the session's directory, when it can be read and has no entry.
unfoldable pub drop_empty : FileAccess → Text → Uploads → Uploads
unfolding lookup remove
drop_empty allowed session_id uploads =
    if allowed.readable session_id
      && has_no_files (lookup session_id uploads)
      && allowed.droppable session_id
    then remove session_id uploads
    else uploads

unfoldable pub remove_node : FileAccess → Text → Text → Uploads → Lstat → Removal × Uploads
unfolding without_file drop_empty adjust
remove_node allowed session_id filename uploads missing = (not_exist, uploads)
remove_node allowed session_id filename uploads unreachable = (failed, uploads)
remove_node allowed session_id filename uploads (node_at node) =
    if not (is_regular node.kind)
    then (invalid, uploads)
    else if not (allowed.removable session_id filename)
    then (failed, uploads)
    else (
      removed,
      drop_empty allowed session_id (adjust session_id (without_file filename) uploads),
    )

unfoldable pub are_invalid : Text → Text → Bool
are_invalid session_id filename =
    not (is_safe_upload_component session_id 128)
    || not (is_safe_upload_component filename 255)
    || not (is_media_filename filename)

unfoldable pub remove_cached_upload : FileAccess → Text → Text → Uploads → Removal × Uploads
unfolding remove_node lstat_of are_invalid lookup
remove_cached_upload allowed session_id filename uploads =
    if are_invalid session_id filename
    then (invalid, uploads)
    else remove_node allowed session_id filename uploads
        (lstat_of filename (lookup session_id uploads))

-- A file that is gone already is not a failure.
abbrev pub may_go_on : Removal → Bool
may_go_on removed = true
may_go_on not_exist = true
may_go_on invalid = false
may_go_on failed = false

-- The loop of clearMediaCache; `false` is an error.
unfoldable pub clear_items : FileAccess → List CacheItem → Uploads → Bool × Uploads
unfolding remove_cached_upload
clear_items allowed [] uploads = (true, uploads)
clear_items allowed (i ∷ is) uploads =
    let (r, rest) = remove_cached_upload allowed i.session_id i.filename uploads in
    elim (may_go_on r) [ true ↦ clear_items allowed is rest | false ↦ (false, rest) ]

abbrev pub clear_listed : FileAccess → Uploads → Option (List CacheItem × ℕ) → Bool × Uploads
clear_listed allowed uploads none = (false, uploads)
clear_listed allowed uploads (some (items, count)) = clear_items allowed items uploads

unfoldable pub clear_media_cache : FileAccess → Uploads → Bool × Uploads
unfolding media_cache_listing clear_items
clear_media_cache allowed uploads =
    clear_listed allowed uploads (media_cache_listing allowed uploads)

-- createUploadPath: the session's directory is there afterwards. `none` is an error.
abbrev pub with_directory : Text → Option SessionNode → Uploads → Option Uploads
with_directory session_id none uploads = some (insert session_id (folder []) uploads)
with_directory session_id (some (folder files)) uploads = some uploads
with_directory session_id (some (link files)) uploads = some uploads
with_directory session_id (some plain) uploads = none

unfoldable pub create_upload_path : Bool → Text → Text → Uploads → Option Uploads
unfolding is_safe_upload_component lookup insert
create_upload_path creatable session_id filename uploads =
    if not (is_safe_upload_component session_id 128) || not (is_safe_upload_component filename 255)
    then none
    else if not creatable
    then none
    else with_directory session_id (lookup session_id uploads) uploads

-- cleanupDeletedSessionUploads, for the method, whether the daemon answered `ok`, and the decoded
-- session of the request. os.RemoveAll of a path removes the entry and all below it.
unfoldable pub cleanup_session : Option Text → Uploads → Uploads
unfolding is_safe_upload_component remove
cleanup_session none uploads = uploads
cleanup_session (some session_id) uploads =
    if is_safe_upload_component session_id 128 then remove session_id uploads else uploads

unfoldable pub cleanup_deleted_session_uploads : Text → Bool → Option Text → Uploads → Uploads
unfolding cleanup_session
cleanup_deleted_session_uploads method ok params uploads =
    if not (same method (codes "delete") || same method (codes "end")) || not ok
    then uploads
    else cleanup_session params uploads
