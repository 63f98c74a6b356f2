-- ===== src/Server/Uploads/Cleared.antt =====
-- Clearing the cache: nothing that it lists is left.
pub mod Listed
use falkn.Base.{
  ◌≡◌, ◌≢◌, refl, sym, ap, subst, ◌∙◌, inl, inr, Bool, true, false, not, ◌&&◌, ◌||◌, List, [], ◌∷◌,
  ◌++◌, Option, none, some, arith, if◌then◌else◌, if_cases, same, same_iff, nat_eq, list_eq,
  Bool-cases, Option-cases, same_self,
}
use falkn.Base.Assoc.{lookup, remove, adjust, lookup-remove, lookup-adjust, map_some}
use falkn.Base.Text.{Text}
use falkn.Server.Uploads.{
  Uploads, SessionNode, folder, link, plain, FileNode, FileAccess, Lstat, missing, unreachable,
  node_at, lstat_in, lstat_of, without_file, has_no_files, drop_empty, Removal, removed, invalid,
  not_exist, failed, remove_node, remove_cached_upload, are_invalid, is_regular,
  is_safe_upload_component, is_media_filename, CacheItem, may_go_on, clear_items,
}
use falkn.Server.Uploads.Removed.{file_at, Removes, remove_cached_upload-Removes, removed_node}

abbrev pub regular_node : Option FileNode → Bool
regular_node none = false
regular_node (some node) = is_regular node.kind

-- A regular file in a session's own directory.
abbrev pub folder_file : Text → Option SessionNode → Bool
folder_file f none = false
folder_file f (some plain) = false
folder_file f (some (link files)) = false
folder_file f (some (folder files)) = regular_node (lookup f files)

-- What the listing shows: a regular file with a safe media name in a directory with a safe name.
pub record Cached (s f : Text) (u : Uploads) : Type 0 where
  pub safe_session : is_safe_upload_component s 128 ≡ true
  pub safe_file : is_safe_upload_component f 255 ≡ true
  pub media : is_media_filename f ≡ true
  pub present : folder_file f (lookup s u) ≡ true

-- No file of a session's directory appears.
pub Shrinks : Uploads → Uploads → Type 0
Shrinks u v = (s f : Text) → folder_file f (lookup s v) ≡ true → folder_file f (lookup s u) ≡ true

regular_node-remove :
    (f g : Text) (files : List (Text × FileNode))
    → regular_node (lookup g (remove f files)) ≡ true
    → regular_node (lookup g files) ≡ true
regular_node-remove f g files h =
    let h' = ap regular_node (sym (lookup-remove f g files)) ∙ h in
    elim (Bool-cases (same f g)) [ inl e ↦ cc (rw e at h') | inr e ↦ rw e at h' ]

folder_file-without_file :
    (f g : Text) (o : Option SessionNode)
    → folder_file g (map_some (without_file f) o) ≡ true
    → folder_file g o ≡ true
unfolding without_file
folder_file-without_file f g none h = h
folder_file-without_file f g (some plain) h = h
folder_file-without_file f g (some (link files)) h = h
folder_file-without_file f g (some (folder files)) h = regular_node-remove f g files h

Shrinks-adjust : (s f : Text) (u : Uploads) → Shrinks u (adjust s (without_file f) u)
unfolding Shrinks
Shrinks-adjust s f u t g h =
    let h' = ap (folder_file g) (sym (lookup-adjust s t (without_file f) u)) ∙ h in
    elim (Bool-cases (same s t)) [
      | inl e ↦ folder_file-without_file f g (lookup t u) (rw e at h')
      | inr e ↦ rw e at h'
    ]

Shrinks-remove : (s : Text) (u : Uploads) → Shrinks u (remove s u)
unfolding Shrinks
Shrinks-remove s u t g h =
    let h' = ap (folder_file g) (sym (lookup-remove s t u)) ∙ h in
    elim (Bool-cases (same s t)) [ inl e ↦ cc (rw e at h') | inr e ↦ rw e at h' ]

Shrinks-self : (u : Uploads) → Shrinks u u
unfolding Shrinks
Shrinks-self u s f h = h

Shrinks-trans : (u v w : Uploads) → Shrinks u v → Shrinks v w → Shrinks u w
unfolding Shrinks
Shrinks-trans u v w a b s f h = a s f (b s f h)

Shrinks-drop_empty :
    (allowed : FileAccess) (s : Text) (u : Uploads) → Shrinks u (drop_empty allowed s u)
unfolding drop_empty
Shrinks-drop_empty allowed s u =
    if_cases (Shrinks u) (allowed.readable s && has_no_files (lookup s u) && allowed.droppable s)
      (remove s u) u (λ _. Shrinks-remove s u) (λ _. Shrinks-self u)

-- One removal: nothing appears, and the file is not cached afterwards unless the removal failed.
record OneLess (s f : Text) (u : Uploads) (r : Removal × Uploads) : Type 0 where
  shrinks : Shrinks u r.1
  absent : may_go_on r.0 ≡ true → file_at s f r.1 ≡ missing

removed_self :
    (allowed : FileAccess) (s f : Text) (u : Uploads) (node : FileNode)
    → file_at s f u ≡ node_at node
    → file_at s f (drop_empty allowed s (adjust s (without_file f) u)) ≡ missing
removed_self allowed s f u node q =
    removed_node allowed s f u node q s f ∙ rw (same_self s, same_self f) refl

remove_node-OneLess :
    (allowed : FileAccess) (s f : Text) (u : Uploads) (l : Lstat)
    → file_at s f u ≡ l
    → OneLess s f u (remove_node allowed s f u l)
unfolding remove_node
remove_node-OneLess allowed s f u missing q = record { shrinks = Shrinks-self u; absent = λ _. q }
remove_node-OneLess allowed s f u unreachable q = record {
  shrinks = Shrinks-self u;
  absent = λ h. cc;
}
remove_node-OneLess allowed s f u (node_at node) q =
    let v = adjust s (without_file f) u in
    if_cases (OneLess s f u) (not (is_regular node.kind)) (invalid, u) _
      (λ _. record { shrinks = Shrinks-self u; absent = λ h. cc })
      (λ _.
        if_cases (OneLess s f u) (not (allowed.removable s f)) (failed, u)
          (removed, drop_empty allowed s v)
          (λ _. record { shrinks = Shrinks-self u; absent = λ h. cc })
          (λ _. record {
            shrinks = Shrinks-trans u v _ (Shrinks-adjust s f u) (Shrinks-drop_empty allowed s v);
            absent = λ _. removed_self allowed s f u node q;
          }))

remove_cached_upload-OneLess :
    (allowed : FileAccess) (s f : Text) (u : Uploads)
    → OneLess s f u (remove_cached_upload allowed s f u)
unfolding remove_cached_upload
remove_cached_upload-OneLess allowed s f u =
    if_cases (OneLess s f u) (are_invalid s f) (invalid, u)
      (remove_node allowed s f u (file_at s f u))
      (λ _. record { shrinks = Shrinks-self u; absent = λ h. cc })
      (λ _. remove_node-OneLess allowed s f u (file_at s f u) refl)

-- Some item has this session and this filename.
unfoldable pub has_item : Text → Text → List CacheItem → Bool
has_item s f [] = false
has_item s f (i ∷ is) = (same i.session_id s && same i.filename f) || has_item s f is

folder_file-missing :
    (f : Text) (o : Option SessionNode) → lstat_of f o ≡ missing → folder_file f o ≡ false
unfolding lstat_of
folder_file-missing f none h = refl
folder_file-missing f (some plain) h = refl
folder_file-missing f (some (link files)) h = refl
folder_file-missing f (some (folder files)) h = elim (Option-cases (lookup f files)) [
  | inl n ↦ rw n refl
  | inr (node, n) ↦ cc (rw n at h)
]

stays_gone :
    (s f : Text) (u v : Uploads)
    → file_at s f u ≡ missing
    → Shrinks u v
    → folder_file f (lookup s v) ≡ false
unfolding Shrinks
stays_gone s f u v h shrinks = elim (Bool-cases (folder_file f (lookup s v))) [
  | inr out ↦ out
  | inl kept ↦ cc (shrinks s f kept, folder_file-missing f (lookup s u) h)
]

-- When the loop ends without an error, the files of its items are gone from the sessions' own
-- directories, and none has appeared.
pub clear_items-lem :
    (allowed : FileAccess) (items : List CacheItem) (u v : Uploads)
    → clear_items allowed items u ≡ (true, v)
    → Shrinks u v × ((s f : Text) → has_item s f items ≡ true → folder_file f (lookup s v) ≡ false)
unfolding clear_items has_item
clear_items-lem allowed [] u v q =
    (subst (Shrinks u) (ap (λ (r : Bool × Uploads). r.1) q) (Shrinks-self u), λ s f h. cc)
clear_items-lem allowed (i ∷ is) u v q =
    let r = remove_cached_upload allowed i.session_id i.filename u in
    let one = remove_cached_upload-OneLess allowed i.session_id i.filename u in
    elim (Bool-cases (may_go_on r.0)) [
      | inr stop ↦ cc (rw (clear_items, stop) at q)
      | inl go ↦
          let (shrinks, others) = clear_items-lem allowed is r.1 v (rw (clear_items, go) at q) in
          (
            Shrinks-trans u r.1 v one.shrinks shrinks,
            λ s f h. elim (Bool-cases (same i.session_id s && same i.filename f)) [
              | inr e ↦ others s f (ground (arith, h, e))
              | inl e ↦
                  let es = (same_iff i.session_id s).0 (ground (arith, e)) in
                  let ef = (same_iff i.filename f).0 (ground (arith, e)) in
                  let gone = stays_gone i.session_id i.filename r.1 v (one.absent go) shrinks in
                  subst (λ x. folder_file f (lookup x v) ≡ false) es
                    (subst (λ x. folder_file x (lookup i.session_id v) ≡ false) ef gone)
            ],
          )
    ]
