-- ===== src/Server/Uploads/Removed.antt =====
-- The removal of one file.
use falkn.Base.{
  ◌≡◌, refl, sym, ap, subst, ◌∙◌, inl, inr, true, not, ◌&&◌, List, [], ◌∷◌, Option, none, some,
  arith, if◌then◌else◌, if_cases, same, same_iff, nat_eq, list_eq, Bool-cases,
}
use falkn.Base.Assoc.{lookup, remove, adjust, lookup-remove, lookup-adjust, map_some}
use falkn.Base.Text.{Text}
use falkn.Server.Uploads.{
  Uploads, SessionNode, folder, link, plain, FileAccess, Lstat, missing, unreachable, node_at,
  lstat_in, lstat_of, without_file, has_no_files, drop_empty, Removal, removed, invalid, not_exist,
  failed, remove_node, remove_cached_upload, are_invalid, is_regular, FileNode,
}

-- The file of a session's directory.
abbrev pub file_at : Text → Text → Uploads → Lstat
file_at session_id filename uploads = lstat_of filename (lookup session_id uploads)

-- What Lstat says once the file is removed.
abbrev pub gone : Lstat → Lstat
gone missing = missing
gone unreachable = unreachable
gone (node_at node) = missing

gone-lstat_in : (o : Option FileNode) → gone (lstat_in o) ≡ missing
gone-lstat_in none = refl
gone-lstat_in (some node) = refl

lstat_in-remove :
    (f g : Text) (files : List (Text × FileNode))
    → lstat_in (lookup g (remove f files))
      ≡ (if same f g then gone (lstat_in (lookup g files)) else lstat_in (lookup g files))
lstat_in-remove f g files = ap lstat_in (lookup-remove f g files) ∙ elim (Bool-cases (same f g)) [
  | inl e ↦ rw e (sym (gone-lstat_in (lookup g files)))
  | inr e ↦ rw e refl
]

lstat_of-without_file :
    (f g : Text) (node : Option SessionNode)
    → lstat_of g (map_some (without_file f) node)
      ≡ (if same f g then gone (lstat_of g node) else lstat_of g node)
unfolding lstat_of without_file
lstat_of-without_file f g none = elim (Bool-cases (same f g)) [
  | inl e ↦ rw e refl
  | inr e ↦ rw e refl
]
lstat_of-without_file f g (some plain) = elim (Bool-cases (same f g)) [
  | inl e ↦ rw e refl
  | inr e ↦ rw e refl
]
lstat_of-without_file f g (some (folder files)) = lstat_in-remove f g files
lstat_of-without_file f g (some (link files)) = lstat_in-remove f g files

file_at-adjust :
    (s f t g : Text) (u : Uploads)
    → file_at t g (adjust s (without_file f) u)
      ≡ (if same s t && same f g then gone (file_at t g u) else file_at t g u)
file_at-adjust s f t g u =
    ap (lstat_of g) (lookup-adjust s t (without_file f) u) ∙ elim (Bool-cases (same s t)) [
      | inl e ↦ rw e (lstat_of-without_file f g (lookup t u))
      | inr e ↦ rw e refl
    ]

has_no_files-lstat_of :
    (g : Text) (node : Option SessionNode) → has_no_files node ≡ true → lstat_of g node ≡ missing
unfolding lstat_of lookup
has_no_files-lstat_of g none h = refl
has_no_files-lstat_of g (some plain) h = cc
has_no_files-lstat_of g (some (folder [])) h = refl
has_no_files-lstat_of g (some (folder (x ∷ xs))) h = cc
has_no_files-lstat_of g (some (link [])) h = refl
has_no_files-lstat_of g (some (link (x ∷ xs))) h = cc

lstat_of-none : (g : Text) → lstat_of g none ≡ missing
unfolding lstat_of
lstat_of-none g = refl

-- Dropping the empty directory is not seen by Lstat.
file_at-drop_empty :
    (allowed : FileAccess) (s t g : Text) (u : Uploads)
    → file_at t g (drop_empty allowed s u) ≡ file_at t g u
unfolding drop_empty
file_at-drop_empty allowed s t g u =
    let P = λ (v : Uploads). file_at t g v ≡ file_at t g u in
    if_cases P (allowed.readable s && has_no_files (lookup s u) && allowed.droppable s) (remove s u)
      u
      (λ h. ap (lstat_of g) (lookup-remove s t u) ∙ elim (Bool-cases (same s t)) [
        | inl e ↦
            let q : s ≡ t = (same_iff s t).0 e in
            let no_files : has_no_files (lookup s u) ≡ true = ground (arith, h) in
            rw e (
              lstat_of-none g
              ∙ sym (
                  has_no_files-lstat_of g (lookup t u)
                    (subst (λ (x : Text). has_no_files (lookup x u) ≡ true) q no_files)))
        | inr e ↦ rw e refl
      ])
      (λ _. refl)

-- What a removal does, by its outcome: it removes one regular file, and nothing else changes.
abbrev pub Removes : Text → Text → Uploads → Removal → Uploads → Type 0
Removes s f u removed v =
    ((node : FileNode) × (file_at s f u ≡ node_at node) × (is_regular node.kind ≡ true))
    × ((t g : Text) → file_at t g v ≡ (if same s t && same f g then missing else file_at t g u))
Removes s f u invalid v = v ≡ u
Removes s f u not_exist v = v ≡ u
Removes s f u failed v = v ≡ u

pub removed_node :
    (allowed : FileAccess) (s f : Text) (u : Uploads) (node : FileNode)
    → file_at s f u ≡ node_at node
    → (t g : Text)
    → file_at t g (drop_empty allowed s (adjust s (without_file f) u))
      ≡ (if same s t && same f g then missing else file_at t g u)
removed_node allowed s f u node q t g =
    file_at-drop_empty allowed s t g (adjust s (without_file f) u)
    ∙ file_at-adjust s f t g u
    ∙ elim (Bool-cases (same s t && same f g)) [
      | inl e ↦
          let es : s ≡ t = (same_iff s t).0 (ground arith) in
          let ef : f ≡ g = (same_iff f g).0 (ground arith) in
          rw e (
            ap gone (
              ap (λ (x : Text). file_at x g u) (sym es)
              ∙ ap (λ (x : Text). file_at s x u) (sym ef)
              ∙ q))
      | inr e ↦ rw e refl
    ]

remove_node-Removes :
    (allowed : FileAccess) (s f : Text) (u : Uploads) (l : Lstat)
    → file_at s f u ≡ l
    → Removes s f u (remove_node allowed s f u l).0 (remove_node allowed s f u l).1
unfolding remove_node
remove_node-Removes allowed s f u missing q = refl
remove_node-Removes allowed s f u unreachable q = refl
remove_node-Removes allowed s f u (node_at node) q =
    let P = λ (r : Removal × Uploads). Removes s f u r.0 r.1 in
    if_cases P (not (is_regular node.kind)) _ _ (λ _. refl)
      (λ k.
        if_cases P (not (allowed.removable s f)) _ _ (λ _. refl)
          (λ _. ((node, q, ground (arith, k)), removed_node allowed s f u node q)))

-- The removal of a cached upload takes exactly the named file, a regular one, out of the tree that
-- Lstat sees when it succeeds; when it fails, for whatever reason, nothing changes.
pub remove_cached_upload-Removes :
    (allowed : FileAccess) (session_id filename : Text) (uploads : Uploads)
    → Removes session_id filename uploads
        (remove_cached_upload allowed session_id filename uploads).0
        (remove_cached_upload allowed session_id filename uploads).1
unfolding remove_cached_upload
remove_cached_upload-Removes allowed s f u =
    let P = λ (r : Removal × Uploads). Removes s f u r.0 r.1 in
    if_cases P (are_invalid s f) (invalid, u) (remove_node allowed s f u (file_at s f u))
      (λ _. refl) (λ _. remove_node-Removes allowed s f u (file_at s f u) refl)
