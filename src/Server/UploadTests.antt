-- ===== src/Server/UploadTests.antt =====
-- Runs of the upload cache, and inputs at which its theorems hold.
use falkn.Base.{◌≡◌, refl, true, false, [], ◌∷◌, list_beq, nat_eq, list_eq}
use falkn.Base.Text.{Text, codes}
use falkn.Server.Uploads.{
  Uploads, folder, plain, FileNode, regular, FileAccess, remove_cached_upload, are_invalid,
  is_safe_upload_component, is_media_filename, media_cache_listing, clear_media_cache, clear_items,
  session_items, file_item,
}
use falkn.Server.Uploads.Removed.{Removes, remove_cached_upload-Removes}
use falkn.Server.Uploads.Cleared.{Cached, Shrinks}
use falkn.Server.Uploads.Cleared.Listed.{clear_media_cache-Empty}

abbrev photo : FileNode
photo = record { kind = regular; size = 10; modified = 5 }

abbrev uploads : Uploads
uploads =
    (codes "falkn-a", folder ((codes "A.JPG", photo) ∷ (codes "notes.txt", photo) ∷ []))
    ∷ (codes "falkn-b", folder ((codes "b.png", photo) ∷ []))
    ∷ (codes "..", plain)
    ∷ []

abbrev free : FileAccess
free = record {
  root_readable = true;
  readable = λ s. true;
  inspectable = λ s f. true;
  removable = λ s f. true;
  droppable = λ s. true;
}

names_run :
    (is_safe_upload_component (codes "..") 128 ≡ false)
    × (is_safe_upload_component (codes "a/b") 128 ≡ false)
    × (is_media_filename (codes "x.tar.JPEG") ≡ true)
    × (is_media_filename (codes "png") ≡ false)
unfolding is_safe_upload_component is_media_filename list_beq
names_run = (refl, refl, refl, refl)

abbrev cleared : Uploads
cleared = (codes "falkn-a", folder ((codes "notes.txt", photo) ∷ [])) ∷ (codes "..", plain) ∷ []

clear_runs : clear_media_cache free uploads ≡ (true, cleared)
unfolding clear_media_cache clear_items media_cache_listing session_items file_item are_invalid
    is_safe_upload_component is_media_filename remove_cached_upload list_beq
clear_runs = refl

clear_media_cache-Empty_example : Shrinks uploads cleared × ((s f : Text) → ¬ Cached s f cleared)
clear_media_cache-Empty_example = clear_media_cache-Empty free uploads cleared clear_runs

remove_cached_upload-Removes_example :
    Removes
      (codes "falkn-b")
      (codes "b.png")
      uploads
      (remove_cached_upload free (codes "falkn-b") (codes "b.png") uploads).0
      (remove_cached_upload free (codes "falkn-b") (codes "b.png") uploads).1
remove_cached_upload-Removes_example =
    remove_cached_upload-Removes free (codes "falkn-b") (codes "b.png") uploads
