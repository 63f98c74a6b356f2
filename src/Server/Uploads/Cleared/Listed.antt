-- ===== src/Server/Uploads/Cleared/Listed.antt =====
-- The listing is complete, so clearing it leaves nothing to list.
use falkn.Base.{
  ◌≡◌, refl, ap, subst, ◌∙◌, inl, inr, Bool, true, false, List, [], ◌∷◌, ◌++◌, Option, none, some,
  arith, same, same_iff, same_self, nat_eq, list_eq, Bool-cases, Option-cases, ◌⊎◌,
}
use falkn.Base.Assoc.{lookup}
use falkn.Base.Text.{Text}
use falkn.Server.Uploads.{
  Uploads, SessionNode, folder, link, plain, FileNode, FileKind, regular, folder_kind, link_file,
  special, FileAccess, is_regular, may_be_media, is_safe_upload_component, is_media_filename,
  CacheItem, file_item, appended, file_items, session_items, all_items, item_before, insert_item,
  sort_items, sorted, media_cache_listing, clear_items, clear_media_cache, cached_bytes,
}
use falkn.Server.Uploads.Cleared.{
  Cached, Shrinks, folder_file, regular_node, has_item, clear_items-lem,
}

has_item-append_left :
    (s f : Text) (a b : List CacheItem) → has_item s f a ≡ true → has_item s f (a ++ b) ≡ true
unfolding has_item
has_item-append_left s f [] b h = cc
has_item-append_left s f (i ∷ a) b h = ground (arith, h, has_item-append_left s f a b)

has_item-append_right :
    (s f : Text) (a b : List CacheItem) → has_item s f b ≡ true → has_item s f (a ++ b) ≡ true
unfolding has_item
has_item-append_right s f [] b h = h
has_item-append_right s f (i ∷ a) b h = ground (arith, has_item-append_right s f a b h)

has_item-insert_item :
    (s f : Text) (i : CacheItem) (js : List CacheItem)
    → has_item s f (insert_item i js) ≡ has_item s f (i ∷ js)
unfolding has_item insert_item
has_item-insert_item s f i [] = refl
has_item-insert_item s f i (j ∷ js) = elim (Bool-cases (item_before j i)) [
  | inl b ↦ rw (insert_item, b) (ground (arith, has_item-insert_item s f i js))
  | inr b ↦ rw (insert_item, b) refl
]

has_item-sort_items :
    (s f : Text) (is : List CacheItem) → has_item s f (sort_items is) ≡ has_item s f is
unfolding has_item sort_items
has_item-sort_items s f [] = refl
has_item-sort_items s f (i ∷ is) =
    has_item-insert_item s f i (sort_items is) ∙ rw (has_item-sort_items s f is) refl

appended-some :
    (a b : Option (List CacheItem)) (c : List CacheItem)
    → appended a b ≡ some c
    → (x : List CacheItem) × (y : List CacheItem) × (a ≡ some x) × (b ≡ some y) × (x ++ y ≡ c)
appended-some none b c q = cc
appended-some (some x) none c q = cc
appended-some (some x) (some y) c q = (x, y, refl, refl, cc)

abbrev listed_in : Text → Text → Option (List CacheItem) → Bool
listed_in s f none = false
listed_in s f (some x) = has_item s f x

module _ (allowed : FileAccess) (s f : Text) (safe_file : is_safe_upload_component f 255 ≡ true)
    (media : is_media_filename f ≡ true) where
  is_regular-may_be_media : (k : FileKind) → is_regular k ≡ true → may_be_media k ≡ true
  is_regular-may_be_media regular h = refl
  is_regular-may_be_media folder_kind h = cc
  is_regular-may_be_media link_file h = cc
  is_regular-may_be_media special h = cc

  file_item-has_item :
      (node : FileNode) (x : List CacheItem)
      → is_regular node.kind ≡ true
      → file_item allowed s f node ≡ some x
      → has_item s f x ≡ true
  unfolding file_item has_item
  file_item-has_item node x k q =
      let m = is_regular-may_be_media node.kind k in
      elim (Bool-cases (allowed.inspectable s f)) [
        | inr no_info ↦ cc (rw (file_item, m, safe_file, media, no_info) at q)
        | inl info ↦
            let q' = rw (file_item, m, safe_file, media, info, k) at q in
            subst (λ o. listed_in s f o ≡ true) q' (rw (same_self s, same_self f) refl)
      ]

  file_items-has_item :
      (files : List (Text × FileNode)) (x : List CacheItem)
      → regular_node (lookup f files) ≡ true
      → file_items allowed s files ≡ some x
      → has_item s f x ≡ true
  unfolding file_items lookup
  file_items-has_item [] x k q = cc
  file_items-has_item ((g, node) ∷ rest) x k q =
      let (a, b, qa, qb, joined) =
        appended-some (file_item allowed s g node) (file_items allowed s rest) x q in
      subst (λ z. has_item s f z ≡ true) joined
        (elim (Bool-cases (same g f)) [
          | inr e ↦
              has_item-append_right s f a b (file_items-has_item rest b (rw (lookup, e) at k) qb)
          | inl e ↦
              let same_name = (same_iff g f).0 e in
              let qa' = subst (λ z. file_item allowed s z node ≡ some a) same_name qa in
              has_item-append_left s f a b (file_item-has_item node a (rw (lookup, e) at k) qa')
        ])

  session_items-has_item :
      (node : SessionNode) (x : List CacheItem)
      → is_safe_upload_component s 128 ≡ true
      → folder_file f (some node) ≡ true
      → session_items allowed s node ≡ some x
      → has_item s f x ≡ true
  unfolding session_items
  session_items-has_item plain x h k q = cc
  session_items-has_item (link files) x h k q = cc
  session_items-has_item (folder files) x h k q = elim (Bool-cases (allowed.readable s)) [
    | inr no_dir ↦ cc (rw (session_items, h, no_dir) at q)
    | inl dir ↦ file_items-has_item files x k (rw (session_items, h, dir) at q)
  ]

  all_items-has_item :
      (u : Uploads) (x : List CacheItem)
      → is_safe_upload_component s 128 ≡ true
      → folder_file f (lookup s u) ≡ true
      → all_items allowed u ≡ some x
      → has_item s f x ≡ true
  unfolding all_items lookup
  all_items-has_item [] x h k q = cc
  all_items-has_item ((t, node) ∷ rest) x h k q =
      let (a, b, qa, qb, joined) =
        appended-some (session_items allowed t node) (all_items allowed rest) x q in
      subst (λ z. has_item s f z ≡ true) joined
        (elim (Bool-cases (same t s)) [
          | inr e ↦
              has_item-append_right s f a b (all_items-has_item rest b h (rw (lookup, e) at k) qb)
          | inl e ↦
              let same_name = (same_iff t s).0 e in
              let qa' = subst (λ z. session_items allowed z node ≡ some a) same_name qa in
              has_item-append_left s f a b
                (session_items-has_item node a h (rw (lookup, e) at k) qa')
        ])

listing-cases :
    (allowed : FileAccess) (u : Uploads)
    → (media_cache_listing allowed u ≡ none)
      ⊎ ((x : List CacheItem) × (all_items allowed u ≡ some x)
          × (media_cache_listing allowed u ≡ some (sort_items x, cached_bytes x)))
unfolding media_cache_listing
listing-cases allowed u = elim (Bool-cases allowed.root_readable) [
  | inr shut ↦ inl (rw (media_cache_listing, shut) refl)
  | inl readable ↦ elim (Option-cases (all_items allowed u)) [
    | inl n ↦ inl (rw (media_cache_listing, readable) (ap sorted n))
    | inr (x, n) ↦ inr (x, n, rw (media_cache_listing, readable) (ap sorted n))
  ]
]

-- After a clearing that ended without an error, the cache lists nothing: there is no regular file with
-- a safe media name in a directory with a safe name, and no file has appeared in such a directory.
pub clear_media_cache-Empty :
    (allowed : FileAccess) (u v : Uploads)
    → clear_media_cache allowed u ≡ (true, v)
    → Shrinks u v × ((s f : Text) → ¬ Cached s f v)
unfolding clear_media_cache Shrinks
clear_media_cache-Empty allowed u v q = elim (listing-cases allowed u) [
  | inl n ↦ cc (rw (clear_media_cache, n) at q)
  | inr (x, listed, n) ↦
      let ends : clear_items allowed (sort_items x) u ≡ (true, v) =
        rw (clear_media_cache, n) at q in
      let (shrinks, gone) = clear_items-lem allowed (sort_items x) u v ends in
      (
        shrinks,
        λ s f c.
            let item =
              all_items-has_item allowed s f c.safe_file c.media u x c.safe_session
                (shrinks s f c.present) listed in
            cc (gone s f (has_item-sort_items s f x ∙ item), c.present),
      )
]
