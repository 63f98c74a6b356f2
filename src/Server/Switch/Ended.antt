-- ===== src/Server/Switch/Ended.antt =====
-- Where the terminal goes when its session has ended.
use Prim.Native.String.{String}
use falkn.Base.{
  ◌≡◌, ◌≢◌, ◌⊎◌, refl, sym, subst, ap, All-each, inl, inr, true, false, List, [], ◌∷◌, ◌++◌, some,
  same, same_ne, Bool-cases, All,
}
use falkn.Base.Text.{string_eq}
use falkn.Session.Live.{SessionRecord}
use falkn.Server.Switch.Targets.{IsOffered, switchable_sessions-All, switchable_sessions-each}
use falkn.Server.Switch.Order.{
  IsFrom, IsFrom-self, IsFrom-chain, IsSorted, switchable_sessions-IsSorted,
}
use falkn.Server.Switch.{
  is_switchable, session_comes_before, switchable_sessions, record_named, nearest, fallback,
  select_ended_session_fallback,
}

module _ (current : SessionRecord) where
  abbrev pub IsOlder : SessionRecord → Type 0
  IsOlder r = session_comes_before r current ≡ true

  abbrev pub StartsNewer : List SessionRecord → Type 0
  StartsNewer [] = Unit
  StartsNewer (r ∷ rs) = session_comes_before r current ≡ false

  -- `id` names the last of the older sessions that the list begins with, or its first session when
  -- that is not older.
  Splits : List SessionRecord → String → Type 0
  Splits running id =
      ((older : List SessionRecord) × (r : SessionRecord) × (newer : List SessionRecord) × (running
          ≡ older ++ r ∷ newer)
        × (id ≡ r.id)
        × All IsOlder older
        × IsOlder r
        × StartsNewer newer)
      ⊎ ((r : SessionRecord) × (newer : List SessionRecord) × (running ≡ r ∷ newer)
          × (id ≡ r.id)
          × StartsNewer (r ∷ newer))

  Behind : SessionRecord → List SessionRecord → Type 0
  Behind p rs =
      (older : List SessionRecord) × (r : SessionRecord) × (newer : List SessionRecord) × (p ∷ rs
        ≡ older ++ r ∷ newer)
      × (nearest current p.id rs ≡ r.id)
      × All IsOlder older
      × IsOlder r
      × StartsNewer newer

  abbrev Named : SessionRecord → Type 0
  Named r = r.id ≢ ""

  nearest-Behind :
      (p : SessionRecord) (rs : List SessionRecord)
      → IsOlder p
      → Named p
      → All Named rs
      → Behind p rs
  unfolding Behind nearest
  nearest-Behind p [] b n h = ([], p, [], refl, refl, tt, b, tt)
  nearest-Behind p (q ∷ qs) b n h = elim (Bool-cases (session_comes_before q current)) [
    | inl c ↦
        let (older, r, newer, split, e, olds, old, stop) = nearest-Behind q qs c h.0 h.1 in
        (p ∷ older, r, newer, ap (◌∷◌ p) split, rw (nearest, c) e, (b, olds), old, stop)
    | inr c ↦
        let named = same_ne p.id "" n in
        ([], p, q ∷ qs, refl, rw (nearest, c, named) refl, tt, b, c)
  ]

  Behind-Splits :
      (p : SessionRecord) (rs : List SessionRecord)
      → Behind p rs
      → Splits (p ∷ rs) (nearest current p.id rs)
  unfolding Behind Splits
  Behind-Splits p rs h = inl h

  fallback-Splits :
      (running : List SessionRecord)
      → same current.status "running" ≡ false
      → running ≢ []
      → All Named running
      → Splits running (fallback (some current) running)
  unfolding fallback nearest
  fallback-Splits [] ended some_run named = absurd (some_run refl)
  fallback-Splits (r ∷ rs) ended some_run named =
      elim (Bool-cases (session_comes_before r current)) [
        | inl b ↦
            rw (fallback, nearest, ended, b)
              (Behind-Splits r rs (nearest-Behind r rs b named.0 named.1))
        | inr b ↦ rw (fallback, nearest, ended, b) (unfold Splits in inr (r, rs, refl, refl, b))
      ]

-- `r` is the answer: it is one of the records, running and not archived, and either it is older than
-- the ended session and no other such record that is older comes behind it, or none of them is older
-- and none comes before it.
pub IsNearest : List SessionRecord → SessionRecord → SessionRecord → Type 0
IsNearest records current r =
    IsOffered records r
    × (((session_comes_before r current ≡ true)
          × All
              (λ q.
                (is_switchable q ≡ false)
                ⊎ ((session_comes_before q current ≡ false) ⊎ (session_comes_before r q ≡ false)))
              records)
        ⊎ All
            (λ q.
              (is_switchable q ≡ false)
              ⊎ ((session_comes_before q current ≡ false) × (session_comes_before q r ≡ false)))
            records)

All-at :
    (P : SessionRecord → Type 0) (xs : List SessionRecord) (r : SessionRecord)
    (ys : List SessionRecord)
    → All P (xs ++ r ∷ ys)
    → P r
All-at P [] r ys h = h.0
All-at P (x ∷ xs) r ys h = All-at P xs r ys h.1

-- In a sorted list, nothing in front of `r` or behind it is newer or older than the order says.
module _ (current : SessionRecord) where
  AtMost : SessionRecord → SessionRecord → Type 0
  AtMost r q = (session_comes_before q current ≡ false) ⊎ (session_comes_before r q ≡ false)

  newer-AtMost :
      (r : SessionRecord) (newer : List SessionRecord)
      → StartsNewer current newer
      → IsSorted newer
      → All (AtMost r) newer
  unfolding AtMost
  newer-AtMost r [] h s = tt
  newer-AtMost r (q ∷ qs) h s = (inl h, All-each (λ x k. inl (IsFrom-chain current q x h k)) qs s.0)

  older-AtMost :
      (older : List SessionRecord) (r : SessionRecord) (newer : List SessionRecord)
      → StartsNewer current newer
      → IsSorted (older ++ r ∷ newer)
      → All (AtMost r) (older ++ r ∷ newer)
  unfolding AtMost
  older-AtMost [] r newer h s = (inr (IsFrom-self r), newer-AtMost r newer h s.1)
  older-AtMost (q ∷ older) r newer h s =
      (inr (All-at (IsFrom q) older r newer s.0), older-AtMost older r newer h s.1)

  Splits-IsNearest :
      (records : List SessionRecord) (id : String)
      → Splits current (switchable_sessions records) id
      → (r : SessionRecord) × (id ≡ r.id) × IsNearest records current r
  unfolding Splits IsNearest AtMost
  Splits-IsNearest records id (inl (older, r, newer, split, e, olds, old, stop)) =
      let sorted = subst IsSorted split (switchable_sessions-IsSorted records) in
      let offered = subst (All (IsOffered records)) split (switchable_sessions-All records) in
      let most = older-AtMost older r newer stop sorted in
      (
        r,
        e,
        (
          All-at (IsOffered records) older r newer offered,
          inl (
            old,
            switchable_sessions-each (AtMost r) records (subst (All (AtMost r)) (sym split) most),
          ),
        ),
      )
  Splits-IsNearest records id (inr (r, newer, split, e, stop)) =
      let sorted = subst IsSorted split (switchable_sessions-IsSorted records) in
      let offered = subst (All (IsOffered records)) split (switchable_sessions-All records) in
      let First = λ (q : SessionRecord).
        (session_comes_before q current ≡ false) × (session_comes_before q r ≡ false) in
      let first : All First (r ∷ newer) = (
        (stop, IsFrom-self r),
        All-each (λ q k. (IsFrom-chain current r q stop k, k)) newer sorted.0,
      ) in
      (
        r,
        e,
        (
          offered.0,
          inr (switchable_sessions-each First records (subst (All First) (sym split) first)),
        ),
      )

-- When the attached session is listed as ended and other sessions run, whose identifiers are not
-- empty, the terminal goes to one of the records that is running and not archived: to the nearest
-- older one, behind which no other older one comes, or, when none is older, to the first of all.
pub select_ended_session_fallback-IsNearest :
    (records : List SessionRecord) (id : String) (current : SessionRecord)
    → record_named id records ≡ some current
    → same current.status "running" ≡ false
    → switchable_sessions records ≢ []
    → All (λ (r : SessionRecord). r.id ≢ "") (switchable_sessions records)
    → (r : SessionRecord) × (select_ended_session_fallback records id ≡ r.id)
      × IsNearest records current r
unfolding select_ended_session_fallback
select_ended_session_fallback-IsNearest records id current found ended some_run named =
    Splits-IsNearest current records (select_ended_session_fallback records id) (
      rw (select_ended_session_fallback, found)
        (fallback-Splits current (switchable_sessions records) ended some_run named))
