-- ===== src/Server/StatusBar/Content/Numbered.antt =====
-- The number that the content of the footer keeps for the session, and what it counts of the others.
use Prim.Native.String.{String}
use falkn.Base.{
  ℕ, zero, suc, ◌+◌, ◌-◌, ◌≤◌, ◌≡◌, ◌↔◌, subst, refl, sym, ap, ◌∙◌, inl, inr, not, ◌&&◌, ◌||◌, List,
  [], ◌∷◌, Option, none, some, get_elem?, length, ltb, ◌==◌, arith, if◌then◌else◌, if_cases,
  Bool-cases, Option-cases, same, same_iff,
}
use falkn.Base.Int.{pos}
use falkn.Base.Text.{string_eq}
use falkn.Agent.State.{AttentionState, no_attention, needs_input, completed, failed}
use falkn.Session.Live.{SessionRecord}
use falkn.Server.Switch.{switchable_sessions, position, id_at, select_index, select_switch_target}
use falkn.Server.StatusBar.Content.{
  FooterContent, empty_content, number_at, count_attention, tell_record, tell_records,
  footer_content_for,
}

-- The sessions that run beside the one named.
abbrev beside : String → SessionRecord → ℕ
beside id r = if not (same r.id id) && same r.status "running" then 1 else 0

abbrev pub running_beside : String → List SessionRecord → ℕ
running_beside id [] = 0
running_beside id (r ∷ rs) = beside id r + running_beside id rs

-- From `b` to `c` `n` sessions were counted, and the numbers kept.
record Counts (n : ℕ) (b c : FooterContent) : Type 0 where
  number : c.session_number ≡ b.session_number
  count : c.session_count ≡ b.session_count
  others : c.other_sessions ≡ b.other_sessions + n
  tells :
      b.others_needing_input + b.others_failed ≤ b.other_sessions
      → c.others_needing_input + c.others_failed ≤ c.other_sessions

Counts-trans : {m n : ℕ} {b c e : FooterContent} → Counts m b c → Counts n c e → Counts (m + n) b e
Counts-trans f g = record {
  number = g.number ∙ f.number;
  count = g.count ∙ f.count;
  others = let x = f.others in let y = g.others in omega arith;
  tells = λ h. g.tells (f.tells h);
}

count_attention-Counts :
    (s : AttentionState) (c : FooterContent)
    → Counts 1 c (count_attention s (record c { other_sessions = suc c.other_sessions }))
count_attention-Counts no_attention c = record {
  number = refl;
  count = refl;
  others = omega arith;
  tells = λ h. omega (arith, h);
}
count_attention-Counts needs_input c = record {
  number = refl;
  count = refl;
  others = omega arith;
  tells = λ h. omega (arith, h);
}
count_attention-Counts completed c = record {
  number = refl;
  count = refl;
  others = omega arith;
  tells = λ h. omega (arith, h);
}
count_attention-Counts failed c = record {
  number = refl;
  count = refl;
  others = omega arith;
  tells = λ h. omega (arith, h);
}

tell_record-Counts :
    (id : String) (c : FooterContent) (r : SessionRecord)
    → Counts (beside id r) c (tell_record id c r)
unfolding tell_record
tell_record-Counts id c r = elim (Bool-cases (same r.id id)) [
  | inl e ↦ rw e record { number = refl; count = refl; others = omega arith; tells = λ h. h }
  | inr e ↦ elim (Bool-cases (same r.status "running")) [
    | inl q ↦ rw (e, q) (count_attention-Counts r.attention c)
    | inr q ↦ rw (e, q) record { number = refl; count = refl; others = omega arith; tells = λ h. h }
  ]
]

tell_records-Counts :
    (id : String) (c : FooterContent) (rs : List SessionRecord)
    → Counts (running_beside id rs) c (tell_records id c rs)
unfolding tell_records
tell_records-Counts id c [] = record {
  number = refl;
  count = refl;
  others = omega arith;
  tells = λ h. h;
}
tell_records-Counts id c (r ∷ rs) =
    Counts-trans (tell_record-Counts id c r) (tell_records-Counts id (tell_record id c r) rs)

-- A position that is found is the session's.
position-id_at :
    (id : String) (rs : List SessionRecord) (i : ℕ)
    → position id rs ≡ some i
    → (suc i ≤ length rs) × (id_at (get_elem? rs i) ≡ some id)
unfolding position id_at
position-id_at id [] i q = cc
position-id_at id (r ∷ rs) i q = elim (Bool-cases (same r.id id)) [
  | inl e ↦
      let z : 0 ≡ i = cc (rw e at q) in
      let here = λ (j : ℕ). (suc j ≤ suc (length rs)) × (id_at (get_elem? (r ∷ rs) j) ≡ some id) in
      subst here z (omega arith, ap some ((same_iff r.id id).0 e))
  | inr e ↦ elim (Option-cases (position id rs)) [
    | inl n ↦ cc (rw (e, n) at q)
    | inr (j, n) ↦
        let z : suc j ≡ i = cc (rw (e, n) at q) in
        let later = position-id_at id rs j n in
        let there =
          λ (k : ℕ). (suc k ≤ suc (length rs)) × (id_at (get_elem? (r ∷ rs) k) ≡ some id) in
        subst there z (omega (arith, later.0), later.1)
  ]
]

-- A switch that goes to `id` with a number, and stays without one.
abbrev pub stays_or_goes : String → ℕ → Option String
stays_or_goes id zero = some ""
stays_or_goes id (suc n) = some id

-- Where the switcher goes at a number from the footer.
switch_number :
    (id current : String) (rs : List SessionRecord) (found : Option ℕ)
    → position id rs ≡ found
    → select_switch_target rs current (pos 0) (pos (number_at found))
      ≡ stays_or_goes id (number_at found)
unfolding select_switch_target select_index
switch_number id current [] none q = refl
switch_number id current (r ∷ rs) none q = refl
switch_number id current [] (some i) q =
    let h = position-id_at id [] i q in absurd (omega (arith, h.0))
switch_number id current (r ∷ rs) (some i) q =
    let h = position-id_at id (r ∷ rs) i q in
    if_cases (λ (x : Option String). x ≡ some id) (suc i == 0 || ltb (length (r ∷ rs)) (suc i))
      (some "") (id_at (get_elem? (r ∷ rs) (suc i - 1))) (λ e. absurd (ground (arith, e, h.0)))
      (λ _. ap (λ (j : ℕ). id_at (get_elem? (r ∷ rs) j)) (omega arith) ∙ h.1)

number_at_iff : (found : Option ℕ) → (number_at found ≡ 0) ↔ (found ≡ none)
number_at_iff none = (λ _. refl, λ _. refl)
number_at_iff (some i) = (λ q. absurd (omega (arith, q)), λ q. cc)

-- The number that footerContentFor keeps for a session is the index at which selectSwitchTarget goes
-- to it, from whichever session and however large; it is zero, and the switcher stays, just when the
-- session is not among those that the switcher offers. The keys reach the indices 1 to 9 only, and
-- the line shows the number only when several sessions are offered. The content counts the other
-- sessions that run, and as asking for input or failed no more of them than there are.
pub footer_content_for-Returns :
    (id current : String) (records : List SessionRecord)
    → (select_switch_target
          (switchable_sessions records)
          current
          (pos 0)
          (pos (footer_content_for id records).session_number)
        ≡ stays_or_goes id (footer_content_for id records).session_number)
      × (((footer_content_for id records).session_number ≡ 0)
          ↔ (position id (switchable_sessions records) ≡ none))
      × ((footer_content_for id records).other_sessions ≡ running_beside id records)
      × ((footer_content_for id records).others_needing_input
            + (footer_content_for id records).others_failed
          ≤ (footer_content_for id records).other_sessions)
unfolding footer_content_for
footer_content_for-Returns id current records =
    let switchable = switchable_sessions records in
    let begun : FooterContent = record empty_content {
      session_count = length switchable;
      session_number = number_at (position id switchable);
    } in
    let told = tell_records-Counts id begun records in
    let Goes = λ (n : ℕ).
      (select_switch_target switchable current (pos 0) (pos n) ≡ stays_or_goes id n)
      × ((n ≡ 0) ↔ (position id switchable ≡ none)) in
    let goes = subst Goes (sym told.number) (
      switch_number id current switchable (position id switchable) refl,
      number_at_iff (position id switchable),
    ) in
    (goes.0, goes.1, told.others ∙ omega arith, told.tells (omega arith))
