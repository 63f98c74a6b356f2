-- ===== src/Server/Handoff/Stripped.antt =====
-- stripAttachHandoffs ends, and what it removes reads as commands.
use falkn.Base.{
  ℕ, zero, suc, ◌+◌, ◌-◌, ◌≤◌, ◌<◌, ◌≡◌, ◌≢◌, refl, sym, ap, subst, ◌∙◌, [], ◌∷◌, ◌++◌,
  append_assoc, Option, none, some, length, drop, ltb, arith, if_cases, ltb→lt, take-append-drop,
  drop-drop,
}
use falkn.Base.Text.{Text, is_empty}
use falkn.Server.Handoff.{
  Base64, index, attach_handoff_prefix, attach_handoff_suffix, attach_handoff_session_id, slice,
  strip_rest, kept_so_far, StripTurn, leave, strip_on, end_turn, start_turn, strip_turn, strip_loop,
  strip_attach_handoffs,
}

module _ (base64 : Base64) where
  -- `t` is `s` without some stretches that each read as a command with a session's identifier.
  pub data Removes : Text → Text → Type 0 where
    done : Removes [] []
    keep : (c : ℕ) {s t : Text} → Removes s t → Removes (c ∷ s) (c ∷ t)
    remove :
        (command : Text) {s t : Text}
        → attach_handoff_session_id base64 command ≢ []
        → Removes s t
        → Removes (command ++ s) t

  keep_all : (x s t : Text) → Removes s t → Removes (x ++ s) (x ++ t)
  keep_all [] s t r = r
  keep_all (c ∷ x) s t r = keep c (keep_all x s t r)

  unchanged : (s : Text) → Removes s s
  unchanged [] = done
  unchanged (c ∷ s) = keep c (unchanged s)

  split_at :
      (from_ to_ : ℕ) (bytes : Text)
      → from_ ≤ to_
      → drop from_ bytes ≡ slice from_ to_ bytes ++ drop to_ bytes
  split_at from_ to_ bytes h =
      sym (take-append-drop (to_ - from_) (drop from_ bytes))
      ∙ ap (◌++◌ (slice from_ to_ bytes))
          (drop-drop (to_ - from_) from_ bytes ∙ ap (λ (k : ℕ). drop k bytes) (omega arith))

  module _ (bytes : Text) (cursor search_from : ℕ) (stripped : Option Text) where
    -- A turn that goes on moves on, and what the rest of the loop keeps completes what it kept.
    record MovesOn (next_cursor next_search : ℕ) (next : Option Text) : Type 0 where
      moved : search_from < next_search
      within : search_from < length bytes
      behind : next_cursor ≤ next_search
      fresh : next ≡ none → next_cursor ≡ 0
      completes :
          (u : Text)
          → Removes (drop next_cursor bytes) u
          → (v : Text) × Removes (drop cursor bytes) v
            × (kept_so_far stripped ++ v ≡ kept_so_far next ++ u)

    abbrev GoesOn : StripTurn → Type 0
    GoesOn leave = Unit
    GoesOn (strip_on next_cursor next_search next) = MovesOn next_cursor next_search next

    module _ (h : cursor ≤ search_from) (first : stripped ≡ none → cursor ≡ 0) where
      end_turn-GoesOn :
          (start : ℕ) (o : Option ℕ)
          → search_from < length bytes
          → search_from ≤ start
          → GoesOn (end_turn base64 bytes cursor stripped start o)
      end_turn-GoesOn start none k l = tt
      end_turn-GoesOn start (some relative_end) k l =
          let encoded_start = start + length attach_handoff_prefix in
          let end_at = encoded_start + relative_end + length attach_handoff_suffix in
          let command = slice start end_at bytes in
          if_cases GoesOn (is_empty (attach_handoff_session_id base64 command)) _ _
            (λ _. record {
              moved = omega arith;
              within = k;
              behind = omega arith;
              fresh = first;
              completes = λ u r. (u, r, refl);
            })
            (λ full. record {
              moved = omega arith;
              within = k;
              behind = omega arith;
              fresh = λ q. cc;
              completes = λ u r.
                  let one = split_at cursor start bytes (omega arith) in
                  let two = split_at start end_at bytes (omega arith) in
                  let named : attach_handoff_session_id base64 command ≢ [] =
                    λ q. cc (ap is_empty q, full) in
                  let kept = keep_all (slice cursor start bytes) _ _ (remove command named r) in
                  (
                    slice cursor start bytes ++ u,
                    subst (λ x. Removes x (slice cursor start bytes ++ u))
                        (sym (one ∙ ap (◌++◌ (slice cursor start bytes)) two)) kept,
                    sym (append_assoc (kept_so_far stripped) (slice cursor start bytes) u),
                  );
            })

      start_turn-GoesOn :
          (o : Option ℕ)
          → search_from < length bytes
          → GoesOn (start_turn base64 bytes cursor search_from stripped o)
      start_turn-GoesOn none k = tt
      start_turn-GoesOn (some relative_start) k =
          end_turn-GoesOn (search_from + relative_start) _ k (omega arith)

      strip_turn-GoesOn : GoesOn (strip_turn base64 bytes cursor search_from stripped)
      unfolding strip_turn
      strip_turn-GoesOn =
          if_cases GoesOn (ltb search_from (length bytes)) _ _
            (λ t.
              start_turn-GoesOn (index (drop search_from bytes) attach_handoff_prefix)
                (ltb→lt search_from (length bytes) t))
            (λ _. tt)

  abbrev Ends : Text → ℕ → Option Text → Option Text → Type 0
  Ends bytes cursor stripped result =
      (v : Text) × (result ≡ some (kept_so_far stripped ++ v)) × Removes (drop cursor bytes) v

  strip_rest-kept :
      (bytes : Text) (cursor : ℕ) (stripped : Option Text)
      → (stripped ≡ none → cursor ≡ 0)
      → strip_rest stripped cursor bytes ≡ kept_so_far stripped ++ drop cursor bytes
  strip_rest-kept bytes cursor none first = ap (λ (k : ℕ). drop k bytes) (sym (first refl))
  strip_rest-kept bytes cursor (some t) first = refl

  after_turn-Ends :
      (bytes : Text) (fuel cursor search_from : ℕ) (stripped : Option Text)
      → length bytes - search_from < suc fuel
      → (stripped ≡ none → cursor ≡ 0)
      → ((c s : ℕ) (o : Option Text)
          → length bytes - s < fuel
          → c ≤ s
          → (o ≡ none → c ≡ 0)
          → Ends bytes c o (strip_loop fuel base64 bytes c s o))
      → (t : StripTurn) → GoesOn bytes cursor search_from stripped t
      → Ends bytes cursor stripped (elim t [
        | leave ↦ some (strip_rest stripped cursor bytes)
        | strip_on next_cursor next_search next ↦
            strip_loop fuel base64 bytes next_cursor next_search next
      ])
  after_turn-Ends bytes fuel cursor search_from stripped l first rest leave w =
      (drop cursor bytes, ap some (strip_rest-kept bytes cursor stripped first), unchanged _)
  after_turn-Ends bytes fuel cursor search_from stripped l first rest (strip_on c s o) w =
      let within = w.within in
      let moved = w.moved in
      let (u, ends, r) = rest c s o (omega arith) w.behind w.fresh in
      let (v, removed, e) = w.completes u r in (v, ends ∙ ap some (sym e), removed)

  strip_loop-Ends :
      (bytes : Text) (fuel cursor search_from : ℕ) (stripped : Option Text)
      → length bytes - search_from < fuel
      → cursor ≤ search_from
      → (stripped ≡ none → cursor ≡ 0)
      → Ends bytes cursor stripped (strip_loop fuel base64 bytes cursor search_from stripped)
  unfolding strip_loop
  strip_loop-Ends bytes zero cursor search_from stripped l h first = absurd (omega arith)
  strip_loop-Ends bytes (suc fuel) cursor search_from stripped l h first =
      after_turn-Ends bytes fuel cursor search_from stripped l first (strip_loop-Ends bytes fuel)
        (strip_turn base64 bytes cursor search_from stripped)
        (strip_turn-GoesOn bytes cursor search_from stripped h first)

-- Stripping ends within its fuel for any history, and what it leaves is the history without some
-- stretches that each read as a command with a session's identifier.
pub strip_attach_handoffs-Removes :
    (base64 : Base64) (bytes : Text)
    → (v : Text) × (strip_attach_handoffs base64 bytes ≡ some v) × Removes base64 bytes v
unfolding strip_attach_handoffs
strip_attach_handoffs-Removes base64 bytes =
    strip_loop-Ends base64 bytes (suc (length bytes)) 0 0 none (omega arith) (omega arith)
      (λ _. refl)
