-- ===== src/Server/Handoff/Unterminated.antt =====
-- A prefix that nothing terminates, with a command behind it.
use falkn.Base.{
  ℕ, suc, ◌+◌, ◌-◌, ◌≡◌, ◌≢◌, refl, sym, ap, ◌∙◌, true, false, [], ◌∷◌, ◌++◌, append_assoc, Option,
  none, some, length, ltb, arith, All, All-append, Bool-cases, inl, inr, length-append, take_all,
  drop_all,
}
use falkn.Base.Text.{Text, codes, is_empty, has_prefix}
use falkn.Server.Handoff.{
  Base64, index, attach_handoff_prefix, attach_handoff_suffix, attach_handoff_session_id,
  valid_attach_handoff_session_id, write_attach_handoff, slice, strip_rest, leave, strip_on,
  end_turn, start_turn, strip_turn, strip_loop, strip_attach_handoffs,
}
use falkn.Server.Handoff.Written.{
  IsBase64, command_for, command_for-session_id, index_suffix, has_prefix-append, lacks, lacks-All,
}

index_here : (c : ℕ) (s sub : Text) → has_prefix (c ∷ s) sub ≡ true → index (c ∷ s) sub ≡ some 0
unfolding index
index_here c s sub h = rw (index, h) refl

module _ (base64 : Base64) (bytes : Text) (cursor search_from : ℕ) (kept : Option Text)
    (fuel : ℕ) where
  strip_loop-goes :
      {c s : ℕ} {o : Option Text}
      → strip_turn base64 bytes cursor search_from kept ≡ strip_on c s o
      → strip_loop (suc fuel) base64 bytes cursor search_from kept
        ≡ strip_loop fuel base64 bytes c s o
  unfolding strip_loop
  strip_loop-goes e = rw (strip_loop, e) refl

  strip_loop-leaves :
      strip_turn base64 bytes cursor search_from kept ≡ leave
      → strip_loop (suc fuel) base64 bytes cursor search_from kept
        ≡ some (strip_rest kept cursor bytes)
  unfolding strip_loop
  strip_loop-leaves e = rw (strip_loop, e) refl

module _ (base64 : Base64) (laws : IsBase64 base64) (body id : Text) (h : All (λ c. c ≢ 7) body)
    (v : valid_attach_handoff_session_id id ≡ true) (ne : is_empty id ≡ false) where
  abbrev whole : Text
  whole = attach_handoff_prefix ++ (body ++ command_for base64 laws id)

  abbrev inside : Text
  inside = body ++ (attach_handoff_prefix ++ base64.encode_string id)

  abbrev end_at : ℕ
  end_at = 19 + length inside + 1

  inside-All : All (λ c. c ≢ 7) inside
  unfolding lacks
  inside-All =
      All-append (λ c. c ≢ 7) body (attach_handoff_prefix ++ base64.encode_string id) h
        (All-append (λ c. c ≢ 7) attach_handoff_prefix (base64.encode_string id)
          (lacks-All 7 attach_handoff_prefix refl) (laws.no_bell id))

  whole-inside : body ++ command_for base64 laws id ≡ inside ++ attach_handoff_suffix
  whole-inside =
      sym
        (append_assoc body (attach_handoff_prefix ++ base64.encode_string id) attach_handoff_suffix)

  whole-index :
      index (body ++ command_for base64 laws id) attach_handoff_suffix ≡ some (length inside)
  whole-index =
      ap (λ (t : Text). index t attach_handoff_suffix) whole-inside
      ∙ index_suffix inside [] inside-All

  length-whole : length whole ≡ end_at
  length-whole = omega (
    arith,
    ap length whole-inside,
    length-append inside attach_handoff_suffix,
    length-append attach_handoff_prefix (body ++ command_for base64 laws id),
  )

  slice-id : attach_handoff_session_id base64 (slice 0 end_at whole) ≡ id
  slice-id =
      ap (attach_handoff_session_id base64)
        (take_all (end_at - 0) whole (omega (arith, length-whole)))
      ∙ command_for-session_id base64 laws (attach_handoff_prefix ++ body) id v

  first_turn : strip_turn base64 whole 0 0 none ≡ strip_on end_at end_at (some [])
  unfolding strip_turn
  first_turn =
      let some_bytes : ltb 0 (length whole) ≡ true = let e = length-whole in ground arith in
      let e1 : strip_turn base64 whole 0 0 none
          ≡ start_turn base64 whole 0 0 none (index whole attach_handoff_prefix) =
        rw (strip_turn, some_bytes) refl in
      let found =
        index_here 0x1b (codes "]1337;FalknAttach=" ++ (body ++ command_for base64 laws id))
          attach_handoff_prefix
          (has_prefix-append attach_handoff_prefix (body ++ command_for base64 laws id)) in
      let e2 = ap (start_turn base64 whole 0 0 none) found in
      let e3 = ap (end_turn base64 whole 0 none 0) whole-index in
      let full : is_empty (attach_handoff_session_id base64 (slice 0 end_at whole)) ≡ false =
        ap is_empty slice-id ∙ ne in
      e1 ∙ e2 ∙ e3 ∙ rw full refl

  second_turn : strip_turn base64 whole end_at end_at (some []) ≡ leave
  unfolding strip_turn
  second_turn =
      let no_bytes : ltb end_at (length whole) ≡ false = let e = length-whole in ground arith in
      rw (strip_turn, no_bytes) refl

  stripped : strip_attach_handoffs base64 whole ≡ some []
  unfolding strip_attach_handoffs
  stripped =
      strip_loop-goes base64 whole 0 0 none (length whole) first_turn
      ∙ strip_loop-leaves base64 whole end_at end_at (some [])
          (length (codes "]1337;FalknAttach=" ++ (body ++ command_for base64 laws id))) second_turn
      ∙ ap some (drop_all end_at whole (omega (arith, length-whole)))

written_command :
    (base64 : Base64) (laws : IsBase64 base64) (id w : Text)
    → write_attach_handoff base64 id ≡ some w
    → (w ≡ command_for base64 laws id) × (valid_attach_handoff_session_id id ≡ true)
unfolding write_attach_handoff
written_command base64 laws id w q = elim (Bool-cases (valid_attach_handoff_session_id id)) [
  | inl v ↦ (cc (rw v at q), v)
  | inr v ↦ cc (rw v at q)
]

valid-is_empty : (id : Text) → valid_attach_handoff_session_id id ≡ true → is_empty id ≡ false
unfolding valid_attach_handoff_session_id
valid-is_empty [] v = cc
valid-is_empty (c ∷ cs) v = refl

-- In a history that begins with the text of a command's start, with any output without the byte that
-- ends a command, and with a command that was written for a session, stripping removes everything,
-- the output too.
pub strip_attach_handoffs_unterminated :
    (base64 : Base64) (laws : IsBase64 base64) (output id w : Text)
    → All (λ c. c ≢ 7) output
    → write_attach_handoff base64 id ≡ some w
    → strip_attach_handoffs base64 (attach_handoff_prefix ++ (output ++ w)) ≡ some []
strip_attach_handoffs_unterminated base64 laws output id w h q =
    let (e, v) = written_command base64 laws id w q in
    ap (λ (t : Text). strip_attach_handoffs base64 (attach_handoff_prefix ++ (output ++ t))) e
    ∙ stripped base64 laws output id h v (valid-is_empty id v)
