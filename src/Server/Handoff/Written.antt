-- ===== src/Server/Handoff/Written.antt =====
-- What WriteAttachHandoff writes, read back and stripped.
use falkn.Base.{
  ℕ, suc, ◌+◌, ◌≡◌, ◌≢◌, refl, sym, ap, ◌∙◌, inl, inr, Bool, true, false, not, ◌&&◌, [], ◌∷◌, ◌++◌,
  none, some, length, drop, ◌==◌, arith, All, All-append, Bool-cases, take-append_exact,
}
use falkn.Base.Text.{Text, codes, has_prefix}
use falkn.Server.Handoff.{
  Base64, index, last_index, attach_handoff_prefix, attach_handoff_suffix, checked_id, encoded_id,
  command_id, attach_handoff_session_id, valid_attach_handoff_session_id, write_attach_handoff,
}

-- What the code relies on of Base64: it decodes what it encoded, and its letters are printable.
pub record IsBase64 (base64 : Base64) : Type 0 where
  pub decodes : (t : Text) → base64.decode_string (base64.encode_string t) ≡ some t
  pub no_bell : (t : Text) → All (λ c. c ≢ 7) (base64.encode_string t)
  pub no_escape : (t : Text) → All (λ c. c ≢ 0x1b) (base64.encode_string t)

pub has_prefix-append : (p s : Text) → has_prefix (p ++ s) p ≡ true
unfolding has_prefix
has_prefix-append [] [] = refl
has_prefix-append [] (c ∷ s) = refl
has_prefix-append (c ∷ p) s = ground (arith, has_prefix-append p s)

-- The prefix begins with an escape, so it is not found in a text without one.
last_index_none : (s : Text) → All (λ c. c ≢ 0x1b) s → last_index s attach_handoff_prefix ≡ none
unfolding last_index has_prefix
last_index_none [] h = refl
last_index_none (c ∷ s) h =
    let no : (c == 0x1b) ≡ false = let n = h.0 in ground arith in
    rw (last_index, last_index_none s h.1, no) refl

-- A test for the texts that are written out.
unfoldable pub lacks : ℕ → Text → Bool
lacks b [] = true
lacks b (c ∷ cs) = not (c == b) && lacks b cs

pub lacks-All : (b : ℕ) (s : Text) → lacks b s ≡ true → All (λ c. c ≢ b) s
unfolding lacks
lacks-All b [] h = tt
lacks-All b (c ∷ s) h = (ground arith, lacks-All b s (ground arith))

last_index-cons :
    (c : ℕ) (s sub : Text)
    → last_index s sub ≡ none
    → has_prefix (c ∷ s) sub ≡ true
    → last_index (c ∷ s) sub ≡ some 0
unfolding last_index
last_index-cons c s sub h k = rw (last_index, h, k) refl

abbrev pub command_word : Text
command_word = codes "]1337;FalknAttach="

command_word-All : All (λ c. c ≢ 0x1b) command_word
unfolding lacks
command_word-All = lacks-All 0x1b command_word refl

last_index_here :
    (y : Text)
    → All (λ c. c ≢ 0x1b) y
    → last_index (attach_handoff_prefix ++ y) attach_handoff_prefix ≡ some 0
last_index_here y h =
    last_index-cons 0x1b (command_word ++ y) attach_handoff_prefix
      (last_index_none (command_word ++ y)
        (All-append (λ c. c ≢ 0x1b) command_word y command_word-All h))
      (has_prefix-append attach_handoff_prefix y)

last_index_behind :
    (x s : Text)
    → last_index s attach_handoff_prefix ≡ some 0
    → last_index (x ++ s) attach_handoff_prefix ≡ some (length x)
unfolding last_index
last_index_behind [] s h = h
last_index_behind (c ∷ x) s h = rw (last_index, last_index_behind x s h) refl

pub index_suffix :
    (z r : Text) → All (λ c. c ≢ 7) z → index (z ++ 7 ∷ r) attach_handoff_suffix ≡ some (length z)
unfolding index has_prefix
index_suffix [] r h = refl
index_suffix (c ∷ z) r h =
    let no : (c == 7) ≡ false = let n = h.0 in ground arith in
    rw (index, no, index_suffix z r h.1) refl

drop-append_more : (x : Text) (k : ℕ) (s : Text) → drop (length x + k) (x ++ s) ≡ drop k s
drop-append_more [] k s = ap (λ (j : ℕ). drop j s) (omega arith)
drop-append_more (c ∷ x) k s =
    let e : suc (length x) + k ≡ suc (length x + k) = omega arith in
    ap (λ (j : ℕ). drop j (c ∷ (x ++ s))) e ∙ drop-append_more x k s

module _ (base64 : Base64) (laws : IsBase64 base64) where
  abbrev pub command_for : Text → Text
  command_for id = attach_handoff_prefix ++ (base64.encode_string id ++ attach_handoff_suffix)

  -- The command of an identifier, behind anything, reads back.
  pub command_for-session_id :
      (x id : Text)
      → valid_attach_handoff_session_id id ≡ true
      → attach_handoff_session_id base64 (x ++ command_for id) ≡ id
  unfolding attach_handoff_session_id
  command_for-session_id x id v =
      let tail = base64.encode_string id ++ attach_handoff_suffix in
      let no_escape =
        All-append (λ c. c ≢ 0x1b) (base64.encode_string id) attach_handoff_suffix
          (laws.no_escape id) (omega arith, tt) in
      let found = last_index_behind x (command_for id) (last_index_here tail no_escape) in
      ap (command_id base64 (x ++ command_for id)) found
      ∙ ap (λ (rest : Text). encoded_id base64 rest (index rest attach_handoff_suffix))
          (let e : drop (length x + length attach_handoff_prefix) (x ++ command_for id) ≡ tail =
              drop-append_more x (length attach_handoff_prefix) (command_for id) in
            e)
      ∙ ap (encoded_id base64 tail) (index_suffix (base64.encode_string id) [] (laws.no_bell id))
      ∙ ap (λ (t : Text). checked_id (base64.decode_string t))
          (take-append_exact (length (base64.encode_string id)) (base64.encode_string id)
            attach_handoff_suffix refl)
      ∙ ap checked_id (laws.decodes id)
      ∙ rw v refl

  -- A written command, behind any output, is read back as the identifier that it was written for.
  pub write_attach_handoff-session_id :
      (x id w : Text)
      → write_attach_handoff base64 id ≡ some w
      → attach_handoff_session_id base64 (x ++ w) ≡ id
  unfolding write_attach_handoff
  write_attach_handoff-session_id x id w q =
      elim (Bool-cases (valid_attach_handoff_session_id id)) [
        | inl v ↦
            let e : command_for id ≡ w = cc (rw v at q) in
            ap (λ (t : Text). attach_handoff_session_id base64 (x ++ t)) (sym e)
            ∙ command_for-session_id x id v
        | inr v ↦ cc (rw v at q)
      ]
