-- ===== src/Session/Transcript/Controls.antt =====
-- What stripTerminalControls keeps, against a grammar of terminal output.
use falkn.Base.{
  ℕ, ◌≡◌, ◌≢◌, ◌≤◌, ◌<◌, ◌⊎◌, refl, ap, ◌∙◌, true, false, ◌&&◌, List, [], ◌∷◌, ◌++◌, arith, All,
  leb,
}
use falkn.Session.Transcript.{
  is_control, plain, escape, csi, osc, keeps, scan, strip_from, strip_terminal_controls,
}

-- A byte that is kept: from the space on, or a backspace, a tab, a newline or a return.
abbrev pub IsPrintable : ℕ → Type 0
IsPrintable b = (0x20 ≤ b) ⊎ ((b ≡ 8) ⊎ ((b ≡ 9) ⊎ ((b ≡ 10) ⊎ (b ≡ 13))))

-- A control byte that stands alone and is dropped.
pub record IsLoneControl (b : ℕ) : Type 0 where
  pub low : b < 0x20
  pub not_backspace : b ≢ 8
  pub not_tab : b ≢ 9
  pub not_newline : b ≢ 10
  pub not_return : b ≢ 13
  pub not_escape : b ≢ 0x1b

-- A byte in front of the final one of a control sequence.
abbrev pub IsParameter : ℕ → Type 0
IsParameter b = (b < 0x40) ⊎ (0x7e < b)

-- A byte of an operating system command.
abbrev pub IsBody : ℕ → Type 0
IsBody b = (b ≢ 7) × (b ≢ 0x1b)

-- The sequences that begin with ESC: `ESC [` with parameters and a final byte, `ESC ]` up to a bell or
-- to `ESC \`, and ESC with one other byte.
pub data IsSequence : List ℕ → Type 0 where
  control_sequence :
      (params : List ℕ) (final : ℕ)
      → All IsParameter params
      → 0x40 ≤ final
      → final ≤ 0x7e
      → IsSequence (0x1b ∷ b'[' ∷ (params ++ final ∷ []))
  system_command_bell :
      (body : List ℕ) → All IsBody body → IsSequence (0x1b ∷ b']' ∷ (body ++ 7 ∷ []))
  system_command :
      (body : List ℕ) → All IsBody body → IsSequence (0x1b ∷ b']' ∷ (body ++ 0x1b ∷ b'\\' ∷ []))
  short_sequence : (b : ℕ) → b ≢ b'[' → b ≢ b']' → IsSequence (0x1b ∷ b ∷ [])

-- The output `raw` shows the text: the bytes that are kept, without the lone controls and sequences.
pub data ShowsText : List ℕ → List ℕ → Type 0 where
  ended : ShowsText [] []
  kept :
      (b : ℕ) {raw text : List ℕ}
      → IsPrintable b
      → ShowsText raw text
      → ShowsText (b ∷ raw) (b ∷ text)
  dropped :
      (b : ℕ) {raw text : List ℕ} → IsLoneControl b → ShowsText raw text → ShowsText (b ∷ raw) text
  skipped :
      (s : List ℕ) {raw text : List ℕ}
      → IsSequence s
      → ShowsText raw text
      → ShowsText (s ++ raw) text

keeps-printable : (b : ℕ) → IsPrintable b → keeps plain b ≡ true
unfolding keeps is_control
keeps-printable b h = ground (arith, h)

keeps-lone : (b : ℕ) → IsLoneControl b → keeps plain b ≡ false
unfolding keeps is_control
keeps-lone b h =
    let low = h.low in
    let backspace = h.not_backspace in
    let tab = h.not_tab in let newline = h.not_newline in let return_ = h.not_return in ground arith

scan-plain : (b : ℕ) (rest : List ℕ) → b ≢ 0x1b → scan plain b rest ≡ plain
unfolding scan
scan-plain b rest h = ground (arith, h)

strip_kept :
    (b : ℕ) (raw : List ℕ) → IsPrintable b → strip_from plain (b ∷ raw) ≡ b ∷ strip_from plain raw
unfolding strip_from
strip_kept b raw h =
    let no_escape : b ≢ 0x1b = λ e. omega (arith, h, e) in
    rw (keeps-printable b h, scan-plain b raw no_escape) refl

strip_dropped :
    (b : ℕ) (raw : List ℕ) → IsLoneControl b → strip_from plain (b ∷ raw) ≡ strip_from plain raw
unfolding strip_from
strip_dropped b raw h = rw (keeps-lone b h, scan-plain b raw h.not_escape) refl

strip_csi :
    (params rest : List ℕ) (final : ℕ)
    → All IsParameter params
    → 0x40 ≤ final
    → final ≤ 0x7e
    → strip_from csi ((params ++ final ∷ []) ++ rest) ≡ strip_from plain rest
unfolding strip_from scan keeps
strip_csi [] rest final p l u =
    let e : (leb 0x40 final && leb final 0x7e) ≡ true = ground (arith, l, u) in rw e refl
strip_csi (b ∷ bs) rest final p l u =
    let q = p.0 in
    let e : (leb 0x40 b && leb b 0x7e) ≡ false = ground (arith, q) in
    rw e (strip_csi bs rest final p.1 l u)

strip_osc :
    (body rest : List ℕ)
    → All IsBody body
    → (strip_from osc ((body ++ 7 ∷ []) ++ rest) ≡ strip_from plain rest)
      × (strip_from osc ((body ++ 0x1b ∷ b'\\' ∷ []) ++ rest) ≡ strip_from plain rest)
unfolding strip_from scan keeps
strip_osc [] rest h = (refl, refl)
strip_osc (b ∷ bs) rest h =
    let (no_bell, no_escape) = h.0 in
    let step =
      λ (more : List ℕ). let e : scan osc b more ≡ osc = ground (arith, no_bell, no_escape) in e in
    let later = strip_osc bs rest h.1 in
    (
      ap (λ m. strip_from m ((bs ++ 7 ∷ []) ++ rest)) (step ((bs ++ 7 ∷ []) ++ rest)) ∙ later.0,
      ap (λ m. strip_from m ((bs ++ 0x1b ∷ b'\\' ∷ []) ++ rest))
            (step ((bs ++ 0x1b ∷ b'\\' ∷ []) ++ rest))
          ∙ later.1,
    )

strip_sequence :
    (s raw : List ℕ) → IsSequence s → strip_from plain (s ++ raw) ≡ strip_from plain raw
unfolding strip_from scan keeps
strip_sequence s raw (control_sequence params final p l u) = strip_csi params raw final p l u
strip_sequence s raw (system_command_bell body h) = (strip_osc body raw h).0
strip_sequence s raw (system_command body h) = (strip_osc body raw h).1
strip_sequence s raw (short_sequence b x y) =
    let e : scan escape b raw ≡ plain = ground (arith, x, y) in ap (λ m. strip_from m raw) e

-- Stripping leaves exactly the text that the output shows: every byte from the space on and every
-- backspace, tab, newline and return outside a sequence, in order, and nothing of the sequences and
-- of the other control bytes; for output that ends in no open sequence.
pub strip_terminal_controls-ShowsText :
    (raw text : List ℕ) → ShowsText raw text → strip_terminal_controls raw ≡ text
unfolding strip_terminal_controls
strip_terminal_controls-ShowsText raw text ended = unfold strip_from in refl
strip_terminal_controls-ShowsText raw text (kept b h k) =
    strip_kept b _ h ∙ ap (◌∷◌ b) (strip_terminal_controls-ShowsText _ _ k)
strip_terminal_controls-ShowsText raw text (dropped b h k) =
    strip_dropped b _ h ∙ strip_terminal_controls-ShowsText _ _ k
strip_terminal_controls-ShowsText raw text (skipped s h k) =
    strip_sequence s _ h ∙ strip_terminal_controls-ShowsText _ _ k
