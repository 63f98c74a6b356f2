-- ===== src/Server/Stream/Boundary.antt =====
-- Where the state machine finds a safe boundary.
use falkn.Base.{ℕ, ◌≡◌, ◌≢◌, ◌↔◌, refl, ap, ◌∙◌, ◌⊎◌, inl, inr, true, false, List, [], ◌∷◌, ◌++◌}
use falkn.Server.Stream.{TerminalStreamState, start, safe_boundary, consume_byte, consume}
use falkn.Server.Stream.Tokens.{Token, Closing, last, more, Token-Closing}

pub consume-append :
    (s : TerminalStreamState) (xs ys : List ℕ) → consume s (xs ++ ys) ≡ consume (consume s xs) ys
unfolding consume
consume-append s [] ys = refl
consume-append s (x ∷ xs) ys = consume-append (consume_byte s x) xs ys

pub Closing-consume : {s : TerminalStreamState} {t : List ℕ} → Closing s t → consume s t ≡ start
unfolding consume
Closing-consume (last c e) = e
Closing-consume (more c u k) = Closing-consume k

Closing-inside :
    {s : TerminalStreamState} {t : List ℕ}
    → Closing s t
    → (p q : List ℕ) → t ≡ p ++ q
    → p ≢ []
    → q ≢ []
    → safe_boundary (consume s p) ≡ false
unfolding consume
Closing-inside k [] q e hp hq = absurd (hp refl)
Closing-inside (last c x) (d ∷ []) q e hp hq = absurd (hq (cc))
Closing-inside (last c x) (d ∷ f ∷ p) q e hp hq = cc
Closing-inside {s} (more c u k) (d ∷ []) q e hp hq = let e' : c ≡ d = cc in rw e' at u
Closing-inside {s} (more c {cs} u k) (d ∷ f ∷ p) q e hp hq =
    let e' : c ≡ d = cc in
    let r : cs ≡ (f ∷ p) ++ q = cc in
    rw e' at (Closing-inside {s = consume_byte s c} k (f ∷ p) q r (λ z. cc) hq)

-- Output that is made of complete units.
pub data Tokens : List ℕ → Type 0 where
  none : Tokens []
  token : {t rest : List ℕ} → Token t → Tokens rest → Tokens (t ++ rest)

-- Two ways to cut one list: the second cut lies behind the first, or before its end.
append_cuts :
    (t rest p q : List ℕ)
    → t ++ rest ≡ p ++ q
    → ((m : List ℕ) × (p ≡ t ++ m) × (rest ≡ m ++ q)) ⊎ ((m : List ℕ) × (m ≢ []) × (t ≡ p ++ m))
append_cuts [] rest p q e = inl (p, refl, e)
append_cuts (x ∷ t) rest [] q e = inr (x ∷ t, (λ z. cc), refl)
append_cuts (x ∷ t) rest (y ∷ p) q e =
    let h : x ≡ y = cc in
    let r : t ++ rest ≡ p ++ q = cc in
    elim (append_cuts t rest p q r) [
      | inl (m, a, b) ↦ inl (m, (rw (h, a) refl), b)
      | inr (m, a, b) ↦ inr (m, a, (rw (h, b) refl))
    ]

Tokens-safe : {xs : List ℕ} → Tokens xs → consume start xs ≡ start
unfolding consume
Tokens-safe none = refl
Tokens-safe (token {t} {rest} k ks) =
    consume-append start t rest
    ∙ ap (λ s. consume s rest) (Closing-consume (Token-Closing k))
    ∙ Tokens-safe ks

is_empty_or_not : (p : List ℕ) → (p ≡ []) ⊎ (p ≢ [])
is_empty_or_not [] = inl refl
is_empty_or_not (x ∷ xs) = inr (λ z. cc)

boundary-Tokens :
    {xs : List ℕ}
    → Tokens xs
    → (p q : List ℕ) → xs ≡ p ++ q
    → safe_boundary (consume start p) ≡ true
    → Tokens p
boundary-Tokens none [] q e h = none
boundary-Tokens none (x ∷ p) q e h = cc
boundary-Tokens (token {t} {rest} k ks) p q e h = elim (append_cuts t rest p q e) [
  | inl (m, a, b) ↦
      let back =
        consume-append start t m ∙ ap (λ s. consume s m) (Closing-consume (Token-Closing k)) in
      rw a (token k (boundary-Tokens ks m q b (rw (a, back) at h)))
  | inr (m, ne, b) ↦ elim (is_empty_or_not p) [
    | inl z ↦ rw z none
    | inr nz ↦ cc (Closing-inside (Token-Closing k) p m b nz ne)
  ]
]

-- In output that is made of complete characters and escape sequences, the state machine reports a
-- safe boundary behind a first part exactly when that part is itself made of complete units: never
-- inside an escape sequence, a control string or a character, and always between two of them.
pub safe_boundary_iff :
    {xs : List ℕ}
    → Tokens xs
    → (p q : List ℕ) → xs ≡ p ++ q
    → (safe_boundary (consume start p) ≡ true) ↔ Tokens p
unfolding safe_boundary
safe_boundary_iff ts p q e = (boundary-Tokens ts p q e, λ k. rw (Tokens-safe k) refl)
