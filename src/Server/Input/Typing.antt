-- ===== src/Server/Input/Typing.antt =====
-- Typing reaches the session.
use falkn.Base.{
  ℕ, ◌≡◌, refl, ap, ◌∙◌, Bool, true, false, List, [], ◌∷◌, ◌++◌, append_assoc, append-nil, ◌==◌,
  arith, All,
}
use falkn.Server.Input.{
  idle, Event, typed, Handlers, Reader, onward, go_on, push, emit, flush, flush_bytes, consume_in,
  consume_byte, offer_menu, focus_report, consume_front, consume_from, report_prefix_state, finish,
  consume,
}

-- A byte that begins nothing of Falkn's.
pub record IsPlain (h : Handlers) (v : ℕ) : Type 0 where
  pub unprefixed : (v == h.prefix) ≡ false
  pub unescaped : (v == 0x1b) ≡ false

-- A reader that holds back nothing.
abbrev pub resting : ℕ → Bool → List Event → List ℕ → Reader
resting introducer muted history out = record {
  mode = idle;
  introducer = introducer;
  menu_mode = idle;
  out = out;
  armed_reported = false;
  notifications_muted = muted;
  history = history;
}

plain-focus_report : (v : ℕ) (rest : List ℕ) → (v == 0x1b) ≡ false → focus_report (v ∷ rest) ≡ false
unfolding focus_report
plain-focus_report v [] h = refl
plain-focus_report v (b ∷ []) h = refl
plain-focus_report v (b ∷ c ∷ rest) h = rw h refl

module _ (h : Handlers) (shut : (history : List Event) → h.menu_open history ≡ false)
    (introducer : ℕ) (muted : Bool) (history : List Event) where
  offer_menu-shut :
      (v : ℕ) (out : List ℕ)
      → offer_menu h v (resting introducer muted history out)
        ≡ (false, resting introducer muted history out)
  unfolding offer_menu
  offer_menu-shut v out = ground (arith, shut history)

  consume_front-plain :
      (v : ℕ) (rest out : List ℕ)
      → IsPlain h v
      → consume_front h (v ∷ rest) v (false, resting introducer muted history out)
        ≡ (onward, 0, resting introducer muted history (out ++ v ∷ []))
  unfolding consume_front consume_byte consume_in push
  consume_front-plain v rest out p = rw (plain-focus_report v rest p.unescaped, p.unprefixed) refl

  consume_from-plain :
      (bytes out : List ℕ)
      → All (IsPlain h) bytes
      → consume_from h 0 bytes (resting introducer muted history out)
        ≡ (onward, resting introducer muted history (out ++ bytes))
  unfolding consume_from
  consume_from-plain [] out p = rw (append-nil out) refl
  consume_from-plain (v ∷ rest) out p =
      ap (λ x. go_on (λ skip r. consume_from h skip rest r) (consume_front h (v ∷ rest) v x))
        (offer_menu-shut v out)
      ∙ (ap (go_on (λ skip r. consume_from h skip rest r)) (consume_front-plain v rest out p.0)
          ∙ (consume_from-plain rest (out ++ v ∷ []) p.1
              ∙ ap (λ o. (onward, resting introducer muted history o))
                  (append_assoc out (v ∷ []) rest)))

  -- A read without the prefix and without an escape, while the switcher is closed and no prefixed key
  -- is under way, is sent to the session byte for byte in one frame, and the reader waits for nothing.
  pub consume-typed :
      (v : ℕ) (rest out : List ℕ)
      → All (IsPlain h) (v ∷ rest)
      → h.writes history ≡ true
      → consume h (v ∷ rest) (resting introducer muted history out)
        ≡ (true, resting introducer muted (history ++ typed (v ∷ rest) ∷ []) [])
  unfolding consume
  consume-typed v rest out p w =
      ap (finish h) (consume_from-plain (v ∷ rest) [] p)
      ∙ (unfold finish flush flush_bytes emit report_prefix_state in rw w refl)
