-- ===== src/Server/StatusBar/Placed.antt =====
-- The bar's own writes stand between complete units of the child's output, which passes unchanged.
use falkn.Base.{
  ℕ, ◌≡◌, refl, sym, ap, subst, ◌∙◌, inl, inr, Bool, true, false, not, ◌&&◌, ◌||◌, List, [], ◌∷◌,
  ◌++◌, append_assoc, append-nil, length, arith, if_cases, Bool-cases, ◌==◌,
}
use falkn.Base.Int.{ℤ}
use falkn.Base.Text.{Text}
use falkn.Server.Stream.{TerminalStreamState, start, safe_boundary, consume}
use falkn.Server.StatusBar.{
  resized, with_menu, with_content, Piece, child, chrome, StatusBar, write_own, is_visible,
  clear_rows, frame, draw, draw_after, nothing_pending, render_locked, render, resize,
  set_menu_lines, set_content, cleared_all, close,
}
use falkn.Server.StatusBar.Sequences.{clear_sequence}

-- The stream's state behind the pieces, and the child's bytes in them.
unfoldable pub state_after : TerminalStreamState → List Piece → TerminalStreamState
state_after s [] = s
state_after s (child bytes ∷ ps) = state_after (consume s bytes) ps
state_after s (chrome t ∷ ps) = state_after s ps

unfoldable pub child_bytes : List Piece → List ℕ
child_bytes [] = []
child_bytes (child bytes ∷ ps) = bytes ++ child_bytes ps
child_bytes (chrome t ∷ ps) = child_bytes ps

-- Every write of the bar's own meets the child's stream at a safe boundary.
unfoldable pub Placed : TerminalStreamState → List Piece → Type 0
Placed s [] = Unit
Placed s (child bytes ∷ ps) = Placed (consume s bytes) ps
Placed s (chrome t ∷ ps) = (safe_boundary s ≡ true) × Placed s ps

pub state_after-append :
    (s : TerminalStreamState) (ps qs : List Piece)
    → state_after s (ps ++ qs) ≡ state_after (state_after s ps) qs
unfolding state_after
state_after-append s [] qs = refl
state_after-append s (child bytes ∷ ps) qs = state_after-append (consume s bytes) ps qs
state_after-append s (chrome t ∷ ps) qs = state_after-append s ps qs

pub child_bytes-append :
    (ps qs : List Piece) → child_bytes (ps ++ qs) ≡ child_bytes ps ++ child_bytes qs
unfolding child_bytes
child_bytes-append [] qs = refl
child_bytes-append (child bytes ∷ ps) qs =
    ap (◌++◌ bytes) (child_bytes-append ps qs)
    ∙ sym (append_assoc bytes (child_bytes ps) (child_bytes qs))
child_bytes-append (chrome t ∷ ps) qs = child_bytes-append ps qs

pub Placed-append :
    (s : TerminalStreamState) (ps qs : List Piece)
    → Placed s ps
    → Placed (state_after s ps) qs
    → Placed s (ps ++ qs)
unfolding Placed state_after
Placed-append s [] qs h k = k
Placed-append s (child bytes ∷ ps) qs h k = Placed-append (consume s bytes) ps qs h k
Placed-append s (chrome t ∷ ps) qs h k = (h.0, Placed-append s ps qs h.1 k)

module _ {C : Type 0} where
  -- The bar knows where the child's stream is, and its own writes were placed well.
  pub record Sound (bar : StatusBar C) : Type 0 where
    pub known : bar.stream_state ≡ state_after start bar.written
    pub placed : Placed start bar.written

  -- From `b` to `c` only writes of the bar's own were made.
  pub record Draws (b c : StatusBar C) : Type 0 where
    pub sound : Sound b → Sound c
    pub state : c.stream_state ≡ b.stream_state
    pub bytes : child_bytes c.written ≡ child_bytes b.written

  pub Draws-same :
      (b c : StatusBar C) → c.written ≡ b.written → c.stream_state ≡ b.stream_state → Draws b c
  Draws-same b c w s = record {
    sound = λ v. record {
      known = s ∙ v.known ∙ ap (state_after start) (sym w);
      placed = subst (Placed start) (sym w) v.placed;
    };
    state = s;
    bytes = ap child_bytes w;
  }

  pub Draws-trans : {b c e : StatusBar C} → Draws b c → Draws c e → Draws b e
  Draws-trans f g = record {
    sound = λ v. g.sound (f.sound v);
    state = g.state ∙ f.state;
    bytes = g.bytes ∙ f.bytes;
  }

  Draws-write_own :
      (t : Text) (bar : StatusBar C)
      → safe_boundary bar.stream_state ≡ true
      → Draws bar (write_own t bar)
  unfolding Placed state_after child_bytes
  Draws-write_own t bar safe = record {
    sound = λ v. record {
      known = v.known ∙ sym (state_after-append start bar.written (chrome t ∷ []));
      placed =
          Placed-append start bar.written (chrome t ∷ []) v.placed
            (ap safe_boundary (sym v.known) ∙ safe, tt);
    };
    state = refl;
    bytes = child_bytes-append bar.written (chrome t ∷ []) ∙ append-nil (child_bytes bar.written);
  }

module _ {C : Type 0} (line : ℤ → C → Bool → Text) (accepts : Text → Bool) where
  clear_rows-Draws :
      (rows : List ℤ) (bar : StatusBar C)
      → safe_boundary bar.stream_state ≡ true
      → Draws bar (clear_rows line accepts rows bar).1
  unfolding clear_rows
  clear_rows-Draws [] bar safe = Draws-same bar bar refl refl
  clear_rows-Draws (row ∷ rows) bar safe =
      let first = Draws-write_own (clear_sequence row) bar safe in
      elim (Bool-cases (accepts (clear_sequence row))) [
        | inl e ↦
            rw (clear_rows, e)
              (Draws-trans first (clear_rows-Draws rows (write_own (clear_sequence row) bar) safe))
        | inr e ↦ rw (clear_rows, e) first
      ]

  draw-Draws :
      (bar : StatusBar C)
      → safe_boundary bar.stream_state ≡ true
      → Draws bar (draw line accepts bar).1
  unfolding draw
  draw-Draws bar safe =
      let P = λ (r : Bool × StatusBar C). Draws bar r.1 in
      let t = frame line accepts bar in
      if_cases P (not (is_visible bar)) _ _ (λ _. Draws-same bar _ refl refl)
        (λ _.
          if_cases P (accepts t) _ (false, write_own t bar)
            (λ _.
              Draws-trans (Draws-write_own t bar safe) (Draws-same (write_own t bar) _ refl refl))
            (λ _. Draws-write_own t bar safe))

  draw_after-Draws :
      (b : StatusBar C) (r : Bool × StatusBar C)
      → safe_boundary b.stream_state ≡ true
      → Draws b r.1
      → Draws b (draw_after line accepts r).1
  draw_after-Draws b (false, bar) safe h = h
  draw_after-Draws b (true, bar) safe h =
      let ready : StatusBar C = record bar { pending_clear_rows = [] } in
      Draws-trans h (
        Draws-trans (Draws-same bar ready refl refl)
          (draw-Draws ready (ap safe_boundary h.state ∙ safe)))

  pub render_locked-Draws : (bar : StatusBar C) → Draws bar (render_locked line accepts bar).1
  unfolding render_locked
  render_locked-Draws bar =
      let P = λ (r : Bool × StatusBar C). Draws bar r.1 in
      if_cases P ((bar.closed || not (safe_boundary bar.stream_state)) || nothing_pending bar)
        (true, bar) (draw_after line accepts (clear_rows line accepts bar.pending_clear_rows bar))
        (λ _. Draws-same bar bar refl refl)
        (λ h.
          let safe : safe_boundary bar.stream_state ≡ true = ground (arith, h) in
          draw_after-Draws bar _ safe (clear_rows-Draws bar.pending_clear_rows bar safe))

  -- Some change of the bar, and a rendering.
  rendered-Draws :
      (b c : StatusBar C)
      → c.written ≡ b.written
      → c.stream_state ≡ b.stream_state
      → Draws b (render_locked line accepts c).1
  rendered-Draws b c w s = Draws-trans (Draws-same b c w s) (render_locked-Draws c)

  pub render-Draws : (bar : StatusBar C) → Draws bar (render line accepts bar).1
  unfolding render
  render-Draws bar = rendered-Draws bar (record bar { render_pending = true }) refl refl

  pub resize-Draws :
      (columns rows : ℤ) (bar : StatusBar C) → Draws bar (resize line accepts columns rows bar).1
  unfolding resize resized
  resize-Draws columns rows bar = rendered-Draws bar (resized columns rows bar) refl refl

  pub set_menu_lines-Draws :
      (lines : List Text) (bar : StatusBar C) → Draws bar (set_menu_lines line accepts lines bar).1
  unfolding set_menu_lines with_menu
  set_menu_lines-Draws lines bar =
      let P = λ (r : Bool × StatusBar C). Draws bar r.1 in
      if_cases P (length lines == 0 && length bar.menu_lines == 0) (true, bar)
        (render_locked line accepts (with_menu lines bar)) (λ _. Draws-same bar bar refl refl)
        (λ _. rendered-Draws bar (with_menu lines bar) refl refl)

  pub set_content-Draws :
      (content : C) (differs : Bool) (bar : StatusBar C)
      → Draws bar (set_content line accepts content differs bar).1
  unfolding set_content
  set_content-Draws content true bar = rendered-Draws bar (with_content content bar) refl refl
  set_content-Draws content false bar = Draws-same bar bar refl refl

  cleared_all-Draws :
      (b : StatusBar C) (r : Bool × StatusBar C)
      → safe_boundary b.stream_state ≡ true
      → Draws b r.1
      → Draws b (cleared_all line accepts r).1
  cleared_all-Draws b (false, bar) safe h = h
  cleared_all-Draws b (true, bar) safe h =
      let P = λ (r : Bool × StatusBar C). Draws b r.1 in
      if_cases P (is_visible bar) _ (true, bar)
        (λ _. Draws-trans h (clear_rows-Draws _ bar (ap safe_boundary h.state ∙ safe))) (λ _. h)

  pub close-Draws : (bar : StatusBar C) → Draws bar (close line accepts bar).1
  unfolding close
  close-Draws bar =
      let P = λ (r : Bool × StatusBar C). Draws bar r.1 in
      let shut : StatusBar C = record bar { closed = true } in
      let shuts = Draws-same bar shut refl refl in
      if_cases P bar.closed (true, bar) _ (λ _. Draws-same bar bar refl refl)
        (λ _.
          if_cases P (not (safe_boundary bar.stream_state)) (true, shut) _ (λ _. shuts)
            (λ h.
              let safe : safe_boundary bar.stream_state ≡ true = ground (arith, h) in
              cleared_all-Draws bar _ safe
                (Draws-trans shuts (clear_rows-Draws bar.pending_clear_rows shut safe))))
