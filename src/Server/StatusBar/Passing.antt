-- ===== src/Server/StatusBar/Passing.antt =====
-- Every call of the bar passes the child's bytes on.
use falkn.Base.{
  ℕ, ◌≡◌, refl, sym, ap, subst, ◌∙◌, Bool, true, false, not, List, [], ◌∷◌, ◌++◌, append_assoc,
  append-nil, length, take, arith, if◌then◌else◌, if_cases, ◌==◌,
}
use falkn.Base.Int.{ℤ}
use falkn.Base.Text.{Text, is_empty}
use falkn.Server.Handoff.{Base64, attach_handoff_session_id}
use falkn.Server.Stream.{TerminalStreamState, start, consume}
use falkn.Server.StatusBar.{
  child, StatusBar, BarResult, write_failed, handoff, BarCall, write_child, render_now, close_bar,
  resize_to, menu, show, prefix_named, ask_handoff, new_attach_status_bar, observe_layout, followed,
  with_handoff, with_handoff_tail, observe_handoff, result_of, observed, write, request_handoff,
  act, act_all,
}
use falkn.Server.StatusBar.Placed.{
  state_after, child_bytes, Placed, state_after-append, child_bytes-append, Placed-append, Sound,
  Draws, Draws-same, render_locked-Draws, render-Draws, resize-Draws, set_menu_lines-Draws,
  set_content-Draws, close-Draws,
}

module _ {C : Type 0} where
  -- From `b` to `c` the child's bytes `d` were written, and perhaps some of the bar's own.
  record Passes (d : List ℕ) (b c : StatusBar C) : Type 0 where
    sound : Sound b → Sound c
    bytes : child_bytes c.written ≡ child_bytes b.written ++ d

  Draws-Passes : {b c : StatusBar C} → Draws b c → Passes [] b c
  Draws-Passes {b} g = record {
    sound = g.sound;
    bytes = g.bytes ∙ sym (append-nil (child_bytes b.written));
  }

  Passes-Draws : {d : List ℕ} {b c e : StatusBar C} → Passes d b c → Draws c e → Passes d b e
  Passes-Draws f g = record { sound = λ v. g.sound (f.sound v); bytes = g.bytes ∙ f.bytes }

  -- Writing the child's bytes and keeping up with the stream.
  child_written :
      (d : List ℕ) (b c : StatusBar C)
      → c.written ≡ b.written ++ child d ∷ []
      → c.stream_state ≡ consume b.stream_state d
      → Passes d b c
  unfolding state_after Placed child_bytes
  child_written d b c w s =
      let one = append-nil d in
      record {
        sound = λ v. record {
          known =
              s
              ∙ ap (λ (t : TerminalStreamState). consume t d) v.known
              ∙ sym (state_after-append start b.written (child d ∷ []))
              ∙ ap (state_after start) (sym w);
          placed =
              subst (Placed start) (sym w)
                (Placed-append start b.written (child d ∷ []) v.placed tt);
        };
        bytes =
            ap child_bytes w
            ∙ child_bytes-append b.written (child d ∷ [])
            ∙ ap (◌++◌ (child_bytes b.written)) one;
      }

module _ {C : Type 0} (line : ℤ → C → Bool → Text) (accepts : Text → Bool) (base64 : Base64) where
  observe_handoff-Draws :
      (d : List ℕ) (bar : StatusBar C) → Draws bar (observe_handoff base64 d bar)
  unfolding observe_handoff
  observe_handoff-Draws d bar =
      let P = Draws bar in
      let combined = bar.handoff_sequence_tail ++ d in
      let id = attach_handoff_session_id base64 combined in
      if_cases P (not (is_empty bar.handoff_session_id)) bar _ (λ _. Draws-same bar bar refl refl)
        (λ _.
          if_cases P (not (is_empty id)) (with_handoff id bar) (with_handoff_tail combined bar)
            (λ _. Draws-same bar (with_handoff id bar) refl refl)
            (λ _. Draws-same bar (with_handoff_tail combined bar) refl refl))

  observed-Passes : (d : List ℕ) (bar : StatusBar C) → Passes d bar (observed base64 d bar)
  unfolding observed followed observe_layout
  observed-Passes d bar =
      let c = followed d bar in
      Passes-Draws (child_written d bar c refl refl) (observe_handoff-Draws d c)

  result_of-Passes :
      (d : List ℕ) (b : StatusBar C) (r : Bool × StatusBar C)
      → Passes d b r.1
      → Passes d b (result_of r).1
  result_of-Passes d b (true, c) h = h
  result_of-Passes d b (false, c) h = h

  seen-Passes :
      (d : List ℕ) (bar : StatusBar C)
      → Passes d bar (if length d == 0 then bar else observed base64 d bar)
  seen-Passes [] bar = Draws-Passes (Draws-same bar bar refl refl)
  seen-Passes (v ∷ vs) bar =
      let d = v ∷ vs in
      if_cases (Passes d bar) (length d == 0) bar (observed base64 d bar) (λ h. ground (arith, h))
        (λ _. observed-Passes d bar)

  write-Passes :
      (bytes : List ℕ) (count : ℕ) (no_error : Bool) (bar : StatusBar C)
      → Passes (take count bytes) bar (write line accepts base64 bytes count no_error bar).1
  unfolding write
  write-Passes bytes count no_error bar =
      let d = take count bytes in
      let P = λ (r : BarResult × StatusBar C). Passes d bar r.1 in
      let seen = if length d == 0 then bar else observed base64 d bar in
      let h : Passes d bar seen = seen-Passes d bar in
      if_cases P (not no_error) (write_failed, seen) _ (λ _. h)
        (λ _.
          if_cases P (not (is_empty seen.handoff_session_id)) (handoff, seen) _ (λ _. h)
            (λ _.
              result_of-Passes d bar _ (Passes-Draws h (render_locked-Draws line accepts seen))))

  request_handoff-Draws : (id : Text) (bar : StatusBar C) → Draws bar (request_handoff id bar).1
  unfolding request_handoff
  request_handoff-Draws id bar =
      if_cases (λ (r : Bool × StatusBar C). Draws bar r.1) (not (is_empty bar.handoff_session_id))
        (false, bar) (true, with_handoff id bar) (λ _. Draws-same bar bar refl refl)
        (λ _. Draws-same bar (with_handoff id bar) refl refl)

  -- The bytes that the terminal takes from the child in a call.
  unfoldable pub taken : BarCall C → List ℕ
  taken (write_child bytes count no_error) = take count bytes
  taken _ = []

  act-Passes :
      (c : BarCall C) (bar : StatusBar C) → Passes (taken c) bar (act line base64 accepts c bar)
  unfolding act taken
  act-Passes (write_child bytes count no_error) bar = write-Passes bytes count no_error bar
  act-Passes render_now bar = Draws-Passes (render-Draws line accepts bar)
  act-Passes close_bar bar = Draws-Passes (close-Draws line accepts bar)
  act-Passes (resize_to columns rows) bar =
      Draws-Passes (resize-Draws line accepts columns rows bar)
  act-Passes (menu lines) bar = Draws-Passes (set_menu_lines-Draws line accepts lines bar)
  act-Passes (show content differs) bar =
      Draws-Passes (set_content-Draws line accepts content differs bar)
  act-Passes (prefix_named content) bar =
      Draws-Passes (Draws-same bar (record bar { content = content }) refl refl)
  act-Passes (ask_handoff id) bar = Draws-Passes (request_handoff-Draws id bar)

module _ {C : Type 0} (line : ℤ → C → Bool → Text) (base64 : Base64) where
  -- The bytes that the terminal takes from the child in a sequence of calls.
  unfoldable pub all_taken : List ((Text → Bool) × BarCall C) → List ℕ
  unfolding taken
  all_taken [] = []
  all_taken ((accepts, c) ∷ cs) = taken line accepts base64 c ++ all_taken cs

  act_all-Passes :
      (cs : List ((Text → Bool) × BarCall C)) (bar : StatusBar C)
      → Passes (all_taken cs) bar (act_all line base64 cs bar)
  unfolding act_all all_taken
  act_all-Passes [] bar = Draws-Passes (Draws-same bar bar refl refl)
  act_all-Passes ((accepts, c) ∷ cs) bar =
      let now = act-Passes line accepts base64 c bar in
      let later = act_all-Passes cs (act line base64 accepts c bar) in
      let d = taken line accepts base64 c in
      record {
        sound = λ v. later.sound (now.sound v);
        bytes =
            later.bytes
            ∙ ap (λ l. l ++ all_taken cs) now.bytes
            ∙ append_assoc (child_bytes bar.written) d (all_taken cs);
      }

  -- A new bar, behind the calls.
  abbrev pub after_calls : ℤ → ℤ → C → List ((Text → Bool) × BarCall C) → StatusBar C
  after_calls columns rows content cs =
      act_all line base64 cs (new_attach_status_bar columns rows content)

  -- Whatever calls a new bar gets, and whichever of its writes the terminal refuses: the child's
  -- bytes in what was written are those that the terminal took, in order and unchanged; every write
  -- of the bar's own stands at a safe boundary of the child's bytes before it; and the bar's stream
  -- state is the one behind all the child's bytes.
  pub after_calls-passes :
      (columns rows : ℤ) (content : C) (cs : List ((Text → Bool) × BarCall C))
      → (child_bytes (after_calls columns rows content cs).written ≡ all_taken cs)
        × Placed start (after_calls columns rows content cs).written
        × ((after_calls columns rows content cs).stream_state
            ≡ state_after start (after_calls columns rows content cs).written)
  unfolding new_attach_status_bar state_after Placed child_bytes
  after_calls-passes columns rows content cs =
      let p = act_all-Passes cs (new_attach_status_bar columns rows content) in
      let v = p.sound (record { known = refl; placed = tt }) in (p.bytes, v.placed, v.known)
