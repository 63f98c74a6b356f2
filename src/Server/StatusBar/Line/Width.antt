-- ===== src/Server/StatusBar/Line/Width.antt =====
-- The footer's line takes up exactly the columns that it is given.
use falkn.Base.{
  ℕ, ◌+◌, ◌-◌, ◌≤◌, ◌≡◌, refl, sym, ap, subst, ◌∙◌, Bool, List, [], ◌∷◌, ◌++◌, Option, none, some,
  length, length-append, drop-append_exact, All, All-append, arith, ltb, leb, ◌==◌, if◌then◌else◌,
  if_cases,
}
use falkn.Base.Int.{ℤ}
use falkn.Base.Text.{Text, codes, is_empty}
use falkn.Base.Strings.{trim_prefix}
use falkn.Server.Handoff.Written.{has_prefix-append}
use falkn.Server.StatusBar.Sequences.{status_bar_style_sequence}
use falkn.Server.StatusBar.Content.{FooterContent, FooterSegment, hint_forms}
use falkn.Server.StatusBar.Line.{
  footer_mark, at_least_one, line_width, segments_width, footer_visible_width, styled,
  render_segments, render_footer, padding, pad_footer, truncate_runes, render_hint, last_only,
  or_else, with_hint, first_hint, fit_hint, fit_segments, fit_plain, line_or, status_bar_line,
}
use falkn.Server.StatusBar.Line.Clean.{
  IsClean, IsClean-append, literal, Style, needs_input_style, failed_style, completed_style,
  dim_style, armed_style, footer_style, sequence, sequence_or_none, IsSegment, IsHint,
  droppable_segments-IsSegment, kept_segments-IsSegment, hint_forms-IsHint,
}
use falkn.Server.StatusBar.Line.Shows.{
  Shows, nothing, rune, style, counted, Shows-append, clean-Shows, style_alone, rule-Shows,
  truncate_runes-IsClean,
}

styled-Shows : (s : FooterSegment) → IsSegment s → Shows (length s.text) (styled s)
styled-Shows s h = in_style s.text s.style h.clean h.style.0 h.style.1
  where
    shown_in :
        (t : Text) (st : Style)
        → IsClean t
        → Shows (length t) (sequence st ++ (t ++ status_bar_style_sequence))
    shown_in t st c =
        style st (counted (omega arith) (Shows-append (clean-Shows t c) (style_alone footer_style)))

    in_style :
        (t before : Text)
        → IsClean t
        → (st : Option Style) → before ≡ sequence_or_none st
        → Shows
            (length t)
            (if is_empty before then t else before ++ (t ++ status_bar_style_sequence))
    in_style t before c none e = rw e (clean-Shows t c)
    in_style t before c (some needs_input_style) e = rw e (shown_in t needs_input_style c)
    in_style t before c (some failed_style) e = rw e (shown_in t failed_style c)
    in_style t before c (some completed_style) e = rw e (shown_in t completed_style c)
    in_style t before c (some dim_style) e = rw e (shown_in t dim_style c)
    in_style t before c (some armed_style) e = rw e (shown_in t armed_style c)
    in_style t before c (some footer_style) e = rw e (shown_in t footer_style c)

render_segments-Shows :
    (ss : List FooterSegment) → All IsSegment ss → Shows (segments_width ss) (render_segments ss)
unfolding segments_width render_segments
render_segments-Shows [] h = nothing
render_segments-Shows (s ∷ ss) h = counted (omega arith) (
    Shows-append (clean-Shows (codes " · ") (literal (codes " · ") refl))
      (Shows-append (styled-Shows s h.0) (render_segments-Shows ss h.1)))

render_footer-Shows :
    (ss : List FooterSegment)
    → All IsSegment ss
    → Shows (footer_visible_width ss) (render_footer ss)
render_footer-Shows ss h =
    Shows-append (clean-Shows footer_mark (literal footer_mark refl)) (render_segments-Shows ss h)

padding-Shows : (n : ℕ) → Shows n (padding n)
padding-Shows n =
    if_cases (Shows n) (ltb 1 n) _ _
      (λ e. counted (ground (arith, e)) (rune 0x20 refl (rule-Shows (n - 1))))
      (λ e.
        if_cases (Shows n) (n == 1) (codes " ") []
          (λ q. counted (ground (arith, q)) (rune 0x20 refl nothing))
          (λ q. counted (ground (arith, e, q)) nothing))

pad_footer-Shows :
    {visible : ℕ} {line : Text} (width : ℕ)
    → Shows visible line
    → visible ≤ width
    → Shows width (pad_footer line visible width)
pad_footer-Shows {visible} {line} width h le =
    counted (omega (arith, le)) (Shows-append h (padding-Shows (width - visible)))

trim_prefix-append : (p t : Text) → trim_prefix (p ++ t) p ≡ t
unfolding trim_prefix
trim_prefix-append p t = rw (has_prefix-append p t) (drop-append_exact p t)

-- A hint fits the columns that it is counted for, also while the prefix is held.
render_hint-Shows :
    (c : FooterContent) (hint : Text)
    → IsClean c.prefix_name
    → IsHint c hint
    → Shows (length hint) (render_hint c hint)
unfolding render_hint
render_hint-Shows c hint p (rest, e, h) =
    let whole = subst IsClean (sym e) (IsClean-append c.prefix_name rest p h) in
    let behind = trim_prefix hint c.prefix_name in
    let trimmed : behind ≡ rest =
      ap (λ (t : Text). trim_prefix t c.prefix_name) e ∙ trim_prefix-append c.prefix_name rest in
    let columns : length c.prefix_name + length rest ≡ length hint =
      sym (length-append c.prefix_name rest) ∙ ap length (sym e) in
    if_cases (Shows (length hint)) c.prefix_armed _ hint
      (λ _. style armed_style (
        counted columns (
          Shows-append (clean-Shows c.prefix_name p)
            (style footer_style (subst (Shows (length rest)) (sym trimmed) (clean-Shows rest h))))))
      (λ _. clean-Shows hint whole)

columns_add_up :
    (v h width : ℕ)
    → v + h + 3 ≤ width
    → v + (1 + (at_least_one (width - v - h - 2) + (1 + h))) ≡ width
columns_add_up v h width le = ground (arith, le)

with_hint-Shows :
    (width : ℕ) (c : FooterContent) (ss : List FooterSegment) (hint : Text)
    → footer_visible_width ss + length hint + 3 ≤ width
    → All IsSegment ss
    → IsClean c.prefix_name
    → IsHint c hint
    → Shows width (with_hint width c ss hint)
with_hint-Shows width c ss hint le hs p h =
    let gap = width - footer_visible_width ss - length hint - 2 in
    let space : Shows 1 (codes " ") = rune 0x20 refl nothing in
    counted (columns_add_up (footer_visible_width ss) (length hint) width le) (
      Shows-append (render_footer-Shows ss hs) (
        Shows-append space (
          Shows-append (rule-Shows (at_least_one gap))
            (Shows-append space (render_hint-Shows c hint p h)))))

-- What was found shows `width` columns.
abbrev Fits : ℕ → Option Text → Type 0
Fits width none = Unit
Fits width (some t) = Shows width t

or_else-Fits :
    (width : ℕ) (x y : Option Text) → Fits width x → Fits width y → Fits width (or_else x y)
or_else-Fits width none y h k = k
or_else-Fits width (some t) y h k = h

module _ (width : ℕ) (c : FooterContent) (p : IsClean c.prefix_name) where
  first_hint-Fits :
      (ss : List FooterSegment) (hints : List Text)
      → All IsSegment ss
      → All (IsHint c) hints
      → Fits width (first_hint width c ss hints)
  unfolding first_hint
  first_hint-Fits ss [] hs h = tt
  first_hint-Fits ss (hint ∷ hints) hs h =
      if_cases (Fits width) (ltb width (footer_visible_width ss + length hint + 3)) _ _
        (λ _. first_hint-Fits ss hints hs h.1)
        (λ e. with_hint-Shows width c ss hint (ground (arith, e)) hs p h.0)

  fit_hint-Fits :
      (hints : List Text) (ds kept : List FooterSegment)
      → All (IsHint c) hints
      → All IsSegment ds
      → All IsSegment kept
      → Fits width (fit_hint width c hints ds kept)
  unfolding fit_hint
  fit_hint-Fits hints [] kept h hd hk = first_hint-Fits kept hints hk h
  fit_hint-Fits hints (d ∷ ds) kept h hd hk =
      or_else-Fits width _ _
        (first_hint-Fits ((d ∷ ds) ++ kept) hints (All-append IsSegment (d ∷ ds) kept hd hk) h)
        (fit_hint-Fits hints ds kept h hd.1 hk)

module _ (width : ℕ) where
  fit_segments-Fits :
      (ss : List FooterSegment) → All IsSegment ss → Fits width (fit_segments width ss)
  fit_segments-Fits ss h =
      if_cases (Fits width) (leb (footer_visible_width ss) width) _ none
        (λ e. pad_footer-Shows width (render_footer-Shows ss h) (ground (arith, e))) (λ _. tt)

  fit_fit_segments-Fits :
      (ds kept : List FooterSegment)
      → All IsSegment ds
      → All IsSegment kept
      → Fits width (fit_plain width ds kept)
  unfolding fit_plain
  fit_fit_segments-Fits [] kept hd hk = fit_segments-Fits kept hk
  fit_fit_segments-Fits (d ∷ ds) kept hd hk =
      or_else-Fits width _ _
        (fit_segments-Fits ((d ∷ ds) ++ kept) (All-append IsSegment (d ∷ ds) kept hd hk))
        (fit_fit_segments-Fits ds kept hd.1 hk)

line_or-Shows :
    (width : ℕ) (x : Option Text) (t : Text)
    → Fits width x
    → Shows width t
    → Shows width (line_or x t)
line_or-Shows width none t h k = k
line_or-Shows width (some u) t h k = h

last_only-IsHint :
    (c : FooterContent) (hints : List Text)
    → All (IsHint c) hints
    → All (IsHint c) (last_only hints)
unfolding last_only
last_only-IsHint c [] h = tt
last_only-IsHint c (g ∷ []) h = h
last_only-IsHint c (g ∷ k ∷ ks) h = last_only-IsHint c (k ∷ ks) h.1

-- The footer's line shows exactly one rune less than the terminal has columns, or one when that is
-- less, beside the sequences of its styles. None of the runes is a control character, whatever the
-- titles of the sessions hold, provided that the name of the prefix has none.
pub status_bar_line-Shows :
    (columns : ℤ) (c : FooterContent) (menu_open : Bool)
    → IsClean c.prefix_name
    → Shows (line_width columns) (status_bar_line columns c menu_open)
unfolding status_bar_line
status_bar_line-Shows columns c menu_open p =
    let width = line_width columns in
    let forms = hint_forms-IsHint c in
    let ds = droppable_segments-IsSegment c in
    let kept = kept_segments-IsSegment c in
    let truncated = truncate_runes footer_mark width in
    let cut = truncate_runes-IsClean footer_mark width (literal footer_mark refl) in
    line_or-Shows width _ _
      (fit_hint-Fits width c p _ _ _
        (if_cases (All (IsHint c)) menu_open _ _ (λ _. last_only-IsHint c (hint_forms c) forms)
          (λ _. forms))
        ds kept)
      (line_or-Shows width _ _ (fit_fit_segments-Fits width _ _ ds kept)
        (pad_footer-Shows width (clean-Shows truncated cut.0) cut.1))
