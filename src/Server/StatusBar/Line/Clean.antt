-- ===== src/Server/StatusBar/Line/Clean.antt =====
-- What the footer says holds no control character, whatever the sessions are called.
use falkn.Base.{
  ◌-◌, append_assoc, append-nil, subst, ℕ, ◌≡◌, refl, Bool, true, false, not, ◌&&◌, [], ◌∷◌, Option,
  none, some, ◌++◌, All, All-append, All-each, arith, ltb, if_cases, same, list_eq, nat_eq,
}
use falkn.Base.Text.{Text, codes, is_empty, trim_space}
use falkn.Base.Strings.{fields, join_with, decimal}
use falkn.Base.Strings.Words.{fields-All, join_with-All, IsDigit, decimal-IsDigits}
use falkn.Server.StatusBar.Sequences.{status_bar_style_sequence}
use falkn.Server.StatusBar.Line.{prefix_armed_style}
use falkn.Server.MenuLines.{attention_completed_style, menu_dim_style}
use falkn.Server.StatusBar.Content.{
  FooterContent, FooterSegment, is_control, without_controls, clean_status_label,
  clean_permission_mode, attention_summary, droppable_segments, kept_segments, hint_forms,
  hint_prefix, segment, segment_if, attention_needs_input_style, attention_failed_style,
}

abbrev pub IsClean : Text → Type 0
IsClean t = All (λ (c : ℕ). is_control c ≡ false) t

pub IsClean-append : (s t : Text) → IsClean s → IsClean t → IsClean (s ++ t)
IsClean-append s t = All-append (λ (c : ℕ). is_control c ≡ false) s t

abbrev pub all_clean : Text → Bool
all_clean [] = true
all_clean (c ∷ cs) = not (is_control c) && all_clean cs

-- A text that is written out.
pub literal : (t : Text) → all_clean t ≡ true → IsClean t
literal [] h = tt
literal (c ∷ cs) h = (ground (arith, h), literal cs (ground (arith, h)))

without_controls-IsClean : (t : Text) → IsClean (without_controls t)
unfolding without_controls
without_controls-IsClean [] = tt
without_controls-IsClean (c ∷ cs) =
    let rest = without_controls cs in
    let h = without_controls-IsClean cs in
    if_cases IsClean (is_control c) rest (c ∷ rest) (λ _. h) (λ e. (e, h))

pub clean_status_label-IsClean : (t : Text) → IsClean (clean_status_label t)
unfolding clean_status_label
clean_status_label-IsClean t =
    let joined = join_with (codes " ") (fields (without_controls t)) in
    if_cases IsClean (is_empty joined) (codes "session") joined
      (λ _. literal (codes "session") refl)
      (λ _.
        join_with-All _ (codes " ") (fields (without_controls t)) (refl, tt)
          (fields-All _ (without_controls t) (without_controls-IsClean t)))

digit-clean : (c : ℕ) → IsDigit c → is_control c ≡ false
digit-clean c h = let l = h.0 in let u = h.1 in ground arith

pub decimal-IsClean : (n : ℕ) → IsClean (decimal n)
decimal-IsClean n = All-each digit-clean (decimal n) (decimal-IsDigits n)

-- The styles of the footer's and the menu's parts, and their sequences.
pub data Style : Type 0 where
  needs_input_style failed_style completed_style armed_style footer_style dim_style : Style

abbrev pub sequence : Style → Text
sequence needs_input_style = attention_needs_input_style
sequence failed_style = attention_failed_style
sequence completed_style = attention_completed_style
sequence dim_style = menu_dim_style
sequence armed_style = prefix_armed_style
sequence footer_style = status_bar_style_sequence

abbrev pub sequence_or_none : Option Style → Text
sequence_or_none none = []
sequence_or_none (some st) = sequence st

-- A segment without control characters whose style is one of the footer's, or none.
pub record IsSegment (s : FooterSegment) : Type 0 where
  pub clean : IsClean s.text
  pub style : (st : Option Style) × (s.style ≡ sequence_or_none st)

in_style : (t : Text) (st : Option Style) → IsClean t → IsSegment (segment t (sequence_or_none st))
in_style t st h = record { clean = h; style = (st, refl) }

segment_if-IsSegment : (b : Bool) (s : FooterSegment) → IsSegment s → All IsSegment (segment_if b s)
segment_if-IsSegment true s h = (h, tt)
segment_if-IsSegment false s h = tt

clean_permission_mode-IsClean : (t : Text) → IsClean (clean_permission_mode t)
unfolding clean_permission_mode
clean_permission_mode-IsClean t =
    if_cases IsClean (same (trim_space t) (codes "full_access")) (codes "full access") []
      (λ _. literal (codes "full access") refl) (λ _. tt)

-- A number and what it counts.
counted : (n : ℕ) (t : Text) → all_clean t ≡ true → IsClean (decimal n ++ t)
counted n t h = IsClean-append (decimal n) t (decimal-IsClean n) (literal t h)

attention_summary-IsSegment : (c : FooterContent) → IsSegment (attention_summary c)
unfolding attention_summary
attention_summary-IsSegment c =
    if_cases IsSegment (ltb 0 c.others_needing_input) _ _
      (λ _.
        in_style _ (some needs_input_style)
          (counted c.others_needing_input (codes " needs input") refl))
      (λ _.
        if_cases IsSegment (ltb 0 c.others_failed) _ _
          (λ _. in_style _ (some failed_style) (counted c.others_failed (codes " failed") refl))
          (λ _.
            if_cases IsSegment (ltb 0 c.other_sessions) _ (segment [] [])
              (λ _. in_style _ none (counted c.other_sessions (codes " others") refl))
              (λ _. in_style [] none tt)))

pub droppable_segments-IsSegment : (c : FooterContent) → All IsSegment (droppable_segments c)
unfolding droppable_segments
droppable_segments-IsSegment c =
    let mode = clean_permission_mode c.permission_mode in
    All-append IsSegment _ _
      (segment_if-IsSegment (ltb 1 c.attached_clients) _
        (in_style _ none (refl, counted (c.attached_clients - 1) (codes " watching") refl)))
      (All-append IsSegment _ _
        (segment_if-IsSegment (not (is_empty c.title)) _
          (in_style _ none (clean_status_label-IsClean c.title)))
        (All-append IsSegment _ _
          (segment_if-IsSegment (not (is_empty c.agent) && not (same c.agent (codes "shell"))) _
            (in_style _ none (clean_status_label-IsClean c.agent)))
          (segment_if-IsSegment (not (is_empty mode)) _ (
            in_style mode (some needs_input_style)
              (clean_permission_mode-IsClean c.permission_mode)))))

pub kept_segments-IsSegment : (c : FooterContent) → All IsSegment (kept_segments c)
unfolding kept_segments
kept_segments-IsSegment c =
    All-append IsSegment _ _
      (segment_if-IsSegment (c.supports_notifications && c.notifications_muted) _
        (in_style (codes "muted") none (literal (codes "muted") refl)))
      (segment_if-IsSegment (not (is_empty (attention_summary c).text)) (attention_summary c)
        (attention_summary-IsSegment c))

-- A reminder: the prefix, and what stands behind it.
abbrev pub IsHint : FooterContent → Text → Type 0
IsHint c h = (rest : Text) × (h ≡ c.prefix_name ++ rest) × IsClean rest

hint_prefix-IsHint : (c : FooterContent) (t : Text) → IsClean t → IsHint c (hint_prefix c ++ t)
hint_prefix-IsHint c t h =
    let number = codes " [" ++ (decimal c.session_number ++ codes "]") in
    if_cases (λ p. IsHint c (p ++ t)) (ltb 1 c.session_count && ltb 0 c.session_number)
      (c.prefix_name ++ number) c.prefix_name
      (λ _. (
        number ++ t,
        append_assoc c.prefix_name number t,
        (
          refl,
          (
            refl,
            IsClean-append (decimal c.session_number ++ codes "]") t
                (counted c.session_number (codes "]") refl) h,
          ),
        ),
      ))
      (λ _. (t, refl, h))

pub hint_forms-IsHint : (c : FooterContent) → All (IsHint c) (hint_forms c)
unfolding hint_forms
hint_forms-IsHint c =
    let form = λ (t : Text). hint_prefix-IsHint c t in
    if_cases (All (IsHint c)) (is_empty c.prefix_name) [] _ (λ _. tt)
      (λ _. (
        form (codes " ↑ sessions") (literal (codes " ↑ sessions") refl),
        (
          form (codes " ↑") (literal (codes " ↑") refl),
          (subst (IsHint c) (append-nil (hint_prefix c)) (form [] tt), tt),
        ),
      ))
