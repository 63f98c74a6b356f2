-- ===== src/Server/StatusBar/Line/Shows.antt =====
-- How many runes a line of the status bar or of the switcher shows.
use falkn.Base.{
  ℕ, zero, suc, ◌+◌, ◌-◌, ◌≤◌, ◌≡◌, refl, sym, subst, false, [], ◌∷◌, ◌++◌, append_assoc,
  append-nil, length, length-append, take, length-take, All-take, arith, leb, ◌==◌, if_cases,
}
use falkn.Base.Text.{Text, codes}
use falkn.Server.StatusBar.Content.{is_control}
use falkn.Server.StatusBar.Line.{rule, truncate_runes}
use falkn.Server.StatusBar.Line.Clean.{IsClean, IsClean-append, literal, Style, sequence}

-- The text shows `n` runes, none of them a control character, beside the sequences of styles.
pub data Shows : ℕ → Text → Type 0 where
  nothing : Shows 0 []
  rune : (c : ℕ) {n : ℕ} {t : Text} → is_control c ≡ false → Shows n t → Shows (suc n) (c ∷ t)
  style : (st : Style) {n : ℕ} {t : Text} → Shows n t → Shows n (sequence st ++ t)

pub counted : {m n : ℕ} {t : Text} → m ≡ n → Shows m t → Shows n t
counted {t = t} e h = subst (λ i. Shows i t) e h

pub Shows-append : {m n : ℕ} {s t : Text} → Shows m s → Shows n t → Shows (m + n) (s ++ t)
Shows-append nothing k = counted (omega arith) k
Shows-append (rune c e h) k = counted (omega arith) (rune c e (Shows-append h k))
Shows-append {t = t} (style st {t = s} h) k =
    subst (Shows _) (sym (append_assoc (sequence st) s t)) (style st (Shows-append h k))

pub clean-Shows : (t : Text) → IsClean t → Shows (length t) t
clean-Shows [] h = nothing
clean-Shows (c ∷ cs) h = rune c h.0 (clean-Shows cs h.1)

pub style_alone : (st : Style) → Shows 0 (sequence st)
style_alone st = subst (Shows 0) (append-nil (sequence st)) (style st nothing)

pub rule-Shows : (n : ℕ) → Shows n (rule n)
rule-Shows zero = nothing
rule-Shows (suc n) = rune 0x2500 refl (rule-Shows n)

pub truncate_runes-IsClean :
    (t : Text) (maximum : ℕ)
    → IsClean t
    → IsClean (truncate_runes t maximum) × (length (truncate_runes t maximum) ≤ maximum)
unfolding truncate_runes
truncate_runes-IsClean t maximum h =
    let P = λ (u : Text). IsClean u × (length u ≤ maximum) in
    let cut = take (maximum - 1) t in
    let dots = codes "…" in
    let shorter = length-take (maximum - 1) t in
    let joined = length-append cut dots in
    let kept : IsClean cut = All-take _ (maximum - 1) t h in
    if_cases P (maximum == 0) [] _ (λ _. (tt, omega arith))
      (λ not_zero.
        if_cases P (leb (length t) maximum) t _ (λ e. (h, ground (arith, e)))
          (λ _.
            if_cases P (maximum == 1) dots (cut ++ dots)
              (λ e. (literal dots refl, ground (arith, e)))
              (λ e. (
                IsClean-append cut dots kept (literal dots refl),
                ground (arith, not_zero, e, shorter, joined),
              ))))
