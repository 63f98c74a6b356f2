-- ===== src/Session/History/Sequence/Overlap.antt =====
-- What appendWithLineOverlap keeps.
use falkn.Base.{
  ℕ, ◌-◌, ◌≡◌, refl, sym, ap, ◌∙◌, ◌⊎◌, inl, inr, List, [], ◌∷◌, ◌++◌, length, take, drop, Eq,
  arith, Bool-cases, take-append-drop, append_assoc, append-nil, suffix, drop_all,
}
use falkn.Session.History.Sequence.{
  contains_line_sequence, longest_suffix_prefix, overlap_append, append_with_line_overlap,
}
use falkn.Session.History.Sequence.Laws.{
  IsRun, Overlaps, contains_line_sequence_iff, longest_suffix_prefix_greatest,
}

module _ {ℓ} {A : Type ℓ} where
  Overlaps-IsRun :
      (left right : List A) (n : ℕ)
      → Overlaps left right n
      → left ++ drop n right ≡ take (length left - n) left ++ right
  Overlaps-IsRun left right n o =
      ap (λ l. l ++ drop n right) (sym (take-append-drop (length left - n) left))
      ∙ append_assoc (take (length left - n) left) (suffix n left) (drop n right)
      ∙ ap (λ l. take (length left - n) left ++ (l ++ drop n right)) o
      ∙ ap (◌++◌ (take (length left - n) left)) (take-append-drop n right)

  -- The result is `existing` followed by the end of `addition` from row `from` on, and holds
  -- `addition` as a run: at its end, unless nothing was added.
  pub record Keeps (existing addition result : List A) : Type ℓ where
    pub from : ℕ
    pub extends : result ≡ existing ++ drop from addition
    pub holds : IsRun addition result
    pub ends : (result ≡ existing) ⊎ ((before : List A) × (result ≡ before ++ addition))

module _ {ℓ} {A : Type ℓ} ⦃e : Eq A⦄ where
  overlap_append-Keeps :
      (existing addition : List A) → Keeps existing addition (overlap_append existing addition)
  unfolding overlap_append
  overlap_append-Keeps existing addition =
      let n = longest_suffix_prefix existing addition in
      record {
        from = n;
        extends = refl;
        holds = (
          take (length existing - n) existing,
          [],
          Overlaps-IsRun existing addition n (longest_suffix_prefix_greatest existing addition).2
              ∙ ap (◌++◌ (take (length existing - n) existing)) (sym (append-nil addition)),
        );
        ends = inr (
          take (length existing - n) existing,
          Overlaps-IsRun existing addition n (longest_suffix_prefix_greatest existing addition).2,
        );
      }

  -- appendWithLineOverlap never loses or moves a row that was there, adds only rows from the end of
  -- the addition, and leaves the whole addition readable as a run
  -- of the result: at its end, unless the result is what was there.
  pub append_with_line_overlap-Keeps :
      (existing addition : List A)
      → Keeps existing addition (append_with_line_overlap existing addition)
  unfolding append_with_line_overlap
  append_with_line_overlap-Keeps [] addition = record {
    from = 0;
    extends = refl;
    holds = ([], [], sym (append-nil addition));
    ends = inr ([], refl);
  }
  append_with_line_overlap-Keeps (x ∷ xs) [] = record {
    from = 0;
    extends = sym (append-nil (x ∷ xs));
    holds = ([], x ∷ xs, refl);
    ends = inl refl;
  }
  append_with_line_overlap-Keeps (x ∷ xs) (y ∷ ys) =
      elim (Bool-cases (contains_line_sequence (x ∷ xs) (y ∷ ys))) [
        | inl old ↦ rw old (record {
          from = length (y ∷ ys);
          extends =
              sym (append-nil (x ∷ xs))
              ∙ ap (◌++◌ (x ∷ xs)) (sym (drop_all (length (y ∷ ys)) (y ∷ ys) (omega arith)));
          holds = (contains_line_sequence_iff (x ∷ xs) (y ∷ ys)).0 old;
          ends = inl refl;
        })
        | inr new ↦ rw new (overlap_append-Keeps (x ∷ xs) (y ∷ ys))
      ]
