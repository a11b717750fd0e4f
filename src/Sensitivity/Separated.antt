-- ===== src/Sensitivity/Separated.antt =====
-- oxcer-core/src/data_sensitivity.rs, `merge_findings` and `dedup_contained`: what is left is in order
-- and apart, and covers what was found.
use oxcer_agent.Prelude.{
  ℕ, suc, ◌≤◌, ◌<◌, ◌≡◌, refl, true, false, List, [], ◌∷◌, leb, leb_false→lt, All, inl, inr,
  Bool-cases, arith,
}
use oxcer_agent.Text.{Text}
use oxcer_agent.Security.{SensitivityLevel, level_rank, SensitivityFinding}
use oxcer_agent.Sensitivity.{Span}
use oxcer_agent.Sensitivity.Merge.{
  sort_by_key, merged_with, merge_from, merge_overlapping_spans, merge_findings,
}
use oxcer_agent.Sensitivity.Spans.{IsSpan, Has, Covers}
use oxcer_agent.Sensitivity.Sorted.{
  IsAscending, IsAscending-weaken, sort_by_key-IsAscending, sort_by_key-All, sort_by_key-Has,
}

-- Findings that are not empty, each behind the end of the one before with a gap between them.
abbrev pub IsSeparated : ℕ → List SensitivityFinding → Type 0
IsSeparated lo [] = Unit
IsSeparated lo (f ∷ fs) =
    (lo ≤ f.span_start) × (f.span_start < f.span_end) × IsSeparated (suc f.span_end) fs

pub IsSeparated-weaken :
    (lo lo' : ℕ) (fs : List SensitivityFinding) → lo ≤ lo' → IsSeparated lo' fs → IsSeparated lo fs
IsSeparated-weaken lo lo' [] h sep = tt
IsSeparated-weaken lo lo' (f ∷ fs) h (from, filled, rest) = (omega arith, filled, rest)

merged_with-rank_last :
    (last f : SensitivityFinding) → level_rank last.level ≤ level_rank (merged_with last f).level
unfolding merged_with
merged_with-rank_last last f = ground arith

merged_with-rank :
    (last f : SensitivityFinding) → level_rank f.level ≤ level_rank (merged_with last f).level
unfolding merged_with
merged_with-rank last f = ground arith

merged_with-end_last : (last f : SensitivityFinding) → last.span_end ≤ (merged_with last f).span_end
unfolding merged_with
merged_with-end_last last f = ground arith

merged_with-end : (last f : SensitivityFinding) → f.span_end ≤ (merged_with last f).span_end
unfolding merged_with
merged_with-end last f = ground arith

merge_from-merged_with :
    (last f : SensitivityFinding) (fs : List SensitivityFinding)
    → leb f.span_start last.span_end ≡ true
    → merge_from last (f ∷ fs) ≡ merge_from (merged_with last f) fs
unfolding merge_from
merge_from-merged_with last f fs e = rw (e, merge_from) refl

merge_from_apart :
    (last f : SensitivityFinding) (fs : List SensitivityFinding)
    → leb f.span_start last.span_end ≡ false
    → merge_from last (f ∷ fs) ≡ last ∷ merge_from f fs
unfolding merge_from
merge_from_apart last f fs e = rw (e, merge_from) refl

merge_from-IsSeparated :
    (last : SensitivityFinding) (fs : List SensitivityFinding)
    → last.span_start < last.span_end
    → All (λ f. f.span_start < f.span_end) fs
    → IsAscending last.span_start fs
    → IsSeparated last.span_start (merge_from last fs)
unfolding merge_from
merge_from-IsSeparated last [] filled filled_each asc = (omega arith, filled, tt)
merge_from-IsSeparated last (f ∷ fs) filled (one, filled_each) (from, asc) =
    elim (Bool-cases (leb f.span_start last.span_end)) [
      | inl e ↦ rw (merge_from-merged_with last f fs e) (
          unfold merged_with in
          merge_from-IsSeparated (merged_with last f) fs
            (omega (arith, merged_with-end_last last f)) filled_each
            (IsAscending-weaken last.span_start f.span_start fs from asc))
      | inr e ↦ rw (merge_from_apart last f fs e) (
        omega arith,
        filled,
        IsSeparated-weaken (suc last.span_end) f.span_start (merge_from f fs)
            (omega (arith, leb_false→lt f.span_start last.span_end e))
            (merge_from-IsSeparated f fs one filled_each asc),
      )
    ]

-- What was covered stays covered.
module _ (level : SensitivityLevel) (span : Span) where
  Covers-merged_with_last :
      (last f : SensitivityFinding)
      → Covers level span last
      → Covers level span (merged_with last f)
  Covers-merged_with_last last f c = record {
    from_start = unfold merged_with in c.from_start;
    to_end = omega (arith, c.to_end, merged_with-end_last last f);
    as_high = omega (arith, c.as_high, merged_with-rank_last last f);
  }

  Covers-merged_with :
      (last f : SensitivityFinding)
      → last.span_start ≤ f.span_start
      → Covers level span f
      → Covers level span (merged_with last f)
  Covers-merged_with last f from c = record {
    from_start = unfold merged_with in omega (arith, c.from_start);
    to_end = omega (arith, c.to_end, merged_with-end last f);
    as_high = omega (arith, c.as_high, merged_with-rank last f);
  }

  merge_from-Covers :
      (last : SensitivityFinding) (fs : List SensitivityFinding)
      → IsAscending last.span_start fs
      → Has (Covers level span) (last ∷ fs)
      → Has (Covers level span) (merge_from last fs)
  unfolding merge_from
  merge_from-Covers last [] asc has = has
  merge_from-Covers last (f ∷ fs) (from, asc) has =
      elim (Bool-cases (leb f.span_start last.span_end)) [
        | inl e ↦ rw (merge_from-merged_with last f fs e) (
            merge_from-Covers (merged_with last f) fs
              (unfold merged_with in IsAscending-weaken last.span_start f.span_start fs from asc)
              (elim has [
                | inl here ↦ inl (Covers-merged_with_last last f here)
                | inr later ↦ elim later [
                  | inl next ↦ inl (Covers-merged_with last f from next)
                  | inr rest ↦ inr rest
                ]
              ]))
        | inr e ↦
            rw (merge_from_apart last f fs e) (elim has [
              | inl here ↦ inl here
              | inr later ↦ inr (merge_from-Covers f fs asc later)
            ])
      ]

merged_with-IsSpan :
    (input : Text) (last f : SensitivityFinding)
    → IsSpan input last
    → IsSpan input f
    → IsSpan input (merged_with last f)
merged_with-IsSpan input last f h g = record {
  starts = unfold merged_with in h.starts;
  ends =
      unfold merged_with in
      elim (Bool-cases (leb last.span_end f.span_end)) [
        | inl e ↦ rw e g.ends
        | inr e ↦ rw e h.ends
      ];
  filled = unfold merged_with in omega (arith, h.filled, merged_with-end_last last f);
  grave = omega (arith, h.grave, merged_with-rank_last last f);
}

merge_from-IsSpan :
    (input : Text) (last : SensitivityFinding) (fs : List SensitivityFinding)
    → IsSpan input last
    → All (IsSpan input) fs
    → All (IsSpan input) (merge_from last fs)
unfolding merge_from
merge_from-IsSpan input last [] h spans = (h, tt)
merge_from-IsSpan input last (f ∷ fs) h (g, spans) =
    elim (Bool-cases (leb f.span_start last.span_end)) [
      | inl e ↦ rw (merge_from-merged_with last f fs e) (
          merge_from-IsSpan input (merged_with last f) fs (merged_with-IsSpan input last f h g)
            spans)
      | inr e ↦ rw (merge_from_apart last f fs e) (h, merge_from-IsSpan input f fs g spans)
    ]

filled_each :
    (input : Text) (fs : List SensitivityFinding)
    → All (IsSpan input) fs
    → All (λ f. f.span_start < f.span_end) fs
filled_each input [] spans = tt
filled_each input (f ∷ fs) (one, spans) = (one.filled, filled_each input fs spans)

merge_overlapping_spans-IsSeparated :
    (input : Text) (fs : List SensitivityFinding)
    → All (IsSpan input) fs
    → IsAscending 0 fs
    → IsSeparated 0 (merge_overlapping_spans fs)
unfolding merge_overlapping_spans
merge_overlapping_spans-IsSeparated input [] spans asc = tt
merge_overlapping_spans-IsSeparated input (f ∷ fs) (one, spans) (from, asc) =
    IsSeparated-weaken 0 f.span_start (merge_from f fs) from
      (merge_from-IsSeparated f fs one.filled (filled_each input fs spans) asc)

merge_overlapping_spans-IsSpan :
    (input : Text) (fs : List SensitivityFinding)
    → All (IsSpan input) fs
    → All (IsSpan input) (merge_overlapping_spans fs)
unfolding merge_overlapping_spans
merge_overlapping_spans-IsSpan input [] spans = tt
merge_overlapping_spans-IsSpan input (f ∷ fs) (one, spans) = merge_from-IsSpan input f fs one spans

merge_overlapping_spans-Covers :
    (level : SensitivityLevel) (span : Span) (fs : List SensitivityFinding)
    → IsAscending 0 fs
    → Has (Covers level span) fs
    → Has (Covers level span) (merge_overlapping_spans fs)
unfolding merge_overlapping_spans
merge_overlapping_spans-Covers level span [] asc has = has
merge_overlapping_spans-Covers level span (f ∷ fs) (from, asc) has =
    merge_from-Covers level span f fs asc has

-- What is merged is in order, with a gap between one finding and the next.
pub merge_findings-IsSeparated :
    (input : Text) (fs : List SensitivityFinding)
    → All (IsSpan input) fs
    → IsSeparated 0 (merge_findings fs)
unfolding merge_findings
merge_findings-IsSeparated input fs spans =
    merge_overlapping_spans-IsSeparated input (sort_by_key fs)
      (sort_by_key-All (IsSpan input) fs spans) (sort_by_key-IsAscending fs)

pub merge_findings-IsSpan :
    (input : Text) (fs : List SensitivityFinding)
    → All (IsSpan input) fs
    → All (IsSpan input) (merge_findings fs)
unfolding merge_findings
merge_findings-IsSpan input fs spans =
    merge_overlapping_spans-IsSpan input (sort_by_key fs) (sort_by_key-All (IsSpan input) fs spans)

pub merge_findings-Covers :
    (level : SensitivityLevel) (span : Span) (fs : List SensitivityFinding)
    → Has (Covers level span) fs
    → Has (Covers level span) (merge_findings fs)
unfolding merge_findings
merge_findings-Covers level span fs has =
    merge_overlapping_spans-Covers level span (sort_by_key fs) (sort_by_key-IsAscending fs)
      (sort_by_key-Has (Covers level span) fs has)
