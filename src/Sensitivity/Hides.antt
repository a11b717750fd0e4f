-- ===== src/Sensitivity/Hides.antt =====
-- oxcer-core/src/data_sensitivity.rs, `classify_and_mask`: what the masked text holds.
use mathlib.Core.Path.{subst}
use oxcer_agent.Prelude.{ℕ, ◌≤◌, ◌≡◌, refl, sym, List, [], ◌∷◌, Option, some, All, arith}
use oxcer_agent.Text.{Text, len}
use oxcer_agent.Security.{level_rank, SensitivityFinding, SensitivityResult}
use oxcer_agent.Sensitivity.{Pattern, Matcher, ClassifierOptions}
use oxcer_agent.Sensitivity.Merge.{merge_findings}
use oxcer_agent.Sensitivity.Mask.{
  apply_masking, found_in, with_short_paths, highest_level, classify_and_mask,
}
use oxcer_agent.Sensitivity.Spans.{IsSpan, recorded-IsSpan}
use oxcer_agent.Sensitivity.Separated.{
  IsSeparated, merge_findings-IsSeparated, merge_findings-IsSpan, merge_findings-Covers,
}
use oxcer_agent.Sensitivity.Deduped.{dedup_contained-merge_findings}
use oxcer_agent.Sensitivity.Pieces.{Piece, raw_text, masked_text, findings_at, IsHidden}
use oxcer_agent.Sensitivity.Cutting.{InPieces, IsSeparated-InPieces, apply_masking-InPieces}
use oxcer_agent.Sensitivity.Covered.{level_of, AllCovered, AllCovered-keep}
use oxcer_agent.Sensitivity.Recorded.{recorded, recorded-AllCovered}

module _ (mt : Matcher) (input : Text) where
  found_in-merged : found_in mt input ≡ merge_findings (recorded mt input)
  unfolding found_in
  found_in-merged =
      dedup_contained-merge_findings input (recorded mt input) (recorded-IsSpan mt input)

  -- The findings are parts of the text, in order and with a gap between one and the next.
  pub found_in-IsSeparated : IsSeparated 0 (found_in mt input)
  found_in-IsSeparated =
      subst (IsSeparated 0) (sym found_in-merged)
        (merge_findings-IsSeparated input (recorded mt input) (recorded-IsSpan mt input))

  found_in-IsSpan : All (IsSpan input) (found_in mt input)
  found_in-IsSpan =
      subst (All (IsSpan input)) (sym found_in-merged)
        (merge_findings-IsSpan input (recorded mt input) (recorded-IsSpan mt input))

  found_in-AllCovered :
      (p : Pattern) → AllCovered (level_of p) (mt.find_iter p input) (found_in mt input)
  found_in-AllCovered p =
      subst (AllCovered (level_of p) (mt.find_iter p input)) (sym found_in-merged) (
        AllCovered-keep (level_of p) (mt.find_iter p input) (recorded mt input) _
          (λ span. merge_findings-Covers (level_of p) span (recorded mt input))
          (recorded-AllCovered mt input p))

  pub found_in-InPieces : InPieces 0 input (found_in mt input)
  unfolding len
  found_in-InPieces =
      IsSeparated-InPieces [] input (found_in mt input) found_in-IsSpan found_in-IsSeparated

All-le :
    (n m : ℕ) (fs : List SensitivityFinding)
    → n ≤ m
    → All (λ f. level_rank f.level ≤ n) fs
    → All (λ f. level_rank f.level ≤ m) fs
All-le n m [] h below = tt
All-le n m (f ∷ fs) h (one, below) = (omega arith, All-le n m fs h below)

highest_level_first :
    (f : SensitivityFinding) (fs : List SensitivityFinding)
    → level_rank f.level ≤ level_rank (highest_level (f ∷ fs))
unfolding highest_level
highest_level_first f fs = ground arith

highest_level_rest :
    (f : SensitivityFinding) (fs : List SensitivityFinding)
    → level_rank (highest_level fs) ≤ level_rank (highest_level (f ∷ fs))
unfolding highest_level
highest_level_rest f fs = ground arith

highest_level-highest :
    (fs : List SensitivityFinding)
    → All (λ f. level_rank f.level ≤ level_rank (highest_level fs)) fs
highest_level-highest [] = tt
highest_level-highest (f ∷ fs) =
    (highest_level_first f fs, All-le _ _ fs (highest_level_rest f fs) (highest_level-highest fs))

-- The text in pieces, whose hidden stretches are the spans of the findings and hold every match of
-- every pattern: each is shown as the name of its kind, or dropped for its length. What is kept is
-- shown as it was, but for the spelling of paths.
pub record IsMasked (mt : Matcher) (home_dir : Option Text) (input : Text)
    (options : ClassifierOptions) (r : SensitivityResult) : Type 0 where
  pub pieces : List Piece
  pub tail : Text
  pub whole : input ≡ raw_text pieces tail
  pub spans : r.findings ≡ findings_at 0 pieces
  pub hidden : All IsHidden pieces
  pub covered : (p : Pattern) → AllCovered (level_of p) (mt.find_iter p input) r.findings
  pub found : r.findings ≡ found_in mt input
  pub highest : All (λ f. level_rank f.level ≤ level_rank r.level) r.findings
  pub original : r.original_length ≡ len input
  pub redacted : r.redacted_length ≡ len r.masked_content
  pub content :
      r.masked_content ≡ with_short_paths home_dir options (masked_text options pieces tail)

module _ (mt : Matcher) (home_dir : Option Text) (input : Text) (options : ClassifierOptions) where
  result_of : Text → SensitivityResult
  result_of masked = record {
    level = highest_level (found_in mt input);
    masked_content = with_short_paths home_dir options masked;
    findings = found_in mt input;
    original_length = len input;
    redacted_length = len (with_short_paths home_dir options masked);
  }

  classify_and_mask-result_of :
      (masked : Text)
      → apply_masking options input (found_in mt input) ≡ some masked
      → classify_and_mask mt home_dir input options ≡ some (result_of masked)
  unfolding classify_and_mask result_of
  classify_and_mask-result_of masked e = rw (e, classify_and_mask) refl

  -- The classifier does not panic, and every match of every pattern lies in a stretch that is hidden.
  pub classify_and_mask-IsMasked :
      (r : SensitivityResult) × (classify_and_mask mt home_dir input options ≡ some r)
      × IsMasked mt home_dir input options r
  unfolding result_of
  classify_and_mask-IsMasked =
      let cut = found_in-InPieces mt input in
      let masked = masked_text options cut.pieces cut.tail in
      (
        result_of masked,
        classify_and_mask-result_of masked
            (apply_masking-InPieces options input (found_in mt input) cut),
        record {
          pieces = cut.pieces;
          tail = cut.tail;
          whole = cut.whole;
          spans = cut.spans;
          hidden = cut.hidden;
          covered = found_in-AllCovered mt input;
          found = refl;
          highest = highest_level-highest (found_in mt input);
          original = refl;
          redacted = refl;
          content = refl;
        },
      )
