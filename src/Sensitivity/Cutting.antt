-- ===== src/Sensitivity/Cutting.antt =====
-- oxcer-core/src/data_sensitivity.rs: findings that are in order and apart cut the text into pieces.
use mathlib.Core.List.{append_assoc}
use mathlib.Core.Path.{subst}
use oxcer_agent.Prelude.{
  ℕ, suc, ◌+◌, ◌≤◌, ◌<◌, ◌≡◌, refl, sym, ap, ◌∙◌, List, [], ◌∷◌, ◌++◌, some, All, arith,
}
use oxcer_agent.Text.{Text, len}
use oxcer_agent.Text.Cut.{IsCut, IsCut-behind, len-append}
use oxcer_agent.Security.{level_rank, SensitivityFinding}
use oxcer_agent.Sensitivity.{ClassifierOptions}
use oxcer_agent.Sensitivity.Mask.{apply_masking}
use oxcer_agent.Sensitivity.Spans.{IsSpan}
use oxcer_agent.Sensitivity.Separated.{IsSeparated, IsSeparated-weaken}
use oxcer_agent.Sensitivity.Pieces.{
  Piece, masked_text, apply_masking-findings_at, raw_text, finding_at, findings_at, IsHidden,
  regroup,
}

-- A text cut at findings that are apart.
pub record InPieces (at : ℕ) (rest : Text) (fs : List SensitivityFinding) : Type 0 where
  pub pieces : List Piece
  pub tail : Text
  pub whole : rest ≡ raw_text pieces tail
  pub spans : fs ≡ findings_at at pieces
  pub hidden : All IsHidden pieces

len_pos : (n m k : ℕ) → n + m ≡ k → n < k → 1 ≤ m
len_pos n m k e h = omega arith

same_finding :
    (f : SensitivityFinding) (at : ℕ) (kept hidden : Text)
    → at + len kept ≡ f.span_start
    → f.span_start + len hidden ≡ f.span_end
    → f
      ≡ finding_at at (record {
        kept = kept;
        hidden = hidden;
        level = f.level;
        kind = f.kind;
        pattern_id = f.pattern_id;
      })
unfolding finding_at
same_finding f at kept hidden starts ends = λ i. record {
  level = f.level;
  span_start = sym starts i;
  span_end = (sym ends ∙ ap (λ n. n + len hidden) (sym starts)) i;
  kind = f.kind;
  pattern_id = f.pattern_id;
}

-- The first finding takes a kept and a hidden stretch off a text.
record Taken (front rest : Text) (f : SensitivityFinding) : Type 0 where
  kept : Text
  hidden : Text
  left : Text
  whole : rest ≡ kept ++ (hidden ++ left)
  starts : len front + len kept ≡ f.span_start
  ends : f.span_start + len hidden ≡ f.span_end

take_first :
    (front rest : Text) (f : SensitivityFinding)
    → IsSpan (front ++ rest) f
    → len front ≤ f.span_start
    → Taken front rest f
take_first front rest f one from =
    let (kept, behind, first, starts) = IsCut-behind front rest f.span_start one.starts from in
    let regrouped : front ++ rest ≡ (front ++ kept) ++ behind =
      ap (λ t. front ++ t) first ∙ sym (append_assoc front kept behind) in
    let (hidden, left, second, ends) =
      IsCut-behind (front ++ kept) behind f.span_end
        (subst (λ t. IsCut t f.span_end) regrouped one.ends)
        (omega (arith, len-append front kept, one.filled)) in
    record {
      kept = kept;
      hidden = hidden;
      left = left;
      whole = first ∙ ap (λ t. kept ++ t) second;
      starts = starts;
      ends = omega (arith, len-append front kept);
    }

InPieces-cons :
    (front rest : Text) (f : SensitivityFinding) (fs : List SensitivityFinding)
    (t : Taken front rest f)
    → 1 ≤ level_rank f.level
    → f.span_start < f.span_end
    → InPieces f.span_end t.left fs
    → InPieces (len front) rest (f ∷ fs)
unfolding raw_text findings_at
InPieces-cons front rest f fs t grave filled later =
    let piece : Piece = record {
      kept = t.kept;
      hidden = t.hidden;
      level = f.level;
      kind = f.kind;
      pattern_id = f.pattern_id;
    } in
    record {
      pieces = piece ∷ later.pieces;
      tail = later.tail;
      whole = t.whole ∙ ap (λ s. t.kept ++ (t.hidden ++ s)) later.whole;
      spans =
          ap (λ g. g ∷ fs) (same_finding f (len front) t.kept t.hidden t.starts t.ends)
          ∙ ap (λ gs. finding_at (len front) piece ∷ gs)
              (later.spans
                ∙ ap (λ n. findings_at n later.pieces) (omega (arith, t.starts, t.ends)));
      hidden = (
        record {
          filled = len_pos f.span_start (len t.hidden) f.span_end t.ends filled;
          grave = grave;
        },
        later.hidden,
      );
    }

-- Findings that are apart cut a text into pieces of which they are the hidden stretches.
pub IsSeparated-InPieces :
    (front rest : Text) (fs : List SensitivityFinding)
    → All (IsSpan (front ++ rest)) fs
    → IsSeparated (len front) fs
    → InPieces (len front) rest fs
unfolding raw_text findings_at
IsSeparated-InPieces front rest [] spans sep = record {
  pieces = [];
  tail = rest;
  whole = refl;
  spans = refl;
  hidden = tt;
}
IsSeparated-InPieces front rest (f ∷ fs) (one, spans) (from, filled, sep) =
    let t = take_first front rest f one from in
    let before = (front ++ t.kept) ++ t.hidden in
    let place : len before ≡ f.span_end =
      omega
        (arith, len-append (front ++ t.kept) t.hidden, len-append front t.kept, t.starts, t.ends) in
    let whole : front ++ rest ≡ before ++ t.left =
      ap (λ s. front ++ s) t.whole ∙ regroup front t.kept t.hidden t.left in
    let later =
      IsSeparated-InPieces before t.left fs (subst (λ s. All (IsSpan s) fs) whole spans)
        (IsSeparated-weaken (len before) (suc f.span_end) fs (omega arith) sep) in
    InPieces-cons front rest f fs t one.grave one.filled
      (subst (λ n. InPieces n t.left fs) place later)

-- The masking of a text that is cut so.
pub apply_masking-InPieces :
    (options : ClassifierOptions) (rest : Text) (fs : List SensitivityFinding)
    (c : InPieces 0 rest fs)
    → apply_masking options rest fs ≡ some (masked_text options c.pieces c.tail)
apply_masking-InPieces options rest fs c =
    (λ i. apply_masking options (c.whole i) (c.spans i))
    ∙ apply_masking-findings_at options c.pieces c.tail c.hidden
