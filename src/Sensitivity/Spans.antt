-- ===== src/Sensitivity/Spans.antt =====
-- oxcer-core/src/data_sensitivity.rs, `run_high_rules` and `run_medium_rules`: what is recorded.
use oxcer_agent.Prelude.{
  ◌≤◌, ◌<◌, List, [], ◌∷◌, ◌++◌, map, any, All, All-append, ◌⊎◌, inl, inr, Bool-cases, arith,
}
use oxcer_agent.Text.{Text}
use oxcer_agent.Text.Cut.{IsCut}
use oxcer_agent.Security.{SensitivityLevel, medium, high, level_rank, SensitivityFinding}
use oxcer_agent.Sensitivity.{
  Pattern, Span, Matcher, IsFound, Rule, finding, run_rules, in_block, push_headers, run_high_rules,
  run_medium_rules, rules_to_pem_block, rules_from_ssh_path, medium_rules,
}

-- A finding whose span is a part of the text that is not empty, and which is to be masked.
pub record IsSpan (input : Text) (f : SensitivityFinding) : Type 0 where
  pub starts : IsCut input f.span_start
  pub ends : IsCut input f.span_end
  pub filled : f.span_start < f.span_end
  pub grave : 1 ≤ level_rank f.level

-- Some element of a list is so.
abbrev pub Has {ℓ} : {T : Type ℓ} → (T → Type 0) → List T → Type 0
Has Holds [] = ⊥
Has Holds (t ∷ ts) = Holds t ⊎ Has Holds ts

-- A finding of at least this level whose span holds the match.
pub record Covers (level : SensitivityLevel) (span : Span) (f : SensitivityFinding) : Type 0 where
  pub from_start : f.span_start ≤ span.0
  pub to_end : span.1 ≤ f.span_end
  pub as_high : level_rank level ≤ level_rank f.level

module _ {T : Type 0} (Holds : T → Type 0) where
  pub Has-left : (xs ys : List T) → Has Holds xs → Has Holds (xs ++ ys)
  Has-left [] ys has = absurd has
  Has-left (x ∷ xs) ys (inl here) = inl here
  Has-left (x ∷ xs) ys (inr later) = inr (Has-left xs ys later)

  pub Has-right : (xs ys : List T) → Has Holds ys → Has Holds (xs ++ ys)
  Has-right [] ys has = has
  Has-right (x ∷ xs) ys has = inr (Has-right xs ys has)

-- What the rules record of matches that were found.
module _ (mt : Matcher) (input : Text) (level : SensitivityLevel)
    (Holds : SensitivityFinding → Type 0)
    (each : (kind pattern_id : Text) (span : Span)
      → IsFound input span
      → Holds (finding level kind pattern_id span)) where
  finding-All :
      (kind pattern_id : Text) (spans : List Span)
      → All (IsFound input) spans
      → All Holds (map (finding level kind pattern_id) spans)
  finding-All kind pattern_id [] found = tt
  finding-All kind pattern_id (span ∷ spans) (one, found) =
      (each kind pattern_id span one, finding-All kind pattern_id spans found)

  pub run_rules-All :
      (rules : List Rule) (findings : List SensitivityFinding)
      → All Holds findings
      → All Holds (run_rules mt level input rules findings)
  unfolding run_rules
  run_rules-All [] findings all_hold = all_hold
  run_rules-All (r ∷ rules) findings all_hold = run_rules-All rules _ (
      All-append Holds findings _ all_hold (
        finding-All r.kind r.pattern_id (mt.find_iter r.pattern input)
          (mt.find_iter_found r.pattern input)))

finding-IsSpan :
    (input : Text) (level : SensitivityLevel)
    → 1 ≤ level_rank level
    → (kind pattern_id : Text) (span : Span) → IsFound input span
    → IsSpan input (finding level kind pattern_id span)
finding-IsSpan input level grave kind pattern_id span one = record {
  starts = one.starts;
  ends = one.ends;
  filled = one.filled;
  grave = grave;
}

push_headers-IsSpan :
    (input : Text) (spans : List Span) (findings : List SensitivityFinding)
    → All (IsFound input) spans
    → All (IsSpan input) findings
    → All (IsSpan input) (push_headers spans findings)
unfolding push_headers
push_headers-IsSpan input [] findings found all_spans = all_spans
push_headers-IsSpan input (span ∷ spans) findings (one, found) all_spans =
    elim (Bool-cases (any (in_block span) findings)) [
      | inl e ↦ rw e (push_headers-IsSpan input spans findings found all_spans)
      | inr e ↦ rw e (
          push_headers-IsSpan input spans _ found (
            All-append (IsSpan input) findings _ all_spans
              (finding-IsSpan input high (omega arith) _ _ span one, tt)))
    ]

-- What the rules record are parts of the text, to be masked.
pub recorded-IsSpan :
    (mt : Matcher) (input : Text)
    → All (IsSpan input) (run_medium_rules mt input (run_high_rules mt input []))
unfolding run_medium_rules run_high_rules
recorded-IsSpan mt input =
    let as_high = finding-IsSpan input high (omega arith) in
    run_rules-All mt input medium (IsSpan input) (finding-IsSpan input medium (omega arith))
      medium_rules _
      (run_rules-All mt input high (IsSpan input) as_high rules_from_ssh_path _ (
        push_headers-IsSpan input (mt.find_iter Pattern.pem_private_key input) _
          (mt.find_iter_found Pattern.pem_private_key input)
          (run_rules-All mt input high (IsSpan input) as_high rules_to_pem_block [] tt)))
