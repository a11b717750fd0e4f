-- ===== src/Sensitivity/Covered.antt =====
-- oxcer-core/src/data_sensitivity.rs, `run_high_rules` and `run_medium_rules`: a match that a rule finds
-- is recorded, and stays so.
use oxcer_agent.Prelude.{◌≡◌, sym, List, [], ◌∷◌, map, any, All, inl, inr, Bool-cases, arith}
use mathlib.Core.Path.{subst}
use oxcer_agent.Text.{Text}
use oxcer_agent.Security.{SensitivityLevel, medium, high, SensitivityFinding}
use oxcer_agent.Sensitivity.{
  Pattern, Span, Matcher, Rule, finding, run_rules, in_block, push_headers,
}
use oxcer_agent.Sensitivity.Spans.{Has, Has-left, Has-right, Covers}

-- The level with which the matches of a pattern are recorded.
abbrev pub level_of : Pattern → SensitivityLevel
level_of Pattern.keychain_path = medium
level_of Pattern.ip_port = medium
level_of Pattern.base64_long = medium
level_of Pattern.auth_bearer = medium
level_of _ = high

-- All spans are covered by some finding.
abbrev pub AllCovered : SensitivityLevel → List Span → List SensitivityFinding → Type 0
AllCovered level spans findings = All (λ span. Has (Covers level span) findings) spans

pub AllCovered-keep :
    (level : SensitivityLevel) (spans : List Span) (findings findings' : List SensitivityFinding)
    → ((span : Span) → Has (Covers level span) findings → Has (Covers level span) findings')
    → AllCovered level spans findings
    → AllCovered level spans findings'
AllCovered-keep level [] findings findings' keep covered = tt
AllCovered-keep level (span ∷ spans) findings findings' keep (one, covered) =
    (keep span one, AllCovered-keep level spans findings findings' keep covered)

pub finding-Covers :
    (level : SensitivityLevel) (kind pattern_id : Text) (span : Span)
    → Covers level span (finding level kind pattern_id span)
finding-Covers level kind pattern_id span = record {
  from_start = omega arith;
  to_end = omega arith;
  as_high = omega arith;
}

finding-AllCovered :
    (level : SensitivityLevel) (kind pattern_id : Text) (spans : List Span)
    → AllCovered level spans (map (finding level kind pattern_id) spans)
finding-AllCovered level kind pattern_id [] = tt
finding-AllCovered level kind pattern_id (span ∷ spans) = (
  inl (finding-Covers level kind pattern_id span),
  AllCovered-keep level spans (map (finding level kind pattern_id) spans)
      (map (finding level kind pattern_id) (span ∷ spans)) (λ s. inr)
      (finding-AllCovered level kind pattern_id spans),
)

-- What is recorded stays recorded.
module _ (Holds : SensitivityFinding → Type 0) where
  pub run_rules-Has :
      (mt : Matcher) (level : SensitivityLevel) (input : Text) (rules : List Rule)
      (findings : List SensitivityFinding)
      → Has Holds findings
      → Has Holds (run_rules mt level input rules findings)
  unfolding run_rules
  run_rules-Has mt level input [] findings has = has
  run_rules-Has mt level input (r ∷ rules) findings has =
      run_rules-Has mt level input rules _ (Has-left Holds findings _ has)

  pub push_headers-Has :
      (spans : List Span) (findings : List SensitivityFinding)
      → Has Holds findings
      → Has Holds (push_headers spans findings)
  unfolding push_headers
  push_headers-Has [] findings has = has
  push_headers-Has (span ∷ spans) findings has = elim (Bool-cases (any (in_block span) findings)) [
    | inl e ↦ rw e (push_headers-Has spans findings has)
    | inr e ↦ rw e (push_headers-Has spans _ (Has-left Holds findings _ has))
  ]

module _ (mt : Matcher) (input : Text) (level : SensitivityLevel) (p : Pattern) where
  pub run_rules-AllCovered :
      (rules : List Rule) (findings : List SensitivityFinding)
      → Has (λ r. r.pattern ≡ p) rules
      → AllCovered level (mt.find_iter p input) (run_rules mt level input rules findings)
  unfolding run_rules
  run_rules-AllCovered [] findings has = absurd has
  run_rules-AllCovered (r ∷ rules) findings (inl same) =
      AllCovered-keep level (mt.find_iter p input)
        (map (finding level r.kind r.pattern_id) (mt.find_iter p input)) _
        (λ span has. run_rules-Has (Covers level span) mt level input rules _ (
          Has-right (Covers level span) findings _ (
            subst
              (λ q.
                Has (Covers level span)
                  (map (finding level r.kind r.pattern_id) (mt.find_iter q input)))
              (sym same) has)))
        (finding-AllCovered level r.kind r.pattern_id (mt.find_iter p input))
  run_rules-AllCovered (r ∷ rules) findings (inr later) = run_rules-AllCovered rules _ later
