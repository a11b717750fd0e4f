-- ===== src/Sensitivity/Headers.antt =====
-- oxcer-core/src/data_sensitivity.rs, `run_high_rules`: the headers of keys, which are recorded where no
-- recorded block covers them.
use oxcer_agent.Prelude.{
  ◌≤◌, ◌≡◌, refl, sym, true, false, List, [], ◌∷◌, push, any, leb, leb→le, both_true, All,
  All-append, inl, inr, Bool-cases, arith,
}
use mathlib.Core.Path.{subst}
use oxcer_agent.Text.{codes, text_eq}
use oxcer_agent.Security.{high, level_rank, SensitivityFinding}
use oxcer_agent.Sensitivity.{Span, finding, in_block, push_headers}
use oxcer_agent.Sensitivity.Spans.{Has, Has-right, Covers}
use oxcer_agent.Sensitivity.Covered.{AllCovered, finding-Covers, push_headers-Has}

abbrev pub IsHigh : SensitivityFinding → Type 0
IsHigh f = 2 ≤ level_rank f.level

in_block-Covers :
    (span : Span) (f : SensitivityFinding) → IsHigh f → in_block span f ≡ true → Covers high span f
unfolding in_block
in_block-Covers (start, end) f is_high h =
    let (named, inside) = both_true (text_eq f.pattern_id (codes "pem_block")) _ h in
    let (from, to) = both_true (leb f.span_start start) _ inside in
    record {
      from_start = leb→le f.span_start start from;
      to_end = leb→le end f.span_end to;
      as_high = is_high;
    }

any-Covers :
    (span : Span) (findings : List SensitivityFinding)
    → All IsHigh findings
    → any (in_block span) findings ≡ true
    → Has (Covers high span) findings
any-Covers span [] highs h = cc
any-Covers span (f ∷ findings) (is_high, highs) h = elim (Bool-cases (in_block span f)) [
  | inl e ↦ inl (in_block-Covers span f is_high e)
  | inr e ↦ inr (any-Covers span findings highs (rw e at h))
]

push_headers_known :
    (span : Span) (spans : List Span) (findings : List SensitivityFinding)
    → any (in_block span) findings ≡ true
    → push_headers (span ∷ spans) findings ≡ push_headers spans findings
unfolding push_headers
push_headers_known span spans findings e = rw e refl

abbrev header : Span → SensitivityFinding
header = finding high (codes "pem_private_key_header") (codes "pem_header")

push_headers_new :
    (span : Span) (spans : List Span) (findings : List SensitivityFinding)
    → any (in_block span) findings ≡ false
    → push_headers (span ∷ spans) findings ≡ push_headers spans (push findings (header span))
unfolding push_headers
push_headers_new span spans findings e = rw e refl

pub push_headers-AllCovered :
    (spans : List Span) (findings : List SensitivityFinding)
    → All IsHigh findings
    → AllCovered high spans (push_headers spans findings)
push_headers-AllCovered [] findings highs = tt
push_headers-AllCovered (span ∷ spans) findings highs =
    elim (Bool-cases (any (in_block span) findings)) [
      | inl e ↦
          subst (AllCovered high (span ∷ spans)) (sym (push_headers_known span spans findings e)) (
            push_headers-Has (Covers high span) spans findings (any-Covers span findings highs e),
            push_headers-AllCovered spans findings highs,
          )
      | inr e ↦
          subst (AllCovered high (span ∷ spans)) (sym (push_headers_new span spans findings e)) (
            push_headers-Has (Covers high span) spans (push findings (header span)) (
                Has-right (Covers high span) findings (header span ∷ [])
                  (inl (finding-Covers high _ _ span))),
            push_headers-AllCovered spans (push findings (header span))
                (All-append IsHigh findings _ highs (omega arith, tt)),
          )
    ]
