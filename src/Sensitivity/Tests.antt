-- ===== src/Sensitivity/Tests.antt =====
-- The classifier at concrete texts, with a matcher that finds the first occurrence of a word.
use mathlib.Core.Option
use mathlib.Core.List.{append_assoc}
use oxcer_agent.Prelude.{
  ℕ, ◌+◌, ◌≤◌, ◌≡◌, refl, sym, ◌∙◌, List, [], ◌∷◌, ◌++◌, Option, none, some, All, arith, ◌==◌,
  ==_iff, Bool-cases, Option-cases, inl, inr, map,
}
use oxcer_agent.Text.{Text, codes, len, strip_prefix}
use oxcer_agent.Text.Cut.{replace_range, width_pos, len-append}
use oxcer_agent.Security.{SensitivityResult}
use oxcer_agent.Sensitivity.{Pattern, Span, IsFound, Matcher, default_options}
use oxcer_agent.Sensitivity.Merge.{merge_findings, dedup_contained}
use oxcer_agent.Sensitivity.Mask.{classify_and_mask, found_in, mask_finding}
use oxcer_agent.Sensitivity.Spans.{recorded-IsSpan}
use oxcer_agent.Sensitivity.Recorded.{recorded}
use oxcer_agent.Sensitivity.Deduped.{dedup_contained-merge_findings}
use oxcer_agent.Sensitivity.Hides.{IsMasked, classify_and_mask-IsMasked}

-- The words of four patterns; the others match nothing here.
abbrev pub word_of : Pattern → Text
word_of Pattern.aws_access_key = codes "AKIA"
word_of Pattern.jwt = codes "eyJ"
word_of Pattern.api_key_prefix = codes "sk-eyJ"
word_of Pattern.ip_port = codes "10.0.0.1"
word_of _ = []

abbrev pub onto_front : ℕ → Option (Text × Text) → Option (Text × Text)
onto_front c none = none
onto_front c (some (front, back)) = some (c ∷ front, back)

abbrev pub or_later : Option Text → Option (Text × Text) → Option (Text × Text)
or_later (some back) later = some ([], back)
or_later none later = later

unfoldable pub find_first : Text → Text → Option (Text × Text)
unfolding strip_prefix
find_first w [] = none
find_first w (c ∷ s) = or_later (strip_prefix w (c ∷ s)) (onto_front c (find_first w s))

strip_prefix-append : (w s : Text) {back : Text} → strip_prefix w s ≡ some back → s ≡ w ++ back
unfolding strip_prefix
strip_prefix-append [] s h = cc
strip_prefix-append (a ∷ w) [] h = cc
strip_prefix-append (a ∷ w) (b ∷ s) {back} h = elim (Bool-cases (a == b)) [
  | inl e ↦ cc ((==_iff a b).0 e, strip_prefix-append w s (rw (e, strip_prefix) at h))
  | inr e ↦ cc (rw (e, strip_prefix) at h)
]

find_first-append :
    (w s front back : Text) → find_first w s ≡ some (front, back) → s ≡ front ++ (w ++ back)
unfolding find_first
find_first-append w [] front back h = cc
find_first-append w (c ∷ s) front back h = elim (Option-cases (strip_prefix w (c ∷ s))) [
  | inl e ↦ elim (Option-cases (find_first w s)) [
    | inl e' ↦ cc (rw (e, e', find_first) at h)
    | inr ((front', back'), e') ↦
        cc (rw (e, e', find_first) at h, find_first-append w s front' back' e')
  ]
  | inr (back', e) ↦ cc (rw (e, find_first) at h, strip_prefix-append w (c ∷ s) e)
]

-- The span of the first occurrence.
abbrev pub span_of : Text → Option (Text × Text) → List Span
span_of w none = []
span_of w (some (front, back)) = (len front, len front + len w) ∷ []

-- An empty word is not looked for.
abbrev pub spans_of : Text → Text → List Span
spans_of [] input = []
spans_of (c ∷ w) input = span_of (c ∷ w) (find_first (c ∷ w) input)

span_of-IsFound :
    (w input : Text) (found : Option (Text × Text))
    → 1 ≤ len w
    → find_first w input ≡ found
    → All (IsFound input) (span_of w found)
span_of-IsFound w input none filled e = tt
span_of-IsFound w input (some (front, back)) filled e =
    let whole = find_first-append w input front back e in
    (
      record {
        starts = record { front = front; back = w ++ back; whole = whole; place = refl };
        ends = record {
          front = front ++ w;
          back = back;
          whole = whole ∙ sym (append_assoc front w back);
          place = len-append front w;
        };
        filled = omega arith;
      },
      tt,
    )

pub spans_of-IsFound : (w input : Text) → All (IsFound input) (spans_of w input)
unfolding len
spans_of-IsFound [] input = tt
spans_of-IsFound (c ∷ w) input = span_of-IsFound (c ∷ w) input _ (omega (arith, width_pos c)) refl

abbrev pub words : Matcher
words = record {
  find_iter = λ p input. spans_of (word_of p) input;
  find_iter_found = λ p input. spans_of-IsFound (word_of p) input;
}

masked :
    Option.map
      (λ r. r.masked_content)
      (classify_and_mask words none (codes "ask 10.0.0.1 or AKIA now") default_options)
    ≡ some (codes "ask [REDACTED: ip_address] or [REDACTED: aws_access_key_id] now")
unfolding classify_and_mask find_first mask_finding replace_range
masked = refl

-- A token inside a longer key is one finding with it, of the kind that comes first.
merged : map (λ f. f.kind) (found_in words (codes "use sk-eyJ")) ≡ codes "api_key_prefix" ∷ []
unfolding found_in find_first len
merged = refl

dedup_contained-merge_findings_example :
    dedup_contained (merge_findings (recorded words (codes "use sk-eyJ")))
    ≡ merge_findings (recorded words (codes "use sk-eyJ"))
dedup_contained-merge_findings_example =
    dedup_contained-merge_findings (codes "use sk-eyJ") (recorded words (codes "use sk-eyJ"))
      (recorded-IsSpan words (codes "use sk-eyJ"))

classify_and_mask-IsMasked_example :
    (r : SensitivityResult) × (classify_and_mask words none (codes "use sk-eyJ") default_options
      ≡ some r)
    × IsMasked words none (codes "use sk-eyJ") default_options r
classify_and_mask-IsMasked_example =
    classify_and_mask-IsMasked words none (codes "use sk-eyJ") default_options
