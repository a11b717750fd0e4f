-- ===== src/Sensitivity/Merge.antt =====
-- oxcer-core/src/data_sensitivity.rs, `merge_findings` and `dedup_contained`: overlapping and adjacent
-- findings become one.
use oxcer_agent.Prelude.{
  ℕ, Bool, true, false, ◌&&◌, ◌||◌, List, [], ◌∷◌, push, any, ltb, leb, ◌==◌, if◌then◌else◌,
}
use oxcer_agent.Security.{level_rank, SensitivityFinding}

-- The key `(f.span_start, Reverse(f.level))`.
abbrev pub key_leb : SensitivityFinding → SensitivityFinding → Bool
key_leb f g =
    ltb f.span_start g.span_start
    || (f.span_start == g.span_start && leb (level_rank g.level) (level_rank f.level))

-- `sort_by_key`, which keeps the order of equal keys.
unfoldable pub insert_by_key :
    SensitivityFinding → List SensitivityFinding → List SensitivityFinding
insert_by_key f [] = f ∷ []
insert_by_key f (g ∷ fs) =
    let later = insert_by_key f fs in if key_leb f g then f ∷ g ∷ fs else g ∷ later

unfoldable pub sort_by_key : List SensitivityFinding → List SensitivityFinding
unfolding insert_by_key
sort_by_key [] = []
sort_by_key (f ∷ fs) = insert_by_key f (sort_by_key fs)

abbrev pub max : ℕ → ℕ → ℕ
max a b = if leb a b then b else a

-- The finding merged last, with one that overlaps it or begins where it ends.
unfoldable pub merged_with : SensitivityFinding → SensitivityFinding → SensitivityFinding
merged_with last f =
    let higher = ltb (level_rank last.level) (level_rank f.level) in
    record {
      level = if higher then f.level else last.level;
      span_start = last.span_start;
      span_end = max last.span_end f.span_end;
      kind = if higher then f.kind else last.kind;
      pattern_id = if higher then f.pattern_id else last.pattern_id;
    }

-- The loop, with `last_mut` at `last`.
unfoldable pub merge_from : SensitivityFinding → List SensitivityFinding → List SensitivityFinding
unfolding merged_with
merge_from last [] = last ∷ []
merge_from last (f ∷ items) = elim (leb f.span_start last.span_end) [
  | true ↦ merge_from (merged_with last f) items
  | false ↦ last ∷ merge_from f items
]

unfoldable pub merge_overlapping_spans : List SensitivityFinding → List SensitivityFinding
unfolding merge_from
merge_overlapping_spans [] = []
merge_overlapping_spans (f ∷ items) = merge_from f items

unfoldable pub merge_findings : List SensitivityFinding → List SensitivityFinding
unfolding sort_by_key merge_overlapping_spans
merge_findings findings = merge_overlapping_spans (sort_by_key findings)

abbrev pub contains_finding : SensitivityFinding → SensitivityFinding → Bool
contains_finding f o =
    leb o.span_start f.span_start
    && (leb f.span_end o.span_end && leb (level_rank f.level) (level_rank o.level))

unfoldable pub dedup_from :
    List SensitivityFinding → List SensitivityFinding → List SensitivityFinding
dedup_from out [] = out
dedup_from out (f ∷ findings) =
    dedup_from (if any (contains_finding f) out then out else push out f) findings

unfoldable pub dedup_contained : List SensitivityFinding → List SensitivityFinding
unfolding sort_by_key dedup_from
dedup_contained findings = dedup_from [] (sort_by_key findings)
