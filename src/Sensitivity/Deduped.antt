-- ===== src/Sensitivity/Deduped.antt =====
-- oxcer-core/src/data_sensitivity.rs, `dedup_contained`: behind `merge_findings` it changes nothing.
use mathlib.Core.List.{append_assoc, append-nil}
use oxcer_agent.Prelude.{
  sym, ap, push, ℕ, suc, ◌≤◌, ◌<◌, ◌≡◌, refl, ◌∙◌, true, false, List, [], ◌∷◌, ◌++◌, any, All,
  All-append, arith,
}
use oxcer_agent.Text.{Text}
use oxcer_agent.Security.{SensitivityFinding}
use oxcer_agent.Sensitivity.Merge.{
  key_leb, insert_by_key, sort_by_key, merge_findings, contains_finding, dedup_from,
  dedup_contained,
}
use oxcer_agent.Sensitivity.Spans.{IsSpan}
use oxcer_agent.Sensitivity.Separated.{IsSeparated, merge_findings-IsSeparated}

key_leb-lt : (f g : SensitivityFinding) → f.span_start < g.span_start → key_leb f g ≡ true
key_leb-lt f g h = ground arith

contains_finding-behind :
    (f o : SensitivityFinding) → o.span_end < f.span_end → contains_finding f o ≡ false
contains_finding-behind f o behind = ground arith

none_contains :
    (f : SensitivityFinding) (out : List SensitivityFinding) (lo : ℕ)
    → All (λ o. o.span_end < lo) out
    → lo ≤ f.span_start
    → f.span_start < f.span_end
    → any (contains_finding f) out ≡ false
none_contains f [] lo before from filled = refl
none_contains f (o ∷ out) lo (h, before) from filled =
    rw (contains_finding-behind f o (omega arith), none_contains f out lo before from filled) refl

AllBefore-weaken :
    (lo lo' : ℕ) (out : List SensitivityFinding)
    → lo ≤ lo'
    → All (λ o. o.span_end < lo) out
    → All (λ o. o.span_end < lo') out
AllBefore-weaken lo lo' [] h before = tt
AllBefore-weaken lo lo' (o ∷ out) h (one, before) =
    (omega arith, AllBefore-weaken lo lo' out h before)

dedup_from-IsSeparated :
    (lo : ℕ) (out fs : List SensitivityFinding)
    → All (λ o. o.span_end < lo) out
    → IsSeparated lo fs
    → dedup_from out fs ≡ out ++ fs
unfolding dedup_from
dedup_from-IsSeparated lo out [] before sep = sym (append-nil out)
dedup_from-IsSeparated lo out (f ∷ fs) before (from, filled, sep) =
    rw (none_contains f out lo before from filled) (
      dedup_from-IsSeparated (suc f.span_end) (push out f) fs
        (All-append (λ o. o.span_end < suc f.span_end) out (f ∷ [])
          (AllBefore-weaken lo (suc f.span_end) out (omega arith) before) (omega arith, tt))
        sep
      ∙ append_assoc out (f ∷ []) fs)

insert_by_key-first :
    (f : SensitivityFinding) (fs : List SensitivityFinding) (lo : ℕ)
    → f.span_start < lo
    → IsSeparated lo fs
    → insert_by_key f fs ≡ f ∷ fs
unfolding insert_by_key
insert_by_key-first f [] lo before sep = refl
insert_by_key-first f (g ∷ fs) lo before (from, filled, rest) =
    rw (key_leb-lt f g (omega arith)) refl

sort_by_key-IsSeparated :
    (lo : ℕ) (fs : List SensitivityFinding) → IsSeparated lo fs → sort_by_key fs ≡ fs
unfolding sort_by_key
sort_by_key-IsSeparated lo [] sep = refl
sort_by_key-IsSeparated lo (f ∷ fs) (from, filled, sep) =
    ap (insert_by_key f) (sort_by_key-IsSeparated (suc f.span_end) fs sep)
    ∙ insert_by_key-first f fs (suc f.span_end) (omega arith) sep

-- After the merging, `dedup_contained` finds nothing to remove.
pub dedup_contained-merge_findings :
    (input : Text) (fs : List SensitivityFinding)
    → All (IsSpan input) fs
    → dedup_contained (merge_findings fs) ≡ merge_findings fs
unfolding dedup_contained
dedup_contained-merge_findings input fs spans =
    let sep = merge_findings-IsSeparated input fs spans in
    rw (sort_by_key-IsSeparated 0 (merge_findings fs) sep)
      (dedup_from-IsSeparated 0 [] (merge_findings fs) tt sep)
