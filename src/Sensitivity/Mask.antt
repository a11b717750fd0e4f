-- ===== src/Sensitivity/Mask.antt =====
-- oxcer-core/src/data_sensitivity.rs: the masking of what was found, and `classify_and_mask`. A panic
-- is the result `none`.
use oxcer_agent.Prelude.{
  ℕ, ◌-◌, Bool, ◌&&◌, List, [], ◌∷◌, ◌++◌, Option, none, some, is_empty, ltb, leb, ◌==◌,
  if◌then◌else◌,
}
use oxcer_agent.Text.{Text, codes, len, contains, drop_end_matches, replace}
use oxcer_agent.Text.Cut.{replace_range}
use oxcer_agent.Security.{
  SensitivityLevel, low, medium, high, level_rank, SensitivityFinding, SensitivityResult,
}
use oxcer_agent.Sensitivity.{
  ClassifierOptions, default_options, Matcher, run_high_rules, run_medium_rules,
}
use oxcer_agent.Sensitivity.Merge.{merge_findings, dedup_contained}

abbrev pub placeholder_high : Text → Text
placeholder_high kind = codes "[REDACTED: " ++ (kind ++ codes "]")

abbrev pub placeholder_medium : Text → Text
placeholder_medium kind = codes "[REDACTED: " ++ (kind ++ codes "]")

unfoldable pub drop_block : ClassifierOptions → SensitivityLevel → ℕ → Bool
drop_block options level length =
    let drop_over = options.drop_high_risk_blocks_over_bytes in
    ltb 0 drop_over && (level_rank level == 2 && ltb drop_over length)

-- What stands for a finding; of a low one nothing is replaced.
unfoldable pub replacement : ClassifierOptions → SensitivityLevel → Text → ℕ → Option Text
unfolding drop_block
replacement options level kind length =
    if drop_block options level length then some [] else elim level [
      | high ↦ some (placeholder_high kind)
      | medium ↦ some (placeholder_medium kind)
      | low ↦ none
    ]

abbrev pub replaced : Option Text → ℕ → ℕ → Text → Option Text
replaced none start end out = some out
replaced (some by) start end out =
    if ltb start (len out) && leb end (len out) then replace_range out start end by else some out

unfoldable pub mask_finding : ClassifierOptions → SensitivityFinding → Text → Option Text
unfolding replacement
mask_finding options f out =
    replaced (replacement options f.level f.kind (f.span_end - f.span_start)) f.span_start
      f.span_end out

-- The loop goes from the last finding to the first.
abbrev pub mask_before : ClassifierOptions → SensitivityFinding → Option Text → Option Text
mask_before options f none = none
mask_before options f (some out) = mask_finding options f out

unfoldable pub apply_masking : ClassifierOptions → Text → List SensitivityFinding → Option Text
apply_masking options input [] = some input
apply_masking options input (f ∷ findings) =
    mask_before options f (apply_masking options input findings)

abbrev slash : ℕ → Bool
slash c = c == b'/'

-- A replacement of a prefix of paths wherever it occurs, but for the root of the file system.
unfoldable pub normalized : Text → Text → Text → Text
unfolding drop_end_matches contains replace
normalized path by out =
    let root = drop_end_matches slash path in
    if is_empty root then out else if contains out root then replace out root by else out

-- The home directory is `dirs_next::home_dir()`.
unfoldable pub normalize_paths_low : Option Text → Text → Text → Text
unfolding normalized
normalize_paths_low home_dir content workspace_root =
    let out = normalized workspace_root (codes ".") content in
    elim home_dir [ none ↦ out | some home ↦ normalized home (codes "~") out ]

unfoldable pub highest_level : List SensitivityFinding → SensitivityLevel
highest_level [] = low
highest_level (f ∷ findings) =
    let rest = highest_level findings in
    if leb (level_rank f.level) (level_rank rest) then rest else f.level

unfoldable pub found_in : Matcher → Text → List SensitivityFinding
unfolding run_high_rules run_medium_rules merge_findings dedup_contained
found_in mt input =
    dedup_contained (merge_findings (run_medium_rules mt input (run_high_rules mt input [])))

unfoldable pub with_short_paths : Option Text → ClassifierOptions → Text → Text
unfolding normalize_paths_low
with_short_paths home_dir options content =
    if options.normalize_paths
    then elim options.workspace_root [
      | none ↦ content
      | some root ↦ normalize_paths_low home_dir content root
    ]
    else content

unfoldable pub classify_and_mask :
    Matcher → Option Text → Text → ClassifierOptions → Option SensitivityResult
unfolding found_in apply_masking with_short_paths highest_level len
classify_and_mask mt home_dir input options =
    let findings = found_in mt input in
    elim (apply_masking options input findings) [
      | none ↦ none
      | some masked ↦
          let final_content = with_short_paths home_dir options masked in
          some (record {
            level = highest_level findings;
            masked_content = final_content;
            findings = findings;
            original_length = len input;
            redacted_length = len final_content;
          })
    ]

unfoldable pub classify_and_mask_default : Matcher → Option Text → Text → Option SensitivityResult
unfolding classify_and_mask
classify_and_mask_default mt home_dir input = classify_and_mask mt home_dir input default_options
