-- ===== src/Sanitizer/Payload.antt =====
-- oxcer-core/src/prompt_sanitizer.rs: the payload that is built of the parts of a prompt, and the
-- sanitized prompt.
use oxcer_agent.Prelude.{
  ℕ, ◌+◌, Bool, not, List, [], ◌∷◌, ◌++◌, Option, none, some, Result, map, retain, is_empty, ◌==◌,
  if◌then◌else◌,
}
use oxcer_agent.Text.{Text, Casing, codes, strip_prefix, drop_matches, drop_end_matches, join}
use oxcer_agent.Executor.Display.{decimal}
use oxcer_agent.Sensitivity.{ClassifierOptions, Matcher}
use oxcer_agent.Sanitizer.{sanitize_text, ScrubbingError, scrub_for_llm_call}
use oxcer_agent.Sanitizer.Secrets.{sensitive_file_placeholder, is_sensitive_path}

abbrev slash : ℕ → Bool
slash c = c == b'/'

abbrev pub dot_path : Text → Text
dot_path rest = if is_empty rest then codes "." else codes "./" ++ rest

unfoldable pub to_workspace_relative_path : Text → Text → Text
unfolding drop_end_matches drop_matches strip_prefix
to_workspace_relative_path absolute_path workspace_root =
    let root = drop_end_matches slash workspace_root in
    if is_empty root
    then absolute_path
    else elim (strip_prefix root (drop_end_matches slash absolute_path)) [
      | some rest ↦ dot_path (drop_matches slash rest)
      | none ↦ absolute_path
    ]

pub record FileContentChunk : Type 0 where
  pub path : Text
  pub content : Text

pub record LlmPayloadParts : Type 0 where
  pub task : Text
  pub file_snippets : List FileContentChunk
  pub shell_outputs : List Text
  pub tool_outputs : List Text
  pub metadata : List Text

abbrev pub file_heading : Text → Text → Text
file_heading path content = codes "--- " ++ (path ++ (codes " ---\n" ++ content))

unfoldable pub file_section : Casing → FileContentChunk → Text
unfolding is_sensitive_path
file_section cs chunk =
    if is_sensitive_path cs chunk.path
    then file_heading chunk.path sensitive_file_placeholder
    else file_heading chunk.path chunk.content

-- The outputs under a numbered heading, from a number on.
unfoldable pub output_sections : Text → ℕ → List Text → List Text
unfolding decimal
output_sections heading n [] = []
output_sections heading n (out ∷ outputs) =
    (heading ++ (codes " [" ++ (decimal n ++ (codes "]:\n" ++ out))))
    ∷ output_sections heading (n + 1) outputs

unfoldable pub build_raw_payload : Casing → LlmPayloadParts → Text
unfolding file_section output_sections join
build_raw_payload cs parts = join (codes "\n\n") (
    (if is_empty parts.task then [] else (codes "Task:\n" ++ parts.task) ∷ [])
    ++ (map (file_section cs) parts.file_snippets
        ++ (output_sections (codes "Shell output") 1 parts.shell_outputs
            ++ (output_sections (codes "Tool output") 1 parts.tool_outputs
                ++ retain (λ m. not (is_empty m)) parts.metadata))))

unfoldable pub build_and_scrub_for_llm :
    Matcher
    → Casing
    → Option Text
    → LlmPayloadParts
    → ClassifierOptions
    → Option (Result Text ScrubbingError)
unfolding build_raw_payload scrub_for_llm_call
build_and_scrub_for_llm mt cs home_dir parts options =
    scrub_for_llm_call mt home_dir (build_raw_payload cs parts) options

pub record SanitizeForLlmInput : Type 0 where
  pub task : Text
  pub file_contents : List FileContentChunk

unfoldable pub sanitized_chunk : Matcher → Casing → Option Text → FileContentChunk → Option Text
unfolding is_sensitive_path sanitize_text
sanitized_chunk mt cs home_dir chunk =
    if is_sensitive_path cs chunk.path
    then some (chunk.path ++ (codes ": " ++ sensitive_file_placeholder))
    else elim (sanitize_text mt home_dir chunk.content) [
      | none ↦ none
      | some content_sanitized ↦ some (file_heading chunk.path content_sanitized)
    ]

abbrev pub onto_parts : Option Text → Option (List Text) → Option (List Text)
onto_parts (some part) (some parts) = some (part ∷ parts)
onto_parts (some part) none = none
onto_parts none parts = none

unfoldable pub sanitized_chunks :
    Matcher → Casing → Option Text → List FileContentChunk → Option (List Text)
unfolding sanitized_chunk
sanitized_chunks mt cs home_dir [] = some []
sanitized_chunks mt cs home_dir (chunk ∷ chunks) =
    onto_parts (sanitized_chunk mt cs home_dir chunk) (sanitized_chunks mt cs home_dir chunks)

unfoldable pub sanitize_for_llm : Matcher → Casing → Option Text → SanitizeForLlmInput → Option Text
unfolding sanitize_text sanitized_chunks join
sanitize_for_llm mt cs home_dir input =
    elim (onto_parts (sanitize_text mt home_dir input.task)
      (sanitized_chunks mt cs home_dir input.file_contents)) [
        | none ↦ none
        | some parts ↦ some (join (codes "\n\n") parts)
      ]

unfoldable pub sanitize_task_for_llm : Matcher → Option Text → Text → Option Text
unfolding sanitize_text
sanitize_task_for_llm mt home_dir task = sanitize_text mt home_dir task
