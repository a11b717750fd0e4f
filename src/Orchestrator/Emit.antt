-- ===== src/Orchestrator/Emit.antt =====
-- oxcer-core/src/orchestrator/execution.rs, `next_action`: the guards on the next planned step, and
-- the placeholders filled into it.
use oxcer_agent.Prelude.{
  ℕ, Bool, false, ◌&&◌, not, List, [], ◌∷◌, ◌++◌, Option, none, some, take, length, is_empty, ltb,
  if◌then◌else◌,
}
use oxcer_agent.Text.{Text, codes, contains, starts_with, replace, join}
use oxcer_agent.Orchestrator.{
  ToolCallIntent, fs_read_file, llm_generate, TaskState, SessionState, OrchestratorAction,
  completed, tool_call,
}
use oxcer_agent.Orchestrator.Apply.{is_task, current}

abbrev pub fs_result_placeholder : Text
fs_result_placeholder = codes "{{FS_RESULT}}"

abbrev pub most_recent_file_placeholder : Text
most_recent_file_placeholder = codes "{{MOST_RECENT_FILE}}"

abbrev pub file_contents_placeholder : Text
file_contents_placeholder = codes "{{FILE_CONTENTS}}"

abbrev pub fs_result_max_chars : ℕ
fs_result_max_chars = 4000

unfoldable pub fs_result_truncation_notice : Text
fs_result_truncation_notice =
    10 ∷ 10 ∷ codes "[Note: file content was truncated to fit the model's context window.]"

unfoldable pub no_file_contents_message : Text
no_file_contents_message =
    codes
      "Cannot generate summary: no file contents were loaded. Check that the target files exist in the specified directory and retry."

unfoldable pub no_readable_text_message : Text
no_readable_text_message =
    codes
      "Cannot generate answer: the filesystem tool did not return readable text. Check that the target file exists and is a plain-text file."

unfoldable pub no_recent_files_message : Text
no_recent_files_message = codes "No recent files found in the target directory."

abbrev pub text_or : Option Text → Text → Text
text_or none d = d
text_or (some s) d = s

-- A response that is not empty and is no JSON object.
unfoldable pub has_real_text : Option Text → Bool
unfolding starts_with
has_real_text none = false
has_real_text (some s) = not (is_empty s) && not (starts_with s (codes "{"))

-- The text for "{{FILE_CONTENTS}}".
unfoldable pub gathered_contents : List Text → Option Text → Text
unfolding join
gathered_contents [] response = text_or response (codes "(no content)")
gathered_contents (c ∷ cs) response = join (10 ∷ 10 ∷ codes "---" ++ 10 ∷ 10 ∷ []) (c ∷ cs)

-- The text for "{{FS_RESULT}}": at most 4000 characters, and a notice where some were dropped.
unfoldable pub capped : Text → Text
capped raw =
    if ltb fs_result_max_chars (length raw)
    then take fs_result_max_chars raw ++ fs_result_truncation_notice
    else raw

unfoldable pub fill_contents : List Text → Option Text → Text → Text
unfolding contains replace gathered_contents
fill_contents accumulator response prompt =
    if contains prompt file_contents_placeholder
    then replace prompt file_contents_placeholder (gathered_contents accumulator response)
    else prompt

unfoldable pub fill_result : Option Text → Text → Text
unfolding contains replace capped
fill_result response prompt =
    if contains prompt fs_result_placeholder
    then replace prompt fs_result_placeholder
        (capped (text_or response (codes "(no tool result available)")))
    else prompt

module _ {V : Type 0} where
  -- `check_llm_generate_precondition` on the planned step.
  unfoldable pub check_llm_generate_precondition :
      SessionState V → Option (ToolCallIntent V) → Option Text
  unfolding contains has_real_text
  check_llm_generate_precondition s (some (llm_generate model prompt hint)) =
      if contains prompt file_contents_placeholder && is_empty s.content_accumulator
      then some no_file_contents_message
      else if contains prompt fs_result_placeholder && not (has_real_text s.accumulated_response)
      then some no_readable_text_message
      else none
  check_llm_generate_precondition s _ = none

  -- An early return that completes the session with a message.
  abbrev pub give_up : Text → SessionState V → OrchestratorAction V
  give_up message s =
      completed message
        (record s { state = TaskState.complete; accumulated_response = some message })

  -- The step with its placeholders filled in, as it is handed to the runner.
  unfoldable pub emit_intent : SessionState V → ToolCallIntent V → OrchestratorAction V
  unfolding contains replace fill_contents fill_result
  emit_intent s (fs_read_file id root path) =
      if contains path most_recent_file_placeholder
      then elim s.last_dir_listing_sorted [
        | [] ↦ give_up no_recent_files_message s
        | name ∷ rest ↦
            tool_call (fs_read_file id root (replace path most_recent_file_placeholder name)) s
      ]
      else tool_call (fs_read_file id root path) s
  emit_intent s (llm_generate model prompt hint) =
      tool_call
        (llm_generate model
          (fill_result s.accumulated_response
            (fill_contents s.content_accumulator s.accumulated_response prompt))
          hint)
        s
  emit_intent s intent = tool_call intent s

  -- What follows the last step of the plan.
  unfoldable pub finish : SessionState V → OrchestratorAction V
  finish s =
      completed (text_or s.accumulated_response (codes "Done."))
        (record s { state = TaskState.complete })

  -- The guard of a task session, then the step.
  unfoldable pub guarded : SessionState V → ToolCallIntent V → Option Text → OrchestratorAction V
  unfolding emit_intent
  guarded s intent none = emit_intent s intent
  guarded s intent (some message) =
      if is_task s.kind then give_up message s else emit_intent s intent

  -- "More steps?"
  unfoldable pub next_step : SessionState V → OrchestratorAction V
  unfolding guarded check_llm_generate_precondition finish
  next_step s = elim (current s) [
    | none ↦ finish s
    | some intent ↦ guarded s intent (check_llm_generate_precondition s (some intent))
  ]
