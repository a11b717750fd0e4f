-- ===== src/Guardrail.antt =====
-- oxcer-core/src/guardrail.rs: what the state machine accepts of the model's output.
pub mod Laws
mod Tests
use oxcer_agent.Prelude.{
  ℕ, Bool, true, false, ◌||◌, List, [], ◌∷◌, ◌++◌, Option, none, some, is_empty, Result, ok, err,
  ◌==◌, if◌then◌else◌,
}
use oxcer_agent.Text.{
  Text, codes, text_eq, trim, split_once, starts_with, is_whitespace, split_whitespace,
}
use oxcer_agent.Executor.{
  ToolCall, fs_list_dir, fs_read_file, shell_run, read_document, move_file, trash_file,
  ExecutorError,
}

-- A database error is its message.
pub data AgenticError : Type 0 where
  hallucination_detected : Text → AgenticError
  empty_response : AgenticError
  validation_failed : Text → AgenticError
  db_error : Text → AgenticError
  executor_error : ExecutorError → AgenticError
  step_limit_exceeded : ℕ → AgenticError

pub data ActionSpec : Type 0 where
  no_tool : ActionSpec
  tool : ToolCall → ActionSpec

abbrev or_empty : Option Text → Text
or_empty none = []
or_empty (some s) = s

-- `splitn(2, p)`, each of the two parts trimmed.
unfoldable pub two_parts : (ℕ → Bool) → Text → Text × Text
unfolding split_once trim
two_parts p s = let (before, after) = split_once p s in (trim before, trim (or_empty after))

abbrev pub hallucination : Text → Result ActionSpec AgenticError
hallucination message = err (hallucination_detected message)

-- A tool with one path.
unfoldable pub one_path : Text → Text → (Text → ToolCall) → Result ActionSpec AgenticError
one_path name rest call =
    if is_empty rest
    then hallucination (name ++ codes " requires a path argument")
    else ok (tool (call rest))

unfoldable pub move_spec : Text × Text → Result ActionSpec AgenticError
move_spec (src, dst) =
    if is_empty src || is_empty dst
    then hallucination
        (codes "move_file requires 'source | dest' format, e.g.: move_file a.txt | b.txt")
    else ok (tool (move_file src dst))

unfoldable pub shell_spec : Text × Text → Result ActionSpec AgenticError
shell_spec (command, args) =
    ok (tool (shell_run command (if is_empty args then [] else split_whitespace args)))

unfoldable pub unknown_tool : Text → Text
unknown_tool other =
    codes "unknown tool '"
    ++ (other
        ++ codes
            "'; expected: fs_list_dir, fs_read_file, read_document, move_file, trash_file, shell_run, or [NO_TOOL]")

-- The match on the tool's name.
unfoldable pub select_tool : Text × Text → Result ActionSpec AgenticError
unfolding one_path
select_tool (name, rest) =
    if text_eq name (codes "fs_list_dir")
    then one_path (codes "fs_list_dir") rest fs_list_dir
    else if text_eq name (codes "fs_read_file")
    then one_path (codes "fs_read_file") rest fs_read_file
    else if text_eq name (codes "read_document")
    then one_path (codes "read_document") rest read_document
    else if text_eq name (codes "move_file")
    then move_spec (two_parts (λ c. c == b'|') rest)
    else if text_eq name (codes "trash_file")
    then one_path (codes "trash_file") rest trash_file
    else if text_eq name (codes "shell_run")
    then (if is_empty rest
        then hallucination (codes "shell_run requires at least a command name")
        else shell_spec (two_parts is_whitespace rest))
    else hallucination (unknown_tool name)

unfoldable pub validate_action_selection : Text → Result ActionSpec AgenticError
validate_action_selection output =
    let trimmed = trim output in
    if is_empty trimmed
    then err empty_response
    else if text_eq trimmed (codes "[NO_TOOL]")
    then ok no_tool
    else select_tool (two_parts is_whitespace trimmed)

unfoldable pub validate_final_answer : Text → Result Text AgenticError
validate_final_answer output =
    let trimmed = trim output in
    if is_empty trimmed
    then err empty_response
    else if starts_with trimmed (codes "[ERROR:")
    then err (validation_failed (codes "LLM returned an error token: " ++ trimmed))
    else ok trimmed
