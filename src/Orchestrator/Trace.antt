-- ===== src/Orchestrator/Trace.antt =====
-- oxcer-core/src/orchestrator/types.rs: the trace of a tool invocation.
use mathlib.Core.Option
use oxcer_agent.Prelude.{
  Bool, true, false, List, [], ◌∷◌, ◌++◌, Option, none, some, ltb, if◌then◌else◌,
}
use oxcer_agent.Text.{Text, codes, len, slice_to}
use oxcer_agent.Orchestrator.{
  Json, ToolCallIntent, fs_list_dir, fs_read_file, fs_write_file, fs_delete, fs_rename, fs_move,
  fs_create_dir, shell_run, llm_generate, StepResult, InputField, text, json, debug_strategy,
  ToolTrace, PolicyDecisionKind,
}

-- The summary of a payload with no text: at most 200 bytes of its serialisation. The slice may
-- panic.
unfoldable pub shortened : Text → Option Text
unfolding len slice_to
shortened s =
    if ltb 200 (len s) then Option.map (λ start. start ++ codes "...") (slice_to 200 s) else some s

module _ {V : Type 0} where
  unfoldable pub intent_tool_name : ToolCallIntent V → Text
  intent_tool_name (fs_list_dir _ _ _) = codes "fs_list_dir"
  intent_tool_name (fs_read_file _ _ _) = codes "fs_read_file"
  intent_tool_name (fs_write_file _ _ _ _) = codes "fs_write_file"
  intent_tool_name (fs_delete _ _ _) = codes "fs_delete"
  intent_tool_name (fs_rename _ _ _ _) = codes "fs_rename"
  intent_tool_name (fs_move _ _ _ _ _) = codes "fs_move"
  intent_tool_name (fs_create_dir _ _ _) = codes "fs_create_dir"
  intent_tool_name (shell_run _ _ _) = codes "shell_run"
  intent_tool_name (llm_generate _ _ _) = codes "llm_generate"

  -- The fields that most of the filesystem tools show.
  abbrev place : Text → Text → List (Text × InputField V)
  place root path = (codes "workspace_root", text root) ∷ (codes "rel_path", text path) ∷ []

  unfoldable pub intent_input_json : ToolCallIntent V → List (Text × InputField V)
  intent_input_json (fs_list_dir _ root path) = place root path
  intent_input_json (fs_read_file _ root path) = place root path
  intent_input_json (fs_write_file _ root path _) = place root path
  intent_input_json (fs_delete _ root path) = place root path
  intent_input_json (fs_rename _ root path new_path) =
      place root path ++ (codes "new_rel_path", text new_path) ∷ []
  intent_input_json (fs_move _ root path dest_root dest_path) =
      place root path
      ++ (codes "dest_workspace_root", text dest_root)
        ∷ (codes "dest_rel_path", text dest_path)
        ∷ []
  intent_input_json (fs_create_dir _ root path) = place root path
  intent_input_json (shell_run root command_id params) =
      (codes "workspace_root", text root)
      ∷ (codes "command_id", text command_id)
      ∷ (codes "params", json params)
      ∷ []
  intent_input_json (llm_generate model prompt _) =
      (codes "task", text prompt) ∷ (codes "strategy", debug_strategy model) ∷ []

  -- `payload.get("text").and_then(|v| v.as_str())`.
  unfoldable pub text_of : Json V → V → Option Text
  text_of js payload = elim (js.get payload (codes "text")) [ none ↦ none | some v ↦ js.as_str v ]

  unfoldable pub summary_of : Json V → V → Option (Option Text)
  unfolding text_of shortened
  summary_of js payload = elim (text_of js payload) [
    | some t ↦ some (some t)
    | none ↦ elim (js.to_string payload) [
      | none ↦ some none
      | some s ↦ Option.map some (shortened s)
    ]
  ]

  abbrev pub trace_of :
      ToolCallIntent V → Option PolicyDecisionKind → Option Bool → Option Text → ToolTrace V
  trace_of intent policy_decision approved result_summary = record {
    tool_name = intent_tool_name intent;
    input = intent_input_json intent;
    policy_decision = policy_decision;
    approved = approved;
    result_summary = result_summary;
  }

  -- `build_tool_trace`; `none` is a panic.
  unfoldable pub build_tool_trace : Json V → ToolCallIntent V → StepResult V → Option (ToolTrace V)
  unfolding summary_of
  build_tool_trace js intent (StepResult.ok payload) =
      Option.map (trace_of intent (some PolicyDecisionKind.allow) (some true))
        (summary_of js payload)
  build_tool_trace js intent (StepResult.err message) =
      some (trace_of intent none (some false) (some message))
  build_tool_trace js intent (StepResult.approval_pending _) =
      some (trace_of intent (some PolicyDecisionKind.require_approval) none none)
