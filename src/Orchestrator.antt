-- ===== src/Orchestrator.antt =====
-- oxcer-core/src/orchestrator/types.rs: intents, results, the session and what a step returns.
-- `V` is `serde_json::Value`, which the code only passes on and looks into by the interface `Json`.
pub mod Expansion
pub mod Trace
pub mod Apply
pub mod Emit
pub mod NextAction
pub mod Agent
pub mod Steps
pub mod Progress
pub mod Terminates
pub mod Answers
pub mod Panics
pub mod Safety
pub mod ToolsOnly
pub mod Planning
mod Tests
use oxcer_agent.Prelude.{ℕ, Bool, true, false, not, List, [], ◌∷◌, Option, none, some, any}
use oxcer_agent.Text.{Text, codes}
use oxcer_agent.Router.{Strategy, RouterConfig, RouterDecision, TaskContext}

-- What the orchestrator uses of `serde_json::Value`.
pub record Json (V : Type 0) : Type 0 where
  pub get : V → Text → Option V
  pub as_str : V → Option Text
  pub as_array : V → Option (List V)
  pub to_string : V → Option Text

pub data ToolCallIntent (V : Type 0) : Type 0 where
  fs_list_dir fs_read_file : (workspace_id workspace_root rel_path : Text) → ToolCallIntent V
  fs_write_file : (workspace_id workspace_root rel_path contents_base64 : Text) → ToolCallIntent V
  fs_delete : (workspace_id workspace_root rel_path : Text) → ToolCallIntent V
  fs_rename : (workspace_id workspace_root rel_path new_rel_path : Text) → ToolCallIntent V
  fs_move :
      (workspace_id workspace_root rel_path dest_workspace_root dest_rel_path : Text)
      → ToolCallIntent V
  fs_create_dir : (workspace_id workspace_root rel_path : Text) → ToolCallIntent V
  shell_run : (workspace_root command_id : Text) (params : V) → ToolCallIntent V
  llm_generate : (strategy : Strategy) (task : Text) (system_hint : Option Text) → ToolCallIntent V

pub data StepResult (V : Type 0) : Type 0 where
  ok : (payload : V) → StepResult V
  err : (message : Text) → StepResult V
  approval_pending : (request_id : Text) → StepResult V

pub data ExpansionKind : Type 0 where
  read_and_summarize : (file_filter : Option Text) → ExpansionKind
  move_to_dir :
      (dest_workspace_id dest_workspace_root dest_rel_dir : Text) (file_filter : Option Text)
      → ExpansionKind

pub data PolicyDecisionKind : Type 0 where
  allow deny require_approval : PolicyDecisionKind

-- A field of the JSON object that `intent_input_json` builds.
pub data InputField (V : Type 0) : Type 0 where
  text : Text → InputField V
  json : V → InputField V
  debug_strategy : Strategy → InputField V

pub record ToolTrace (V : Type 0) : Type 0 where
  pub tool_name : Text
  pub input : List (Text × InputField V)
  pub policy_decision : Option PolicyDecisionKind
  pub approved : Option Bool
  pub result_summary : Option Text

pub data TaskState : Type 0 where
  initial executing complete : TaskState

pub data SessionKind : Type 0 where
  chat task : SessionKind

pub record SessionState (V : Type 0) : Type 0 where
  pub session_id : Text
  pub task_description : Text
  pub state : TaskState
  pub kind : SessionKind
  pub router_output : Option RouterDecision
  pub plan : List (ToolCallIntent V)
  pub step_index : ℕ
  pub accumulated_response : Option Text
  pub tool_traces : List (ToolTrace V)
  pub approvals_requested : List Text
  pub intermediate_observations : List Text
  pub confirmed_root : Option Text
  pub last_dir_listing_sorted : List Text
  pub content_accumulator : List Text
  pub pending_expansion : Option ExpansionKind
  pub debug_tag : Option Text

pub data OrchestratorAction (V : Type 0) : Type 0 where
  completed : (response : Text) (session : SessionState V) → OrchestratorAction V
  tool_call : (intent : ToolCallIntent V) (session : SessionState V) → OrchestratorAction V
  awaiting_approval : (request_id : Text) (session : SessionState V) → OrchestratorAction V

pub record AgentTaskInput : Type 0 where
  pub task_description : Text
  pub context : TaskContext

pub record AgentTaskResult (V : Type 0) : Type 0 where
  pub final_answer : Option Text
  pub tool_traces : List (ToolTrace V)

pub record AgentConfig : Type 0 where
  pub router_config : RouterConfig
  pub default_workspace_id : Option Text
  pub default_workspace_root : Option Text
  pub debug_tag : Option Text

pub data AgentStepOutcome (V : Type 0) : Type 0 where
  complete : AgentTaskResult V → AgentStepOutcome V
  need_tool : (intent : ToolCallIntent V) (session : SessionState V) → AgentStepOutcome V
  awaiting_approval : (request_id : Text) (session : SessionState V) → AgentStepOutcome V

pub data ToolOutcome (V : Type 0) : Type 0 where
  ok : V → ToolOutcome V
  approval_pending : Text → ToolOutcome V
  err : Text → ToolOutcome V

unfoldable pub into_step_result : {V : Type 0} → ToolOutcome V → StepResult V
into_step_result (ToolOutcome.ok payload) = StepResult.ok payload
into_step_result (ToolOutcome.approval_pending request_id) = StepResult.approval_pending request_id
into_step_result (ToolOutcome.err message) = StepResult.err message

-- `matches!(intent, LlmGenerate { .. })`, and so on.
abbrev pub is_llm_generate : {V : Type 0} → ToolCallIntent V → Bool
is_llm_generate (llm_generate model prompt hint) = true
is_llm_generate _ = false

-- `SessionKind::from_plan`.
unfoldable pub from_plan : {V : Type 0} → List (ToolCallIntent V) → SessionKind
from_plan plan = elim (any (λ intent. not (is_llm_generate intent)) plan) [
  | true ↦ task
  | false ↦ chat
]

-- `SessionState::new`.
unfoldable pub new_session : {V : Type 0} → Text → Text → SessionState V
new_session session_id task_description = record {
  session_id = session_id;
  task_description = task_description;
  state = initial;
  kind = chat;
  router_output = none;
  plan = [];
  step_index = 0;
  accumulated_response = none;
  tool_traces = [];
  approvals_requested = [];
  intermediate_observations = [];
  confirmed_root = none;
  last_dir_listing_sorted = [];
  content_accumulator = [];
  pending_expansion = none;
  debug_tag = none;
}
