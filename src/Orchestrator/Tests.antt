-- ===== src/Orchestrator/Tests.antt =====
-- Runs of the orchestrator, and the theorems about it at concrete sessions.
use native.Mathlib.Omega.{arith}
use oxcer_agent.Prelude.{
  ℕ, zero, suc, false, List, [], ◌∷◌, ◌++◌, map, Option, none, some, ◌≡◌, refl, ok, if◌then◌else◌,
}
use oxcer_agent.Text.{Text, codes, text_eq, len, slice_to}
use oxcer_agent.Security.Tests.{ascii}
use oxcer_agent.Router.{Strategy, TaskContext}
use oxcer_agent.Orchestrator.{
  into_step_result, Json, ToolCallIntent, fs_read_file, fs_delete, llm_generate, StepResult,
  SessionState, task, TaskState, ToolOutcome, AgentTaskInput, AgentConfig, new_session,
  OrchestratorAction, completed, tool_call,
}
use oxcer_agent.Orchestrator.Trace.{text_of}
use oxcer_agent.Orchestrator.Apply.{
  store_response, accumulate_content, capture_listing, confirm_root,
}
use oxcer_agent.Orchestrator.NextAction.{next_action}
use oxcer_agent.Orchestrator.Answers.{Cooperates, Succeeds, agent_request-Succeeds}
use oxcer_agent.Orchestrator.Agent.{AgentToolExecutor, Planner, agent_request}
use oxcer_agent.Orchestrator.Progress.{Outcome, next_action-Outcome}
use oxcer_agent.Orchestrator.Panics.{next_action-Panics}
use oxcer_agent.Orchestrator.Terminates.{Finishes, agent_request-Finishes}
use oxcer_agent.Orchestrator.ToolsOnly.{
  build_plan_tools_only, ActsOnce, build_plan_tools_only-ActsOnce,
}

-- A cut of JSON: strings, arrays of strings, and objects of one field.
data Value : Type 0 where
  string : Text → Value
  array : List Text → Value
  field : Text → Value → Value

abbrev get_field : Value → Text → Option Value
get_field (field k v) key = if text_eq k key then some v else none
get_field _ key = none

abbrev string_of : Value → Option Text
string_of (string t) = some t
string_of _ = none

abbrev array_of : Value → Option (List Value)
array_of (array ts) = some (map (λ t. string t) ts)
array_of _ = none

abbrev print : Value → Option Text
print (string t) = some t
print _ = some (codes "{}")

abbrev json : Json Value
json = record { get = get_field; as_str = string_of; as_array = array_of; to_string = print }

abbrev read_notes : ToolCallIntent Value
read_notes = fs_read_file (codes "w") (codes "/home/a") (codes "notes.md")

abbrev summarize : ToolCallIntent Value
summarize = llm_generate Strategy.cheap_model (codes "Say: {{FILE_CONTENTS}}") none

abbrev session : SessionState Value
session = record (new_session (codes "s") (codes "t")) {
  state = TaskState.executing;
  kind = task;
  plan = read_notes ∷ summarize ∷ [];
}

abbrev with_text : Text → StepResult Value
with_text t = StepResult.ok (field (codes "text") (string t))

machine : Unit {0}
unfolding next_action new_session store_response accumulate_content capture_listing confirm_root
    text_eq
machine = tt

-- After the file is read, the model is asked with its text; after the model has answered, the session
-- is complete.
abbrev action_of : Option (OrchestratorAction Value) → OrchestratorAction Value
action_of none = completed [] session
action_of (some action) = action

abbrev handed : OrchestratorAction Value → Option (ToolCallIntent Value)
handed (tool_call intent s) = some intent
handed _ = none

reads_then_asks :
    handed (action_of (next_action ascii json session (some (with_text (codes "hello")))))
    ≡ some (llm_generate Strategy.cheap_model (codes "Say: hello") none)
unfolding machine
reads_then_asks = refl

next_action-Outcome_example :
    Outcome session
      (with_text (codes "hello"))
      (next_action ascii json session (some (with_text (codes "hello"))))
next_action-Outcome_example = next_action-Outcome ascii json session (with_text (codes "hello"))

abbrev asked : SessionState Value
asked = record session { step_index = 1; content_accumulator = codes "hello" ∷ [] }

-- A serialisation with a character of two bytes across the byte 200.
abbrev accents : ℕ → Text
accents zero = []
accents (suc n) = 233 ∷ accents n

abbrev long_text : Text
long_text = codes "a" ++ accents 110

next_action-Panics_example :
    next_action ascii json session (some (StepResult.ok (string long_text))) ≡ none
unfolding text_of len slice_to new_session
next_action-Panics_example =
    (next_action-Panics ascii json session (StepResult.ok (string long_text))).1
      ((read_notes, refl), (refl, (long_text, refl, (omega arith, refl))))

abbrev listed : List Text
listed = codes "a.png" ∷ codes "b.md" ∷ []

-- An executor that counts its calls and answers all of them with the same text.
abbrev echo : AgentToolExecutor Value ℕ
echo = record {
  execute_tool =
      λ n intent. (ok (ToolOutcome.ok (field (codes "text") (string (codes "fine")))), suc n);
  resolve_approval = λ n id approved. (ok (field (codes "text") (string (codes "fine"))), suc n);
}

abbrev notes_planner : Planner Value
notes_planner = record { plan_for = λ decision input id root. read_notes ∷ summarize ∷ [] }

abbrev task_input : AgentTaskInput
task_input = record {
  task_description = codes "summarize notes.md";
  context = record { workspace_id = none; selected_paths = []; risk_hints = false };
}

abbrev defaults : AgentConfig
defaults = record {
  router_config = record {
    prefer_tools_only = false;
    planning_length_threshold = 800;
    use_llm_for_borderline = false;
  };
  default_workspace_id = none;
  default_workspace_root = none;
  debug_tag = none;
}

agent_request-Finishes_example : Finishes (
    agent_request notes_planner ascii json task_input defaults echo 7
      (new_session (codes "s") (codes "t"))
      0)
agent_request-Finishes_example =
    agent_request-Finishes notes_planner ascii json task_input defaults echo 7
      (new_session (codes "s") (codes "t")) 0 (omega arith)

echo-Cooperates : Cooperates json echo
unfolding text_of into_step_result text_eq
echo-Cooperates = record {
  executes = λ n intent. λ (no_text, rest). cc;
  resolves = λ n id. λ (no_text, rest). cc;
}

agent_request-Succeeds_example :
    Succeeds notes_planner ascii json task_input defaults echo echo-Cooperates (
      agent_request notes_planner ascii json task_input defaults echo 7
        (new_session (codes "s") (codes "t"))
        0)
unfolding new_session
agent_request-Succeeds_example =
    agent_request-Succeeds notes_planner ascii json task_input defaults echo echo-Cooperates 7
      (new_session (codes "s") (codes "t")) 0 refl (omega arith)

abbrev in_home : Option Text
in_home = some (codes "/home/a")

abbrev no_context : TaskContext
no_context = record { workspace_id = none; selected_paths = []; risk_hints = false }

-- The path is taken from the lower case of the task.
tools_only_delete :
    build_plan_tools_only {V = Value} ascii
      (codes "Delete \"Notes.txt\" now")
      no_context
      none
      in_home
    ≡ fs_delete [] (codes "/home/a") (codes "notes.txt") ∷ []
unfolding build_plan_tools_only
tools_only_delete = refl

build_plan_tools_only-ActsOnce_example :
    ActsOnce {V = Value} ascii
      (codes "Delete \"Notes.txt\" now")
      (codes "/home/a")
      (build_plan_tools_only ascii (codes "Delete \"Notes.txt\" now") no_context none in_home)
build_plan_tools_only-ActsOnce_example =
    build_plan_tools_only-ActsOnce Value ascii (codes "Delete \"Notes.txt\" now") no_context none
      in_home
