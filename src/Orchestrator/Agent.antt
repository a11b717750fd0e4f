-- ===== src/Orchestrator/Agent.antt =====
-- oxcer-core/src/orchestrator/execution.rs, `agent_step`, `agent_request` and `run_first_step`, and the
-- session that planning.rs `start_session` builds around a plan.
use oxcer_agent.Prelude.{
  ℕ, zero, suc, List, [], ◌∷◌, Bool, true, Option, none, some, Result, ok, err,
}
use oxcer_agent.Text.{Text, Casing, codes}
use oxcer_agent.Router.{RouterDecision, RouterInput}
use oxcer_agent.Router.Route.{route}
use oxcer_agent.Orchestrator.{
  Json, ToolCallIntent, StepResult, TaskState, SessionState, OrchestratorAction, completed,
  tool_call, awaiting_approval, AgentTaskInput, AgentTaskResult, AgentConfig, AgentStepOutcome,
  need_tool, ToolOutcome, into_step_result, from_plan,
}
use oxcer_agent.Orchestrator.NextAction.{next_action}

-- A panic, or the text of an `Err`.
pub data Fault : Type 0 where
  panicked : Fault
  message : Text → Fault

-- `AgentToolExecutor`; an executor keeps a state `X`, since its methods act on the machine.
pub record AgentToolExecutor (V X : Type 0) : Type 0 where
  pub execute_tool : X → ToolCallIntent V → Result (ToolOutcome V) Text × X
  pub resolve_approval : X → Text → Bool → Result V Text × X

-- The plan that `start_session` chooses for a routed task.
pub record Planner (V : Type 0) : Type 0 where
  pub plan_for : RouterDecision → RouterInput → Option Text → Option Text → List (ToolCallIntent V)

abbrev pub first : {V : Type 0} → List (ToolCallIntent V) → Option (ToolCallIntent V)
first [] = none
first (intent ∷ rest) = some intent

-- What a step gives its caller, and the session it leaves behind the reference.
abbrev pub Stepped : Type 0 → Type 0
Stepped V = Result (AgentStepOutcome V) Fault × SessionState V

abbrev pub router_input : AgentTaskInput → AgentConfig → RouterInput
router_input input config = record {
  task_description = input.task_description;
  context = input.context;
  config = config.router_config;
  capabilities = none;
}

-- Where the loop goes on, and where it returns.
pub data Turn (V X : Type 0) : Type 0 where
  again : SessionState V → StepResult V → X → Turn V X
  done : Result (AgentTaskResult V) Fault → SessionState V → X → Turn V X

module _ {V : Type 0} where
  -- The session around a plan.
  unfoldable pub session_of_plan :
      Text → RouterInput → RouterDecision → List (ToolCallIntent V) → SessionState V
  unfolding from_plan
  session_of_plan id input decision steps = record {
    session_id = id;
    task_description = input.task_description;
    state = TaskState.executing;
    kind = from_plan steps;
    router_output = some decision;
    plan = steps;
    step_index = 0;
    accumulated_response = none;
    tool_traces = [];
    approvals_requested = [];
    intermediate_observations = [];
    confirmed_root = none;
    last_dir_listing_sorted = [];
    content_accumulator = [];
    pending_expansion = none;
    debug_tag = none;
  }

  unfoldable pub start_session :
      Planner V
      → Casing
      → Text
      → RouterInput
      → Option Text
      → Option Text
      → SessionState V × Option (ToolCallIntent V)
  unfolding session_of_plan route
  start_session planner cs id input workspace_id workspace_root =
      let steps = planner.plan_for (route cs input) input workspace_id workspace_root in
      (session_of_plan id input (route cs input) steps, first steps)

  unfoldable pub build_agent_task_result : SessionState V → AgentTaskResult V
  build_agent_task_result s = record {
    final_answer = s.accumulated_response;
    tool_traces = s.tool_traces;
  }

  unfoldable pub initial_outcome : SessionState V × Option (ToolCallIntent V) → Stepped V
  unfolding build_agent_task_result
  initial_outcome (s, some intent) = (ok (need_tool intent s), s)
  initial_outcome (s, none) = (ok (AgentStepOutcome.complete (build_agent_task_result s)), s)

  unfoldable pub action_outcome : SessionState V → Option (OrchestratorAction V) → Stepped V
  unfolding build_agent_task_result
  action_outcome old none = (err panicked, old)
  action_outcome old (some (completed response s)) =
      (ok (AgentStepOutcome.complete (build_agent_task_result s)), s)
  action_outcome old (some (tool_call intent s)) = (ok (need_tool intent s), s)
  action_outcome old (some (awaiting_approval request_id s)) =
      (ok (AgentStepOutcome.awaiting_approval request_id s), s)

  abbrev missing_result : SessionState V → Stepped V
  missing_result s =
      (err (message (codes "last_result required when session is already executing")), s)

  -- A step with no result: only the first may be one.
  unfoldable pub begin :
      Planner V → Casing → AgentTaskInput → AgentConfig → SessionState V → TaskState → Stepped V
  unfolding start_session initial_outcome
  begin planner cs input config s TaskState.initial = initial_outcome (
      start_session planner cs s.session_id (router_input input config) config.default_workspace_id
        config.default_workspace_root)
  begin planner cs input config s _ = missing_result s

  unfoldable pub agent_step :
      Planner V
      → Casing
      → Json V
      → AgentTaskInput
      → SessionState V
      → AgentConfig
      → Option (StepResult V)
      → Stepped V
  unfolding begin action_outcome next_action
  agent_step planner cs js input s config none = begin planner cs input config s s.state
  agent_step planner cs js input s config (some result) =
      action_outcome s (next_action cs js s (some result))

  abbrev pub executed : {X : Type 0} → SessionState V → Result (ToolOutcome V) Text × X → Turn V X
  executed s (ok outcome, x) = again s (into_step_result outcome) x
  executed s (err e, x) = done (err (message e)) s x

  abbrev pub resolved : {X : Type 0} → SessionState V → Result V Text × X → Turn V X
  resolved s (ok payload, x) = again s (StepResult.ok payload) x
  resolved s (err e, x) = done (err (message e)) s x

  -- One turn of the loop of `agent_request`, behind its step.
  unfoldable pub turn : {X : Type 0} → AgentToolExecutor V X → X → Stepped V → Turn V X
  unfolding into_step_result
  turn ex x (err fault, s) = done (err fault) s x
  turn ex x (ok (AgentStepOutcome.complete result), s) = done (ok result) s x
  turn ex x (ok (need_tool intent _), s) = executed s (ex.execute_tool x intent)
  turn ex x (ok (AgentStepOutcome.awaiting_approval request_id _), s) =
      resolved s (ex.resolve_approval x request_id true)

module _ {V X : Type 0} (planner : Planner V) (cs : Casing) (js : Json V) (input : AgentTaskInput)
    (config : AgentConfig) (ex : AgentToolExecutor V X) where
  -- The loop of `agent_request` on fuel; `none` means that the fuel ran out.
  unfoldable pub agent_loop :
      ℕ
      → SessionState V
      → Option (StepResult V)
      → X
      → Option (Result (AgentTaskResult V) Fault × (SessionState V × X))
  unfolding agent_step turn
  agent_loop zero s last_result x = none
  agent_loop (suc fuel) s last_result x =
      elim (turn ex x (agent_step planner cs js input s config last_result)) [
        | again s' result x' ↦ agent_loop fuel s' (some result) x'
        | done answer s' x' ↦ some (answer, (s', x'))
      ]

  unfoldable pub agent_request :
      ℕ → SessionState V → X → Option (Result (AgentTaskResult V) Fault × (SessionState V × X))
  unfolding agent_loop
  agent_request fuel s x = agent_loop fuel s none x

module _ {V : Type 0} where
  unfoldable pub first_action :
      Casing → Json V → SessionState V × Option (ToolCallIntent V) → Option (OrchestratorAction V)
  unfolding next_action
  first_action cs js (s, some intent) = some (tool_call intent s)
  first_action cs js (s, none) = next_action cs js s none

  -- `none` is a panic.
  unfoldable pub run_first_step :
      Planner V
      → Casing
      → Json V
      → Text
      → RouterInput
      → Option Text
      → Option Text
      → Option (OrchestratorAction V)
  unfolding start_session first_action
  run_first_step planner cs js id input workspace_id workspace_root =
      first_action cs js (start_session planner cs id input workspace_id workspace_root)
