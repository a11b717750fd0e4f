-- ===== src/Orchestrator/NextAction.antt =====
-- oxcer-core/src/orchestrator/execution.rs, `next_action`: one step of the session machine. The code
-- always returns `Ok`; `none` stands for a panic while the trace of the step is built.
use mathlib.Core.Option
use oxcer_agent.Prelude.{[], ◌∷◌, ◌++◌, Option, none, some, push}
use oxcer_agent.Text.{Text, Casing, codes}
use oxcer_agent.Orchestrator.{
  Json, StepResult, TaskState, SessionState, OrchestratorAction, completed, tool_call,
  awaiting_approval,
}
use oxcer_agent.Orchestrator.Apply.{Applied, go_on, stop, apply_ok, trigger_expansion, record_trace}
use oxcer_agent.Orchestrator.Emit.{next_step}

module _ {V : Type 0} where
  -- The arm for a failed step.
  unfoldable pub fail_step : Text → SessionState V → OrchestratorAction V
  fail_step message s = completed (codes "Error: " ++ message) (record s {
    state = TaskState.complete;
    accumulated_response = some (codes "Error: " ++ message);
    intermediate_observations = push s.intermediate_observations (codes "Step failed: " ++ message);
  })

  unfoldable pub continue_from : Casing → Applied V → OrchestratorAction V
  unfolding trigger_expansion next_step
  continue_from cs (stop response s) = completed response s
  continue_from cs (go_on s) = next_step (trigger_expansion cs s)

  -- "Initial step": the first intent of the plan, as it stands.
  unfoldable pub first_step : SessionState V → OrchestratorAction V
  unfolding next_step
  first_step s = elim s.plan [ [] ↦ next_step s | intent ∷ rest ↦ tool_call intent s ]

  unfoldable pub next_action :
      Casing → Json V → SessionState V → Option (StepResult V) → Option (OrchestratorAction V)
  unfolding first_step trigger_expansion record_trace fail_step apply_ok continue_from
  next_action cs js s none = some (first_step (trigger_expansion cs s))
  next_action cs js s (some (StepResult.approval_pending request_id)) = some (
      awaiting_approval request_id
        (record s { approvals_requested = push s.approvals_requested request_id }))
  next_action cs js s (some (StepResult.err message)) =
      Option.map (fail_step message) (record_trace js (StepResult.err message) s)
  next_action cs js s (some (StepResult.ok payload)) =
      Option.map (λ traced. continue_from cs (apply_ok cs js payload traced))
        (record_trace js (StepResult.ok payload) s)
