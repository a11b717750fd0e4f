-- ===== src/Orchestrator/Answers.antt =====
-- oxcer-core/src/orchestrator/execution.rs, `agent_request`: with an executor that answers, so does the
-- loop.
use oxcer_agent.Prelude.{
  true, ℕ, zero, suc, ◌+◌, ◌*◌, ◌≤◌, Option, none, some, ◌≡◌, refl, length, Result, ok, err,
}
use oxcer_agent.Text.{Text, Casing}
use oxcer_agent.Orchestrator.{
  Json, ToolCallIntent, StepResult, TaskState, SessionState, OrchestratorAction, completed,
  tool_call, awaiting_approval, AgentTaskInput, AgentTaskResult, AgentConfig, ToolOutcome,
  into_step_result,
}
use oxcer_agent.Orchestrator.NextAction.{next_action}
use oxcer_agent.Orchestrator.Agent.{
  AgentToolExecutor, Planner, Fault, begin, agent_step, action_outcome, turn, agent_loop,
  agent_request, executed, resolved, Turn, again, done, initial_outcome,
}
use oxcer_agent.Orchestrator.Panics.{Unprintable, next_action-Panics}
use oxcer_agent.Orchestrator.Terminates.{Finishes, planned_steps, agent_request-Finishes}

module _ {V : Type 0} (js : Json V) where
  -- A result whose payload can be put into a trace.
  abbrev pub IsPrintable : StepResult V → Type 0
  IsPrintable (StepResult.ok payload) = ¬ Unprintable js payload
  IsPrintable _ = Unit

  next_action-acts :
      (cs : Casing) (s : SessionState V) (result : StepResult V)
      → IsPrintable result
      → next_action cs js s (some result) ≡ none
      → ⊥
  next_action-acts cs s (StepResult.ok payload) printable panics =
      let (here, bad) = (next_action-Panics cs js s (StepResult.ok payload)).0 panics in
      printable bad
  next_action-acts cs s (StepResult.err message) printable panics =
      (next_action-Panics cs js s (StepResult.err message)).0 panics
  next_action-acts cs s (StepResult.approval_pending id) printable panics =
      (next_action-Panics cs js s (StepResult.approval_pending id)).0 panics

module _ {V X : Type 0} (js : Json V) where
  -- A call of the executor that is answered, be it with the failure of the tool.
  abbrev pub IsAnswered : Result (ToolOutcome V) Text × X → Type 0
  IsAnswered (ok outcome, x) = IsPrintable js (into_step_result outcome)
  IsAnswered (err e, x) = ⊥

  abbrev pub IsResolved : Result V Text × X → Type 0
  IsResolved (ok payload, x) = IsPrintable js (StepResult.ok payload)
  IsResolved (err e, x) = ⊥

  -- An executor that answers every call.
  pub record Cooperates (ex : AgentToolExecutor V X) : Type 0 where
    pub executes : (x : X) (intent : ToolCallIntent V) → IsAnswered (ex.execute_tool x intent)
    pub resolves : (x : X) (request_id : Text) → IsResolved (ex.resolve_approval x request_id true)

  -- A turn that does not end the loop with an error.
  abbrev GoesWell : Turn V X → Type 0
  GoesWell (again s result x) = IsPrintable js result
  GoesWell (done (ok result) s x) = Unit
  GoesWell (done (err fault) s x) = ⊥

  executed-GoesWell :
      (s : SessionState V) (outcome : Result (ToolOutcome V) Text × X)
      → IsAnswered outcome
      → GoesWell (executed s outcome)
  executed-GoesWell s (ok outcome, x) answered = answered
  executed-GoesWell s (err e, x) answered = absurd answered

  resolved-GoesWell :
      (s : SessionState V) (outcome : Result V Text × X)
      → IsResolved outcome
      → GoesWell (resolved s outcome)
  resolved-GoesWell s (ok payload, x) answered = answered
  resolved-GoesWell s (err e, x) answered = absurd answered

  module _ (ex : AgentToolExecutor V X) (c : Cooperates ex) where
    action-GoesWell :
        (s : SessionState V) (x : X) (action : Option (OrchestratorAction V))
        → (action ≡ none → ⊥)
        → GoesWell (turn ex x (action_outcome s action))
    unfolding turn action_outcome
    action-GoesWell s x none acted = acted refl
    action-GoesWell s x (some (completed response t)) acted = tt
    action-GoesWell s x (some (tool_call intent t)) acted =
        executed-GoesWell t (ex.execute_tool x intent) (c.executes x intent)
    action-GoesWell s x (some (awaiting_approval request_id t)) acted =
        resolved-GoesWell t (ex.resolve_approval x request_id true) (c.resolves x request_id)

    initial_outcome-GoesWell :
        (x : X) (started : SessionState V × Option (ToolCallIntent V))
        → GoesWell (turn ex x (initial_outcome started))
    unfolding turn initial_outcome
    initial_outcome-GoesWell x (s, none) = tt
    initial_outcome-GoesWell x (s, some intent) =
        executed-GoesWell s (ex.execute_tool x intent) (c.executes x intent)

module _ {V X : Type 0} (planner : Planner V) (cs : Casing) (js : Json V) (input : AgentTaskInput)
    (config : AgentConfig) (ex : AgentToolExecutor V X) (c : Cooperates js ex) where
  -- A run that, if it has ended, has not ended with an error.
  abbrev EndsWell : Option (Result (AgentTaskResult V) Fault × (SessionState V × X)) → Type 0
  EndsWell none = Unit
  EndsWell (some (ok result, rest)) = Unit
  EndsWell (some (err fault, rest)) = ⊥

  turn-EndsWell :
      (fuel : ℕ) (next : Turn V X)
      → ((s : SessionState V) (result : StepResult V) (x : X)
          → IsPrintable js result
          → EndsWell (agent_loop planner cs js input config ex fuel s (some result) x))
      → GoesWell js next
      → EndsWell (elim next [
        | again s' result' x' ↦ agent_loop planner cs js input config ex fuel s' (some result') x'
        | done answer s' x' ↦ some (answer, (s', x'))
      ])
  turn-EndsWell fuel (again s result x) later printable = later s result x printable
  turn-EndsWell fuel (done (ok result) s x) later well = tt
  turn-EndsWell fuel (done (err fault) s x) later well = well

  agent_loop-EndsWell :
      (fuel : ℕ) (s : SessionState V) (result : StepResult V) (x : X)
      → IsPrintable js result
      → EndsWell (agent_loop planner cs js input config ex fuel s (some result) x)
  unfolding agent_loop agent_step
  agent_loop-EndsWell zero s result x printable = tt
  agent_loop-EndsWell (suc fuel) s result x printable =
      turn-EndsWell fuel _ (agent_loop-EndsWell fuel)
        (action-GoesWell js ex c s x _ (next_action-acts js cs s result printable))

  begin-GoesWell :
      (s : SessionState V) (x : X) (state : TaskState)
      → state ≡ TaskState.initial
      → GoesWell js (turn ex x (begin planner cs input config s state))
  unfolding begin
  begin-GoesWell s x TaskState.initial e = initial_outcome-GoesWell js ex c x _
  begin-GoesWell s x TaskState.executing e = cc
  begin-GoesWell s x TaskState.complete e = cc

  agent_request-EndsWell :
      (fuel : ℕ) (s : SessionState V) (x : X)
      → s.state ≡ TaskState.initial
      → EndsWell (agent_request planner cs js input config ex fuel s x)
  unfolding agent_request agent_loop agent_step
  agent_request-EndsWell zero s x fresh = tt
  agent_request-EndsWell (suc fuel) s x fresh =
      turn-EndsWell fuel _ (agent_loop-EndsWell fuel) (begin-GoesWell s x s.state fresh)

  -- A run that has ended with a result for the user.
  abbrev pub Succeeds : Option (Result (AgentTaskResult V) Fault × (SessionState V × X)) → Type 0
  Succeeds run =
      (result : AgentTaskResult V) × ((rest : SessionState V × X) × (run ≡ some (ok result, rest)))

  ended_well :
      (run : Option (Result (AgentTaskResult V) Fault × (SessionState V × X)))
      → EndsWell run
      → Finishes run
      → Succeeds run
  ended_well none well (answer, e) = cc
  ended_well (some (ok result, rest)) well finishes = (result, (rest, refl))
  ended_well (some (err fault, rest)) well finishes = absurd well

  -- Where the executor answers every call, be it with the failure of the tool, with payloads that can
  -- be put into a trace, and grants every approval, `agent_request` on a new session comes to a result
  -- for the user within 2 * n + 3 turns for a plan of n steps.
  pub agent_request-Succeeds :
      (fuel : ℕ) (s : SessionState V) (x : X)
      → s.state ≡ TaskState.initial
      → 2 * length (planned_steps planner cs js input config ex) + 3 ≤ fuel
      → Succeeds (agent_request planner cs js input config ex fuel s x)
  agent_request-Succeeds fuel s x fresh le =
      ended_well _ (agent_request-EndsWell fuel s x fresh)
        (agent_request-Finishes planner cs js input config ex fuel s x le)
