-- ===== src/Orchestrator/Terminates.antt =====
-- oxcer-core/src/orchestrator/execution.rs, `agent_request`: the loop ends.
use oxcer_agent.Prelude.{
  ap, ◌∙◌, ℕ, zero, suc, ◌+◌, ◌*◌, ◌-◌, ◌<◌, ◌≤◌, List, [], ◌∷◌, Option, none, some, true, ◌≡◌,
  refl, get_elem?, length, Result, ok, err, arith,
}
use oxcer_agent.Text.{Text, Casing}
use oxcer_agent.Router.Route.{route}
use oxcer_agent.Orchestrator.{
  Json, ToolCallIntent, StepResult, TaskState, SessionState, OrchestratorAction, completed,
  tool_call, awaiting_approval, AgentTaskInput, AgentTaskResult, AgentConfig, ToolOutcome,
  into_step_result,
}
use oxcer_agent.Orchestrator.Agent.{
  AgentToolExecutor, Planner, Fault, router_input, begin, agent_step, action_outcome, turn,
  agent_loop, agent_request, executed, resolved, first, Turn, again, done, initial_outcome,
  start_session, session_of_plan,
}
use oxcer_agent.Orchestrator.Progress.{Outcome, next_action-Outcome}

get_elem?-lt : {A : Type 0} (xs : List A) (i : ℕ) {x : A} → get_elem? xs i ≡ some x → i < length xs
get_elem?-lt [] i h = cc
get_elem?-lt (x ∷ xs) zero h = omega arith
get_elem?-lt (x ∷ xs) (suc i) h = omega (arith, get_elem?-lt xs i h)

-- How many turns a result may take by itself: an approval is asked for first.
abbrev weight : {V : Type 0} → StepResult V → ℕ
weight (StepResult.approval_pending request_id) = 2
weight _ = 1

one-le-weight : {V : Type 0} (result : StepResult V) → 1 ≤ weight result
one-le-weight (StepResult.ok payload) = omega arith
one-le-weight (StepResult.err e) = omega arith
one-le-weight (StepResult.approval_pending id) = omega arith

weight-le-two : {V : Type 0} (result : StepResult V) → weight result ≤ 2
weight-le-two (StepResult.ok payload) = omega arith
weight-le-two (StepResult.err e) = omega arith
weight-le-two (StepResult.approval_pending id) = omega arith

abbrev left_of : {V : Type 0} → SessionState V → ℕ
left_of s = 2 * (length s.plan - s.step_index)

module _ {V X : Type 0} where
  -- A run of the loop that ends.
  abbrev pub Finishes : Option (Result (AgentTaskResult V) Fault × (SessionState V × X)) → Type 0
  Finishes run =
      (answer : Result (AgentTaskResult V) Fault × (SessionState V × X)) × (run ≡ some answer)

  -- What a turn leaves to do: nothing, or a session that needs at most `fuel` turns.
  abbrev Lighter : ℕ → Turn V X → Type 0
  Lighter fuel (done answer s x) = Unit
  Lighter fuel (again s result x) =
      (s.pending_expansion ≡ none) × (weight result + left_of s ≤ fuel)

  executed-Lighter :
      (fuel : ℕ) (s : SessionState V) (outcome : Result (ToolOutcome V) Text × X)
      → s.pending_expansion ≡ none
      → 2 + left_of s ≤ fuel
      → Lighter fuel (executed s outcome)
  executed-Lighter fuel s (ok outcome, x) pending le =
      (pending, omega (arith, weight-le-two (into_step_result outcome), le))
  executed-Lighter fuel s (err e, x) pending le = tt

  resolved-Lighter :
      (fuel : ℕ) (s : SessionState V) (outcome : Result V Text × X)
      → s.pending_expansion ≡ none
      → 1 + left_of s ≤ fuel
      → Lighter fuel (resolved s outcome)
  resolved-Lighter fuel s (ok payload, x) pending le = (pending, le)
  resolved-Lighter fuel s (err e, x) pending le = tt

  action-Lighter :
      (fuel : ℕ) (s : SessionState V) (result : StepResult V) (ex : AgentToolExecutor V X) (x : X)
      (action : Option (OrchestratorAction V))
      → Outcome s result action
      → s.pending_expansion ≡ none
      → weight result + left_of s ≤ suc fuel
      → Lighter fuel (turn ex x (action_outcome s action))
  unfolding turn action_outcome
  action-Lighter fuel s result ex x none outcome pending le = tt
  action-Lighter fuel s result ex x (some (completed response t)) outcome pending le = tt
  action-Lighter fuel s result ex x (some (tool_call i t))
        (at, kept_plan, kind, (planned, here, exact, named, ready)) pending le =
      let (same, none_pending) = kept_plan pending in
      executed-Lighter fuel t (ex.execute_tool x i) none_pending (
        omega (
          arith,
          at,
          ap length same,
          get_elem?-lt t.plan t.step_index here,
          one-le-weight result,
          le,
        ))
  action-Lighter fuel s result ex x (some (awaiting_approval id t)) (asked, same) pending le =
      resolved-Lighter fuel t (ex.resolve_approval x id true)
        (ap (λ u. u.pending_expansion) same ∙ pending)
        (omega (arith, ap left_of same, ap weight asked, le))

module _ {V X : Type 0} (planner : Planner V) (cs : Casing) (js : Json V) (input : AgentTaskInput)
    (config : AgentConfig) (ex : AgentToolExecutor V X) where
  Finishes-turn :
      (fuel : ℕ) (next : Turn V X)
      → ((s : SessionState V) (result : StepResult V) (x : X)
          → s.pending_expansion ≡ none
          → weight result + left_of s ≤ fuel
          → Finishes (agent_loop planner cs js input config ex fuel s (some result) x))
      → Lighter fuel next
      → Finishes (elim next [
        | again s' result' x' ↦ agent_loop planner cs js input config ex fuel s' (some result') x'
        | done answer s' x' ↦ some (answer, (s', x'))
      ])
  Finishes-turn fuel (again s' result' x') later (pending, le) = later s' result' x' pending le
  Finishes-turn fuel (done answer s' x') later le = ((answer, (s', x')), refl)

  -- The plan that is run.
  abbrev pub planned_steps : List (ToolCallIntent V)
  planned_steps =
      planner.plan_for (route cs (router_input input config)) (router_input input config)
        config.default_workspace_id config.default_workspace_root

  initial_outcome-Lighter :
      (fuel : ℕ) (id : Text) (x : X) (steps : List (ToolCallIntent V))
      → 2 * length steps + 2 ≤ fuel
      → Lighter fuel (
          turn ex x (
            initial_outcome (
              session_of_plan id
                  (router_input input config)
                  (route cs (router_input input config))
                  steps,
              first steps,
            )))
  unfolding turn initial_outcome session_of_plan
  initial_outcome-Lighter fuel id x [] le = tt
  initial_outcome-Lighter fuel id x (intent ∷ rest) le =
      executed-Lighter fuel _ (ex.execute_tool x intent) refl (omega (arith, le))

  begin-Lighter :
      (fuel : ℕ) (s : SessionState V) (x : X) (state : TaskState)
      → 2 * length planned_steps + 2 ≤ fuel
      → Lighter fuel (turn ex x (begin planner cs input config s state))
  unfolding turn begin start_session
  begin-Lighter fuel s x TaskState.initial le =
      initial_outcome-Lighter fuel s.session_id x planned_steps le
  begin-Lighter fuel s x TaskState.executing le = tt
  begin-Lighter fuel s x TaskState.complete le = tt

  agent_loop-Finishes :
      (fuel : ℕ) (s : SessionState V) (result : StepResult V) (x : X)
      → s.pending_expansion ≡ none
      → weight result + left_of s ≤ fuel
      → Finishes (agent_loop planner cs js input config ex fuel s (some result) x)
  unfolding agent_loop agent_step
  agent_loop-Finishes zero s result x pending le = absurd (omega (arith, one-le-weight result, le))
  agent_loop-Finishes (suc fuel) s result x pending le =
      Finishes-turn fuel _ (agent_loop-Finishes fuel)
        (action-Lighter fuel s result ex x _ (next_action-Outcome cs js s result) pending le)

  -- `agent_request` ends, whatever the executor answers and whatever session it is called with: a
  -- plan of n steps takes at most 2 * n + 3 turns of the loop.
  pub agent_request-Finishes :
      (fuel : ℕ) (s : SessionState V) (x : X)
      → 2 * length (planned_steps) + 3 ≤ fuel
      → Finishes (agent_request planner cs js input config ex fuel s x)
  unfolding agent_request agent_loop agent_step
  agent_request-Finishes zero s x le = absurd (omega (arith, le))
  agent_request-Finishes (suc fuel) s x le =
      Finishes-turn fuel _ (agent_loop-Finishes fuel)
        (begin-Lighter fuel s x s.state (omega (arith, le)))
