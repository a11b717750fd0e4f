-- ===== src/Orchestrator/Progress.antt =====
-- oxcer-core/src/orchestrator/execution.rs, `next_action`: what one call does to the plan, the step
-- index and the state of a session.
use oxcer_agent.Prelude.{
  ◌+◌, ◌-◌, Bool, true, false, ◌&&◌, List, Option, none, some, ◌≡◌, refl, sym, ap, ◌∙◌, get_elem?,
  push,
}
use mathlib.Core.Option
use mathlib.Core.Path.{subst}
use oxcer_agent.Text.{Text, Casing, codes}
use oxcer_agent.Orchestrator.{
  Json, ToolCallIntent, StepResult, SessionState, OrchestratorAction, completed, tool_call,
  awaiting_approval, TaskState, ExpansionKind, ToolTrace,
}
use oxcer_agent.Orchestrator.Expansion.{do_expand_plan}
use oxcer_agent.Orchestrator.Trace.{text_of, build_tool_trace}
use oxcer_agent.Orchestrator.Apply.{
  Applied, go_on, stop, is_task, current, is_listing, is_generating, is_narration, store_text,
  store_printed, confirm_root, capture_listing, accumulate_content, store_response, advance,
  apply_ok, expand, trigger_expansion, record_trace,
}
use oxcer_agent.Orchestrator.Emit.{text_or}
use oxcer_agent.Orchestrator.NextAction.{fail_step, continue_from, next_action}
use oxcer_agent.Orchestrator.Steps.{filled, Named, Ready, Settled, next_step-Settled}

module _ {V : Type 0} where
  -- The parts of a session that say how far its plan has run.
  abbrev pub Unmoved : SessionState V → SessionState V → Type 0
  Unmoved s t =
      (t.plan ≡ s.plan)
      × (t.step_index ≡ s.step_index)
      × (t.kind ≡ s.kind)
      × (t.pending_expansion ≡ s.pending_expansion)

  -- An end of a session.
  abbrev pub Ended : Text → SessionState V → Type 0
  Ended response t =
      (t.state ≡ TaskState.complete) × (response ≡ text_or t.accumulated_response (codes "Done."))

  abbrev pub Stored : SessionState V → Applied V → Type 0
  Stored s (go_on t) = Unmoved s t
  Stored s (stop response t) = Ended response t

  store_text-Stored :
      (refused : Bool) (t : Text) (s : SessionState V) → Stored s (store_text refused t s)
  unfolding store_text
  store_text-Stored true t s = (refl, refl)
  store_text-Stored false t s = (refl, refl, refl, refl)

  store_printed-Stored :
      (printed : Option Text) (s : SessionState V) → Stored s (store_printed printed s)
  unfolding store_printed
  store_printed-Stored none s = (refl, refl, refl, refl)
  store_printed-Stored (some t) s = (refl, refl, refl, refl)

  store_response-Stored :
      (cs : Casing) (js : Json V) (payload : V) (s : SessionState V)
      → Stored s (store_response cs js payload s)
  unfolding store_response
  store_response-Stored cs js payload s = text_cases (text_of js payload)
    where
      text_cases :
          (found : Option Text)
          → Stored s (elim found [
            | some t ↦
                store_text (is_task s.kind && is_generating (current s) && is_narration cs t) t s
            | none ↦ store_printed (js.to_string payload) s
          ])
      text_cases none = store_printed-Stored (js.to_string payload) s
      text_cases (some t) = store_text-Stored _ t s

  -- What a successful result leaves: the session one step further, or its end.
  abbrev pub Advanced : SessionState V → Applied V → Type 0
  Advanced s (go_on t) =
      (t.plan ≡ s.plan)
      × (t.step_index ≡ s.step_index + 1)
      × (t.kind ≡ s.kind)
      × (t.pending_expansion ≡ s.pending_expansion)
  Advanced s (stop response t) = Ended response t

  advance-Advanced :
      (s : SessionState V) (applied : Applied V) → Stored s applied → Advanced s (advance applied)
  unfolding advance
  advance-Advanced s (go_on t) (plan, at, kind, pending) = (plan, ap (λ i. i + 1) at, kind, pending)
  advance-Advanced s (stop response t) ended = ended

  apply_ok-Advanced :
      (cs : Casing) (js : Json V) (payload : V) (s : SessionState V)
      → Advanced s (apply_ok cs js payload s)
  unfolding apply_ok accumulate_content capture_listing confirm_root
  apply_ok-Advanced cs js payload s = advance-Advanced s _ (
      store_response-Stored cs js payload
        (accumulate_content js payload (capture_listing js payload (confirm_root s))))

  -- What one call of `next_action` with a result does: it panics; it ends the session with its
  -- response; it goes one step further, to a step of the plan, which a session with no pending
  -- expansion keeps as it is; or it waits for an approval and leaves the rest as it is.
  abbrev pub Moved : SessionState V → StepResult V → OrchestratorAction V → Type 0
  Moved s result (completed response t) = Ended response t
  Moved s result (tool_call emitted t) =
      (t.step_index ≡ s.step_index + 1)
      × (s.pending_expansion ≡ none → (t.plan ≡ s.plan) × (t.pending_expansion ≡ none))
      × (t.kind ≡ s.kind)
      × ((planned : ToolCallIntent V) × (current t ≡ some planned)
          × (emitted ≡ filled t planned)
          × Named t planned
          × (is_task t.kind ≡ true → Ready t planned))
  Moved s result (awaiting_approval request_id t) =
      (result ≡ StepResult.approval_pending request_id)
      × (t ≡ record s { approvals_requested = push s.approvals_requested request_id })

  abbrev pub Outcome : SessionState V → StepResult V → Option (OrchestratorAction V) → Type 0
  Outcome s result none = Unit
  Outcome s result (some action) = Moved s result action

  -- `t` is `s` with more steps in its plan, if `s` had a pending expansion.
  abbrev pub Expanded : SessionState V → SessionState V → Type 0
  Expanded s t =
      (t.step_index ≡ s.step_index)
      × (t.kind ≡ s.kind)
      × (s.pending_expansion ≡ none → (t.plan ≡ s.plan) × (t.pending_expansion ≡ none))

  expand-Expanded :
      (cs : Casing) (listed : Bool) (expansion : ExpansionKind) (s : SessionState V)
      → s.pending_expansion ≡ some expansion
      → Expanded s (expand cs listed expansion s)
  unfolding expand do_expand_plan
  expand-Expanded cs true expansion s e = (refl, refl, λ pending. cc)
  expand-Expanded cs false expansion s e = (refl, refl, λ pending. cc)

  trigger_expansion-Expanded :
      (cs : Casing) (s : SessionState V) → Expanded s (trigger_expansion cs s)
  unfolding trigger_expansion
  trigger_expansion-Expanded cs s = pending_cases s.pending_expansion refl
    where
      pending_cases :
          (pending : Option ExpansionKind)
          → s.pending_expansion ≡ pending
          → Expanded s (elim pending [
            | none ↦ s
            | some expansion ↦
                expand cs (is_listing (get_elem? s.plan (s.step_index - 1))) expansion s
          ])
      pending_cases none e = (refl, refl, λ pending. (refl, pending))
      pending_cases (some expansion) e = expand-Expanded cs _ expansion s e

  -- The same for what follows a successful result, where no approval is waited for.
  abbrev pub Onward : SessionState V → StepResult V → OrchestratorAction V → Type 0
  Onward s result (awaiting_approval request_id t) = ⊥
  Onward s result action = Moved s result action

  -- From a session one step further to the action.
  next_step-Onward :
      (s t : SessionState V) (result : StepResult V) (action : OrchestratorAction V)
      → t.step_index ≡ s.step_index + 1
      → t.kind ≡ s.kind
      → (s.pending_expansion ≡ none → (t.plan ≡ s.plan) × (t.pending_expansion ≡ none))
      → Settled t action
      → Onward s result action
  next_step-Onward s t result (completed response u) at kind plan settled = settled
  next_step-Onward s t result (awaiting_approval request_id u) at kind plan settled = absurd settled
  next_step-Onward s t result (tool_call emitted u) at kind plan
        (same, (planned, here, exact, named, ready)) =
      subst (λ v. Onward s result (tool_call emitted v)) (sym same)
        (at, plan, kind, (planned, here, exact, named, ready))

  continue_from-Onward :
      (cs : Casing) (s : SessionState V) (result : StepResult V) (applied : Applied V)
      → Advanced s applied
      → Onward s result (continue_from cs applied)
  unfolding continue_from
  continue_from-Onward cs s result (stop response t) ended = ended
  continue_from-Onward cs s result (go_on t) (plan, at, kind, pending) =
      let (at', kind', plan') = trigger_expansion-Expanded cs t in
      next_step-Onward s (trigger_expansion cs t) result _ (at' ∙ at) (kind' ∙ kind)
        (λ e. let (same, gone) = plan' (pending ∙ e) in (same ∙ plan, gone))
        (next_step-Settled (trigger_expansion cs t))

  Moved-Onward :
      (s : SessionState V) (traces : List (ToolTrace V)) (result : StepResult V)
      (action : OrchestratorAction V)
      → Onward (record s { tool_traces = traces }) result action
      → Moved s result action
  Moved-Onward s traces result (completed response t) moved = moved
  Moved-Onward s traces result (tool_call emitted t) moved = moved
  Moved-Onward s traces result (awaiting_approval request_id t) moved = absurd moved

  -- A session that differs from `s` in its traces only.
  abbrev Traced : SessionState V → Option (SessionState V) → Type 0
  Traced s none = Unit
  Traced s (some t) = (traces : List (ToolTrace V)) × (t ≡ record s { tool_traces = traces })

  record_trace-Traced :
      (js : Json V) (result : StepResult V) (s : SessionState V)
      → Traced s (record_trace js result s)
  unfolding record_trace
  record_trace-Traced js result s = current_cases (current s) (build_tool_trace js)
    where
      pushed_cases :
          (trace : Option (ToolTrace V))
          → Traced s
              (Option.map (λ trace. record s { tool_traces = push s.tool_traces trace }) trace)
      pushed_cases none = tt
      pushed_cases (some trace) = (push s.tool_traces trace, refl)

      current_cases :
          (here : Option (ToolCallIntent V))
          (build : ToolCallIntent V → StepResult V → Option (ToolTrace V))
          → Traced s (elim here [
            | none ↦ some s
            | some intent ↦
                Option.map
                  (λ trace. record s { tool_traces = push s.tool_traces trace })
                  (build intent result)
          ])
      current_cases none build = (s.tool_traces, refl)
      current_cases (some intent) build = pushed_cases (build intent result)

  Outcome-Traced :
      (s : SessionState V) (result : StepResult V) (next : SessionState V → OrchestratorAction V)
      (traced : Option (SessionState V))
      → Traced s traced
      → ((traces : List (ToolTrace V)) → Moved s result (next (record s { tool_traces = traces })))
      → Outcome s result (Option.map next traced)
  Outcome-Traced s result next none same moved = tt
  Outcome-Traced s result next (some t) (traces, same) moved =
      subst (λ u. Moved s result (next u)) (sym same) (moved traces)

  -- One call of `next_action` with a result panics, or it ends the session with its response, or it
  -- waits for an approval and leaves the rest as it is, or it goes exactly one step further: it hands
  -- out the step that the plan has there as it is, but for the first listed name in the path of a
  -- reading, and the gathered contents and the capped result in a prompt, each in place of its
  -- placeholder; a placeholder for a listed name only where there is one, and in a task session a
  -- prompt only where the files or the text that it asks for were read. The plan stays as it is unless
  -- an expansion was pending.
  pub next_action-Outcome :
      (cs : Casing) (js : Json V) (s : SessionState V) (result : StepResult V)
      → Outcome s result (next_action cs js s (some result))
  unfolding next_action fail_step
  next_action-Outcome cs js s (StepResult.approval_pending request_id) = (refl, refl)
  next_action-Outcome cs js s (StepResult.err message) =
      Outcome-Traced s _ (fail_step message) _ (record_trace-Traced js (StepResult.err message) s)
        (λ traces. (refl, refl))
  next_action-Outcome cs js s (StepResult.ok payload) =
      Outcome-Traced s _ _ _ (record_trace-Traced js (StepResult.ok payload) s) (λ traces.
        let t : SessionState V = record s { tool_traces = traces } in
        Moved-Onward s traces _ _
          (continue_from-Onward cs t (StepResult.ok payload) _ (apply_ok-Advanced cs js payload t)))
