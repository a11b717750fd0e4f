-- ===== src/Fsm/Budget.antt =====
-- oxcer-core/src/fsm.rs, `AgentFsm::run`: the budget of steps.
use oxcer_agent.Prelude.{
  ℕ, zero, suc, ◌+◌, ◌*◌, ◌-◌, ◌<◌, ◌≤◌, List, Option, none, some, ◌≡◌, refl, Bool-cases, inl, inr,
  Result, ok, err, leb, leb_false→lt, arith,
}
use oxcer_agent.Text.{Text, Casing}
use oxcer_agent.Executor
use oxcer_agent.Executor.{
  Machine, ToolCall, fs_list_dir, fs_read_file, shell_run, read_document, move_file, trash_file,
}
use oxcer_agent.Executor.Execute.{execute}
use oxcer_agent.Guardrail.{
  AgenticError, ActionSpec, no_tool, tool, validate_action_selection, validate_final_answer,
}
use oxcer_agent.Fsm.{
  AgentState, init, retrieve_context, action_selection, execution, validation, finalize, FsmContext,
  World, EpisodicFact, FsmFault, Next, goto, return,
}
use oxcer_agent.Fsm.Prompts.{is_summarization_query}
use oxcer_agent.Fsm.Run.{
  remembered, retrieve, selected, ask, select, observe, executed, navigate, document_path,
  primary_path, run_tool, perform, perform_call, keep_summary, answered, told, conclude, transition,
  run_from, run, new_context,
}

-- Where a run may be: at most `max_steps` tools have run, and one that is about to run has its step.
abbrev pub InBudget : ℕ → AgentState → FsmContext → Type 0
InBudget max_steps execution ctx =
    (ctx.step < max_steps) × ((call : ToolCall) × (ctx.pending_tool ≡ some call))
InBudget max_steps _ ctx = ctx.step ≤ max_steps

-- How many transitions are left at most.
abbrev pub left_of : ℕ → AgentState → FsmContext → ℕ
left_of max_steps init ctx = 3 * (max_steps - ctx.step) + 4
left_of max_steps retrieve_context ctx = 3 * (max_steps - ctx.step) + 3
left_of max_steps validation ctx = 3 * (max_steps - ctx.step) + 3
left_of max_steps action_selection ctx = 3 * (max_steps - ctx.step) + 2
left_of max_steps execution ctx = 3 * (max_steps - ctx.step) + 1
left_of max_steps finalize ctx = 1

module _ {W : Type 0} where
  -- A transition that leaves at most `fuel` more.
  abbrev pub Lighter : ℕ → ℕ → Next W → Type 0
  Lighter max_steps fuel (return answer ctx w) = ctx.step ≤ max_steps
  Lighter max_steps fuel (goto state ctx w) =
      InBudget max_steps state ctx × (left_of max_steps state ctx ≤ fuel)

  remembered-Lighter :
      (max_steps fuel : ℕ) (facts : Result (List EpisodicFact) Text) (ctx : FsmContext) (w : W)
      → ctx.step ≤ max_steps
      → 3 * (max_steps - ctx.step) + 2 ≤ fuel
      → Lighter max_steps fuel (remembered facts ctx w)
  unfolding remembered
  remembered-Lighter max_steps fuel (err e) ctx w within enough = within
  remembered-Lighter max_steps fuel (ok facts) ctx w within enough = (within, enough)

  selected-Lighter :
      (max_steps fuel : ℕ) (spec : Result ActionSpec AgenticError) (ctx : FsmContext) (w : W)
      → ctx.step < max_steps
      → 3 * (max_steps - ctx.step) + 1 ≤ fuel
      → Lighter max_steps fuel (selected spec ctx w)
  unfolding selected
  selected-Lighter max_steps fuel (err e) ctx w within enough = omega arith
  selected-Lighter max_steps fuel (ok no_tool) ctx w within enough = (omega arith, omega arith)
  selected-Lighter max_steps fuel (ok (tool call)) ctx w within enough =
      ((within, (call, refl)), enough)

  told-Lighter :
      (max_steps fuel : ℕ) (answer : Text) (saved : Option Text × W) (ctx : FsmContext)
      → ctx.step ≤ max_steps
      → Lighter max_steps fuel (told answer saved ctx)
  unfolding told
  told-Lighter max_steps fuel answer (none, w) ctx within = within
  told-Lighter max_steps fuel answer (some saved, w) ctx within = within

-- A tool leaves the count of steps alone.
navigate_step :
    (call : ToolCall) (primary : Option Text) (ctx : FsmContext)
    → (navigate call primary ctx).step ≡ ctx.step
unfolding navigate
navigate_step (fs_list_dir p) (some dir) ctx = refl
navigate_step (fs_list_dir p) none ctx = refl
navigate_step (fs_read_file p) (some file) ctx = refl
navigate_step (fs_read_file p) none ctx = refl
navigate_step (read_document p) (some file) ctx = refl
navigate_step (read_document p) none ctx = refl
navigate_step (shell_run command args) (some p) ctx = refl
navigate_step (shell_run command args) none ctx = refl
navigate_step (move_file source dest) (some p) ctx = refl
navigate_step (move_file source dest) none ctx = refl
navigate_step (trash_file p) (some q) ctx = refl
navigate_step (trash_file p) none ctx = refl

module _ {W : Type 0} (cs : Casing) (world : World W) (m : Machine W) (root : Text) (max_steps : ℕ)
    (fuel : ℕ) where
  ask-Lighter :
      (prompt : Option Text) (ctx : FsmContext) (w : W)
      → ctx.step < max_steps
      → 3 * (max_steps - ctx.step) + 1 ≤ fuel
      → Lighter max_steps fuel (ask cs world m root max_steps prompt ctx w)
  unfolding ask
  ask-Lighter none ctx w within enough = omega arith
  ask-Lighter (some prompt) ctx w within enough =
      selected-Lighter max_steps fuel (validate_action_selection (world.generate w prompt).0) ctx
        (world.generate w prompt).1 within enough

  select-Lighter :
      (ctx : FsmContext) (w : W)
      → ctx.step ≤ max_steps
      → 3 * (max_steps - ctx.step) + 1 ≤ fuel
      → Lighter max_steps fuel (select cs world m root max_steps ctx w)
  unfolding select
  select-Lighter ctx w within enough = elim (Bool-cases (leb max_steps ctx.step)) [
    | inl spent ↦ rw spent within
    | inr left ↦ rw left (ask-Lighter _ ctx w (leb_false→lt max_steps ctx.step left) enough)
  ]

  executed-Lighter :
      (ctx : FsmContext) (result : Result Text Executor.Fault × W)
      → ctx.step < max_steps
      → 3 * (max_steps - ctx.step) ≤ fuel
      → Lighter max_steps fuel (executed cs world m root max_steps ctx result)
  unfolding executed observe
  executed-Lighter ctx (err Executor.panicked, w) within enough = omega arith
  executed-Lighter ctx (err (Executor.error e), w) within enough = (omega arith, omega arith)
  executed-Lighter ctx (ok out, w) within enough = (omega arith, omega arith)

  run_tool-Lighter :
      (call : ToolCall) (ctx : FsmContext) (w : W)
      → ctx.step < max_steps
      → 3 * (max_steps - ctx.step) ≤ fuel
      → Lighter max_steps fuel (run_tool cs world m root max_steps call ctx w)
  unfolding run_tool
  run_tool-Lighter call ctx w within enough =
      let primary = primary_path cs world m root max_steps w call in
      let before : FsmContext = record ctx {
        pending_tool = none;
        last_doc_path = document_path call primary ctx.last_doc_path;
      } in
      let same = navigate_step call primary before in
      executed-Lighter (navigate call primary before) (execute cs m root w call)
        (omega (arith, same, within)) (omega (arith, same, enough))

  keep_summary-Lighter :
      (doc_path : Option Text) (answer : Text) (ctx : FsmContext) (w : W)
      → ctx.step ≤ max_steps
      → Lighter max_steps fuel (keep_summary cs world m root max_steps doc_path answer ctx w)
  unfolding keep_summary
  keep_summary-Lighter none answer ctx w within = within
  keep_summary-Lighter (some doc_path) answer ctx w within =
      elim (Bool-cases (is_summarization_query cs ctx.query)) [
        | inl summary ↦ rw summary (told-Lighter max_steps fuel answer _ ctx within)
        | inr other ↦ rw other within
      ]

  answered-Lighter :
      (answer : Result Text AgenticError) (ctx : FsmContext) (w : W)
      → ctx.step ≤ max_steps
      → Lighter max_steps fuel (answered cs world m root max_steps answer ctx w)
  unfolding answered
  answered-Lighter (err e) ctx w within = within
  answered-Lighter (ok answer) ctx w within =
      keep_summary-Lighter ctx.last_doc_path answer ctx w within

  conclude-Lighter :
      (prompt : Option Text) (ctx : FsmContext) (w : W)
      → ctx.step ≤ max_steps
      → Lighter max_steps fuel (conclude cs world m root max_steps prompt ctx w)
  unfolding conclude
  conclude-Lighter none ctx w within = within
  conclude-Lighter (some prompt) ctx w within =
      answered-Lighter (validate_final_answer (world.generate w prompt).0) ctx
        (world.generate w prompt).1 within

  -- Every transition uses up one of those that are left.
  transition-Lighter :
      (state : AgentState) (ctx : FsmContext) (w : W)
      → InBudget max_steps state ctx
      → left_of max_steps state ctx ≤ suc fuel
      → Lighter max_steps fuel (transition cs world m root max_steps state ctx w)
  unfolding transition retrieve perform perform_call
  transition-Lighter init ctx w within enough = (within, omega arith)
  transition-Lighter retrieve_context ctx w within enough =
      remembered-Lighter max_steps fuel (world.get_recent_context w 5) ctx w within (omega arith)
  transition-Lighter action_selection ctx w within enough =
      select-Lighter ctx w within (omega arith)
  transition-Lighter execution ctx w (within, (call, at)) enough =
      rw at (run_tool-Lighter call ctx w within (omega (arith, enough)))
  transition-Lighter validation ctx w within enough = (within, omega arith)
  transition-Lighter finalize ctx w within enough = conclude-Lighter _ ctx w within

-- A run that ends, with at most `max_steps` tools run.
abbrev pub Bounded : {W : Type 0} → ℕ → Option (Result Text FsmFault × (FsmContext × W)) → Type 0
Bounded max_steps none = ⊥
Bounded max_steps (some (answer, (ctx, w))) = ctx.step ≤ max_steps

module _ {W : Type 0} (cs : Casing) (world : World W) (m : Machine W) (root : Text)
    (max_steps : ℕ) where
  next-Bounded :
      (fuel : ℕ) (next : Next W)
      → ((state : AgentState) (ctx : FsmContext) (w : W)
          → InBudget max_steps state ctx
          → left_of max_steps state ctx ≤ fuel
          → Bounded max_steps (run_from cs world m root max_steps fuel state ctx w))
      → Lighter max_steps fuel next
      → Bounded max_steps (elim next [
        | goto state ctx w ↦ run_from cs world m root max_steps fuel state ctx w
        | return answer ctx w ↦ some (answer, (ctx, w))
      ])
  next-Bounded fuel (goto state ctx w) later (within, enough) = later state ctx w within enough
  next-Bounded fuel (return answer ctx w) later within = within

  left_pos : (state : AgentState) (ctx : FsmContext) → 1 ≤ left_of max_steps state ctx
  left_pos init ctx = omega arith
  left_pos retrieve_context ctx = omega arith
  left_pos action_selection ctx = omega arith
  left_pos execution ctx = omega arith
  left_pos validation ctx = omega arith
  left_pos finalize ctx = omega arith

  run_from-Bounded :
      (fuel : ℕ) (state : AgentState) (ctx : FsmContext) (w : W)
      → InBudget max_steps state ctx
      → left_of max_steps state ctx ≤ fuel
      → Bounded max_steps (run_from cs world m root max_steps fuel state ctx w)
  unfolding run_from
  run_from-Bounded zero state ctx w within enough =
      absurd (omega (arith, enough, left_pos state ctx))
  run_from-Bounded (suc fuel) state ctx w within enough =
      next-Bounded fuel _ (run_from-Bounded fuel)
        (transition-Lighter cs world m root max_steps fuel state ctx w within enough)

  -- `run` ends after at most 3 * max_steps + 4 transitions, whatever the model, the database and the
  -- machine do, and it has run at most `max_steps` tools by then.
  pub run-Bounded :
      (fuel : ℕ) (query : Text) (w : W)
      → 3 * max_steps + 4 ≤ fuel
      → Bounded max_steps (run cs world m root max_steps fuel query w)
  unfolding run
  run-Bounded fuel query w enough =
      run_from-Bounded fuel init (new_context query) w (omega arith) (omega (arith, enough))
