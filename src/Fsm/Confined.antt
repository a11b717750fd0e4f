-- ===== src/Fsm/Confined.antt =====
-- oxcer-core/src/fsm.rs: what a run does with the machine.
use oxcer_agent.Prelude.{
  ℕ, zero, suc, true, Option, none, some, ◌≡◌, refl, ap, ◌∙◌, Result, ok, err, leb, Bool-cases, inl,
  inr,
}
use oxcer_agent.Text.{Text, Casing}
use oxcer_agent.Executor.{ExecutorError, error, Machine, ToolCall, read_document, guard_path}
use oxcer_agent.Executor.Execute.{execute, exec_read_document}
use oxcer_agent.Executor.Confined.{fenced, IsStraight, guard_path-fenced, execute-fenced}
use oxcer_agent.Guardrail.{AgenticError, validate_final_answer}
use oxcer_agent.Fsm.{
  AgentState, init, retrieve_context, action_selection, execution, validation, finalize, FsmContext,
  World, FsmFault, Next, goto, return,
}
use oxcer_agent.Fsm.Prompts.{is_summarization_query}
use oxcer_agent.Fsm.Run.{
  retrieve, select, ask, run_tool, perform, perform_call, primary_path, named_path, keep_summary,
  answered, conclude, write_summary_beside, ok_or_path, executed, transition, run_from, run,
  new_context, told, observe, document_path,
}

module _ {W : Type 0} (cs : Casing) (world : World W) (m : Machine W) (root canonical_root : Text)
    (max_steps : ℕ) (known : (w : W) → m.canonicalize w root ≡ ok canonical_root)
    (straight : IsStraight m) where
  abbrev behind_fence : Machine W
  behind_fence = fenced canonical_root root m

  primary_path-fenced :
      (w : W) (call : ToolCall)
      → primary_path cs world behind_fence root max_steps w call
        ≡ primary_path cs world m root max_steps w call
  unfolding primary_path
  primary_path-fenced w call = path_cases (named_path call)
    where
      path_cases :
          (named : Option Text)
          → ◌≡◌ {A = Option Text}
              (elim named [
                | none ↦ none
                | some p ↦ some (ok_or_path (guard_path behind_fence root w p) p)
              ])
              (elim named [ none ↦ none | some p ↦ some (ok_or_path (guard_path m root w p) p) ])
      path_cases none = refl
      path_cases (some p) = rw (guard_path-fenced m root canonical_root w (known w) straight p) refl

  perform_call-fenced :
      (pending : Option ToolCall) (ctx : FsmContext) (w : W)
      → perform_call cs world behind_fence root max_steps pending ctx w
        ≡ perform_call cs world m root max_steps pending ctx w
  unfolding perform_call run_tool executed
  perform_call-fenced none ctx w = refl
  perform_call-fenced (some call) ctx w =
      rw
        (
          primary_path-fenced w call,
          execute-fenced m root canonical_root w (known w) straight cs call,
        )
        refl

  ask-fenced :
      (prompt : Option Text) (ctx : FsmContext) (w : W)
      → ask cs world behind_fence root max_steps prompt ctx w
        ≡ ask cs world m root max_steps prompt ctx w
  unfolding ask
  ask-fenced none ctx w = refl
  ask-fenced (some prompt) ctx w = refl

  select-fenced :
      (ctx : FsmContext) (w : W)
      → select cs world behind_fence root max_steps ctx w ≡ select cs world m root max_steps ctx w
  unfolding select
  select-fenced ctx w = elim (Bool-cases (leb max_steps ctx.step)) [
    | inl spent ↦ rw spent refl
    | inr left ↦ rw left (ask-fenced _ ctx w)
  ]

  -- The one file that a run writes is not fenced.
  keep_summary-fenced :
      (doc_path : Option Text) (answer : Text) (ctx : FsmContext) (w : W)
      → keep_summary cs world behind_fence root max_steps doc_path answer ctx w
        ≡ keep_summary cs world m root max_steps doc_path answer ctx w
  unfolding keep_summary write_summary_beside
  keep_summary-fenced none answer ctx w = refl
  keep_summary-fenced (some doc_path) answer ctx w = refl

  answered-fenced :
      (answer : Result Text AgenticError) (ctx : FsmContext) (w : W)
      → answered cs world behind_fence root max_steps answer ctx w
        ≡ answered cs world m root max_steps answer ctx w
  unfolding answered
  answered-fenced (err e) ctx w = refl
  answered-fenced (ok answer) ctx w = keep_summary-fenced ctx.last_doc_path answer ctx w

  conclude-fenced :
      (prompt : Option Text) (ctx : FsmContext) (w : W)
      → conclude cs world behind_fence root max_steps prompt ctx w
        ≡ conclude cs world m root max_steps prompt ctx w
  unfolding conclude
  conclude-fenced none ctx w = refl
  conclude-fenced (some prompt) ctx w =
      answered-fenced (validate_final_answer (world.generate w prompt).0) ctx
        (world.generate w prompt).1

  transition-fenced :
      (state : AgentState) (ctx : FsmContext) (w : W)
      → transition cs world behind_fence root max_steps state ctx w
        ≡ transition cs world m root max_steps state ctx w
  unfolding transition retrieve perform
  transition-fenced init ctx w = refl
  transition-fenced retrieve_context ctx w = refl
  transition-fenced action_selection ctx w = select-fenced ctx w
  transition-fenced execution ctx w = perform_call-fenced ctx.pending_tool ctx w
  transition-fenced validation ctx w = refl
  transition-fenced finalize ctx w = conclude-fenced _ ctx w

  -- Runs that go on alike, after the same transition.
  next-fenced :
      (fuel : ℕ) (next : Next W)
      → ((state : AgentState) (ctx : FsmContext) (w : W)
          → run_from cs world behind_fence root max_steps fuel state ctx w
            ≡ run_from cs world m root max_steps fuel state ctx w)
      → ◌≡◌ {A = Option (Result Text FsmFault × (FsmContext × W))}
          (elim next [
            | goto state ctx w ↦ run_from cs world behind_fence root max_steps fuel state ctx w
            | return answer ctx w ↦ some (answer, (ctx, w))
          ])
          (elim next [
            | goto state ctx w ↦ run_from cs world m root max_steps fuel state ctx w
            | return answer ctx w ↦ some (answer, (ctx, w))
          ])
  next-fenced fuel (goto state ctx w) later = later state ctx w
  next-fenced fuel (return answer ctx w) later = refl

  run_from-fenced :
      (fuel : ℕ) (state : AgentState) (ctx : FsmContext) (w : W)
      → run_from cs world behind_fence root max_steps fuel state ctx w
        ≡ run_from cs world m root max_steps fuel state ctx w
  unfolding run_from
  run_from-fenced zero state ctx w = refl
  run_from-fenced (suc fuel) state ctx w =
      ap
        (λ next. elim next as (λ n. Option (Result Text FsmFault × (FsmContext × W))) [
          | goto state' ctx' w' ↦ run_from cs world behind_fence root max_steps fuel state' ctx' w'
          | return answer ctx' w' ↦ some (answer, (ctx', w'))
        ])
        (transition-fenced state ctx w)
      ∙ next-fenced fuel _ (run_from-fenced fuel)

-- A run does the same, whatever the model answers, where the machine refuses its tools every path that
-- is not below the canonical root or that has a "..", and every process but an allowed command that is
-- started in the root, if canonicalizing a path leaves no ".." in it. Whether a path below the root
-- is a link is not looked at, and the summary that the run writes at its end is not refused there.
pub run-fenced :
    {W : Type 0} (cs : Casing) (world : World W) (m : Machine W) (root canonical_root : Text)
    (max_steps : ℕ)
    → ((w : W) → m.canonicalize w root ≡ ok canonical_root)
    → IsStraight m
    → (fuel : ℕ) (query : Text) (w : W)
    → run cs world (fenced canonical_root root m) root max_steps fuel query w
      ≡ run cs world m root max_steps fuel query w
unfolding run
run-fenced cs world m root canonical_root max_steps known straight fuel query w =
    run_from-fenced cs world m root canonical_root max_steps known straight fuel init
      (new_context query) w

module _ {W : Type 0} (cs : Casing) (world : World W) (m : Machine W) (root : Text)
    (max_steps : ℕ) where
  -- The transition leads on, and an answer in the context that it leads to is written beside `path`.
  abbrev pub KeepsBeside : Text → Text → W → Next W → Type 0
  KeepsBeside path answer later (goto state ctx w) =
      (state ≡ validation)
      × (answered cs world m root max_steps (ok answer) ctx later
          ≡ told answer (write_summary_beside cs world m root max_steps path answer later) ctx)
  KeepsBeside path answer later (return result ctx w) = ⊥

  -- Where the guard refuses the path of a document that the model asks to read, the agent remembers
  -- the path all the same, and goes on: when it then answers a query for a summary from that context,
  -- it writes the answer beside the refused path, which is outside the workspace where the path is.
  pub refused_document-KeepsBeside :
      (path answer : Text) (ctx : FsmContext) (w later : W) (e : ExecutorError)
      → guard_path m root w path ≡ err (error e)
      → is_summarization_query cs ctx.query ≡ true
      → KeepsBeside path answer later
          (run_tool cs world m root max_steps (read_document path) ctx w)
  unfolding run_tool executed execute exec_read_document primary_path named_path document_path
      observe answered keep_summary
  refused_document-KeepsBeside path answer ctx w later e refused asked =
      rw refused (refl, rw asked refl)
