-- ===== src/Fsm/Run.antt =====
-- oxcer-core/src/fsm.rs, `AgentFsm::run`: the transitions, and the loop over them.
use oxcer_agent.Prelude.{
  ℕ, zero, suc, ◌+◌, Bool, not, ◌&&◌, List, [], ◌∷◌, ◌++◌, Option, none, some, push, retain, drop,
  take, length, ltb, leb, Result, ok, err, if◌then◌else◌,
}
use oxcer_agent.Text.{Text, Casing, codes}
use oxcer_agent.Paths.{parent, components, is_prefix}
use oxcer_agent.Executor
use oxcer_agent.Executor.{
  Machine, ToolCall, fs_list_dir, fs_read_file, shell_run, read_document, move_file, trash_file,
  guard_path,
}
use oxcer_agent.Executor.Execute.{execute}
use oxcer_agent.Executor.Display.{display_error}
use oxcer_agent.Guardrail.{
  AgenticError, db_error, step_limit_exceeded, ActionSpec, no_tool, tool, validate_action_selection,
  validate_final_answer,
}
use oxcer_agent.Fsm.{
  AgentState, init, retrieve_context, action_selection, execution, validation, finalize, FsmContext,
  World, EpisodicFact, FsmFault, panicked, failed, Next, goto, return,
}
use oxcer_agent.Fsm.Prompts.{
  build_action_selection_prompt, build_finalize_prompt, is_summarization_query,
  build_context_section, memory_section,
}

abbrev pub recent_files_max : ℕ
recent_files_max = 8

-- Paths are equal by their components.
unfoldable pub path_eq : Text → Text → Bool
unfolding components is_prefix
path_eq p q = is_prefix (components p) (components q) && is_prefix (components q) (components p)

-- `remove(0)` where there are too many.
unfoldable pub evict : List Text → List Text
evict recent = if ltb recent_files_max (length recent) then drop 1 recent else recent

unfoldable pub push_recent_file : List Text → Text → List Text
unfolding evict
push_recent_file recent path = evict (push (retain (λ p. not (path_eq p path)) recent) path)

abbrev pub ok_or_path : Result Text Executor.Fault → Text → Text
ok_or_path (ok p) path = p
ok_or_path (err e) path = path

abbrev pub new_context : Text → FsmContext
new_context query = record {
  query = query;
  memory_context = [];
  pending_tool = none;
  tool_output = none;
  step = 0;
  last_doc_path = none;
  context_dir = none;
  recent_files = [];
}

-- `is_document(tool)`, and the path that a tool names first.
unfoldable pub named_path : ToolCall → Option Text
named_path (fs_list_dir p) = some p
named_path (fs_read_file p) = some p
named_path (read_document p) = some p
named_path _ = none

unfoldable pub document_path : ToolCall → Option Text → Option Text → Option Text
document_path (read_document p) primary old = primary
document_path _ primary old = old

-- The navigation context behind a tool.
unfoldable pub navigate : ToolCall → Option Text → FsmContext → FsmContext
unfolding push_recent_file parent
navigate (fs_list_dir p) (some dir) ctx = record ctx { context_dir = some dir }
navigate (fs_read_file p) (some file) ctx = record ctx {
  context_dir = elim (parent file) [ none ↦ ctx.context_dir | some dir ↦ some dir ];
  recent_files = push_recent_file ctx.recent_files file;
}
navigate (read_document p) (some file) ctx = record ctx {
  context_dir = elim (parent file) [ none ↦ ctx.context_dir | some dir ↦ some dir ];
  recent_files = push_recent_file ctx.recent_files file;
}
navigate _ _ ctx = ctx

abbrev pub agentic : {A : Type 0} → Result A AgenticError → Result A FsmFault
agentic (ok a) = ok a
agentic (err e) = err (failed e)

-- The file that a summary is written to.
abbrev pub summary_path : Text → Text
summary_path doc_path = doc_path ++ codes ".summary.md"

module _ {W : Type 0} where
  unfoldable pub remembered : Result (List EpisodicFact) Text → FsmContext → W → Next W
  remembered (err e) ctx w = return (err (failed (db_error e))) ctx w
  remembered (ok facts) ctx w =
      goto action_selection (record ctx { memory_context = memory_section facts }) w

  unfoldable pub selected : Result ActionSpec AgenticError → FsmContext → W → Next W
  selected (err e) ctx w = return (err (failed e)) ctx w
  selected (ok no_tool) ctx w = goto finalize ctx w
  selected (ok (tool call)) ctx w = goto execution (record ctx { pending_tool = some call }) w

  unfoldable pub told : Text → Option Text × W → FsmContext → Next W
  told answer (none, w) ctx = return (ok answer) ctx w
  told answer (some saved, w) ctx =
      return (ok (answer ++ (10 ∷ 10 ∷ codes "Saved summary to: " ++ saved))) ctx w

module _ {W : Type 0} (cs : Casing) (world : World W) (m : Machine W) (root : Text)
    (max_steps : ℕ) where
  unfoldable pub primary_path : W → ToolCall → Option Text
  unfolding named_path
  primary_path w call = elim (named_path call) [
    | none ↦ none
    | some p ↦ some (ok_or_path (guard_path m root w p) p)
  ]

  unfoldable pub retrieve : FsmContext → W → Next W
  unfolding remembered
  retrieve ctx w = remembered (world.get_recent_context w 5) ctx w

  unfoldable pub ask : Option Text → FsmContext → W → Next W
  unfolding selected
  ask none ctx w = return (err panicked) ctx w
  ask (some prompt) ctx w =
      let (raw, w') = world.generate w prompt in selected (validate_action_selection raw) ctx w'

  unfoldable pub select : FsmContext → W → Next W
  unfolding ask
  select ctx w =
      if leb max_steps ctx.step
      then return (err (failed (step_limit_exceeded max_steps))) ctx w
      else ask
          (build_action_selection_prompt ctx.query ctx.memory_context ctx.tool_output
            (build_context_section world ctx.context_dir ctx.recent_files))
          ctx w

  -- The tail of the Execution state; `format!("{output:.200}")` takes 200 characters.
  unfoldable pub observe : FsmContext → Text → W → Next W
  observe ctx out w =
      goto validation (record ctx { tool_output = some out; step = ctx.step + 1 })
        (world.insert_fact w ctx.query (take 200 out))

  unfoldable pub executed : FsmContext → Result Text Executor.Fault × W → Next W
  unfolding observe
  executed ctx (err Executor.panicked, w) = return (err panicked) ctx w
  executed ctx (err (Executor.error e), w) =
      observe ctx (codes "[TOOL_ERROR: " ++ (display_error e ++ codes "]")) w
  executed ctx (ok out, w) = observe ctx out w

  unfoldable pub run_tool : ToolCall → FsmContext → W → Next W
  unfolding executed document_path navigate primary_path
  run_tool call ctx w =
      let primary = primary_path w call in
      executed
        (navigate call primary (record ctx {
          pending_tool = none;
          last_doc_path = document_path call primary ctx.last_doc_path;
        }))
        (execute cs m root w call)

  -- The state is entered without a tool by mistake only, which panics.
  unfoldable pub perform_call : Option ToolCall → FsmContext → W → Next W
  unfolding run_tool
  perform_call none ctx w = return (err panicked) ctx w
  perform_call (some call) ctx w = run_tool call ctx w

  unfoldable pub perform : FsmContext → W → Next W
  unfolding perform_call
  perform ctx w = perform_call ctx.pending_tool ctx w

  unfoldable pub write_summary_beside : Text → Text → W → Option Text × W
  write_summary_beside doc_path summary w =
      let (result, w') = m.write w (summary_path doc_path) summary in
      (elim result [ ok u ↦ some (summary_path doc_path) | err e ↦ none ], w')

  -- A summary of a document is written beside it.
  unfoldable pub keep_summary : Option Text → Text → FsmContext → W → Next W
  unfolding write_summary_beside told
  keep_summary none answer ctx w = return (ok answer) ctx w
  keep_summary (some doc_path) answer ctx w =
      if is_summarization_query cs ctx.query
      then told answer (write_summary_beside doc_path answer w) ctx
      else return (ok answer) ctx w

  unfoldable pub answered : Result Text AgenticError → FsmContext → W → Next W
  unfolding keep_summary
  answered (err e) ctx w = return (err (failed e)) ctx w
  answered (ok answer) ctx w = keep_summary ctx.last_doc_path answer ctx w

  unfoldable pub conclude : Option Text → FsmContext → W → Next W
  unfolding answered
  conclude none ctx w = return (err panicked) ctx w
  conclude (some prompt) ctx w =
      let (raw, w') = world.generate w prompt in answered (validate_final_answer raw) ctx w'

  -- The match on the state.
  unfoldable pub transition : AgentState → FsmContext → W → Next W
  unfolding retrieve select perform conclude
  transition init ctx w = goto retrieve_context ctx w
  transition retrieve_context ctx w = retrieve ctx w
  transition action_selection ctx w = select ctx w
  transition execution ctx w = perform ctx w
  transition validation ctx w = goto action_selection ctx w
  transition finalize ctx w = conclude (build_finalize_prompt ctx.query ctx.tool_output) ctx w

  -- The loop on fuel; `none` means that the fuel ran out.
  unfoldable pub run_from :
      ℕ → AgentState → FsmContext → W → Option (Result Text FsmFault × (FsmContext × W))
  unfolding transition
  run_from zero state ctx w = none
  run_from (suc fuel) state ctx w = elim (transition state ctx w) [
    | goto state' ctx' w' ↦ run_from fuel state' ctx' w'
    | return answer ctx' w' ↦ some (answer, (ctx', w'))
  ]

  unfoldable pub run : ℕ → Text → W → Option (Result Text FsmFault × (FsmContext × W))
  unfolding run_from
  run fuel query w = run_from fuel init (new_context query) w
