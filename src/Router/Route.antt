-- ===== src/Router/Route.antt =====
-- oxcer-core/src/semantic_router.rs: the routing of a task, with capabilities and with a classifier.
use oxcer_agent.Prelude.{
  Bool, true, not, ◌&&◌, ◌||◌, List, none, some, length, is_empty, ltb, leb, if◌then◌else◌,
}
use oxcer_agent.Text.{Text, Casing, len, trim}
use oxcer_agent.Plugins.{ToolCapability, matching_ids_for_task}
use oxcer_agent.Router.{
  TaskCategory, simple_qa, code, planning, tools_heavy, Strategy, cheap_model, expensive_model,
  tools_only, RouterDecision, TaskContext, RouterConfig, RouterInput,
}
use oxcer_agent.Router.Words.{
  has_tool_verbs, has_implicit_fs_intent, has_implicit_file_read_intent, has_code_markers,
  has_planning_keywords, looks_like_simple_qa,
}

-- A decision with the flags that all of them share.
abbrev pub decided : (risk_hints : Bool) → TaskCategory → Strategy → RouterDecision
decided risk_hints category strategy = record {
  category = category;
  strategy = strategy;
  flags = record { requires_high_risk_approval = risk_hints; allow_model_tools_mix = true };
  tool_hints = none;
}

-- The categories and strategies in turn; `task` is trimmed.
unfoldable pub choose : Casing → Text → TaskContext → RouterConfig → TaskCategory × Strategy
choose cs task context config =
    if has_tool_verbs cs task
    then (
      tools_heavy,
      if config.prefer_tools_only && ltb (len task) 300 then tools_only else cheap_model,
    )
    else if has_implicit_fs_intent cs task
    then (tools_heavy, cheap_model)
    else if has_implicit_file_read_intent cs task
    then (tools_heavy, cheap_model)
    else if leb 3 (length context.selected_paths) && ltb (len task) 150
    then (tools_heavy, if config.prefer_tools_only then tools_only else cheap_model)
    else if leb config.planning_length_threshold (len task) || has_planning_keywords cs task
    then (planning, expensive_model)
    else if (has_code_markers cs task || not (is_empty context.selected_paths)) && leb 25 (len task)
    then (
      code,
      if leb config.planning_length_threshold (len task) then expensive_model else cheap_model,
    )
    else if looks_like_simple_qa cs task context
    then (simple_qa, cheap_model)
    else (planning, expensive_model)

abbrev pub with_flags : Bool → TaskCategory × Strategy → RouterDecision
with_flags risk_hints (category, strategy) = decided risk_hints category strategy

unfoldable pub route_task : Casing → Text → TaskContext → RouterConfig → RouterDecision
route_task cs task_description context config =
    let task = trim task_description in
    with_flags (context.risk_hints || has_tool_verbs cs task) (choose cs task context config)

unfoldable pub route_task_with_capabilities :
    Casing → Text → TaskContext → RouterConfig → List ToolCapability → RouterDecision
route_task_with_capabilities cs task_description context config capabilities =
    let decision = route_task cs task_description context config in
    let hints = matching_ids_for_task cs capabilities task_description in
    if not (is_empty hints) then record decision { tool_hints = some hints } else decision

unfoldable pub is_borderline : Casing → Text → TaskContext → RouterConfig → Bool
is_borderline cs task context config =
    not (has_tool_verbs cs task)
    && not (has_code_markers cs task)
    && ltb (length context.selected_paths) 3
    && not (has_planning_keywords cs task)
    && ltb (len task) config.planning_length_threshold
    && not (looks_like_simple_qa cs task context)

unfoldable pub route_task_with_classifier :
    Casing
    → Text
    → TaskContext
    → RouterConfig
    → (Text → TaskContext → RouterDecision → RouterDecision)
    → RouterDecision
route_task_with_classifier cs task_description context config classifier =
    let heuristic = route_task cs task_description context config in
    if config.use_llm_for_borderline && is_borderline cs (trim task_description) context config
    then classifier task_description context heuristic
    else heuristic

unfoldable pub route_with_capabilities : Casing → RouterInput → RouterDecision
route_with_capabilities cs input = elim input.capabilities [
  | none ↦ route_task cs input.task_description input.context input.config
  | some caps ↦
      route_task_with_capabilities cs input.task_description input.context input.config caps
]

unfoldable pub route : Casing → RouterInput → RouterDecision
route cs input = route_with_capabilities cs input
