-- ===== src/Router/Laws.antt =====
-- oxcer-core/src/semantic_router.rs: what the routing guarantees.
use oxcer_agent.Prelude.{
  Bool, true, false, not, ◌&&◌, ◌||◌, none, ◌≡◌, refl, ◌⊎◌, inl, inr, length, is_empty, ltb, leb,
  &&_false, ||_true, if◌then◌else◌,
}
use oxcer_agent.Text.{Text, Casing, len, trim}
use oxcer_agent.Router.{
  TaskCategory, simple_qa, code, planning, tools_heavy, Strategy, cheap_model, expensive_model,
  tools_only, TaskContext, RouterConfig, RouterDecision,
}
use oxcer_agent.Router.Words.{
  has_tool_verbs, has_implicit_fs_intent, has_implicit_file_read_intent, has_code_markers,
  has_planning_keywords, looks_like_simple_qa,
}
use oxcer_agent.Router.Route.{
  choose, route_task, is_borderline, route_task_with_classifier, with_flags,
}

-- The tests of the router, in its order, as the choice that they make.
abbrev chosen :
    (verbs short fs reads many prefer long words related enough qa : Bool) → TaskCategory × Strategy
chosen verbs short fs reads many prefer long words related enough qa =
    if verbs
    then (tools_heavy, if prefer && short then tools_only else cheap_model)
    else if fs
    then (tools_heavy, cheap_model)
    else if reads
    then (tools_heavy, cheap_model)
    else if many
    then (tools_heavy, if prefer then tools_only else cheap_model)
    else if long || words
    then (planning, expensive_model)
    else if related && enough
    then (code, if long then expensive_model else cheap_model)
    else if qa
    then (simple_qa, cheap_model)
    else (planning, expensive_model)

-- The pairs of a category and a strategy that the router may give, each with what the task must be for
-- it. `heavy` tasks name a tool, mean the file system or a file, or come with many files; the tools alone
-- get those that ask for no model, where the configuration prefers that, and the cheap model gets the
-- others. The conditions of two pairs exclude each other, so the task decides.
abbrev pub Justified :
    (verbs short fs reads many prefer long words related enough qa : Bool)
    → TaskCategory × Strategy
    → Type 0
Justified verbs short fs reads many prefer long words related enough qa (tools_heavy, tools_only) =
    (prefer ≡ true)
    × (((verbs ≡ true) × (short ≡ true)) ⊎ ((verbs || (fs || reads) ≡ false) × (many ≡ true)))
Justified verbs short fs reads many prefer long words related enough qa (tools_heavy, cheap_model) =
    ((verbs ≡ true) × (prefer && short ≡ false))
    ⊎ ((verbs ≡ false) × (fs || reads ≡ true))
    ⊎ ((verbs || (fs || reads) ≡ false) × (many ≡ true) × (prefer ≡ false))
Justified verbs short fs reads many prefer long words related enough qa
      (planning, expensive_model) =
    (verbs || (fs || (reads || many)) ≡ false)
    × ((long || words ≡ true) ⊎ ((related && enough ≡ false) × (qa ≡ false)))
Justified verbs short fs reads many prefer long words related enough qa (code, cheap_model) =
    (verbs || (fs || (reads || many)) ≡ false)
    × (long || words ≡ false)
    × (related && enough ≡ true)
Justified verbs short fs reads many prefer long words related enough qa (simple_qa, cheap_model) =
    (verbs || (fs || (reads || many)) ≡ false)
    × (long || words ≡ false)
    × (related && enough ≡ false)
    × (qa ≡ true)
Justified verbs short fs reads many prefer long words related enough qa _ = ⊥

chosen-Justified :
    (verbs short fs reads many prefer long words related enough qa : Bool)
    → Justified verbs short fs reads many prefer long words related enough qa
        (chosen verbs short fs reads many prefer long words related enough qa)
chosen-Justified true true fs reads many true long words related enough qa =
    (refl, inl (refl, refl))
chosen-Justified true true fs reads many false long words related enough qa = inl (refl, refl)
chosen-Justified true false fs reads many true long words related enough qa = inl (refl, refl)
chosen-Justified true false fs reads many false long words related enough qa = inl (refl, refl)
chosen-Justified false short true reads many prefer long words related enough qa =
    inr (inl (refl, refl))
chosen-Justified false short false true many prefer long words related enough qa =
    inr (inl (refl, refl))
chosen-Justified false short false false true true long words related enough qa =
    (refl, inr (refl, refl))
chosen-Justified false short false false true false long words related enough qa =
    inr (inr (refl, refl, refl))
chosen-Justified false short false false false prefer true words related enough qa =
    (refl, inl refl)
chosen-Justified false short false false false prefer false true related enough qa =
    (refl, inl refl)
chosen-Justified false short false false false prefer false false true true qa = (refl, refl, refl)
chosen-Justified false short false false false prefer false false true false true =
    (refl, refl, refl, refl)
chosen-Justified false short false false false prefer false false true false false =
    (refl, inr (refl, refl))
chosen-Justified false short false false false prefer false false false enough true =
    (refl, refl, refl, refl)
chosen-Justified false short false false false prefer false false false enough false =
    (refl, inr (refl, refl))

-- What the router tests of a task, and what a choice must be to fit it.
abbrev pub FitsChoice :
    Casing → Text → TaskContext → RouterConfig → TaskCategory × Strategy → Type 0
FitsChoice cs task context config choice =
    Justified (has_tool_verbs cs task) (ltb (len task) 300) (has_implicit_fs_intent cs task)
      (has_implicit_file_read_intent cs task)
      (leb 3 (length context.selected_paths) && ltb (len task) 150) config.prefer_tools_only
      (leb config.planning_length_threshold (len task)) (has_planning_keywords cs task)
      (has_code_markers cs task || not (is_empty context.selected_paths)) (leb 25 (len task))
      (looks_like_simple_qa cs task context) choice

-- What a routed task says of its decision.
abbrev pub Fits : Casing → Text → TaskContext → RouterConfig → RouterDecision → Type 0
Fits cs task context config decision =
    FitsChoice cs task context config (decision.category, decision.strategy)
    × (decision.flags.requires_high_risk_approval ≡ (context.risk_hints || has_tool_verbs cs task))
    × (decision.flags.allow_model_tools_mix ≡ true)
    × (decision.tool_hints ≡ none)

with_flags-Fits :
    (cs : Casing) (task : Text) (context : TaskContext) (config : RouterConfig)
    (choice : TaskCategory × Strategy)
    → FitsChoice cs task context config choice
    → Fits cs task context config (with_flags (context.risk_hints || has_tool_verbs cs task) choice)
with_flags-Fits cs task context config (category, strategy) justified =
    (justified, refl, refl, refl)

-- Every decision of the router fits its task, trimmed. The tools alone get a task under 300 bytes with
-- a tool verb, and one under 150 bytes with three paths that means no file, where the configuration
-- prefers that; the cheap model gets the other tasks of the tools' category, which have a tool verb,
-- mean the file system or a file, or come with three paths and are short. Of the rest the expensive
-- model plans for those that are long or have a planning keyword, the cheap model gets code from 25
-- bytes on and then the simple questions, and what is left is planned for by the expensive model.
-- A task with a tool verb, or with risk hints, has the approval flag, and no other has it.
pub route_task-Fits :
    (cs : Casing) (task : Text) (context : TaskContext) (config : RouterConfig)
    → Fits cs (trim task) context config (route_task cs task context config)
unfolding route_task choose
route_task-Fits cs task context config =
    let t = trim task in
    with_flags-Fits cs t context config _ (
      chosen-Justified (has_tool_verbs cs t) (ltb (len t) 300) (has_implicit_fs_intent cs t)
        (has_implicit_file_read_intent cs t)
        (leb 3 (length context.selected_paths) && ltb (len t) 150) config.prefer_tools_only
        (leb config.planning_length_threshold (len t)) (has_planning_keywords cs t)
        (has_code_markers cs t || not (is_empty context.selected_paths)) (leb 25 (len t))
        (looks_like_simple_qa cs t context))

-- The classifier is never asked about a task that names a tool: the heuristics decide.
pub route_task_with_classifier-tool_verbs :
    (cs : Casing) (task : Text) (context : TaskContext) (config : RouterConfig)
    (classifier : Text → TaskContext → RouterDecision → RouterDecision)
    → has_tool_verbs cs (trim task) ≡ true
    → (route_task_with_classifier cs task context config classifier
        ≡ route_task cs task context config)
      × ((route_task cs task context config).category ≡ tools_heavy)
      × ((route_task cs task context config).flags.requires_high_risk_approval ≡ true)
unfolding route_task_with_classifier is_borderline route_task choose
route_task_with_classifier-tool_verbs cs task context config classifier verbs =
    rw verbs (simp (&&_false), refl, ||_true context.risk_hints)
