-- ===== src/Orchestrator/Planning.antt =====
-- oxcer-core/src/orchestrator/planning.rs: the plan that `start_session` chooses for a task. The
-- sanitizer of prompts and the user's home directory are arguments.
pub mod Places
pub mod Build
pub mod Laws
mod Tests
use oxcer_agent.Prelude.{Bool, List, Option, none, some, if◌then◌else◌}
use oxcer_agent.Text.{Text, Casing}
use oxcer_agent.Router.{Strategy, tools_only, cheap_model, expensive_model, RouterInput}
use oxcer_agent.Router.Words.{has_implicit_fs_intent, has_implicit_file_read_intent}
use oxcer_agent.Orchestrator.{ToolCallIntent}
use oxcer_agent.Orchestrator.Agent.{Planner}
use oxcer_agent.Orchestrator.ToolsOnly.{build_plan_tools_only}
use oxcer_agent.Orchestrator.Planning.Places.{
  Place, extract_fs_path, extract_explicit_file_path, extract_file_in_known_dir,
  has_most_recent_file_intent,
}
use oxcer_agent.Orchestrator.Planning.Build.{
  build_plan_with_llm, build_plan_fs_then_llm, build_plan_file_read_then_llm,
  build_plan_list_read_summarize, ask_for_folder, ask_for_file,
}

module _ {V : Type 0} (sanitize : Text → Text) (task : Text) where
  -- The arms of the match: with the place that the task names, and without one.
  unfoldable pub recent_file_plan : Option Place → List (ToolCallIntent V)
  unfolding build_plan_list_read_summarize build_plan_with_llm
  recent_file_plan (some (id, (root, path))) =
      build_plan_list_read_summarize sanitize task id root cheap_model
  recent_file_plan none = build_plan_with_llm sanitize task cheap_model

  unfoldable pub folder_plan : Option Place → List (ToolCallIntent V)
  unfolding build_plan_fs_then_llm ask_for_folder
  folder_plan (some (id, (root, path))) =
      build_plan_fs_then_llm sanitize task id root path cheap_model
  folder_plan none = ask_for_folder task

  -- The place of the file, and the place of the folder where there is no file.
  unfoldable pub file_plan : Option Place → Option Place → List (ToolCallIntent V)
  unfolding build_plan_file_read_then_llm build_plan_fs_then_llm ask_for_file
  file_plan (some (id, (root, path))) folder =
      build_plan_file_read_then_llm sanitize task id root path cheap_model
  file_plan none (some (id, (root, path))) =
      build_plan_fs_then_llm sanitize task id root path cheap_model
  file_plan none none = ask_for_file sanitize task

module _ {V : Type 0} (cs : Casing) (sanitize : Text → Text) (home : Option Text) (task : Text)
    (default_id default_root : Option Text) where
  -- The arms behind the one for a named file in a known directory.
  unfoldable pub unnamed_plan : List (ToolCallIntent V)
  unfolding folder_plan file_plan build_plan_with_llm
  unnamed_plan =
      if has_implicit_fs_intent cs task
      then folder_plan sanitize task (extract_fs_path cs home task default_id default_root)
      else if has_implicit_file_read_intent cs task
      then file_plan sanitize task (extract_explicit_file_path cs task default_id default_root)
          (extract_fs_path cs home task default_id default_root)
      else build_plan_with_llm sanitize task cheap_model

  unfoldable pub named_file_plan : Option Place → List (ToolCallIntent V)
  unfolding unnamed_plan build_plan_file_read_then_llm
  named_file_plan (some (id, (root, path))) =
      build_plan_file_read_then_llm sanitize task id root path cheap_model
  named_file_plan none = unnamed_plan

  unfoldable pub cheap_plan : List (ToolCallIntent V)
  unfolding recent_file_plan named_file_plan
  cheap_plan =
      if has_most_recent_file_intent cs task
      then recent_file_plan sanitize task (extract_fs_path cs home task default_id default_root)
      else named_file_plan (extract_file_in_known_dir cs home task default_id default_root)

-- The match on the strategy.
unfoldable pub plan_for :
    {V : Type 0}
    → Casing
    → (Text → Text)
    → Option Text
    → Strategy
    → RouterInput
    → Option Text
    → Option Text
    → List (ToolCallIntent V)
unfolding cheap_plan build_plan_with_llm build_plan_tools_only
plan_for cs sanitize home tools_only input default_id default_root =
    build_plan_tools_only cs input.task_description input.context default_id default_root
plan_for cs sanitize home cheap_model input default_id default_root =
    cheap_plan cs sanitize home input.task_description default_id default_root
plan_for cs sanitize home expensive_model input default_id default_root =
    build_plan_with_llm sanitize input.task_description expensive_model

-- The planner of the agent.
abbrev pub planner : {V : Type 0} → Casing → (Text → Text) → Option Text → Planner V
planner cs sanitize home = record {
  plan_for = λ decision input default_id default_root.
      plan_for cs sanitize home decision.strategy input default_id default_root;
}
