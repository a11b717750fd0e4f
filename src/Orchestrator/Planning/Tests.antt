-- ===== src/Orchestrator/Planning/Tests.antt =====
-- Plans for tasks, and the theorems about them there.
use oxcer_agent.Prelude.{false, [], Option, none, some, ◌≡◌, ◌≢◌, refl}
use oxcer_agent.Text.{Text, codes, contains, split_whitespace, trim_matches, is_whitespace}
use oxcer_agent.Security.Tests.{ascii}
use oxcer_agent.Paths.{path_join}
use oxcer_agent.Router.{tools_only, cheap_model, RouterInput}
use oxcer_agent.Router.Words.{has_implicit_fs_intent}
use oxcer_agent.Orchestrator.Planning.{plan_for, cheap_plan}
use oxcer_agent.Orchestrator.Planning.Places.{
  has_most_recent_file_intent, extract_fs_path, extract_explicit_file_path,
  extract_file_in_known_dir,
}
use oxcer_agent.Orchestrator.Planning.Build.{ask_for_folder}
use oxcer_agent.Orchestrator.Planning.Laws.{IsGrounded, plan_for-IsGrounded}

abbrev home : Option Text
home = some (codes "/home/a")

-- A sanitizer that hides all.
abbrev hide : Text → Text
hide s = codes "[hidden]"

abbrev input_of : Text → RouterInput
input_of task = record {
  task_description = task;
  context = record { workspace_id = none; selected_paths = []; risk_hints = false };
  config = record {
    prefer_tools_only = false;
    planning_length_threshold = 800;
    use_llm_for_borderline = false;
  };
  capabilities = none;
}

folder_named :
    extract_fs_path ascii home (codes "What is on my Desktop?") none none
    ≡ some ([], (codes "/home/a/Desktop", codes "."))
unfolding extract_fs_path contains path_join
folder_named = refl

file_named :
    extract_file_in_known_dir ascii home (codes "Summarize \"a.md\" in Downloads") none none
    ≡ some ([], (codes "/home/a/Downloads", codes "a.md"))
unfolding extract_file_in_known_dir split_whitespace is_whitespace trim_matches contains path_join
file_named = refl

path_named :
    extract_explicit_file_path ascii (codes "explain (/etc/ssh/sshd.conf), please") none none
    ≡ some ([], (codes "/", codes "etc/ssh/sshd.conf"))
unfolding extract_explicit_file_path split_whitespace is_whitespace trim_matches contains
path_named = refl

-- Where no folder is found, the model is shown the task as it is.
unsanitized :
    cheap_plan {V = Text} ascii hide none (codes "describe my folder") none none
    ≡ ask_for_folder (codes "describe my folder")
unfolding cheap_plan contains has_most_recent_file_intent extract_file_in_known_dir
    has_implicit_fs_intent
unsanitized = refl

cheap_model-ne-tools_only : cheap_model ≢ tools_only
cheap_model-ne-tools_only = λ e. cc

plan_for-IsGrounded_example :
    IsGrounded {V = Text} (codes "Summarize a.md in Downloads") (codes "[hidden]") (
      plan_for ascii hide home cheap_model
        (input_of (codes "Summarize a.md in Downloads"))
        none
        none)
plan_for-IsGrounded_example =
    plan_for-IsGrounded Text ascii hide home cheap_model
      (input_of (codes "Summarize a.md in Downloads")) none none cheap_model-ne-tools_only
