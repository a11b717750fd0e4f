-- ===== src/Plugins/Tests.antt =====
-- The hints of a concrete task.
use mathlib.Core.List.{Memᴰ}
use oxcer_agent.Plugins.Registry.{new, register_all, for_category}
use oxcer_agent.Plugins.Indexed.{add_all_new}
use oxcer_agent.Plugins.Agrees.{Refines, register_all-Refines}
use oxcer_agent.Prelude.{map, List, [], ◌∷◌, none, some, false, ◌≡◌, refl}
use oxcer_agent.Text.{codes, trim}
use oxcer_agent.Security.Tests.{ascii}
use oxcer_agent.Plugins.{ToolCapability, matching_ids_for_task}
use oxcer_agent.Plugins.Filed.{NamedBy}
use oxcer_agent.Plugins.Laws.{matching_ids_for_task-NamedBy}

abbrev git_status : ToolCapability
git_status = record {
  id = codes "shell.git_status";
  description = codes "Git status";
  category_hint = some (codes "Git");
  tags = none;
  dangerous = false;
}

abbrev deploy : ToolCapability
deploy = record {
  id = codes "agent.deploy";
  description = codes "Deploy";
  category_hint = none;
  tags = some (codes "deploy" ∷ codes "git" ∷ []);
  dangerous = false;
}

abbrev both : List ToolCapability
both = git_status ∷ deploy ∷ git_status ∷ []

hints_are_sorted :
    matching_ids_for_task ascii both (codes "show me the git status")
    ≡ codes "agent.deploy" ∷ codes "shell.git_status" ∷ []
unfolding matching_ids_for_task
hints_are_sorted = refl

matching_ids_for_task-NamedBy_example :
    NamedBy ascii
      (ascii.to_lowercase (trim (codes "show me the git status")))
      both
      (codes "agent.deploy")
unfolding matching_ids_for_task
matching_ids_for_task-NamedBy_example =
    (matching_ids_for_task-NamedBy ascii both (codes "show me the git status")
        (codes "agent.deploy")).0
      (Memᴰ.head refl)

ids_under_git :
    map (λ t. t.id) (for_category ascii (register_all ascii both new) (codes "GIT"))
    ≡ codes "shell.git_status" ∷ []
unfolding for_category register_all
ids_under_git = refl

register_all-Refines_example : Refines ascii (register_all ascii both new) (add_all_new both [])
register_all-Refines_example = register_all-Refines ascii both
