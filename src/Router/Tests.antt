-- ===== src/Router/Tests.antt =====
-- Runs of the router, and the theorems about it at concrete tasks.
use oxcer_agent.Prelude.{[], none, true, false}
use oxcer_agent.Text.{Text, codes, trim}
use oxcer_agent.Security.Tests.{ascii}
use oxcer_agent.Router.{TaskContext, RouterConfig, RouterDecision, planning, expensive_model}
use oxcer_agent.Router.Route.{route_task}
use oxcer_agent.Router.Laws.{Fits, route_task-Fits}

abbrev no_context : TaskContext
no_context = record { workspace_id = none; selected_paths = []; risk_hints = false }

abbrev prefer_tools : RouterConfig
prefer_tools = record {
  prefer_tools_only = true;
  planning_length_threshold = 800;
  use_llm_for_borderline = true;
}

abbrev unsure : Text → TaskContext → RouterDecision → RouterDecision
unsure task context decision = record decision { category = planning; strategy = expensive_model }

route_task-Fits_example :
    Fits ascii
      (trim (codes " delete it "))
      no_context
      prefer_tools
      (route_task ascii (codes " delete it ") no_context prefer_tools)
route_task-Fits_example = route_task-Fits ascii (codes " delete it ") no_context prefer_tools
