-- ===== src/Router.antt =====
-- oxcer-core/src/semantic_router.rs: the router's inputs and decisions.
pub mod Words
pub mod Route
pub mod Laws
mod Tests
use oxcer_agent.Prelude.{ℕ, Bool, List, Option}
use oxcer_agent.Text.{Text}
use oxcer_agent.Plugins.{ToolCapability}

pub data TaskCategory : Type 0 where
  simple_qa code planning tools_heavy : TaskCategory

pub data Strategy : Type 0 where
  cheap_model expensive_model tools_only : Strategy

pub record RouterFlags : Type 0 where
  pub requires_high_risk_approval : Bool
  pub allow_model_tools_mix : Bool

pub record RouterDecision : Type 0 where
  pub category : TaskCategory
  pub strategy : Strategy
  pub flags : RouterFlags
  pub tool_hints : Option (List Text)

pub record TaskContext : Type 0 where
  pub workspace_id : Option Text
  pub selected_paths : List Text
  pub risk_hints : Bool

pub record RouterConfig : Type 0 where
  pub prefer_tools_only : Bool
  pub planning_length_threshold : ℕ
  pub use_llm_for_borderline : Bool

pub record RouterInput : Type 0 where
  pub task_description : Text
  pub context : TaskContext
  pub config : RouterConfig
  pub capabilities : Option (List ToolCapability)
