-- ===== src/Fsm.antt =====
-- oxcer-core/src/fsm.rs: the agent that is driven by a state machine. The model is asked for one tool at
-- a time, and for the answer.
pub mod Prompts
pub mod Run
pub mod Recent
pub mod Budget
pub mod Confined
mod Tests
use oxcer_agent.Prelude.{ℕ, List, Option, Result}
use oxcer_agent.Text.{Text}
use oxcer_agent.Executor.{ToolCall}
use oxcer_agent.Guardrail.{AgenticError}

pub data AgentState : Type 0 where
  init retrieve_context action_selection execution validation finalize : AgentState

-- `context_dir`, `last_doc_path` and `recent_files` are paths.
pub record FsmContext : Type 0 where
  pub query : Text
  pub memory_context : Text
  pub pending_tool : Option ToolCall
  pub tool_output : Option Text
  pub step : ℕ
  pub last_doc_path : Option Text
  pub context_dir : Option Text
  pub recent_files : List Text

pub record EpisodicFact : Type 0 where
  pub id : ℕ
  pub query : Text
  pub observation : Text
  pub timestamp : Text

-- What the agent uses of the model, of the database of db.rs and of the user's directories. `W` is the
-- state of the world.
pub record World (W : Type 0) : Type 0 where
  pub generate : W → Text → Text × W
  pub get_recent_context : W → ℕ → Result (List EpisodicFact) Text
  pub insert_fact : W → Text → Text → W
  pub desktop_dir : Option Text
  pub download_dir : Option Text
  pub document_dir : Option Text
  pub home_dir : Option Text

-- The run fails with an error, or panics.
pub data FsmFault : Type 0 where
  panicked : FsmFault
  failed : AgenticError → FsmFault

-- What a transition leads to.
pub data Next (W : Type 0) : Type 0 where
  goto : AgentState → FsmContext → W → Next W
  return : Result Text FsmFault → FsmContext → W → Next W
