-- ===== src/Security.antt =====
-- oxcer-core/src/security/policy_engine.rs: requests to the policy engine and its decisions, with
-- the classification of oxcer-core/src/data_sensitivity.rs that a request may carry.
pub mod Config
pub mod Evaluate
pub mod Builtin
pub mod Loader
pub mod Guarantees
pub mod Reasons
pub mod Tests
pub mod Select
use oxcer_agent.Prelude.{ℕ, ◌≡◌, Bool, true, false, List, Option, none, some, leb}
use oxcer_agent.Text.{Text, codes}

pub data PolicyCaller : Type 0 where
  ui agent_orchestrator internal_system : PolicyCaller

pub data ToolType : Type 0 where
  fs shell agent web other : ToolType

pub data Operation : Type 0 where
  read write delete rename move chmod exec : Operation

pub data PolicyTarget : Type 0 where
  fs_path : (canonical_path : Text) → PolicyTarget
  shell_command : (command_id : Text) (normalized_command : Option Text) → PolicyTarget
  resource : (resource_id : Text) (api_name : Option Text) → PolicyTarget

pub data SensitivityLevel : Type 0 where
  low medium high : SensitivityLevel

-- The derived order of the levels.
abbrev pub level_rank : SensitivityLevel → ℕ
level_rank low = 0
level_rank medium = 1
level_rank high = 2

pub record SensitivityFinding : Type 0 where
  pub level : SensitivityLevel
  pub span_start : ℕ
  pub span_end : ℕ
  pub kind : Text
  pub pattern_id : Text

pub record SensitivityResult : Type 0 where
  pub level : SensitivityLevel
  pub masked_content : Text
  pub findings : List SensitivityFinding
  pub original_length : ℕ
  pub redacted_length : ℕ

pub record PolicyRequest : Type 0 where
  pub caller : PolicyCaller
  pub tool_type : ToolType
  pub operation : Operation
  pub target : PolicyTarget
  pub content_sensitivity : Option SensitivityResult

pub data PolicyDecisionKind : Type 0 where
  allow deny require_approval : PolicyDecisionKind

pub data ReasonCode : Type 0 where
  fs_path_in_blocklist shell_command_blacklisted destructive_fs_requires_approval : ReasonCode
  high_risk_tool_requires_approval agent_write_requires_approval : ReasonCode
  agent_exec_requires_approval agent_destructive_requires_approval explicit_allow : ReasonCode
  internal_system data_sensitivity_deny data_sensitivity_require_approval default_deny : ReasonCode

unfoldable pub as_str : ReasonCode → Text
as_str fs_path_in_blocklist = codes "FS_PATH_IN_BLOCKLIST"
as_str shell_command_blacklisted = codes "SHELL_COMMAND_BLACKLISTED"
as_str destructive_fs_requires_approval = codes "DESTRUCTIVE_FS_REQUIRES_APPROVAL"
as_str high_risk_tool_requires_approval = codes "HIGH_RISK_TOOL_REQUIRES_APPROVAL"
as_str agent_write_requires_approval = codes "AGENT_WRITE_REQUIRES_APPROVAL"
as_str agent_exec_requires_approval = codes "AGENT_EXEC_REQUIRES_APPROVAL"
as_str agent_destructive_requires_approval = codes "AGENT_DESTRUCTIVE_REQUIRES_APPROVAL"
as_str explicit_allow = codes "EXPLICIT_ALLOW"
as_str internal_system = codes "INTERNAL_SYSTEM"
as_str data_sensitivity_deny = codes "DATA_SENSITIVITY_DENY"
as_str data_sensitivity_require_approval = codes "DATA_SENSITIVITY_REQUIRE_APPROVAL"
as_str default_deny = codes "DEFAULT_DENY"

-- The code compares callers, tools and operations by their derived equality.
unfoldable pub caller_eq : PolicyCaller → PolicyCaller → Bool
caller_eq ui ui = true
caller_eq agent_orchestrator agent_orchestrator = true
caller_eq internal_system internal_system = true
caller_eq _ _ = false

unfoldable pub tool_type_eq : ToolType → ToolType → Bool
tool_type_eq fs fs = true
tool_type_eq shell shell = true
tool_type_eq agent agent = true
tool_type_eq web web = true
tool_type_eq other other = true
tool_type_eq _ _ = false

unfoldable pub operation_eq : Operation → Operation → Bool
operation_eq read read = true
operation_eq write write = true
operation_eq delete delete = true
operation_eq rename rename = true
operation_eq move move = true
operation_eq chmod chmod = true
operation_eq exec exec = true
operation_eq _ _ = false
