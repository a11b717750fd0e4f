-- ===== src/Security/Config.antt =====
-- oxcer-core/src/security/policy_config.rs: the policy schema and the match of one rule.
use oxcer_agent.Prelude.{
  ℕ, Bool, true, false, ◌&&◌, ◌||◌, List, Option, none, some, if◌then◌else◌, any,
}
use oxcer_agent.Text.{Text, Casing, codes, text_eq, contains, strip_prefix, trim}
use oxcer_agent.Paths.{path_join, path_starts_with}
use oxcer_agent.Security.{
  PolicyCaller, ToolType, Operation, PolicyTarget, fs_path, shell_command, SensitivityLevel,
  caller_eq, tool_type_eq, operation_eq,
}

pub data PolicyAction : Type 0 where
  allow deny require_approval : PolicyAction

pub record PolicyMatch : Type 0 where
  pub caller : Option (List Text)
  pub tool_type : Option (List Text)
  pub operation : Option (List Text)
  pub path_patterns : Option (List Text)
  pub command_patterns : Option (List Text)

pub data SensitivityLevelConfig : Type 0 where
  low medium high : SensitivityLevelConfig

unfoldable pub to_level : SensitivityLevelConfig → SensitivityLevel
to_level low = SensitivityLevel.low
to_level medium = SensitivityLevel.medium
to_level high = SensitivityLevel.high

pub record DataSensitivityRule : Type 0 where
  pub max_level : SensitivityLevelConfig
  pub require_approval_if : Option SensitivityLevelConfig

pub record PolicyRule : Type 0 where
  pub match_ : PolicyMatch
  pub action : PolicyAction
  pub reason_code : Option Text
  pub notes : Option Text
  pub risk_level : Option Text
  pub data_sensitivity : Option DataSensitivityRule

pub record PolicyConfig : Type 0 where
  pub version : ℕ
  pub default_action : PolicyAction
  pub rules : List PolicyRule

-- `opt.map(f).unwrap_or(false)`.
abbrev pub is_some_and {ℓ} : {A : Type ℓ} → Option A → (A → Bool) → Bool
is_some_and none f = false
is_some_and (some a) f = f a

-- A trimmed pattern, what follows its "~/" if it has one, and the home directory.
under_home : Text → Option Text → Option Text → Text
unfolding path_join text_eq
under_home s (some stripped) (some home) = path_join home stripped
under_home s none (some home) = if text_eq s (codes "~") then home else s
under_home s _ none = s

-- `expand_home_pattern`; `home` is what `dirs_next::home_dir` answers.
unfoldable pub expand_home_pattern : Text → Option Text → Text
unfolding trim strip_prefix under_home
expand_home_pattern pattern home =
    let s = trim pattern in under_home s (strip_prefix (codes "~/") s) home

module _ (cs : Casing) where
  unfoldable pub str_to_caller : Text → Option PolicyCaller
  unfolding text_eq
  str_to_caller s =
      let u = cs.to_uppercase s in
      if text_eq u (codes "UI")
      then some PolicyCaller.ui
      else if text_eq u (codes "AGENT_ORCHESTRATOR") || text_eq u (codes "AGENT")
      then some PolicyCaller.agent_orchestrator
      else if text_eq u (codes "INTERNAL_SYSTEM") || text_eq u (codes "INTERNAL")
      then some PolicyCaller.internal_system
      else none

  unfoldable pub str_to_tool_type : Text → Option ToolType
  unfolding text_eq
  str_to_tool_type s =
      let u = cs.to_uppercase s in
      if text_eq u (codes "FS")
      then some ToolType.fs
      else if text_eq u (codes "SHELL")
      then some ToolType.shell
      else if text_eq u (codes "AGENT")
      then some ToolType.agent
      else if text_eq u (codes "WEB")
      then some ToolType.web
      else if text_eq u (codes "OTHER")
      then some ToolType.other
      else none

  unfoldable pub str_to_operation : Text → Option Operation
  unfolding text_eq
  str_to_operation s =
      let l = cs.to_lowercase s in
      if text_eq l (codes "read")
      then some Operation.read
      else if text_eq l (codes "write")
      then some Operation.write
      else if text_eq l (codes "delete")
      then some Operation.delete
      else if text_eq l (codes "rename")
      then some Operation.rename
      else if text_eq l (codes "move")
      then some Operation.move
      else if text_eq l (codes "chmod")
      then some Operation.chmod
      else if text_eq l (codes "exec")
      then some Operation.exec
      else none

  -- The five criteria of `rule_matches`; one that is absent lets every request through.
  unfoldable pub caller_matches : Option (List Text) → PolicyCaller → Bool
  unfolding str_to_caller text_eq caller_eq
  caller_matches none caller = true
  caller_matches (some callers) caller =
      any (λ c. text_eq c (codes "*") || is_some_and (str_to_caller c) (λ pc. caller_eq pc caller))
        callers

  unfoldable pub tool_type_matches : Option (List Text) → ToolType → Bool
  unfolding str_to_tool_type text_eq tool_type_eq
  tool_type_matches none tool_type = true
  tool_type_matches (some tt) tool_type =
      any
        (λ t.
          text_eq t (codes "*")
          || is_some_and (str_to_tool_type t) (λ pt. tool_type_eq pt tool_type))
        tt

  unfoldable pub operation_matches : Option (List Text) → Operation → Bool
  unfolding str_to_operation operation_eq
  operation_matches none operation = true
  operation_matches (some ops) operation =
      any (λ o. is_some_and (str_to_operation o) (λ po. operation_eq po operation)) ops

  -- One command pattern: equal to the id, inside it, or inside the normalized command.
  unfoldable pub command_pattern_matches : Text → Option Text → Text → Bool
  unfolding text_eq contains
  command_pattern_matches cmd_id normalized p =
      let pl = cs.to_lowercase p in
      let lower_id = cs.to_lowercase cmd_id in
      text_eq lower_id pl
      || contains lower_id pl
      || is_some_and normalized (λ n. contains (cs.to_lowercase n) pl)

  unfoldable pub command_matches : Option (List Text) → PolicyTarget → Bool
  unfolding command_pattern_matches
  command_matches none target = true
  command_matches (some patterns) (shell_command cmd_id normalized) =
      any (command_pattern_matches cmd_id normalized) patterns
  command_matches (some patterns) _ = false

unfoldable pub path_matches : Option (List Text) → PolicyTarget → Option Text → Bool
unfolding expand_home_pattern path_starts_with
path_matches none target home = true
path_matches (some patterns) (fs_path canonical_path) home =
    any (λ p. path_starts_with canonical_path (expand_home_pattern p home)) patterns
path_matches (some patterns) _ home = false

unfoldable pub rule_matches :
    Casing → PolicyRule → PolicyCaller → ToolType → Operation → PolicyTarget → Option Text → Bool
rule_matches cs rule caller tool_type operation target home =
    let m = rule.match_ in
    caller_matches cs m.caller caller
    && tool_type_matches cs m.tool_type tool_type
    && operation_matches cs m.operation operation
    && path_matches m.path_patterns target home
    && command_matches cs m.command_patterns target
