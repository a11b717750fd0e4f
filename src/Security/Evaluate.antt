-- ===== src/Security/Evaluate.antt =====
-- oxcer-core/src/security/policy_config.rs, `evaluate_with_config`: the first rule that matches
-- decides, after its data-sensitivity bounds, and the default action where none does.
use oxcer_agent.Prelude.{List, [], ◌∷◌, Option, none, some, ltb, leb, if◌then◌else◌}
use oxcer_agent.Text.{Text, Casing, codes, text_eq}
use oxcer_agent.Security.{
  PolicyCaller, ToolType, Operation, PolicyTarget, SensitivityLevel, level_rank, SensitivityResult,
  PolicyRequest, PolicyDecisionKind, ReasonCode,
}
use oxcer_agent.Security.Config.{
  PolicyAction, allow, deny, require_approval, DataSensitivityRule, to_level, PolicyRule,
  PolicyConfig, is_some_and, rule_matches,
}

-- What the JSON object that goes with a decision is built from.
pub data Metadata : Type 0 where
  level_above_max_level : (level max_level : SensitivityLevel) → Metadata
  require_approval_if : (level : SensitivityLevel) → Metadata
  by_rule : PolicyAction → PolicyTarget → (risk_level notes : Option Text) → Metadata
  by_default : PolicyCaller → ToolType → Operation → Metadata

pub record PolicyDecision : Type 0 where
  pub decision : PolicyDecisionKind
  pub reason_code : ReasonCode
  pub metadata : Option Metadata

unfoldable pub decision_of : PolicyAction → PolicyDecisionKind
decision_of allow = PolicyDecisionKind.allow
decision_of deny = PolicyDecisionKind.deny
decision_of require_approval = PolicyDecisionKind.require_approval

unfoldable pub reason_code_from_str : Casing → Text → ReasonCode
unfolding text_eq
reason_code_from_str cs s =
    let u = cs.to_uppercase s in
    if text_eq u (codes "FS_PATH_IN_BLOCKLIST")
    then ReasonCode.fs_path_in_blocklist
    else if text_eq u (codes "SHELL_COMMAND_BLACKLISTED")
    then ReasonCode.shell_command_blacklisted
    else if text_eq u (codes "DESTRUCTIVE_FS_REQUIRES_APPROVAL")
    then ReasonCode.destructive_fs_requires_approval
    else if text_eq u (codes "HIGH_RISK_TOOL_REQUIRES_APPROVAL")
    then ReasonCode.high_risk_tool_requires_approval
    else if text_eq u (codes "AGENT_WRITE_REQUIRES_APPROVAL")
    then ReasonCode.agent_write_requires_approval
    else if text_eq u (codes "AGENT_EXEC_REQUIRES_APPROVAL")
    then ReasonCode.agent_exec_requires_approval
    else if text_eq u (codes "AGENT_DESTRUCTIVE_REQUIRES_APPROVAL")
    then ReasonCode.agent_destructive_requires_approval
    else if text_eq u (codes "EXPLICIT_ALLOW")
    then ReasonCode.explicit_allow
    else if text_eq u (codes "INTERNAL_SYSTEM")
    then ReasonCode.internal_system
    else if text_eq u (codes "DATA_SENSITIVITY_DENY")
    then ReasonCode.data_sensitivity_deny
    else if text_eq u (codes "DATA_SENSITIVITY_REQUIRE_APPROVAL")
    then ReasonCode.data_sensitivity_require_approval
    else ReasonCode.default_deny

-- `unwrap_or`.
abbrev pub unwrap_or {ℓ} : {A : Type ℓ} → Option A → A → A
unwrap_or none d = d
unwrap_or (some a) d = a

-- The decision of a matching rule where its data-sensitivity bounds do not apply.
unfoldable pub action_decision : Casing → PolicyRequest → PolicyRule → PolicyDecision
unfolding decision_of
action_decision cs request rule = record {
  decision = decision_of rule.action;
  reason_code = reason_code_from_str cs (unwrap_or rule.reason_code (codes "CONFIG_RULE"));
  metadata = some (Metadata.by_rule rule.action request.target rule.risk_level rule.notes);
}

-- The two early returns for sensitive content, `plain` being what follows them.
unfoldable pub sensitivity_decision :
    Option DataSensitivityRule → Option SensitivityResult → PolicyDecision → PolicyDecision
unfolding to_level
sensitivity_decision (some ds) (some sr) plain =
    let max_level = to_level ds.max_level in
    if ltb (level_rank max_level) (level_rank sr.level)
    then record {
      decision = PolicyDecisionKind.deny;
      reason_code = ReasonCode.data_sensitivity_deny;
      metadata = some (Metadata.level_above_max_level sr.level max_level);
    }
    else if is_some_and ds.require_approval_if
        (λ c. leb (level_rank (to_level c)) (level_rank sr.level))
    then record {
      decision = PolicyDecisionKind.require_approval;
      reason_code = ReasonCode.data_sensitivity_require_approval;
      metadata = some (Metadata.require_approval_if sr.level);
    }
    else plain
sensitivity_decision _ _ plain = plain

unfoldable pub rule_decision : Casing → PolicyRequest → PolicyRule → PolicyDecision
unfolding sensitivity_decision action_decision
rule_decision cs request rule =
    sensitivity_decision rule.data_sensitivity request.content_sensitivity
      (action_decision cs request rule)

unfoldable pub default_decision : PolicyRequest → PolicyAction → PolicyDecision
unfolding decision_of
default_decision request default_action = record {
  decision = decision_of default_action;
  reason_code = ReasonCode.default_deny;
  metadata = some (Metadata.by_default request.caller request.tool_type request.operation);
}

-- The loop over the rules.
unfoldable pub evaluate_rules :
    Casing → Option Text → PolicyRequest → List PolicyRule → PolicyDecision → PolicyDecision
evaluate_rules cs home request [] otherwise = otherwise
evaluate_rules cs home request (rule ∷ rules) otherwise =
    if rule_matches cs rule request.caller request.tool_type request.operation request.target home
    then rule_decision cs request rule
    else evaluate_rules cs home request rules otherwise

-- `evaluate_with_config`; `home` is the home directory that it asks the platform for.
unfoldable pub evaluate_with_config :
    Casing → Option Text → PolicyRequest → PolicyConfig → PolicyDecision
unfolding evaluate_rules
evaluate_with_config cs home request config =
    evaluate_rules cs home request config.rules (default_decision request config.default_action)
