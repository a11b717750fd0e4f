-- ===== src/Security/Reasons.antt =====
-- Reason codes and data-sensitivity bounds.
use oxcer_agent.Prelude.{◌≤◌, ◌≡◌, refl, ◌≢◌, Option, none, some, arith}
use oxcer_agent.Text.{Casing, codes}
use oxcer_agent.Security.{
  ReasonCode, as_str, fs_path_in_blocklist, shell_command_blacklisted,
  destructive_fs_requires_approval, high_risk_tool_requires_approval, agent_write_requires_approval,
  agent_exec_requires_approval, agent_destructive_requires_approval, explicit_allow,
  internal_system, data_sensitivity_deny, data_sensitivity_require_approval, default_deny,
  level_rank, SensitivityResult, PolicyRequest,
}
use oxcer_agent.Security.Config.{PolicyRule, PolicyAction, DataSensitivityRule, deny}
use oxcer_agent.Security.Evaluate.{
  PolicyDecision, reason_code_from_str, rule_decision, sensitivity_decision, decision_of,
}
use oxcer_agent.Security.Guarantees.{restrictiveness}

-- The stable name of a reason code, read back from a policy file, is that reason code.
pub reason_code_from_str-as_str :
    (cs : Casing) (r : ReasonCode) → reason_code_from_str cs (as_str r) ≡ r
unfolding reason_code_from_str as_str
reason_code_from_str-as_str cs fs_path_in_blocklist =
    rw (cs.uppercase_ascii (codes "FS_PATH_IN_BLOCKLIST") refl)
reason_code_from_str-as_str cs shell_command_blacklisted =
    rw (cs.uppercase_ascii (codes "SHELL_COMMAND_BLACKLISTED") refl)
reason_code_from_str-as_str cs destructive_fs_requires_approval =
    rw (cs.uppercase_ascii (codes "DESTRUCTIVE_FS_REQUIRES_APPROVAL") refl)
reason_code_from_str-as_str cs high_risk_tool_requires_approval =
    rw (cs.uppercase_ascii (codes "HIGH_RISK_TOOL_REQUIRES_APPROVAL") refl)
reason_code_from_str-as_str cs agent_write_requires_approval =
    rw (cs.uppercase_ascii (codes "AGENT_WRITE_REQUIRES_APPROVAL") refl)
reason_code_from_str-as_str cs agent_exec_requires_approval =
    rw (cs.uppercase_ascii (codes "AGENT_EXEC_REQUIRES_APPROVAL") refl)
reason_code_from_str-as_str cs agent_destructive_requires_approval =
    rw (cs.uppercase_ascii (codes "AGENT_DESTRUCTIVE_REQUIRES_APPROVAL") refl)
reason_code_from_str-as_str cs explicit_allow =
    rw (cs.uppercase_ascii (codes "EXPLICIT_ALLOW") refl)
reason_code_from_str-as_str cs internal_system =
    rw (cs.uppercase_ascii (codes "INTERNAL_SYSTEM") refl)
reason_code_from_str-as_str cs data_sensitivity_deny =
    rw (cs.uppercase_ascii (codes "DATA_SENSITIVITY_DENY") refl)
reason_code_from_str-as_str cs data_sensitivity_require_approval =
    rw (cs.uppercase_ascii (codes "DATA_SENSITIVITY_REQUIRE_APPROVAL") refl)
reason_code_from_str-as_str cs default_deny = rw (cs.uppercase_ascii (codes "DEFAULT_DENY") refl)

sensitivity_decision_mono :
    (ds : Option DataSensitivityRule) (a b : SensitivityResult) (p q : PolicyDecision)
    → restrictiveness p.decision ≤ 1
    → p.decision ≡ q.decision
    → level_rank a.level ≤ level_rank b.level
    → restrictiveness (sensitivity_decision ds (some a) p).decision
      ≤ restrictiveness (sensitivity_decision ds (some b) q).decision
unfolding sensitivity_decision
sensitivity_decision_mono none a b p q h e le = rw e (omega arith)
sensitivity_decision_mono (some ds) a b p q h e le = ground arith

not-deny-rank : (action : PolicyAction) → action ≢ deny → restrictiveness (decision_of action) ≤ 1
unfolding decision_of
not-deny-rank action h = ground arith

-- Under a rule that does not deny, content of a higher sensitivity is never decided on less
-- restrictively than content of a lower one.
pub rule_decision_mono :
    (cs : Casing) (request : PolicyRequest) (rule : PolicyRule) (a b : SensitivityResult)
    → rule.action ≢ deny
    → level_rank a.level ≤ level_rank b.level
    → restrictiveness
        (rule_decision cs (record request { content_sensitivity = some a }) rule).decision
      ≤ restrictiveness
          (rule_decision cs (record request { content_sensitivity = some b }) rule).decision
unfolding rule_decision
rule_decision_mono cs request rule a b h le =
    sensitivity_decision_mono rule.data_sensitivity a b _ _ (not-deny-rank rule.action h) refl le
