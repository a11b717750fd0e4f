-- ===== src/Security/Builtin.antt =====
-- oxcer-core/src/security/policy_config.rs, `builtin_default_rules` and `default_policy`: the policy
-- that holds where the policy file cannot be loaded. Each rule of the source's `vec!` has a name.
pub mod Words
pub mod Table
use oxcer_agent.Prelude.{List, [], ◌∷◌, Option, none, some, map}
use oxcer_agent.Text.{Text, codes}
use oxcer_agent.Security.Config.{
  PolicyAction, allow, deny, require_approval, PolicyMatch, PolicyRule, PolicyConfig,
}

-- A criterion-free match, the start of each rule's.
abbrev pub any_request : PolicyMatch
any_request = record {
  caller = none;
  tool_type = none;
  operation = none;
  path_patterns = none;
  command_patterns = none;
}

-- A rule with no data-sensitivity bounds.
abbrev pub rule_of :
    PolicyMatch → PolicyAction → Text → (notes risk_level : Option Text) → PolicyRule
rule_of match_ action reason notes risk_level = record {
  match_ = match_;
  action = action;
  reason_code = some reason;
  notes = notes;
  risk_level = risk_level;
  data_sensitivity = none;
}

abbrev pub high_risk : Option Text
high_risk = some (codes "high")

unfoldable pub blocklist_paths : List Text
blocklist_paths =
    codes "~/.ssh"
    ∷ codes "~/.aws"
    ∷ codes "~/.gnupg"
    ∷ codes "~/Library/Keychains"
    ∷ codes "~/Library/Passwords"
    ∷ codes "~/.env"
    ∷ codes "~/.env.local"
    ∷ codes "~/.env.production"
    ∷ codes "~/.env.development"
    ∷ codes "~/.netrc"
    ∷ codes "~/.git-credentials"
    ∷ codes "~/.docker/config.json"
    ∷ codes "~/.kube/config"
    ∷ codes "~/.terraform"
    ∷ codes "~/.config/gcloud"
    ∷ codes "~/.azure"
    ∷ []

abbrev pub path_blocklist_rule : PolicyRule
path_blocklist_rule =
    rule_of (record any_request { path_patterns = some blocklist_paths }) deny
      (codes "FS_PATH_IN_BLOCKLIST") (some (codes "Sensitive credential paths")) high_risk

unfoldable pub blacklist_commands : List Text
blacklist_commands =
    codes "rm"
    ∷ codes "sudo"
    ∷ codes "su"
    ∷ codes "dd"
    ∷ codes "mkfs"
    ∷ codes "fdisk"
    ∷ codes "rm -rf"
    ∷ codes " sudo "
    ∷ []

abbrev pub command_blacklist_rule : PolicyRule
command_blacklist_rule =
    rule_of
      (record any_request {
        tool_type = some (codes "shell" ∷ []);
        command_patterns = some blacklist_commands;
      })
      deny (codes "SHELL_COMMAND_BLACKLISTED") (some (codes "Destructive/privilege commands"))
      high_risk

abbrev pub destructive_fs_rule : PolicyRule
destructive_fs_rule =
    rule_of
      (record any_request {
        tool_type = some (codes "fs" ∷ []);
        operation = some (codes "delete" ∷ codes "rename" ∷ codes "move" ∷ codes "chmod" ∷ []);
      })
      require_approval (codes "DESTRUCTIVE_FS_REQUIRES_APPROVAL") none high_risk

unfoldable pub high_risk_commands : List Text
high_risk_commands =
    codes "deploy" ∷ codes "push" ∷ codes "migrate" ∷ codes "release" ∷ codes "publish" ∷ []

abbrev pub high_risk_shell_rule : PolicyRule
high_risk_shell_rule =
    rule_of
      (record any_request {
        tool_type = some (codes "shell" ∷ []);
        operation = some (codes "exec" ∷ []);
        command_patterns = some high_risk_commands;
      })
      require_approval (codes "HIGH_RISK_TOOL_REQUIRES_APPROVAL") none high_risk

abbrev pub internal_system_rule : PolicyRule
internal_system_rule =
    rule_of (record any_request { caller = some (codes "internal_system" ∷ []) }) allow
      (codes "INTERNAL_SYSTEM") none none

-- The rules for one caller, one tool and some of its operations.
abbrev pub caller_match : Text → Text → List Text → PolicyMatch
caller_match caller tool_type operations = record any_request {
  caller = some (caller ∷ []);
  tool_type = some (tool_type ∷ []);
  operation = some operations;
}

abbrev pub agent_read_rule : PolicyRule
agent_read_rule =
    rule_of (caller_match (codes "agent_orchestrator") (codes "fs") (codes "read" ∷ [])) allow
      (codes "EXPLICIT_ALLOW") none none

abbrev pub agent_write_rule : PolicyRule
agent_write_rule =
    rule_of (caller_match (codes "agent_orchestrator") (codes "fs") (codes "write" ∷ []))
      require_approval (codes "AGENT_WRITE_REQUIRES_APPROVAL") none high_risk

abbrev pub agent_exec_rule : PolicyRule
agent_exec_rule =
    rule_of (caller_match (codes "agent_orchestrator") (codes "shell") (codes "exec" ∷ []))
      require_approval (codes "AGENT_EXEC_REQUIRES_APPROVAL") none high_risk

abbrev pub ui_fs_rule : PolicyRule
ui_fs_rule =
    rule_of (caller_match (codes "ui") (codes "fs") (codes "read" ∷ codes "write" ∷ [])) allow
      (codes "EXPLICIT_ALLOW") none none

abbrev pub ui_shell_rule : PolicyRule
ui_shell_rule =
    rule_of (caller_match (codes "ui") (codes "shell") (codes "exec" ∷ [])) allow
      (codes "EXPLICIT_ALLOW") none none

unfoldable pub builtin_default_rules : List PolicyRule
builtin_default_rules =
    path_blocklist_rule ∷ command_blacklist_rule ∷ destructive_fs_rule ∷ high_risk_shell_rule
    ∷ internal_system_rule ∷ agent_read_rule ∷ agent_write_rule ∷ agent_exec_rule ∷ ui_fs_rule
    ∷ ui_shell_rule ∷ []

unfoldable pub default_policy : PolicyConfig
unfolding builtin_default_rules
default_policy = record { version = 1; default_action = deny; rules = builtin_default_rules }
