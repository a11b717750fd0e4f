-- ===== src/Security/Tests.antt =====
-- Runs of the policy engine, and the theorems about it at concrete requests.
use mathlib.Core.List.{Memᴰ}
use native.Mathlib.Omega.{arith}
use oxcer_agent.Prelude.{ok, ◌≤◌, ◌≡◌, refl, ◌⊎◌, false, [], ◌∷◌, Option, none, some, map}
use oxcer_agent.Text.{Text, Casing, codes, ascii_lower, ascii_upper}
use oxcer_agent.Security.{
  PolicyCaller, ui, agent_orchestrator, ToolType, fs, shell, Operation, read, write, delete, exec,
  PolicyTarget, fs_path, shell_command, PolicyRequest, PolicyDecisionKind, allow, deny,
  require_approval, low, high, SensitivityResult, SensitivityLevel,
}
use oxcer_agent.Security.Config
use oxcer_agent.Security.Config.{
  PolicyRule, rule_matches, caller_matches, tool_type_matches, operation_matches, path_matches,
  command_matches, PolicyConfig, DataSensitivityRule,
}
use oxcer_agent.Security.Evaluate.{evaluate_with_config, rule_decision, default_decision}
use oxcer_agent.Security.Select.{IsFirstMatch, NoMatch, evaluate-IsFirstMatch}
use oxcer_agent.Security.Builtin.Table.{builtin_table, hits_of, decision-default_policy}
use oxcer_agent.Security.Guarantees.{
  restrictiveness, agent-allow-read_only, agent-ui_restrictiveness, blocklisted_path-deny,
}
use oxcer_agent.Security.Reasons.{rule_decision_mono}
use oxcer_agent.Security.Loader.{Format, load, merge_rules}
use oxcer_agent.Security.Loader.Laws.{
  IsValid, load-IsValid, DenyUnlessNamed, load-DenyUnlessNamed, evaluate-merge_rules,
}
use oxcer_agent.Security.Builtin.{
  default_policy, blocklist_paths, blacklist_commands, high_risk_commands, agent_read_rule,
}

-- The case tables cut down to ASCII.
abbrev pub ascii : Casing
ascii = record {
  to_lowercase = λ s. map ascii_lower s;
  to_uppercase = λ s. map ascii_upper s;
  lowercase_ascii = λ s h. refl;
  uppercase_ascii = λ s h. refl;
}

abbrev home : Option Text
home = some (codes "/home/a")

abbrev request_of : PolicyCaller → ToolType → Operation → PolicyTarget → PolicyRequest
request_of caller tool_type operation target = record {
  caller = caller;
  tool_type = tool_type;
  operation = operation;
  target = target;
  content_sensitivity = none;
}

abbrev decide : PolicyRequest → PolicyDecisionKind
decide request = (evaluate_with_config ascii home request default_policy).decision

engine : Unit {0}
unfolding evaluate_with_config rule_matches caller_matches tool_type_matches operation_matches
    path_matches command_matches default_policy blocklist_paths blacklist_commands
    high_risk_commands rule_decision
engine = tt

abbrev notes : PolicyTarget
notes = fs_path (codes "/tmp/workspace/file.txt")

abbrev private_key : PolicyTarget
private_key = fs_path (codes "/home/a/.ssh/id_rsa")

abbrev run_tests : PolicyTarget
run_tests = shell_command (codes "run_tests") none

abbrev wipe : PolicyTarget
wipe = shell_command (codes "rm") (some (codes "rm -rf /"))

-- The table of the source's own tests.
source_table :
    (decide (request_of ui fs read private_key) ≡ deny)
    × (decide (request_of agent_orchestrator fs write private_key) ≡ deny)
    × (decide (request_of ui shell exec wipe) ≡ deny)
    × (decide (request_of ui fs delete notes) ≡ require_approval)
    × (decide (request_of agent_orchestrator fs write notes) ≡ require_approval)
    × (decide (request_of agent_orchestrator shell exec run_tests) ≡ require_approval)
    × (decide (request_of ui fs write notes) ≡ allow)
    × (decide (request_of ui shell exec run_tests) ≡ allow)
    × (decide (request_of agent_orchestrator fs read notes) ≡ allow)
unfolding engine
source_table = (refl, refl, refl, refl, refl, refl, refl, refl, refl)

evaluate-IsFirstMatch_example :
    ((rule : PolicyRule) × IsFirstMatch ascii home
        (request_of ui fs delete notes)
        rule
        default_policy.rules
      × (evaluate_with_config ascii home (request_of ui fs delete notes) default_policy
          ≡ rule_decision ascii (request_of ui fs delete notes) rule))
    ⊎ (NoMatch ascii home (request_of ui fs delete notes) default_policy.rules
        × (evaluate_with_config ascii home (request_of ui fs delete notes) default_policy
            ≡ default_decision (request_of ui fs delete notes) default_policy.default_action))
evaluate-IsFirstMatch_example =
    evaluate-IsFirstMatch ascii home (request_of ui fs delete notes) default_policy

decision-default_policy_example :
    decide (request_of ui shell exec wipe) ≡ builtin_table ui shell exec (hits_of ascii home wipe)
decision-default_policy_example = decision-default_policy ascii home (request_of ui shell exec wipe)

agent-allow-read_only_example :
    (ToolType.fs ≡ fs)
    × (Operation.read ≡ read)
    × (path_matches (some blocklist_paths) notes home ≡ false)
unfolding engine
agent-allow-read_only_example =
    agent-allow-read_only ascii home (request_of agent_orchestrator fs read notes) refl refl

agent-ui_restrictiveness_example :
    restrictiveness (decide (request_of ui fs write notes))
    ≤ restrictiveness (decide (request_of agent_orchestrator fs write notes))
agent-ui_restrictiveness_example = agent-ui_restrictiveness ascii home fs write notes none

blocklisted_path-deny_example : decide (request_of ui fs read private_key) ≡ deny
unfolding engine
blocklisted_path-deny_example =
    blocklisted_path-deny ascii home (request_of ui fs read private_key)
      (codes "/home/a/.ssh/id_rsa") (codes "~/.ssh") refl (Memᴰ.head refl) refl

abbrev content : SensitivityLevel → SensitivityResult
content level = record {
  level = level;
  masked_content = [];
  findings = [];
  original_length = 0;
  redacted_length = 0;
}

-- A read rule that denies content above medium.
abbrev bounded_rule : PolicyRule
bounded_rule = record agent_read_rule {
  data_sensitivity =
      some (record { max_level = Config.medium; require_approval_if = some Config.low });
}

rule_decision_mono_example :
    restrictiveness
      (rule_decision ascii
        (record (request_of agent_orchestrator fs read notes) {
          content_sensitivity = some (content low);
        })
        bounded_rule).decision
    ≤ restrictiveness
        (rule_decision ascii
          (record (request_of agent_orchestrator fs read notes) {
            content_sensitivity = some (content high);
          })
          bounded_rule).decision
rule_decision_mono_example =
    rule_decision_mono ascii (request_of agent_orchestrator fs read notes) bounded_rule
      (content low) (content high) (λ e. cc) (omega arith)

-- A format of one value: every file is the rules `agent_read_rule` alone, under any key.
abbrev one_rule_format : Format
one_rule_format = record {
  Value = Unit {0};
  from_slice = λ bytes. ok tt;
  get = λ v key. some tt;
  as_array = λ v. some (tt ∷ []);
  as_u64 = λ v. some 1;
  to_rule = λ v. ok agent_read_rule;
  to_action = λ v. some Config.require_approval;
}

loads_one_rule : (load one_rule_format []).rules ≡ agent_read_rule ∷ []
unfolding load
loads_one_rule = refl

load-IsValid_example : IsValid (load one_rule_format [])
load-IsValid_example = load-IsValid one_rule_format []

load-DenyUnlessNamed_example : DenyUnlessNamed one_rule_format [] (load one_rule_format [])
load-DenyUnlessNamed_example = load-DenyUnlessNamed one_rule_format []

evaluate-merge_rules_example :
    ((rule : PolicyRule) × IsFirstMatch ascii home
        (request_of ui fs delete notes)
        rule
        (agent_read_rule ∷ [])
      × (evaluate_with_config ascii home
            (request_of ui fs delete notes)
            (merge_rules default_policy (agent_read_rule ∷ []))
          ≡ rule_decision ascii (request_of ui fs delete notes) rule))
    ⊎ (NoMatch ascii home (request_of ui fs delete notes) (agent_read_rule ∷ [])
        × (evaluate_with_config ascii home
              (request_of ui fs delete notes)
              (merge_rules default_policy (agent_read_rule ∷ []))
            ≡ evaluate_with_config ascii home (request_of ui fs delete notes) default_policy))
evaluate-merge_rules_example =
    evaluate-merge_rules ascii home (request_of ui fs delete notes) default_policy
      (agent_read_rule ∷ [])
