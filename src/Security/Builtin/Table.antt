-- ===== src/Security/Builtin/Table.antt =====
-- The built-in policy as a table: what its ten rules, taken in order, decide for each request.
use oxcer_agent.Prelude.{
  ◌≡◌, ◌∙◌, refl, ◌||◌, ◌&&◌, Option, some, Bool, true, false, if◌then◌else◌, arith,
}
use oxcer_agent.Text.{Text, Casing}
use oxcer_agent.Security.{
  PolicyCaller, ui, agent_orchestrator, internal_system, ToolType, fs, shell, Operation, read,
  write, delete, rename, move, chmod, exec, caller_eq, tool_type_eq, operation_eq, PolicyRequest,
  PolicyTarget, PolicyDecisionKind, allow, deny, require_approval,
}
use oxcer_agent.Security.Config.{path_matches, command_matches, rule_matches}
use oxcer_agent.Security.Evaluate.{
  default_decision, PolicyDecision, rule_decision, evaluate_with_config,
}
use oxcer_agent.Security.Builtin.{
  blocklist_paths, blacklist_commands, high_risk_commands, default_policy,
}
use oxcer_agent.Security.Builtin.Words.{words}

-- What each caller may do where no path and no command is listed.
abbrev pub caller_table : PolicyCaller → ToolType → Operation → PolicyDecisionKind
caller_table _ fs delete = require_approval
caller_table _ fs rename = require_approval
caller_table _ fs move = require_approval
caller_table _ fs chmod = require_approval
caller_table internal_system _ _ = allow
caller_table agent_orchestrator fs read = allow
caller_table agent_orchestrator fs write = require_approval
caller_table agent_orchestrator shell exec = require_approval
caller_table ui fs read = allow
caller_table ui fs write = allow
caller_table ui shell exec = allow
caller_table _ _ _ = deny

-- Which of the lists of paths and commands hold the target.
pub record Hits : Type 0 where
  pub blocklisted : Bool
  pub blacklisted : Bool
  pub high_risk : Bool

unfoldable pub hits_of : Casing → Option Text → PolicyTarget → Hits
hits_of cs home target = record {
  blocklisted = path_matches (some blocklist_paths) target home;
  blacklisted = command_matches cs (some blacklist_commands) target;
  high_risk = command_matches cs (some high_risk_commands) target;
}

abbrev pub builtin_table : PolicyCaller → ToolType → Operation → Hits → PolicyDecisionKind
builtin_table caller tool_type operation hits =
    if hits.blocklisted
    then deny
    else if tool_type_eq shell tool_type && hits.blacklisted
    then deny
    else if tool_type_eq shell tool_type && (operation_eq exec operation && hits.high_risk)
    then require_approval
    else caller_table caller tool_type operation

decision-if :
    (b : Bool) (x y : PolicyDecision)
    → (if b then x else y).decision ≡ (if b then x.decision else y.decision)
decision-if true x y = refl
decision-if false x y = refl

-- The ten rules in their order, with the tests of their criteria.
builtin_ladder : PolicyCaller → ToolType → Operation → Hits → PolicyDecisionKind
builtin_ladder c t o hits =
    if hits.blocklisted
    then deny
    else if tool_type_eq shell t && hits.blacklisted
    then deny
    else if tool_type_eq fs t
        && (operation_eq delete o
            || (operation_eq rename o || (operation_eq move o || operation_eq chmod o)))
    then require_approval
    else if tool_type_eq shell t && operation_eq exec o && hits.high_risk
    then require_approval
    else if caller_eq internal_system c
    then allow
    else if caller_eq agent_orchestrator c && tool_type_eq fs t && operation_eq read o
    then allow
    else if caller_eq agent_orchestrator c && tool_type_eq fs t && operation_eq write o
    then require_approval
    else if caller_eq agent_orchestrator c && tool_type_eq shell t && operation_eq exec o
    then require_approval
    else if caller_eq ui c && tool_type_eq fs t && (operation_eq read o || operation_eq write o)
    then allow
    else if caller_eq ui c && tool_type_eq shell t && operation_eq exec o
    then allow
    else deny

builtin_ladder-table :
    (c : PolicyCaller) (t : ToolType) (o : Operation) (hits : Hits)
    → builtin_ladder c t o hits ≡ builtin_table c t o hits
unfolding builtin_ladder caller_eq tool_type_eq operation_eq
builtin_ladder-table c t o hits = ground arith

decision-ladder :
    (cs : Casing) (home : Option Text) (request : PolicyRequest)
    → (evaluate_with_config cs home request default_policy).decision
      ≡ builtin_ladder request.caller request.tool_type request.operation
          (hits_of cs home request.target)
unfolding evaluate_with_config default_policy rule_matches rule_decision default_decision
    builtin_ladder hits_of
decision-ladder cs home request = simp (words, decision-if)

-- The built-in policy decides by the table: a blocklisted path and, for the shell, a blacklisted
-- command are denied, a high-risk command is put up for approval, and the rest goes by the caller,
-- the tool and the operation. It holds for every request, home directory and case table.
pub decision-default_policy :
    (cs : Casing) (home : Option Text) (request : PolicyRequest)
    → (evaluate_with_config cs home request default_policy).decision
      ≡ builtin_table request.caller request.tool_type request.operation
          (hits_of cs home request.target)
decision-default_policy cs home request =
    decision-ladder cs home request ∙ builtin_ladder-table _ _ _ _
