-- ===== src/Security/Loader.antt =====
-- oxcer-core/src/security/policy_config.rs: loading, validating and merging policies. The YAML and
-- the JSON loader run the same code over `serde_yaml` and `serde_json`, which are the interface
-- `Format`: reading the bytes, looking into the value, and reading a rule or an action out of it.
pub mod Laws
use oxcer_agent.Prelude.{
  Result, ok, err, ◌>>=◌, ℕ, zero, suc, Bool, true, false, not, ◌||◌, ◌++◌, List, [], ◌∷◌, Option,
  none, some, if◌then◌else◌, is_empty,
}
use oxcer_agent.Text.{Text, codes}
use oxcer_agent.Security.Config.{
  PolicyAction, deny, PolicyMatch, PolicyRule, PolicyConfig, is_some_and,
}
use oxcer_agent.Security.Evaluate.{unwrap_or}
use oxcer_agent.Security.Builtin.{default_policy}
use Prim.Native.Nat.{◌%◌, ◌^◌}

-- What `PolicyLoadError` tells; a validation error names what its message is about.
pub data PolicyLoadError : Type 0 where
  parse : (message : Text) → PolicyLoadError
  missing_rules_array rules_must_not_be_empty : PolicyLoadError
  no_match_criterion : (rule_index : ℕ) → PolicyLoadError

-- `LoadResultOf<T>`.
abbrev pub LoadResultOf {ℓ} : Type ℓ → Type ℓ
LoadResultOf T = Result T PolicyLoadError

-- `serde_yaml` or `serde_json`, as far as the loader uses it.
pub record Format : Type 1 where
  pub Value : Type 0
  pub from_slice : List ℕ → LoadResultOf Value
  pub get : Value → Text → Option Value
  pub as_array : Value → Option (List Value)
  pub as_u64 : Value → Option ℕ
  pub to_rule : Value → LoadResultOf PolicyRule
  pub to_action : Value → Option PolicyAction

abbrev criterion_given : Option (List Text) → Bool
criterion_given c = is_some_and c (λ v. not (is_empty v))

unfoldable pub rule_has_match_criteria : PolicyMatch → Bool
rule_has_match_criteria m =
    criterion_given m.caller
    || criterion_given m.tool_type
    || criterion_given m.operation
    || criterion_given m.path_patterns
    || criterion_given m.command_patterns

-- The loop of `validate` from rule `i` on.
unfoldable pub validate_rules : ℕ → List PolicyRule → LoadResultOf (Unit {0})
unfolding rule_has_match_criteria
validate_rules i [] = ok tt
validate_rules i (rule ∷ rules) =
    if rule_has_match_criteria rule.match_
    then validate_rules (suc i) rules
    else err (no_match_criterion i)

unfoldable pub validate : PolicyConfig → LoadResultOf (Unit {0})
unfolding validate_rules
validate cfg =
    if is_empty cfg.rules then err rules_must_not_be_empty else validate_rules 0 cfg.rules

abbrev pub and_then {ℓ κ} : {A : Type ℓ} {B : Type κ} → Option A → (A → Option B) → Option B
and_then none f = none
and_then (some a) f = f a

abbrev pub ok_or {ℓ} : {A : Type ℓ} → Option A → PolicyLoadError → LoadResultOf A
ok_or none e = err e
ok_or (some a) e = ok a

module _ (format : Format) where
  open format use {Value, from_slice, get, as_array, as_u64, to_rule, to_action}

  -- `map(from_value).collect::<Result<Vec<_>, _>>()`.
  unfoldable pub collect_rules : List Value → LoadResultOf (List PolicyRule)
  collect_rules [] = ok []
  collect_rules (v ∷ vs) = do rule ← to_rule v; rules ← collect_rules vs; ok (rule ∷ rules)

  -- The policy of a parsed file and the rules read from it.
  unfoldable pub config_of : Value → List PolicyRule → PolicyConfig
  config_of raw rules = record {
    version = unwrap_or (and_then (get raw (codes "version")) as_u64) 1 % 2 ^ 32;
    default_action = unwrap_or (and_then (get raw (codes "default_action")) to_action) deny;
    rules = rules;
  }

  -- `load_from_yaml_result` and `load_from_json_result`.
  unfoldable pub load_result : List ℕ → LoadResultOf PolicyConfig
  unfolding collect_rules validate config_of
  load_result bytes = do
    raw ← from_slice bytes
    array ← ok_or (and_then (get raw (codes "rules")) as_array) missing_rules_array
    rules ← collect_rules array
    _ ← validate (config_of raw rules)
    ok (config_of raw rules)

  -- `load_from_yaml` and `load_from_json`: an error leaves the built-in policy.
  unfoldable pub load : List ℕ → PolicyConfig
  unfolding load_result
  load bytes = elim (load_result bytes) [ ok cfg ↦ cfg | err e ↦ default_policy ]

-- `merge_rules`: the extra rules come first.
unfoldable pub merge_rules : PolicyConfig → List PolicyRule → PolicyConfig
merge_rules base extra = record base { rules = extra ++ base.rules }
