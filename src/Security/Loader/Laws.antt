-- ===== src/Security/Loader/Laws.antt =====
-- What loading, validating and merging guarantee.
use mathlib.Core.Path.{subst}
use oxcer_agent.Prelude.{
  ok-injective, ok, err, steps_of_ok, ℕ, suc, ◌+◌, ◌≡◌, ◌∙◌, refl, ap, ◌≢◌, ◌⊎◌, inl, inr, true,
  false, List, [], ◌∷◌, Option, none, some, arith, All, Bool-cases, Option-cases, sym, get_elem?,
}
use oxcer_agent.Text.{Text, Casing, codes}
use oxcer_agent.Security.{PolicyRequest}
use oxcer_agent.Security.Config.{PolicyAction, deny, PolicyRule, PolicyConfig}
use oxcer_agent.Security.Evaluate.{unwrap_or, evaluate_with_config, rule_decision}
use oxcer_agent.Security.Builtin.{
  default_policy, blocklist_paths, blacklist_commands, high_risk_commands,
}
use oxcer_agent.Security.Select.{IsFirstMatch, NoMatch, evaluate_rules_cases, evaluate_rules-append}
use oxcer_agent.Security.Loader.{
  missing_rules_array, no_match_criterion, rules_must_not_be_empty, LoadResultOf, and_then, ok_or,
  config_of, collect_rules, Format, rule_has_match_criteria, validate_rules, validate, load_result,
  load, merge_rules,
}

abbrev pub HasCriteria : PolicyRule → Type 0
HasCriteria rule = rule_has_match_criteria rule.match_ ≡ true

-- A policy that cannot match everything by accident: it has rules, and each has a criterion.
abbrev pub IsValid : PolicyConfig → Type 0
IsValid cfg = (cfg.rules ≢ []) × All HasCriteria cfg.rules

-- How `validate` ends from rule `i` on: with success where every rule has a criterion, and else
-- with the index of the first that has none.
abbrev pub Verdict : ℕ → List PolicyRule → LoadResultOf (Unit {0}) → Type 0
Verdict i rules (ok _) = All HasCriteria rules
Verdict i rules (err e) =
    (k : ℕ) × (rule : PolicyRule) × (e ≡ no_match_criterion (i + k))
    × (get_elem? rules k ≡ some rule)
    × (rule_has_match_criteria rule.match_ ≡ false)

Verdict-cons :
    (i : ℕ) (rule : PolicyRule) (rules : List PolicyRule) (result : LoadResultOf (Unit {0}))
    → HasCriteria rule
    → Verdict (suc i) rules result
    → Verdict i (rule ∷ rules) result
Verdict-cons i rule rules (ok _) h v = (h, v)
Verdict-cons i rule rules (err e) h (k, bad, same, at, bare) =
    (suc k, bad, same ∙ ap no_match_criterion (omega arith), at, bare)

validate_rules-Verdict :
    (i : ℕ) (rules : List PolicyRule) → Verdict i rules (validate_rules i rules)
unfolding validate_rules
validate_rules-Verdict i [] = tt
validate_rules-Verdict i (rule ∷ rules) = elim (Bool-cases (rule_has_match_criteria rule.match_)) [
  | inl has ↦ rw has (Verdict-cons i rule rules _ has (validate_rules-Verdict (suc i) rules))
  | inr bare ↦ rw bare (0, rule, ap no_match_criterion (omega arith), refl, bare)
]

abbrev pub ValidateVerdict : PolicyConfig → LoadResultOf (Unit {0}) → Type 0
ValidateVerdict cfg (ok _) = IsValid cfg
ValidateVerdict cfg (err e) =
    ((cfg.rules ≡ []) × (e ≡ rules_must_not_be_empty)) ⊎ Verdict 0 cfg.rules (err e)

nonempty-Verdict :
    (cfg : PolicyConfig) (result : LoadResultOf (Unit {0}))
    → cfg.rules ≢ []
    → Verdict 0 cfg.rules result
    → ValidateVerdict cfg result
nonempty-Verdict cfg (ok _) h v = (h, v)
nonempty-Verdict cfg (err e) h v = inr v

validate-config_of :
    (version : ℕ) (action : PolicyAction) (rules : List PolicyRule)
    → let cfg : PolicyConfig = record {
      version = version;
      default_action = action;
      rules = rules;
    } in
      ValidateVerdict cfg (validate cfg)
unfolding validate
validate-config_of version action [] = inl (refl, refl)
validate-config_of version action (r ∷ rules) =
    nonempty-Verdict (record { version = version; default_action = action; rules = r ∷ rules }) _
      (λ nil. cc) (validate_rules-Verdict 0 (r ∷ rules))

-- `validate` accepts only policies that have rules, each with a criterion, and refuses only the
-- others, with what is wrong: that there are no rules, or the index of the first that has none.
pub validate_verdict : (cfg : PolicyConfig) → ValidateVerdict cfg (validate cfg)
validate_verdict cfg = validate-config_of cfg.version cfg.default_action cfg.rules

IsValid-of_validate :
    (cfg : PolicyConfig) (result : LoadResultOf (Unit {0})) {u : Unit {0}}
    → ValidateVerdict cfg result
    → result ≡ ok u
    → IsValid cfg
IsValid-of_validate cfg (ok _) v h = v
IsValid-of_validate cfg (err e) v h = cc

default_policy-IsValid : IsValid default_policy
unfolding default_policy rule_has_match_criteria blocklist_paths blacklist_commands
    high_risk_commands
default_policy-IsValid = (
  (λ nil. cc),
  (refl, (refl, (refl, (refl, (refl, (refl, (refl, (refl, (refl, (refl, tt)))))))))),
)

module _ (format : Format) (bytes : List ℕ) where
  -- What a file that loads was read as.
  record IsRead (cfg : PolicyConfig) : Type 0 where
    raw : format.Value
    parsed : format.from_slice bytes ≡ ok raw
    action :
        cfg.default_action
        ≡ unwrap_or (and_then (format.get raw (codes "default_action")) format.to_action) deny
    valid : IsValid cfg

  config_of-IsRead :
      (raw : format.Value) (rules : List PolicyRule) {u : Unit {0}}
      → format.from_slice bytes ≡ ok raw
      → validate (config_of format raw rules) ≡ ok u
      → IsRead (config_of format raw rules)
  unfolding config_of
  config_of-IsRead raw rules parsed validated = record {
    raw = raw;
    parsed = parsed;
    action = refl;
    valid =
        IsValid-of_validate (config_of format raw rules) _
          (validate_verdict (config_of format raw rules)) validated;
  }

  load_result-IsRead : (cfg : PolicyConfig) → load_result format bytes ≡ ok cfg → IsRead cfg
  unfolding load_result
  load_result-IsRead cfg h =
      let (raw, parsed, h1) = steps_of_ok (format.from_slice bytes) _ h in
      let (array, found, h2) =
        steps_of_ok
          (ok_or (and_then (format.get raw (codes "rules")) format.as_array) missing_rules_array) _
          h1 in
      let (rules, collected, h3) = steps_of_ok (collect_rules format array) _ h2 in
      let (u, validated, h4) = steps_of_ok (validate (config_of format raw rules)) _ h3 in
      subst IsRead (ok-injective h4) (config_of-IsRead raw rules parsed validated)

  by_result :
      (P : PolicyConfig → Type 0)
      → ((cfg : PolicyConfig) → load_result format bytes ≡ ok cfg → P cfg)
      → P default_policy
      → P (load format bytes)
  unfolding load
  by_result P loaded built_in = split (load_result format bytes) refl
    where
      split :
          (r : LoadResultOf PolicyConfig)
          → load_result format bytes ≡ r
          → P (elim (load_result format bytes) [ ok cfg ↦ cfg | err e ↦ default_policy ])
      split (ok cfg) e = rw e (loaded cfg e)
      split (err x) e = rw e built_in

-- Whatever the bytes of a policy file, the policy in force has rules, and each of its rules has a
-- criterion.
pub load-IsValid : (format : Format) (bytes : List ℕ) → IsValid (load format bytes)
load-IsValid format bytes =
    by_result format bytes IsValid (λ cfg h. (load_result-IsRead format bytes cfg h).valid)
      default_policy-IsValid

from_option {ℓ κ} :
    {V : Type ℓ} {A : Type κ} (o : Option V) (f : V → Option A) (d a : A)
    → a ≡ unwrap_or (and_then o f) d
    → (a ≡ d) ⊎ ((v : V) × (o ≡ some v) × (f v ≡ some a))
from_option none f d a h = inl h
from_option (some v) f d a h = elim (Option-cases (f v)) [
  | inl e ↦ inl (rw e at h)
  | inr (b, e) ↦ inr (v, refl, e ∙ ap some (sym (rw e at h)))
]

-- The default action is deny, or the one that a parsed file names.
abbrev pub DenyUnlessNamed : (format : Format) → List ℕ → PolicyConfig → Type 0
DenyUnlessNamed format bytes cfg =
    (cfg.default_action ≡ deny)
    ⊎ ((raw : format.Value) × (v : format.Value) × (format.from_slice bytes ≡ ok raw)
        × (format.get raw (codes "default_action") ≡ some v)
        × (format.to_action v ≡ some cfg.default_action))

IsRead-DenyUnlessNamed :
    (format : Format) (bytes : List ℕ) (cfg : PolicyConfig)
    → IsRead format bytes cfg
    → DenyUnlessNamed format bytes cfg
IsRead-DenyUnlessNamed format bytes cfg r =
    elim (from_option (format.get r.raw (codes "default_action")) format.to_action deny _
      r.action) [ inl e ↦ inl e | inr (v, found, named) ↦ inr (r.raw, v, r.parsed, found, named) ]

-- The default action of the policy in force is deny, unless the file parses and names another one
-- under "default_action".
pub load-DenyUnlessNamed :
    (format : Format) (bytes : List ℕ) → DenyUnlessNamed format bytes (load format bytes)
load-DenyUnlessNamed format bytes =
    by_result format bytes (DenyUnlessNamed format bytes)
      (λ cfg h. IsRead-DenyUnlessNamed format bytes cfg (load_result-IsRead format bytes cfg h))
      (inl (unfold default_policy in refl))

-- Rules merged in are tried first: where one of them matches, the first that does decides as it
-- would alone, and where none does, the base policy decides.
pub evaluate-merge_rules :
    (cs : Casing) (home : Option Text) (request : PolicyRequest) (base : PolicyConfig)
    (extra : List PolicyRule)
    → ((rule : PolicyRule) × IsFirstMatch cs home request rule extra
        × (evaluate_with_config cs home request (merge_rules base extra)
            ≡ rule_decision cs request rule))
      ⊎ (NoMatch cs home request extra
          × (evaluate_with_config cs home request (merge_rules base extra)
              ≡ evaluate_with_config cs home request base))
unfolding evaluate_with_config merge_rules
evaluate-merge_rules cs home request base extra =
    rw (evaluate_rules-append cs home request extra base.rules)
      (evaluate_rules_cases cs home request extra _)
