-- ===== src/Security/Select.antt =====
-- What decides in a policy: the first rule that matches.
use oxcer_agent.Prelude.{
  ◌≡◌, ◌∙◌, refl, ◌⊎◌, inl, inr, List, [], ◌∷◌, ◌++◌, Option, Bool, true, false, All, Bool-cases,
}
use oxcer_agent.Text.{Text, Casing}
use oxcer_agent.Security.{PolicyRequest}
use oxcer_agent.Security.Config.{PolicyRule, PolicyConfig, rule_matches}
use oxcer_agent.Security.Evaluate.{
  PolicyDecision, rule_decision, default_decision, evaluate_rules, evaluate_with_config,
}

module _ (cs : Casing) (home : Option Text) (request : PolicyRequest) where
  abbrev pub matches_request : PolicyRule → Bool
  matches_request rule =
      rule_matches cs rule request.caller request.tool_type request.operation request.target home

  -- `rule` is in `rules`, matches, and no rule in front of it does.
  pub record IsFirstMatch (rule : PolicyRule) (rules : List PolicyRule) : Type 0 where
    pub before : List PolicyRule
    pub after : List PolicyRule
    pub placed : rules ≡ before ++ (rule ∷ after)
    pub missed : All (λ r. matches_request r ≡ false) before
    pub matched : matches_request rule ≡ true

  abbrev pub NoMatch : List PolicyRule → Type 0
  NoMatch rules = All (λ r. matches_request r ≡ false) rules

  IsFirstMatch-cons :
      (r : PolicyRule) {rule : PolicyRule} {rules : List PolicyRule}
      → matches_request r ≡ false
      → IsFirstMatch rule rules
      → IsFirstMatch rule (r ∷ rules)
  IsFirstMatch-cons r h f = record {
    before = r ∷ f.before;
    after = f.after;
    placed = rw f.placed;
    missed = (h, f.missed);
    matched = f.matched;
  }

  evaluate_rules-match :
      (r : PolicyRule) (rules : List PolicyRule) (otherwise : PolicyDecision)
      → matches_request r ≡ true
      → evaluate_rules cs home request (r ∷ rules) otherwise ≡ rule_decision cs request r
  unfolding evaluate_rules
  evaluate_rules-match r rules otherwise h = rw h

  evaluate_rules-skip :
      (r : PolicyRule) (rules : List PolicyRule) (otherwise : PolicyDecision)
      → matches_request r ≡ false
      → evaluate_rules cs home request (r ∷ rules) otherwise
        ≡ evaluate_rules cs home request rules otherwise
  unfolding evaluate_rules
  evaluate_rules-skip r rules otherwise h = rw h

  pub evaluate_rules_cases :
      (rules : List PolicyRule) (otherwise : PolicyDecision)
      → ((rule : PolicyRule) × IsFirstMatch rule rules
          × (evaluate_rules cs home request rules otherwise ≡ rule_decision cs request rule))
        ⊎ (NoMatch rules × (evaluate_rules cs home request rules otherwise ≡ otherwise))
  evaluate_rules_cases [] otherwise = inr (tt, unfold evaluate_rules in refl)
  evaluate_rules_cases (r ∷ rules) otherwise = elim (Bool-cases (matches_request r)) [
    | inl hit ↦ inl (
      r,
      record { before = []; after = rules; placed = refl; missed = tt; matched = hit },
      evaluate_rules-match r rules otherwise hit,
    )
    | inr miss ↦ elim (evaluate_rules_cases rules otherwise) [
      | inl (rule, first, same) ↦
          inl (
            rule,
            IsFirstMatch-cons r miss first,
            evaluate_rules-skip r rules otherwise miss ∙ same,
          )
      | inr (none_matches, same) ↦
          inr ((miss, none_matches), evaluate_rules-skip r rules otherwise miss ∙ same)
    ]
  ]

  pub evaluate_rules-append :
      (extra rules : List PolicyRule) (otherwise : PolicyDecision)
      → evaluate_rules cs home request (extra ++ rules) otherwise
        ≡ evaluate_rules cs home request extra (evaluate_rules cs home request rules otherwise)
  unfolding evaluate_rules
  evaluate_rules-append [] rules otherwise = refl
  evaluate_rules-append (r ∷ extra) rules otherwise =
      rw (evaluate_rules-append extra rules otherwise)

-- Evaluation is first match: either a rule of the policy matches, no rule in front of it does, and
-- it decides; or no rule matches, and the default action decides.
pub evaluate-IsFirstMatch :
    (cs : Casing) (home : Option Text) (request : PolicyRequest) (config : PolicyConfig)
    → ((rule : PolicyRule) × IsFirstMatch cs home request rule config.rules
        × (evaluate_with_config cs home request config ≡ rule_decision cs request rule))
      ⊎ (NoMatch cs home request config.rules
          × (evaluate_with_config cs home request config
              ≡ default_decision request config.default_action))
unfolding evaluate_with_config
evaluate-IsFirstMatch cs home request config = evaluate_rules_cases cs home request config.rules _
