-- ===== src/Sensitivity/Recorded.antt =====
-- oxcer-core/src/data_sensitivity.rs, `run_high_rules` and `run_medium_rules`: every match of every
-- pattern is recorded, or is a header in a block that is.
use oxcer_agent.Prelude.{◌≡◌, refl, List, [], All, inl, inr, arith}
use oxcer_agent.Text.{Text}
use oxcer_agent.Security.{SensitivityLevel, medium, high, SensitivityFinding}
use oxcer_agent.Sensitivity.{
  Pattern, Span, Matcher, run_rules, push_headers, run_high_rules, run_medium_rules,
  rules_to_pem_block, rules_from_ssh_path, medium_rules,
}
use oxcer_agent.Sensitivity.Spans.{Has, Covers, run_rules-All}
use oxcer_agent.Sensitivity.Covered.{
  level_of, AllCovered, AllCovered-keep, run_rules-Has, push_headers-Has, run_rules-AllCovered,
}
use oxcer_agent.Sensitivity.Headers.{IsHigh, push_headers-AllCovered}

abbrev pub recorded : Matcher → Text → List SensitivityFinding
recorded mt input = run_medium_rules mt input (run_high_rules mt input [])

module _ (mt : Matcher) (input : Text) where
  abbrev to_block : List SensitivityFinding
  to_block = run_rules mt high input rules_to_pem_block []

  abbrev headers_too : List SensitivityFinding
  headers_too = push_headers (mt.find_iter Pattern.pem_private_key input) to_block

  to_block-IsHigh : All IsHigh to_block
  to_block-IsHigh =
      run_rules-All mt input high IsHigh (λ k i span found. omega arith) rules_to_pem_block [] tt

  -- What is covered before the last rules is covered in the end.
  module _ (level : SensitivityLevel) (spans : List Span) where
    from_high :
        AllCovered level spans (run_high_rules mt input [])
        → AllCovered level spans (recorded mt input)
    unfolding run_medium_rules
    from_high =
        AllCovered-keep level spans (run_high_rules mt input []) (recorded mt input) (λ span.
          run_rules-Has (Covers level span) mt medium input medium_rules
            (run_high_rules mt input []))

    from_headers : AllCovered level spans headers_too → AllCovered level spans (recorded mt input)
    unfolding run_high_rules
    from_headers covered = from_high (
        AllCovered-keep level spans headers_too (run_high_rules mt input [])
          (λ span. run_rules-Has (Covers level span) mt high input rules_from_ssh_path headers_too)
          covered)

    from_block : AllCovered level spans to_block → AllCovered level spans (recorded mt input)
    from_block covered = from_headers (
        AllCovered-keep level spans to_block headers_too
          (λ span.
            push_headers-Has (Covers level span) (mt.find_iter Pattern.pem_private_key input)
              to_block)
          covered)

  before_block :
      (p : Pattern)
      → Has (λ r. r.pattern ≡ p) rules_to_pem_block
      → AllCovered high (mt.find_iter p input) (recorded mt input)
  before_block p listed =
      from_block high (mt.find_iter p input)
        (run_rules-AllCovered mt input high p rules_to_pem_block [] listed)

  behind_headers :
      (p : Pattern)
      → Has (λ r. r.pattern ≡ p) rules_from_ssh_path
      → AllCovered high (mt.find_iter p input) (recorded mt input)
  unfolding run_high_rules
  behind_headers p listed =
      from_high high (mt.find_iter p input)
        (run_rules-AllCovered mt input high p rules_from_ssh_path headers_too listed)

  among_medium :
      (p : Pattern)
      → Has (λ r. r.pattern ≡ p) medium_rules
      → AllCovered medium (mt.find_iter p input) (recorded mt input)
  unfolding run_medium_rules
  among_medium p listed =
      run_rules-AllCovered mt input medium p medium_rules (run_high_rules mt input []) listed

  -- Every match of every pattern is in the span of a finding of the pattern's level or a higher one.
  pub recorded-AllCovered :
      (p : Pattern) → AllCovered (level_of p) (mt.find_iter p input) (recorded mt input)
  recorded-AllCovered Pattern.aws_access_key = before_block _ (inl refl)
  recorded-AllCovered Pattern.aws_secret_key_like = before_block _ (inr (inl refl))
  recorded-AllCovered Pattern.jwt = before_block _ (inr (inr (inl refl)))
  recorded-AllCovered Pattern.pem_block = before_block _ (inr (inr (inr (inl refl))))
  recorded-AllCovered Pattern.pem_private_key = from_headers high _ (
      push_headers-AllCovered (mt.find_iter Pattern.pem_private_key input) to_block to_block-IsHigh)
  recorded-AllCovered Pattern.ssh_key_path = behind_headers _ (inl refl)
  recorded-AllCovered Pattern.password_equals = behind_headers _ (inr (inl refl))
  recorded-AllCovered Pattern.pass_in_url = behind_headers _ (inr (inr (inl refl)))
  recorded-AllCovered Pattern.env_secret_pass = behind_headers _ (inr (inr (inr (inl refl))))
  recorded-AllCovered Pattern.api_key_secret_val =
      behind_headers _ (inr (inr (inr (inr (inl refl)))))
  recorded-AllCovered Pattern.api_key_prefix =
      behind_headers _ (inr (inr (inr (inr (inr (inl refl))))))
  recorded-AllCovered Pattern.keychain_path = among_medium _ (inl refl)
  recorded-AllCovered Pattern.ip_port = among_medium _ (inr (inl refl))
  recorded-AllCovered Pattern.base64_long = among_medium _ (inr (inr (inl refl)))
  recorded-AllCovered Pattern.auth_bearer = among_medium _ (inr (inr (inr (inl refl))))
