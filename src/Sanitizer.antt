-- ===== src/Sanitizer.antt =====
-- oxcer-core/src/prompt_sanitizer.rs: what is sent to a model of a payload. A panic is the result
-- `none`.
pub mod Secrets
pub mod Payload
pub mod Laws
pub mod Audit
pub mod Blanked
mod Tests
use mathlib.Core.Option
use oxcer_agent.Prelude.{
  ℕ, ◌*◌, Bool, true, false, ◌&&◌, ◌||◌, List, [], ◌∷◌, ◌++◌, Option, none, some, Result, ok, err,
  map, any, ltb, leb, ◌==◌, if◌then◌else◌,
}
use oxcer_agent.Text.{
  Text, Casing, codes, text_eq, len, slice_to, contains, starts_with, ends_with, split_once,
}
use oxcer_agent.Security.{
  SensitivityLevel, low, medium, high, SensitivityFinding, SensitivityResult,
}
use oxcer_agent.Sensitivity.{ClassifierOptions, Matcher}
use oxcer_agent.Sensitivity.Mask.{classify_and_mask, classify_and_mask_default}

unfoldable pub sanitize_text_with_options :
    Matcher → Option Text → Text → ClassifierOptions → Option Text
unfolding classify_and_mask
sanitize_text_with_options mt home_dir text options =
    elim (classify_and_mask mt home_dir text options) [
      | none ↦ none
      | some r ↦ some r.masked_content
    ]

unfoldable pub sanitize_text : Matcher → Option Text → Text → Option Text
unfolding classify_and_mask_default
sanitize_text mt home_dir text = elim (classify_and_mask_default mt home_dir text) [
  | none ↦ none
  | some r ↦ some r.masked_content
]

pub data ScrubbingDecision : Type 0 where
  scrubbed_and_sent scrubbed_and_blocked blocked_by_hard_rule : ScrubbingDecision

pub record ScrubbingLogEntry : Type 0 where
  pub timestamp : Text
  pub session_id : Text
  pub original_length : ℕ
  pub redacted_length : ℕ
  pub max_sensitivity_level : Text
  pub matched_kinds : List Text
  pub decision : ScrubbingDecision

pub data ScrubbingError : Type 0 where
  too_much_sensitive_data : (message : Text) → ScrubbingError
  never_send_to_llm : (message finding_kind : Text) → ScrubbingError

abbrev pub too_much_sensitive_data_message : Text
too_much_sensitive_data_message =
    codes
      "Context contains too much sensitive data; LLM call skipped. Try tools-only or manually inspect."

abbrev pub never_send_message : Text
never_send_message =
    codes
      "Content contains credentials or private keys; LLM call aborted. Remove sensitive data or use tools-only."

abbrev pub never_send_finding_kinds : List Text
never_send_finding_kinds =
    codes "ssh_private_key"
    ∷ codes "pem_private_key_header"
    ∷ codes "ssh_private_key_path"
    ∷ codes "aws_access_key_id"
    ∷ codes "aws_credentials"
    ∷ codes "jwt_or_oauth_token"
    ∷ codes "password_in_env"
    ∷ codes "password_in_url"
    ∷ codes "secret_or_password_env"
    ∷ codes "api_key"
    ∷ []

unfoldable pub is_never_send_finding : Text → Bool
unfolding text_eq
is_never_send_finding kind = any (text_eq kind) never_send_finding_kinds

-- The loop that looks for the first finding that may never be sent.
unfoldable pub first_never_send : List SensitivityFinding → Option Text
unfolding is_never_send_finding
first_never_send [] = none
first_never_send (f ∷ findings) =
    let later = first_never_send findings in
    if is_never_send_finding f.kind then some f.kind else later

-- The preview of the context that is written to the log.
unfoldable pub log_never_send_llm_triggered : Text → Option Text
unfolding len slice_to
log_never_send_llm_triggered context =
    if ltb 200 (len context)
    then Option.map (λ start. start ++ codes "...") (slice_to 200 context)
    else some context

-- `redacted as f64 / original as f64 <= 0.5`, which is exact for lengths below 2 ^ 53.
abbrev pub too_much_redacted : ℕ → ℕ → Bool
too_much_redacted original redacted = ltb 0 original && leb (2 * redacted) original

unfoldable pub scrub_result : Text → SensitivityResult → Option (Result Text ScrubbingError)
unfolding first_never_send log_never_send_llm_triggered
scrub_result raw_payload r = elim (first_never_send r.findings) [
  | some kind ↦ elim (log_never_send_llm_triggered raw_payload) [
    | none ↦ none
    | some preview ↦ some (err (never_send_to_llm never_send_message kind))
  ]
  | none ↦
      if too_much_redacted r.original_length r.redacted_length
      then some (err (too_much_sensitive_data too_much_sensitive_data_message))
      else some (ok r.masked_content)
]

unfoldable pub scrub_for_llm_call :
    Matcher → Option Text → Text → ClassifierOptions → Option (Result Text ScrubbingError)
unfolding classify_and_mask scrub_result
scrub_for_llm_call mt home_dir raw_payload options =
    elim (classify_and_mask mt home_dir raw_payload options) [
      | none ↦ none
      | some r ↦ scrub_result raw_payload r
    ]

abbrev pub sensitivity_level_to_string : SensitivityLevel → Text
sensitivity_level_to_string low = codes "low"
sensitivity_level_to_string medium = codes "medium"
sensitivity_level_to_string high = codes "high"

abbrev pub entry_of : Text → Text → SensitivityResult → ScrubbingDecision → ScrubbingLogEntry
entry_of timestamp session_id r decision = record {
  timestamp = timestamp;
  session_id = session_id;
  original_length = r.original_length;
  redacted_length = r.redacted_length;
  max_sensitivity_level = sensitivity_level_to_string r.level;
  matched_kinds = map (λ f. f.kind) r.findings;
  decision = decision;
}

-- The clock's `Utc::now().to_rfc3339()` is the timestamp.
unfoldable pub scrub_for_llm_call_audit :
    Matcher
    → Option Text
    → (timestamp : Text) → Text
    → ClassifierOptions
    → Text
    → Option (Result Text ScrubbingError × ScrubbingLogEntry)
unfolding classify_and_mask first_never_send log_never_send_llm_triggered
scrub_for_llm_call_audit mt home_dir timestamp raw_payload options session_id =
    elim (classify_and_mask mt home_dir raw_payload options) [
      | none ↦ none
      | some r ↦ elim (first_never_send r.findings) [
        | some kind ↦ elim (log_never_send_llm_triggered raw_payload) [
          | none ↦ none
          | some preview ↦ some (
            err (never_send_to_llm never_send_message kind),
            entry_of timestamp session_id r blocked_by_hard_rule,
          )
        ]
        | none ↦
            if too_much_redacted r.original_length r.redacted_length
            then some (
              err (too_much_sensitive_data too_much_sensitive_data_message),
              entry_of timestamp session_id r scrubbed_and_blocked,
            )
            else some (ok r.masked_content, entry_of timestamp session_id r scrubbed_and_sent)
      ]
    ]
