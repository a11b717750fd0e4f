-- ===== src/Sanitizer/Audit.antt =====
-- oxcer-core/src/prompt_sanitizer.rs, `scrub_for_llm_call_audit` beside `scrub_for_llm_call`, and when
-- they panic.
use oxcer_agent.Prelude.{
  ℕ, ◌≡◌, refl, sym, ◌↔◌, Option, none, some, Result, ok, err, if◌then◌else◌, Option-cases,
  Bool-cases, inl, inr,
}
use oxcer_agent.Text.{Text, len}
use oxcer_agent.Security.{SensitivityResult}
use oxcer_agent.Orchestrator.Panics.{Splits, shortened-none}
use oxcer_agent.Orchestrator.Trace.{shortened}
use oxcer_agent.Sensitivity.{ClassifierOptions, Matcher}
use oxcer_agent.Sensitivity.Mask.{classify_and_mask, found_in}
use oxcer_agent.Sensitivity.Hides.{classify_and_mask-IsMasked}
use oxcer_agent.Sanitizer.{
  ScrubbingDecision, scrubbed_and_sent, scrubbed_and_blocked, blocked_by_hard_rule,
  ScrubbingLogEntry, ScrubbingError, too_much_sensitive_data, never_send_to_llm, never_send_message,
  too_much_sensitive_data_message, first_never_send, log_never_send_llm_triggered,
  too_much_redacted, scrub_result, scrub_for_llm_call, entry_of, scrub_for_llm_call_audit,
}
use oxcer_agent.Sanitizer.Laws.{scrub_for_llm_call-scrub_result}

-- The decision that belongs to an outcome.
abbrev pub scrubbing_decision : Result Text ScrubbingError → ScrubbingDecision
scrubbing_decision (ok text) = scrubbed_and_sent
scrubbing_decision (err (too_much_sensitive_data message)) = scrubbed_and_blocked
scrubbing_decision (err (never_send_to_llm message kind)) = blocked_by_hard_rule

-- The same outcome, with an entry that says what was scrubbing_decision and how long the payload was.
abbrev pub Agrees :
    ℕ
    → Option (Result Text ScrubbingError)
    → Option (Result Text ScrubbingError × ScrubbingLogEntry)
    → Type 0
Agrees n none none = Unit
Agrees n (some result) (some (result', entry)) =
    (result ≡ result') × (entry.decision ≡ scrubbing_decision result) × (entry.original_length ≡ n)
Agrees n _ _ = ⊥

module _ (mt : Matcher) (home_dir : Option Text) (timestamp session_id raw_payload : Text)
    (options : ClassifierOptions) where
  audited : SensitivityResult → Option (Result Text ScrubbingError × ScrubbingLogEntry)
  unfolding first_never_send log_never_send_llm_triggered
  audited r = elim (first_never_send r.findings) [
    | some kind ↦ elim (log_never_send_llm_triggered raw_payload) [
      | none ↦ none
      | some preview ↦ some (
        err (never_send_to_llm never_send_message kind),
        entry_of timestamp session_id r blocked_by_hard_rule,
      )
    ]
    | none ↦
        if too_much_redacted r.original_length r.redacted_length
        then some (
          err (too_much_sensitive_data too_much_sensitive_data_message),
          entry_of timestamp session_id r scrubbed_and_blocked,
        )
        else some (ok r.masked_content, entry_of timestamp session_id r scrubbed_and_sent)
  ]

  scrub_for_llm_call_audit-audited :
      (r : SensitivityResult)
      → classify_and_mask mt home_dir raw_payload options ≡ some r
      → scrub_for_llm_call_audit mt home_dir timestamp raw_payload options session_id ≡ audited r
  unfolding scrub_for_llm_call_audit audited
  scrub_for_llm_call_audit-audited r e = rw (e, scrub_for_llm_call_audit) refl

  audited-Agrees :
      (r : SensitivityResult) → Agrees r.original_length (scrub_result raw_payload r) (audited r)
  unfolding scrub_result audited
  audited-Agrees r = elim (Option-cases (first_never_send r.findings)) [
    | inl e ↦ elim (Bool-cases (too_much_redacted r.original_length r.redacted_length)) [
      | inl much ↦ rw (e, much, Agrees, scrub_result, audited) (refl, refl, refl)
      | inr much ↦ rw (e, much, Agrees, scrub_result, audited) (refl, refl, refl)
    ]
    | inr (kind, e) ↦ elim (Option-cases (log_never_send_llm_triggered raw_payload)) [
      | inl logged ↦ rw (e, logged, Agrees, scrub_result, audited) tt
      | inr (preview, logged) ↦ rw (e, logged, Agrees, scrub_result, audited) (refl, refl, refl)
    ]
  ]

  -- The audited call has the outcome of the plain one, and panics when it does; its entry has the
  -- decision that belongs to the outcome, and the length of the payload.
  pub scrub_for_llm_call_audit-Agrees :
      Agrees
        (len raw_payload)
        (scrub_for_llm_call mt home_dir raw_payload options)
        (scrub_for_llm_call_audit mt home_dir timestamp raw_payload options session_id)
  scrub_for_llm_call_audit-Agrees =
      let (r, classified, masked) = classify_and_mask-IsMasked mt home_dir raw_payload options in
      rw
        (
          scrub_for_llm_call-scrub_result mt home_dir raw_payload options r classified,
          scrub_for_llm_call_audit-audited r classified,
          sym masked.original,
        )
        (audited-Agrees r)

-- A text whose preview cannot be taken.
log_never_send_llm_triggered-none :
    (context : Text) → (log_never_send_llm_triggered context ≡ none) ↔ Splits context
unfolding log_never_send_llm_triggered shortened
log_never_send_llm_triggered-none context = shortened-none context

-- Something that may never be sent was found.
abbrev pub Refuses : Matcher → Text → Type 0
Refuses mt raw_payload = (kind : Text) × (first_never_send (found_in mt raw_payload) ≡ some kind)

module _ (raw_payload : Text) (r : SensitivityResult) where
  scrub_result-none :
      (scrub_result raw_payload r ≡ none)
      ↔ (((kind : Text) × (first_never_send r.findings ≡ some kind)) × Splits raw_payload)
  unfolding scrub_result
  scrub_result-none = elim (Option-cases (first_never_send r.findings)) [
    | inl e ↦ elim (Bool-cases (too_much_redacted r.original_length r.redacted_length)) [
      | inl much ↦ (λ h. cc (rw (e, much, scrub_result) at h), λ ((kind, e'), split). cc)
      | inr much ↦ (λ h. cc (rw (e, much, scrub_result) at h), λ ((kind, e'), split). cc)
    ]
    | inr (kind, e) ↦ elim (Option-cases (log_never_send_llm_triggered raw_payload)) [
      | inl logged ↦ (
        λ h. ((kind, e), (log_never_send_llm_triggered-none raw_payload).0 logged),
        λ h. rw (e, logged, scrub_result) refl,
      )
      | inr (preview, logged) ↦ (
        λ h. cc (rw (e, logged, scrub_result) at h),
        λ (found, split). cc (logged, (log_never_send_llm_triggered-none raw_payload).1 split),
      )
    ]
  ]

-- A call panics exactly where something that may never be sent was found in a payload of more than
-- 200 bytes that has a character across the byte 200: the refusal is written to the log with a
-- preview, and the preview cuts the payload there.
pub scrub_for_llm_call-none :
    (mt : Matcher) (home_dir : Option Text) (raw_payload : Text) (options : ClassifierOptions)
    → (scrub_for_llm_call mt home_dir raw_payload options ≡ none)
      ↔ (Refuses mt raw_payload × Splits raw_payload)
scrub_for_llm_call-none mt home_dir raw_payload options =
    let (r, classified, masked) = classify_and_mask-IsMasked mt home_dir raw_payload options in
    rw
      (
        scrub_for_llm_call-scrub_result mt home_dir raw_payload options r classified,
        sym masked.found,
      )
      (scrub_result-none raw_payload r)
