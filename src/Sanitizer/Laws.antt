-- ===== src/Sanitizer/Laws.antt =====
-- oxcer-core/src/prompt_sanitizer.rs: what is sent and what is refused.
use oxcer_agent.Prelude.{
  ℕ, ◌+◌, ◌*◌, ◌<◌, ◌≡◌, refl, sym, ◌∙◌, inl, inr, Bool, true, false, List, [], ◌∷◌, Option, none,
  some, ok, err, All, if◌then◌else◌, Bool-cases, arith,
}
use oxcer_agent.Text.{Text, len}
use oxcer_agent.Security.{SensitivityResult}
use oxcer_agent.Sensitivity.{ClassifierOptions, Matcher}
use oxcer_agent.Sensitivity.Mask.{classify_and_mask}
use oxcer_agent.Sensitivity.Pieces.{Piece, findings_at, finding_at}
use oxcer_agent.Sensitivity.Hides.{IsMasked, classify_and_mask-IsMasked}
use oxcer_agent.Sanitizer.{
  is_never_send_finding, first_never_send, log_never_send_llm_triggered, too_much_redacted,
  scrub_result, scrub_for_llm_call, too_much_sensitive_data, never_send_to_llm, never_send_message,
  too_much_sensitive_data_message,
}

-- No piece is of a kind that may never be sent.
abbrev pub AllSendable : List Piece → Type 0
AllSendable pieces = All (λ p. is_never_send_finding p.kind ≡ false) pieces

first_never_send-AllSendable :
    (n : ℕ) (pieces : List Piece)
    → first_never_send (findings_at n pieces) ≡ none
    → AllSendable pieces
unfolding first_never_send findings_at finding_at
first_never_send-AllSendable n [] h = tt
first_never_send-AllSendable n (p ∷ pieces) h = elim (Bool-cases (is_never_send_finding p.kind)) [
  | inl e ↦ absurd (some_ne_none (rw e at h))
  | inr e ↦ (e, first_never_send-AllSendable (n + len p.kept + len p.hidden) pieces (rw e at h))
]
  where
    some_ne_none : ◌≡◌ {A = Option Text} (some p.kind) none → ⊥
    some_ne_none e = cc

-- What is left of a payload that is not empty is more than half of it.
abbrev pub MostLeft : Text → Text → Type 0
MostLeft raw_payload text = 0 < len raw_payload → len raw_payload < 2 * len text

-- What the pipeline sends.
pub record IsScrubbed (mt : Matcher) (home_dir : Option Text) (raw_payload : Text)
    (options : ClassifierOptions) (text : Text) : Type 0 where
  pub result : SensitivityResult
  pub masked : IsMasked mt home_dir raw_payload options result
  pub sent : text ≡ result.masked_content
  pub sendable : AllSendable masked.pieces
  pub most : MostLeft raw_payload text

too_much_redacted-false :
    (original redacted : ℕ)
    → too_much_redacted original redacted ≡ false
    → 0 < original
    → original < 2 * redacted
too_much_redacted-false original redacted h filled = ground arith

module _ (raw_payload : Text) (r : SensitivityResult) where
  -- A payload is sent if nothing in it may never be sent and most of it is left.
  scrub_result-ok :
      (text : Text)
      → scrub_result raw_payload r ≡ some (ok text)
      → (first_never_send r.findings ≡ none)
        × (too_much_redacted r.original_length r.redacted_length ≡ false)
        × (text ≡ r.masked_content)
  unfolding scrub_result
  scrub_result-ok text =
      cases (first_never_send r.findings) refl (log_never_send_llm_triggered raw_payload)
        (too_much_redacted r.original_length r.redacted_length) refl
    where
      cases :
          (found : Option Text)
          → first_never_send r.findings ≡ found
          → (logged : Option Text) (much : Bool)
          → too_much_redacted r.original_length r.redacted_length ≡ much
          → elim found [
            | some kind ↦ elim logged [
              | none ↦ none
              | some preview ↦ some (err (never_send_to_llm never_send_message kind))
            ]
            | none ↦
                if much
                then some (err (too_much_sensitive_data too_much_sensitive_data_message))
                else some (ok r.masked_content)
          ]
            ≡ some (ok text)
          → (first_never_send r.findings ≡ none)
            × (too_much_redacted r.original_length r.redacted_length ≡ false)
            × (text ≡ r.masked_content)
      cases (some kind) e none much e' h = cc
      cases (some kind) e (some preview) much e' h = cc
      cases none e logged true e' h = cc
      cases none e logged false e' h = (e, e', cc)

module _ (mt : Matcher) (home_dir : Option Text) (raw_payload : Text)
    (options : ClassifierOptions) where
  pub scrub_for_llm_call-scrub_result :
      (r : SensitivityResult)
      → classify_and_mask mt home_dir raw_payload options ≡ some r
      → scrub_for_llm_call mt home_dir raw_payload options ≡ scrub_result raw_payload r
  unfolding scrub_for_llm_call
  scrub_for_llm_call-scrub_result r e = rw (e, scrub_for_llm_call) refl

  -- What is sent to a model is the masked payload, of which more than half is left; every match of
  -- every pattern is in a stretch that is hidden, and no stretch is of a kind that may never be sent.
  pub scrub_for_llm_call-IsScrubbed :
      (text : Text)
      → scrub_for_llm_call mt home_dir raw_payload options ≡ some (ok text)
      → IsScrubbed mt home_dir raw_payload options text
  scrub_for_llm_call-IsScrubbed text sent =
      let (r, classified, masked) = classify_and_mask-IsMasked mt home_dir raw_payload options in
      let (none_refused, left, same) =
        scrub_result-ok raw_payload r text
          (sym (scrub_for_llm_call-scrub_result r classified) ∙ sent) in
      record {
        result = r;
        masked = masked;
        sent = same;
        sendable = first_never_send-AllSendable 0 masked.pieces (rw masked.spans at none_refused);
        most = λ filled.
            too_much_redacted-false (len raw_payload) (len text)
              (rw (masked.original, masked.redacted, sym same) at left) filled;
      }
