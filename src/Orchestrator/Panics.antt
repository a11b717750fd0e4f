-- ===== src/Orchestrator/Panics.antt =====
-- oxcer-core/src/orchestrator/types.rs, `build_tool_trace`: when a step of the session panics.
use mathlib.Core.Option
use mathlib.Core.Option.{some-injective}
use mathlib.Core.Path.{subst}
use oxcer_agent.Prelude.{
  ◌<◌, Bool, true, false, Option, none, some, ◌≡◌, refl, sym, ◌∙◌, ◌↔◌, ltb, ltb→lt, lt→ltb,
  if◌then◌else◌, ◌++◌, push,
}
use oxcer_agent.Text.{Text, Casing, codes, len, slice_to}
use oxcer_agent.Orchestrator.{Json, ToolCallIntent, StepResult, SessionState}
use oxcer_agent.Orchestrator.Trace.{shortened, text_of, summary_of, build_tool_trace}
use oxcer_agent.Orchestrator.Apply.{current, record_trace}
use oxcer_agent.Orchestrator.NextAction.{next_action}

-- A serialisation of more than 200 bytes that has a character across the byte 200.
abbrev pub Splits : Text → Type 0
Splits printed = (200 < len printed) × (slice_to 200 printed ≡ none)

-- A payload whose summary cannot be taken.
abbrev pub Unprintable : {V : Type 0} → Json V → V → Type 0
Unprintable js payload =
    (text_of js payload ≡ none)
    × ((printed : Text) × (js.to_string payload ≡ some printed) × Splits printed)

map-none : {A B : Type 0} (f : A → B) (o : Option A) → (Option.map f o ≡ none) ↔ (o ≡ none)
map-none f none = (λ h. refl, λ h. refl)
map-none f (some a) = (λ h. cc, λ h. cc)

pub shortened-none : (s : Text) → (shortened s ≡ none) ↔ Splits s
unfolding shortened
shortened-none s = long_cases (ltb 200 (len s)) refl
  where
    long_cases :
        (long : Bool)
        → ltb 200 (len s) ≡ long
        → ((if long then Option.map (λ start. start ++ codes "...") (slice_to 200 s) else some s)
            ≡ none)
          ↔ Splits s
    long_cases true e =
        let (to, from) = map-none (λ start. start ++ codes "...") (slice_to 200 s) in
        (λ h. (ltb→lt 200 (len s) e, to h), λ (long, split). from split)
    long_cases false e = (λ h. cc, λ (long, split). cc (e, lt→ltb 200 (len s) long))

module _ {V : Type 0} where
  summary_of-none :
      (js : Json V) (payload : V) → (summary_of js payload ≡ none) ↔ Unprintable js payload
  unfolding summary_of
  summary_of-none js payload = text_cases (text_of js payload) refl (js.to_string payload) refl
    where
      text_cases :
          (text : Option Text)
          → text_of js payload ≡ text
          → (printed : Option Text) → js.to_string payload ≡ printed
          → (elim text [
            | some t ↦ some (some t)
            | none ↦ elim printed [ none ↦ some none | some s ↦ Option.map some (shortened s) ]
          ]
              ≡ none)
            ↔ Unprintable js payload
      text_cases (some t) e printed e' = (λ h. cc, λ (no_text, rest). cc)
      text_cases none e none e' = (λ h. cc, λ (no_text, (printed, at, split)). cc)
      text_cases none e (some s) e' =
          let (to, from) = map-none some (shortened s) in
          let (splits, joins) = shortened-none s in
          (
            λ h. (e, (s, e', splits (to h))),
            λ (no_text, (printed, at, split)).
                from (joins (subst Splits (some-injective _ _ (sym at ∙ e')) split)),
          )

  -- When a call of `next_action` panics: a step of the plan succeeded with an unprintable payload.
  abbrev pub Panics : Json V → SessionState V → StepResult V → Type 0
  Panics js s (StepResult.ok payload) =
      ((intent : ToolCallIntent V) × (current s ≡ some intent)) × Unprintable js payload
  Panics js s _ = ⊥

  record_trace-none :
      (js : Json V) (s : SessionState V) (result : StepResult V)
      → (record_trace js result s ≡ none) ↔ Panics js s result
  unfolding record_trace build_tool_trace
  record_trace-none js s result = result_cases result (current s) refl
    where
      built :
          (payload : V) (intent : ToolCallIntent V)
          → (build_tool_trace js intent (StepResult.ok payload) ≡ none) ↔ Unprintable js payload
      built payload intent =
          let (to, from) = map-none _ (summary_of js payload) in
          let (unprintable, none_of) = summary_of-none js payload in
          (λ h. unprintable (to h), λ bad. from (none_of bad))

      result_cases :
          (result : StepResult V) (here : Option (ToolCallIntent V))
          → current s ≡ here
          → (elim here [
            | none ↦ some s
            | some intent ↦
                Option.map
                  (λ trace. record s { tool_traces = push s.tool_traces trace })
                  (build_tool_trace js intent result)
          ]
              ≡ none)
            ↔ Panics js s result
      result_cases (StepResult.ok payload) none at = (λ h. cc, λ ((intent, at'), bad). cc)
      result_cases (StepResult.ok payload) (some intent) at =
          let (to, from) = map-none _ (build_tool_trace js intent (StepResult.ok payload)) in
          let (unprintable, none_of) = built payload intent in
          (λ h. ((intent, at), unprintable (to h)), λ (here, bad). from (none_of bad))
      result_cases (StepResult.err message) none at = (λ h. cc, λ bad. absurd bad)
      result_cases (StepResult.err message) (some intent) at = (λ h. cc, λ bad. absurd bad)
      result_cases (StepResult.approval_pending id) none at = (λ h. cc, λ bad. absurd bad)
      result_cases (StepResult.approval_pending id) (some intent) at = (λ h. cc, λ bad. absurd bad)

  -- `next_action` panics exactly on the successful result of a planned step whose payload has no
  -- text, and whose serialisation is longer than 200 bytes and has a character across the byte 200.
  pub next_action-Panics :
      (cs : Casing) (js : Json V) (s : SessionState V) (result : StepResult V)
      → (next_action cs js s (some result) ≡ none) ↔ Panics js s result
  unfolding next_action
  next_action-Panics cs js s (StepResult.ok payload) =
      let (to, from) = map-none _ (record_trace js (StepResult.ok payload) s) in
      let (panics, none_of) = record_trace-none js s (StepResult.ok payload) in
      (λ h. panics (to h), λ bad. from (none_of bad))
  next_action-Panics cs js s (StepResult.err message) =
      let (to, from) = map-none _ (record_trace js (StepResult.err message) s) in
      let (panics, none_of) = record_trace-none js s (StepResult.err message) in
      (λ h. panics (to h), λ bad. absurd bad)
  next_action-Panics cs js s (StepResult.approval_pending id) = (λ h. cc, λ bad. absurd bad)
