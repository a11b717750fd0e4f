-- ===== src/Orchestrator/Apply.antt =====
-- oxcer-core/src/orchestrator/execution.rs, `next_action`: how the result of a step is applied to the
-- session.
use mathlib.Core.Option
use oxcer_agent.Prelude.{
  ◌+◌, ◌-◌, Bool, true, false, ◌&&◌, List, [], ◌∷◌, ◌++◌, Option, none, some, any, get_elem?, push,
  if◌then◌else◌,
}
use oxcer_agent.Text.{Text, Casing, codes, contains}
use oxcer_agent.Orchestrator.{
  Json, ToolCallIntent, fs_list_dir, fs_read_file, StepResult, ExpansionKind, TaskState,
  SessionKind, chat, SessionState, is_llm_generate,
}
use oxcer_agent.Orchestrator.Expansion.{do_expand_plan}
use oxcer_agent.Orchestrator.Trace.{text_of, build_tool_trace}

abbrev pub narration_patterns : List Text
narration_patterns =
    codes "fs_list_dir"
    ∷ codes "fs_read_file"
    ∷ codes "fs_write_file"
    ∷ codes "i'll use "
    ∷ codes "i will use "
    ∷ codes "i will now call "
    ∷ codes "first, i'll "
    ∷ codes "next, i'll "
    ∷ codes "now, i'll "
    ∷ []

unfoldable pub narration_message : Text
narration_message =
    codes
      "The model tried to describe internal tool calls instead of summarizing the provided document contents. Please retry or adjust the prompt."

unfoldable pub is_narration : Casing → Text → Bool
unfolding contains
is_narration cs raw = any (λ pattern. contains (cs.to_lowercase raw) pattern) narration_patterns

abbrev pub is_task : SessionKind → Bool
is_task chat = false
is_task _ = true

-- What `next_action` does after a result is applied: it goes on, or it has returned.
pub data Applied (V : Type 0) : Type 0 where
  go_on : SessionState V → Applied V
  stop : (response : Text) (session : SessionState V) → Applied V

module _ {V : Type 0} where
  -- The planned step that the session is at.
  abbrev pub current : SessionState V → Option (ToolCallIntent V)
  current s = get_elem? s.plan s.step_index

  abbrev pub is_listing : Option (ToolCallIntent V) → Bool
  is_listing (some (fs_list_dir id root path)) = true
  is_listing _ = false

  abbrev pub is_reading : Option (ToolCallIntent V) → Bool
  is_reading (some (fs_read_file id root path)) = true
  is_reading _ = false

  abbrev pub is_generating : Option (ToolCallIntent V) → Bool
  is_generating none = false
  is_generating (some intent) = is_llm_generate intent

  -- `confirmed_root` is recorded from the first successful listing or reading.
  unfoldable pub root_of : Option (ToolCallIntent V) → Option Text
  root_of (some (fs_list_dir id root path)) = some root
  root_of (some (fs_read_file id root path)) = some root
  root_of _ = none

  unfoldable pub confirm_root : SessionState V → SessionState V
  unfolding root_of
  confirm_root s = record s {
    confirmed_root = elim s.confirmed_root [ some root ↦ some root | none ↦ root_of (current s) ];
  }

  -- `filter_map(|v| v.as_str().map(String::from))`.
  unfoldable pub strings : Json V → List V → List Text
  strings js [] = []
  strings js (v ∷ vs) =
      let rest = strings js vs in elim (js.as_str v) [ none ↦ rest | some t ↦ t ∷ rest ]

  -- The array under "sortedByModified", if there is one.
  unfoldable pub sorted_names : Json V → V → Option (List Text)
  unfolding strings
  sorted_names js payload = elim (js.get payload (codes "sortedByModified")) [
    | none ↦ none
    | some v ↦ elim (js.as_array v) [ none ↦ none | some vs ↦ some (strings js vs) ]
  ]

  unfoldable pub capture_listing : Json V → V → SessionState V → SessionState V
  unfolding sorted_names
  capture_listing js payload s = record s {
    last_dir_listing_sorted = elim (sorted_names js payload) [
      | none ↦ s.last_dir_listing_sorted
      | some names ↦ names
    ];
  }

  unfoldable pub accumulate_content : Json V → V → SessionState V → SessionState V
  unfolding text_of
  accumulate_content js payload s = record s {
    content_accumulator =
        if is_reading (current s)
        then elim (text_of js payload) [
          | none ↦ s.content_accumulator
          | some t ↦ push s.content_accumulator t
        ]
        else s.content_accumulator;
  }

  -- A text of a tool or of the model: it becomes the accumulated response, or the sanitizer refuses
  -- it and the session ends.
  unfoldable pub store_text : (refused : Bool) → Text → SessionState V → Applied V
  store_text true t s = stop narration_message (record s {
    state = TaskState.complete;
    accumulated_response = some narration_message;
    intermediate_observations =
        push s.intermediate_observations
          (codes "LlmGenerate sanitizer blocked narration: " ++ narration_message);
  })
  store_text false t s = go_on (record s { accumulated_response = some t })

  -- A payload without a text becomes the accumulated response in its serialisation.
  unfoldable pub store_printed : Option Text → SessionState V → Applied V
  store_printed none s = go_on s
  store_printed (some t) s = go_on (record s { accumulated_response = some t })

  unfoldable pub store_response : Casing → Json V → V → SessionState V → Applied V
  unfolding text_of is_narration store_text store_printed
  store_response cs js payload s = elim (text_of js payload) [
    | some t ↦ store_text (is_task s.kind && is_generating (current s) && is_narration cs t) t s
    | none ↦ store_printed (js.to_string payload) s
  ]

  -- One step further; the index is a `usize`, and a plan never comes near its bound.
  unfoldable pub advance : Applied V → Applied V
  advance (go_on s) = go_on (record s { step_index = s.step_index + 1 })
  advance (stop response s) = stop response s

  -- The arm for a successful result.
  unfoldable pub apply_ok : Casing → Json V → V → SessionState V → Applied V
  unfolding advance
  apply_ok cs js payload s = advance (
      store_response cs js payload
        (accumulate_content js payload (capture_listing js payload (confirm_root s))))

  -- The expansion of the plan, once, behind a completed listing.
  unfoldable pub expand : Casing → (listed : Bool) → ExpansionKind → SessionState V → SessionState V
  unfolding do_expand_plan
  expand cs true expansion s = do_expand_plan cs (record s { pending_expansion = none }) expansion
  expand cs false expansion s = s

  unfoldable pub trigger_expansion : Casing → SessionState V → SessionState V
  unfolding expand
  trigger_expansion cs s = elim s.pending_expansion [
    | none ↦ s
    | some expansion ↦ expand cs (is_listing (get_elem? s.plan (s.step_index - 1))) expansion s
  ]

  -- The trace of the step that the session is at; `none` is a panic.
  unfoldable pub record_trace : Json V → StepResult V → SessionState V → Option (SessionState V)
  unfolding build_tool_trace
  record_trace js result s = elim (current s) [
    | none ↦ some s
    | some intent ↦
        Option.map (λ trace. record s { tool_traces = push s.tool_traces trace })
          (build_tool_trace js intent result)
  ]
