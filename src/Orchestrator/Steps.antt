-- ===== src/Orchestrator/Steps.antt =====
-- oxcer-core/src/orchestrator/execution.rs, `next_action`: what the step that is handed to the runner
-- has to do with the planned one.
use oxcer_agent.Prelude.{
  Bool, true, false, not, ◌&&◌, List, [], ◌∷◌, Option, none, some, ◌≡◌, refl, sym, ap, ◌∙◌, inl,
  inr, Bool-cases, is_empty, if◌then◌else◌,
}
use oxcer_agent.Text.{Text, codes, contains, replace}
use oxcer_agent.Text.Laws.{replace-absent}
use oxcer_agent.Orchestrator.{
  ToolCallIntent, fs_list_dir, fs_read_file, fs_write_file, fs_delete, fs_rename, fs_move,
  fs_create_dir, shell_run, llm_generate, SessionState, OrchestratorAction, completed, tool_call,
  awaiting_approval, TaskState,
}
use oxcer_agent.Orchestrator.Apply.{is_task, current}
use oxcer_agent.Orchestrator.Emit.{
  file_contents_placeholder, fs_result_placeholder, most_recent_file_placeholder, has_real_text,
  check_llm_generate_precondition, give_up, emit_intent, finish, guarded, next_step, text_or,
  no_recent_files_message, gathered_contents, capped, fill_contents, fill_result,
}

-- Two refusals in turn, neither of which applies.
two_refusals :
    (a b c d : Bool) (first second : Text)
    → (if a && b then some first else if c && not d then some second else none) ≡ none
    → (a ≡ true → b ≡ false) × (c ≡ true → d ≡ true)
two_refusals true true c d first second h = cc
two_refusals true false true true first second h = (λ e. refl, λ e. refl)
two_refusals true false true false first second h = cc
two_refusals true false false d first second h = (λ e. refl, λ e. cc)
two_refusals false b true true first second h = (λ e. cc, λ e. refl)
two_refusals false b true false first second h = cc
two_refusals false b false d first second h = (λ e. cc, λ e. cc)

-- The first name of a listing, in place of its placeholder.
abbrev pub with_most_recent : List Text → Text → Text
with_most_recent [] path = path
with_most_recent (name ∷ rest) path = replace path most_recent_file_placeholder name

with_most_recent-absent :
    (names : List Text) (path : Text)
    → contains path most_recent_file_placeholder ≡ false
    → with_most_recent names path ≡ path
with_most_recent-absent [] path absent = refl
with_most_recent-absent (name ∷ rest) path absent =
    replace-absent path most_recent_file_placeholder name absent

-- Filling a placeholder in is replacing it: where it is not there, nothing is.
fill_contents-replace :
    (accumulator : List Text) (response : Option Text) (prompt : Text)
    → fill_contents accumulator response prompt
      ≡ replace prompt file_contents_placeholder (gathered_contents accumulator response)
unfolding fill_contents
fill_contents-replace accumulator response prompt =
    elim (Bool-cases (contains prompt file_contents_placeholder)) [
      | inl e ↦ rw e refl
      | inr e ↦ rw e (sym (replace-absent prompt file_contents_placeholder _ e))
    ]

fill_result-replace :
    (response : Option Text) (prompt : Text)
    → fill_result response prompt
      ≡ replace prompt fs_result_placeholder
          (capped (text_or response (codes "(no tool result available)")))
unfolding fill_result
fill_result-replace response prompt = elim (Bool-cases (contains prompt fs_result_placeholder)) [
  | inl e ↦ rw e refl
  | inr e ↦ rw e (sym (replace-absent prompt fs_result_placeholder _ e))
]

module _ {V : Type 0} where
  -- A planned step with the placeholders for what session `s` has read replaced, and nothing else
  -- changed: the path of a reading, and the prompt of a model call.
  abbrev pub filled : SessionState V → ToolCallIntent V → ToolCallIntent V
  filled s (fs_read_file id root path) =
      fs_read_file id root (with_most_recent s.last_dir_listing_sorted path)
  filled s (llm_generate model prompt hint) =
      llm_generate model
        (replace
          (replace prompt file_contents_placeholder
            (gathered_contents s.content_accumulator s.accumulated_response))
          fs_result_placeholder
          (capped (text_or s.accumulated_response (codes "(no tool result available)"))))
        hint
  filled s intent = intent

  -- A planned reading of the most recent file is handed out only where a listing has named one.
  abbrev pub Named : SessionState V → ToolCallIntent V → Type 0
  Named s (fs_read_file id root path) =
      contains path most_recent_file_placeholder ≡ true → is_empty s.last_dir_listing_sorted ≡ false
  Named s _ = Unit

  -- What a prompt's placeholders need before the model may be asked.
  abbrev pub Ready : SessionState V → ToolCallIntent V → Type 0
  Ready s (llm_generate model prompt hint) =
      (contains prompt file_contents_placeholder ≡ true → is_empty s.content_accumulator ≡ false)
      × (contains prompt fs_result_placeholder ≡ true → has_real_text s.accumulated_response ≡ true)
  Ready s _ = Unit

  -- An action that `next_step` may return in session `s`: the end of the session, with its response,
  -- or the planned step with its placeholders filled in, and in a task session only where the prompt
  -- is ready.
  abbrev pub Settled : SessionState V → OrchestratorAction V → Type 0
  Settled s (completed response t) =
      (t.state ≡ TaskState.complete) × (response ≡ text_or t.accumulated_response (codes "Done."))
  Settled s (tool_call emitted t) =
      (t ≡ s)
      × ((planned : ToolCallIntent V) × (current s ≡ some planned)
          × (emitted ≡ filled s planned)
          × Named s planned
          × (is_task s.kind ≡ true → Ready s planned))
  Settled s (awaiting_approval request_id t) = ⊥

  read-Settled :
      (s : SessionState V) (id root path : Text)
      → current s ≡ some (fs_read_file id root path)
      → Settled s (emit_intent s (fs_read_file id root path))
  unfolding emit_intent
  read-Settled s id root path at = elim (Bool-cases (contains path most_recent_file_placeholder)) [
    | inl e ↦ rw e (most_recent_cases s.last_dir_listing_sorted refl)
    | inr e ↦ rw e (
      refl,
      (
        fs_read_file id root path,
        at,
        ap (fs_read_file id root) (sym (with_most_recent-absent s.last_dir_listing_sorted path e)),
        λ named. cc (named, e),
        λ task. tt,
      ),
    )
  ]
    where
      most_recent_cases :
          (names : List Text)
          → s.last_dir_listing_sorted ≡ names
          → Settled s (elim names [
            | [] ↦ give_up no_recent_files_message s
            | name ∷ rest ↦
                tool_call (fs_read_file id root (replace path most_recent_file_placeholder name)) s
          ])
      most_recent_cases [] listed = (refl, refl)
      most_recent_cases (name ∷ rest) listed = (
        refl,
        (
          fs_read_file id root path,
          at,
          ap (λ names. fs_read_file id root (with_most_recent names path)) (sym listed),
          λ named. ap is_empty listed,
          λ task. tt,
        ),
      )

  emit_intent-Settled :
      (s : SessionState V) (planned : ToolCallIntent V)
      → current s ≡ some planned
      → (is_task s.kind ≡ true → Ready s planned)
      → Settled s (emit_intent s planned)
  unfolding emit_intent
  emit_intent-Settled s (fs_read_file id root path) at ready = read-Settled s id root path at
  emit_intent-Settled s (llm_generate model prompt hint) at ready = (
    refl,
    (
      llm_generate model prompt hint,
      at,
      ap (λ p. llm_generate model p hint)
          (fill_result-replace s.accumulated_response
              (fill_contents s.content_accumulator s.accumulated_response prompt)
            ∙ ap
                (λ p.
                  replace p fs_result_placeholder
                    (capped (text_or s.accumulated_response (codes "(no tool result available)"))))
                (fill_contents-replace s.content_accumulator s.accumulated_response prompt)),
      tt,
      ready,
    ),
  )
  emit_intent-Settled s (fs_list_dir id root path) at ready =
      (refl, (fs_list_dir id root path, at, refl, tt, ready))
  emit_intent-Settled s (fs_write_file id root path contents) at ready =
      (refl, (fs_write_file id root path contents, at, refl, tt, ready))
  emit_intent-Settled s (fs_delete id root path) at ready =
      (refl, (fs_delete id root path, at, refl, tt, ready))
  emit_intent-Settled s (fs_rename id root path new) at ready =
      (refl, (fs_rename id root path new, at, refl, tt, ready))
  emit_intent-Settled s (fs_move id root path dest dest_path) at ready =
      (refl, (fs_move id root path dest dest_path, at, refl, tt, ready))
  emit_intent-Settled s (fs_create_dir id root path) at ready =
      (refl, (fs_create_dir id root path, at, refl, tt, ready))
  emit_intent-Settled s (shell_run root command params) at ready =
      (refl, (shell_run root command params, at, refl, tt, ready))

  guarded-Settled :
      (s : SessionState V) (planned : ToolCallIntent V) (refusal : Option Text)
      → current s ≡ some planned
      → (refusal ≡ none → Ready s planned)
      → Settled s (guarded s planned refusal)
  unfolding guarded
  guarded-Settled s planned none at ready = emit_intent-Settled s planned at (λ task. ready refl)
  guarded-Settled s planned (some message) at ready = elim (Bool-cases (is_task s.kind)) [
    | inl task ↦ rw task (refl, refl)
    | inr chat ↦ rw chat (emit_intent-Settled s planned at (λ task. cc))
  ]

  -- Where the precondition finds nothing to refuse, the prompt is ready.
  check_precondition-Ready :
      (s : SessionState V) (planned : ToolCallIntent V)
      → check_llm_generate_precondition s (some planned) ≡ none
      → Ready s planned
  unfolding check_llm_generate_precondition
  check_precondition-Ready s (llm_generate model prompt hint) h =
      two_refusals (contains prompt file_contents_placeholder) (is_empty s.content_accumulator)
        (contains prompt fs_result_placeholder) (has_real_text s.accumulated_response) _ _ h
  check_precondition-Ready s (fs_read_file id root path) h = tt
  check_precondition-Ready s (fs_list_dir id root path) h = tt
  check_precondition-Ready s (fs_write_file id root path contents) h = tt
  check_precondition-Ready s (fs_delete id root path) h = tt
  check_precondition-Ready s (fs_rename id root path new) h = tt
  check_precondition-Ready s (fs_move id root path dest dest_path) h = tt
  check_precondition-Ready s (fs_create_dir id root path) h = tt
  check_precondition-Ready s (shell_run root command params) h = tt

  pub next_step-Settled : (s : SessionState V) → Settled s (next_step s)
  unfolding next_step finish
  next_step-Settled s = current_cases (current s) refl
    where
      current_cases :
          (here : Option (ToolCallIntent V))
          → current s ≡ here
          → Settled s (elim here [
            | none ↦ finish s
            | some intent ↦ guarded s intent (check_llm_generate_precondition s (some intent))
          ])
      current_cases none at = (refl, refl)
      current_cases (some planned) at =
          guarded-Settled s planned _ at (check_precondition-Ready s planned)
