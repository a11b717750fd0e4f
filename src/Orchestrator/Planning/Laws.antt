-- ===== src/Orchestrator/Planning/Laws.antt =====
-- oxcer-core/src/orchestrator/planning.rs: what the plans do, and what they show the model.
use oxcer_agent.Prelude.{
  true, List, [], ◌∷◌, ◌++◌, Option, none, some, ◌≡◌, ◌≢◌, refl, ◌⊎◌, inl, inr, Bool-cases,
}
use oxcer_agent.Text.{Text, Casing, codes, contains, starts_with}
use oxcer_agent.Text.Trim.{contains-append}
use oxcer_agent.Router.{Strategy, tools_only, cheap_model, expensive_model, RouterInput}
use oxcer_agent.Router.Words.{has_implicit_fs_intent, has_implicit_file_read_intent}
use oxcer_agent.Orchestrator.{ToolCallIntent, fs_list_dir, fs_read_file, llm_generate}
use oxcer_agent.Orchestrator.Emit.{fs_result_placeholder}
use oxcer_agent.Orchestrator.Planning.{
  recent_file_plan, folder_plan, file_plan, unnamed_plan, named_file_plan, cheap_plan, plan_for,
}
use oxcer_agent.Orchestrator.Planning.Places.{Place, has_most_recent_file_intent}
use oxcer_agent.Orchestrator.Planning.Build.{
  asked, listing_request, content_request, recent_request, listing_prompt, content_prompt,
  recent_prompt, folder_question, file_question, build_plan_with_llm, build_plan_fs_then_llm,
  build_plan_file_read_then_llm, build_plan_list_read_summarize, ask_for_folder, ask_for_file,
}

-- A prompt that a text is put into.
pub data IsPrompt (s : Text) : Text → Type 0 where
  plain : IsPrompt s s
  listing : IsPrompt s (listing_prompt s)
  content : IsPrompt s (content_prompt s)
  recent : IsPrompt s (recent_prompt s)
  question : IsPrompt s (file_question s)

module _ {V : Type 0} where
  -- Readings, and then one question that has a place for their result.
  abbrev pub IsReading : Text → List (ToolCallIntent V) → Type 0
  IsReading s (llm_generate strategy prompt hint ∷ []) =
      IsPrompt s prompt × (contains prompt fs_result_placeholder ≡ true)
  IsReading s (fs_list_dir id root path ∷ rest) = IsReading s rest
  IsReading s (fs_read_file id root path ∷ rest) = IsReading s rest
  IsReading s _ = ⊥

  -- A plan that asks the model once, at its end, behind nothing or behind readings.
  abbrev pub IsGrounded : Text → Text → List (ToolCallIntent V) → Type 0
  IsGrounded task s (llm_generate strategy prompt hint ∷ []) =
      IsPrompt s prompt ⊎ (prompt ≡ folder_question task)
  IsGrounded task s plan = IsReading s plan

contains-asked :
    (s request : Text)
    → contains request fs_result_placeholder ≡ true
    → contains (asked s request) fs_result_placeholder ≡ true
contains-asked s request found =
    contains-append (codes "The user asked: \"") (s ++ request) fs_result_placeholder
      (contains-append s request fs_result_placeholder found)

-- The prompts that go with a reading have a place for its result.
placeholders :
    (s : Text)
    → (contains (listing_prompt s) fs_result_placeholder ≡ true)
      × (contains (content_prompt s) fs_result_placeholder ≡ true)
      × (contains (recent_prompt s) fs_result_placeholder ≡ true)
unfolding listing_prompt content_prompt recent_prompt listing_request content_request recent_request
    contains starts_with
placeholders s = (
  contains-asked s listing_request refl,
  contains-asked s content_request refl,
  contains-asked s recent_request refl,
)

module _ (V : Type 0) (sanitize : Text → Text) (task : Text) where
  abbrev Grounded : List (ToolCallIntent V) → Type 0
  Grounded plan = IsGrounded task (sanitize task) plan

  recent_file_plan-IsGrounded :
      (place : Option Place) → Grounded (recent_file_plan sanitize task place)
  unfolding recent_file_plan build_plan_list_read_summarize build_plan_with_llm
  recent_file_plan-IsGrounded (some (id, (root, path))) = (recent, (placeholders (sanitize task)).2)
  recent_file_plan-IsGrounded none = inl plain

  folder_plan-IsGrounded : (place : Option Place) → Grounded (folder_plan sanitize task place)
  unfolding folder_plan build_plan_fs_then_llm ask_for_folder
  folder_plan-IsGrounded (some (id, (root, path))) = (listing, (placeholders (sanitize task)).0)
  folder_plan-IsGrounded none = inr refl

  file_plan-IsGrounded :
      (file folder : Option Place) → Grounded (file_plan sanitize task file folder)
  unfolding file_plan build_plan_file_read_then_llm build_plan_fs_then_llm ask_for_file
  file_plan-IsGrounded (some (id, (root, path))) folder =
      (content, (placeholders (sanitize task)).1)
  file_plan-IsGrounded none (some (id, (root, path))) = (listing, (placeholders (sanitize task)).0)
  file_plan-IsGrounded none none = inl question

module _ (V : Type 0) (cs : Casing) (sanitize : Text → Text) (home : Option Text) (task : Text)
    (default_id default_root : Option Text) where
  unnamed_plan-IsGrounded :
      IsGrounded {V = V} task
        (sanitize task)
        (unnamed_plan cs sanitize home task default_id default_root)
  unfolding unnamed_plan build_plan_with_llm
  unnamed_plan-IsGrounded = elim (Bool-cases (has_implicit_fs_intent cs task)) [
    | inl folder ↦ rw folder (folder_plan-IsGrounded V sanitize task _)
    | inr other ↦ rw other (elim (Bool-cases (has_implicit_file_read_intent cs task)) [
      | inl file ↦ rw file (file_plan-IsGrounded V sanitize task _ _)
      | inr chat ↦ rw chat (inl plain)
    ])
  ]

  named_file_plan-IsGrounded :
      (place : Option Place)
      → IsGrounded {V = V} task
          (sanitize task)
          (named_file_plan cs sanitize home task default_id default_root place)
  unfolding named_file_plan build_plan_file_read_then_llm
  named_file_plan-IsGrounded (some (id, (root, path))) = (content, (placeholders (sanitize task)).1)
  named_file_plan-IsGrounded none = unnamed_plan-IsGrounded

  cheap_plan-IsGrounded :
      IsGrounded {V = V} task
        (sanitize task)
        (cheap_plan cs sanitize home task default_id default_root)
  unfolding cheap_plan
  cheap_plan-IsGrounded = elim (Bool-cases (has_most_recent_file_intent cs task)) [
    | inl latest ↦ rw latest (recent_file_plan-IsGrounded V sanitize task _)
    | inr other ↦ rw other (named_file_plan-IsGrounded _)
  ]

-- A plan that is not for the tools alone asks the model once, at its end. Before that it lists folders
-- and reads files at most, and where it does, the prompt has a place for what was read. The model is
-- shown the task behind the sanitizer only, but in the question for the folder.
pub plan_for-IsGrounded :
    (V : Type 0) (cs : Casing) (sanitize : Text → Text) (home : Option Text) (strategy : Strategy)
    (input : RouterInput) (default_id default_root : Option Text)
    → strategy ≢ tools_only
    → IsGrounded {V = V} input.task_description
        (sanitize input.task_description)
        (plan_for cs sanitize home strategy input default_id default_root)
unfolding plan_for build_plan_with_llm
plan_for-IsGrounded V cs sanitize home tools_only input default_id default_root model =
    absurd (model refl)
plan_for-IsGrounded V cs sanitize home cheap_model input default_id default_root model =
    cheap_plan-IsGrounded V cs sanitize home input.task_description default_id default_root
plan_for-IsGrounded V cs sanitize home expensive_model input default_id default_root model =
    inl plain
