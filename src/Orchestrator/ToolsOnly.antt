-- ===== src/Orchestrator/ToolsOnly.antt =====
-- oxcer-core/src/orchestrator/planning.rs, `build_plan_tools_only`: the plan of a task that is given to
-- the tools alone, without a model.
use mathlib.Core.List.{Memᴰ}
use oxcer_agent.Prelude.{
  Bool, true, false, ◌&&◌, ◌||◌, List, [], ◌∷◌, ◌++◌, Option, none, some, ◌≡◌, refl, is_empty, ◌==◌,
  if◌then◌else◌,
}
use oxcer_agent.Text.{
  Text, Casing, codes, text_eq, contains, starts_with, strip_prefix, trim, behind, in_front,
  trim_matches, first_word,
}
use oxcer_agent.Router.{TaskContext}
use oxcer_agent.Orchestrator.{ToolCallIntent, fs_list_dir, fs_delete}

abbrev pub delete_prefixes : List Text
delete_prefixes = codes "delete " ∷ codes "remove " ∷ codes "rm " ∷ []

abbrev or_else : Option Text → Option Text → Option Text
or_else none other = other
or_else (some t) other = some t

abbrev pub unwrap_or : Option Text → Text → Text
unwrap_or none d = d
unwrap_or (some t) d = t

unfoldable pub wants_listing : Text → Bool
unfolding contains trim text_eq
wants_listing task_lower =
    contains task_lower (codes "list files")
    || contains task_lower (codes "list dir")
    || contains task_lower (codes "list the files")
    || (contains task_lower (codes "list")
        && (contains task_lower (codes "file") || contains task_lower (codes "dir")))
    || text_eq (trim task_lower) (codes "ls")

-- `task_lower.split(prefix).nth(1)`.
unfoldable pub second_piece : Text → Text → Option Text
unfolding behind in_front
second_piece prefix s = elim (behind prefix s) [
  | none ↦ none
  | some rest ↦ some (in_front prefix rest)
]

-- The word behind the prefix, without quotes.
unfoldable pub deleted_path : Text → Text → Text
unfolding strip_prefix second_piece trim first_word trim_matches
deleted_path prefix task_lower =
    trim_matches (λ c. c == 34 || c == 39)
      (first_word (
        trim (
          unwrap_or (or_else (strip_prefix prefix task_lower) (second_piece prefix task_lower))
            [])))

unfoldable pub names_prefix : Text → Text → Bool
unfolding starts_with contains trim
names_prefix prefix task_lower =
    starts_with task_lower prefix || contains task_lower (codes " " ++ (trim prefix ++ codes " "))

module _ {V : Type 0} where
  -- The loop over the prefixes.
  unfoldable pub delete_step : Text → Text → Text → List Text → List (ToolCallIntent V)
  unfolding names_prefix deleted_path
  delete_step id root task_lower [] = []
  delete_step id root task_lower (prefix ∷ rest) =
      let later = delete_step id root task_lower rest in
      let path = deleted_path prefix task_lower in
      if names_prefix prefix task_lower
      then (if is_empty path then later else fs_delete id root path ∷ [])
      else later

  unfoldable pub build_plan_tools_only :
      Casing → Text → TaskContext → Option Text → Option Text → List (ToolCallIntent V)
  unfolding wants_listing delete_step
  build_plan_tools_only cs task context default_id default_root =
      let task_lower = cs.to_lowercase task in
      let id = unwrap_or (or_else context.workspace_id default_id) [] in
      let root = unwrap_or default_root [] in
      if is_empty root
      then []
      else if wants_listing task_lower
      then fs_list_dir id root (codes ".") ∷ []
      else delete_step id root task_lower delete_prefixes

  -- A plan that acts once, in the workspace: it lists its root, or deletes the path that the task
  -- names, in lower case.
  abbrev pub ActsOnce : Casing → Text → Text → List (ToolCallIntent V) → Type 0
  ActsOnce cs task root [] = Unit
  ActsOnce cs task root (fs_list_dir id r path ∷ []) =
      (is_empty root ≡ false) × (r ≡ root) × (path ≡ codes ".")
  ActsOnce cs task root (fs_delete id r path ∷ []) =
      (is_empty root ≡ false)
      × (r ≡ root)
      × (is_empty path ≡ false)
      × ((prefix : Text) × Memᴰ prefix delete_prefixes
          × (names_prefix prefix (cs.to_lowercase task) ≡ true)
          × (path ≡ deleted_path prefix (cs.to_lowercase task)))
  ActsOnce cs task root _ = ⊥

module _ (V : Type 0) where
  delete_step-ActsOnce :
      (cs : Casing) (id task root : Text) (prefixes : List Text)
      → is_empty root ≡ false
      → ((prefix : Text) → Memᴰ prefix prefixes → Memᴰ prefix delete_prefixes)
      → ActsOnce {V = V} cs task root (delete_step id root (cs.to_lowercase task) prefixes)
  unfolding delete_step
  delete_step-ActsOnce cs id task root [] rooted known = tt
  delete_step-ActsOnce cs id task root (prefix ∷ rest) rooted known =
      named_cases (names_prefix prefix (cs.to_lowercase task)) refl
        (is_empty (deleted_path prefix (cs.to_lowercase task))) refl
        (delete_step-ActsOnce cs id task root rest rooted (λ p member. known p (Memᴰ.tail member)))
    where
      later : List (ToolCallIntent V)
      later = delete_step id root (cs.to_lowercase task) rest

      named_cases :
          (named : Bool)
          → names_prefix prefix (cs.to_lowercase task) ≡ named
          → (blank : Bool) → is_empty (deleted_path prefix (cs.to_lowercase task)) ≡ blank
          → ActsOnce {V = V} cs task root later
          → ActsOnce {V = V} cs task root (
              if named
              then (if blank
                  then later
                  else fs_delete id root (deleted_path prefix (cs.to_lowercase task)) ∷ [])
              else later)
      named_cases true e true e' once = once
      named_cases true e false e' once =
          (rooted, refl, e', (prefix, known prefix (Memᴰ.head refl), e, refl))
      named_cases false e blank e' once = once

  -- Without a workspace root there is no plan. Otherwise the plan for the tools alone asks no model and
  -- acts at most once: it lists the root, or deletes one path, which is not empty and is the word
  -- behind a prefix that the task names, taken from the task in lower case.
  pub build_plan_tools_only-ActsOnce :
      (cs : Casing) (task : Text) (context : TaskContext) (default_id default_root : Option Text)
      → ActsOnce {V = V} cs task
          (unwrap_or default_root [])
          (build_plan_tools_only cs task context default_id default_root)
  unfolding build_plan_tools_only
  build_plan_tools_only-ActsOnce cs task context default_id default_root =
      root_cases (is_empty (unwrap_or default_root [])) refl (wants_listing (cs.to_lowercase task))
    where
      id : Text
      id = unwrap_or (or_else context.workspace_id default_id) []

      root : Text
      root = unwrap_or default_root []

      root_cases :
          (bare : Bool)
          → is_empty root ≡ bare
          → (listing : Bool)
          → ActsOnce {V = V} cs task root (
              if bare
              then []
              else if listing
              then fs_list_dir id root (codes ".") ∷ []
              else delete_step id root (cs.to_lowercase task) delete_prefixes)
      root_cases true e listing = tt
      root_cases false e true = (e, refl, refl)
      root_cases false e false =
          delete_step-ActsOnce cs id task root delete_prefixes e (λ prefix member. member)
