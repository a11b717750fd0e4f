-- ===== src/Executor.antt =====
-- oxcer-core/src/executor.rs: the tools of the state machine's agent, with the guard that keeps their
-- paths in the workspace. The file system and processes are the interface `Machine`.
pub mod Docx
pub mod Execute
pub mod Display
pub mod Plain
pub mod Confined
pub mod Guarded
pub mod Tests
use oxcer_agent.Prelude.{
  ℕ, Bool, true, false, not, List, [], ◌∷◌, ◌++◌, Option, none, some, Result, ok, err, ◌>>=◌,
  if◌then◌else◌,
}
use oxcer_agent.Text.{Text, codes}
use oxcer_agent.Paths.{
  Component, root_dir, cur_dir, parent_dir, normal, components, from_components, split_last,
  is_absolute, path_starts_with, path_join,
}

-- An `io::Error` is its message. The exit code is that of `ExitStatus::code`, and `none` stands for -1.
pub data ExecutorError : Type 0 where
  path_traversal command_not_allowed io : Text → ExecutorError
  command_failed : (code : Option ℕ) (stderr : Text) → ExecutorError
  workspace_not_found unsupported_format document_parse trash : Text → ExecutorError

-- A tool fails with an error, or panics.
pub data Fault : Type 0 where
  panicked : Fault
  error : ExecutorError → Fault

pub data ToolCall : Type 0 where
  fs_list_dir fs_read_file : (path : Text) → ToolCall
  shell_run : (command : Text) (args : List Text) → ToolCall
  read_document : (path : Text) → ToolCall
  move_file : (source dest : Text) → ToolCall
  trash_file : (path : Text) → ToolCall

-- `std::process::Output`, its streams read as UTF-8.
pub record Output : Type 0 where
  pub success : Bool
  pub code : Option ℕ
  pub stdout : Text
  pub stderr : Text

-- What the executor uses of `std::fs`, `std::process` and the crates that read documents. `W` is the
-- state of the machine; `write` is for the summaries.
pub record Machine (W : Type 0) : Type 0 where
  pub exists : W → Text → Bool
  pub canonicalize : W → Text → Result Text Text
  pub read_dir : W → Text → Result (List (Text × Bool)) Text
  pub read_to_string : W → Text → Result Text Text
  pub pdf_text : W → Text → Result Text Text
  pub document_xml : W → Text → Result Text ExecutorError
  pub sheet_text : W → Text → Result Text ExecutorError
  pub rename : W → Text → Text → Result (Unit {0}) Text × W
  pub delete : W → Text → Result (Unit {0}) Text × W
  pub output : W → Text → List Text → Text → Result Output Text × W
  pub write : W → Text → Text → Result (Unit {0}) Text × W

-- `PathBuf::pop`: the root stays.
unfoldable pub pop : List Component → List Component
unfolding split_last
pop out = elim (split_last out) [
  | none ↦ out
  | some (front, root_dir) ↦ out
  | some (front, last) ↦ front
]

-- One turn of the loop of `normalize_lexical`. Only the first component of a path is a root.
unfoldable pub normalize_step : List Component → Component → List Component
unfolding pop
normalize_step out parent_dir = pop out
normalize_step out cur_dir = out
normalize_step out root_dir = root_dir ∷ []
normalize_step out (normal s) = out ++ normal s ∷ []

unfoldable pub normalize_from : List Component → List Component → List Component
unfolding normalize_step
normalize_from out [] = out
normalize_from out (c ∷ cs) = normalize_from (normalize_step out c) cs

unfoldable pub normalize_lexical : Text → Text
unfolding normalize_from from_components components
normalize_lexical path = from_components (normalize_from [] (components path))

-- `map_err(ExecutorError::Io)`.
abbrev pub or_io : {A : Type 0} → Result A Text → Result A Fault
or_io (ok a) = ok a
or_io (err e) = err (error (io e))

unfoldable pub absolute_target : Text → Text → Text
unfolding path_join is_absolute
absolute_target canonical_root target =
    if is_absolute target then target else path_join canonical_root target

unfoldable pub inside : Text → Text → Text → Result Text Fault
unfolding path_starts_with
inside canonical_root target path =
    if not (path_starts_with path canonical_root)
    then err (error (path_traversal target))
    else ok path

module _ {W : Type 0} (m : Machine W) where
  -- `UniversalExecutor::new`; the executor is its root.
  unfoldable pub new_executor : W → Text → Result Text ExecutorError
  new_executor w root = if not (m.exists w root) then err (workspace_not_found root) else ok root

  unfoldable pub canonical_target : W → Text → Result Text Fault
  unfolding normalize_lexical
  canonical_target w path =
      if m.exists w path then or_io (m.canonicalize w path) else ok (normalize_lexical path)

  unfoldable pub guard_path : Text → W → Text → Result Text Fault
  unfolding absolute_target canonical_target inside
  guard_path root w target = do
    canonical_root ← or_io (m.canonicalize w root)
    path ← canonical_target w (absolute_target canonical_root target)
    inside canonical_root target path
