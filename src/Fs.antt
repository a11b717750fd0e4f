-- ===== src/Fs.antt =====
-- oxcer-core/src/fs.rs: the file system service, which works below known base directories. The file
-- system itself is the interface `Disk`; the log is left out.
pub mod Ops
pub mod Resolved
pub mod Confined
pub mod Existing
pub mod Tests
use oxcer_agent.Prelude.{
  ℕ, Bool, true, false, not, ◌||◌, List, [], ◌∷◌, ◌++◌, Option, none, some, any, is_empty, Result,
  ok, err, ◌>>=◌, if◌then◌else◌,
}
use oxcer_agent.Text.{Text, codes, text_eq}
use oxcer_agent.Paths.{
  Component, parent_dir, components, is_absolute, path_join, path_starts_with, path_strip_prefix,
}

pub data BaseDirKind : Type 0 where
  app_config : BaseDirKind
  workspace : (id : Text) → BaseDirKind

pub record WorkspaceRoot : Type 0 where
  pub id : Text
  pub name : Text
  pub path : Text

pub record AppFsContext : Type 0 where
  pub app_config_dir : Text
  pub workspace_roots : List WorkspaceRoot

pub record NormalizedPath : Type 0 where
  pub base : BaseDirKind
  pub abs_path : Text
  pub rel_to_base : Text

-- `modified` is the time stamp that the file system gives.
pub record DirEntryMetadata : Type 0 where
  pub name : Text
  pub is_file : Bool
  pub is_dir : Bool
  pub size_bytes : Option ℕ
  pub modified : Option ℕ

pub data FsReadResult : Type 0 where
  text : (contents : Text) (size_bytes : ℕ) → FsReadResult
  binary : (size_bytes : ℕ) (mime_guess : Option Text) → FsReadResult

pub data SecurityDecisionKind : Type 0 where
  allow deny : SecurityDecisionKind

pub data DenyReason : Type 0 where
  blocklisted_path outside_allowed_base escape_attempt blocklisted_command : DenyReason

pub record SecurityDecision : Type 0 where
  pub decision : SecurityDecisionKind
  pub reason : Option DenyReason

pub data FsErrorKind : Type 0 where
  invalid_path workspace_not_found not_directory forbidden io too_large : FsErrorKind

pub record FsError : Type 0 where
  pub kind : FsErrorKind
  pub message : Text

-- What `std::fs::metadata` tells.
pub record Metadata : Type 0 where
  pub is_file : Bool
  pub is_dir : Bool
  pub len : ℕ

-- What the service uses of `std::fs`, of `mime_guess`, and of the UTF-8 decoder; bytes are numbers. `W` is
-- the state of the disk. An entry of a directory that cannot be read is no entry here.
pub record Disk (W : Type 0) : Type 0 where
  pub canonicalize : W → Text → Result Text Text
  pub metadata : W → Text → Result Metadata Text
  pub read_dir : W → Text → Result (List DirEntryMetadata) Text
  pub read_to_end : W → Text → Result (List ℕ) Text
  pub from_utf8 : List ℕ → Option Text
  pub mime_guess : Text → Option Text
  pub create_dir_all : W → Text → Result (Unit {0}) Text × W
  pub write_file : W → Text → List ℕ → Result (Unit {0}) Text × W
  pub rename : W → Text → Text → Result (Unit {0}) Text × W
  pub copy : W → Text → Text → Result (Unit {0}) Text × W
  pub remove_file : W → Text → Result (Unit {0}) Text × W

abbrev pub fs_error : FsErrorKind → Text → FsError
fs_error kind message = record { kind = kind; message = message }

-- `map_err(FsError::io)`.
abbrev pub or_io : {A : Type 0} → Result A Text → Result A FsError
or_io (ok a) = ok a
or_io (err e) = err (fs_error io e)

abbrev pub is_parent_dir : Component → Bool
is_parent_dir parent_dir = true
is_parent_dir _ = false

unfoldable pub find_root : Text → List WorkspaceRoot → Option WorkspaceRoot
unfolding text_eq
find_root id [] = none
find_root id (r ∷ rest) = let later = find_root id rest in if text_eq r.id id then some r else later

abbrev pub root_path : Text → Option WorkspaceRoot → Result Text FsError
root_path id none = err (fs_error workspace_not_found (codes "Workspace root not found: " ++ id))
root_path id (some root) = ok root.path

unfoldable pub base_dir_of : AppFsContext → BaseDirKind → Result Text FsError
unfolding find_root
base_dir_of ctx app_config = ok ctx.app_config_dir
base_dir_of ctx (workspace id) = root_path id (find_root id ctx.workspace_roots)

-- The checks on the relative path itself.
unfoldable pub check_rel_path : Text → Result (Unit {0}) FsError
unfolding is_absolute components
check_rel_path rel_path =
    if is_empty rel_path
    then err (fs_error invalid_path (codes "Path must not be empty"))
    else if is_absolute rel_path
    then err (
        fs_error invalid_path (
          codes
            "Absolute paths are not allowed; use a path relative to the selected base directory"))
    else if any is_parent_dir (components rel_path)
    then err (fs_error invalid_path (codes "Path traversal using `..` is not allowed"))
    else ok tt

abbrev pub unwrap_or_path : Option Text → Text → Text
unwrap_or_path none p = p
unwrap_or_path (some q) p = q

-- The check behind the canonicalization.
unfoldable pub scoped : BaseDirKind → Text → Text → Result NormalizedPath FsError
unfolding path_starts_with path_strip_prefix
scoped base base_dir canonical =
    if not (path_starts_with canonical base_dir)
    then err (
        fs_error forbidden
          (codes "Resolved path escapes the allowed base directory (possible symlink traversal)"))
    else ok (record {
      base = base;
      abs_path = canonical;
      rel_to_base = unwrap_or_path (path_strip_prefix canonical base_dir) canonical;
    })

module _ {W : Type 0} (d : Disk W) where
  unfoldable pub normalize_and_resolve :
      W → AppFsContext → BaseDirKind → Text → Result NormalizedPath FsError
  unfolding check_rel_path base_dir_of scoped path_join
  normalize_and_resolve w ctx base rel_path = do
    checked ← check_rel_path rel_path
    base_dir ← base_dir_of ctx base
    canonical ← or_io (d.canonicalize w (path_join base_dir rel_path))
    scoped base base_dir canonical

abbrev pub allowed : SecurityDecision
allowed = record { decision = allow; reason = none }

unfoldable pub is_secret : Text → Text → Bool
unfolding path_join path_starts_with
is_secret home abs =
    path_starts_with abs (path_join home (codes ".ssh"))
    || path_starts_with abs (path_join home (codes ".aws"))
    || path_starts_with abs (path_join home (codes "Library/Keychains"))
    || path_starts_with abs (path_join home (codes "Library/Passwords"))

unfoldable pub evaluate_path_policy : Option Text → NormalizedPath → SecurityDecision
unfolding is_secret
evaluate_path_policy none normalized = allowed
evaluate_path_policy (some home) normalized =
    if is_secret home normalized.abs_path
    then record { decision = deny; reason = some blocklisted_path }
    else allowed
