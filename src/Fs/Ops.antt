-- ===== src/Fs/Ops.antt =====
-- oxcer-core/src/fs.rs: the operations of the file system service.
use oxcer_agent.Prelude.{
  ℕ, ◌*◌, Bool, true, false, not, List, ◌++◌, Option, none, some, any, ltb, ◌==◌, Result, ok, err,
  ◌>>=◌, then_do, and_then, if◌then◌else◌,
}
use oxcer_agent.Text.{Text, codes}
use oxcer_agent.Paths.{parent}
use oxcer_agent.Executor.Display.{decimal}
use oxcer_agent.Fs.{
  BaseDirKind, app_config, workspace, AppFsContext, NormalizedPath, DirEntryMetadata, FsReadResult,
  text, binary, allow, deny, FsError, invalid_path, not_directory, forbidden, too_large, fs_error,
  Disk, or_io, normalize_and_resolve, evaluate_path_policy,
}

abbrev pub max_read_bytes : ℕ
max_read_bytes = 8 * 1024 * 1024

-- The early return where the policy denies a path.
unfoldable pub permitted : Option Text → Text → NormalizedPath → Result (Unit {0}) FsError
unfolding evaluate_path_policy
permitted home message normalized = elim (evaluate_path_policy home normalized).decision [
  | allow ↦ ok tt
  | deny ↦ err (fs_error forbidden message)
]

-- The early return of the operations that do not work on the configuration.
unfoldable pub not_app_config : Text → BaseDirKind → Result (Unit {0}) FsError
not_app_config message app_config = err (fs_error forbidden message)
not_app_config message (workspace id) = ok tt

abbrev pub ensure : Bool → FsError → Result (Unit {0}) FsError
ensure true e = ok tt
ensure false e = err e

unfoldable pub too_large_error : ℕ → FsError
unfolding decimal
too_large_error size = fs_error too_large (
    codes "File is too large to read ("
    ++ (decimal size ++ (codes " bytes, max " ++ (decimal max_read_bytes ++ codes " bytes)"))))

-- A file with a zero byte, or that is not UTF-8, is binary.
unfoldable pub decoded : Option Text → List ℕ → ℕ → Option Text → FsReadResult
decoded none buf size guess = binary size guess
decoded (some contents) buf size guess =
    if any (λ b. b == 0) buf then binary size guess else text contents size

abbrev pub io_step : {W A : Type 0} → Result A Text × W → Result A FsError × W
io_step (r, w) = (or_io r, w)

module _ {W : Type 0} (d : Disk W) (home : Option Text) (ctx : AppFsContext) where
  -- A path that is resolved and that the policy lets through.
  unfoldable pub resolve_permitted : Text → W → BaseDirKind → Text → Result NormalizedPath FsError
  unfolding normalize_and_resolve permitted
  resolve_permitted message w base rel_path = do
    normalized ← normalize_and_resolve d w ctx base rel_path
    policy ← permitted home message normalized
    ok normalized

  unfoldable pub fs_list_dir : W → BaseDirKind → Text → Result (List DirEntryMetadata) FsError
  unfolding resolve_permitted
  fs_list_dir w base rel_path = do
    normalized ←
        resolve_permitted (codes "Access to this directory is forbidden by policy") w base rel_path
    meta ← or_io (d.metadata w normalized.abs_path)
    is_dir ←
        ensure meta.is_dir
          (fs_error not_directory (codes "Path is not a directory: " ++ normalized.abs_path))
    or_io (d.read_dir w normalized.abs_path)

  unfoldable pub fs_read_file : W → BaseDirKind → Text → Result FsReadResult FsError
  unfolding resolve_permitted too_large_error decoded
  fs_read_file w base rel_path = do
    normalized ←
        resolve_permitted (codes "Access to this file is forbidden by policy") w base rel_path
    meta ← or_io (d.metadata w normalized.abs_path)
    is_file ← ensure meta.is_file (fs_error invalid_path (codes "Path is not a regular file"))
    small ← ensure (not (ltb max_read_bytes meta.len)) (too_large_error meta.len)
    buf ← or_io (d.read_to_end w normalized.abs_path)
    ok (decoded (d.from_utf8 buf) buf meta.len (d.mime_guess normalized.abs_path))

  -- `if let Some(parent) = abs_path.parent() { create_dir_all(parent)?; }`
  unfoldable pub create_parent : Text → W → Result (Unit {0}) FsError × W
  unfolding parent
  create_parent abs_path w = elim (parent abs_path) [
    | none ↦ (ok tt, w)
    | some dir ↦ io_step (d.create_dir_all w dir)
  ]

  unfoldable pub fs_write_file : W → BaseDirKind → Text → List ℕ → Result (Unit {0}) FsError × W
  unfolding not_app_config resolve_permitted create_parent
  fs_write_file w base rel_path contents =
      then_do w
        (do
          in_workspace ←
              not_app_config
                (codes "Writes to the app config directory are disabled in this version") base
          resolve_permitted (codes "Write to this path is forbidden by policy") w base rel_path)
        (λ normalized.
          and_then (create_parent normalized.abs_path w)
            (λ made w'. io_step (d.write_file w' normalized.abs_path contents)))

  unfoldable pub fs_remove_file : W → BaseDirKind → Text → Result (Unit {0}) FsError × W
  unfolding not_app_config resolve_permitted
  fs_remove_file w base rel_path =
      then_do w
        (do
          in_workspace ←
              not_app_config (codes "Deletes in the app config directory are disabled") base
          normalized ←
              resolve_permitted (codes "Delete of this path is forbidden by policy") w base rel_path
          meta ← or_io (d.metadata w normalized.abs_path)
          is_file ← ensure meta.is_file (
              fs_error invalid_path
                (codes "Path is not a regular file (use remove_dir for directories)"))
          ok normalized)
        (λ normalized. io_step (d.remove_file w normalized.abs_path))

  unfoldable pub fs_rename : W → BaseDirKind → Text → Text → Result (Unit {0}) FsError × W
  unfolding not_app_config resolve_permitted
  fs_rename w base rel_path new_rel_path =
      then_do w
        (do
          in_workspace ←
              not_app_config (codes "Renames in the app config directory are disabled") base
          normalized ←
              resolve_permitted (codes "Rename of this path is forbidden by policy") w base rel_path
          dest_normalized ←
              resolve_permitted (codes "Rename destination is forbidden by policy") w base
                new_rel_path
          ok (normalized, dest_normalized))
        (λ (normalized, dest_normalized).
          io_step (d.rename w normalized.abs_path dest_normalized.abs_path))

  unfoldable pub fs_move :
      W → BaseDirKind → Text → BaseDirKind → Text → Result (Unit {0}) FsError × W
  unfolding normalize_and_resolve permitted create_parent
  fs_move w src_base src_rel_path dest_base dest_rel_path =
      then_do w
        (do
          src_normalized ← normalize_and_resolve d w ctx src_base src_rel_path
          dest_normalized ← normalize_and_resolve d w ctx dest_base dest_rel_path
          policy ← permitted home (codes "Move source is forbidden by policy") src_normalized
          dest_policy ←
              permitted home (codes "Move destination is forbidden by policy") dest_normalized
          meta ← or_io (d.metadata w src_normalized.abs_path)
          is_file ←
              ensure meta.is_file
                (fs_error invalid_path (codes "Move source must be a regular file"))
          ok (src_normalized, dest_normalized))
        (λ (src_normalized, dest_normalized).
          and_then (create_parent dest_normalized.abs_path w) (λ made w'.
            and_then (io_step (d.copy w' src_normalized.abs_path dest_normalized.abs_path))
              (λ copied w''. io_step (d.remove_file w'' src_normalized.abs_path))))
