-- ===== src/Fs/Existing.antt =====
-- oxcer-core/src/fs.rs: the operations on a destination that does not exist.
use oxcer_agent.Prelude.{ℕ, List, Option, Result, ok, err, ◌>>=◌, then_do, ◌≡◌, refl}
use oxcer_agent.Text.{Text}
use oxcer_agent.Paths.{path_join}
use oxcer_agent.Fs.{
  BaseDirKind, AppFsContext, NormalizedPath, FsError, io, fs_error, Disk, or_io, base_dir_of,
  check_rel_path, scoped, normalize_and_resolve,
}
use oxcer_agent.Fs.Ops.{not_app_config, resolve_permitted, fs_write_file, fs_rename, fs_move}

-- A step that fails and leaves the state as it was.
abbrev pub FailsUnchanged : {W T : Type 0} → W → Result T FsError × W → Type 0
FailsUnchanged w (ok t, w') = ⊥
FailsUnchanged w (err e, w') = w' ≡ w

chain-FailsUnchanged :
    {W T U V : Type 0} (w : W) (r : Result T FsError) (f : T → Result U FsError)
    (next : U → Result V FsError × W)
    → ((t : T) → FailsUnchanged w (then_do w (f t) next))
    → FailsUnchanged w (then_do w (r >>= f) next)
chain-FailsUnchanged w (ok t) f next fails = fails t
chain-FailsUnchanged w (err e) f next fails = refl

module _ {W : Type 0} (d : Disk W) (home : Option Text) (ctx : AppFsContext) (w : W)
    (base : BaseDirKind) (rel_path dir : Text) (e : Text) (known : base_dir_of ctx base ≡ ok dir)
    (missing : d.canonicalize w (path_join dir rel_path) ≡ err e) where
  unresolved : (e' : FsError) × (normalize_and_resolve d w ctx base rel_path ≡ err e')
  unfolding normalize_and_resolve
  unresolved = check_cases (check_rel_path rel_path)
    where
      check_cases :
          (checked : Result (Unit {0}) FsError)
          → (e' : FsError) × (◌≡◌ {A = Result NormalizedPath FsError}
              (do
                u ← checked
                base_dir ← base_dir_of ctx base
                canonical ← or_io (d.canonicalize w (path_join base_dir rel_path))
                scoped base base_dir canonical)
              (err e'))
      check_cases (err e') = (e', refl)
      check_cases (ok u) = (fs_error io e, rw (known, missing) refl)

  unresolved-FailsUnchanged :
      {U V : Type 0} (f : NormalizedPath → Result U FsError) (next : U → Result V FsError × W)
      → FailsUnchanged w (then_do w (normalize_and_resolve d w ctx base rel_path >>= f) next)
  unresolved-FailsUnchanged f next = let (e', fails) = unresolved in rw fails refl

  unpermitted-FailsUnchanged :
      {U V : Type 0} (message : Text) (f : NormalizedPath → Result U FsError)
      (next : U → Result V FsError × W)
      → FailsUnchanged w
          (then_do w (resolve_permitted d home ctx message w base rel_path >>= f) next)
  unfolding resolve_permitted
  unpermitted-FailsUnchanged message f next = let (e', fails) = unresolved in rw fails refl

-- Writing to a path, renaming to it and moving to it fail and leave the disk as it was where the path
-- does not exist yet: none of the three makes a new file.
pub missing-FailsUnchanged :
    {W : Type 0} (d : Disk W) (home : Option Text) (ctx : AppFsContext) (w : W)
    (base src_base : BaseDirKind) (rel_path src_rel_path dir e : Text) (contents : List ℕ)
    → base_dir_of ctx base ≡ ok dir
    → d.canonicalize w (path_join dir rel_path) ≡ err e
    → FailsUnchanged w (fs_write_file d home ctx w base rel_path contents)
      × FailsUnchanged w (fs_rename d home ctx w base src_rel_path rel_path)
      × FailsUnchanged w (fs_move d home ctx w src_base src_rel_path base rel_path)
unfolding fs_write_file fs_rename fs_move resolve_permitted
missing-FailsUnchanged d home ctx w base src_base rel_path src_rel_path dir e contents known
      missing =
    (
      chain-FailsUnchanged w (not_app_config _ base) _ _
          (λ u. unresolved-FailsUnchanged d home ctx w base rel_path dir e known missing _ _),
      chain-FailsUnchanged w (not_app_config _ base) _ _ (λ u.
          chain-FailsUnchanged w (resolve_permitted d home ctx _ w base src_rel_path) _ _
            (λ n. unpermitted-FailsUnchanged d home ctx w base rel_path dir e known missing _ _ _)),
      chain-FailsUnchanged w (normalize_and_resolve d w ctx src_base src_rel_path) _ _
          (λ n. unresolved-FailsUnchanged d home ctx w base rel_path dir e known missing _ _),
    )
