-- ===== src/Fs/Confined.antt =====
-- oxcer-core/src/fs.rs: where the operations go on the disk.
use oxcer_agent.Prelude.{
  ℕ, Bool, ◌&&◌, List, [], Option, err, same_bind, same_then, same_steps, ◌≡◌, refl, if◌then◌else◌,
}
use oxcer_agent.Text.{Text}
use oxcer_agent.Fs.{
  BaseDirKind, app_config, workspace, AppFsContext, Disk, or_io, normalize_and_resolve,
}
use oxcer_agent.Fs.Ops.{
  permitted, not_app_config, ensure, resolve_permitted, create_parent, fs_list_dir, fs_read_file,
  fs_write_file, fs_remove_file, fs_rename, fs_move,
}
use oxcer_agent.Fs.Resolved.{
  IsResolving, base_only, workspace_only, resolved-in_base, permitted_sound,
  resolve_permitted-base_only, resolve_permitted-workspace_only,
}

-- A disk that refuses every path but those that pass the test. The parents of paths are made all the
-- same.
abbrev pub fenced : {W : Type 0} → (Text → Bool) → Disk W → Disk W
fenced pass d = record d {
  metadata = λ w p. if pass p then d.metadata w p else err [];
  read_dir = λ w p. if pass p then d.read_dir w p else err [];
  read_to_end = λ w p. if pass p then d.read_to_end w p else err [];
  write_file = λ w p bytes. if pass p then d.write_file w p bytes else (err [], w);
  rename = λ w p q. if pass p && pass q then d.rename w p q else (err [], w);
  copy = λ w p q. if pass p && pass q then d.copy w p q else (err [], w);
  remove_file = λ w p. if pass p then d.remove_file w p else (err [], w);
}

module _ {W : Type 0} (d : Disk W) (home : Option Text) (ctx : AppFsContext)
    (pass : Text → Bool) where
  normalize_and_resolve-fenced :
      (w : W) (base : BaseDirKind) (rel_path : Text)
      → normalize_and_resolve (fenced pass d) w ctx base rel_path
        ≡ normalize_and_resolve d w ctx base rel_path
  unfolding normalize_and_resolve
  normalize_and_resolve-fenced w base rel_path = refl

  resolve_permitted-fenced :
      (message : Text) (w : W) (base : BaseDirKind) (rel_path : Text)
      → resolve_permitted (fenced pass d) home ctx message w base rel_path
        ≡ resolve_permitted d home ctx message w base rel_path
  unfolding resolve_permitted
  resolve_permitted-fenced message w base rel_path =
      rw (normalize_and_resolve-fenced w base rel_path) refl

  create_parent-fenced :
      (path : Text) (w : W)
      → create_parent (fenced pass d) home ctx path w ≡ create_parent d home ctx path w
  unfolding create_parent
  create_parent-fenced path w = refl

module _ {W : Type 0} (d : Disk W) (home : Option Text) (ctx : AppFsContext)
    (law : IsResolving d) where
  abbrev base_fence : W → Disk W
  base_fence w = fenced (base_only d w ctx home) d

  abbrev workspace_fence : W → Disk W
  workspace_fence w = fenced (workspace_only d w ctx home) d

  fs_list_dir-fenced :
      (w : W) (base : BaseDirKind) (rel_path : Text)
      → fs_list_dir (base_fence w) home ctx w base rel_path ≡ fs_list_dir d home ctx w base rel_path
  unfolding fs_list_dir
  fs_list_dir-fenced w base rel_path =
      rw (resolve_permitted-fenced d home ctx (base_only d w ctx home) _ w base rel_path) (
        same_bind (resolve_permitted d home ctx _ w base rel_path) _ _
          (λ n h. rw (resolve_permitted-base_only d home ctx law _ w base rel_path h) refl))

  fs_read_file-fenced :
      (w : W) (base : BaseDirKind) (rel_path : Text)
      → fs_read_file (base_fence w) home ctx w base rel_path
        ≡ fs_read_file d home ctx w base rel_path
  unfolding fs_read_file
  fs_read_file-fenced w base rel_path =
      rw (resolve_permitted-fenced d home ctx (base_only d w ctx home) _ w base rel_path) (
        same_bind (resolve_permitted d home ctx _ w base rel_path) _ _
          (λ n h. rw (resolve_permitted-base_only d home ctx law _ w base rel_path h) refl))

  fs_write_file-fenced :
      (w : W) (base : BaseDirKind) (rel_path : Text) (contents : List ℕ)
      → fs_write_file (workspace_fence w) home ctx w base rel_path contents
        ≡ fs_write_file d home ctx w base rel_path contents
  unfolding fs_write_file not_app_config
  fs_write_file-fenced w app_config rel_path contents = refl
  fs_write_file-fenced w (workspace id) rel_path contents =
      rw
        (resolve_permitted-fenced d home ctx (workspace_only d w ctx home) _ w (workspace id)
          rel_path)
        (same_then w (resolve_permitted d home ctx _ w (workspace id) rel_path) _ _
          (λ n h. rw (resolve_permitted-workspace_only d home ctx law _ w id rel_path h) refl))

  fs_remove_file-fenced :
      (w : W) (base : BaseDirKind) (rel_path : Text)
      → fs_remove_file (workspace_fence w) home ctx w base rel_path
        ≡ fs_remove_file d home ctx w base rel_path
  unfolding fs_remove_file not_app_config
  fs_remove_file-fenced w app_config rel_path = refl
  fs_remove_file-fenced w (workspace id) rel_path =
      rw
        (resolve_permitted-fenced d home ctx (workspace_only d w ctx home) _ w (workspace id)
          rel_path)
        (same_steps w (resolve_permitted d home ctx _ w (workspace id) rel_path) _ _ _ _ (λ n h.
          rw (resolve_permitted-workspace_only d home ctx law _ w id rel_path h) (
            same_steps w (or_io (d.metadata w n.abs_path)) _ _ _ _ (λ meta h'.
              same_steps w (ensure meta.is_file _) _ _ _ _ (λ u h''.
                rw (resolve_permitted-workspace_only d home ctx law _ w id rel_path h) refl)))))

  fs_rename-fenced :
      (w : W) (base : BaseDirKind) (rel_path new_rel_path : Text)
      → fs_rename (workspace_fence w) home ctx w base rel_path new_rel_path
        ≡ fs_rename d home ctx w base rel_path new_rel_path
  unfolding fs_rename not_app_config
  fs_rename-fenced w app_config rel_path new_rel_path = refl
  fs_rename-fenced w (workspace id) rel_path new_rel_path =
      rw
        (
          resolve_permitted-fenced d home ctx (workspace_only d w ctx home) _ w (workspace id)
              rel_path,
          resolve_permitted-fenced d home ctx (workspace_only d w ctx home) _ w (workspace id)
              new_rel_path,
        )
        (same_steps w (resolve_permitted d home ctx _ w (workspace id) rel_path) _ _ _ _ (λ n h.
          same_steps w (resolve_permitted d home ctx _ w (workspace id) new_rel_path) _ _ _ _
            (λ n' h'.
              rw
                (
                  resolve_permitted-workspace_only d home ctx law _ w id rel_path h,
                  resolve_permitted-workspace_only d home ctx law _ w id new_rel_path h',
                )
                refl)))

  fs_move-fenced :
      (w : W) (src_base : BaseDirKind) (src_rel_path : Text) (dest_base : BaseDirKind)
      (dest_rel_path : Text)
      → fs_move (base_fence w) home ctx w src_base src_rel_path dest_base dest_rel_path
        ≡ fs_move d home ctx w src_base src_rel_path dest_base dest_rel_path
  unfolding fs_move
  fs_move-fenced w src_base src_rel_path dest_base dest_rel_path =
      rw
        (
          normalize_and_resolve-fenced d home ctx (base_only d w ctx home) w src_base src_rel_path,
          normalize_and_resolve-fenced d home ctx (base_only d w ctx home) w dest_base
              dest_rel_path,
        )
        (same_steps w (normalize_and_resolve d w ctx src_base src_rel_path) _ _ _ _ (λ n h.
          same_steps w (normalize_and_resolve d w ctx dest_base dest_rel_path) _ _ _ _ (λ n' h'.
            same_steps w (permitted home _ n) _ _ _ _ (λ u g.
              same_steps w (permitted home _ n') _ _ _ _ (λ u' g'.
                rw
                  (
                    resolved-in_base d home ctx law w src_base src_rel_path h,
                    permitted_sound home _ n g,
                  )
                  (same_steps w (or_io (d.metadata w n.abs_path)) _ _ _ _ (λ meta h''.
                    same_steps w (ensure meta.is_file _) _ _ _ _ (λ u'' g''.
                      rw
                        (
                          resolved-in_base d home ctx law w src_base src_rel_path h,
                          resolved-in_base d home ctx law w dest_base dest_rel_path h',
                          permitted_sound home _ n g,
                          permitted_sound home _ n' g',
                        )
                        refl))))))))

-- Where the disk refuses every path that is not below a workspace root, or is not canonical on the disk,
-- so that it leads elsewhere by a link or by "..", or that is one of the secret places of the home
-- directory, writing, removing and renaming do the same, if canonicalizing a path resolves it. The same
-- holds of listing, reading and moving where the paths below the configuration are let through as
-- well. The parents of the paths that are written are not refused.
pub operations-fenced :
    {W : Type 0} (d : Disk W) (home : Option Text) (ctx : AppFsContext) (w : W)
    (base dest_base : BaseDirKind) (rel_path dest_rel_path : Text) (contents : List ℕ)
    → IsResolving d
    → (fs_list_dir (fenced (base_only d w ctx home) d) home ctx w base rel_path
        ≡ fs_list_dir d home ctx w base rel_path)
      × (fs_read_file (fenced (base_only d w ctx home) d) home ctx w base rel_path
          ≡ fs_read_file d home ctx w base rel_path)
      × (fs_write_file (fenced (workspace_only d w ctx home) d) home ctx w base rel_path contents
          ≡ fs_write_file d home ctx w base rel_path contents)
      × (fs_remove_file (fenced (workspace_only d w ctx home) d) home ctx w base rel_path
          ≡ fs_remove_file d home ctx w base rel_path)
      × (fs_rename (fenced (workspace_only d w ctx home) d) home ctx w base rel_path dest_rel_path
          ≡ fs_rename d home ctx w base rel_path dest_rel_path)
      × (fs_move
            (fenced (base_only d w ctx home) d)
            home
            ctx
            w
            base
            rel_path
            dest_base
            dest_rel_path
          ≡ fs_move d home ctx w base rel_path dest_base dest_rel_path)
operations-fenced d home ctx w base dest_base rel_path dest_rel_path contents law = (
  fs_list_dir-fenced d home ctx law w base rel_path,
  fs_read_file-fenced d home ctx law w base rel_path,
  fs_write_file-fenced d home ctx law w base rel_path contents,
  fs_remove_file-fenced d home ctx law w base rel_path,
  fs_rename-fenced d home ctx law w base rel_path dest_rel_path,
  fs_move-fenced d home ctx law w base rel_path dest_base dest_rel_path,
)
