-- ===== src/Fs/Resolved.antt =====
-- oxcer-core/src/fs.rs: the paths that are resolved and let through.
use oxcer_agent.Prelude.{
  Bool, true, false, not, ◌&&◌, ◌||◌, List, [], ◌∷◌, Option, none, some, any, Result, ok, err,
  steps_of_ok, ok-injective, or_right, ◌≡◌, refl, sym, ap, ◌∙◌, inl, inr, Bool-cases, if◌then◌else◌,
}
use oxcer_agent.Text.{Text, codes, text_eq}
use oxcer_agent.Text.Laws.{text_eq_refl}
use oxcer_agent.Paths.{path_join, is_form_of, path_starts_with, path_strip_prefix}
use oxcer_agent.Fs.{
  BaseDirKind, app_config, workspace, WorkspaceRoot, AppFsContext, NormalizedPath, FsError,
  fs_error, forbidden, Disk, or_io, find_root, root_path, base_dir_of, check_rel_path,
  unwrap_or_path, scoped, normalize_and_resolve, is_secret, evaluate_path_policy,
}
use oxcer_agent.Fs.Ops.{permitted, resolve_permitted}

-- The paths below a workspace root, and those below a workspace root or the configuration.
abbrev pub in_workspace : AppFsContext → Text → Bool
in_workspace ctx p = any (λ r. path_starts_with p r.path) ctx.workspace_roots

abbrev pub in_base : AppFsContext → Text → Bool
in_base ctx p = path_starts_with p ctx.app_config_dir || in_workspace ctx p

abbrev pub secret_of : Option Text → Text → Bool
secret_of none p = false
secret_of (some home) p = is_secret home p

-- A path that is its own canonical form on the disk.
abbrev pub is_canonical : {W : Type 0} → Disk W → W → Text → Bool
is_canonical d w p = is_form_of p (d.canonicalize w p)

abbrev pub workspace_only : {W : Type 0} → Disk W → W → AppFsContext → Option Text → Text → Bool
workspace_only d w ctx home p = (in_workspace ctx p && is_canonical d w p) && not (secret_of home p)

abbrev pub base_only : {W : Type 0} → Disk W → W → AppFsContext → Option Text → Text → Bool
base_only d w ctx home p = (in_base ctx p && is_canonical d w p) && not (secret_of home p)

-- What `canonicalize` documents: all links are resolved, so that a canonical path stays as it is.
abbrev pub IsResolving : {W : Type 0} → Disk W → Type 0
IsResolving {W = W} d = (w : W) (p q : Text) → d.canonicalize w p ≡ ok q → d.canonicalize w q ≡ ok q

resolved-is_canonical :
    {W : Type 0} (d : Disk W) (w : W) (p : Text) (r : Result Text Text) {q : Text}
    → IsResolving d
    → d.canonicalize w p ≡ r
    → or_io r ≡ ok q
    → is_canonical d w q ≡ true
resolved-is_canonical d w p (ok q') {q} law found same =
    let here : d.canonicalize w q ≡ ok q = law w p q (found ∙ ap ok (ok-injective same)) in
    rw here (text_eq_refl q)
resolved-is_canonical d w p (err e) law found same = cc

scoped_sound :
    (base : BaseDirKind) (base_dir canonical : Text) {n : NormalizedPath}
    → scoped base base_dir canonical ≡ ok n
    → (n.abs_path ≡ canonical) × (path_starts_with n.abs_path base_dir ≡ true)
unfolding scoped
scoped_sound base base_dir canonical {n} h = within (path_starts_with canonical base_dir) refl h
  where
    message : Text
    message = codes "Resolved path escapes the allowed base directory (possible symlink traversal)"

    within :
        (is_within : Bool)
        → path_starts_with canonical base_dir ≡ is_within
        → ◌≡◌ {A = Result NormalizedPath FsError}
            (if not is_within
              then err (fs_error forbidden message)
              else ok (record {
                base = base;
                abs_path = canonical;
                rel_to_base = unwrap_or_path (path_strip_prefix canonical base_dir) canonical;
              }))
            (ok n)
        → (n.abs_path ≡ canonical) × (path_starts_with n.abs_path base_dir ≡ true)
    within true e h = (
      ap (λ m. m.abs_path) (sym (ok-injective h)),
      ap (λ m. path_starts_with m.abs_path base_dir) (sym (ok-injective h)) ∙ e,
    )
    within false e h = cc

find_root-in_workspace :
    (id p : Text) (roots : List WorkspaceRoot) {dir : Text}
    → root_path id (find_root id roots) ≡ ok dir
    → path_starts_with p dir ≡ true
    → any (λ r. path_starts_with p r.path) roots ≡ true
unfolding find_root
find_root-in_workspace id p [] h below = cc
find_root-in_workspace id p (r ∷ rest) {dir} h below = elim (Bool-cases (text_eq r.id id)) [
  | inl same ↦
      let here = rw same at h in rw (ap (path_starts_with p) (ok-injective here) ∙ below) refl
  | inr other ↦
      let there = rw other at h in
      or_right (path_starts_with p r.path) (find_root-in_workspace id p rest there below)
]

pub permitted_sound :
    (home : Option Text) (message : Text) (n : NormalizedPath) {u : Unit {0}}
    → permitted home message n ≡ ok u
    → not (secret_of home n.abs_path) ≡ true
unfolding permitted evaluate_path_policy
permitted_sound none message n h = refl
permitted_sound (some home) message n h = elim (Bool-cases (is_secret home n.abs_path)) [
  | inl secret ↦ let refused = rw (secret, permitted, evaluate_path_policy) at h in cc
  | inr fine ↦ rw fine refl
]

module _ {W : Type 0} (d : Disk W) (home : Option Text) (ctx : AppFsContext)
    (law : IsResolving d) where
  resolved_in :
      (w : W) (base : BaseDirKind) (rel_path : Text) {n : NormalizedPath}
      → normalize_and_resolve d w ctx base rel_path ≡ ok n
      → (dir : Text) × (base_dir_of ctx base ≡ ok dir)
        × (path_starts_with n.abs_path dir ≡ true)
        × (is_canonical d w n.abs_path ≡ true)
  unfolding normalize_and_resolve
  resolved_in w base rel_path h =
      let (u, checked, h') = steps_of_ok (check_rel_path rel_path) _ h in
      let (dir, known, h'') = steps_of_ok (base_dir_of ctx base) _ h' in
      let (canonical, found, ended) =
        steps_of_ok (or_io (d.canonicalize w (path_join dir rel_path))) _ h'' in
      let (same, below) = scoped_sound base dir canonical ended in
      (
        dir,
        known,
        below,
        ap (is_canonical d w) same
            ∙ resolved-is_canonical d w (path_join dir rel_path) _ law refl found,
      )

  resolved-in_workspace :
      (w : W) (id rel_path : Text) {n : NormalizedPath}
      → normalize_and_resolve d w ctx (workspace id) rel_path ≡ ok n
      → (in_workspace ctx n.abs_path && is_canonical d w n.abs_path) ≡ true
  unfolding base_dir_of
  resolved-in_workspace w id rel_path {n} h =
      let (dir, known, below, canonical) = resolved_in w (workspace id) rel_path h in
      rw (find_root-in_workspace id n.abs_path ctx.workspace_roots known below, canonical) refl

  pub resolved-in_base :
      (w : W) (base : BaseDirKind) (rel_path : Text) {n : NormalizedPath}
      → normalize_and_resolve d w ctx base rel_path ≡ ok n
      → (in_base ctx n.abs_path && is_canonical d w n.abs_path) ≡ true
  unfolding base_dir_of
  resolved-in_base w (workspace id) rel_path {n} h =
      let (dir, known, below, canonical) = resolved_in w (workspace id) rel_path h in
      rw
        (
          or_right (path_starts_with n.abs_path ctx.app_config_dir)
              (find_root-in_workspace id n.abs_path ctx.workspace_roots known below),
          canonical,
        )
        refl
  resolved-in_base w app_config rel_path {n} h =
      let (dir, known, below, canonical) = resolved_in w app_config rel_path h in
      rw (ap (path_starts_with n.abs_path) (ok-injective known) ∙ below, canonical) refl

  permitted_of :
      (message : Text) (w : W) (base : BaseDirKind) (rel_path : Text) {n : NormalizedPath}
      → resolve_permitted d home ctx message w base rel_path ≡ ok n
      → (normalize_and_resolve d w ctx base rel_path ≡ ok n)
        × (not (secret_of home n.abs_path) ≡ true)
  unfolding resolve_permitted
  permitted_of message w base rel_path {n} h =
      let (n', resolved, h') = steps_of_ok (normalize_and_resolve d w ctx base rel_path) _ h in
      let (u, granted, same) = steps_of_ok (permitted home message n') _ h' in
      (
        resolved ∙ same,
        ap (λ m. not (secret_of home m.abs_path)) (sym (ok-injective same))
            ∙ permitted_sound home message n' granted,
      )

  pub resolve_permitted-base_only :
      (message : Text) (w : W) (base : BaseDirKind) (rel_path : Text) {n : NormalizedPath}
      → resolve_permitted d home ctx message w base rel_path ≡ ok n
      → base_only d w ctx home n.abs_path ≡ true
  resolve_permitted-base_only message w base rel_path h =
      let (resolved, cleared) = permitted_of message w base rel_path h in
      rw (resolved-in_base w base rel_path resolved, cleared) refl

  pub resolve_permitted-workspace_only :
      (message : Text) (w : W) (id rel_path : Text) {n : NormalizedPath}
      → resolve_permitted d home ctx message w (workspace id) rel_path ≡ ok n
      → workspace_only d w ctx home n.abs_path ≡ true
  resolve_permitted-workspace_only message w id rel_path h =
      let (resolved, cleared) = permitted_of message w (workspace id) rel_path h in
      rw (resolved-in_workspace w id rel_path resolved, cleared) refl
