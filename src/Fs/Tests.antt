-- ===== src/Fs/Tests.antt =====
-- A small disk, and the theorems about the file system service on it.
use oxcer_agent.Prelude.{
  ℕ, true, false, List, [], ◌∷◌, Option, none, some, Result, ok, err, ◌≡◌, refl, sym, ap, ◌∙◌,
  ok-injective, length, if◌then◌else◌,
}
use oxcer_agent.Text.{Text, codes, text_eq}
use oxcer_agent.Paths.{path_join}
use oxcer_agent.Fs.{
  BaseDirKind, app_config, workspace, AppFsContext, Disk, text, normalize_and_resolve, base_dir_of,
}
use oxcer_agent.Fs.Ops.{
  fs_list_dir, fs_read_file, fs_write_file, fs_remove_file, fs_rename, fs_move, permitted, decoded,
  create_parent,
}
use oxcer_agent.Fs.Resolved.{IsResolving, base_only, workspace_only}
use oxcer_agent.Fs.Confined.{fenced, operations-fenced}
use oxcer_agent.Fs.Existing.{FailsUnchanged, missing-FailsUnchanged}

-- The files and their bytes.
abbrev pub Files : Type 0
Files = List (Text × List ℕ)

abbrev find_bytes : Files → Text → Result (List ℕ) Text
find_bytes [] p = err (codes "not found")
find_bytes ((q, t) ∷ files) p = let rest = find_bytes files p in if text_eq q p then ok t else rest

abbrev without : Text → Files → Files
without p [] = []
without p ((q, t) ∷ files) =
    let rest = without p files in if text_eq q p then rest else (q, t) ∷ rest

-- A disk without links and directories, whose files are ASCII.
abbrev pub disk : Disk Files
disk = record {
  canonicalize = λ w p. elim (find_bytes w p) [ ok t ↦ ok p | err e ↦ err e ];
  metadata = λ w p. elim (find_bytes w p) [
    | ok t ↦ ok (record { is_file = true; is_dir = false; len = length t })
    | err e ↦ err e
  ];
  read_dir = λ w p. ok [];
  read_to_end = find_bytes;
  from_utf8 = λ bytes. some bytes;
  mime_guess = λ p. none;
  create_dir_all = λ w p. (ok tt, w);
  write_file = λ w p t. (ok tt, (p, t) ∷ without p w);
  rename =
      λ w p q. elim (find_bytes w p) [ ok t ↦ (ok tt, (q, t) ∷ without p w) | err e ↦ (err e, w) ];
  copy = λ w p q. elim (find_bytes w p) [ ok t ↦ (ok tt, (q, t) ∷ w) | err e ↦ (err e, w) ];
  remove_file = λ w p. (ok tt, without p w);
}

abbrev ctx : AppFsContext
ctx = record {
  app_config_dir = codes "/c";
  workspace_roots = record { id = codes "w"; name = codes "Work"; path = codes "/w" } ∷ [];
}

abbrev home : Option Text
home = some (codes "/w/home")

abbrev files : Files
files = (codes "/w/a", codes "text") ∷ (codes "/c/b", codes "settings") ∷ []

read_text :
    fs_read_file disk home ctx files (workspace (codes "w")) (codes "a")
    ≡ ok (text (codes "text") 4)
unfolding fs_read_file normalize_and_resolve permitted decoded text_eq
read_text = refl

-- A move reaches the configuration, which the other operations refuse to change.
moved_over_settings :
    (fs_move disk home ctx files (workspace (codes "w")) (codes "a") app_config (codes "b")).0
    ≡ ok tt
unfolding fs_move normalize_and_resolve permitted create_parent text_eq
moved_over_settings = refl

abbrev in_w : BaseDirKind
in_w = workspace (codes "w")

find_bytes_cases :
    (w : Files) (p : Text) (r : Result (List ℕ) Text) {q : Text}
    → find_bytes w p ≡ r
    → elim r as (λ r'. Result Text Text) [ ok t ↦ ok p | err e ↦ err e ] ≡ ok q
    → disk.canonicalize w q ≡ ok q
find_bytes_cases w p (ok t) {q} found same =
    let here : find_bytes w q ≡ ok t = ap (find_bytes w) (sym (ok-injective same)) ∙ found in
    rw (here, disk) refl
find_bytes_cases w p (err e) found same = cc

disk-IsResolving : IsResolving disk
disk-IsResolving w p q h = find_bytes_cases w p (find_bytes w p) refl h

operations-fenced_example :
    (fs_list_dir (fenced (base_only disk files ctx home) disk) home ctx files in_w (codes "a")
      ≡ fs_list_dir disk home ctx files in_w (codes "a"))
    × (fs_read_file (fenced (base_only disk files ctx home) disk) home ctx files in_w (codes "a")
        ≡ fs_read_file disk home ctx files in_w (codes "a"))
    × (fs_write_file
          (fenced (workspace_only disk files ctx home) disk)
          home
          ctx
          files
          in_w
          (codes "a")
          []
        ≡ fs_write_file disk home ctx files in_w (codes "a") [])
    × (fs_remove_file
          (fenced (workspace_only disk files ctx home) disk)
          home
          ctx
          files
          in_w
          (codes "a")
        ≡ fs_remove_file disk home ctx files in_w (codes "a"))
    × (fs_rename
          (fenced (workspace_only disk files ctx home) disk)
          home
          ctx
          files
          in_w
          (codes "a")
          (codes "b")
        ≡ fs_rename disk home ctx files in_w (codes "a") (codes "b"))
    × (fs_move
          (fenced (base_only disk files ctx home) disk)
          home
          ctx
          files
          in_w
          (codes "a")
          in_w
          (codes "b")
        ≡ fs_move disk home ctx files in_w (codes "a") in_w (codes "b"))
operations-fenced_example =
    operations-fenced disk home ctx files in_w in_w (codes "a") (codes "b") [] disk-IsResolving

missing-FailsUnchanged_example :
    FailsUnchanged files (fs_write_file disk home ctx files in_w (codes "new") [])
    × FailsUnchanged files (fs_rename disk home ctx files in_w (codes "a") (codes "new"))
    × FailsUnchanged files (fs_move disk home ctx files in_w (codes "a") in_w (codes "new"))
unfolding base_dir_of path_join text_eq
missing-FailsUnchanged_example =
    missing-FailsUnchanged disk home ctx files in_w in_w (codes "new") (codes "a") (codes "/w")
      (codes "not found") [] refl refl
