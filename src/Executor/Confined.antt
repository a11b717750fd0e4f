-- ===== src/Executor/Confined.antt =====
-- oxcer-core/src/executor.rs: the guard on paths, and what the tools do with the machine.
use oxcer_agent.Prelude.{
  Bool, true, false, not, ◌&&◌, List, [], Result, ok, err, same_bind, same_then, steps_of_ok,
  ok-injective, ◌≡◌, refl, sym, ap, ◌∙◌, inl, inr, Bool-cases, if◌then◌else◌,
}
use oxcer_agent.Text.{Text, Casing, text_eq}
use oxcer_agent.Text.Laws.{text_eq_refl}
use oxcer_agent.Paths.{path_starts_with}
use oxcer_agent.Executor.{
  Fault, error, ToolCall, fs_list_dir, fs_read_file, shell_run, read_document, move_file,
  trash_file, Machine, or_io, canonical_target, absolute_target, inside, guard_path, path_traversal,
}
use oxcer_agent.Executor.Plain.{leads_up, normalize_lexical-leads_up}
use oxcer_agent.Executor.Execute.{
  allowed_commands, one_of, document_text, exec_list_dir, exec_read_file, exec_shell,
  exec_read_document, exec_move_file, exec_trash_file, execute,
}

-- A path below the root that does not lead out of it again: it has no "..".
abbrev pub stays : Text → Text → Bool
stays canonical_root p = path_starts_with p canonical_root && not (leads_up p)

-- A machine that refuses every path that a tool may name and that does not stay below
-- `canonical_root`, and every process but an allowed command that is started in the workspace. No tool
-- writes, so writing is not fenced.
abbrev pub fenced : {W : Type 0} → Text → Text → Machine W → Machine W
fenced canonical_root root m = record m {
  read_dir = λ w p. if stays canonical_root p then m.read_dir w p else err [];
  read_to_string = λ w p. if stays canonical_root p then m.read_to_string w p else err [];
  pdf_text = λ w p. if stays canonical_root p then m.pdf_text w p else err [];
  document_xml =
      λ w p. if stays canonical_root p then m.document_xml w p else err (path_traversal []);
  sheet_text = λ w p. if stays canonical_root p then m.sheet_text w p else err (path_traversal []);
  rename = λ w p q.
      if stays canonical_root p && stays canonical_root q then m.rename w p q else (err [], w);
  delete = λ w p. if stays canonical_root p then m.delete w p else (err [], w);
  output = λ w command args cwd.
      if one_of command allowed_commands && text_eq cwd root
      then m.output w command args cwd
      else (err [], w);
}

pub inside_sound :
    (canonical_root target path : Text) {p : Text}
    → inside canonical_root target path ≡ ok p
    → (p ≡ path) × (path_starts_with path canonical_root ≡ true)
unfolding inside
inside_sound canonical_root target path h = within (path_starts_with path canonical_root) refl h
  where
    within :
        (is_within : Bool) {p : Text}
        → path_starts_with path canonical_root ≡ is_within
        → ◌≡◌ {A = Result Text Fault}
            (if not is_within then err (error (path_traversal target)) else ok path)
            (ok p)
        → (p ≡ path) × (path_starts_with path canonical_root ≡ true)
    within true e h = (ok-injective (sym h), e)
    within false e h = cc

-- What `canonicalize` documents: a canonical path has no "..".
abbrev pub IsStraight : {W : Type 0} → Machine W → Type 0
IsStraight {W = W} m = (w : W) (p q : Text) → m.canonicalize w p ≡ ok q → leads_up q ≡ false

canonicalized-leads_up :
    (r : Result Text Text) {p : Text}
    → ((q : Text) → r ≡ ok q → leads_up q ≡ false)
    → or_io r ≡ ok p
    → leads_up p ≡ false
canonicalized-leads_up (ok q) law h = ap leads_up (sym (ok-injective h)) ∙ law q refl
canonicalized-leads_up (err e) law h = cc

module _ {W : Type 0} (m : Machine W) (root canonical_root : Text) (w : W)
    (known : m.canonicalize w root ≡ ok canonical_root) (straight : IsStraight m) where
  -- A target is canonicalized, or normalized where it does not exist.
  canonical_target-leads_up :
      (path : Text) {p : Text} → canonical_target m w path ≡ ok p → leads_up p ≡ false
  unfolding canonical_target
  canonical_target-leads_up path {p} h = elim (Bool-cases (m.exists w path)) [
    | inl e ↦ canonicalized-leads_up (m.canonicalize w path) (straight w path) (rw e at h)
    | inr e ↦ ap leads_up (sym (ok-injective (rw e at h))) ∙ normalize_lexical-leads_up path
  ]

  -- What the guard lets through lies in the workspace.
  pub guard_path-inside :
      (target : Text) {p : Text} → guard_path m root w target ≡ ok p → stays canonical_root p ≡ true
  unfolding guard_path
  guard_path-inside target h =
      let h' = rw known at h in
      let (path, found, ended) =
        steps_of_ok (canonical_target m w (absolute_target canonical_root target)) _ h' in
      let (same, within) = inside_sound canonical_root target path ended in
      rw (same, within, canonical_target-leads_up _ found) refl

  abbrev pub fence : Machine W
  fence = fenced canonical_root root m

  pub guard_path-fenced :
      (target : Text) → guard_path fence root w target ≡ guard_path m root w target
  unfolding guard_path canonical_target
  guard_path-fenced target = refl

  exec_list_dir-fenced :
      (cs : Casing) (path : Text)
      → exec_list_dir cs fence root w path ≡ exec_list_dir cs m root w path
  unfolding exec_list_dir
  exec_list_dir-fenced cs path =
      rw (guard_path-fenced path)
        (same_bind (guard_path m root w path) _ _ (λ p h. rw (guard_path-inside path h) refl))

  exec_read_file-fenced :
      (cs : Casing) (path : Text)
      → exec_read_file cs fence root w path ≡ exec_read_file cs m root w path
  unfolding exec_read_file
  exec_read_file-fenced cs path =
      rw (guard_path-fenced path)
        (same_bind (guard_path m root w path) _ _ (λ p h. rw (guard_path-inside path h) refl))

  exec_read_document-fenced :
      (cs : Casing) (path : Text)
      → exec_read_document cs fence root w path ≡ exec_read_document cs m root w path
  unfolding exec_read_document document_text
  exec_read_document-fenced cs path =
      rw (guard_path-fenced path)
        (same_bind (guard_path m root w path) _ _ (λ p h. rw (guard_path-inside path h) refl))

  exec_shell-fenced :
      (cs : Casing) (command : Text) (args : List Text)
      → exec_shell cs fence root w command args ≡ exec_shell cs m root w command args
  unfolding exec_shell
  exec_shell-fenced cs command args = elim (Bool-cases (one_of command allowed_commands)) [
    | inl e ↦ rw (e, text_eq_refl root) refl
    | inr e ↦ rw e refl
  ]

  exec_move_file-fenced :
      (cs : Casing) (source dest : Text)
      → exec_move_file cs fence root w source dest ≡ exec_move_file cs m root w source dest
  unfolding exec_move_file
  exec_move_file-fenced cs source dest =
      rw (guard_path-fenced source, guard_path-fenced dest)
        (same_then w (guard_path m root w source) _ _ (λ p h.
          same_then w (guard_path m root w dest) _ _
            (λ q h'. rw (guard_path-inside source h, guard_path-inside dest h') refl)))

  exec_trash_file-fenced :
      (cs : Casing) (path : Text)
      → exec_trash_file cs fence root w path ≡ exec_trash_file cs m root w path
  unfolding exec_trash_file
  exec_trash_file-fenced cs path =
      rw (guard_path-fenced path)
        (same_then w (guard_path m root w path) _ _ (λ p h. rw (guard_path-inside path h) refl))

  -- Every tool does the same on a machine that refuses every path that is not below the canonical root
  -- or that has a "..", and every process but an allowed command that is started in the root, if
  -- canonicalizing a path leaves no ".." in it. The arguments of such a command are not looked at, and
  -- neither is whether a path below the root is a link.
  pub execute-fenced :
      (cs : Casing) (tool : ToolCall)
      → execute cs (fenced canonical_root root m) root w tool ≡ execute cs m root w tool
  unfolding execute
  execute-fenced cs (fs_list_dir path) = ap (λ r. (r, w)) (exec_list_dir-fenced cs path)
  execute-fenced cs (fs_read_file path) = ap (λ r. (r, w)) (exec_read_file-fenced cs path)
  execute-fenced cs (shell_run command args) = exec_shell-fenced cs command args
  execute-fenced cs (read_document path) = ap (λ r. (r, w)) (exec_read_document-fenced cs path)
  execute-fenced cs (move_file source dest) = exec_move_file-fenced cs source dest
  execute-fenced cs (trash_file path) = exec_trash_file-fenced cs path
