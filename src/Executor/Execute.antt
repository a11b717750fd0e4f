-- ===== src/Executor/Execute.antt =====
-- oxcer-core/src/executor.rs, `execute`: one operation for each tool.
use Prim.Native.Nat.{Ordering}
use oxcer_agent.Prelude.{
  ℕ, ◌*◌, Bool, not, List, [], ◌∷◌, ◌++◌, map, Option, none, some, any, is_empty, ltb, Result, ok,
  err, ◌>>=◌, then_do, if◌then◌else◌,
}
use oxcer_agent.Text.{Text, Casing, codes, text_eq, text_compare, len, slice_to, join}
use oxcer_agent.Paths.{extension}
use oxcer_agent.Executor.{
  ExecutorError, command_not_allowed, command_failed, unsupported_format, trash, Fault, panicked,
  error, ToolCall, fs_list_dir, fs_read_file, shell_run, read_document, move_file, trash_file,
  Output, Machine, or_io, guard_path,
}
use oxcer_agent.Executor.Docx.{docx_xml_to_text}

abbrev pub allowed_commands : List Text
allowed_commands =
    codes "ls"
    ∷ codes "cat"
    ∷ codes "head"
    ∷ codes "tail"
    ∷ codes "find"
    ∷ codes "grep"
    ∷ codes "wc"
    ∷ codes "echo"
    ∷ codes "pwd"
    ∷ []

abbrev pub read_document_max_bytes : ℕ
read_document_max_bytes = 100 * 1024

-- `sort_unstable` on strings.
unfoldable pub insert_name : Text → List Text → List Text
unfolding text_compare
insert_name x [] = x ∷ []
insert_name x (y ∷ ys) =
    let later = y ∷ insert_name x ys in
    elim (text_compare x y) [ Ordering.gt ↦ later | other ↦ x ∷ y ∷ ys ]

unfoldable pub sort_names : List Text → List Text
unfolding insert_name
sort_names [] = []
sort_names (x ∷ xs) = insert_name x (sort_names xs)

abbrev entry_name : Text × Bool → Text
entry_name (name, is_dir) = if is_dir then name ++ codes "/" else name

unfoldable pub listing : List (Text × Bool) → Text
unfolding sort_names join
listing entries =
    if is_empty entries
    then codes "(empty directory)"
    else join (10 ∷ []) (sort_names (map entry_name entries))

unfoldable pub truncation_warning : Text
truncation_warning = 10 ∷ 10 ∷ codes "[WARNING] Document truncated to avoid exceeding LLM context."

-- The cut is by bytes, and panics inside a character.
unfoldable pub truncated : Text → Result Text Fault
unfolding len slice_to
truncated text =
    if ltb read_document_max_bytes (len text)
    then elim (slice_to read_document_max_bytes text) [
      | none ↦ err panicked
      | some start ↦ ok (start ++ truncation_warning)
    ]
    else ok text

abbrev pub or_error : {A : Type 0} → Result A ExecutorError → Result A Fault
or_error (ok a) = ok a
or_error (err e) = err (error e)

abbrev pub or_empty : Option Text → Text
or_empty none = []
or_empty (some s) = s

abbrev pub one_of : Text → List Text → Bool
one_of s ts = any (λ t. text_eq s t) ts

-- `String::from_utf8_lossy` is in `Output`.
unfoldable pub shell_result : Result Output Text → Result Text Fault
shell_result (err e) = err (error (ExecutorError.io e))
shell_result (ok output) =
    if output.success
    then ok output.stdout
    else err (error (command_failed output.code output.stderr))

abbrev pub or_trash : Result (Unit {0}) Text → Result (Unit {0}) Fault
or_trash (ok u) = ok u
or_trash (err e) = err (error (trash e))

-- The message of a step that has changed the machine.
abbrev pub reported : {W : Type 0} → Text → Result (Unit {0}) Fault × W → Result Text Fault × W
reported done (ok u, w) = (ok done, w)
reported done (err e, w) = (err e, w)

-- `map_err` in `extract_pdf_text`.
abbrev pub pdf_result : Result Text Text → Result Text ExecutorError
pdf_result (ok t) = ok t
pdf_result (err e) = err (ExecutorError.document_parse (codes "PDF parse error: " ++ e))

module _ {W : Type 0} (cs : Casing) (m : Machine W) (root : Text) where
  unfoldable pub exec_list_dir : W → Text → Result Text Fault
  unfolding guard_path listing
  exec_list_dir w path = do
    guarded ← guard_path m root w path
    entries ← or_io (m.read_dir w guarded)
    ok (listing entries)

  unfoldable pub exec_read_file : W → Text → Result Text Fault
  unfolding guard_path
  exec_read_file w path = do guarded ← guard_path m root w path; or_io (m.read_to_string w guarded)

  unfoldable pub exec_shell : W → Text → List Text → Result Text Fault × W
  unfolding shell_result
  exec_shell w command args =
      if not (one_of command allowed_commands)
      then (err (error (command_not_allowed command)), w)
      else (let (result, w') = m.output w command args root in (shell_result result, w'))

  -- The text of a document by its extension.
  unfoldable pub document_text : W → Text → Text → Result Text Fault
  unfolding docx_xml_to_text text_eq
  document_text w guarded ext =
      if one_of ext (codes "txt" ∷ codes "md" ∷ codes "csv" ∷ codes "log" ∷ codes "rst" ∷ [])
      then or_io (m.read_to_string w guarded)
      else if text_eq ext (codes "pdf")
      then or_error (pdf_result (m.pdf_text w guarded))
      else if text_eq ext (codes "docx")
      then (do xml ← or_error (m.document_xml w guarded); ok (docx_xml_to_text xml))
      else if one_of ext (codes "xlsx" ∷ codes "xls" ∷ codes "ods" ∷ [])
      then or_error (m.sheet_text w guarded)
      else err (error (unsupported_format ext))

  unfoldable pub exec_read_document : W → Text → Result Text Fault
  unfolding guard_path extension document_text truncated
  exec_read_document w path = do
    guarded ← guard_path m root w path
    text ← document_text w guarded (cs.to_lowercase (or_empty (extension guarded)))
    truncated text

  unfoldable pub exec_move_file : W → Text → Text → Result Text Fault × W
  unfolding guard_path
  exec_move_file w source dest = then_do w (guard_path m root w source) (λ guarded_src.
      then_do w (guard_path m root w dest) (λ guarded_dst.
        let (result, w') = m.rename w guarded_src guarded_dst in
        reported (codes "Moved '" ++ (source ++ (codes "' → '" ++ (dest ++ codes "'"))))
          (or_io result, w')))

  unfoldable pub exec_trash_file : W → Text → Result Text Fault × W
  unfolding guard_path
  exec_trash_file w path = then_do w (guard_path m root w path) (λ guarded.
      let (result, w') = m.delete w guarded in
      reported (codes "'" ++ (path ++ codes "' moved to trash")) (or_trash result, w'))

  unfoldable pub execute : W → ToolCall → Result Text Fault × W
  unfolding exec_list_dir exec_read_file exec_shell exec_read_document exec_move_file
      exec_trash_file
  execute w (fs_list_dir path) = (exec_list_dir w path, w)
  execute w (fs_read_file path) = (exec_read_file w path, w)
  execute w (shell_run command args) = exec_shell w command args
  execute w (read_document path) = (exec_read_document w path, w)
  execute w (move_file source dest) = exec_move_file w source dest
  execute w (trash_file path) = exec_trash_file w path
