-- ===== src/Guardrail/Laws.antt =====
-- oxcer-core/src/guardrail.rs: the calls that the guardrail reads, and the answers that it lets through.
use mathlib.Core.List.{append_assoc}
use oxcer_agent.Prelude.{
  false, List, [], ◌∷◌, ◌++◌, ok, ◌≡◌, refl, sym, ap, ◌∙◌, All, All-append, ◌==◌,
}
use oxcer_agent.Text.{Text, codes, text_eq, trim, is_whitespace}
use oxcer_agent.Text.Trim.{
  IsTrimmed, IsWord, BeginsSolid-append, BeginsSolid-IsWord, is_empty-BeginsSolid, trim-IsTrimmed,
  trim_end-append, trim-append_blank, trim_blank, IsTrimmed-append, IsTrimmed-IsWord,
  split_once-append, append_nil, split_once-none, behind_blanks, split_whitespace-words, IsWord-of,
  trim_end-words, filled_append,
}
use oxcer_agent.Executor.{
  ToolCall, fs_list_dir, fs_read_file, shell_run, read_document, move_file, trash_file,
}
use oxcer_agent.Guardrail.{
  tool, two_parts, one_path, move_spec, shell_spec, select_tool, validate_action_selection,
}

-- The line that a model writes for a call.
unfoldable pub print_call : ToolCall → Text
unfolding behind_blanks
print_call (fs_list_dir path) = codes "fs_list_dir " ++ path
print_call (fs_read_file path) = codes "fs_read_file " ++ path
print_call (read_document path) = codes "read_document " ++ path
print_call (trash_file path) = codes "trash_file " ++ path
print_call (move_file source dest) = codes "move_file " ++ (source ++ (codes " | " ++ dest))
print_call (shell_run command args) = codes "shell_run " ++ (command ++ behind_blanks args)

-- A call whose parts can be told apart in such a line.
abbrev pub Printable : ToolCall → Type 0
Printable (fs_list_dir path) = IsTrimmed path
Printable (fs_read_file path) = IsTrimmed path
Printable (read_document path) = IsTrimmed path
Printable (trash_file path) = IsTrimmed path
Printable (move_file source dest) =
    IsTrimmed source × IsTrimmed dest × All (λ c. (c == b'|') ≡ false) source
Printable (shell_run command args) = IsWord command × All IsWord args

-- A tool's name, a blank and what follows are taken apart again.
named_parts :
    (name rest : Text)
    → IsWord name
    → IsTrimmed rest
    → two_parts is_whitespace (name ++ 32 ∷ rest) ≡ (name, rest)
unfolding two_parts is_whitespace
named_parts name rest word trimmed =
    rw
      (
        split_once-append is_whitespace name rest 32 word.solid refl,
        trim-IsTrimmed name (IsTrimmed-IsWord name word),
        trim-IsTrimmed rest trimmed,
      )
      refl

-- A line of a name and a trimmed rest is trimmed.
named_line :
    (name rest : Text) → IsWord name → IsTrimmed rest → trim (name ++ 32 ∷ rest) ≡ name ++ 32 ∷ rest
named_line name rest word trimmed = trim-IsTrimmed (name ++ 32 ∷ rest) (
    IsTrimmed-append name (32 ∷ rest) (BeginsSolid-IsWord name word) refl
      (trim_end-append (32 ∷ []) rest (is_empty-BeginsSolid rest trimmed.starts) trimmed.ends))

selected :
    (name rest : Text)
    → IsWord name
    → IsTrimmed rest
    → text_eq (name ++ 32 ∷ rest) (codes "[NO_TOOL]") ≡ false
    → validate_action_selection (name ++ 32 ∷ rest) ≡ select_tool (name, rest)
unfolding validate_action_selection
selected name rest word trimmed other =
    rw
      (
        named_line name rest word trimmed,
        filled_append name (32 ∷ rest) word.filled,
        other,
        named_parts name rest word trimmed,
      )
      refl

path_tool :
    (name path : Text) (call : Text → ToolCall)
    → IsWord name
    → IsTrimmed path
    → text_eq (name ++ 32 ∷ path) (codes "[NO_TOOL]") ≡ false
    → select_tool (name, path) ≡ one_path name path call
    → validate_action_selection (name ++ 32 ∷ path) ≡ ok (tool (call path))
unfolding one_path
path_tool name path call word trimmed other chosen =
    selected name path word trimmed other
    ∙ chosen
    ∙ rw (is_empty-BeginsSolid path trimmed.starts) refl

-- The names of the tools are words.
tool_names :
    IsWord (codes "fs_list_dir")
    × IsWord (codes "fs_read_file")
    × IsWord (codes "read_document")
    × IsWord (codes "trash_file")
    × IsWord (codes "move_file")
    × IsWord (codes "shell_run")
unfolding is_whitespace
tool_names = (
  IsWord-of (codes "fs_list_dir") refl refl,
  IsWord-of (codes "fs_read_file") refl refl,
  IsWord-of (codes "read_document") refl refl,
  IsWord-of (codes "trash_file") refl refl,
  IsWord-of (codes "move_file") refl refl,
  IsWord-of (codes "shell_run") refl refl,
)

-- The source and the destination of a move are taken apart at the bar.
move_parts :
    (source dest : Text)
    → IsTrimmed source
    → IsTrimmed dest
    → All (λ c. (c == b'|') ≡ false) source
    → two_parts (λ c. c == b'|') (source ++ (codes " | " ++ dest)) ≡ (source, dest)
unfolding two_parts is_whitespace
move_parts source dest s d bar =
    ap (two_parts (λ c. c == b'|')) (sym (append_assoc source (32 ∷ []) (124 ∷ 32 ∷ dest)))
    ∙ rw
        (
          split_once-append (λ c. c == b'|') (source ++ 32 ∷ []) (32 ∷ dest) 124
              (All-append (λ c. (c == b'|') ≡ false) source (32 ∷ []) bar (refl, tt)) refl,
          trim-append_blank source 32 s refl,
          trim_blank dest 32 d refl,
        )
        refl

-- Words with a blank between them.
abbrev joined : List Text → Text
joined [] = []
joined (w ∷ ws) = w ++ behind_blanks ws

words-IsTrimmed :
    (w : Text) (ws : List Text) → IsWord w → All IsWord ws → IsTrimmed (w ++ behind_blanks ws)
words-IsTrimmed w ws word words = record {
  starts = BeginsSolid-append w (behind_blanks ws) (BeginsSolid-IsWord w word);
  ends = trim_end-words w ws word words;
}

-- The command and its arguments are taken apart at the first blank.
shell_parts :
    (command : Text) (args : List Text)
    → IsWord command
    → All IsWord args
    → (two_parts is_whitespace (command ++ behind_blanks args) ≡ (command, joined args))
      × (shell_spec (command, joined args) ≡ ok (tool (shell_run command args)))
unfolding two_parts shell_spec behind_blanks trim is_whitespace
shell_parts command [] word words = (
  rw
      (
        append_nil command,
        split_once-none is_whitespace command word.solid,
        trim-IsTrimmed command (IsTrimmed-IsWord command word),
      )
      refl,
  refl,
)
shell_parts command (w ∷ ws) word (first, rest) = (
  rw
      (
        split_once-append is_whitespace command (w ++ behind_blanks ws) 32 word.solid refl,
        trim-IsTrimmed command (IsTrimmed-IsWord command word),
        trim-IsTrimmed (w ++ behind_blanks ws) (words-IsTrimmed w ws first rest),
      )
      refl,
  rw (filled_append w (behind_blanks ws) first.filled, split_whitespace-words w ws first rest) refl,
)

-- Every call whose parts can be told apart in a line is read back from that line.
pub validate_action_selection-print_call :
    (call : ToolCall)
    → Printable call
    → validate_action_selection (print_call call) ≡ ok (tool call)
unfolding print_call select_tool text_eq move_spec
validate_action_selection-print_call (fs_list_dir path) h =
    path_tool (codes "fs_list_dir") path fs_list_dir tool_names.0 h refl refl
validate_action_selection-print_call (fs_read_file path) h =
    path_tool (codes "fs_read_file") path fs_read_file tool_names.1 h refl refl
validate_action_selection-print_call (read_document path) h =
    path_tool (codes "read_document") path read_document tool_names.2 h refl refl
validate_action_selection-print_call (trash_file path) h =
    path_tool (codes "trash_file") path trash_file tool_names.3 h refl refl
validate_action_selection-print_call (move_file source dest) (s, d, bar) =
    selected (codes "move_file") (source ++ (codes " | " ++ dest)) tool_names.4
      (IsTrimmed-append source (codes " | " ++ dest) s.starts refl
        (trim_end-append (codes " | ") dest (is_empty-BeginsSolid dest d.starts) d.ends))
      refl
    ∙ rw
        (
          move_parts source dest s d bar,
          is_empty-BeginsSolid source s.starts,
          is_empty-BeginsSolid dest d.starts,
        )
        refl
validate_action_selection-print_call (shell_run command args) (word, words) =
    let (parts, spec) = shell_parts command args word words in
    selected (codes "shell_run") (command ++ behind_blanks args) tool_names.5
      (words-IsTrimmed command args word words) refl
    ∙ rw (filled_append command (behind_blanks args) word.filled, parts, spec) refl
