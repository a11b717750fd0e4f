-- ===== src/Fsm/Prompts.antt =====
-- oxcer-core/src/fsm.rs: the prompts.
use mathlib.Core.Option
use oxcer_agent.Prelude.{
  ℕ, Bool, true, false, ◌&&◌, ◌||◌, List, [], ◌∷◌, ◌++◌, map, Option, none, some, is_empty, ltb,
  if◌then◌else◌,
}
use mathlib.Core.List.{reverse}
use oxcer_agent.Text.{Text, Casing, codes, len, slice_to, join, contains}
use oxcer_agent.Fsm.{World, EpisodicFact}

abbrev pub newline : Text
newline = 10 ∷ []

-- `&out[..out.len().min(n)]`; a cut inside a character panics.
unfoldable pub first_bytes : ℕ → Text → Option Text
unfolding len slice_to
first_bytes n out = slice_to (if ltb (len out) n then len out else n) out

abbrev pub selection_rules : List Text
selection_rules =
    codes "You are a local OS Agent. You have authorization to read, move, and trash files."
    ∷ codes "Output EXACTLY one line — the tool call or [NO_TOOL]. No explanation, no markdown."
    ∷ []
    ∷ codes "Available tools:"
    ∷ codes "  fs_list_dir <path>              — list directory contents"
    ∷ codes "  fs_read_file <path>             — read a plain-text file"
    ∷ codes "  read_document <path>            — extract text from TXT, PDF, DOCX, or XLSX"
    ∷ codes "  move_file <source> | <dest>     — move a file within the workspace"
    ∷ codes "  trash_file <path>               — move a file/folder to the OS recycle bin"
    ∷ codes "  shell_run <command> [args...]   — run an allowed shell command"
    ∷ codes "  [NO_TOOL]                       — no tool needed; proceed to answer"
    ∷ []
    ∷ codes "Rules:"
    ∷ codes "  - Do not apologize for modifying files. Execute the user's intent directly."
    ∷ codes "  - When asked to summarize a document, call read_document first, then [NO_TOOL]."
    ∷ codes "    A <filename>.summary.md will be written automatically beside the source file."
    ∷ codes "  - move_file args are separated by ' | ' (space-pipe-space)."
    ∷ codes "  - Use absolute paths from [CONTEXT] when the user says 'Desktop', 'Downloads',"
    ∷ codes "    'Documents', 'this file', or 'that file'."
    ∷ []
    ∷ []

-- A part of its own behind an empty line, if there is something to say.
abbrev section : Text → List Text
section s = if is_empty s then [] else [] ∷ s ∷ []

unfoldable pub previous_output_section : Option Text → Option (List Text)
unfolding first_bytes
previous_output_section none = some []
previous_output_section (some out) =
    Option.map
      (λ start.
        []
        ∷ (codes "[PREVIOUS_TOOL_OUTPUT]"
            ++ (newline ++ (start ++ (newline ++ codes "[/PREVIOUS_TOOL_OUTPUT]"))))
        ∷ codes "Do you need another tool, or is [NO_TOOL] sufficient?"
        ∷ [])
      (first_bytes 1000 out)

-- `none` is a panic.
unfoldable pub build_action_selection_prompt : Text → Text → Option Text → Text → Option Text
unfolding previous_output_section join
build_action_selection_prompt query memory_context previous_output context_section =
    Option.map
      (λ previous. join newline (
        selection_rules
        ++ ((codes "Query: " ++ query)
            ∷ (section context_section ++ (section memory_context ++ previous)))))
      (previous_output_section previous_output)

unfoldable pub tool_output_section : Option Text → Option Text
unfolding first_bytes
tool_output_section none = some (
    codes "[TOOL_OUTPUT]"
    ++ (newline ++ (codes "(no tool was run)" ++ (newline ++ codes "[/TOOL_OUTPUT]"))))
tool_output_section (some out) =
    Option.map
      (λ start.
        codes "[TOOL_OUTPUT]" ++ (newline ++ (start ++ (newline ++ codes "[/TOOL_OUTPUT]"))))
      (first_bytes 2000 out)

-- `none` is a panic.
unfoldable pub build_finalize_prompt : Text → Option Text → Option Text
unfolding tool_output_section join
build_finalize_prompt query tool_output =
    Option.map
      (λ shown. join newline (
        codes "You are an answer-synthesis module."
        ∷ codes "Given the tool output below, answer the query in plain language."
        ∷ codes "Be concise. Do not mention the tools you used."
        ∷ []
        ∷ (codes "Query: " ++ query)
        ∷ []
        ∷ shown
        ∷ []
        ∷ codes "Answer:"
        ∷ []))
      (tool_output_section tool_output)

unfoldable pub is_summarization_query : Casing → Text → Bool
unfolding contains
is_summarization_query cs query =
    let q = cs.to_lowercase query in
    contains q (codes "summar")
    || contains q (codes "overview")
    || contains q (codes "brief")
    || contains q (codes "tldr")
    || contains q (codes "tl;dr")
    || contains q (codes "condense")

abbrev known_dir : Text → Option Text → List (Text × Text)
known_dir name none = []
known_dir name (some p) = (name, p) ∷ []

unfoldable pub known_dirs : {W : Type 0} → World W → List (Text × Text)
known_dirs world =
    known_dir (codes "Desktop") world.desktop_dir
    ++ (known_dir (codes "Downloads") world.download_dir
        ++ (known_dir (codes "Documents") world.document_dir
            ++ known_dir (codes "Home") world.home_dir))

abbrev known_line : Text × Text → Text
known_line (name, path) = codes "  " ++ (name ++ (codes " = " ++ path))

abbrev current_line : Option Text → List Text
current_line none = []
current_line (some dir) = (codes "  current_dir = " ++ dir) ∷ []

-- The most recent file comes first.
unfoldable pub recent_lines : List Text → List Text
recent_lines [] = []
recent_lines (f ∷ fs) = codes "  recent_files:" ∷ map (λ p. codes "    - " ++ p) (reverse (f ∷ fs))

abbrev is_none : Option Text → Bool
is_none none = true
is_none (some p) = false

unfoldable pub build_context_section : {W : Type 0} → World W → Option Text → List Text → Text
unfolding known_dirs recent_lines join
build_context_section world context_dir recent_files =
    if is_empty (known_dirs world) && is_none context_dir && is_empty recent_files
    then []
    else join newline (
        codes "[CONTEXT]"
        ∷ (map known_line (known_dirs world)
            ++ (current_line context_dir
                ++ (recent_lines recent_files ++ codes "[/CONTEXT]" ∷ []))))

-- The memory that stands in front of the selection prompt.
unfoldable pub memory_section : List EpisodicFact → Text
unfolding join
memory_section [] = []
memory_section (f ∷ facts) = join newline (
    codes "[MEMORY]"
    ∷ (map (λ fact. codes "Q: " ++ (fact.query ++ (codes " => " ++ fact.observation))) (f ∷ facts)
        ++ codes "[/MEMORY]" ∷ []))
