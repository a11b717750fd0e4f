-- ===== src/Router/Words.antt =====
-- oxcer-core/src/semantic_router.rs: the keyword lists and the heuristics on a task's text.
use oxcer_agent.Prelude.{Bool, false, not, ◌&&◌, ◌||◌, List, [], ◌∷◌, any, ltb, if◌then◌else◌}
use oxcer_agent.Text.{Text, Casing, codes, len, contains, starts_with, ends_with, trim}
use oxcer_agent.Router.{TaskContext}

abbrev pub tool_verbs : List Text
tool_verbs =
    codes "list files"
    ∷ codes "list dir"
    ∷ codes "open file"
    ∷ codes "read file"
    ∷ codes "write file"
    ∷ codes "delete"
    ∷ codes "remove"
    ∷ codes "rename"
    ∷ codes "move"
    ∷ codes "copy"
    ∷ codes "rm "
    ∷ codes "mv "
    ∷ codes "cp "
    ∷ codes "shell command"
    ∷ codes "run script"
    ∷ codes "run command"
    ∷ codes "chmod"
    ∷ codes "execute"
    ∷ []

abbrev pub implicit_fs_verbs : List Text
implicit_fs_verbs =
    codes "what's in"
    ∷ codes "what is in"
    ∷ codes "whats in"
    ∷ codes "what does"
    ∷ codes "show me"
    ∷ codes "describe"
    ∷ codes "summarize"
    ∷ codes "summarise"
    ∷ codes "explain"
    ∷ codes "contents of"
    ∷ codes "what files"
    ∷ codes "list my"
    ∷ codes "browse"
    ∷ codes "overview of"
    ∷ []

abbrev pub fs_dir_hints : List Text
fs_dir_hints =
    codes "folder"
    ∷ codes "directory"
    ∷ codes "desktop"
    ∷ codes "documents"
    ∷ codes "downloads"
    ∷ codes "home"
    ∷ []

abbrev pub file_content_nouns : List Text
file_content_nouns =
    codes "paper"
    ∷ codes "document"
    ∷ codes "essay"
    ∷ codes "report"
    ∷ codes "article"
    ∷ codes "readme"
    ∷ codes "changelog"
    ∷ codes "the file"
    ∷ codes "this file"
    ∷ codes "a file"
    ∷ codes "that file"
    ∷ codes ".pdf"
    ∷ codes ".md"
    ∷ codes ".txt"
    ∷ codes ".docx"
    ∷ codes ".doc"
    ∷ codes ".csv"
    ∷ codes ".log"
    ∷ []

abbrev pub code_markers : List Text
code_markers =
    codes "fn "
    ∷ codes "fn("
    ∷ codes "class "
    ∷ codes "import "
    ∷ codes "export "
    ∷ codes "use "
    ∷ codes "def "
    ∷ codes ".rs"
    ∷ codes ".ts"
    ∷ codes ".py"
    ∷ codes ".js"
    ∷ codes ".tsx"
    ∷ codes ".swift"
    ∷ codes ".go"
    ∷ codes ".rs\""
    ∷ codes ".ts\""
    ∷ codes "function "
    ∷ codes "impl "
    ∷ []

abbrev pub planning_keywords : List Text
planning_keywords =
    codes "plan"
    ∷ codes "steps"
    ∷ codes "strategy"
    ∷ codes "design"
    ∷ codes "architecture"
    ∷ codes "break down"
    ∷ codes "what order"
    ∷ codes "how should we"
    ∷ codes "first then finally"
    ∷ []

unfoldable pub contains_any_lower : Casing → Text → List Text → Bool
unfolding contains
contains_any_lower cs s keywords = any (λ k. contains (cs.to_lowercase s) k) keywords

unfoldable pub has_tool_verbs : Casing → Text → Bool
unfolding contains_any_lower
has_tool_verbs cs task = contains_any_lower cs task tool_verbs

unfoldable pub has_implicit_fs_intent : Casing → Text → Bool
unfolding contains
has_implicit_fs_intent cs task =
    any (λ v. contains (cs.to_lowercase task) v) implicit_fs_verbs
    && any (λ d. contains (cs.to_lowercase task) d) fs_dir_hints

unfoldable pub has_implicit_file_read_intent : Casing → Text → Bool
unfolding contains
has_implicit_file_read_intent cs task =
    if any (λ d. contains (cs.to_lowercase task) d) fs_dir_hints
    then false
    else any (λ v. contains (cs.to_lowercase task) v) implicit_fs_verbs
      && any (λ n. contains (cs.to_lowercase task) n) file_content_nouns

unfoldable pub has_code_markers : Casing → Text → Bool
unfolding contains_any_lower
has_code_markers cs task = contains_any_lower cs task code_markers

unfoldable pub has_planning_keywords : Casing → Text → Bool
unfolding contains_any_lower
has_planning_keywords cs task = contains_any_lower cs task planning_keywords

-- A question about a programming language.
unfoldable pub is_language_question : Text → Bool
unfolding contains starts_with
is_language_question lower =
    starts_with lower (codes "what is ")
    && (contains lower (codes "rust")
        || contains lower (codes "python")
        || contains lower (codes "code"))

unfoldable pub is_question : Text → Bool
unfolding contains starts_with ends_with
is_question lower =
    ends_with lower (codes "?")
    || starts_with lower (codes "what is ")
    || starts_with lower (codes "how do i ")
    || starts_with lower (codes "why ")
    || starts_with lower (codes "when ")
    || (contains lower (codes "explain") && not (contains lower (codes "code")))

unfoldable pub looks_like_simple_qa : Casing → Text → TaskContext → Bool
unfolding trim len has_tool_verbs has_code_markers is_language_question is_question
looks_like_simple_qa cs task context =
    let t = trim task in
    let lower = cs.to_lowercase t in
    if ltb 200 (len t)
    then false
    else if has_tool_verbs cs t || has_code_markers cs t || context.risk_hints
    then false
    else if is_language_question lower
    then false
    else is_question lower
