-- ===== src/Memory.antt =====
-- oxcer-core/src/memory.rs: the facts that the sub-agents keep in a Markdown file. The clock is an
-- argument, and the file system is the interface `Storage`.
pub mod Markdown
pub mod Laws
pub mod Fuel
pub mod Persist
mod Tests
use oxcer_agent.Prelude.{
  ℕ, suc, ◌+◌, ◌-◌, Bool, true, false, not, ◌||◌, List, [], ◌∷◌, ◌++◌, map, Option, none, some, any,
  retain, push, take, drop, length, ltb, leb, is_empty, if◌then◌else◌, Result, ok, err,
}
use mathlib.Core.List.{reverse}
use oxcer_agent.Text.{Text, Casing, codes, text_eq, contains, len, join, split_whitespace}
use oxcer_agent.Paths.{parent, components, is_prefix}
use oxcer_agent.Executor.Display.{decimal}
use oxcer_agent.Memory.Markdown.{Fact, to_markdown, parse_markdown_facts}

abbrev pub max_facts : ℕ
max_facts = 200

abbrev pub compact_keep : ℕ
compact_keep = 100

abbrev pub query_max_results : ℕ
query_max_results = 10

pub record Memory : Type 0 where
  pub path : Text
  pub facts : List Fact

abbrev pub in_memory : Memory
in_memory = record { path = codes "/dev/null"; facts = [] }

-- What the memory uses of `std::fs`. The results of the two writing calls are dropped.
pub record Storage (W : Type 0) : Type 0 where
  pub exists : W → Text → Bool
  pub read_to_string : W → Text → Result Text Text
  pub create_dir_all : W → Text → W
  pub write : W → Text → Text → W

abbrev pub tag_if : Bool → Text → List Text
tag_if true tag = tag ∷ []
tag_if false tag = []

abbrev pub file_exts : List Text
file_exts =
    codes ".rs"
    ∷ codes ".swift"
    ∷ codes ".py"
    ∷ codes ".ts"
    ∷ codes ".js"
    ∷ codes ".md"
    ∷ codes ".toml"
    ∷ codes ".json"
    ∷ codes ".yaml"
    ∷ codes ".yml"
    ∷ codes ".txt"
    ∷ codes ".sh"
    ∷ codes ".csv"
    ∷ codes ".pdf"
    ∷ codes ".docx"
    ∷ []

unfoldable pub has_file_ext : Text → Bool
unfolding contains
has_file_ext lower = any (λ ext. contains lower ext) file_exts

unfoldable pub derive_tags : Casing → Text → List Text
unfolding has_file_ext contains
derive_tags cs content =
    let lower = cs.to_lowercase content in
    tag_if (contains lower (codes "read ") || contains lower (codes "file:") || has_file_ext lower)
      (codes "file")
    ++ (tag_if
          (contains lower (codes "list ")
            || contains lower (codes "directory")
            || contains lower (codes "folder")
            || contains lower (codes "glob")
            || contains lower (codes "explore"))
          (codes "dir")
        ++ (tag_if
              (contains lower (codes "search")
                || contains lower (codes "grep")
                || contains lower (codes "pattern"))
              (codes "search")
            ++ tag_if
                (contains lower (codes "summary")
                  || contains lower (codes "summarize")
                  || contains lower (codes "lines")
                  || contains lower (codes "answer"))
                (codes "summary")))

abbrev pub fact_of : Text → List Text → Text → Fact
fact_of timestamp tags content = record { timestamp = timestamp; tags = tags; content = content }

-- The fact that says what was dropped, and when.
unfoldable pub marker : Text → ℕ → Fact
unfolding decimal
marker now dropped =
    fact_of now (codes "meta" ∷ [])
      (codes "[compacted] Dropped " ++ (decimal dropped ++ (codes " old facts on " ++ now)))

unfoldable pub compact : Text → List Fact → List Fact
unfolding marker
compact now facts =
    let keep_from = length facts - compact_keep in marker now keep_from ∷ drop keep_from facts

-- The facts behind `append_fact`, at the times `now` and `later`.
unfoldable pub appended : Casing → Text → Text → Text → List Fact → List Fact
unfolding derive_tags compact
appended cs now later content facts =
    let longer = push facts (fact_of now (derive_tags cs content) content) in
    if ltb max_facts (length longer) then compact later longer else longer

-- Paths are equal by their components.
unfoldable pub is_dev_null : Text → Bool
unfolding components is_prefix
is_dev_null p =
    let null = components (codes "/dev/null") in
    if is_prefix null (components p) then is_prefix (components p) null else false

-- The facts that a question names, and how often; stable sorting puts the best first.
unfoldable pub keywords : Casing → Text → List Text
unfolding split_whitespace len
keywords cs question = retain (λ w. leb 3 (len w)) (map cs.to_lowercase (split_whitespace question))

unfoldable pub score : Casing → List Text → Fact → ℕ
unfolding contains join
score cs words fact =
    let haystack = cs.to_lowercase fact.content ++ (codes " " ++ join (codes " ") fact.tags) in
    length (retain (λ w. contains haystack w) words)

unfoldable pub insert_scored : ℕ × Fact → List (ℕ × Fact) → List (ℕ × Fact)
insert_scored (n, f) [] = (n, f) ∷ []
insert_scored (n, f) ((m, g) ∷ rest) =
    let later = insert_scored (n, f) rest in
    if ltb n m then (m, g) ∷ later else (n, f) ∷ (m, g) ∷ rest

unfoldable pub sort_scored : List (ℕ × Fact) → List (ℕ × Fact)
unfolding insert_scored
sort_scored [] = []
sort_scored (x ∷ xs) = insert_scored x (sort_scored xs)

unfoldable pub query : Casing → List Fact → Text → List Fact
unfolding keywords score sort_scored
query cs facts question =
    let words = keywords cs question in
    if is_empty words
    then take query_max_results (reverse facts)
    else map (λ (n, f). f)
        (take query_max_results
          (sort_scored (retain (λ (n, f). ltb 0 n) (map (λ f. (score cs words f, f)) facts))))

abbrev pub fact_lines : List Fact → Text
fact_lines [] = []
fact_lines (f ∷ facts) = codes "• " ++ (f.content ++ (10 ∷ fact_lines facts))

unfoldable pub as_context : Casing → List Fact → Text → Text
unfolding query
as_context cs facts question =
    let relevant = query cs facts question in
    if is_empty relevant
    then []
    else codes "[MEMORY_CONTEXT]\n" ++ (fact_lines relevant ++ codes "[/MEMORY_CONTEXT]")

abbrev or_empty : Result Text Text → Text
or_empty (ok s) = s
or_empty (err e) = []

module _ {W : Type 0} (st : Storage W) where
  unfoldable pub load_or_create : W → Text → Memory
  unfolding parse_markdown_facts
  load_or_create w path = record {
    path = path;
    facts =
        if st.exists w path then parse_markdown_facts (or_empty (st.read_to_string w path)) else [];
  }

  unfoldable pub save : Memory → W → W
  unfolding is_dev_null to_markdown parent
  save memory w =
      if is_dev_null memory.path
      then w
      else st.write (elim (parent memory.path) [ none ↦ w | some dir ↦ st.create_dir_all w dir ])
          memory.path (to_markdown memory.facts)

  unfoldable pub append_fact : Casing → Text → Text → Memory → Text → W → Memory × W
  unfolding appended save
  append_fact cs now later memory content w =
      let memory' : Memory = record memory { facts = appended cs now later content memory.facts } in
      (memory', save memory' w)
