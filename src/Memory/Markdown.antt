-- ===== src/Memory/Markdown.antt =====
-- oxcer-core/src/memory.rs: facts as Markdown lines, and back.
use oxcer_agent.Prelude.{
  ℕ, zero, suc, Bool, List, [], ◌∷◌, ◌++◌, Option, none, some, is_empty, length, ◌==◌,
  if◌then◌else◌,
}
use oxcer_agent.Text.{Text, codes, trim, trim_start, strip_prefix, split_once, join}

pub record Fact : Type 0 where
  pub timestamp : Text
  pub tags : List Text
  pub content : Text

unfoldable pub to_markdown_line : Fact → Text
unfolding join
to_markdown_line f =
    if is_empty f.tags
    then codes "- [" ++ (f.timestamp ++ (codes "] " ++ f.content))
    else codes "- ["
      ++ (f.timestamp ++ (codes "] `" ++ (join (codes "` `") f.tags ++ (codes "` " ++ f.content))))

unfoldable pub fact_lines : List Fact → Text
unfolding to_markdown_line
fact_lines [] = []
fact_lines (f ∷ facts) = to_markdown_line f ++ (10 ∷ fact_lines facts)

unfoldable pub to_markdown : List Fact → Text
unfolding fact_lines
to_markdown facts =
    codes "# Oxcer Memory\n\n"
    ++ (codes "<!-- Auto-generated by Oxcer. Do not edit while agent is running. -->\n\n"
        ++ (if is_empty facts
            then codes "_No facts recorded yet._\n"
            else codes "## Facts\n\n" ++ fact_lines facts))

-- `str::lines`, but for a carriage return at the end of a line, which the trimming takes off.
abbrev pub onto_line : ℕ → List Text → List Text
onto_line c [] = (c ∷ []) ∷ []
onto_line c (l ∷ ls) = (c ∷ l) ∷ ls

unfoldable pub lines : Text → List Text
lines [] = []
lines (c ∷ s) = let rest = lines s in if c == 10 then [] ∷ rest else onto_line c rest

abbrev pub backtick : ℕ → Bool
backtick c = c == b'`'

abbrev pub cut_tag : Text × Option Text → Option (Text × Text)
cut_tag (tag, none) = none
cut_tag (tag, some rest) = some (tag, trim_start rest)

-- One more tag, where the text begins with one: the tag, and what is behind it.
unfoldable pub leading_tag : Text → Option (Text × Text)
unfolding trim_start split_once
leading_tag [] = none
leading_tag (c ∷ inner) = if backtick c then cut_tag (split_once backtick inner) else none

-- The loop on fuel.
unfoldable pub tags_from : ℕ → Text → List Text × Text
unfolding leading_tag trim_start
tags_from zero rest = ([], rest)
tags_from (suc fuel) rest = elim (leading_tag (trim_start rest)) [
  | none ↦ ([], rest)
  | some (tag, behind) ↦ (let (tags, end) = tags_from fuel behind in (tag ∷ tags, end))
]

-- A turn takes two characters at least.
unfoldable pub split_leading_tags : Text → List Text × Text
unfolding tags_from
split_leading_tags s = tags_from (suc (length s)) s

abbrev pub tagged : Text → List Text × Text → Fact
tagged timestamp (tags, content) = record { timestamp = timestamp; tags = tags; content = content }

abbrev pub fact_behind : Text × Option Text → Option Fact
fact_behind (timestamp, none) = none
fact_behind (timestamp, some after) = some (tagged timestamp (split_leading_tags (trim after)))

unfoldable pub parse_line : Text → Option Fact
unfolding trim strip_prefix split_once split_leading_tags
parse_line line = elim (strip_prefix (codes "- [") (trim line)) [
  | none ↦ none
  | some rest ↦ fact_behind (split_once (λ c. c == b']') rest)
]

abbrev pub cons_some : Option Fact → List Fact → List Fact
cons_some none facts = facts
cons_some (some f) facts = f ∷ facts

unfoldable pub parse_lines : List Text → List Fact
unfolding parse_line
parse_lines [] = []
parse_lines (l ∷ ls) = cons_some (parse_line l) (parse_lines ls)

unfoldable pub parse_markdown_facts : Text → List Fact
unfolding parse_lines lines
parse_markdown_facts content = parse_lines (lines content)
