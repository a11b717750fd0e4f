-- ===== src/Memory/Tests.antt =====
-- A file of facts, and the theorems about the memory at concrete facts.
use oxcer_agent.Prelude.{
  true, false, List, [], ◌∷◌, Option, none, some, ◌≡◌, refl, ok, err, if◌then◌else◌,
}
use oxcer_agent.Text.{
  Text, codes, text_eq, trim, trim_end, split_once, is_whitespace, strip_prefix, contains, join,
}
use oxcer_agent.Security.Tests.{ascii}
use oxcer_agent.Text.Laws.{text_eq_refl}
use oxcer_agent.Memory.Persist.{IsKept, load_or_create-append_fact}
use oxcer_agent.Memory.{
  Memory, Storage, is_dev_null, load_or_create, append_fact, fact_of, derive_tags, appended,
}
use oxcer_agent.Memory.Markdown.{
  Fact, to_markdown, to_markdown_line, parse_markdown_facts, leading_tag,
}
use oxcer_agent.Memory.Laws.{IsStorable, parse_markdown_facts-to_markdown, Keeps, appended-Keeps}

abbrev read_notes : Fact
read_notes = fact_of (codes "T1") (codes "a" ∷ codes "b" ∷ []) (codes "x y")

abbrev broken : Fact
broken = fact_of (codes "T1") [] (codes "x\ny")

-- A fact of two lines loses the second one.
second_line_lost :
    parse_markdown_facts (to_markdown (broken ∷ [])) ≡ fact_of (codes "T1") [] (codes "x") ∷ []
unfolding parse_markdown_facts to_markdown trim is_whitespace strip_prefix split_once
second_line_lost = refl

read_notes-IsStorable : IsStorable read_notes
unfolding leading_tag to_markdown_line join trim_end is_whitespace
read_notes-IsStorable = record {
  stamp = (refl, (refl, tt));
  tags = ((refl, tt), ((refl, tt), tt));
  content = record { starts = refl; ends = refl };
  untagged = refl;
  one_line = (
    refl,
    (
      refl,
      (
        refl,
        (
          refl,
          (
            refl,
            (
              refl,
              (
                refl,
                (
                  refl,
                  (
                    refl,
                    (refl, (refl, (refl, (refl, (refl, (refl, (refl, (refl, (refl, tt))))))))),
                  ),
                ),
              ),
            ),
          ),
        ),
      ),
    ),
  );
}

round_trip : parse_markdown_facts (to_markdown (read_notes ∷ [])) ≡ read_notes ∷ []
round_trip = parse_markdown_facts-to_markdown (read_notes ∷ []) (read_notes-IsStorable, tt)

appended-Keeps_example :
    Keeps
      (fact_of (codes "T2") (derive_tags ascii (codes "grep found")) (codes "grep found"))
      (appended ascii (codes "T2") (codes "T3") (codes "grep found") (read_notes ∷ []))
appended-Keeps_example =
    appended-Keeps ascii (codes "T2") (codes "T3") (codes "grep found") (read_notes ∷ [])

-- A storage of files, the last one that was written first.
abbrev Files : Type 0
Files = List (Text × Text)

abbrev find_file : Files → Text → Option Text
find_file [] p = none
find_file ((q, t) ∷ files) p = let rest = find_file files p in if text_eq q p then some t else rest

abbrev storage : Storage Files
storage = record {
  exists = λ w p. elim (find_file w p) [ none ↦ false | some t ↦ true ];
  read_to_string = λ w p. elim (find_file w p) [ none ↦ err (codes "not found") | some t ↦ ok t ];
  create_dir_all = λ w p. w;
  write = λ w p t. (p, t) ∷ w;
}

storage-IsKept : IsKept storage
storage-IsKept = record {
  there = λ w p t. rw (storage, text_eq_refl p) refl;
  same = λ w p t. rw (storage, text_eq_refl p) refl;
}

abbrev at_home : Memory
at_home = record { path = codes "/m.md"; facts = [] }

plain-IsStorable : IsStorable (fact_of (codes "T1") [] (codes "x y"))
unfolding leading_tag to_markdown_line trim_end is_whitespace
plain-IsStorable = record {
  stamp = (refl, (refl, tt));
  tags = tt;
  content = record { starts = refl; ends = refl };
  untagged = refl;
  one_line = (refl, (refl, (refl, (refl, (refl, (refl, (refl, (refl, (refl, (refl, tt))))))))));
}

load_or_create-append_fact_example :
    load_or_create storage
      (append_fact storage ascii (codes "T1") (codes "T2") at_home (codes "x y") []).1
      (codes "/m.md")
    ≡ (append_fact storage ascii (codes "T1") (codes "T2") at_home (codes "x y") []).0
unfolding is_dev_null appended contains
load_or_create-append_fact_example =
    load_or_create-append_fact storage ascii (codes "T1") (codes "T2") at_home (codes "x y") []
      storage-IsKept refl (plain-IsStorable, tt)
