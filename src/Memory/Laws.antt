-- ===== src/Memory/Laws.antt =====
-- oxcer-core/src/memory.rs: facts that are read back from the file, and how many there are.
use mathlib.Core.List.{append_assoc}
use oxcer_agent.Prelude.{
  ℕ, zero, suc, ◌-◌, ◌≤◌, ◌<◌, false, List, [], ◌∷◌, ◌++◌, none, some, is_empty, length, drop, push,
  ltb, ltb_false→le, ltb→lt, ◌==◌, ◌≡◌, refl, ap, ◌∙◌, inl, inr, Bool-cases, All, arith,
  length-append, if◌then◌else◌,
}
use oxcer_agent.Text.{
  Text, Casing, codes, trim, trim_start, trim_end, strip_prefix, is_whitespace, join,
}
use oxcer_agent.Text.Trim.{
  IsTrimmed, is_empty-BeginsSolid, trim_start-BeginsSolid, trim-IsTrimmed, trim_end-append,
  trim_blank, split_once-append,
}
use oxcer_agent.Memory.{max_facts, compact_keep, fact_of, derive_tags, marker, compact, appended}
use oxcer_agent.Memory.Markdown.{
  Fact, to_markdown_line, fact_lines, to_markdown, lines, backtick, leading_tag, tags_from,
  split_leading_tags, parse_line, parse_lines, parse_markdown_facts,
}

-- A fact whose parts can be told apart in a line.
pub record IsStorable (f : Fact) : Type 0 where
  pub stamp : All (λ c. (c == b']') ≡ false) f.timestamp
  pub tags : All (λ t. All (λ c. backtick c ≡ false) t) f.tags
  pub content : IsTrimmed f.content
  pub untagged : leading_tag f.content ≡ none
  pub one_line : All (λ c. (c == 10) ≡ false) (to_markdown_line f)

-- What stands behind the time stamp.
abbrev tag_body : List Text → Text → Text
tag_body [] content = content
tag_body (t ∷ ts) content = 96 ∷ (t ++ (96 ∷ 32 ∷ tag_body ts content))

tag_body-join :
    (t : Text) (ts : List Text) (content : Text)
    → codes "`" ++ (join (codes "` `") (t ∷ ts) ++ (codes "` " ++ content))
      ≡ tag_body (t ∷ ts) content
unfolding join
tag_body-join t [] content = refl
tag_body-join t (u ∷ ts) content =
    ap (λ s. 96 ∷ s)
      (append_assoc t (codes "` `" ++ join (codes "` `") (u ∷ ts)) (codes "` " ++ content)
        ∙ ap (λ s. t ++ (96 ∷ 32 ∷ s)) (tag_body-join u ts content))

line_body :
    (f : Fact)
    → to_markdown_line f ≡ codes "- [" ++ (f.timestamp ++ (93 ∷ 32 ∷ tag_body f.tags f.content))
unfolding to_markdown_line
line_body f = tag_cases f.tags
  where
    tag_cases :
        (tags : List Text)
        → (if is_empty tags
            then codes "- [" ++ (f.timestamp ++ (codes "] " ++ f.content))
            else codes "- ["
              ++ (f.timestamp
                  ++ (codes "] `" ++ (join (codes "` `") tags ++ (codes "` " ++ f.content)))))
          ≡ codes "- [" ++ (f.timestamp ++ (93 ∷ 32 ∷ tag_body tags f.content))
    tag_cases [] = refl
    tag_cases (t ∷ ts) =
        ap (λ s. codes "- [" ++ (f.timestamp ++ (93 ∷ 32 ∷ s))) (tag_body-join t ts f.content)

tag_body-IsTrimmed :
    (ts : List Text) (content : Text) → IsTrimmed content → IsTrimmed (tag_body ts content)
unfolding is_whitespace
tag_body-IsTrimmed [] content trimmed = trimmed
tag_body-IsTrimmed (t ∷ ts) content trimmed =
    let rest = tag_body-IsTrimmed ts content trimmed in
    record {
      starts = refl;
      ends = trim_end-append (96 ∷ t) (96 ∷ 32 ∷ tag_body ts content) refl (
          trim_end-append (96 ∷ 32 ∷ []) (tag_body ts content)
            (is_empty-BeginsSolid (tag_body ts content) rest.starts) rest.ends);
    }

-- The first tag is taken off.
tag_first :
    (t : Text) (ts : List Text) (content : Text)
    → All (λ c. backtick c ≡ false) t
    → IsTrimmed content
    → leading_tag (trim_start (tag_body (t ∷ ts) content)) ≡ some (t, tag_body ts content)
unfolding leading_tag trim_start is_whitespace
tag_first t ts content quiet trimmed =
    let rest = tag_body-IsTrimmed ts content trimmed in
    rw
      (
        split_once-append backtick t (32 ∷ tag_body ts content) 96 quiet refl,
        trim_start-BeginsSolid (tag_body ts content) rest.starts,
      )
      refl

tags_from-tag_body :
    (fuel : ℕ) (ts : List Text) (content : Text)
    → length ts < fuel
    → All (λ t. All (λ c. backtick c ≡ false) t) ts
    → IsTrimmed content
    → leading_tag content ≡ none
    → tags_from fuel (tag_body ts content) ≡ (ts, content)
unfolding tags_from
tags_from-tag_body zero ts content enough quiet trimmed untagged = absurd (omega (arith, enough))
tags_from-tag_body (suc fuel) [] content enough quiet trimmed untagged =
    rw (tags_from, trim_start-BeginsSolid content trimmed.starts, untagged) refl
tags_from-tag_body (suc fuel) (t ∷ ts) content enough (quiet, all_quiet) trimmed untagged =
    rw
      (
        tags_from,
        tag_first t ts content quiet trimmed,
        tags_from-tag_body fuel ts content (omega (arith, enough)) all_quiet trimmed untagged,
      )
      refl

length-tag_body : (ts : List Text) (content : Text) → length ts ≤ length (tag_body ts content)
length-tag_body [] content = omega arith
length-tag_body (t ∷ ts) content =
    omega (arith, length-append t (96 ∷ 32 ∷ tag_body ts content), length-tag_body ts content)

parse_line-to_markdown_line : (f : Fact) → IsStorable f → parse_line (to_markdown_line f) ≡ some f
unfolding parse_line split_leading_tags strip_prefix is_whitespace
parse_line-to_markdown_line f storable =
    let body = tag_body-IsTrimmed f.tags f.content storable.content in
    let whole : IsTrimmed (codes "- [" ++ (f.timestamp ++ (93 ∷ 32 ∷ tag_body f.tags f.content))) =
      record {
        starts = refl;
        ends =
            trim_end-append (codes "- [" ++ f.timestamp) (93 ∷ 32 ∷ tag_body f.tags f.content) refl
              (trim_end-append (93 ∷ 32 ∷ []) (tag_body f.tags f.content)
                (is_empty-BeginsSolid (tag_body f.tags f.content) body.starts) body.ends);
      } in
    rw
      (
        line_body f,
        parse_line,
        trim-IsTrimmed _ whole,
        split_once-append (λ c. c == b']') f.timestamp (32 ∷ tag_body f.tags f.content) 93
            storable.stamp refl,
        trim_blank (tag_body f.tags f.content) 32 body refl,
        split_leading_tags,
        tags_from-tag_body (suc (length (tag_body f.tags f.content))) f.tags f.content
            (omega (arith, length-tag_body f.tags f.content)) storable.tags storable.content
            storable.untagged,
      )
      refl

lines-line : (s t : Text) → All (λ c. (c == 10) ≡ false) s → lines (s ++ 10 ∷ t) ≡ s ∷ lines t
unfolding lines
lines-line [] t quiet = refl
lines-line (c ∷ s) t (h, quiet) = rw (lines, lines-line s t quiet, h) refl

parse_lines-fact_lines :
    (facts : List Fact) → All IsStorable facts → parse_lines (lines (fact_lines facts)) ≡ facts
unfolding parse_lines fact_lines lines
parse_lines-fact_lines [] storable = refl
parse_lines-fact_lines (f ∷ facts) (h, storable) =
    ap parse_lines (lines-line (to_markdown_line f) (fact_lines facts) h.one_line)
    ∙ rw (parse_line-to_markdown_line f h, parse_lines-fact_lines facts storable) refl

-- Facts whose parts can be told apart in a line are read back from the file that they are written to.
pub parse_markdown_facts-to_markdown :
    (facts : List Fact) → All IsStorable facts → parse_markdown_facts (to_markdown facts) ≡ facts
unfolding parse_markdown_facts to_markdown parse_lines parse_line lines trim trim_start trim_end
    is_whitespace strip_prefix
parse_markdown_facts-to_markdown [] storable = refl
parse_markdown_facts-to_markdown (f ∷ facts) storable = parse_lines-fact_lines (f ∷ facts) storable

drop-push :
    (k : ℕ) (facts : List Fact) (f : Fact)
    → k ≤ length facts
    → drop k (push facts f) ≡ push (drop k facts) f
drop-push zero facts f le = refl
drop-push (suc k) [] f le = absurd (omega (arith, le))
drop-push (suc k) (g ∷ facts) f le = drop-push k facts f (omega (arith, le))

length-drop : (k : ℕ) (facts : List Fact) → length (drop k facts) ≡ length facts - k
length-drop zero facts = omega arith
length-drop (suc k) [] = omega arith
length-drop (suc k) (g ∷ facts) = omega (arith, length-drop k facts)

-- What `append_fact` keeps: 200 facts at most, and the new one last.
pub record Keeps (f : Fact) (facts : List Fact) : Type 0 where
  pub few : length facts ≤ max_facts
  pub older : List Fact
  pub last : facts ≡ push older f

compact-Keeps :
    (f : Fact) (later : Text) (facts : List Fact)
    → max_facts < length (push facts f)
    → Keeps f (compact later (push facts f))
unfolding compact
compact-Keeps f later facts many =
    let k : ℕ = length (push facts f) - compact_keep in
    let count = length-append facts (f ∷ []) in
    record {
      few = omega (arith, length-drop k (push facts f), many);
      older = marker later k ∷ drop k facts;
      last = ap (λ rest. marker later k ∷ rest) (drop-push k facts f (omega (arith, count)));
    }

-- However many facts there are, `append_fact` leaves 200 at most, and the new one is the last of them.
pub appended-Keeps :
    (cs : Casing) (now later content : Text) (facts : List Fact)
    → Keeps (fact_of now (derive_tags cs content) content) (appended cs now later content facts)
unfolding appended
appended-Keeps cs now later content facts =
    let f : Fact = fact_of now (derive_tags cs content) content in
    elim (Bool-cases (ltb max_facts (length (push facts f)))) [
      | inl many ↦
          rw many (compact-Keeps f later facts (ltb→lt max_facts (length (push facts f)) many))
      | inr few ↦ rw few (record {
        few = ltb_false→le max_facts (length (push facts f)) few;
        older = facts;
        last = refl;
      })
    ]
