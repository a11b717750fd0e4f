-- ===== src/Memory/Fuel.antt =====
-- oxcer-core/src/memory.rs, `split_leading_tags`: the fuel of its loop is enough.
use oxcer_agent.Prelude.{
  ℕ, zero, suc, ◌≤◌, ◌<◌, List, [], ◌∷◌, Option, none, some, length, ◌≡◌, refl, inl, inr,
  Bool-cases, arith,
}
use oxcer_agent.Text.{Text, trim_start, split_once, is_whitespace}
use oxcer_agent.Memory.Markdown.{backtick, cut_tag, leading_tag, tags_from}

length-trim_start-le : (s : Text) → length (trim_start s) ≤ length s
unfolding trim_start
length-trim_start-le [] = omega arith
length-trim_start-le (c ∷ s) = elim (Bool-cases (is_whitespace c)) [
  | inl blank ↦ rw (trim_start, blank) (omega (arith, length-trim_start-le s))
  | inr solid ↦ rw (trim_start, solid) (omega arith)
]

-- What is left of a text behind a tag is shorter.
abbrev IsShorter : ℕ → Option (Text × Text) → Type 0
IsShorter n none = Unit
IsShorter n (some (tag, behind)) = length behind < n

abbrev RestWithin : ℕ → Text × Option Text → Type 0
RestWithin n (before, none) = Unit
RestWithin n (before, some rest) = length rest ≤ n

split_once-RestWithin : (s : Text) → RestWithin (length s) (split_once backtick s)
unfolding split_once
split_once-RestWithin [] = tt
split_once-RestWithin (c ∷ s) = elim (Bool-cases (backtick c)) [
  | inl here ↦ rw (split_once, here) (omega arith)
  | inr later ↦
      rw (split_once, later) (longer (length s) c (split_once backtick s) (split_once-RestWithin s))
]
  where
    longer :
        (n c : ℕ) (parts : Text × Option Text)
        → RestWithin n parts
        → RestWithin (suc n) (c ∷ parts.0, parts.1)
    longer n c (before, none) within = tt
    longer n c (before, some rest) within = omega (arith, within)

cut_tag-IsShorter :
    (n : ℕ) (parts : Text × Option Text) → RestWithin n parts → IsShorter (suc n) (cut_tag parts)
cut_tag-IsShorter n (tag, none) within = tt
cut_tag-IsShorter n (tag, some rest) within = omega (arith, within, length-trim_start-le rest)

leading_tag-IsShorter : (s : Text) → IsShorter (length s) (leading_tag s)
unfolding leading_tag
leading_tag-IsShorter [] = tt
leading_tag-IsShorter (c ∷ inner) = elim (Bool-cases (backtick c)) [
  | inl tag ↦
      rw (leading_tag, tag)
        (cut_tag-IsShorter (length inner) (split_once backtick inner) (split_once-RestWithin inner))
  | inr other ↦ rw (leading_tag, other) tt
]

turn_same :
    (n m : ℕ) (bound : ℕ) (rest : Text) (found : Option (Text × Text))
    → IsShorter bound found
    → ((s : Text) → length s < bound → tags_from n s ≡ tags_from m s)
    → ◌≡◌ {A = List Text × Text}
        (elim found [
          | none ↦ ([], rest)
          | some (tag, behind) ↦ (let (tags, end) = tags_from n behind in (tag ∷ tags, end))
        ])
        (elim found [
          | none ↦ ([], rest)
          | some (tag, behind) ↦ (let (tags, end) = tags_from m behind in (tag ∷ tags, end))
        ])
turn_same n m bound rest none shorter same = refl
turn_same n m bound rest (some (tag, behind)) shorter same = rw (same behind shorter) refl

-- More fuel than the text has characters makes no difference.
pub tags_from_enough :
    (n m : ℕ) (s : Text) → length s < n → length s < m → tags_from n s ≡ tags_from m s
unfolding tags_from
tags_from_enough zero m s enough enough' = absurd (omega (arith, enough))
tags_from_enough (suc n) zero s enough enough' = absurd (omega (arith, enough'))
tags_from_enough (suc n) (suc m) s enough enough' =
    turn_same n m (length (trim_start s)) s (leading_tag (trim_start s))
      (leading_tag-IsShorter (trim_start s))
      (λ t shorter.
        tags_from_enough n m t (omega (arith, shorter, length-trim_start-le s, enough))
          (omega (arith, shorter, length-trim_start-le s, enough')))
