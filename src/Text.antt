-- ===== src/Text.antt =====
-- Rust's `str`, as the list of its code points, with the methods that the source calls. Case
-- conversion goes by the Unicode tables of the standard library, so it is the interface `Casing`.
pub mod Laws
pub mod Trim
pub mod Cut
use Prim.Native.Char.{code}
use Prim.Native.Nat.{compare, Ordering}
use Prim.Native.String.{String}
use mathlib.Core.Option
use oxcer_agent.Prelude.{
  ℕ, zero, suc, ◌+◌, ◌-◌, ◌≡◌, Bool, true, false, ◌&&◌, ◌||◌, not, List, [], ◌∷◌, ◌++◌, map, Option,
  none, some, ltb, leb, ◌==◌, if◌then◌else◌, all, length,
}

abbrev pub Text : Type 0
Text = List ℕ

-- A literal of the source.
abbrev pub codes : String → Text
codes String.[] = []
codes (String.◌∷◌ c s) = code c ∷ codes s

unfoldable pub text_eq : Text → Text → Bool
text_eq [] [] = true
text_eq (a ∷ s) (b ∷ t) = (a == b) && text_eq s t
text_eq _ _ = false

-- The order of strings. The bytes of UTF-8 are ordered as the code points that they stand for.
unfoldable pub text_compare : Text → Text → Ordering
text_compare [] [] = Ordering.eq
text_compare [] (b ∷ bs) = Ordering.lt
text_compare (a ∷ rest_a) [] = Ordering.gt
text_compare (a ∷ rest_a) (b ∷ bs) =
    let rest = text_compare rest_a bs in
    elim (compare a b) [
      | Ordering.lt ↦ Ordering.lt
      | Ordering.eq ↦ rest
      | Ordering.gt ↦ Ordering.gt
    ]

-- `str::len`: the bytes of the UTF-8 encoding.
abbrev pub utf8_width : ℕ → ℕ
utf8_width c = if ltb c 0x80 then 1 else if ltb c 0x800 then 2 else if ltb c 0x10000 then 3 else 4

unfoldable pub len : Text → ℕ
len [] = 0
len (c ∷ s) = utf8_width c + len s

-- `&s[..n]`, a slice by bytes: it panics (`none`) past the end and inside a character.
unfoldable pub slice_to : ℕ → Text → Option Text
slice_to n [] = if n == 0 then some [] else none
slice_to n (c ∷ s) =
    let rest = slice_to (n - utf8_width c) s in
    if n == 0 then some [] else if ltb n (utf8_width c) then none else Option.map (λ t. c ∷ t) rest

-- `str::strip_prefix`.
unfoldable pub strip_prefix : Text → Text → Option Text
strip_prefix [] s = some s
strip_prefix (a ∷ p) [] = none
strip_prefix (a ∷ p) (b ∷ s) = if a == b then strip_prefix p s else none

unfoldable pub starts_with : Text → Text → Bool
starts_with s [] = true
starts_with [] (a ∷ p) = false
starts_with (b ∷ s) (a ∷ p) = (a == b) && starts_with s p

-- `s.contains(p)` for a string `p`.
unfoldable pub contains : Text → Text → Bool
unfolding starts_with
contains [] p = starts_with [] p
contains (c ∷ s) p = starts_with (c ∷ s) p || contains s p

unfoldable pub ends_with : Text → Text → Bool
unfolding text_eq
ends_with [] p = text_eq [] p
ends_with (c ∷ s) p = text_eq (c ∷ s) p || ends_with s p

-- `char::is_whitespace`, the White_Space property of Unicode.
unfoldable pub is_whitespace : ℕ → Bool
is_whitespace c =
    (leb 0x09 c && leb c 0x0d)
    || c == 0x20
    || c == 0x85
    || c == 0xa0
    || c == 0x1680
    || (leb 0x2000 c && leb c 0x200a)
    || c == 0x2028
    || c == 0x2029
    || c == 0x202f
    || c == 0x205f
    || c == 0x3000

unfoldable pub trim_start : Text → Text
unfolding is_whitespace
trim_start [] = []
trim_start (c ∷ s) = if is_whitespace c then trim_start s else c ∷ s

-- A character in front of a text whose end is trimmed.
before_blanks : ℕ → Text → Text
unfolding is_whitespace
before_blanks c [] = if is_whitespace c then [] else c ∷ []
before_blanks c (d ∷ s) = c ∷ d ∷ s

unfoldable pub trim_end : Text → Text
unfolding before_blanks
trim_end [] = []
trim_end (c ∷ s) = before_blanks c (trim_end s)

unfoldable pub trim : Text → Text
unfolding trim_start trim_end
trim s = trim_end (trim_start s)

-- `s.splitn(2, p)`: the text before the first character that fits, and, if there is one, the rest.
unfoldable pub split_once : (ℕ → Bool) → Text → Text × Option Text
split_once p [] = ([], none)
split_once p (c ∷ s) =
    let (before, after) = split_once p s in if p c then ([], some s) else (c ∷ before, after)

-- The text behind the first occurrence of a nonempty `p`, and the text in front of it.
unfoldable pub behind : Text → Text → Option Text
unfolding strip_prefix
behind p [] = none
behind p (c ∷ s) =
    let later = behind p s in elim (strip_prefix p (c ∷ s)) [ none ↦ later | some rest ↦ some rest ]

unfoldable pub in_front : Text → Text → Text
unfolding starts_with
in_front p [] = []
in_front p (c ∷ s) = let rest = in_front p s in if starts_with (c ∷ s) p then [] else c ∷ rest

-- `s.trim_matches(p)`.
unfoldable pub drop_matches : (ℕ → Bool) → Text → Text
drop_matches p [] = []
drop_matches p (c ∷ s) = if p c then drop_matches p s else c ∷ s

-- A character in front of a text whose end is trimmed.
before_matches : (ℕ → Bool) → ℕ → Text → Text
before_matches p c [] = if p c then [] else c ∷ []
before_matches p c (d ∷ s) = c ∷ d ∷ s

unfoldable pub drop_end_matches : (ℕ → Bool) → Text → Text
unfolding before_matches
drop_end_matches p [] = []
drop_end_matches p (c ∷ s) = before_matches p c (drop_end_matches p s)

unfoldable pub trim_matches : (ℕ → Bool) → Text → Text
unfolding drop_matches drop_end_matches
trim_matches p s = drop_end_matches p (drop_matches p s)

-- `s.split_whitespace().next().unwrap_or("")`.
abbrev leading : Text × Option Text → Text
leading (word, rest) = word

unfoldable pub first_word : Text → Text
unfolding trim_start split_once is_whitespace
first_word s = leading (split_once is_whitespace (trim_start s))

-- `s.split_whitespace()`: the word that a text begins with, and the words behind it.
abbrev pub close_word : Text → List Text → List Text
close_word [] words = words
close_word (c ∷ word) words = (c ∷ word) ∷ words

unfoldable pub word_and_rest : Text → Text × List Text
unfolding is_whitespace
word_and_rest [] = ([], [])
word_and_rest (c ∷ s) =
    let (word, words) = word_and_rest s in
    if is_whitespace c then ([], close_word word words) else (c ∷ word, words)

unfoldable pub split_whitespace : Text → List Text
unfolding word_and_rest
split_whitespace s = let (word, words) = word_and_rest s in close_word word words

-- `s.replace(p, by)` for a nonempty `p`: `skip` counts what is left of an occurrence.
unfoldable pub replace_from : ℕ → Text → Text → Text → Text
unfolding starts_with
replace_from skip p by [] = []
replace_from (suc skip) p by (c ∷ s) = replace_from skip p by s
replace_from zero p by (c ∷ s) =
    let found = by ++ replace_from (length p - 1) p by s in
    let kept = c ∷ replace_from zero p by s in if starts_with (c ∷ s) p then found else kept

unfoldable pub replace : Text → Text → Text → Text
unfolding replace_from
replace s p by = replace_from zero p by s

unfoldable pub join : Text → List Text → Text
join sep [] = []
join sep (s ∷ []) = s
join sep (s ∷ t ∷ rest) = s ++ (sep ++ join sep (t ∷ rest))

-- ASCII, on which the case tables are fixed.
abbrev pub is_ascii : Text → Bool
is_ascii s = all (λ c. ltb c 0x80) s

abbrev pub ascii_lower : ℕ → ℕ
ascii_lower c = if leb b'A' c && leb c b'Z' then c + 32 else c

abbrev pub ascii_upper : ℕ → ℕ
ascii_upper c = if leb b'a' c && leb c b'z' then c - 32 else c

-- `str::to_lowercase` and `str::to_uppercase`. They are the standard library's, and go by its
-- Unicode tables; on ASCII text they change the letters alone.
pub record Casing : Type 0 where
  pub to_lowercase : Text → Text
  pub to_uppercase : Text → Text
  pub lowercase_ascii : (s : Text) → is_ascii s ≡ true → to_lowercase s ≡ map ascii_lower s
  pub uppercase_ascii : (s : Text) → is_ascii s ≡ true → to_uppercase s ≡ map ascii_upper s
