-- ===== src/Text/Cut.antt =====
-- Slices of a text by bytes, `&s[n..]` and `String::replace_range`, and where a text may be cut.
use mathlib.Core.List.{append_assoc}
use oxcer_agent.Prelude.{
  ℕ, ◌+◌, ◌-◌, ◌≤◌, ◌≡◌, refl, sym, ◌∙◌, ap, [], ◌∷◌, ◌++◌, Option, none, some, false, ltb, ◌==◌,
  if◌then◌else◌, arith,
}
use oxcer_agent.Text.{Text, len, slice_to, utf8_width}

-- `&s[n..]`: it panics (`none`) past the end and inside a character.
unfoldable pub slice_from : ℕ → Text → Option Text
slice_from n [] = if n == 0 then some [] else none
slice_from n (c ∷ s) =
    let rest = slice_from (n - utf8_width c) s in
    if n == 0 then some (c ∷ s) else if ltb n (utf8_width c) then none else rest

-- `s.replace_range(a..b, by)`: it panics where the range is turned round, too.
unfoldable pub replace_range : Text → ℕ → ℕ → Text → Option Text
unfolding slice_to slice_from
replace_range s a b by = if ltb b a then none else elim (slice_to a s) [
  | none ↦ none
  | some front ↦ elim (slice_from b s) [ none ↦ none | some back ↦ some (front ++ (by ++ back)) ]
]

pub width_pos : (c : ℕ) → 1 ≤ utf8_width c
width_pos c = ground arith

past_first :
    {A : Type 0} (w l : ℕ) (x y z : A)
    → 1 ≤ w
    → (if (w + l) == 0 then x else if ltb (w + l) w then y else z) ≡ z
past_first w l x y z h = ground arith

sub_left : (w l : ℕ) → w + l - w ≡ l
sub_left w l = omega arith

pub len-append : (s t : Text) → len (s ++ t) ≡ len s + len t
unfolding len
len-append [] t = omega arith
len-append (c ∷ s) t = omega (arith, len-append s t)

slice_to-zero : (s : Text) → slice_to 0 s ≡ some []
unfolding slice_to
slice_to-zero [] = refl
slice_to-zero (c ∷ s) = refl

slice_from-zero : (s : Text) → slice_from 0 s ≡ some s
unfolding slice_from
slice_from-zero [] = refl
slice_from-zero (c ∷ s) = refl

pub slice_to-append : (s t : Text) → slice_to (len s) (s ++ t) ≡ some s
unfolding len slice_to
slice_to-append [] t = slice_to-zero t
slice_to-append (c ∷ s) t =
    past_first (utf8_width c) (len s) _ _ _ (width_pos c)
    ∙ rw (sub_left (utf8_width c) (len s), slice_to-append s t) refl

pub slice_from-append : (s t : Text) → slice_from (len s) (s ++ t) ≡ some t
unfolding len slice_from
slice_from-append [] t = slice_from-zero t
slice_from-append (c ∷ s) t =
    past_first (utf8_width c) (len s) _ _ _ (width_pos c)
    ∙ rw (sub_left (utf8_width c) (len s)) (slice_from-append s t)

slice_from-middle : (p q r : Text) → slice_from (len p + len q) (p ++ (q ++ r)) ≡ some r
slice_from-middle p q r =
    rw (sym (len-append p q), sym (append_assoc p q r)) (slice_from-append (p ++ q) r)

not_ltb : (a b : ℕ) → ltb (a + b) a ≡ false
not_ltb a b = ground arith

-- A part of a text is replaced between what stands in front of it and behind it.
pub replace_range-middle :
    (p q r by : Text)
    → replace_range (p ++ (q ++ r)) (len p) (len p + len q) by ≡ some (p ++ (by ++ r))
unfolding replace_range
replace_range-middle p q r by =
    rw (not_ltb (len p) (len q), slice_to-append p (q ++ r), slice_from-middle p q r) refl

-- A place between two characters of a text, by its bytes.
pub record IsCut (s : Text) (n : ℕ) : Type 0 where
  pub front : Text
  pub back : Text
  pub whole : s ≡ front ++ back
  pub place : len front ≡ n

cons_parts : {a b : ℕ} (s t : Text) → ◌≡◌ {A = Text} (a ∷ s) (b ∷ t) → (a ≡ b) × (s ≡ t)
cons_parts s t h = (cc, cc)

-- What is between an earlier place, behind `p`, and a later one, behind `p'`.
between :
    (p q p' q' : Text)
    → p ++ q ≡ p' ++ q'
    → len p ≤ len p'
    → (m : Text) × (p' ≡ p ++ m) × (q ≡ m ++ q')
unfolding len
between [] q p' q' same earlier = (p', refl, same)
between (c ∷ p) q [] q' same earlier = absurd (omega (arith, width_pos c))
between (c ∷ p) q (d ∷ p') q' same earlier =
    let (first, rest) = cons_parts (p ++ q) (p' ++ q') same in
    let (m, longer, left) = between p q p' q' rest (omega (arith, ap utf8_width first)) in
    (m, cc, left)

pub IsCut-behind :
    (p q : Text) (n : ℕ)
    → IsCut (p ++ q) n
    → len p ≤ n
    → (m : Text) × (rest : Text) × (q ≡ m ++ rest) × (len p + len m ≡ n)
IsCut-behind p q n cut earlier =
    let (m, longer, left) = between p q cut.front cut.back cut.whole (omega (arith, cut.place)) in
    (m, cut.back, left, omega (arith, cut.place, ap len longer, len-append p m))
