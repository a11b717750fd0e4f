-- ===== src/Executor/Plain.antt =====
-- oxcer-core/src/executor.rs, `normalize_lexical`: the normalized path has no "..", so that comparing it
-- with the root compares the places that the two stand for.
use oxcer_agent.Prelude.{
  ℕ, Bool, true, false, ◌||◌, List, [], ◌∷◌, ◌++◌, ◌==◌, map, any, is_empty, Option, none, some,
  ◌≡◌, refl, inl, inr, Bool-cases, All, All-append, if◌then◌else◌,
}
use oxcer_agent.Text.{Text, codes, text_eq, join}
use oxcer_agent.Paths.{
  Component, root_dir, cur_dir, parent_dir, normal, components, split_last, split_slash, onto_head,
  parts_from, relative_parts, is_absolute, from_components, component_text,
}
use oxcer_agent.Executor.{pop, normalize_step, normalize_from, normalize_lexical}

abbrev pub is_up : Component → Bool
is_up parent_dir = true
is_up _ = false

-- Whether a path has a "..".
abbrev pub leads_up : Text → Bool
leads_up p = any is_up (components p)

abbrev NoSlash : Text → Type 0
NoSlash s = All (λ c. (c == b'/') ≡ false) s

-- The text of a part between slashes, and one that is no "..".
abbrev IsName : Text → Type 0
IsName s = NoSlash s × (text_eq s (codes "..") ≡ false)

-- A component that stands for itself.
abbrev IsPlain : Component → Type 0
IsPlain (normal s) = IsName s
IsPlain root_dir = Unit
IsPlain _ = ⊥

-- What `components` gives.
abbrev IsPart : Component → Type 0
IsPart (normal s) = IsName s
IsPart _ = Unit

onto_head-NoSlash :
    (c : ℕ) (parts : List Text)
    → (c == b'/') ≡ false
    → All NoSlash parts
    → All NoSlash (onto_head c parts)
unfolding onto_head
onto_head-NoSlash c [] apart all = ((apart, tt), tt)
onto_head-NoSlash c (s ∷ rest) apart (one, all) = ((apart, one), all)

split_slash-NoSlash : (s : Text) → All NoSlash (split_slash s)
unfolding split_slash
split_slash-NoSlash [] = (tt, tt)
split_slash-NoSlash (c ∷ s) = elim (Bool-cases (c == b'/')) [
  | inl e ↦ rw e (tt, split_slash-NoSlash s)
  | inr e ↦ rw e (onto_head-NoSlash c (split_slash s) e (split_slash-NoSlash s))
]

parts_from-IsPart : (parts : List Text) → All NoSlash parts → All IsPart (parts_from parts)
unfolding parts_from
parts_from-IsPart [] all = tt
parts_from-IsPart (p ∷ ps) (one, all) = elim (Bool-cases (is_empty p || text_eq p (codes "."))) [
  | inl e ↦ rw e (parts_from-IsPart ps all)
  | inr e ↦ elim (Bool-cases (text_eq p (codes ".."))) [
    | inl up ↦ rw (e, up) (tt, parts_from-IsPart ps all)
    | inr fine ↦ rw (e, fine) ((one, fine), parts_from-IsPart ps all)
  ]
]

relative_parts-IsPart : (parts : List Text) → All NoSlash parts → All IsPart (relative_parts parts)
unfolding relative_parts
relative_parts-IsPart [] all = tt
relative_parts-IsPart (p ∷ ps) (one, all) = dot_cases (text_eq p (codes "."))
  where
    dot_cases :
        (dot : Bool) → All IsPart (if dot then cur_dir ∷ parts_from ps else parts_from (p ∷ ps))
    dot_cases true = (tt, parts_from-IsPart ps all)
    dot_cases false = parts_from-IsPart (p ∷ ps) (one, all)

components-IsPart : (path : Text) → All IsPart (components path)
unfolding components
components-IsPart path = elim (Bool-cases (is_absolute path)) [
  | inl e ↦ rw e (tt, parts_from-IsPart (split_slash path) (split_slash-NoSlash path))
  | inr e ↦ rw e (relative_parts-IsPart (split_slash path) (split_slash-NoSlash path))
]

abbrev PlainFront : Option (List Component × Component) → Type 0
PlainFront none = Unit
PlainFront (some (front, last)) = All IsPlain front

split_last-PlainFront : (out : List Component) → All IsPlain out → PlainFront (split_last out)
unfolding split_last
split_last-PlainFront [] plain = tt
split_last-PlainFront (c ∷ out) (h, plain) =
    last_cases (split_last out) (split_last-PlainFront out plain)
  where
    last_cases :
        (found : Option (List Component × Component))
        → PlainFront found
        → PlainFront
            (elim found [ none ↦ some ([], c) | some (front, last) ↦ some (c ∷ front, last) ])
    last_cases none front = tt
    last_cases (some (front, last)) plain_front = (h, plain_front)

pop-IsPlain : (out : List Component) → All IsPlain out → All IsPlain (pop out)
unfolding pop
pop-IsPlain out plain = last_cases (split_last out) (split_last-PlainFront out plain)
  where
    last_cases :
        (found : Option (List Component × Component))
        → PlainFront found
        → All IsPlain
            (elim found [ none ↦ out | some (front, root_dir) ↦ out | some (front, last) ↦ front ])
    last_cases none front = plain
    last_cases (some (front, root_dir)) plain_front = plain
    last_cases (some (front, normal s)) plain_front = plain_front
    last_cases (some (front, cur_dir)) plain_front = plain_front
    last_cases (some (front, parent_dir)) plain_front = plain_front

normalize_step-IsPlain :
    (out : List Component) (c : Component)
    → IsPart c
    → All IsPlain out
    → All IsPlain (normalize_step out c)
unfolding normalize_step
normalize_step-IsPlain out parent_dir part plain = pop-IsPlain out plain
normalize_step-IsPlain out cur_dir part plain = plain
normalize_step-IsPlain out root_dir part plain = (tt, tt)
normalize_step-IsPlain out (normal s) part plain =
    All-append IsPlain out (normal s ∷ []) plain (part, tt)

normalize_from-IsPlain :
    (out cs : List Component)
    → All IsPart cs
    → All IsPlain out
    → All IsPlain (normalize_from out cs)
unfolding normalize_from
normalize_from-IsPlain out [] parts plain = plain
normalize_from-IsPlain out (c ∷ cs) (part, parts) plain =
    normalize_from-IsPlain (normalize_step out c) cs parts (normalize_step-IsPlain out c part plain)

component_text-IsName : (c : Component) → IsPlain c → IsName (component_text c)
unfolding text_eq
component_text-IsName (normal s) plain = plain
component_text-IsName root_dir plain = (tt, refl)
component_text-IsName cur_dir plain = elim plain [ ]
component_text-IsName parent_dir plain = elim plain [ ]

-- A text without a slash stays one part, in front of a slash and at the end.
split_slash-alone : (s : Text) → NoSlash s → split_slash s ≡ s ∷ []
unfolding split_slash onto_head
split_slash-alone [] apart = refl
split_slash-alone (c ∷ s) (one, apart) = rw (one, split_slash-alone s apart) refl

split_slash-append :
    (s rest : Text) → NoSlash s → split_slash (s ++ (b'/' ∷ rest)) ≡ s ∷ split_slash rest
unfolding split_slash onto_head
split_slash-append [] rest apart = refl
split_slash-append (c ∷ s) rest (one, apart) = rw (one, split_slash-append s rest apart) refl

abbrev NoUp : List Text → Type 0
NoUp parts = All (λ p. text_eq p (codes "..") ≡ false) parts

joined-NoUp :
    (cs : List Component)
    → All IsPlain cs
    → NoUp (split_slash (join (codes "/") (map component_text cs)))
unfolding join split_slash text_eq
joined-NoUp [] plain = (refl, tt)
joined-NoUp (c ∷ []) (one, plain) =
    let (apart, fine) = component_text-IsName c one in
    rw (split_slash-alone (component_text c) apart) (fine, tt)
joined-NoUp (c ∷ d ∷ cs) (one, plain) =
    let (apart, fine) = component_text-IsName c one in
    rw
      (split_slash-append (component_text c) (join (codes "/") (map component_text (d ∷ cs))) apart)
      (fine, joined-NoUp (d ∷ cs) plain)

from_components-NoUp :
    (cs : List Component) → All IsPlain cs → NoUp (split_slash (from_components cs))
unfolding from_components split_slash text_eq
from_components-NoUp [] plain = joined-NoUp [] plain
from_components-NoUp (root_dir ∷ cs) (one, plain) = (refl, joined-NoUp cs plain)
from_components-NoUp (normal s ∷ cs) plain = joined-NoUp (normal s ∷ cs) plain
from_components-NoUp (cur_dir ∷ cs) (one, plain) = elim one [ ]
from_components-NoUp (parent_dir ∷ cs) (one, plain) = elim one [ ]

parts_from-NoUp : (parts : List Text) → NoUp parts → any is_up (parts_from parts) ≡ false
unfolding parts_from
parts_from-NoUp [] fine = refl
parts_from-NoUp (p ∷ ps) (one, fine) = elim (Bool-cases (is_empty p || text_eq p (codes "."))) [
  | inl e ↦ rw e (parts_from-NoUp ps fine)
  | inr e ↦ rw (e, one) (parts_from-NoUp ps fine)
]

relative_parts-NoUp : (parts : List Text) → NoUp parts → any is_up (relative_parts parts) ≡ false
unfolding relative_parts
relative_parts-NoUp [] fine = refl
relative_parts-NoUp (p ∷ ps) (one, fine) = dot_cases (text_eq p (codes "."))
  where
    dot_cases :
        (dot : Bool)
        → any is_up (if dot then cur_dir ∷ parts_from ps else parts_from (p ∷ ps)) ≡ false
    dot_cases true = parts_from-NoUp ps fine
    dot_cases false = parts_from-NoUp (p ∷ ps) (one, fine)

NoUp-leads_up : (path : Text) → NoUp (split_slash path) → leads_up path ≡ false
unfolding components
NoUp-leads_up path fine = elim (Bool-cases (is_absolute path)) [
  | inl e ↦ rw e (parts_from-NoUp (split_slash path) fine)
  | inr e ↦ rw e (relative_parts-NoUp (split_slash path) fine)
]

-- The lexical normalization leaves no ".." in a path.
pub normalize_lexical-leads_up : (path : Text) → leads_up (normalize_lexical path) ≡ false
unfolding normalize_lexical
normalize_lexical-leads_up path =
    NoUp-leads_up (from_components (normalize_from [] (components path))) (
      from_components-NoUp (normalize_from [] (components path))
        (normalize_from-IsPlain [] (components path) (components-IsPart path) tt))
