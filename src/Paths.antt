-- ===== src/Paths.antt =====
-- `std::path` on Unix: a path is its text, and is compared by components.
use oxcer_agent.Prelude.{
  Option, none, some, map, Result, ok, err, ℕ, ◌≡◌, refl, Bool, true, false, ◌&&◌, ◌||◌, List, [],
  ◌∷◌, ◌++◌, ◌==◌, if◌then◌else◌, is_empty, drop, length,
}
use oxcer_agent.Text.{Text, text_eq, starts_with, ends_with, codes, join}

pub data Component : Type 0 where
  root_dir cur_dir parent_dir : Component
  normal : Text → Component

-- A character in front of the first of several texts.
unfoldable pub onto_head : ℕ → List Text → List Text
onto_head c [] = (c ∷ []) ∷ []
onto_head c (s ∷ rest) = (c ∷ s) ∷ rest

-- The texts between the slashes.
unfoldable pub split_slash : Text → List Text
unfolding onto_head
split_slash [] = [] ∷ []
split_slash (c ∷ s) =
    let parts = split_slash s in if c == b'/' then [] ∷ parts else onto_head c parts

-- Behind the first one an empty part or a "." is no component.
unfoldable pub parts_from : List Text → List Component
unfolding text_eq
parts_from [] = []
parts_from (p ∷ ps) =
    let rest = parts_from ps in
    if is_empty p || text_eq p (codes ".")
    then rest
    else if text_eq p (codes "..")
    then parent_dir ∷ rest
    else normal p ∷ rest

-- A "." counts only where the path begins with it.
unfoldable pub relative_parts : List Text → List Component
unfolding parts_from
relative_parts [] = []
relative_parts (p ∷ ps) =
    if text_eq p (codes ".") then cur_dir ∷ parts_from ps else parts_from (p ∷ ps)

-- `Path::is_absolute`.
unfoldable pub is_absolute : Text → Bool
unfolding starts_with
is_absolute p = starts_with p (codes "/")

-- `Path::components`.
unfoldable pub components : Text → List Component
unfolding is_absolute split_slash relative_parts
components p =
    if is_absolute p then root_dir ∷ parts_from (split_slash p) else relative_parts (split_slash p)

unfoldable pub component_eq : Component → Component → Bool
unfolding text_eq
component_eq root_dir root_dir = true
component_eq cur_dir cur_dir = true
component_eq parent_dir parent_dir = true
component_eq (normal s) (normal t) = text_eq s t
component_eq _ _ = false

unfoldable pub is_prefix : List Component → List Component → Bool
unfolding component_eq
is_prefix [] cs = true
is_prefix (p ∷ ps) [] = false
is_prefix (p ∷ ps) (c ∷ cs) = component_eq p c && is_prefix ps cs

-- `Path::starts_with`: whole components are compared.
unfoldable pub path_starts_with : Text → Text → Bool
unfolding components is_prefix
path_starts_with p base = is_prefix (components base) (components p)

-- `Path::join`: an absolute second path replaces the first.
unfoldable pub path_join : Text → Text → Text
unfolding is_absolute ends_with
path_join base p =
    if is_absolute p
    then p
    else if is_empty base || ends_with base (codes "/")
    then base ++ p
    else base ++ (codes "/" ++ p)

-- The text of a component, and of a path that is put together from components.
abbrev pub component_text : Component → Text
component_text root_dir = []
component_text cur_dir = codes "."
component_text parent_dir = codes ".."
component_text (normal s) = s

unfoldable pub from_components : List Component → Text
unfolding join
from_components (root_dir ∷ cs) = codes "/" ++ join (codes "/") (map component_text cs)
from_components cs = join (codes "/") (map component_text cs)

-- `Components::next_back`: what is in front of the last component, and that component.
unfoldable pub split_last : List Component → Option (List Component × Component)
split_last [] = none
split_last (c ∷ cs) = elim (split_last cs) [
  | none ↦ some ([], c)
  | some (front, last) ↦ some (c ∷ front, last)
]

-- `Path::parent`, in its normal spelling.
unfoldable pub parent : Text → Option Text
unfolding split_last from_components components
parent p = elim (split_last (components p)) [
  | none ↦ none
  | some (front, root_dir) ↦ none
  | some (front, last) ↦ some (from_components front)
]

-- `Path::file_name`.
unfoldable pub file_name : Text → Option Text
unfolding split_last components
file_name p = elim (split_last (components p)) [
  | none ↦ none
  | some (front, normal name) ↦ some name
  | some (front, other) ↦ none
]

-- The text in front of the last dot, and the text behind it.
unfoldable pub split_dot : Text → Option (Text × Text)
split_dot [] = none
split_dot (c ∷ s) = elim (split_dot s) [
  | some (stem, rest) ↦ some (c ∷ stem, rest)
  | none ↦ if c == b'.' then some ([], s) else none
]

-- A file name that only begins with a dot has no extension.
abbrev extension_of : Option (Text × Text) → Option Text
extension_of none = none
extension_of (some ([], rest)) = none
extension_of (some (c ∷ stem, rest)) = some rest

-- `Path::extension`.
unfoldable pub extension : Text → Option Text
unfolding file_name split_dot
extension p = elim (file_name p) [ none ↦ none | some name ↦ extension_of (split_dot name) ]

by_component :
    (path_starts_with (codes "/home/a/.ssh/id") (codes "/home//a/./.ssh/") ≡ true)
    × (path_starts_with (codes "/home/a/.sshx") (codes "/home/a/.ssh") ≡ false)
    × (path_join (codes "/home/a") (codes ".ssh") ≡ codes "/home/a/.ssh")
unfolding path_starts_with path_join
by_component = (refl, refl, refl)

of_names :
    (extension (codes "/home/a/Report.v2.pdf") ≡ some (codes "pdf"))
    × (extension (codes "/home/a/.profile") ≡ none)
    × (parent (codes "/home/a/b.md") ≡ some (codes "/home/a"))
    × (parent (codes "/") ≡ none)
    × (parent (codes "b.md") ≡ some [])
unfolding extension parent
of_names = (refl, refl, refl, refl, refl)

-- `Path::strip_prefix`, in its normal spelling.
unfoldable pub path_strip_prefix : Text → Text → Option Text
unfolding path_starts_with components from_components
path_strip_prefix p base =
    if path_starts_with p base
    then some (from_components (drop (length (components base)) (components p)))
    else none

-- `Path::file_stem`.
abbrev stem_of : Text → Option (Text × Text) → Text
stem_of name none = name
stem_of name (some ([], rest)) = name
stem_of name (some (c ∷ stem, rest)) = c ∷ stem

unfoldable pub file_stem : Text → Option Text
unfolding file_name split_dot
file_stem p = elim (file_name p) [ none ↦ none | some name ↦ some (stem_of name (split_dot name)) ]

-- Whether a path is the canonical form that was found for it: an absolute path without "..", in which
-- no link is followed.
abbrev pub is_form_of : Text → Result Text Text → Bool
is_form_of p (ok q) = text_eq p q
is_form_of p (err e) = false
