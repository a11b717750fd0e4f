-- ===== src/Executor/Tests.antt =====
-- A small disk, and the theorems about the executor at concrete paths.
use oxcer_agent.Prelude.{
  true, false, List, [], ◌∷◌, Result, ok, err, ◌≡◌, refl, sym, ap, ◌∙◌, ok-injective, Bool-cases,
  inl, inr, if◌then◌else◌,
}
use oxcer_agent.Text.{Text, codes, text_eq}
use oxcer_agent.Security.Tests.{ascii}
use oxcer_agent.Executor.{
  Machine, error, path_traversal, read_document, move_file, guard_path, document_parse,
  absolute_target, canonical_target, inside,
}
use oxcer_agent.Executor.Execute.{execute, exec_move_file}
use oxcer_agent.Executor.Confined.{fenced, IsStraight, execute-fenced}
use oxcer_agent.Paths.{components}
use oxcer_agent.Executor.Guarded.{IsGuarded, IsResolving, guard_path-IsGuarded}
use oxcer_agent.Executor.Plain.{leads_up}

-- The files, the last one that was written first.
abbrev pub Disk : Type 0
Disk = List (Text × Text)

abbrev pub find_file : Disk → Text → Result Text Text
find_file [] p = err (codes "not found")
find_file ((q, t) ∷ files) p = let rest = find_file files p in if text_eq q p then ok t else rest

abbrev pub move_entry : Text → Text → Disk → Disk
move_entry p q [] = []
move_entry p q ((r, t) ∷ files) =
    let rest = move_entry p q files in if text_eq r p then (q, t) ∷ rest else (r, t) ∷ rest

-- Where there are no links, a path without ".." is canonical.
unfoldable pub plain_form : Text → Result Text Text
plain_form p = if leads_up p then err (codes "not plain") else ok p

-- A machine without links. `S` is what else the world keeps.
abbrev pub machine : {S : Type 0} → Machine (S × Disk)
machine = record {
  exists = λ w p. elim (find_file w.1 p) [ ok t ↦ true | err e ↦ false ];
  canonicalize = λ w p. plain_form p;
  read_dir = λ w p. ok [];
  read_to_string = λ w p. find_file w.1 p;
  pdf_text = λ w p. err (codes "no pages");
  document_xml = λ w p. err (document_parse (codes "no document"));
  sheet_text = λ w p. err (document_parse (codes "no sheet"));
  rename = λ w p q. (ok tt, (w.0, move_entry p q w.1));
  delete = λ w p. (ok tt, w);
  output = λ w command args cwd. (err (codes "no processes"), w);
  write = λ w p t. (ok tt, (w.0, (p, t) ∷ w.1));
}

abbrev pub root : Text
root = codes "/w"

abbrev start : Unit {0} × Disk
start = (tt, (codes "/w/a.txt", codes "text") ∷ [])

-- A path that leads out is refused, and a move inside is made.
refused :
    guard_path machine root start (codes "sub/../../etc/passwd")
    ≡ err (error (path_traversal (codes "sub/../../etc/passwd")))
unfolding plain_form components guard_path canonical_target absolute_target inside text_eq
refused = refl

moved :
    (execute ascii machine root start (move_file (codes "a.txt") (codes "b/../c.txt"))).1
    ≡ (tt, (codes "/w/c.txt", codes "text") ∷ [])
unfolding plain_form components execute exec_move_file guard_path canonical_target absolute_target
    inside text_eq
moved = refl

plain_form_sound : (p : Text) {q : Text} → plain_form p ≡ ok q → (q ≡ p) × (leads_up p ≡ false)
unfolding plain_form
plain_form_sound p h = elim (Bool-cases (leads_up p)) [
  | inl e ↦ let refused_up = rw (plain_form, e) at h in cc
  | inr e ↦ (sym (ok-injective (rw (plain_form, e) at h)), e)
]

pub machine-IsStraight : {S : Type 0} → IsStraight (machine {S = S})
machine-IsStraight w p q h = let (same, plain) = plain_form_sound p h in ap leads_up same ∙ plain

machine-IsResolving : {S : Type 0} → IsResolving (machine {S = S})
machine-IsResolving w p q h = let (same, plain) = plain_form_sound p h in ap plain_form same ∙ h

-- A link is let through where it is named through a folder that does not exist, and is then read: the
-- path is not canonicalized, since it does not exist as it is named.
through_link : Machine (Unit {0} × Disk) → Machine (Unit {0} × Disk)
through_link m = record m {
  canonicalize = λ w p. ok (if text_eq p (codes "/w/link") then codes "/etc/passwd" else p);
}

link_refused :
    guard_path (through_link machine) root (tt, (codes "/w/link", codes "x") ∷ []) (codes "link")
    ≡ err (error (path_traversal (codes "link")))
unfolding plain_form components guard_path canonical_target absolute_target inside text_eq
    through_link
link_refused = refl

link_let_through :
    guard_path
      (through_link machine)
      root
      (tt, (codes "/w/link", codes "x") ∷ [])
      (codes "no/../link")
    ≡ ok (codes "/w/link")
unfolding plain_form components guard_path canonical_target absolute_target inside text_eq
    through_link
link_let_through = refl

execute-fenced_example :
    execute ascii (fenced (codes "/w") root machine) root start (read_document (codes "/etc/a.txt"))
    ≡ execute ascii machine root start (read_document (codes "/etc/a.txt"))
unfolding plain_form components
execute-fenced_example =
    execute-fenced machine root (codes "/w") start refl machine-IsStraight ascii
      (read_document (codes "/etc/a.txt"))

guard_path-IsGuarded_example :
    IsGuarded machine (codes "/w") start (codes "a.txt") (codes "/w/a.txt")
unfolding plain_form components guard_path canonical_target absolute_target inside text_eq
guard_path-IsGuarded_example =
    guard_path-IsGuarded machine root (codes "/w") start (codes "a.txt") refl machine-IsStraight
      machine-IsResolving refl
