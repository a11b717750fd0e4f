-- ===== src/Shell/Argv.antt =====
-- oxcer-core/src/shell.rs: what is run of a command of the catalog.
use mathlib.Core.Path.{subst}
use oxcer_agent.Prelude.{
  Bool, true, false, List, [], ◌∷◌, Option, none, some, any, All, ok, steps_of_ok, ok-injective,
  ◌≡◌, refl, sym, ap, ◌⊎◌, inl, inr, Bool-cases,
}
use oxcer_agent.Text.{Text, Casing}
use oxcer_agent.Paths.{file_stem}
use oxcer_agent.Fs.{Disk}
use oxcer_agent.Shell.{
  ShellContext, CommandSpec, CommandCatalog, BoundCommand, get, is_denied_token, or_empty,
  evaluate_command_policy,
}
use oxcer_agent.Shell.Bind.{
  ParamJson, Replacements, is_placeholder, expand_token, expand_template, ok_or_invalid, bind_all,
  add_workspace, validate_and_bind_params,
}
use oxcer_agent.Shell.Run.{Host, permitted, known_command, checked}

-- The arguments are the tokens of the template one by one, and only whole placeholders are replaced.
abbrev pub Fills : List Text → List Text → Type 0
Fills [] [] = Unit
Fills (t ∷ ts) (a ∷ args) = ((is_placeholder t ≡ true) ⊎ (a ≡ t)) × Fills ts args
Fills _ _ = ⊥

expand_template-Fills :
    (replacements : Replacements) (template : List Text)
    → Fills template (expand_template template replacements)
unfolding expand_template expand_token
expand_template-Fills replacements [] = tt
expand_template-Fills replacements (t ∷ ts) = (
  elim (Bool-cases (is_placeholder t)) [ inl whole ↦ inl whole | inr other ↦ inr (rw other refl) ],
  expand_template-Fills replacements ts,
)

All-false : (p : Text → Bool) (ts : List Text) → any p ts ≡ false → All (λ t. p t ≡ false) ts
All-false p [] none_is = tt
All-false p (t ∷ ts) none_is = elim (Bool-cases (p t)) [
  | inl hit ↦ let h = rw hit at none_is in cc
  | inr miss ↦ (miss, All-false p ts (rw miss at none_is))
]

-- A command of the catalog that may be run.
pub record IsCatalogued (cs : Casing) (spec : CommandSpec) (bound : BoundCommand) : Type 0 where
  pub binary : bound.binary ≡ spec.binary
  pub argv : Fills spec.args_template bound.args
  pub fine_binary : is_denied_token cs (or_empty (file_stem bound.binary)) ≡ false
  pub fine_args : All (λ a. is_denied_token cs a ≡ false) bound.args

policy_cases :
    (cs : Casing) (bound : BoundCommand) {u : Unit {0}}
    → permitted (evaluate_command_policy cs bound) ≡ ok u
    → (is_denied_token cs (or_empty (file_stem bound.binary)) ≡ false)
      × All (λ a. is_denied_token cs a ≡ false) bound.args
unfolding permitted evaluate_command_policy
policy_cases cs bound h =
    elim (Bool-cases (is_denied_token cs (or_empty (file_stem bound.binary)))) [
      | inl bad ↦ let refused = rw (bad, permitted, evaluate_command_policy) at h in cc
      | inr fine ↦ elim (Bool-cases (any (is_denied_token cs) bound.args)) [
        | inl bad ↦ let refused = rw (fine, bad, permitted, evaluate_command_policy) at h in cc
        | inr fine_args ↦ (fine, All-false (is_denied_token cs) bound.args fine_args)
      ]
    ]

bound_parts :
    {V W : Type 0} (js : ParamJson V) (d : Disk W) (w : W) (current_dir : Option Text)
    (spec : CommandSpec) (params : V) (ctx : ShellContext) {bound : BoundCommand}
    → validate_and_bind_params js d w current_dir spec params ctx ≡ ok bound
    → (bound.binary ≡ spec.binary) × Fills spec.args_template bound.args
unfolding validate_and_bind_params
bound_parts js d w current_dir spec params ctx h =
    let (obj, is_object, h') = steps_of_ok (ok_or_invalid (js.as_object params) _) _ h in
    let (bound, values, h'') = steps_of_ok (bind_all js d w ctx obj spec.params []) _ h' in
    let (replacements, added, same) =
      steps_of_ok (add_workspace ctx spec.args_template bound) _ h'' in
    (
      ap (λ b. b.binary) (sym (ok-injective same)),
      subst (λ b. Fills spec.args_template b.args) (ok-injective same)
          (expand_template-Fills replacements spec.args_template),
    )

known_some :
    (id : Text) (found : Option CommandSpec) {spec : CommandSpec}
    → known_command id found ≡ ok spec
    → found ≡ some spec
known_some id none h = cc
known_some id (some spec) h = ap some (ok-injective h)

-- A command that passes the checks is one of the catalog, by its id: its binary is the catalog's, its
-- arguments are the template's tokens one by one, where only a token that is a placeholder as a whole is
-- replaced, and neither the binary's name nor any argument is on the deny list.
pub checked-IsCatalogued :
    {V W : Type 0} (h : Host W) (cs : Casing) (js : ParamJson V) (d : Disk W)
    (current_dir : Option Text) (w : W) (ctx : ShellContext) (catalog : CommandCatalog)
    (command_id : Text) (params : V) {bound : BoundCommand}
    → checked h cs js d current_dir w ctx catalog command_id params ≡ ok bound
    → (spec : CommandSpec) × (get command_id catalog ≡ some spec) × IsCatalogued cs spec bound
unfolding checked
checked-IsCatalogued h cs js d current_dir w ctx catalog command_id params {bound} passed =
    let (spec, known, passed') =
      steps_of_ok (known_command command_id (get command_id catalog)) _ passed in
    let (b, valid, passed'') =
      steps_of_ok (validate_and_bind_params js d w current_dir spec params ctx) _ passed' in
    let (u, policy, same) = steps_of_ok (permitted (evaluate_command_policy cs b)) _ passed'' in
    let (binary, argv) = bound_parts js d w current_dir spec params ctx valid in
    let (fine, fine_args) = policy_cases cs b policy in
    (
      spec,
      known_some command_id (get command_id catalog) known,
      subst (λ c. IsCatalogued cs spec c) (ok-injective same)
          (record { binary = binary; argv = argv; fine_binary = fine; fine_args = fine_args }),
    )
