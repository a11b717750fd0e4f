-- ===== src/Shell/Cwd.antt =====
-- oxcer-core/src/shell.rs: the directory that a command runs in.
use oxcer_agent.Prelude.{
  false, List, [], ◌∷◌, Option, none, some, any, All, ok, steps_of_ok, ok-injective, ◌≡◌, refl, sym,
  ap, ◌∙◌, inl, inr, Bool-cases,
}
use oxcer_agent.Text.{Text, codes, text_eq}
use oxcer_agent.Text.Laws.{text_eq_sound}
use oxcer_agent.Fs.{Disk}
use oxcer_agent.Shell.{ShellContext, CommandParamSpec, CommandSpec, BoundCommand, get, insert}
use oxcer_agent.Shell.Bind.{
  ParamJson, Replacements, ok_or_invalid, param_text, bind_param, bind_all, add_workspace,
  validate_and_bind_params, unwrap_or,
}

abbrev pub workspace_key : Text
workspace_key = codes "workspace"

get-insert :
    {A : Type 0} (key other : Text) (a : A) (m : List (Text × A))
    → text_eq key other ≡ false
    → get other (insert key a m) ≡ get other m
unfolding get insert
get-insert key other a [] differ = rw differ refl
get-insert key other a ((k, b) ∷ rest) differ = elim (Bool-cases (text_eq k key)) [
  | inl same ↦
      let k_differs : text_eq k other ≡ false =
        ap (λ t. text_eq t other) (text_eq_sound k key same) ∙ differ in
      rw (same, differ, k_differs) refl
  | inr kept ↦ rw kept (elim (Bool-cases (text_eq k other)) [
    | inl here ↦ rw here refl
    | inr there ↦ rw there (get-insert key other a rest differ)
  ])
]

module _ {V W : Type 0} (js : ParamJson V) (d : Disk W) (w : W) (ctx : ShellContext) where
  -- The parameters are bound to their own names.
  bind_param-other :
      (obj : List (Text × V)) (spec : CommandParamSpec) (value : Option V) (m : Replacements)
      {bound : Replacements}
      → text_eq spec.name workspace_key ≡ false
      → get workspace_key m ≡ none
      → bind_param js d w ctx obj spec value m ≡ ok bound
      → get workspace_key bound ≡ none
  unfolding bind_param
  bind_param-other obj spec none m other empty h = elim (Bool-cases spec.required) [
    | inl required ↦ let refused = rw required at h in cc
    | inr optional ↦
        let same = rw optional at h in ap (get workspace_key) (sym (ok-injective same)) ∙ empty
  ]
  bind_param-other obj spec (some value) m other empty h =
      let (s, text, same) =
        steps_of_ok (param_text js d w ctx obj spec.name spec.param_type value) _ h in
      ap (get workspace_key) (sym (ok-injective same))
      ∙ get-insert spec.name workspace_key s m other
      ∙ empty

  bind_all-other :
      (obj : List (Text × V)) (specs : List CommandParamSpec) (m : Replacements)
      {bound : Replacements}
      → All (λ s. text_eq s.name workspace_key ≡ false) specs
      → get workspace_key m ≡ none
      → bind_all js d w ctx obj specs m ≡ ok bound
      → get workspace_key bound ≡ none
  unfolding bind_all
  bind_all-other obj [] m others empty h = ap (get workspace_key) (sym (ok-injective h)) ∙ empty
  bind_all-other obj (spec ∷ specs) m (other, others) empty h =
      let (m', one, h') = steps_of_ok (bind_param js d w ctx obj spec (get spec.name obj) m) _ h in
      bind_all-other obj specs m' others
        (bind_param-other obj spec (get spec.name obj) m other empty one) h'

add_workspace_unnamed :
    (ctx : ShellContext) (template : List Text) (m : Replacements) {bound : Replacements}
    → any (λ t. text_eq t (codes "{{workspace}}")) template ≡ false
    → add_workspace ctx template m ≡ ok bound
    → bound ≡ m
unfolding add_workspace
add_workspace_unnamed ctx template m unnamed h =
    let same = rw unnamed at h in sym (ok-injective same)

-- A command whose template has no {{workspace}} and that has no parameter called "workspace" runs in the
-- directory of the program, whatever workspace its parameters name.
pub validate_and_bind_params-current_dir :
    {V W : Type 0} (js : ParamJson V) (d : Disk W) (w : W) (current_dir : Option Text)
    (spec : CommandSpec) (params : V) (ctx : ShellContext) {bound : BoundCommand}
    → any (λ t. text_eq t (codes "{{workspace}}")) spec.args_template ≡ false
    → All (λ s. text_eq s.name workspace_key ≡ false) spec.params
    → validate_and_bind_params js d w current_dir spec params ctx ≡ ok bound
    → bound.cwd ≡ unwrap_or current_dir (codes ".")
unfolding validate_and_bind_params get
validate_and_bind_params-current_dir js d w current_dir spec params ctx unnamed others h =
    let (obj, is_object, h') = steps_of_ok (ok_or_invalid (js.as_object params) _) _ h in
    let (values, all, h'') = steps_of_ok (bind_all js d w ctx obj spec.params []) _ h' in
    let (replacements, added, same) =
      steps_of_ok (add_workspace ctx spec.args_template values) _ h'' in
    let empty = bind_all-other js d w ctx obj spec.params [] others refl all in
    ap (λ b. b.cwd) (sym (ok-injective same))
    ∙ ap (λ o. unwrap_or o (unwrap_or current_dir (codes ".")))
        (ap (get workspace_key) (add_workspace_unnamed ctx spec.args_template values unnamed added)
          ∙ empty)
