-- ===== src/Shell/Bind.antt =====
-- oxcer-core/src/shell.rs: the check of parameters, and the command that they are bound into.
use oxcer_agent.Prelude.{
  ◌-◌, ◌+◌, Bool, true, false, not, ◌&&◌, List, [], ◌∷◌, ◌++◌, map, Option, none, some, any, leb,
  length, take, drop, Result, ok, err, ◌>>=◌, if◌then◌else◌,
}
use oxcer_agent.Text.{Text, codes, text_eq, len, starts_with, ends_with}
use oxcer_agent.Executor.Display.{decimal}
use oxcer_agent.Fs.{
  WorkspaceRoot, FsError, NormalizedPath, workspace, Disk, find_root, normalize_and_resolve,
}
use oxcer_agent.Shell.{
  ℤ, pos, negsuc, ltb_int, ShellContext, CommandParamType, string, one_of,
  path_relative_to_workspace, bool, integer, CommandParamSpec, CommandSpec, BoundCommand,
  ShellError, invalid_params, shell_error, shell_error_from_fs, get, insert,
}

-- What the check uses of `serde_json::Value`, and the `Debug` text of a list of strings.
pub record ParamJson (V : Type 0) : Type 0 where
  pub as_object : V → Option (List (Text × V))
  pub as_str : V → Option Text
  pub as_bool : V → Option Bool
  pub as_i64 : V → Option ℤ
  pub debug : List Text → Text

abbrev pub Replacements : Type 0
Replacements = List (Text × Text)

abbrev pub int_text : ℤ → Text
int_text (pos n) = decimal n
int_text (negsuc n) = codes "-" ++ decimal (n + 1)

abbrev pub bool_text : Bool → Text
bool_text true = codes "true"
bool_text false = codes "false"

abbrev pub invalid : {A : Type 0} → Text → Result A ShellError
invalid message = err (shell_error invalid_params message)

abbrev pub ok_or_invalid : {A : Type 0} → Option A → Text → Result A ShellError
ok_or_invalid none message = invalid message
ok_or_invalid (some a) message = ok a

abbrev pub not_less : Text → ℤ → Option ℤ → Result (Unit {0}) ShellError
not_less name n none = ok tt
not_less name n (some m) =
    if ltb_int n m
    then invalid (codes "param " ++ (name ++ (codes " must be >= " ++ int_text m)))
    else ok tt

abbrev pub not_greater : Text → ℤ → Option ℤ → Result (Unit {0}) ShellError
not_greater name n none = ok tt
not_greater name n (some m) =
    if ltb_int m n
    then invalid (codes "param " ++ (name ++ (codes " must be <= " ++ int_text m)))
    else ok tt

abbrev pub or_shell_error : Result NormalizedPath FsError → Result NormalizedPath ShellError
or_shell_error (ok n) = ok n
or_shell_error (err e) = err (shell_error_from_fs e)

-- A token that is a whole placeholder; the key is between the braces.
abbrev pub is_placeholder : Text → Bool
is_placeholder token =
    leb 4 (len token) && starts_with token (codes "{{") && ends_with token (codes "}}")

abbrev pub key_of : Text → Text
key_of token = take (length token - 4) (drop 2 token)

abbrev pub unwrap_or : Option Text → Text → Text
unwrap_or none t = t
unwrap_or (some s) t = s

unfoldable pub expand_token : Replacements → Text → Text
unfolding len starts_with ends_with get
expand_token replacements token =
    if is_placeholder token then unwrap_or (get (key_of token) replacements) token else token

unfoldable pub expand_template : List Text → Replacements → List Text
unfolding expand_token
expand_template args_template replacements = map (expand_token replacements) args_template

module _ {V W : Type 0} (js : ParamJson V) (d : Disk W) (w : W) (ctx : ShellContext) where
  abbrev string_value : Text → V → Result Text ShellError
  string_value name value =
      ok_or_invalid (js.as_str value) (codes "param " ++ (name ++ codes " must be a string"))

  abbrev workspace_of : Option V → Text
  workspace_of none = ctx.default_workspace_id
  workspace_of (some value) = unwrap_or (js.as_str value) ctx.default_workspace_id

  -- The text of a parameter's value, by its type.
  unfoldable pub param_text : List (Text × V) → Text → CommandParamType → V → Result Text ShellError
  unfolding get text_eq normalize_and_resolve shell_error_from_fs ltb_int
  param_text obj name string value = string_value name value
  param_text obj name (one_of choices) value = do
    s ← string_value name value
    (if not (any (λ t. text_eq t s) choices)
        then invalid (codes "param " ++ (name ++ (codes " must be one of: " ++ js.debug choices)))
        else ok s)
  param_text obj name path_relative_to_workspace value = do
    rel ← string_value name value
    normalized ← or_shell_error (
        normalize_and_resolve d w
          (record { app_config_dir = codes "."; workspace_roots = ctx.workspace_roots })
          (workspace (workspace_of (get (codes "workspace_id") obj))) rel)
    ok normalized.abs_path
  param_text obj name bool value = do
    b ← ok_or_invalid (js.as_bool value) (codes "param " ++ (name ++ codes " must be a boolean"))
    ok (bool_text b)
  param_text obj name (integer min max) value = do
    n ← ok_or_invalid (js.as_i64 value) (codes "param " ++ (name ++ codes " must be an integer"))
    above ← not_less name n min
    below ← not_greater name n max
    ok (int_text n)

  -- A missing optional parameter is skipped.
  unfoldable pub bind_param :
      List (Text × V) → CommandParamSpec → Option V → Replacements → Result Replacements ShellError
  unfolding param_text insert
  bind_param obj spec none replacements =
      if spec.required
      then invalid (codes "missing required param: " ++ spec.name)
      else ok replacements
  bind_param obj spec (some value) replacements = do
    s ← param_text obj spec.name spec.param_type value
    ok (insert spec.name s replacements)

  -- The loop over the parameters.
  unfoldable pub bind_all :
      List (Text × V) → List CommandParamSpec → Replacements → Result Replacements ShellError
  unfolding bind_param get
  bind_all obj [] replacements = ok replacements
  bind_all obj (spec ∷ specs) replacements = do
    bound ← bind_param obj spec (get spec.name obj) replacements
    bind_all obj specs bound

abbrev pub root_of : Text → Option WorkspaceRoot → Result Text ShellError
root_of id none = invalid (codes "workspace not found: " ++ id)
root_of id (some root) = ok root.path

-- The path of the workspace, for templates that ask for it.
unfoldable pub add_workspace :
    ShellContext → List Text → Replacements → Result Replacements ShellError
unfolding text_eq get insert find_root
add_workspace ctx args_template replacements =
    if any (λ t. text_eq t (codes "{{workspace}}")) args_template
    then (do
      id ←
          ok_or_invalid (get (codes "workspace_id") replacements)
            (codes "workspace_id required for this command")
      path ← root_of id (find_root id ctx.workspace_roots)
      ok (insert (codes "workspace") path replacements))
    else ok replacements

-- `current_dir` is what the process is started in; `none` where it cannot be told.
unfoldable pub validate_and_bind_params :
    {V W : Type 0}
    → ParamJson V
    → Disk W
    → W
    → Option Text
    → CommandSpec
    → V
    → ShellContext
    → Result BoundCommand ShellError
unfolding bind_all add_workspace expand_template get
validate_and_bind_params js d w current_dir spec params ctx = do
  obj ← ok_or_invalid (js.as_object params) (codes "params must be a JSON object")
  bound ← bind_all js d w ctx obj spec.params []
  replacements ← add_workspace ctx spec.args_template bound
  ok (record {
    binary = spec.binary;
    args = expand_template spec.args_template replacements;
    cwd = unwrap_or (get (codes "workspace") replacements) (unwrap_or current_dir (codes "."));
  })
