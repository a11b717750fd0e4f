-- ===== src/Shell/Tests.antt =====
-- Commands of the default catalog, and the theorems about running them.
use oxcer_agent.Prelude.{true, ℕ, ◌+◌, List, [], ◌∷◌, Option, none, some, ok, err, ◌≡◌, refl}
use oxcer_agent.Text.{Text, codes, text_eq}
use oxcer_agent.Security.Tests.{ascii}
use oxcer_agent.Fs.{Disk, find_root}
use oxcer_agent.Shell.{
  CommandSpec, ShellContext, BoundCommand, get, default_catalog, run_tests, is_denied_token,
  evaluate_command_policy,
}
use oxcer_agent.Shell.Bind.{
  ParamJson, validate_and_bind_params, bind_all, add_workspace, expand_template,
}
use oxcer_agent.Shell.Run.{Host, permitted, checked}
use oxcer_agent.Shell.Argv.{IsCatalogued, checked-IsCatalogued}
use oxcer_agent.Shell.Cwd.{validate_and_bind_params-current_dir}

-- Parameters that are texts, and a host whose clock is a number and whose child never ends.

data Value : Type 0 where
  object : List (Text × Text) → Value
  string : Text → Value

abbrev fields : List (Text × Text) → List (Text × Value)
fields [] = []
fields ((k, v) ∷ rest) = (k, string v) ∷ fields rest

abbrev as_object_of : Value → Option (List (Text × Value))
as_object_of (object kvs) = some (fields kvs)
as_object_of (string s) = none

abbrev as_str_of : Value → Option Text
as_str_of (object kvs) = none
as_str_of (string s) = some s

abbrev json : ParamJson Value
json = record {
  as_object = as_object_of;
  as_str = as_str_of;
  as_bool = λ v. none;
  as_i64 = λ v. none;
  debug = λ texts. [];
}

abbrev host : Host ℕ
host = record {
  vars = λ w. [];
  spawn = λ w bound env. (ok tt, w);
  try_wait = λ w. (ok none, w);
  kill = λ w. w;
  elapsed = λ w. w;
  sleep = λ w ms. w + ms;
  has_stdout = λ w. true;
  has_stderr = λ w. true;
  read_stdout = λ w. (ok [], w);
  read_stderr = λ w. (ok [], w);
  from_utf8_lossy = λ bytes. bytes;
}

abbrev empty_disk : Disk ℕ
empty_disk = record {
  canonicalize = λ w p. err [];
  metadata = λ w p. err [];
  read_dir = λ w p. err [];
  read_to_end = λ w p. err [];
  from_utf8 = λ bytes. none;
  mime_guess = λ p. none;
  create_dir_all = λ w p. (err [], w);
  write_file = λ w p t. (err [], w);
  rename = λ w p q. (err [], w);
  copy = λ w p q. (err [], w);
  remove_file = λ w p. (err [], w);
}

abbrev ctx : ShellContext
ctx = record {
  workspace_roots = record { id = codes "w"; name = codes "Work"; path = codes "/w" } ∷ [];
  default_workspace_id = codes "w";
}

abbrev in_w : Value
in_w = object ((codes "workspace_id", codes "w") ∷ [])

abbrev git_bound : BoundCommand
git_bound = record {
  binary = codes "git";
  args = codes "-C" ∷ codes "/w" ∷ codes "status" ∷ codes "--short" ∷ [];
  cwd = codes "/w";
}

abbrev tests_bound : BoundCommand
tests_bound = record { binary = codes "cargo"; args = codes "test" ∷ []; cwd = codes "/home" }

git_checked :
    checked host ascii json empty_disk none 0 ctx default_catalog (codes "list_git_status") in_w
    ≡ ok git_bound
unfolding checked get text_eq validate_and_bind_params bind_all add_workspace expand_template
    find_root is_denied_token evaluate_command_policy permitted
git_checked = refl

checked-IsCatalogued_example :
    (spec : CommandSpec) × (get (codes "list_git_status") default_catalog ≡ some spec)
    × IsCatalogued ascii spec git_bound
checked-IsCatalogued_example =
    checked-IsCatalogued host ascii json empty_disk none 0 ctx default_catalog
      (codes "list_git_status") in_w git_checked

-- The tests of the workspace are run where the program runs.
validate_and_bind_params-current_dir_example : tests_bound.cwd ≡ codes "/home"
unfolding text_eq validate_and_bind_params bind_all add_workspace expand_template get
validate_and_bind_params-current_dir_example =
    validate_and_bind_params-current_dir json empty_disk 0 (some (codes "/home")) run_tests in_w ctx
      {bound = tests_bound} refl (refl, tt) refl
