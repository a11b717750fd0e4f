-- ===== src/Shell.antt =====
-- oxcer-core/src/shell.rs: commands of a catalog, which are run with checked parameters. `V` is
-- `serde_json::Value`.
pub mod Bind
pub mod Run
pub mod Argv
pub mod Cwd
pub mod Waits
mod Tests
use oxcer_agent.Prelude.{
  ℕ, Bool, true, false, List, [], ◌∷◌, ◌++◌, Option, none, some, any, Result, ok, err, ltb,
  if◌then◌else◌,
}
use oxcer_agent.Text.{Text, Casing, codes, text_eq}
use oxcer_agent.Paths.{file_stem}
use oxcer_agent.Fs.{
  WorkspaceRoot, FsError, FsErrorKind, SecurityDecision, SecurityDecisionKind, allow, deny,
  DenyReason, blocklisted_path, outside_allowed_base, escape_attempt, blocklisted_command,
}

-- An `i64`; `negsuc n` is -(n + 1).
pub data ℤ : Type 0 where
  pos negsuc : ℕ → ℤ

unfoldable pub ltb_int : ℤ → ℤ → Bool
ltb_int (pos m) (pos n) = ltb m n
ltb_int (pos m) (negsuc n) = false
ltb_int (negsuc m) (pos n) = true
ltb_int (negsuc m) (negsuc n) = ltb n m

pub record ShellContext : Type 0 where
  pub workspace_roots : List WorkspaceRoot
  pub default_workspace_id : Text

pub data CommandParamType : Type 0 where
  string : CommandParamType
  one_of : List Text → CommandParamType
  path_relative_to_workspace bool : CommandParamType
  integer : (min max : Option ℤ) → CommandParamType

pub record CommandParamSpec : Type 0 where
  pub name : Text
  pub required : Bool
  pub param_type : CommandParamType

pub record CommandSpec : Type 0 where
  pub id : Text
  pub binary : Text
  pub args_template : List Text
  pub params : List CommandParamSpec
  pub description : Text

-- The map from ids to commands.
abbrev pub CommandCatalog : Type 0
CommandCatalog = List (Text × CommandSpec)

pub record BoundCommand : Type 0 where
  pub binary : Text
  pub args : List Text
  pub cwd : Text

-- `duration_ms` is left out.
pub record ShellResult : Type 0 where
  pub stdout : Text
  pub stderr : Text
  pub exit_code : ℤ

pub data ShellErrorKind : Type 0 where
  unknown_command invalid_params forbidden io timeout : ShellErrorKind

pub record ShellError : Type 0 where
  pub kind : ShellErrorKind
  pub message : Text

abbrev pub shell_error : ShellErrorKind → Text → ShellError
shell_error kind message = record { kind = kind; message = message }

abbrev error_kind : FsErrorKind → ShellErrorKind
error_kind FsErrorKind.invalid_path = invalid_params
error_kind FsErrorKind.not_directory = invalid_params
error_kind FsErrorKind.too_large = invalid_params
error_kind FsErrorKind.workspace_not_found = invalid_params
error_kind FsErrorKind.forbidden = forbidden
error_kind FsErrorKind.io = io

unfoldable pub shell_error_from_fs : FsError → ShellError
shell_error_from_fs e = shell_error (error_kind e.kind) e.message

abbrev workspace_param : List CommandParamSpec
workspace_param = record { name = codes "workspace_id"; required = true; param_type = string } ∷ []

abbrev pub list_git_status : CommandSpec
list_git_status = record {
  id = codes "list_git_status";
  binary = codes "git";
  args_template = codes "-C" ∷ codes "{{workspace}}" ∷ codes "status" ∷ codes "--short" ∷ [];
  params = workspace_param;
  description = codes "List git status (short format) for a workspace.";
}

abbrev pub run_tests : CommandSpec
run_tests = record {
  id = codes "run_tests";
  binary = codes "cargo";
  args_template = codes "test" ∷ [];
  params = workspace_param;
  description = codes "Run tests (cargo test) in the given workspace.";
}

abbrev pub format_code : CommandSpec
format_code = record {
  id = codes "format_code";
  binary = codes "cargo";
  args_template = codes "fmt" ∷ [];
  params = workspace_param;
  description = codes "Format code (cargo fmt) in the given workspace.";
}

abbrev pub default_catalog : CommandCatalog
default_catalog =
    (codes "list_git_status", list_git_status)
    ∷ (codes "run_tests", run_tests)
    ∷ (codes "format_code", format_code)
    ∷ []

-- `HashMap::get` and `HashMap::insert`.
unfoldable pub get : {A : Type 0} → Text → List (Text × A) → Option A
unfolding text_eq
get key [] = none
get key ((k, a) ∷ rest) = let later = get key rest in if text_eq k key then some a else later

unfoldable pub insert : {A : Type 0} → Text → A → List (Text × A) → List (Text × A)
unfolding text_eq
insert key a [] = (key, a) ∷ []
insert key a ((k, b) ∷ rest) =
    let later = insert key a rest in if text_eq k key then (key, a) ∷ rest else (k, b) ∷ later

unfoldable pub merge_plugin_commands : CommandCatalog → List (Text × CommandSpec) → CommandCatalog
unfolding insert
merge_plugin_commands catalog [] = catalog
merge_plugin_commands catalog ((id, spec) ∷ specs) =
    merge_plugin_commands (insert id spec catalog) specs

abbrev pub deny_tokens : List Text
deny_tokens =
    codes "rm"
    ∷ codes "sudo"
    ∷ codes "su"
    ∷ codes "apt"
    ∷ codes "apt-get"
    ∷ codes "brew"
    ∷ codes "yum"
    ∷ codes "dnf"
    ∷ codes "pip"
    ∷ codes "pip3"
    ∷ codes "npm"
    ∷ codes "pnpm"
    ∷ codes "yarn"
    ∷ codes "nmap"
    ∷ codes "masscan"
    ∷ codes "nc"
    ∷ codes "netcat"
    ∷ []

unfoldable pub is_denied_token : Casing → Text → Bool
unfolding text_eq
is_denied_token cs token = any (λ d. text_eq d (cs.to_lowercase token)) deny_tokens

abbrev pub or_empty : Option Text → Text
or_empty none = []
or_empty (some s) = s

abbrev denied : SecurityDecision
denied = record { decision = deny; reason = some blocklisted_command }

abbrev pub allow_decision : SecurityDecision
allow_decision = record { decision = allow; reason = none }

unfoldable pub evaluate_command_policy : Casing → BoundCommand → SecurityDecision
unfolding is_denied_token file_stem
evaluate_command_policy cs bound =
    if is_denied_token cs (or_empty (file_stem bound.binary))
    then denied
    else if any (is_denied_token cs) bound.args
    then denied
    else allow_decision

-- The `Debug` text of a reason, and the message of a denial.
abbrev pub reason_name : DenyReason → Text
reason_name blocklisted_path = codes "BlocklistedPath"
reason_name outside_allowed_base = codes "OutsideAllowedBase"
reason_name escape_attempt = codes "EscapeAttempt"
reason_name blocklisted_command = codes "BlocklistedCommand"

abbrev pub denial_message : Option DenyReason → Text
denial_message none = codes "command denied by policy"
denial_message (some r) = codes "command denied by policy: " ++ reason_name r
