-- ===== src/Sensitivity.antt =====
-- oxcer-core/src/data_sensitivity.rs: the classifier of sensitive text. Its result types stand in
-- Security.antt. The regular expressions are those of an external crate: the interface `Matcher`
-- has the matches of each pattern.
pub mod Merge
pub mod Mask
pub mod Spans
pub mod Sorted
pub mod Separated
pub mod Deduped
pub mod Pieces
pub mod Cutting
pub mod Covered
pub mod Headers
pub mod Recorded
pub mod Hides
pub mod Tests
use oxcer_agent.Prelude.{
  ℕ, ◌<◌, Bool, true, false, ◌&&◌, List, [], ◌∷◌, ◌++◌, Option, none, map, push, any, leb, All,
  if◌then◌else◌,
}
use oxcer_agent.Text.{Text, codes, text_eq}
use oxcer_agent.Text.Cut.{IsCut}
use oxcer_agent.Security.{SensitivityLevel, high, medium, SensitivityFinding}

pub record ClassifierOptions : Type 0 where
  pub drop_high_risk_blocks_over_bytes : ℕ
  pub workspace_root : Option Text
  pub normalize_paths : Bool

abbrev pub default_options : ClassifierOptions
default_options = record {
  drop_high_risk_blocks_over_bytes = 0;
  workspace_root = none;
  normalize_paths = true;
}

-- The compiled regular expressions, by the names of their statics.
pub data Pattern : Type 0 where
  aws_access_key aws_secret_key_like jwt pem_private_key pem_block ssh_key_path : Pattern
  password_equals pass_in_url env_secret_pass api_key_secret_val api_key_prefix : Pattern
  keychain_path ip_port base64_long auth_bearer : Pattern

abbrev pub Span : Type 0
Span = ℕ × ℕ

-- A match is a range between two places of the text. It is not empty: no pattern of the source fits
-- the empty text.
pub record IsFound (input : Text) (span : Span) : Type 0 where
  pub starts : IsCut input span.0
  pub ends : IsCut input span.1
  pub filled : span.0 < span.1

-- `Regex::find_iter`: the ranges of the matches in a text.
pub record Matcher : Type 0 where
  pub find_iter : Pattern → Text → List Span
  pub find_iter_found : (p : Pattern) (input : Text) → All (IsFound input) (find_iter p input)

-- What the loop over the matches of a pattern records.
pub record Rule : Type 0 where
  pub pattern : Pattern
  pub kind : Text
  pub pattern_id : Text

abbrev pub finding : SensitivityLevel → Text → Text → Span → SensitivityFinding
finding level kind pattern_id (start, end) = record {
  level = level;
  span_start = start;
  span_end = end;
  kind = kind;
  pattern_id = pattern_id;
}

-- The loops of one rule after another.
unfoldable pub run_rules :
    Matcher
    → SensitivityLevel
    → Text
    → List Rule
    → List SensitivityFinding
    → List SensitivityFinding
run_rules mt level input [] findings = findings
run_rules mt level input (r ∷ rules) findings =
    run_rules mt level input rules
      (findings ++ map (finding level r.kind r.pattern_id) (mt.find_iter r.pattern input))

-- The header of a key is recorded where no block that is recorded already covers it.
unfoldable pub in_block : Span → SensitivityFinding → Bool
unfolding text_eq
in_block (start, end) f =
    text_eq f.pattern_id (codes "pem_block") && (leb f.span_start start && leb end f.span_end)

unfoldable pub push_headers : List Span → List SensitivityFinding → List SensitivityFinding
unfolding in_block
push_headers [] findings = findings
push_headers (span ∷ spans) findings = push_headers spans (
    if any (in_block span) findings
    then findings
    else push findings (finding high (codes "pem_private_key_header") (codes "pem_header") span))

abbrev pub rules_to_pem_block : List Rule
rules_to_pem_block =
    record {
      pattern = aws_access_key;
      kind = codes "aws_access_key_id";
      pattern_id = codes "aws_access_key";
    }
    ∷ record {
      pattern = aws_secret_key_like;
      kind = codes "aws_credentials";
      pattern_id = codes "aws_secret_key_like";
    }
    ∷ record { pattern = jwt; kind = codes "jwt_or_oauth_token"; pattern_id = codes "jwt" }
    ∷ record { pattern = pem_block; kind = codes "ssh_private_key"; pattern_id = codes "pem_block" }
    ∷ []

abbrev pub rules_from_ssh_path : List Rule
rules_from_ssh_path =
    record {
      pattern = ssh_key_path;
      kind = codes "ssh_private_key_path";
      pattern_id = codes "ssh_key_path";
    }
    ∷ record {
      pattern = password_equals;
      kind = codes "password_in_env";
      pattern_id = codes "password_equals";
    }
    ∷ record {
      pattern = pass_in_url;
      kind = codes "password_in_url";
      pattern_id = codes "pass_in_url";
    }
    ∷ record {
      pattern = env_secret_pass;
      kind = codes "secret_or_password_env";
      pattern_id = codes "env_secret_pass";
    }
    ∷ record {
      pattern = api_key_secret_val;
      kind = codes "api_key";
      pattern_id = codes "api_key_secret_val";
    }
    ∷ record {
      pattern = api_key_prefix;
      kind = codes "api_key_prefix";
      pattern_id = codes "api_key_prefix";
    }
    ∷ []

abbrev pub medium_rules : List Rule
medium_rules =
    record {
      pattern = keychain_path;
      kind = codes "keychain_or_credential_path";
      pattern_id = codes "keychain_path";
    }
    ∷ record { pattern = ip_port; kind = codes "ip_address"; pattern_id = codes "ip_port" }
    ∷ record {
      pattern = base64_long;
      kind = codes "base64_block";
      pattern_id = codes "base64_long";
    }
    ∷ record {
      pattern = auth_bearer;
      kind = codes "authorization_bearer";
      pattern_id = codes "auth_bearer";
    }
    ∷ []

unfoldable pub run_high_rules : Matcher → Text → List SensitivityFinding → List SensitivityFinding
unfolding run_rules push_headers
run_high_rules mt input findings = run_rules mt high input rules_from_ssh_path (
    push_headers (mt.find_iter pem_private_key input)
      (run_rules mt high input rules_to_pem_block findings))

unfoldable pub run_medium_rules : Matcher → Text → List SensitivityFinding → List SensitivityFinding
unfolding run_rules
run_medium_rules mt input findings = run_rules mt medium input medium_rules findings
