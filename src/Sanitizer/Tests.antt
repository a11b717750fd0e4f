-- ===== src/Sanitizer/Tests.antt =====
-- The pipeline at concrete payloads.
use oxcer_agent.Prelude.{◌≡◌, refl, ◌↔◌, false, [], ◌∷◌, none, some, ok, err}
use oxcer_agent.Text.{Text, codes, len}
use oxcer_agent.Text.Cut.{replace_range}
use oxcer_agent.Security.Tests.{ascii}
use oxcer_agent.Orchestrator.Panics.{Splits}
use oxcer_agent.Sensitivity.{default_options}
use oxcer_agent.Sensitivity.Mask.{mask_finding}
use oxcer_agent.Sensitivity.Tests.{words, find_first}
use oxcer_agent.Sanitizer.{
  scrub_for_llm_call, scrub_for_llm_call_audit, never_send_to_llm, never_send_message,
}
use oxcer_agent.Sanitizer.Secrets.{is_sensitive_path}
use oxcer_agent.Sanitizer.Payload.{
  FileContentChunk, LlmPayloadParts, build_raw_payload, sanitize_for_llm,
  to_workspace_relative_path,
}
use oxcer_agent.Sanitizer.Laws.{IsScrubbed, scrub_for_llm_call-IsScrubbed}
use oxcer_agent.Sanitizer.Audit.{
  Agrees, scrub_for_llm_call_audit-Agrees, Refuses, scrub_for_llm_call-none,
}
use oxcer_agent.Sanitizer.Blanked.{content-SameButSecrets}

abbrev question : Text
question = codes "please ask 10.0.0.1 for it"

abbrev asked : Text
asked = codes "please ask [REDACTED: ip_address] for it"

abbrev key : Text
key = codes "here is AKIA"

abbrev longer_key : Text
longer_key = codes "here is sk-eyJ"

address_is_masked : scrub_for_llm_call words none question default_options ≡ some (ok asked)
unfolding scrub_for_llm_call find_first mask_finding replace_range len
address_is_masked = refl

key_is_refused :
    scrub_for_llm_call words none key default_options
    ≡ some (err (never_send_to_llm never_send_message (codes "aws_access_key_id")))
unfolding scrub_for_llm_call find_first mask_finding replace_range len
key_is_refused = refl

-- A token that may never be sent is not refused where it was merged into another key.
merged_token_is_not_refused :
    scrub_for_llm_call words none longer_key default_options
    ≡ some (ok (codes "here is [REDACTED: api_key_prefix]"))
unfolding scrub_for_llm_call find_first mask_finding replace_range len
merged_token_is_not_refused = refl

relative : to_workspace_relative_path (codes "/a/b/c") (codes "/a/b/") ≡ codes "./c"
unfolding to_workspace_relative_path
relative = refl

-- A folder whose name begins with the name of the workspace counts as inside.
beside : to_workspace_relative_path (codes "/a/bc/d") (codes "/a/b") ≡ codes "./c/d"
unfolding to_workspace_relative_path
beside = refl

scrub_for_llm_call-IsScrubbed_example : IsScrubbed words none question default_options asked
scrub_for_llm_call-IsScrubbed_example =
    scrub_for_llm_call-IsScrubbed words none question default_options asked address_is_masked

scrub_for_llm_call_audit-Agrees_example :
    Agrees
      (len key)
      (scrub_for_llm_call words none key default_options)
      (scrub_for_llm_call_audit words none (codes "12:00") key default_options (codes "s1"))
scrub_for_llm_call_audit-Agrees_example =
    scrub_for_llm_call_audit-Agrees words none (codes "12:00") (codes "s1") key default_options

scrub_for_llm_call-none_example :
    (scrub_for_llm_call words none key default_options ≡ none) ↔ (Refuses words key × Splits key)
scrub_for_llm_call-none_example = scrub_for_llm_call-none words none key default_options

abbrev dotenv : Text → FileContentChunk
dotenv content = record { path = codes ".env"; content = content }

abbrev parts : LlmPayloadParts
parts = record {
  task = codes "explain";
  file_snippets = dotenv (codes "A=1") ∷ [];
  shell_outputs = codes "done" ∷ [];
  tool_outputs = [];
  metadata = [];
}

built :
    build_raw_payload ascii parts
    ≡ codes "Task:\nexplain\n\n--- .env ---\n[REDACTED_SENSITIVE_FILE]\n\nShell output [1]:\ndone"
unfolding build_raw_payload
built = refl

dotenv_is_sensitive : is_sensitive_path ascii (codes ".env") ≡ false → codes "A=1" ≡ codes "B=2"
unfolding is_sensitive_path
dotenv_is_sensitive h = cc

content-SameButSecrets_example :
    (build_raw_payload ascii (record parts { file_snippets = dotenv (codes "B=2") ∷ [] })
      ≡ build_raw_payload ascii parts)
    × (sanitize_for_llm words ascii none
          (record { task = codes "explain"; file_contents = dotenv (codes "B=2") ∷ [] })
        ≡ sanitize_for_llm words ascii none
            (record { task = codes "explain"; file_contents = dotenv (codes "A=1") ∷ [] }))
content-SameButSecrets_example =
    content-SameButSecrets ascii words none parts (dotenv (codes "B=2") ∷ [])
      ((refl, dotenv_is_sensitive), tt)
