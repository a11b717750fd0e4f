-- ===== src/Sanitizer/Secrets.antt =====
-- oxcer-core/src/prompt_sanitizer.rs: the paths whose content is not to be shown.
use oxcer_agent.Prelude.{ℕ, Bool, true, false, ◌||◌, List, [], ◌∷◌, map, any, ◌==◌, if◌then◌else◌}
use oxcer_agent.Text.{Text, Casing, codes, contains, starts_with, ends_with}

abbrev pub sensitive_file_placeholder : Text
sensitive_file_placeholder = codes "[REDACTED_SENSITIVE_FILE]"

abbrev pub sensitive_path_patterns : List Text
sensitive_path_patterns =
    codes ".ssh"
    ∷ codes "id_rsa"
    ∷ codes "id_ed25519"
    ∷ codes "id_ecdsa"
    ∷ codes ".aws/credentials"
    ∷ codes ".aws/credentials."
    ∷ codes ".gitconfig"
    ∷ codes ".gnupg"
    ∷ codes ".env"
    ∷ codes ".env.local"
    ∷ codes ".env.production"
    ∷ codes ".env.development"
    ∷ codes ".netrc"
    ∷ codes ".git-credentials"
    ∷ codes ".docker/config.json"
    ∷ codes ".kube/config"
    ∷ codes "keychains"
    ∷ codes "passwords"
    ∷ codes ".terraform"
    ∷ codes "gcloud"
    ∷ codes ".azure"
    ∷ codes ".pem"
    ∷ codes ".key"
    ∷ codes ".pfx"
    ∷ codes ".p12"
    ∷ codes ".keystore"
    ∷ codes ".jks"
    ∷ codes "password"
    ∷ codes "secret"
    ∷ codes "credentials"
    ∷ codes "token"
    ∷ codes ".token"
    ∷ []

abbrev pub sensitive_filename_patterns : List Text
sensitive_filename_patterns =
    codes ".pem"
    ∷ codes ".key"
    ∷ codes ".pfx"
    ∷ codes ".p12"
    ∷ codes ".keystore"
    ∷ codes ".jks"
    ∷ codes ".token"
    ∷ codes ".credentials"
    ∷ codes ".secret"
    ∷ codes "id_rsa"
    ∷ codes "id_ed25519"
    ∷ codes "id_ecdsa"
    ∷ []

-- `s.split('/').next_back()`: the text behind the last slash.
abbrev pub onto_name : ℕ → Bool × Text → Bool × Text
onto_name c (true, name) = (true, name)
onto_name c (false, name) = if c == b'/' then (true, name) else (false, c ∷ name)

unfoldable pub behind_last_slash : Text → Bool × Text
behind_last_slash [] = (false, [])
behind_last_slash (c ∷ s) = onto_name c (behind_last_slash s)

unfoldable pub is_sensitive_path : Casing → Text → Bool
unfolding contains starts_with ends_with behind_last_slash
is_sensitive_path cs path =
    let path_lower = cs.to_lowercase (map (λ c. if c == 92 then b'/' else c) path) in
    let filename = (behind_last_slash path_lower).1 in
    any (λ pat. contains path_lower (cs.to_lowercase pat)) sensitive_path_patterns
    || any (λ pat. ends_with filename (cs.to_lowercase pat) || contains filename pat)
        sensitive_filename_patterns
    || starts_with filename (codes "password")
    || starts_with filename (codes "secret")
