-- ===== src/Env.antt =====
-- oxcer-core/src/env_filter.rs: the environment that a child process is given. An environment is a list
-- of keys and values, where the last of two equal keys counts, as in the map that is made of it.
pub mod Passed
mod Tests
use oxcer_agent.Prelude.{Bool, not, map, ◌||◌, List, [], ◌∷◌, ◌++◌, any, retain, if◌then◌else◌}
use oxcer_agent.Text.{Text, Casing, codes, text_eq, starts_with, ends_with, join}

abbrev pub Environment : Type 0
Environment = List (Text × Text)

abbrev pub high_risk_env_prefixes : List Text
high_risk_env_prefixes =
    codes "AWS_"
    ∷ codes "GITHUB_"
    ∷ codes "OPENAI_API_KEY"
    ∷ codes "ANTHROPIC_API_KEY"
    ∷ codes "ANTHROPIC_"
    ∷ codes "SLACK_"
    ∷ codes "STRIPE_"
    ∷ codes "STRIPE_SECRET"
    ∷ codes "DIGITALOCEAN_"
    ∷ codes "HEROKU_"
    ∷ codes "FIREBASE_"
    ∷ codes "GOOGLE_APPLICATION_CREDENTIALS"
    ∷ codes "GOOGLE_API_KEY"
    ∷ codes "GCP_"
    ∷ codes "AZURE_"
    ∷ codes "TWILIO_"
    ∷ codes "SENDGRID_"
    ∷ codes "MAILGUN_"
    ∷ codes "NPM_TOKEN"
    ∷ codes "JEKYLL_"
    ∷ codes "RUBYGEMS_"
    ∷ codes "NODE_AUTH_TOKEN"
    ∷ codes "GH_TOKEN"
    ∷ codes "GL_TOKEN"
    ∷ codes "CI_JOB_TOKEN"
    ∷ codes "CI_REGISTRY_PASSWORD"
    ∷ codes "ACTIONS_RUNNER_"
    ∷ []

abbrev pub high_risk_env_keys : List Text
high_risk_env_keys =
    codes "OPENAI_API_KEY"
    ∷ codes "ANTHROPIC_API_KEY"
    ∷ codes "API_KEY"
    ∷ codes "SECRET_KEY"
    ∷ codes "PRIVATE_KEY"
    ∷ codes "ACCESS_KEY"
    ∷ codes "GITHUB_TOKEN"
    ∷ codes "GITLAB_TOKEN"
    ∷ codes "SLACK_TOKEN"
    ∷ codes "STRIPE_SECRET_KEY"
    ∷ codes "DB_PASSWORD"
    ∷ codes "DATABASE_URL"
    ∷ codes "REDIS_URL"
    ∷ codes "AMQP_URL"
    ∷ []

abbrev pub high_risk_suffixes : List Text
high_risk_suffixes =
    codes "_SECRET"
    ∷ codes "_TOKEN"
    ∷ codes "_PASSWORD"
    ∷ codes "_API_KEY"
    ∷ codes "_CREDENTIALS"
    ∷ []

unfoldable pub is_high_risk_key : Casing → Text → Bool
unfolding starts_with text_eq ends_with
is_high_risk_key cs key =
    let key_upper = cs.to_uppercase key in
    any (λ prefix. starts_with key_upper (cs.to_uppercase prefix)) high_risk_env_prefixes
    || any (λ exact. text_eq key_upper exact) high_risk_env_keys
    || any (λ suffix. ends_with key_upper suffix) high_risk_suffixes

-- `HashMap::insert`.
unfoldable pub insert_key : Text → Text → Environment → Environment
unfolding text_eq
insert_key key value [] = (key, value) ∷ []
insert_key key value ((k, v) ∷ rest) =
    let later = insert_key key value rest in
    if text_eq k key then (key, value) ∷ rest else (k, v) ∷ later

-- The pairs are put into the map in their order.
unfoldable pub collect : Environment → Environment → Environment
unfolding insert_key
collect kept [] = kept
collect kept ((k, v) ∷ rest) = collect (insert_key k v kept) rest

unfoldable pub filter_env_for_child : Casing → Environment → Environment
unfolding is_high_risk_key collect
filter_env_for_child cs vars = collect [] (retain (λ (k, v). not (is_high_risk_key cs k)) vars)

unfoldable pub env_has_high_risk_keys : Casing → Environment → Bool
unfolding is_high_risk_key
env_has_high_risk_keys cs vars = any (λ (k, v). is_high_risk_key cs k) vars

unfoldable pub safe_env_for_child : Casing → Environment → Text → Text → Text → Environment
unfolding filter_env_for_child
safe_env_for_child cs vars path lang term =
    insert_key (codes "TERM") term (
      insert_key (codes "LANG") lang
        (insert_key (codes "PATH") path (filter_env_for_child cs vars)))

-- `mask` is the classifier's masking of a text.
unfoldable pub env_for_display : (Text → Text) → Environment → Text
env_for_display mask vars = mask (join (codes "\n") (map (λ (k, v). k ++ (codes "=" ++ v)) vars))
