-- ===== src/Webhook/Scopes/Tests.antt =====
-- dynamic-config-webhook/src/annotations.rs: the gates on inputs of the documentation.
use dynamic_config_k8s.Prelude.{String, ◌≡◌, refl, true, false, [], ◌∷◌, ok}
use dynamic_config_k8s.Prelude.Texts.{head_is, strip_suffix, starts_with, all_chars}
use dynamic_config_k8s.Webhook.Scopes.{ScopedNames, env_names, allows}

abbrev variables : String
variables = "team-a: AWS_*, RUST_LOG ; *: HTTP_PROXY"

abbrev variables_gate : ScopedNames
variables_gate = record {
  groups = ("team-a", "AWS_*" ∷ "RUST_LOG" ∷ []) ∷ ("*", "HTTP_PROXY" ∷ []) ∷ [];
}

variables_parse : env_names variables ≡ ok variables_gate
unfolding env_names strip_suffix head_is all_chars
variables_parse = refl

scoped_by_namespace :
    (allows variables_gate "team-a" "AWS_REGION" ≡ true)
    × (allows variables_gate "team-b" "RUST_LOG" ≡ false)
    × (allows variables_gate "team-b" "HTTP_PROXY" ≡ true)
unfolding allows strip_suffix starts_with
scoped_by_namespace = (refl, refl, refl)

abbrev stores_gate : ScopedNames
stores_gate = record { groups = ("*", "vault" ∷ "s3" ∷ []) ∷ [] }
