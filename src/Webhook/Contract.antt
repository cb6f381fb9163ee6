-- ===== src/Webhook/Contract.antt =====
-- dynamic-config-webhook/src/annotations.rs: the table of the annotations that the contract accepts.
pub mod Deprecations
use dynamic_config_k8s.Prelude.{
  ◌-◌, ◌/◌, String, Bool, true, false, ◌&&◌, Option, none, some, List, [], ◌∷◌, ◌==◌, any, find,
}
use dynamic_config_k8s.Prelude.Texts.{◌⊕◌, strip_prefix, split_once, is_some}

pub record AnnotationSpec : Type 0 where
  pub name : String
  pub per_render : Bool
  pub deprecated_since : Option String
  pub replacement : Option String

abbrev pub prefix : String
prefix = "dynamic-config.rs/"

-- `known(name)`, and `known(name).per_render()`
abbrev pub known : String → AnnotationSpec
known name = record { name = name; per_render = false; deprecated_since = none; replacement = none }

abbrev pub rendered : String → AnnotationSpec
rendered name = record (known name) { per_render = true }

-- `spec.deprecated(since, replacement)`
abbrev pub deprecated : AnnotationSpec → String → Option String → AnnotationSpec
deprecated spec since replacement = record spec {
  deprecated_since = some since;
  replacement = replacement;
}

unfoldable pub registry : List AnnotationSpec
registry =
    known "inject"
    ∷ rendered "source"
    ∷ rendered "endpoint"
    ∷ rendered "endpoint-secret"
    ∷ rendered "key"
    ∷ rendered "path"
    ∷ known "mode"
    ∷ rendered "watch-seconds"
    ∷ rendered "timeout"
    ∷ known "agent-image"
    ∷ rendered "section"
    ∷ rendered "auth"
    ∷ rendered "auth-mount"
    ∷ rendered "auth-role"
    ∷ rendered "auth-username"
    ∷ rendered "auth-token-path"
    ∷ rendered "namespace"
    ∷ rendered "ref"
    ∷ rendered "api-url"
    ∷ rendered "token-secret"
    ∷ rendered "password-secret"
    ∷ rendered "ca-configmap"
    ∷ rendered "tls-secret"
    ∷ rendered "ssh-secret"
    ∷ known "volume-medium"
    ∷ known "native-sidecar"
    ∷ known "agent-cpu-request"
    ∷ known "agent-memory-request"
    ∷ known "agent-cpu-limit"
    ∷ known "agent-memory-limit"
    ∷ rendered "file-mode"
    ∷ known "agent-run-as-user"
    ∷ known "agent-run-as-group"
    ∷ known "agent-ephemeral-request"
    ∷ known "agent-ephemeral-limit"
    ∷ known "env-inject"
    ∷ known "env-restart"
    ∷ rendered "metrics-port"
    ∷ known "readiness"
    ∷ known "inject-containers"
    ∷ known "revoke-grace"
    ∷ known "init-first"
    ∷ known "notify-http"
    ∷ known "on-drift"
    ∷ rendered "tls-reload"
    ∷ known "history"
    ∷ known "require-ack"
    ∷ known "events"
    ∷ known "class"
    ∷ known "canary-configmap"
    ∷ known "agent-run-as-same-user"
    ∷ known "extra-secret"
    ∷ rendered "tls-server-name"
    ∷ rendered "tls-skip-verify"
    ∷ known "schema-configmap"
    ∷ known "startup-policy"
    ∷ known "on-delete"
    ∷ known "max-document-bytes"
    ∷ known "max-staleness"
    ∷ known "meta"
    ∷ known "dynamic"
    ∷ known "revoke-on-shutdown"
    ∷ known "aws-secret"
    ∷ known "agent-env"
    ∷ rendered "template"
    ∷ rendered "template-configmap"
    ∷ []

unfoldable pub is_known : String → Bool
unfolding registry
is_known name = any (λ spec. spec.name == name) registry

unfoldable pub is_per_render : String → Bool
unfolding registry
is_per_render name = any (λ spec. spec.name == name && spec.per_render) registry

pub record Warning : Type 0 where
  pub key : String
  pub since : String
  pub instead : Option String

-- the name without the suffix of a named render
abbrev pub base_of : String → String
base_of name = elim (split_once b'.' name) [ none ↦ name | some (base, suffix) ↦ base ]

unfoldable pub retired : List AnnotationSpec → String → Option AnnotationSpec
retired table base = find (λ spec. spec.name == base && is_some spec.deprecated_since) table

abbrev since_or : Option String → String
since_or none = "a previous release"
since_or (some since) = since

-- the warning for a key of the contract, by its name, if its base is retired
unfoldable pub warning_named : List AnnotationSpec → String → Option Warning
warning_named table name = elim (retired table (base_of name)) [
  | none ↦ none
  | some spec ↦ some (record {
    key = prefix ⊕ name;
    since = since_or spec.deprecated_since;
    instead = spec.replacement;
  })
]

unfoldable pub warning_for : List AnnotationSpec → String → Option Warning
unfolding warning_named strip_prefix
warning_for table key = elim (strip_prefix prefix key) [
  | none ↦ none
  | some name ↦ warning_named table name
]

unfoldable pub deprecation_warnings : List AnnotationSpec → List String → List Warning
unfolding warning_for
deprecation_warnings table [] = []
deprecation_warnings table (key ∷ keys) =
    let rest = deprecation_warnings table keys in
    elim (warning_for table key) [ none ↦ rest | some warning ↦ warning ∷ rest ]

unfoldable pub deprecations : List String → List Warning
unfolding registry deprecation_warnings
deprecations keys = deprecation_warnings registry keys
