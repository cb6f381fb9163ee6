-- ===== src/Webhook/Pod/Tests.antt =====
-- dynamic-config-webhook/src/annotations.rs: a pod with a named render, in an installation that pins its
-- store and its address.
use dynamic_config_k8s.Webhook.Knobs.{both}
use dynamic_config_k8s.Json.{array, next, no_values}
use dynamic_config_k8s.Webhook.Pod.Fitting.{FitsPod, of_pod_with-FitsPod}
use dynamic_config_k8s.Agent.Arguments.Flags
use dynamic_config_k8s.Prelude.Texts.{parse_unsigned, strip_prefix}
use dynamic_config_k8s.Webhook.Quantities.{octal_mode, to_octal, without_0o}
use dynamic_config_k8s.Webhook.Pod.Named.{file_mode_of, mode_argument}
use dynamic_config_k8s.Webhook.Pod.Handover.{file_mode_of-taken}
use dynamic_config_k8s.Webhook.Userinfo.{without_userinfo}
use dynamic_config_k8s.Prelude.{
  ℕ, String, ◌≡◌, refl, true, false, none, some, [], ◌∷◌, nat_eq, All, ok, err,
}
use dynamic_config_k8s.Json.{Value, Fields, object, no_fields, field, text, pointer}
use dynamic_config_k8s.Webhook.Scopes.{no_names, is_source}
use dynamic_config_k8s.Webhook.Knobs.{no_defaults, sidecar}
use dynamic_config_k8s.Webhook.Installation.{Installation, supplied, supplied_source, store_strings}
use dynamic_config_k8s.Webhook.Pod.{of_pod_with, annotations_of, lookup}
use dynamic_config_k8s.Webhook.Pod.Shape.{Request, pinned_text}
use dynamic_config_k8s.Webhook.Pod.Pinned.{same_source, keeps, Kept, of_pod_with-keeps}
use dynamic_config_k8s.Webhook.Pod.Sidecar.{same_mode}
use dynamic_config_k8s.Webhook.Pod.Guarded.{IsGuarded}
use dynamic_config_k8s.Webhook.Pod.Admitted.{of_pod_with-IsGuarded}

abbrev pinning : Installation
pinning = record {
  fleet = record no_defaults { endpoint = some "https://v"; rules = ("endpoint", false) ∷ [] };
  per_store = [];
  source = some "vault";
  source_rule = some false;
  overridable = true;
  agent_env = [];
  agent_env_allow = no_names;
  source_allow = no_names;
  source_deny = no_names;
  allow_tls_skip_verify = true;
  allow_events = false;
  agent_image_allow = [];
}

abbrev further : Fields
further = field "dynamic-config.rs/source.flags" (text "consul") (
    field "dynamic-config.rs/endpoint.flags" (text "https://v") (
      field "dynamic-config.rs/key.flags" (text "f") (
        field "dynamic-config.rs/path.flags" (text "/c/f.json")
          (field "dynamic-config.rs/tls-skip-verify.flags" (text "true") no_fields))))

abbrev asks_with : String → Fields → Fields
asks_with endpoint more = field "dynamic-config.rs/inject" (text "true") (
    field "dynamic-config.rs/endpoint" (text endpoint) (
      field "dynamic-config.rs/key" (text "k")
        (field "dynamic-config.rs/path" (text "/c/a.json") more)))

abbrev pod_of : Fields → Value
pod_of annotations =
    object
      (field "metadata" (object (field "annotations" (object annotations) no_fields)) no_fields)

abbrev pod : Value
pod = pod_of (asks_with "https://v" further)

abbrev asked : Request
asked = record {
  source = "vault";
  key = "k";
  path = "/c/a.json";
  mode = sidecar;
  watch_seconds = 15;
  reach = record {
    endpoint = some "https://v";
    secret_env = [];
    arguments = [];
    ca = none;
    ssh = none;
  };
  tls_server_name = none;
  tls_skip_verify = false;
  container = record {
    volume_memory = true;
    native_sidecar = false;
    resources = record {
      ephemeral_request = none;
      ephemeral_limit = none;
      cpu_request = "10m";
      memory_request = "32Mi";
      cpu_limit = none;
      memory_limit = "64Mi";
    };
    file_mode = none;
    run_as_user = none;
    run_as_group = none;
  };
  behaviour = record {
    env_inject = none;
    env_restart = false;
    aws_secret = none;
    metrics_port = none;
    meta = false;
    dynamic = false;
    revoke_on_shutdown = true;
    revoke_grace = none;
    init_first = false;
    extra_secret = none;
    notify_http = none;
    tls_reload = true;
    history = none;
    canary = none;
    timeout = none;
    agent_image = none;
    events = false;
    on_drift = none;
    readiness = true;
    require_ack = false;
  };
  agent_env = [];
  fleet_env = [];
  inject_containers = none;
  tls = none;
  template = none;
  schema = none;
  extra =
      record {
        name = "flags";
        metrics_port = none;
        source = "consul";
        key = "f";
        path = "/c/f.json";
        watch_seconds = 15;
        reach = record {
          endpoint = some "https://v";
          secret_env = [];
          arguments = ("--tls-skip-verify", "") ∷ [];
          ca = none;
          ssh = none;
        };
        tls = none;
        template = none;
      }
      ∷ [];
  also = [];
}

is_annotated : annotations_of pod ≡ some (asks_with "https://v" further)
unfolding pointer
is_annotated = refl

is_asked : of_pod_with pinning pod ≡ ok (some asked)
unfolding of_pod_with is_source
is_asked = refl

-- another address than the pinned one is refused, and so is a half of the pair
sidestepped :
    of_pod_with pinning (pod_of (asks_with "https://w" no_fields))
    ≡ err (pinned_text "endpoint" "https://w" "https://v")
unfolding of_pod_with without_userinfo
sidestepped = refl

of_pod_with-keeps_example :
    (same_source (supplied_source pinning) (some "vault") ≡ true)
    × (keeps same_mode (supplied pinning (some "vault") "mode" (λ k. k.mode)) sidecar ≡ true)
    × (keeps nat_eq (supplied pinning (some "vault") "watch-seconds" (λ k. k.watch_seconds)) 15
        ≡ true)
    × All (Kept (lookup (asks_with "https://v" further))) (store_strings pinning (some "vault"))
of_pod_with-keeps_example =
    of_pod_with-keeps pinning pod (asks_with "https://v" further) asked is_annotated is_asked

of_pod_with-IsGuarded_example :
    IsGuarded true asked.reach × All (λ e. IsGuarded true e.reach) asked.extra
of_pod_with-IsGuarded_example = of_pod_with-IsGuarded pinning pod asked is_asked

-- a pod whose first container is wrapped, and restarted
abbrev wishes : Fields
wishes = asks_with "https://v" (
    field "dynamic-config.rs/mode" (text "both") (
      field "dynamic-config.rs/env-inject" (text "app") (
        field "dynamic-config.rs/env-restart" (text "true") (
          field "dynamic-config.rs/inject-containers" (text "app, log")
            (field "dynamic-config.rs/history" (text "3") no_fields)))))

abbrev container_of : String → Fields → Value
container_of name more = object (field "name" (text name) more)

abbrev wrapping : Value
wrapping = object (
    field "metadata" (object (field "annotations" (object wishes) no_fields)) (
      field "spec"
        (object (
          field "containers"
            (array (
              next
                (container_of "app"
                  (field "command" (array (next (text "run") no_values)) no_fields))
                (next (container_of "log" no_fields) no_values)))
            no_fields))
        no_fields))

abbrev wrapped_request : Request
wrapped_request = record asked {
  mode = both;
  behaviour = record asked.behaviour {
    env_inject = some "app";
    env_restart = true;
    history = some 3;
  };
  inject_containers = some ("app" ∷ "log" ∷ []);
  extra = [];
}

is_wrapped : of_pod_with pinning wrapping ≡ ok (some wrapped_request)
unfolding of_pod_with is_source parse_unsigned
is_wrapped = refl

of_pod_with-FitsPod_example : FitsPod wrapping wrapped_request
of_pod_with-FitsPod_example = of_pod_with-FitsPod pinning wrapping wrapped_request is_wrapped

a_mode : file_mode_of pinning (some "vault") "file-mode" (some "0o0640") ≡ ok (some "640")
unfolding file_mode_of octal_mode parse_unsigned to_octal strip_prefix
a_mode = refl

file_mode_of-taken_example :
    (n : ℕ) × (parse_unsigned 8 32 (without_0o "0o0640") ≡ some n)
    × All
        (λ argument. (argument.0 ≡ "--file-mode") × (Flags.file_mode_of argument.1 ≡ ok n))
        (mode_argument "640")
file_mode_of-taken_example =
    file_mode_of-taken pinning (some "vault") "file-mode" "0o0640" "640" a_mode
