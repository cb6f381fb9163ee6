-- ===== src/Agent/Arguments/Fields.antt =====
-- dynamic-config-agent/src/spec.rs: what a command line asks for, its refusals, and the fields that are
-- read before any flag. A duration is its whole seconds; a path and a credential are their text.
use dynamic_config_k8s.Prelude.{ℕ, String, Bool, true, false, Option, none, List, []}
use dynamic_config_k8s.Agent.Files.{FilePath}
use dynamic_config_k8s.Agent.Notify.{Endpoint, Refused as NotifyRefused}
use dynamic_config_k8s.Agent.Sidecar.{StartupPolicy, OnDelete, OnDrift, allow_cached, retain, warn}

pub data Refused : Type 0 where
  needs_value unknown_flag not_whole is_zero not_octal past_0777 owner_cannot_read :
      String → Refused
  unknown_value required unknown_source only_for auth_needs auth_unknown : String → Refused
  history_past_most unpaired_tls two_templates no_format nats_without_bucket redis_with_auth :
      Refused
  also_unpaired also_unknown also_without_out also_no_format : Refused
  notify : NotifyRefused → Refused

-- one further file of the document
pub record Rendering : Type 0 where
  pub out : FilePath
  pub section : Option String
  pub file_mode : Option ℕ

pub record Settings : Type 0 where
  pub watch : Option ℕ
  pub file_mode : Option ℕ
  pub metrics_addr : Option String
  pub startup_policy : StartupPolicy
  pub max_document_bytes : Option ℕ
  pub on_delete : OnDelete
  pub schema : Option FilePath
  pub meta : Bool
  pub max_staleness : Option ℕ
  pub dynamic : Bool
  pub revoke_on_shutdown : Bool
  pub revoke_grace : ℕ
  pub notify_http : Option Endpoint
  pub on_drift : OnDrift
  pub tls_reload : Bool
  pub history : ℕ
  pub require_ack : Bool
  pub events : Bool
  pub canary : Option FilePath
  pub timeout : Option ℕ
  pub token : Option String
  pub section : Option String
  pub auth : Option String
  pub auth_mount : Option String
  pub auth_role : Option String
  pub auth_username : Option String
  pub auth_token_path : Option String
  pub namespace : Option String
  pub reference : Option String
  pub ssh_key : Option FilePath
  pub api_url : Option String
  pub template : Option FilePath
  pub template_inline : Option String
  pub ca : Option FilePath
  pub tls_cert : Option FilePath
  pub tls_key : Option FilePath
  pub tls_server_name : Option String
  pub tls_skip_verify : Bool
  pub password : Option String

pub record Spec : Type 0 where
  pub source : String
  pub endpoint : String
  pub key : String
  pub out : FilePath
  pub also : List Rendering
  pub settings : Settings

-- the variables of the loop, while the flags are read
pub record Draft : Type 0 where
  pub source : Option String
  pub endpoint : Option String
  pub key : Option String
  pub out : Option FilePath
  pub also : List String
  pub settings : Settings

-- `std::env::var(name).ok()`
abbrev pub Environment : Type 0
Environment = String → Option String

-- `REVOKE_DEADLINE` of sidecar.rs and `MOST_HISTORY`
abbrev pub revoke_deadline : ℕ
revoke_deadline = 5

abbrev pub most_history : ℕ
most_history = 10

abbrev pub initial : Environment → Draft
initial env = record {
  source = none;
  endpoint = env "DYNAMIC_CONFIG_AGENT_ENDPOINT";
  key = none;
  out = none;
  also = [];
  settings = record {
    watch = none;
    file_mode = none;
    metrics_addr = none;
    startup_policy = allow_cached;
    max_document_bytes = none;
    on_delete = retain;
    schema = none;
    meta = false;
    max_staleness = none;
    dynamic = false;
    revoke_on_shutdown = true;
    revoke_grace = revoke_deadline;
    notify_http = none;
    on_drift = warn;
    tls_reload = true;
    history = 0;
    require_ack = false;
    events = false;
    canary = none;
    timeout = none;
    token = env "DYNAMIC_CONFIG_AGENT_TOKEN";
    section = none;
    auth = none;
    auth_mount = none;
    auth_role = none;
    auth_username = none;
    auth_token_path = none;
    namespace = none;
    reference = none;
    ssh_key = none;
    api_url = none;
    template = none;
    template_inline = none;
    ca = none;
    tls_cert = none;
    tls_key = none;
    tls_server_name = none;
    tls_skip_verify = false;
    password = env "DYNAMIC_CONFIG_AGENT_PASSWORD";
  };
}
