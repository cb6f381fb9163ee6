-- ===== src/Webhook/Pod/Shape.antt =====
-- dynamic-config-webhook/src/annotations.rs: what a pod asks for (`Request`), and why it is refused. A
-- refusal keeps the keys that its sentence names; the English around them is not modelled.
use dynamic_config_k8s.Prelude.{ℕ, String, Bool, Option, List}
use dynamic_config_k8s.Webhook.Refusals.{Refusal}
use dynamic_config_k8s.Webhook.EnvEntries.{Entry}
use dynamic_config_k8s.Webhook.Knobs.{Mode}

pub data Refused : Type 0 where
  mark_without_container foreign_mark not_on_offer not_in_contract empty_value :
      (key : String) → Refused
  bad_value : (key value : String) → Refused
  pinned_text : (key pod tier : String) → Refused
  pinned_value required not_absolute elsewhere : (key : String) → Refused
  both_set needs at_odds pinned_half : (key other : String) → Refused
  no_such_container no_command has_probe : (name : String) → Refused
  over_limit : (key : String) → Refused
  no_user_to_inherit inherits_root not_a_user : Refused
  value_of : Refusal → Refused

pub record SecretRef : Type 0 where
  pub name : String
  pub key : String

pub record ObjectRef : Type 0 where
  pub name : String
  pub key : String

pub record Resources : Type 0 where
  pub ephemeral_request : Option String
  pub ephemeral_limit : Option String
  pub cpu_request : String
  pub memory_request : String
  pub cpu_limit : Option String
  pub memory_limit : String

pub record Rendering : Type 0 where
  pub name : String
  pub path : String
  pub section : Option String

-- where a store is and how to reach it: the part that the main render and a named one share
pub record Reach : Type 0 where
  pub endpoint : Option String
  pub secret_env : List (String × SecretRef)
  pub arguments : List (String × String)
  pub ca : Option ObjectRef
  pub ssh : Option ObjectRef

pub record ExtraRender : Type 0 where
  pub name : String
  pub metrics_port : Option ℕ
  pub source : String
  pub key : String
  pub path : String
  pub watch_seconds : ℕ
  pub reach : Reach
  pub tls : Option String
  pub template : Option ObjectRef

-- the agent's container, as the pod asks for it
pub record Container : Type 0 where
  pub volume_memory : Bool
  pub native_sidecar : Bool
  pub resources : Resources
  pub file_mode : Option String
  pub run_as_user : Option ℕ
  pub run_as_group : Option ℕ

-- what the agent does around a render
pub record Behaviour : Type 0 where
  pub env_inject : Option String
  pub env_restart : Bool
  pub aws_secret : Option String
  pub metrics_port : Option ℕ
  pub meta : Bool
  pub dynamic : Bool
  pub revoke_on_shutdown : Bool
  pub revoke_grace : Option ℕ
  pub init_first : Bool
  pub extra_secret : Option String
  pub notify_http : Option String
  pub tls_reload : Bool
  pub history : Option ℕ
  pub canary : Option ObjectRef
  pub timeout : Option ℕ
  pub agent_image : Option String
  pub events : Bool
  pub on_drift : Option String
  pub readiness : Bool
  pub require_ack : Bool

pub record Request : Type 0 where
  pub source : String
  pub key : String
  pub path : String
  pub mode : Mode
  pub watch_seconds : ℕ
  pub reach : Reach
  pub tls_server_name : Option String
  pub tls_skip_verify : Bool
  pub container : Container
  pub behaviour : Behaviour
  pub agent_env : List Entry
  pub fleet_env : List Entry
  pub inject_containers : Option (List String)
  pub tls : Option String
  pub template : Option ObjectRef
  pub schema : Option ObjectRef
  pub extra : List ExtraRender
  pub also : List Rendering
