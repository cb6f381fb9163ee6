-- ===== src/Webhook/Knobs/Fields.antt =====
-- dynamic-config-webhook/src/annotations.rs: `KnobDefaults`, one tier of the installation's defaults.
use dynamic_config_k8s.Prelude.{ℕ, String, Bool, Option, none, some, List, [], if◌then◌else◌, ◌==◌}

pub data Mode : Type 0 where
  init sidecar both : Mode

pub record KnobDefaults : Type 0 where
  pub cpu_request : Option String
  pub memory_request : Option String
  pub cpu_limit : Option String
  pub memory_limit : Option String
  pub file_mode : Option String
  pub watch_seconds : Option ℕ
  pub mode : Option Mode
  pub volume_memory : Option Bool
  pub native_sidecar : Option Bool
  pub run_as_user : Option ℕ
  pub run_as_group : Option ℕ
  pub metrics_port : Option ℕ
  pub path : Option String
  pub endpoint : Option String
  pub endpoint_secret : Option String
  pub key : Option String
  pub token_secret : Option String
  pub password_secret : Option String
  pub ca_configmap : Option String
  pub tls_secret : Option String
  pub ssh_secret : Option String
  pub aws_secret : Option String
  pub section : Option String
  pub auth : Option String
  pub auth_mount : Option String
  pub auth_role : Option String
  pub auth_username : Option String
  pub auth_token_path : Option String
  pub namespace : Option String
  pub reference : Option String
  pub api_url : Option String
  pub template : Option String
  pub template_configmap : Option String
  pub overridable : Option Bool
  pub rules : List (String × Bool)

abbrev pub no_defaults : KnobDefaults
no_defaults = record {
  cpu_request = none;
  memory_request = none;
  cpu_limit = none;
  memory_limit = none;
  file_mode = none;
  watch_seconds = none;
  mode = none;
  volume_memory = none;
  native_sidecar = none;
  run_as_user = none;
  run_as_group = none;
  metrics_port = none;
  path = none;
  endpoint = none;
  endpoint_secret = none;
  key = none;
  token_secret = none;
  password_secret = none;
  ca_configmap = none;
  tls_secret = none;
  ssh_secret = none;
  aws_secret = none;
  section = none;
  auth = none;
  auth_mount = none;
  auth_role = none;
  auth_username = none;
  auth_token_path = none;
  namespace = none;
  reference = none;
  api_url = none;
  template = none;
  template_configmap = none;
  overridable = none;
  rules = [];
}

-- the store-shaped keys: the patterns of one arm of `set`
pub data TextKnob : Type 0 where
  endpoint endpoint_secret store_key token_secret password_secret ca_configmap tls_secret ssh_secret
        aws_secret section auth auth_mount auth_role auth_username auth_token_path store_namespace
        reference api_url template template_configmap :
      TextKnob

unfoldable pub knob_name : TextKnob → String
knob_name TextKnob.endpoint = "endpoint"
knob_name TextKnob.endpoint_secret = "endpoint-secret"
knob_name TextKnob.store_key = "key"
knob_name TextKnob.token_secret = "token-secret"
knob_name TextKnob.password_secret = "password-secret"
knob_name TextKnob.ca_configmap = "ca-configmap"
knob_name TextKnob.tls_secret = "tls-secret"
knob_name TextKnob.ssh_secret = "ssh-secret"
knob_name TextKnob.aws_secret = "aws-secret"
knob_name TextKnob.section = "section"
knob_name TextKnob.auth = "auth"
knob_name TextKnob.auth_mount = "auth-mount"
knob_name TextKnob.auth_role = "auth-role"
knob_name TextKnob.auth_username = "auth-username"
knob_name TextKnob.auth_token_path = "auth-token-path"
knob_name TextKnob.store_namespace = "namespace"
knob_name TextKnob.reference = "ref"
knob_name TextKnob.api_url = "api-url"
knob_name TextKnob.template = "template"
knob_name TextKnob.template_configmap = "template-configmap"

unfoldable pub text_knob_of : String → Option TextKnob
text_knob_of key =
    if key == "endpoint"
    then some TextKnob.endpoint
    else if key == "endpoint-secret"
    then some TextKnob.endpoint_secret
    else if key == "key"
    then some TextKnob.store_key
    else if key == "token-secret"
    then some TextKnob.token_secret
    else if key == "password-secret"
    then some TextKnob.password_secret
    else if key == "ca-configmap"
    then some TextKnob.ca_configmap
    else if key == "tls-secret"
    then some TextKnob.tls_secret
    else if key == "ssh-secret"
    then some TextKnob.ssh_secret
    else if key == "aws-secret"
    then some TextKnob.aws_secret
    else if key == "section"
    then some TextKnob.section
    else if key == "auth"
    then some TextKnob.auth
    else if key == "auth-mount"
    then some TextKnob.auth_mount
    else if key == "auth-role"
    then some TextKnob.auth_role
    else if key == "auth-username"
    then some TextKnob.auth_username
    else if key == "auth-token-path"
    then some TextKnob.auth_token_path
    else if key == "namespace"
    then some TextKnob.store_namespace
    else if key == "ref"
    then some TextKnob.reference
    else if key == "api-url"
    then some TextKnob.api_url
    else if key == "template"
    then some TextKnob.template
    else if key == "template-configmap"
    then some TextKnob.template_configmap
    else none

-- `k.endpoint.clone()` and its kin, and the slot that `set` writes
unfoldable pub text_of : TextKnob → KnobDefaults → Option String
text_of TextKnob.endpoint k = k.endpoint
text_of TextKnob.endpoint_secret k = k.endpoint_secret
text_of TextKnob.store_key k = k.key
text_of TextKnob.token_secret k = k.token_secret
text_of TextKnob.password_secret k = k.password_secret
text_of TextKnob.ca_configmap k = k.ca_configmap
text_of TextKnob.tls_secret k = k.tls_secret
text_of TextKnob.ssh_secret k = k.ssh_secret
text_of TextKnob.aws_secret k = k.aws_secret
text_of TextKnob.section k = k.section
text_of TextKnob.auth k = k.auth
text_of TextKnob.auth_mount k = k.auth_mount
text_of TextKnob.auth_role k = k.auth_role
text_of TextKnob.auth_username k = k.auth_username
text_of TextKnob.auth_token_path k = k.auth_token_path
text_of TextKnob.store_namespace k = k.namespace
text_of TextKnob.reference k = k.reference
text_of TextKnob.api_url k = k.api_url
text_of TextKnob.template k = k.template
text_of TextKnob.template_configmap k = k.template_configmap

unfoldable pub with_text : TextKnob → String → KnobDefaults → KnobDefaults
with_text TextKnob.endpoint v k = record k { endpoint = some v }
with_text TextKnob.endpoint_secret v k = record k { endpoint_secret = some v }
with_text TextKnob.store_key v k = record k { key = some v }
with_text TextKnob.token_secret v k = record k { token_secret = some v }
with_text TextKnob.password_secret v k = record k { password_secret = some v }
with_text TextKnob.ca_configmap v k = record k { ca_configmap = some v }
with_text TextKnob.tls_secret v k = record k { tls_secret = some v }
with_text TextKnob.ssh_secret v k = record k { ssh_secret = some v }
with_text TextKnob.aws_secret v k = record k { aws_secret = some v }
with_text TextKnob.section v k = record k { section = some v }
with_text TextKnob.auth v k = record k { auth = some v }
with_text TextKnob.auth_mount v k = record k { auth_mount = some v }
with_text TextKnob.auth_role v k = record k { auth_role = some v }
with_text TextKnob.auth_username v k = record k { auth_username = some v }
with_text TextKnob.auth_token_path v k = record k { auth_token_path = some v }
with_text TextKnob.store_namespace v k = record k { namespace = some v }
with_text TextKnob.reference v k = record k { reference = some v }
with_text TextKnob.api_url v k = record k { api_url = some v }
with_text TextKnob.template v k = record k { template = some v }
with_text TextKnob.template_configmap v k = record k { template_configmap = some v }
