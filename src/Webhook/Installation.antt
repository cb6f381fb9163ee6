-- ===== src/Webhook/Installation.antt =====
-- dynamic-config-webhook/src/annotations.rs: `Installation`, read once from the environment.
-- `from_lookup` takes the lookup of a variable as a function, as the source does.
mod Tiers
pub mod Pins
pub mod Stores
mod Tests
pub use Tiers.*
unfoldable pub use Tiers.{
  rule_for, tier, store, supplied, knob, picks, collect, store_strings, supplied_source,
}
use dynamic_config_k8s.Prelude.{
  ◌>>=◌, ◌>>◌, ◌+◌, ◌-◌, ◌*◌, String, Bool, true, false, not, ◌||◌, Option, none, some, List, [],
  ◌∷◌, ◌++◌, if◌then◌else◌, ◌==◌, is_empty, any, Result, ok, err, ensure, ok_or, map_err,
}
use dynamic_config_k8s.Prelude.Texts.{◌⊕◌, empty_text, starts_with, trim, split_once}
use dynamic_config_k8s.Webhook.Refusals.{Refusal}
use dynamic_config_k8s.Webhook.Scopes.{
  ScopedNames, no_names, pieces, is_source, env_names, source_names, allows,
}
use dynamic_config_k8s.Webhook.EnvEntries.{Entry, env_entries}
use dynamic_config_k8s.Webhook.Knobs.{marked, KnobDefaults, no_defaults, set}

abbrev pub Environment : Type 0
Environment = String → Option String

-- `lookup(name).filter(|v| !v.is_empty())`
unfoldable pub var : Environment → String → Option String
unfolding empty_text
var lookup name = elim (lookup name) [
  | none ↦ none
  | some value ↦ if empty_text value then none else some value
]

abbrev pub fleet_knobs : List (String × String)
fleet_knobs =
    ("DYNAMIC_CONFIG_AGENT_CPU_REQUEST", "agent-cpu-request")
    ∷ ("DYNAMIC_CONFIG_AGENT_MEMORY_REQUEST", "agent-memory-request")
    ∷ ("DYNAMIC_CONFIG_AGENT_CPU_LIMIT", "agent-cpu-limit")
    ∷ ("DYNAMIC_CONFIG_AGENT_MEMORY_LIMIT", "agent-memory-limit")
    ∷ ("DYNAMIC_CONFIG_AGENT_FILE_MODE", "file-mode")
    ∷ ("DYNAMIC_CONFIG_AGENT_WATCH_SECONDS", "watch-seconds")
    ∷ ("DYNAMIC_CONFIG_AGENT_MODE", "mode")
    ∷ ("DYNAMIC_CONFIG_AGENT_VOLUME_MEDIUM", "volume-medium")
    ∷ ("DYNAMIC_CONFIG_AGENT_NATIVE_SIDECAR", "native-sidecar")
    ∷ ("DYNAMIC_CONFIG_AGENT_RUN_AS_USER", "agent-run-as-user")
    ∷ ("DYNAMIC_CONFIG_AGENT_RUN_AS_GROUP", "agent-run-as-group")
    ∷ ("DYNAMIC_CONFIG_AGENT_METRICS_PORT", "metrics-port")
    ∷ ("DYNAMIC_CONFIG_AGENT_PATH", "path")
    ∷ []

-- the loop over the fleet's variables
unfoldable pub set_fleet :
    Environment → KnobDefaults → List (String × String) → Result Refusal KnobDefaults
set_fleet lookup knobs [] = ok knobs
set_fleet lookup knobs ((variable, name) ∷ more) = elim (var lookup variable) [
  | none ↦ set_fleet lookup knobs more
  | some text ↦ do knobs' ← set knobs variable name text; set_fleet lookup knobs' more
]

abbrev pub store_defaults : String
store_defaults = "DYNAMIC_CONFIG_AGENT_STORE_DEFAULTS"

-- the loop over the pairs of one group
unfoldable pub set_pairs : String → KnobDefaults → List String → Result Refusal KnobDefaults
set_pairs name defaults [] = ok defaults
set_pairs name defaults (pair ∷ more) = do
  halves ← ok_or (split_once b'=' pair) (Refusal.not_key_value store_defaults pair name)
  defaults' ← set defaults (store_defaults ⊕ " (" ⊕ name ⊕ ")") (trim halves.0) (trim halves.1)
  set_pairs name defaults' more

abbrev pub Stores : Type 0
Stores = List (String × KnobDefaults)

abbrev pub has_store : Stores → String → Bool
has_store stores name = any (λ s. s.0 == name) stores

-- the loop over the groups, one for each store
unfoldable pub set_stores : Stores → List String → Result Refusal Stores
unfolding set_pairs
set_stores stores [] = ok stores
set_stores stores (group ∷ more) = do
  halves ← ok_or (split_once b':' group) (Refusal.no_store_head store_defaults group)
  let name = trim halves.0
  ensure (is_source name) (Refusal.unknown_store store_defaults name)
  ensure (not (has_store stores name)) (Refusal.store_twice store_defaults name)
  defaults ← set_pairs name no_defaults (pieces b',' halves.1)
  set_stores (stores ++ (name, defaults) ∷ []) more

-- a switch: the value where the variable is absent, and the two spellings
unfoldable pub flag : Environment → String → Bool → Result Refusal Bool
flag lookup variable absent = elim (var lookup variable) [
  | none ↦ ok absent
  | some value ↦
      if value == "true"
      then ok true
      else if value == "false"
      then ok false
      else err (Refusal.not_a_switch variable value)
]

-- the store that the fleet supplies, and its marker
unfoldable pub fleet_source : Environment → Result Refusal (Option String × Option Bool)
fleet_source lookup = elim (var lookup "DYNAMIC_CONFIG_AGENT_SOURCE") [
  | none ↦ ok (none, none)
  | some text ↦
      let (name, rule) = marked text in
      do
        ensure (is_source name) (Refusal.unknown_store "DYNAMIC_CONFIG_AGENT_SOURCE" name)
        ok (some name, rule)
]

unfoldable pub fleet_env : Environment → Result Refusal (List Entry)
fleet_env lookup = elim (var lookup "DYNAMIC_CONFIG_AGENT_ENV") [
  | none ↦ ok []
  | some text ↦ env_entries "DYNAMIC_CONFIG_AGENT_ENV" text
]

unfoldable pub scoped_gate :
    Environment → String → (String → Result Refusal ScopedNames) → Result Refusal ScopedNames
scoped_gate lookup variable parse = elim (var lookup variable) [
  | none ↦ ok no_names
  | some spec ↦ map_err (Refusal.within variable) (parse spec)
]

unfoldable pub text_or_empty : Option String → String
text_or_empty none = ""
text_or_empty (some text) = text

unfoldable pub image_prefixes : Environment → List String
image_prefixes lookup = elim (var lookup "DYNAMIC_CONFIG_WEBHOOK_AGENT_IMAGE_ALLOW") [
  | none ↦ []
  | some list ↦ pieces b',' list
]

unfoldable pub from_lookup : Environment → Result Refusal Installation
from_lookup lookup = do
  fleet ← set_fleet lookup no_defaults fleet_knobs
  per_store ← set_stores [] (pieces b';' (text_or_empty (var lookup store_defaults)))
  overridable ← flag lookup "DYNAMIC_CONFIG_AGENT_DEFAULTS_OVERRIDABLE" true
  source ← fleet_source lookup
  agent_env ← fleet_env lookup
  agent_env_allow ← scoped_gate lookup "DYNAMIC_CONFIG_WEBHOOK_AGENT_ENV_ALLOW" env_names
  source_allow ← scoped_gate lookup "DYNAMIC_CONFIG_WEBHOOK_SOURCE_ALLOW" source_names
  source_deny ← scoped_gate lookup "DYNAMIC_CONFIG_WEBHOOK_SOURCE_DENY" source_names
  allow_events ← flag lookup "DYNAMIC_CONFIG_WEBHOOK_ALLOW_EVENTS" false
  allow_tls_skip_verify ← flag lookup "DYNAMIC_CONFIG_WEBHOOK_ALLOW_TLS_SKIP_VERIFY" false
  ok (record {
    fleet = fleet;
    per_store = per_store;
    source = source.0;
    source_rule = source.1;
    overridable = overridable;
    agent_env = agent_env;
    agent_env_allow = agent_env_allow;
    source_allow = source_allow;
    source_deny = source_deny;
    allow_tls_skip_verify = allow_tls_skip_verify;
    allow_events = allow_events;
    agent_image_allow = image_prefixes lookup;
  })

unfoldable pub source_denied : Installation → String → String → Bool
source_denied i namespace source = allows i.source_deny namespace source

unfoldable pub source_allowed : Installation → String → String → Bool
source_allowed i namespace source =
    is_empty i.source_allow.groups || allows i.source_allow namespace source

unfoldable pub agent_image_allowed : Installation → String → Bool
agent_image_allowed i image = any (λ prefix. starts_with prefix image) i.agent_image_allow

unfoldable pub agent_env_allowed : Installation → String → String → Bool
agent_env_allowed i namespace name = allows i.agent_env_allow namespace name
