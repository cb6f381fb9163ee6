-- ===== src/Webhook/Pod/Containers.antt =====
-- dynamic-config-webhook/src/annotations.rs, `of_pod_with`: the containers that a pod has and that it names,
-- and the agent's variables.
use dynamic_config_k8s.Prelude.{
  String, Bool, true, false, not, ◌&&◌, ◌||◌, Option, none, some, List, [], ◌∷◌, map, if◌then◌else◌,
  ◌==◌, is_empty, any, filter, Result, ok, ◌>>=◌, ◌>>◌, ensure, ok_or, map_err,
}
use dynamic_config_k8s.Prelude.Texts.{is_some, is_none, empty_text, split, trim}
use dynamic_config_k8s.Json.{Value, Values, next, no_values, pointer, as_array, as_text}
use dynamic_config_k8s.Webhook.EnvEntries.{Entry, env_entries}
use dynamic_config_k8s.Webhook.Installation.{Installation}
use dynamic_config_k8s.Webhook.Pod.Shape.{
  Refused, no_such_container, no_command, has_probe, empty_value, at_odds, value_of,
}
use dynamic_config_k8s.Webhook.Pod.Reading.{Checked, fine}

abbrev none_values : Option Values → Values
none_values none = no_values
none_values (some held) = held

abbrev container_list : List String → Value → Values
container_list path pod = none_values (as_array (pointer path pod))

-- `container["name"].as_str() == Some(name)`
abbrev pub is_named : String → Value → Bool
is_named name v = elim (as_text (pointer ("name" ∷ []) v)) [
  | none ↦ false
  | some held ↦ held == name
]

unfoldable pub find_container : String → Values → Option Value
unfolding pointer
find_container name no_values = none
find_container name (next first more) =
    let later = find_container name more in if is_named name first then some first else later

abbrev pub has_container : String → Values → Bool
has_container name held = is_some (find_container name held)

abbrev pub pod_containers : Value → Values
pod_containers pod = container_list ("spec" ∷ "containers" ∷ []) pod

abbrev injected_in : Values → Bool
injected_in held =
    has_container "dynamic-config-agent" held || has_container "dynamic-config-init" held

-- the container or the init container that an earlier pass has put in
unfoldable pub already_injected : Value → Bool
unfolding pointer find_container
already_injected pod =
    injected_in (pod_containers pod)
    || injected_in (container_list ("spec" ∷ "initContainers" ∷ []) pod)

abbrev pub pieces : String → List String
pieces text = filter (λ name. not (empty_text name)) (map trim (split b',' text))

unfoldable pub all_present : Values → List String → Checked
unfolding find_container
all_present held [] = fine
all_present held (name ∷ more) = do
  ensure (has_container name held) (no_such_container name)
  all_present held more

-- the containers that see the document; absent is all of them
unfoldable pub inject_containers : Value → Option String → Result Refused (Option (List String))
unfolding split trim empty_text pointer all_present
inject_containers pod none = ok none
inject_containers pod (some text) = do
  ensure (not (is_empty (pieces text))) (empty_value "inject-containers")
  all_present (pod_containers pod) (pieces text)
  ok (some (pieces text))

abbrev pub lists : String → Option (List String) → Bool
lists name none = true
lists name (some names) = any (λ held. held == name) names

abbrev pub has_command : Value → Bool
has_command v = elim (as_array (pointer ("command" ∷ []) v)) [
  | none ↦ false
  | some no_values ↦ false
  | some (next _ _) ↦ true
]

-- the container whose command is wrapped
unfoldable pub wrapped : Value → Bool → Option (List String) → Option String → Checked
unfolding find_container pointer
wrapped pod restart listed none = fine
wrapped pod restart listed (some name) = do
  ensure (lists name listed) (at_odds "env-inject" "inject-containers")
  held ← ok_or (find_container name (pod_containers pod)) (no_such_container name)
  ensure (has_command held) (no_command name)
  ensure (not (restart && is_some (pointer ("livenessProbe" ∷ []) held))) (has_probe name)

abbrev is_aws : String → Bool
is_aws name = name == "AWS_ACCESS_KEY_ID" || name == "AWS_SECRET_ACCESS_KEY"

abbrev pub sets : String → List Entry → Bool
sets name entries = any (λ entry. entry.0 == name) entries

unfoldable pub agent_env : Option String → Option String → Result Refused (List Entry)
unfolding env_entries
agent_env aws_secret none = ok []
agent_env aws_secret (some text) = do
  entries ← map_err value_of (env_entries "agent-env" text)
  ensure (is_none aws_secret || not (any (λ entry. is_aws entry.0) entries))
      (at_odds "agent-env" "aws-secret")
  ok entries

-- the installation's own variables, under those of the pod
unfoldable pub fleet_env : Installation → Option String → List Entry → List Entry
fleet_env i aws_secret own =
    filter (λ entry. not (sets entry.0 own) && (is_none aws_secret || not (is_aws entry.0)))
      i.agent_env
