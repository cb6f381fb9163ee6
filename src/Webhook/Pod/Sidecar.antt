-- ===== src/Webhook/Pod/Sidecar.antt =====
-- dynamic-config-webhook/src/annotations.rs, `of_pod_with`: the mode, and the agent's container.
use dynamic_config_k8s.Prelude.{
  ℕ, ◌^◌, String, Bool, true, false, not, Option, none, some, List, [], ◌∷◌, ltb, leb, nat_eq,
  if◌then◌else◌, ◌==◌, Result, ok, err, ◌>>=◌, ◌>>◌, ensure, ok_or, map_err,
}
use dynamic_config_k8s.Prelude.Texts.{is_none, parse_unsigned}
use dynamic_config_k8s.Json.{Value, Values, number as json_number, next, pointer, as_array}
use dynamic_config_k8s.Webhook.Quantities.{nonroot_id, sane_quantity, bytes_of}
use dynamic_config_k8s.Webhook.Knobs.{KnobDefaults, Mode, init, sidecar, both}
use dynamic_config_k8s.Webhook.Installation.{Installation, supplied, knob, unwrap_or, or_else}
use dynamic_config_k8s.Webhook.Pod.Shape.{
  Refused, Resources, Container, bad_value, at_odds, no_user_to_inherit, inherits_root, not_a_user,
  value_of,
}
use dynamic_config_k8s.Webhook.Pod.Reading.{Lookup, Checked, fine, pin, switched}
use dynamic_config_k8s.Webhook.Pod.Named.{file_mode_of}

abbrev pub same_mode : Mode → Mode → Bool
same_mode init init = true
same_mode sidecar sidecar = true
same_mode both both = true
same_mode _ _ = false

abbrev pub same_bool : Bool → Bool → Bool
same_bool true b = b
same_bool false b = not b

abbrev pub same_text : String → String → Bool
same_text a b = a == b

unfoldable pub mode_named : String → Result Refused Mode
mode_named text =
    if text == "init"
    then ok init
    else if text == "sidecar"
    then ok sidecar
    else if text == "both"
    then ok both
    else err (bad_value "mode" text)

unfoldable pub medium_named : String → Result Refused Bool
medium_named text =
    if text == "memory"
    then ok true
    else if text == "disk"
    then ok false
    else err (bad_value "volume-medium" text)

module _ (i : Installation) (source : Option String) where
  -- a knob of some type: what the pod says, which a pin holds it to, or the installation's, or the built-in
  unfoldable pub chosen {ℓ} :
      {T : Type ℓ}
      → (T → T → Bool)
      → String
      → (KnobDefaults → Option T)
      → T
      → (String → Result Refused T)
      → Option String
      → Result Refused T
  unfolding supplied knob pin
  chosen same key pick built_in read none = ok (unwrap_or (knob i source pick) built_in)
  chosen same key pick built_in read (some text) = do
    value ← read text
    pin same key (supplied i source key pick) value
    ok value

  unfoldable pub mode_of : Option String → Result Refused Mode
  unfolding mode_named chosen
  mode_of found = chosen same_mode "mode" (λ k. k.mode) sidecar mode_named found

  unfoldable pub pinned_quantity : Lookup → String → (KnobDefaults → Option String) → Checked
  unfolding supplied pin
  pinned_quantity get key pick = elim (get key) [
    | none ↦ fine
    | some text ↦ pin same_text key (supplied i source key pick) text
  ]

  unfoldable pub quantity : Lookup → String → String → Result Refused String
  unfolding sane_quantity
  quantity get key fallback =
      let text = unwrap_or (get key) fallback in
      do ensure (sane_quantity text) (bad_value key text); ok text

  abbrev optional_quantity : Lookup → String → Option String → Result Refused (Option String)
  optional_quantity get key none = ok none
  optional_quantity get key (some fallback) = do text ← quantity get key fallback; ok (some text)

  abbrev at_most : Option ℕ → Option ℕ → Bool
  at_most (some request) (some limit) = leb request limit
  at_most _ _ = true

  abbrev bytes_in : Option String → Option ℕ
  bytes_in none = none
  bytes_in (some text) = bytes_of text

  unfoldable pub resources : Lookup → Result Refused Resources
  unfolding pinned_quantity quantity bytes_of knob
  resources get = do
    pinned_quantity get "agent-cpu-request" (λ k. k.cpu_request)
    pinned_quantity get "agent-memory-request" (λ k. k.memory_request)
    pinned_quantity get "agent-cpu-limit" (λ k. k.cpu_limit)
    pinned_quantity get "agent-memory-limit" (λ k. k.memory_limit)
    ephemeral_request ←
        optional_quantity get "agent-ephemeral-request" (get "agent-ephemeral-request")
    ephemeral_limit ← optional_quantity get "agent-ephemeral-limit" (get "agent-ephemeral-limit")
    ensure (at_most (bytes_in ephemeral_request) (bytes_in ephemeral_limit))
        (at_odds "agent-ephemeral-request" "agent-ephemeral-limit")
    cpu_request ←
        quantity get "agent-cpu-request" (unwrap_or (knob i source (λ k. k.cpu_request)) "10m")
    memory_request ←
        quantity get "agent-memory-request"
          (unwrap_or (knob i source (λ k. k.memory_request)) "32Mi")
    cpu_limit ←
        optional_quantity get "agent-cpu-limit"
          (or_else (get "agent-cpu-limit") (knob i source (λ k. k.cpu_limit)))
    memory_limit ←
        quantity get "agent-memory-limit" (unwrap_or (knob i source (λ k. k.memory_limit)) "64Mi")
    ok (record {
      ephemeral_request = ephemeral_request;
      ephemeral_limit = ephemeral_limit;
      cpu_request = cpu_request;
      memory_request = memory_request;
      cpu_limit = cpu_limit;
      memory_limit = memory_limit;
    })

  unfoldable pub identity : Lookup → String → Result Refused (Option ℕ)
  identity get key = elim (get key) [
    | none ↦ ok none
    | some text ↦ do id ← map_err value_of (nonroot_id key text); ok (some id)
  ]

  unfoldable pub pinned_identity : Lookup → String → (KnobDefaults → Option ℕ) → Checked
  unfolding identity supplied pin
  pinned_identity get key pick = do
    found ← identity get key
    elim found [ none ↦ fine | some id ↦ pin nat_eq key (supplied i source key pick) id ]

  -- `Value::as_u64`
  abbrev as_u64 : Option Value → Option ℕ
  as_u64 (some (json_number text)) = parse_unsigned 10 64 text
  as_u64 _ = none

  abbrev first_value : Option Values → Option Value
  first_value (some (next first _)) = some first
  first_value _ = none

  abbrev below_value : List String → Option Value → Option Value
  below_value keys none = none
  below_value keys (some v) = pointer keys v

  -- the user of the first container, or else the pod's
  unfoldable pub application_user : Value → Option ℕ
  unfolding pointer
  application_user pod =
      let first = first_value (as_array (pointer ("spec" ∷ "containers" ∷ []) pod)) in
      or_else (as_u64 (below_value ("securityContext" ∷ "runAsUser" ∷ []) first))
        (as_u64 (pointer ("spec" ∷ "securityContext" ∷ "runAsUser" ∷ []) pod))

  unfoldable pub inherits : Value → Lookup → Result Refused ℕ
  unfolding application_user
  inherits pod get = do
    ensure (is_none (get "agent-run-as-user"))
        (at_odds "agent-run-as-same-user" "agent-run-as-user")
    uid ← ok_or (application_user pod) no_user_to_inherit
    ensure (ltb uid (2 ^ 32)) not_a_user
    ensure (not (nat_eq uid 0)) inherits_root
    ok uid

  unfoldable pub inherited : Value → Lookup → Result Refused (Option ℕ)
  unfolding inherits switched
  inherited pod get = do
    same ← switched "agent-run-as-same-user" (get "agent-run-as-same-user") false
    if same then (inherits pod get >>= λ uid. ok (some uid)) else ok none

  unfoldable pub container : Value → Lookup → Result Refused Container
  unfolding medium_named chosen resources file_mode_of pinned_identity inherited switched
  container pod get = do
    volume_memory ←
        chosen same_bool "volume-medium" (λ k. k.volume_memory) true medium_named
          (get "volume-medium")
    native_sidecar ←
        chosen same_bool "native-sidecar" (λ k. k.native_sidecar) false
          (λ text. switched "native-sidecar" (some text) false) (get "native-sidecar")
    sized ← resources get
    file_mode ← file_mode_of i source "file-mode" (get "file-mode")
    pinned_identity get "agent-run-as-user" (λ k. k.run_as_user)
    pinned_identity get "agent-run-as-group" (λ k. k.run_as_group)
    taken ← inherited pod get
    user ← identity get "agent-run-as-user"
    group ← identity get "agent-run-as-group"
    ok (record {
      volume_memory = volume_memory;
      native_sidecar = native_sidecar;
      resources = sized;
      file_mode = file_mode;
      run_as_user = or_else (or_else taken user) (knob i source (λ k. k.run_as_user));
      run_as_group = or_else group (knob i source (λ k. k.run_as_group));
    })
