-- ===== src/Webhook/Knobs.antt =====
-- dynamic-config-webhook/src/annotations.rs: `KnobDefaults::set`, one knob of one tier.
mod Fields
pub mod Laws
pub use Fields.*
unfoldable pub use Fields.{knob_name, text_knob_of, text_of, with_text}
use dynamic_config_k8s.Prelude.{
  ◌>>=◌, ◌>>◌, String, Option, none, String, Option, none, String, Option, none, String, Option,
  none, String, Option, none, String, Option, none, ◌+◌, ◌-◌, ◌*◌, ◌/◌, String, Bool, true, false,
  not, ◌||◌, Option, none, some, [], ◌∷◌, ◌++◌, nat_eq, if◌then◌else◌, ◌==◌, Result, ok, err,
  ensure, ok_or,
}
use dynamic_config_k8s.Prelude.Texts.{
  empty_text, any_char, starts_with, strip_suffix, trim_end, parse_unsigned,
}
use dynamic_config_k8s.Webhook.Refusals.{Refusal}
use dynamic_config_k8s.Webhook.Quantities.{octal_mode, sane_quantity, nonroot_id}

-- A value's marker: `!` pins it, `?` opens it, and no marker leaves it to the tier.
unfoldable pub marked : String → String × Option Bool
unfolding strip_suffix trim_end
marked value = elim (strip_suffix "!" value) [
  | some bare ↦ (trim_end bare, some false)
  | none ↦ elim (strip_suffix "?" value) [
    | some bare ↦ (trim_end bare, some true)
    | none ↦ (value, none)
  ]
]

abbrev pub push_rule : String → Option Bool → KnobDefaults → KnobDefaults
push_rule key none k = k
push_rule key (some overridable) k = record k { rules = k.rules ++ (key, overridable) ∷ [] }

unfoldable pub mode_of : String → String → Result Refusal Mode
mode_of context value =
    if value == "init"
    then ok Mode.init
    else if value == "sidecar"
    then ok Mode.sidecar
    else if value == "both"
    then ok Mode.both
    else err (Refusal.bad_mode context value)

-- a switch with two spellings
unfoldable pub switch : String → String → Refusal → String → Result Refusal Bool
switch on off refusal value =
    if value == on then ok true else if value == off then ok false else err refusal

abbrev quantity_key : String → Bool
quantity_key key =
    key == "agent-cpu-request"
    || key == "agent-memory-request"
    || key == "agent-cpu-limit"
    || key == "agent-memory-limit"

unfoldable pub with_quantity : String → String → KnobDefaults → KnobDefaults
with_quantity key value k =
    if key == "agent-cpu-request"
    then record k { cpu_request = some value }
    else if key == "agent-memory-request"
    then record k { memory_request = some value }
    else if key == "agent-cpu-limit"
    then record k { cpu_limit = some value }
    else record k { memory_limit = some value }

-- the keys whose value is the form <secret-name>/<key>
abbrev pub is_secret_ref : TextKnob → Bool
is_secret_ref TextKnob.token_secret = true
is_secret_ref TextKnob.password_secret = true
is_secret_ref TextKnob.endpoint_secret = true
is_secret_ref _ = false

-- the arm of the store-shaped keys
unfoldable pub set_text : KnobDefaults → String → TextKnob → String → Result Refusal KnobDefaults
set_text k context knob value = do
  ensure (not (empty_text value)) (Refusal.empty_value context (knob_name knob))
  ensure (not (is_secret_ref knob) || any_char (λ c. nat_eq c b'/') value)
      (Refusal.not_a_secret_ref context value)
  ok (with_text knob value k)

-- the arms of the other keys, with the rule pushed already
unfoldable pub set_plain : KnobDefaults → String → String → String → Result Refusal KnobDefaults
set_plain k context key value =
    if quantity_key key
    then (do
      ensure (sane_quantity value) (Refusal.not_a_quantity context value)
      ok (with_quantity key value k))
    else if key == "file-mode"
    then (do mode ← octal_mode context value; ok (record k { file_mode = some mode }))
    else if key == "watch-seconds"
    then (do
      seconds ← ok_or (parse_unsigned 10 64 value) (Refusal.not_seconds context value)
      ok (record k { watch_seconds = some seconds }))
    else if key == "mode"
    then (do mode ← mode_of context value; ok (record k { mode = some mode }))
    else if key == "volume-medium"
    then (do
      memory ← switch "memory" "disk" (Refusal.bad_medium context value) value
      ok (record k { volume_memory = some memory }))
    else if key == "native-sidecar"
    then (do
      native ← switch "true" "false" (Refusal.not_a_switch context value) value
      ok (record k { native_sidecar = some native }))
    else if key == "agent-run-as-user"
    then (do id ← nonroot_id context value; ok (record k { run_as_user = some id }))
    else if key == "agent-run-as-group"
    then (do id ← nonroot_id context value; ok (record k { run_as_group = some id }))
    else if key == "metrics-port"
    then (do
      port ← ok_or (parse_unsigned 10 16 value) (Refusal.not_a_port context value)
      ok (record k { metrics_port = some port }))
    else if key == "path"
    then (do
      ensure (starts_with "/" value) (Refusal.not_absolute context value)
      ok (record k { path = some value }))
    else if key == "overridable"
    then (do
      open_ ← switch "true" "false" (Refusal.not_a_switch context value) value
      ok (record k { overridable = some open_ }))
    else err (Refusal.unknown_knob context key)

unfoldable pub set : KnobDefaults → String → String → String → Result Refusal KnobDefaults
set k context key value =
    let (bare, rule) = marked value in
    let k' = push_rule key rule k in
    elim (text_knob_of key) [
      | some knob ↦ set_text k' context knob bare
      | none ↦ set_plain k' context key bare
    ]
