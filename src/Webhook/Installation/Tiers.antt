-- ===== src/Webhook/Installation/Tiers.antt =====
-- dynamic-config-webhook/src/annotations.rs: which tier of defaults answers for a knob, and whether the
-- answer is a pin.
use dynamic_config_k8s.Prelude.{
  String, Bool, not, Option, none, some, List, [], ◌∷◌, if◌then◌else◌, ◌==◌,
}
use dynamic_config_k8s.Webhook.Scopes.{ScopedNames}
use dynamic_config_k8s.Webhook.EnvEntries.{Entry}
use dynamic_config_k8s.Webhook.Knobs.{KnobDefaults, TextKnob, knob_name, text_of}

pub record Installation : Type 0 where
  pub fleet : KnobDefaults
  pub per_store : List (String × KnobDefaults)
  pub source : Option String
  pub source_rule : Option Bool
  pub overridable : Bool
  pub agent_env : List Entry
  pub agent_env_allow : ScopedNames
  pub source_allow : ScopedNames
  pub source_deny : ScopedNames
  pub allow_tls_skip_verify : Bool
  pub allow_events : Bool
  pub agent_image_allow : List String

-- `a.or(b)` and `a.unwrap_or(b)`
abbrev pub or_else {ℓ} : {A : Type ℓ} → Option A → Option A → Option A
or_else none b = b
or_else (some a) b = some a

abbrev pub unwrap_or {ℓ} : {A : Type ℓ} → Option A → A → A
unwrap_or none b = b
unwrap_or (some a) b = a

-- the first rule for the key
unfoldable pub rule_for : String → List (String × Bool) → Option Bool
rule_for key [] = none
rule_for key ((name, overridable) ∷ more) =
    let rest = rule_for key more in if name == key then some overridable else rest

-- whether one tier leaves the key open: its own marker, the tier's switch, the installation's switch
unfoldable pub opens : Installation → String → KnobDefaults → Bool
unfolding rule_for
opens i key knobs = unwrap_or (or_else (rule_for key knobs.rules) knobs.overridable) i.overridable

unfoldable pub tier {ℓ} :
    {T : Type ℓ}
    → Installation
    → String
    → (KnobDefaults → Option T)
    → KnobDefaults
    → Option (T × Bool)
unfolding opens
tier i key pick knobs = elim (pick knobs) [
  | none ↦ none
  | some value ↦ some (value, not (opens i key knobs))
]

unfoldable pub find_store : String → List (String × KnobDefaults) → Option KnobDefaults
find_store name [] = none
find_store name ((held, defaults) ∷ more) =
    let rest = find_store name more in if held == name then some defaults else rest

unfoldable pub store : Installation → Option String → Option KnobDefaults
unfolding find_store
store i none = none
store i (some source) = find_store source i.per_store

abbrev pub tier? {ℓ} :
    {T : Type ℓ}
    → Installation
    → String
    → (KnobDefaults → Option T)
    → Option KnobDefaults
    → Option (T × Bool)
tier? i key pick none = none
tier? i key pick (some knobs) = tier i key pick knobs

-- the value that the installation supplies, and whether it is pinned: the store's tier, then the fleet's
unfoldable pub supplied {ℓ} :
    {T : Type ℓ}
    → Installation
    → Option String
    → String
    → (KnobDefaults → Option T)
    → Option (T × Bool)
unfolding tier store
supplied i source key pick = or_else (tier? i key pick (store i source)) (tier i key pick i.fleet)

abbrev pub first_of_pair {ℓ} : {T : Type ℓ} → Option (T × Bool) → Option T
first_of_pair none = none
first_of_pair (some (value, pinned)) = some value

unfoldable pub knob {ℓ} :
    {T : Type ℓ} → Installation → Option String → (KnobDefaults → Option T) → Option T
unfolding supplied
knob i source pick = first_of_pair (supplied i source "" pick)

abbrev pub Pick : Type 0
Pick = String × (KnobDefaults → Option String)

abbrev of_knob : TextKnob → Pick
of_knob k = (unfold knob_name in knob_name k, text_of k)

unfoldable pub picks : List Pick
unfolding knob_name text_of
picks =
    of_knob TextKnob.endpoint
    ∷ of_knob TextKnob.endpoint_secret
    ∷ of_knob TextKnob.store_key
    ∷ ("path", λ k. k.path)
    ∷ of_knob TextKnob.token_secret
    ∷ of_knob TextKnob.password_secret
    ∷ of_knob TextKnob.ca_configmap
    ∷ of_knob TextKnob.tls_secret
    ∷ of_knob TextKnob.ssh_secret
    ∷ of_knob TextKnob.aws_secret
    ∷ of_knob TextKnob.section
    ∷ of_knob TextKnob.auth
    ∷ of_knob TextKnob.auth_mount
    ∷ of_knob TextKnob.auth_role
    ∷ of_knob TextKnob.auth_username
    ∷ of_knob TextKnob.auth_token_path
    ∷ of_knob TextKnob.store_namespace
    ∷ of_knob TextKnob.reference
    ∷ of_knob TextKnob.api_url
    ∷ of_knob TextKnob.template
    ∷ of_knob TextKnob.template_configmap
    ∷ []

pub record Supplied : Type 0 where
  pub key : String
  pub value : String
  pub pinned : Bool

-- the loop over the table
unfoldable pub collect : Installation → Option String → List Pick → List Supplied
collect i source [] = []
collect i source ((key, pick) ∷ more) =
    let rest = collect i source more in
    elim (supplied i source key pick) [
      | none ↦ rest
      | some (value, pinned) ↦ record { key = key; value = value; pinned = pinned } ∷ rest
    ]

unfoldable pub store_strings : Installation → Option String → List Supplied
unfolding picks collect supplied
store_strings i source = collect i source picks

unfoldable pub supplied_source : Installation → Option (String × Bool)
supplied_source i = elim i.source [
  | none ↦ none
  | some source ↦ some (source, not (unwrap_or i.source_rule i.overridable))
]
