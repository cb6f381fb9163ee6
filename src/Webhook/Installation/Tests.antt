-- ===== src/Webhook/Installation/Tests.antt =====
-- dynamic-config-webhook/src/annotations.rs: an installation with a pinned default, and two markers.
use dynamic_config_k8s.Webhook.Installation.Pins.{tier-set}
use dynamic_config_k8s.Webhook.Installation.Stores.{from_lookup-IsSound, IsSound}
use dynamic_config_k8s.Prelude.{
  ◌≡◌, refl, true, false, not, none, some, List, [], ◌∷◌, if◌then◌else◌, ◌==◌, Result, ok, err,
}
use dynamic_config_k8s.Prelude.Texts.{split_once, empty_text, any_char, parse_unsigned}
use dynamic_config_k8s.Webhook.Refusals.{Refusal}
use dynamic_config_k8s.Webhook.Scopes.{no_names, pieces, is_source, source_names}
use dynamic_config_k8s.Webhook.Knobs.{
  text_of, TextKnob, KnobDefaults, no_defaults, text_knob_of, with_text, marked, set, set_text,
  set_plain,
}
use dynamic_config_k8s.Webhook.Installation.{
  rule_for, or_else, unwrap_or, tier, Installation, Environment, var, set_fleet, set_pairs,
  set_stores, flag, fleet_source, fleet_env, scoped_gate, text_or_empty, image_prefixes,
  from_lookup, Supplied, store_strings,
}

-- a fleet whose store and address are pinned, and whose path is open
abbrev fleet : Environment
fleet name =
    if name == "DYNAMIC_CONFIG_AGENT_SOURCE"
    then some "vault !"
    else if name == "DYNAMIC_CONFIG_AGENT_STORE_DEFAULTS"
    then some "vault: endpoint=https://v!, watch-seconds=30 ; s3: key=a"
    else if name == "DYNAMIC_CONFIG_WEBHOOK_SOURCE_ALLOW"
    then some "vault"
    else none

-- what the installation supplies to a pod of that store
answers : Result Refusal Installation → List Supplied
unfolding store_strings
answers (ok i) = store_strings i (some "vault")
answers (err e) = []

pinned_endpoint :
    answers (from_lookup fleet)
    ≡ record { key = "endpoint"; value = "https://v"; pinned = true } ∷ []
unfolding answers from_lookup set_fleet set_stores set_pairs set set_text set_plain marked
    text_knob_of with_text var flag fleet_source fleet_env scoped_gate text_or_empty image_prefixes
    pieces is_source split_once source_names any_char parse_unsigned
pinned_endpoint = refl

-- the first mention opens the key, the second pins it: the value is the second, and it is open
twice :
    set no_defaults "c" "endpoint" "a?"
    ≡ ok (record no_defaults { endpoint = some "a"; rules = ("endpoint", true) ∷ [] })
unfolding set set_text marked text_knob_of with_text empty_text
twice = refl

abbrev opened : KnobDefaults
opened = record no_defaults { endpoint = some "a"; rules = ("endpoint", true) ∷ [] }

abbrev both_marks : KnobDefaults
both_marks = record no_defaults {
  endpoint = some "b";
  rules = ("endpoint", true) ∷ ("endpoint", false) ∷ [];
}

second_mark : set opened "c" "endpoint" "b!" ≡ ok both_marks
unfolding set set_text marked text_knob_of with_text empty_text
second_mark = refl

abbrev bare : Installation
bare = record {
  fleet = no_defaults;
  per_store = [];
  source = none;
  source_rule = none;
  overridable = true;
  agent_env = [];
  agent_env_allow = no_names;
  source_allow = no_names;
  source_deny = no_names;
  allow_tls_skip_verify = false;
  allow_events = false;
  agent_image_allow = [];
}

known_endpoint : text_knob_of "endpoint" ≡ some TextKnob.endpoint
unfolding text_knob_of
known_endpoint = refl

tier-set_example :
    tier bare "endpoint" (text_of TextKnob.endpoint) both_marks
    ≡ some (
      (marked "b!").0,
      not (
          unwrap_or
            (or_else (or_else (rule_for "endpoint" opened.rules) (marked "b!").1) none)
            true),
    )
tier-set_example =
    tier-set bare opened both_marks "c" "endpoint" "b!" TextKnob.endpoint known_endpoint second_mark

not_pinned : tier bare "endpoint" (text_of TextKnob.endpoint) both_marks ≡ some ("b", false)
unfolding tier text_of
not_pinned = refl

-- the fleet's installation
abbrev fleet_installation : Installation
fleet_installation = record bare {
  per_store =
      (
        "vault",
        record no_defaults {
          watch_seconds = some 30;
          endpoint = some "https://v";
          rules = ("endpoint", false) ∷ [];
        },
      )
      ∷ ("s3", record no_defaults { key = some "a" })
      ∷ [];
  source = some "vault";
  source_rule = some false;
  source_allow = record { groups = ("*", "vault" ∷ []) ∷ [] };
}

fleet_starts : from_lookup fleet ≡ ok fleet_installation
unfolding from_lookup set_fleet set_stores set_pairs set set_text set_plain marked text_knob_of
    with_text var flag fleet_source fleet_env scoped_gate text_or_empty image_prefixes pieces
    is_source split_once source_names any_char parse_unsigned
fleet_starts = refl

from_lookup-IsSound_example : IsSound fleet_installation
from_lookup-IsSound_example = from_lookup-IsSound fleet fleet_installation fleet_starts
