-- ===== src/Webhook/Refusals.antt =====
-- The refusals of dynamic-config-webhook/src/annotations.rs, one constructor for each sentence, with the
-- values that the sentence repeats. The English around them is not modelled.
use dynamic_config_k8s.Prelude.{String}

pub data Refusal : Type 0 where
  not_octal above_0777 not_owner_readable : (context text : String) → Refusal
  not_numeric_id zero_id : (context text : String) → Refusal
  not_a_pair not_upper_snake set_twice : (context text : String) → Refusal
  names_nothing : (context : String) → Refusal
  not_a_namespace : (namespace : String) → Refusal
  not_a_name : (name kind : String) → Refusal
  empty_group : (namespace : String) → Refusal
  within : (variable : String) → Refusal → Refusal
  bad_mode bad_medium not_a_switch not_a_quantity not_seconds : (context value : String) → Refusal
  not_a_port not_absolute empty_value not_a_secret_ref unknown_knob :
      (context value : String) → Refusal
  no_store_head unknown_store store_twice : (context text : String) → Refusal
  not_key_value : (context text store : String) → Refusal
