-- ===== src/Webhook/Tests.antt =====
-- dynamic-config-webhook/src/annotations.rs: the small parsers on inputs of the documentation.
use dynamic_config_k8s.Webhook.EnvEntries.Laws.{env_entries-IsClean, IsClean}
use dynamic_config_k8s.Webhook.Knobs.Laws.{text_of-set, same_knob}
use dynamic_config_k8s.Webhook.Contract.{rendered, deprecated, AnnotationSpec}
use dynamic_config_k8s.Prelude.{
  ◌≡◌, refl, true, false, none, some, List, [], ◌∷◌, if◌then◌else◌, is_empty, ok,
}
use dynamic_config_k8s.Prelude.Texts.{
  split, trim, split_once, head_is, empty_text, strip_prefix, parse_unsigned, all_chars,
}
use dynamic_config_k8s.Webhook.EnvEntries.{Entry, env_entries}
use dynamic_config_k8s.Webhook.Quantities.{to_octal, octal_mode, scaled, nonroot_id, bytes_of}
use dynamic_config_k8s.Webhook.Knobs.{
  with_text, text_knob_of, marked, TextKnob, set_text, set, text_of, no_defaults,
}

two_variables :
    env_entries "agent-env" "RUST_LOG=debug, HTTP_PROXY = x"
    ≡ ok (("RUST_LOG", "debug") ∷ ("HTTP_PROXY", " x") ∷ [])
unfolding env_entries split empty_text trim split_once head_is all_chars
two_variables = refl

env_entries-IsClean_example :
    IsClean (("RUST_LOG", "debug") ∷ ("HTTP_PROXY", " x") ∷ [])
    × (is_empty {A = Entry} (("RUST_LOG", "debug") ∷ ("HTTP_PROXY", " x") ∷ []) ≡ false)
env_entries-IsClean_example =
    env_entries-IsClean "agent-env" "RUST_LOG=debug, HTTP_PROXY = x"
      (("RUST_LOG", "debug") ∷ ("HTTP_PROXY", " x") ∷ []) two_variables

a_mode : octal_mode "file-mode" "0o0640" ≡ ok "640"
unfolding octal_mode parse_unsigned to_octal strip_prefix
a_mode = refl

an_id : nonroot_id "agent-run-as-user" "1000" ≡ ok 1000
unfolding nonroot_id parse_unsigned
an_id = refl

a_size : bytes_of "64Mi" ≡ some 67_108_864
unfolding bytes_of scaled parse_unsigned
a_size = refl

-- nothing is retired yet, so the mechanism runs on a table of its own
abbrev table : List AnnotationSpec
table = deprecated (rendered "source") "0.3.0" (some "store") ∷ []

opens_endpoint :
    set no_defaults "c" "endpoint" "a?"
    ≡ ok (record no_defaults { endpoint = some "a"; rules = ("endpoint", true) ∷ [] })
unfolding set set_text marked text_knob_of with_text empty_text
opens_endpoint = refl

text_of-set_example :
    text_of TextKnob.endpoint
      (record no_defaults { endpoint = some "a"; rules = ("endpoint", true) ∷ [] })
    ≡ (elim (text_knob_of "endpoint") [
      | none ↦ none
      | some b ↦ if same_knob TextKnob.endpoint b then some (marked "a?").0 else none
    ])
unfolding text_of
text_of-set_example =
    text_of-set no_defaults
      (record no_defaults { endpoint = some "a"; rules = ("endpoint", true) ∷ [] }) "c" "endpoint"
      "a?" TextKnob.endpoint opens_endpoint
