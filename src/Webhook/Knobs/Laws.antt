-- ===== src/Webhook/Knobs/Laws.antt =====
-- dynamic-config-webhook/src/annotations.rs: what `set` writes, and what it leaves alone.
use dynamic_config_k8s.Prelude.{
  eq_refl, true, ℕ, none, some, inr, inl, Option-cases, Option, String, String, String, String,
  String, String, String, ◌≡◌, refl, Bool, some, arith, if◌then◌else◌, ◌==◌, ok,
}
use dynamic_config_k8s.Prelude.Yields.{Yields, yields_rules}
use dynamic_config_k8s.Webhook.Knobs.{
  marked, text_knob_of, push_rule, set, Mode, KnobDefaults, TextKnob, knob_name, text_of, with_text,
  with_quantity, set_text, set_plain,
}

unfoldable pub same_knob : TextKnob → TextKnob → Bool
unfolding knob_name
same_knob a b = knob_name a == knob_name b

text_of-with_text :
    (a b : TextKnob) (v : String) (k : KnobDefaults)
    → text_of a (with_text b v k) ≡ (if same_knob a b then some v else text_of a k)
unfolding text_of with_text same_knob
text_of-with_text TextKnob.endpoint TextKnob.endpoint v k = refl
text_of-with_text TextKnob.endpoint _ v k = refl
text_of-with_text TextKnob.endpoint_secret TextKnob.endpoint v k = refl
text_of-with_text TextKnob.endpoint_secret _ v k = refl
text_of-with_text TextKnob.store_key TextKnob.endpoint v k = refl
text_of-with_text TextKnob.store_key _ v k = refl
text_of-with_text TextKnob.token_secret TextKnob.endpoint v k = refl
text_of-with_text TextKnob.token_secret _ v k = refl
text_of-with_text TextKnob.password_secret TextKnob.endpoint v k = refl
text_of-with_text TextKnob.password_secret _ v k = refl
text_of-with_text TextKnob.ca_configmap TextKnob.endpoint v k = refl
text_of-with_text TextKnob.ca_configmap _ v k = refl
text_of-with_text TextKnob.tls_secret TextKnob.endpoint v k = refl
text_of-with_text TextKnob.tls_secret _ v k = refl
text_of-with_text TextKnob.ssh_secret TextKnob.endpoint v k = refl
text_of-with_text TextKnob.ssh_secret _ v k = refl
text_of-with_text TextKnob.aws_secret TextKnob.endpoint v k = refl
text_of-with_text TextKnob.aws_secret _ v k = refl
text_of-with_text TextKnob.section TextKnob.endpoint v k = refl
text_of-with_text TextKnob.section _ v k = refl
text_of-with_text TextKnob.auth TextKnob.endpoint v k = refl
text_of-with_text TextKnob.auth _ v k = refl
text_of-with_text TextKnob.auth_mount TextKnob.endpoint v k = refl
text_of-with_text TextKnob.auth_mount _ v k = refl
text_of-with_text TextKnob.auth_role TextKnob.endpoint v k = refl
text_of-with_text TextKnob.auth_role _ v k = refl
text_of-with_text TextKnob.auth_username TextKnob.endpoint v k = refl
text_of-with_text TextKnob.auth_username _ v k = refl
text_of-with_text TextKnob.auth_token_path TextKnob.endpoint v k = refl
text_of-with_text TextKnob.auth_token_path _ v k = refl
text_of-with_text TextKnob.store_namespace TextKnob.endpoint v k = refl
text_of-with_text TextKnob.store_namespace _ v k = refl
text_of-with_text TextKnob.reference TextKnob.endpoint v k = refl
text_of-with_text TextKnob.reference _ v k = refl
text_of-with_text TextKnob.api_url TextKnob.endpoint v k = refl
text_of-with_text TextKnob.api_url _ v k = refl
text_of-with_text TextKnob.template TextKnob.endpoint v k = refl
text_of-with_text TextKnob.template _ v k = refl
text_of-with_text TextKnob.template_configmap TextKnob.endpoint v k = refl
text_of-with_text TextKnob.template_configmap _ v k = refl

rules-with_text : (b : TextKnob) (v : String) (k : KnobDefaults) → (with_text b v k).rules ≡ k.rules
unfolding with_text
rules-with_text TextKnob.endpoint v k = refl
rules-with_text _ v k = refl

rules-with_quantity : (key v : String) (k : KnobDefaults) → (with_quantity key v k).rules ≡ k.rules
unfolding with_quantity
rules-with_quantity key v k = ground arith

abbrev KeepsRules : KnobDefaults → KnobDefaults → Type 0
KeepsRules k k' = k'.rules ≡ k.rules

rules-set_plain :
    (k : KnobDefaults) (context key value : String)
    → Yields (KeepsRules k) (set_plain k context key value)
unfolding set_plain
rules-set_plain k context key value = search (yields_rules, rules-with_quantity) depth 40

rules-set_text :
    (k : KnobDefaults) (context value : String) (b : TextKnob)
    → Yields (KeepsRules k) (set_text k context b value)
unfolding set_text
rules-set_text k context value b = search (yields_rules, rules-with_text) depth 40

-- `set` writes down the value's marker, if it has one, and no other rule.
pub rules-set :
    (k k' : KnobDefaults) (context key value : String)
    → set k context key value ≡ ok k'
    → k'.rules ≡ (push_rule key (marked value).1 k).rules
unfolding set
rules-set k k' context key value h = elim (Option-cases (text_knob_of key)) [
  | inl e ↦
      (rules-set_plain (push_rule key (marked value).1 k) context key (marked value).0).at k'
        (ground arith)
  | inr (b, e) ↦
      (rules-set_text (push_rule key (marked value).1 k) context (marked value).0 b).at k'
        (ground arith)
]

abbrev KeepsTexts : KnobDefaults → KnobDefaults → Type 0
KeepsTexts k k' = (a : TextKnob) → text_of a k' ≡ text_of a k

abbrev Writes : TextKnob → String → KnobDefaults → KnobDefaults → Type 0
Writes b v k k' = (a : TextKnob) → text_of a k' ≡ (if same_knob a b then some v else text_of a k)

Writes-set_text :
    (k : KnobDefaults) (context value : String) (b : TextKnob)
    → Yields (Writes b value k) (set_text k context b value)
unfolding set_text
Writes-set_text k context value b = search (yields_rules, text_of-with_text) depth 40

text_of-push_rule :
    (a : TextKnob) (key : String) (rule : Option Bool) (k : KnobDefaults)
    → text_of a (push_rule key rule k) ≡ text_of a k
unfolding text_of
text_of-push_rule TextKnob.endpoint key none k = refl
text_of-push_rule TextKnob.endpoint key (some r) k = refl
text_of-push_rule _ key none k = refl
text_of-push_rule _ key (some r) k = refl

KeepsTexts-with_quantity :
    (key value : String) (k : KnobDefaults) → KeepsTexts k (with_quantity key value k)
unfolding with_quantity text_of
KeepsTexts-with_quantity key value k TextKnob.endpoint = ground arith
KeepsTexts-with_quantity key value k _ = ground arith

keeps_file_mode : (v : String) (k : KnobDefaults) → KeepsTexts k (record k { file_mode = some v })
unfolding text_of
keeps_file_mode v k TextKnob.endpoint = refl
keeps_file_mode v k _ = refl

keeps_watch_seconds :
    (v : ℕ) (k : KnobDefaults) → KeepsTexts k (record k { watch_seconds = some v })
unfolding text_of
keeps_watch_seconds v k TextKnob.endpoint = refl
keeps_watch_seconds v k _ = refl

keeps_mode : (v : Mode) (k : KnobDefaults) → KeepsTexts k (record k { mode = some v })
unfolding text_of
keeps_mode v k TextKnob.endpoint = refl
keeps_mode v k _ = refl

keeps_volume_memory :
    (v : Bool) (k : KnobDefaults) → KeepsTexts k (record k { volume_memory = some v })
unfolding text_of
keeps_volume_memory v k TextKnob.endpoint = refl
keeps_volume_memory v k _ = refl

keeps_native_sidecar :
    (v : Bool) (k : KnobDefaults) → KeepsTexts k (record k { native_sidecar = some v })
unfolding text_of
keeps_native_sidecar v k TextKnob.endpoint = refl
keeps_native_sidecar v k _ = refl

keeps_run_as_user : (v : ℕ) (k : KnobDefaults) → KeepsTexts k (record k { run_as_user = some v })
unfolding text_of
keeps_run_as_user v k TextKnob.endpoint = refl
keeps_run_as_user v k _ = refl

keeps_run_as_group : (v : ℕ) (k : KnobDefaults) → KeepsTexts k (record k { run_as_group = some v })
unfolding text_of
keeps_run_as_group v k TextKnob.endpoint = refl
keeps_run_as_group v k _ = refl

keeps_metrics_port : (v : ℕ) (k : KnobDefaults) → KeepsTexts k (record k { metrics_port = some v })
unfolding text_of
keeps_metrics_port v k TextKnob.endpoint = refl
keeps_metrics_port v k _ = refl

keeps_path : (v : String) (k : KnobDefaults) → KeepsTexts k (record k { path = some v })
unfolding text_of
keeps_path v k TextKnob.endpoint = refl
keeps_path v k _ = refl

keeps_overridable : (v : Bool) (k : KnobDefaults) → KeepsTexts k (record k { overridable = some v })
unfolding text_of
keeps_overridable v k TextKnob.endpoint = refl
keeps_overridable v k _ = refl

ruleset keeps_texts = (
  KeepsTexts-with_quantity, keeps_file_mode, keeps_watch_seconds, keeps_mode, keeps_volume_memory,
  keeps_native_sidecar, keeps_run_as_user, keeps_run_as_group, keeps_metrics_port, keeps_path,
  keeps_overridable,
)

KeepsTexts-set_plain :
    (k : KnobDefaults) (context key value : String)
    → Yields (KeepsTexts k) (set_plain k context key value)
unfolding set_plain
KeepsTexts-set_plain k context key value = search (yields_rules, keeps_texts) depth 40

-- A store-shaped key of one tier takes the value without its marker, and `set` changes no other
-- store-shaped key; any other key changes none of them.
pub text_of-set :
    (k k' : KnobDefaults) (context key value : String) (a : TextKnob)
    → set k context key value ≡ ok k'
    → text_of a k' ≡ (elim (text_knob_of key) [
      | none ↦ text_of a k
      | some b ↦ if same_knob a b then some (marked value).0 else text_of a k
    ])
unfolding set
text_of-set k k' context key value a h = elim (Option-cases (text_knob_of key)) [
  | inl e ↦
      let kept =
        (KeepsTexts-set_plain (push_rule key (marked value).1 k) context key (marked value).0).at k'
          (ground arith) in
      ground (arith, kept a, text_of-push_rule a key (marked value).1 k)
  | inr (b, e) ↦
      let written =
        (Writes-set_text (push_rule key (marked value).1 k) context (marked value).0 b).at k'
          (ground arith) in
      ground (arith, written a, text_of-push_rule a key (marked value).1 k)
]

pub same_knob_refl : (a : TextKnob) → same_knob a a ≡ true
unfolding same_knob
same_knob_refl a = eq_refl (knob_name a)

overridable-with_text :
    (b : TextKnob) (v : String) (k : KnobDefaults) → (with_text b v k).overridable ≡ k.overridable
unfolding with_text
overridable-with_text TextKnob.endpoint v k = refl
overridable-with_text _ v k = refl

overridable-push_rule :
    (key : String) (rule : Option Bool) (k : KnobDefaults)
    → (push_rule key rule k).overridable ≡ k.overridable
overridable-push_rule key none k = refl
overridable-push_rule key (some b) k = refl

overridable-set_text :
    (k : KnobDefaults) (context value : String) (b : TextKnob)
    → Yields (λ k'. k'.overridable ≡ k.overridable) (set_text k context b value)
unfolding set_text
overridable-set_text k context value b = search (yields_rules, overridable-with_text) depth 40

pub overridable-set :
    (k k' : KnobDefaults) (context key value : String) (b : TextKnob)
    → text_knob_of key ≡ some b
    → set k context key value ≡ ok k'
    → k'.overridable ≡ k.overridable
unfolding set
overridable-set k k' context key value b known h = ground (
  arith,
  (overridable-set_text (push_rule key (marked value).1 k) context (marked value).0 b).at k',
  overridable-push_rule key (marked value).1 k,
)
