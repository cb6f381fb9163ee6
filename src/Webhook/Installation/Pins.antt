-- ===== src/Webhook/Installation/Pins.antt =====
-- dynamic-config-webhook/src/annotations.rs: how a marker on a default becomes a pin.
use dynamic_config_k8s.Prelude.{
  String, ◌≡◌, Bool, not, Option, none, some, List, [], ◌∷◌, ◌++◌, arith, eq_refl, ok,
}
use dynamic_config_k8s.Webhook.Knobs.{
  KnobDefaults, TextKnob, text_knob_of, text_of, marked, push_rule, set,
}
use dynamic_config_k8s.Webhook.Knobs.Laws.{rules-set, text_of-set, same_knob_refl, overridable-set}
use dynamic_config_k8s.Webhook.Installation.{
  Installation, or_else, unwrap_or, rule_for, opens, tier, store, supplied,
}

rule_for-push :
    (key : String) (rules : List (String × Bool)) (b : Bool)
    → rule_for key (rules ++ (key, b) ∷ []) ≡ or_else (rule_for key rules) (some b)
unfolding rule_for
rule_for-push key [] b = ground (arith, eq_refl key)
rule_for-push key ((name, o) ∷ more) b = ground (arith, rule_for-push key more b)

rule_for-push_rule :
    (key : String) (rule : Option Bool) (k : KnobDefaults)
    → rule_for key (push_rule key rule k).rules ≡ or_else (rule_for key k.rules) rule
rule_for-push_rule key none k = ground arith
rule_for-push_rule key (some b) k = rule_for-push key k.rules b

-- What a tier answers for a store-shaped key after `set`: the value without its marker, pinned unless it
-- is open. Whether it is open is decided by the first of these that says anything: the marker of the
-- key's first mention in this tier, the marker of this mention, the tier's own switch, and the
-- installation's switch.
pub tier-set :
    (i : Installation) (k k' : KnobDefaults) (context key value : String) (b : TextKnob)
    → text_knob_of key ≡ some b
    → set k context key value ≡ ok k'
    → tier i key (text_of b) k'
      ≡ some (
        (marked value).0,
        not (
            unwrap_or
              (or_else (or_else (rule_for key k.rules) (marked value).1) k.overridable)
              i.overridable),
      )
unfolding tier
tier-set i k k' context key value b known h = ground (
  arith,
  text_of-set k k' context key value b h,
  same_knob_refl b,
  rules-set k k' context key value h,
  rule_for-push_rule key (marked value).1 k,
  overridable-set k k' context key value b known h,
)

-- A store's own default answers before the fleet's, and the fleet's where the store is silent.
pub supplied-store :
    {T : Type 0} (i : Installation) (name key : String) (knobs : KnobDefaults)
    (pick : KnobDefaults → Option T) (v : T)
    → store i (some name) ≡ some knobs
    → pick knobs ≡ some v
    → supplied i (some name) key pick ≡ some (v, not (opens i key knobs))
unfolding supplied tier
supplied-store i name key knobs pick v found picked = ground arith
