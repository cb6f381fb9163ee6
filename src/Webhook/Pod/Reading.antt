-- ===== src/Webhook/Pod/Reading.antt =====
-- dynamic-config-webhook/src/annotations.rs, `of_pod_with` and `extra_render`: how a value is looked up,
-- and the walks that refuse an annotation against a pin.
use dynamic_config_k8s.Prelude.{
  ℕ, String, Bool, true, false, not, ◌&&◌, ◌||◌, Option, none, some, List, [], ◌∷◌, if◌then◌else◌,
  ◌==◌, any, Result, ok, err, ◌>>=◌, ◌>>◌, ensure, ok_or,
}
use dynamic_config_k8s.Prelude.Texts.{split_once, parse_unsigned, is_some, is_none}
use dynamic_config_k8s.Webhook.Userinfo.{without_userinfo}
use dynamic_config_k8s.Webhook.Installation.{Supplied, or_else}
use dynamic_config_k8s.Webhook.Pod.Shape.{
  Refused, SecretRef, ObjectRef, bad_value, pinned_text, pinned_value, pinned_half, required,
  both_set,
}

-- an annotation by its key
abbrev pub Lookup : Type 0
Lookup = String → Option String

abbrev pub Checked : Type 0
Checked = Result Refused (Unit {0})

abbrev pub fine : Checked
fine = ok tt

abbrev pub pin_holds : String → Option String → Bool
pin_holds tier none = true
pin_holds tier (some pod) = pod == tier

abbrev text_of : Option String → String
text_of none = ""
text_of (some text) = text

-- the walk over the strings that the installation supplies: a pinned one is not to differ
unfoldable pub respects : (String → Bool) → Lookup → List Supplied → Checked
respects exempt get [] = fine
respects exempt get (held ∷ more) = do
  ensure (not held.pinned || exempt held.key || pin_holds held.value (get held.key)) (
      pinned_text held.key (without_userinfo (text_of (get held.key)))
        (without_userinfo held.value))
  respects exempt get more

unfoldable pub is_pinned : String → List Supplied → Bool
is_pinned key held = any (λ s. s.key == key && s.pinned) held

-- one half of a pair is pinned, and the pod gives the other
abbrev pub half : Lookup → List Supplied → String → String → Checked
half get held a b =
    ensure (not (is_pinned a held && is_none (get a) && is_some (get b))) (pinned_half b a)

unfoldable pub pairs : Lookup → List Supplied → Checked
unfolding is_pinned
pairs get held = do
  half get held "endpoint" "endpoint-secret"
  half get held "endpoint-secret" "endpoint"
  half get held "template" "template-configmap"
  half get held "template-configmap" "template"

unfoldable pub first_supplied : String → List Supplied → Option String
first_supplied key [] = none
first_supplied key (held ∷ more) =
    let rest = first_supplied key more in if held.key == key then some held.value else rest

-- the pod's answer, or else the installation's
unfoldable pub defaulted : Lookup → List Supplied → Lookup
unfolding first_supplied
defaulted get held name = or_else (get name) (first_supplied name held)

-- a pinned value of another type than text
unfoldable pub pin {ℓ} : {T : Type ℓ} → (T → T → Bool) → String → Option (T × Bool) → T → Checked
pin same key (some (tier, true)) value = ensure (same tier value) (pinned_value key)
pin same key _ value = fine

-- "true" or "false", and what the key's absence means
unfoldable pub switched : String → Option String → Bool → Result Refused Bool
switched key found absent = elim found [
  | none ↦ ok absent
  | some text ↦
      if text == "true"
      then ok true
      else if text == "false"
      then ok false
      else err (bad_value key text)
]

-- a number of so many bits
unfoldable pub number : ℕ → String → String → Result Refused ℕ
number bits key text = ok_or (parse_unsigned 10 bits text) (bad_value key text)

-- "name/key"
unfoldable pub secret_ref : String → Option String → Result Refused (Option SecretRef)
secret_ref key none = ok none
secret_ref key (some text) = do
  parts ← ok_or (split_once b'/' text) (bad_value key text)
  ok (some (record { name = parts.0; key = parts.1 }))

-- "name", or "name/key"
unfoldable pub object_of : String → String → ObjectRef
object_of default_key text = elim (split_once b'/' text) [
  | none ↦ record { name = text; key = default_key }
  | some (object, key) ↦ record { name = object; key = key }
]

unfoldable pub object_ref : String → Option String → Option ObjectRef
unfolding object_of
object_ref default_key none = none
object_ref default_key (some text) = some (object_of default_key text)

-- a pair that answers as one: what the pod gives of it, or else what the installation gives
unfoldable pub level : Lookup → List Supplied → String → String → Option String × Option String
unfolding defaulted
level get held a b =
    if is_some (get a) || is_some (get b)
    then (get a, get b)
    else (defaulted get held a, defaulted get held b)

-- what a key needs to have been answered
abbrev pub demanded : String → Option String → Result Refused String
demanded key found = ok_or found (required key)

abbrev pub one_place : {A B : Type 0} → String → String → Option A → Option B → Checked
one_place a b first second = ensure (not (is_some first && is_some second)) (both_set a b)
