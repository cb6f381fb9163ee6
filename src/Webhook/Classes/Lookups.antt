-- ===== src/Webhook/Classes/Lookups.antt =====
-- dynamic-config-webhook/src/classes.rs: what a pod finds under a class's name.
use dynamic_config_k8s.Prelude.{Option, List, ◌⊎◌, is_empty, any, ◌||◌}
use dynamic_config_k8s.Webhook.Installation.{unwrap_or}
use dynamic_config_k8s.Webhook.Classes.{admits, texts_of}
use dynamic_config_k8s.Json.{pointer, as_text}
use dynamic_config_k8s.Prelude.Texts.{is_some}
use dynamic_config_k8s.Prelude.{
  String, ◌≡◌, ◌↔◌, Bool, true, false, none, some, [], ◌∷◌, arith, if◌then◌else◌, ◌==◌, eq_iff,
}
use dynamic_config_k8s.Json.{Value, Values, no_values, next}
use dynamic_config_k8s.Webhook.Classes.{
  as_array, Class, Key, Classes, same_key, insert, lookup, resolve,
}

same_key_iff : (a b : Key) → (same_key a b ≡ true) ↔ ((a.0 ≡ b.0) × (a.1 ≡ b.1))
same_key_iff a b = ground (arith, eq_iff a.0 b.0, eq_iff a.1 b.1)

-- what a lookup finds after an insertion: the new class under its key, and what was there elsewhere
pub lookup-insert :
    (key other : Key) (class : Class) (classes : Classes)
    → lookup other (insert key class classes)
      ≡ (if same_key key other then some class else lookup other classes)
unfolding lookup insert
lookup-insert key other class [] = ground arith
lookup-insert key other class ((held, old) ∷ more) = ground (
  arith,
  lookup-insert key other class more,
  same_key_iff key other,
  same_key_iff held key,
  same_key_iff held other,
)

-- A class of the pod's own namespace answers for its name, whatever the cluster holds; where the
-- namespace has none, the cluster's class answers.
resolve-insert :
    (namespace name : String) (class : Class) (classes : Classes)
    → (resolve (insert (namespace, name) class classes) namespace name ≡ some class)
      × (resolve (insert ("", name) class classes) namespace name
          ≡ (elim (if namespace == "" then none else lookup (namespace, name) classes) [
            | some own ↦ some own
            | none ↦ some class
          ]))
unfolding resolve
resolve-insert namespace name class classes = (
  ground (
    arith,
    lookup-insert (namespace, name) (namespace, name) class classes,
    same_key_iff (namespace, name) (namespace, name),
  ),
  ground (
    arith,
    lookup-insert ("", name) (namespace, name) class classes,
    lookup-insert ("", name) ("", name) class classes,
    same_key_iff ("", name) ("", name),
    same_key_iff ("", name) (namespace, name),
    eq_iff namespace "",
  ),
)

-- the namespaces that an object of the cluster's list is for
abbrev listed_for : Value → List String
listed_for item = texts_of (as_array (pointer ("spec" ∷ "namespaces" ∷ []) item))

-- what the two lists give a class: where its credential may stand
abbrev pub IsHome : Bool → Class → Type 0
IsHome true class = class.credential_elsewhere ≡ none
IsHome false class = is_some class.token_secret ≡ is_some class.credential_elsewhere

-- whether a pod may use an object, by the object alone
abbrev serves : Bool → Value → String → Bool
serves true item namespace = true
serves false item namespace =
    is_empty (listed_for item) || any (λ name. name == namespace) (listed_for item)

-- the namespace that an object is filed under: its own, or none for the cluster's
abbrev filed_under : Bool → Value → Option String
filed_under true item = as_text (pointer ("metadata" ∷ "namespace" ∷ []) item)
filed_under false item = none

-- an entry that stands for an object of a list: under its names, for the pods that it serves
abbrev pub StandsFor : Bool → String → Key × Class → Value → Type 0
StandsFor namespaced namespace entry item =
    (as_text (pointer ("metadata" ∷ "name" ∷ []) item) ≡ some entry.0.1)
    × (entry.0.0 ≡ unwrap_or (filed_under namespaced item) "")
    × (admits entry.1 namespace ≡ serves namespaced item namespace)
    × IsHome namespaced entry.1

-- some object of a list
abbrev pub SomeItem : (Value → Type 0) → Values → Type 0
SomeItem P no_values = ⊥
SomeItem P (next item more) = P item ⊎ SomeItem P more
