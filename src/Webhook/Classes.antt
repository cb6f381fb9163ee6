-- ===== src/Webhook/Classes.antt =====
-- dynamic-config-webhook/src/classes.rs: the classes that an annotation may name, read from two lists of
-- the API server. The map is an association list, in the order of the insertions.
pub mod Lookups
mod Tests
use dynamic_config_k8s.Prelude.{
  ◌/◌, String, Bool, true, false, ◌&&◌, ◌||◌, Option, none, some, List, [], ◌∷◌, if◌then◌else◌,
  ◌==◌, is_empty, any,
}
use dynamic_config_k8s.Prelude.Texts.{◌⊕◌}
use dynamic_config_k8s.Json.{no_values, next, Value, Values, get, pointer, as_text, as_array, texts}

pub record Class : Type 0 where
  pub source : String
  pub endpoint : String
  pub token_secret : Option String
  pub namespaces : Option (List String)
  pub credential_elsewhere : Option String

unfoldable pub admits : Class → String → Bool
admits class namespace = elim class.namespaces [
  | none ↦ true
  | some allowed ↦ is_empty allowed || any (λ name. name == namespace) allowed
]

abbrev pub Key : Type 0
Key = String × String

abbrev pub Classes : Type 0
Classes = List (Key × Class)

abbrev pub same_key : Key → Key → Bool
same_key a b = a.0 == b.0 && a.1 == b.1

unfoldable pub insert : Key → Class → Classes → Classes
insert key class [] = (key, class) ∷ []
insert key class ((held, old) ∷ more) =
    let later = insert key class more in
    if same_key held key then (key, class) ∷ more else (held, old) ∷ later

unfoldable pub lookup : Key → Classes → Option Class
lookup key [] = none
lookup key ((held, class) ∷ more) =
    let later = lookup key more in if same_key held key then some class else later

-- the class of the namespace, or else the cluster's
unfoldable pub resolve : Classes → String → String → Option Class
unfolding lookup
resolve classes namespace name = elim (lookup (namespace, name) classes) [
  | some class ↦ some class
  | none ↦ lookup ("", name) classes
]

abbrev or_text : Option String → String → String
or_text none other = other
or_text (some s) other = s

-- the credential of a class: of a Secret beside it, or of one in a namespace that is named. `none` skips
-- the class.
unfoldable pub credential : Bool → Value → Option (Option String × Option String)
unfolding pointer
credential true item = elim (as_text (pointer ("spec" ∷ "tokenSecret" ∷ []) item)) [
  | none ↦ some (none, none)
  | some secret ↦ some (some (secret ⊕ "/token"), none)
]
credential false item = elim (pointer ("spec" ∷ "tokenSecret" ∷ []) item) [
  | none ↦ some (none, none)
  | some reference ↦ elim (as_text (get "name" reference)) [
    | none ↦ none
    | some secret ↦ elim (as_text (get "namespace" reference)) [
      | none ↦ none
      | some holds ↦
          some (some (secret ⊕ "/" ⊕ or_text (as_text (get "key" reference)) "token"), some holds)
    ]
  ]
]

abbrev pub texts_of : Option Values → List String
texts_of none = []
texts_of (some values) = texts values

abbrev namespaces_of : Bool → Value → Option (List String)
namespaces_of true item = none
namespaces_of false item = some (texts_of (as_array (pointer ("spec" ∷ "namespaces" ∷ []) item)))

abbrev home_of : Bool → Value → String
home_of true item = or_text (as_text (pointer ("metadata" ∷ "namespace" ∷ []) item)) ""
home_of false item = ""

-- one item, as its key and its class; `none` is the `continue` of the loop
unfoldable pub class_of : Bool → Value → Option (Key × Class)
class_of namespaced item = elim (as_text (pointer ("metadata" ∷ "name" ∷ []) item)) [
  | none ↦ none
  | some name ↦ elim (as_text (pointer ("spec" ∷ "source" ∷ []) item)) [
    | none ↦ none
    | some source ↦ elim (as_text (pointer ("spec" ∷ "endpoint" ∷ []) item)) [
      | none ↦ none
      | some endpoint ↦ elim (credential namespaced item) [
        | none ↦ none
        | some (token, elsewhere) ↦ some (
          (home_of namespaced item, name),
          record {
            source = source;
            endpoint = endpoint;
            token_secret = token;
            namespaces = namespaces_of namespaced item;
            credential_elsewhere = elsewhere;
          },
        )
      ]
    ]
  ]
]

-- the loop over the items
unfoldable pub add_items : Bool → Values → Classes → Classes
add_items namespaced no_values classes = classes
add_items namespaced (next item more) classes = elim (class_of namespaced item) [
  | none ↦ add_items namespaced more classes
  | some (key, class) ↦ add_items namespaced more (insert key class classes)
]

unfoldable pub from_list : Value → Bool → Classes
from_list list namespaced = elim (as_array (get "items" list)) [
  | none ↦ []
  | some items ↦ add_items namespaced items []
]
