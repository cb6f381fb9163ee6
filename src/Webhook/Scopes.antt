-- ===== src/Webhook/Scopes.antt =====
-- dynamic-config-webhook/src/annotations.rs: `ScopedNames`, names grouped by namespace, behind every gate.
pub mod Gates
pub mod Admitted
mod Tests
use dynamic_config_k8s.Prelude.{
  ◌>>=◌, ◌>>◌, ℕ, ◌+◌, ◌-◌, ◌*◌, String, Bool, true, not, ◌&&◌, ◌||◌, none, some, List, [], ◌∷◌,
  ◌++◌, map, nat_eq, if◌then◌else◌, ◌==◌, is_empty, any, filter, Result, ok, err, ensure,
}
use dynamic_config_k8s.Prelude.Texts.{
  empty_text, all_chars, head_is, is_digit, is_lower, is_upper, starts_with, strip_suffix, trim,
  split, split_once, join,
}
use dynamic_config_k8s.Webhook.Refusals.{Refusal}

-- every store that the agent speaks
unfoldable pub sources : List String
sources =
    "consul" ∷ "vault" ∷ "config-server" ∷ "firestore" ∷ "git" ∷ "redis" ∷ "etcd" ∷ "nats" ∷ "s3"
    ∷ []

unfoldable pub is_source : String → Bool
unfolding sources
is_source name = any (λ source. source == name) sources

abbrev pub Group : Type 0
Group = String × List String

pub record ScopedNames : Type 0 where
  pub groups : List Group

abbrev pub no_names : ScopedNames
no_names = record { groups = [] }

-- `text.split(sep).map(str::trim).filter(|piece| !piece.is_empty())`
unfoldable pub pieces : ℕ → String → List String
unfolding empty_text trim split
pieces sep text = filter (λ piece. not (empty_text piece)) (map trim (split sep text))

unfoldable pub namespace_ok : String → Bool
unfolding empty_text all_chars
namespace_ok namespace =
    namespace == "*"
    || (not (empty_text namespace)
        && all_chars (λ c. is_lower c || is_digit c || nat_eq c b'-') namespace)

-- the head and the names of a group
abbrev pub halves : String → String × String
halves group = elim (split_once b':' group) [
  | some (namespace, names) ↦ (trim namespace, names)
  | none ↦ ("*", group)
]

-- the parser takes the gate's test of a name, and what the refusal calls such a name
module _ (valid : String → Bool) (kind : String) where
  unfoldable pub parse_names : List String → Result Refusal (List String)
  parse_names [] = ok []
  parse_names (name ∷ more) =
      let rest = (do names ← parse_names more; ok (name ∷ names)) in
      if name == "*" || valid name then rest else err (Refusal.not_a_name name kind)

  unfoldable pub parse_group : String → Result Refusal Group
  unfolding split_once trim pieces parse_names namespace_ok
  parse_group group = do
    ensure (namespace_ok (halves group).0) (Refusal.not_a_namespace (halves group).0)
    names ← parse_names (pieces b',' (halves group).1)
    ensure (not (is_empty names)) (Refusal.empty_group (halves group).0)
    ok ((halves group).0, names)

  unfoldable pub parse_groups : List String → Result Refusal (List Group)
  unfolding parse_group
  parse_groups [] = ok []
  parse_groups (group ∷ more) = do
    first ← parse_group group
    rest ← parse_groups more
    ok (first ∷ rest)

  unfoldable pub parse : String → Result Refusal ScopedNames
  unfolding pieces parse_groups
  parse spec = do groups ← parse_groups (pieces b';' spec); ok (record { groups = groups })

-- the name, or what stands before a trailing `*`
abbrev pub stem_of : String → String
stem_of name = elim (strip_suffix "*" name) [ some stem ↦ stem | none ↦ name ]

abbrev pub env_head : ℕ → Bool
env_head c = is_upper c || nat_eq c b'_'

abbrev pub env_char : ℕ → Bool
env_char c = is_upper c || is_digit c || nat_eq c b'_'

unfoldable pub env_pattern : String → Bool
env_pattern name = head_is env_head (stem_of name) && all_chars env_char (stem_of name)

unfoldable pub env_names : String → Result Refusal ScopedNames
unfolding parse env_pattern
env_names = parse env_pattern "a variable name (UPPER_SNAKE, an optional trailing \"*\")"

unfoldable pub source_names : String → Result Refusal ScopedNames
unfolding parse is_source
source_names = parse is_source "a store this contract knows"

abbrev pub in_scope : String → Group → Bool
in_scope namespace group = group.0 == "*" || group.0 == namespace

unfoldable pub matches : String → String → Bool
matches name pattern = elim (strip_suffix "*" pattern) [
  | some prefix ↦ if pattern == "*" then true else starts_with prefix name
  | none ↦ pattern == name
]

unfoldable pub scoped : String → List Group → List String
scoped namespace [] = []
scoped namespace (group ∷ more) =
    let rest = scoped namespace more in if in_scope namespace group then group.1 ++ rest else rest

unfoldable pub allows : ScopedNames → String → String → Bool
unfolding matches scoped
allows gate namespace name = any (matches name) (scoped namespace gate.groups)

unfoldable pub listing : ScopedNames → String → String
unfolding scoped join
listing gate namespace = join ", " (scoped namespace gate.groups)
