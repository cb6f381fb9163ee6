-- ===== src/NodeAgent/Volume.antt =====
-- dynamic-config-node-agent/src/publish.rs: the attributes of a volume become the agent's command line.
-- The map of attributes is a function from names to values.
pub mod Inside
pub mod Steps
pub mod Lines
pub mod Watches
mod Tests
use dynamic_config_k8s.Agent.Arguments.Fields
use dynamic_config_k8s.NodeAgent.Registry.{Document}
use dynamic_config_k8s.Webhook.Installation.{unwrap_or}
use dynamic_config_k8s.Agent.Arguments.Fields.{Spec, Environment}
use dynamic_config_k8s.Prelude.Texts.{path_join}
use dynamic_config_k8s.Agent.Arguments.{from_args}
use dynamic_config_k8s.Prelude.Texts.{split, empty_text, starts_with}
use dynamic_config_k8s.Prelude.{
  ◌+◌, ◌-◌, ◌/◌, String, Bool, not, ◌||◌, Option, none, some, List, [], ◌∷◌, ◌++◌, if◌then◌else◌,
  ◌==◌, any, Result, ok, ◌>>=◌, ◌>>◌, ensure, ok_or, map_err,
}

abbrev pub Attributes : Type 0
Attributes = String → Option String

-- why a volume is refused: by its attributes, or by the command line that they make
pub data Refused : Type 0 where
  attribute_required : (name : String) → Refused
  outside_volume : (path : String) → Refused
  refused_by : Fields.Refused → Refused

pub record Volume : Type 0 where
  pub out : String
  pub spec : Spec
  pub document : Document

-- `attributes.get(name).filter(|v| !v.is_empty())`
unfoldable pub given : Attributes → String → Option String
given attributes name = elim (attributes name) [
  | none ↦ none
  | some value ↦ if empty_text value then none else some value
]

abbrev pub want : Attributes → String → Result Refused String
want attributes name = ok_or (given attributes name) (attribute_required name)

abbrev pub climbs : String → Bool
climbs part = part == ".."

abbrev pub is_inside : String → Bool
is_inside relative = not (starts_with "/" relative || any climbs (split b'/' relative))

abbrev pub Pairs : Type 0
Pairs = List (String × String)

abbrev pub options : Pairs
options =
    ("endpoint", "--endpoint")
    ∷ ("section", "--section")
    ∷ ("auth", "--auth")
    ∷ ("auth-mount", "--auth-mount")
    ∷ ("auth-role", "--auth-role")
    ∷ ("auth-username", "--auth-username")
    ∷ ("namespace", "--namespace")
    ∷ ("ref", "--ref")
    ∷ ("api-url", "--api-url")
    ∷ ("file-mode", "--file-mode")
    ∷ ("watch-seconds", "--watch")
    ∷ []

unfoldable pub passed : Attributes → Pairs → Pairs
unfolding given
passed attributes [] = []
passed attributes ((attribute, flag) ∷ more) = elim (given attributes attribute) [
  | none ↦ passed attributes more
  | some value ↦ (flag, value) ∷ passed attributes more
]

-- flags and values, in one line
unfoldable pub line : Pairs → List String
line [] = []
line ((flag, value) ∷ more) = flag ∷ value ∷ line more

abbrev pub asks_watch : List String → Bool
asks_watch arguments = any (λ argument. argument == "--watch") arguments

-- a watch, always
unfoldable pub watched : List String → List String
watched arguments = if asks_watch arguments then arguments else arguments ++ "--watch" ∷ "15" ∷ []

abbrev pub asked : Attributes → String → String → String → Pairs
asked attributes source key out =
    ("--source", source) ∷ ("--key", key) ∷ ("--out", out) ∷ passed attributes options

unfoldable pub parse : Environment → String → Attributes → Result Refused Volume
unfolding given path_join starts_with split passed line watched from_args
parse env target attributes = do
  source ← want attributes "source"
  key ← want attributes "key"
  relative ← want attributes "path"
  ensure (is_inside relative) (outside_volume relative)
  let out = path_join target relative
  spec ← map_err refused_by (from_args env (watched (line (asked attributes source key out))))
  ok (record {
    out = out;
    spec = spec;
    document = record {
      source = source;
      endpoint = spec.endpoint;
      key = key;
      credential = unwrap_or (attributes "token-secret") "";
    };
  })
