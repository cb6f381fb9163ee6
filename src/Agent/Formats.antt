-- ===== src/Agent/Formats.antt =====
-- dynamic-config-agent/src/render.rs, `OutputFormat`: the extension of a path picks the format. The
-- parts of a path are those of `std::path::Path`.
use dynamic_config_k8s.Prelude.{
  String, not, ◌||◌, Option, none, some, List, [], ◌∷◌, if◌then◌else◌, ◌==◌, filter,
}
use dynamic_config_k8s.Prelude.Texts.{split, rsplit_once, empty_text}
use dynamic_config_k8s.Agent.Files.{FilePath}

abbrev last_of : List String → Option String
last_of [] = none
last_of (name ∷ []) = some name
last_of (_ ∷ name ∷ more) = last_of (name ∷ more)

-- the last component, unless it is `..`
unfoldable pub file_name : FilePath → Option String
unfolding split empty_text
file_name path =
    elim (last_of (filter (λ name. not (empty_text name || name == ".")) (split b'/' path))) [
      | none ↦ none
      | some name ↦ if name == ".." then none else some name
    ]

-- what follows the last point, unless the name starts with it
abbrev after_point : String → Option String
after_point name = elim (rsplit_once b'.' name) [
  | none ↦ none
  | some (before, after) ↦ if empty_text before then none else some after
]

unfoldable pub extension : FilePath → Option String
unfolding file_name rsplit_once
extension path = elim (file_name path) [ none ↦ none | some name ↦ after_point name ]

pub data OutputFormat : Type 0 where
  json toml yaml ini properties : OutputFormat

abbrev format_named : String → Option OutputFormat
format_named name =
    if name == "json"
    then some json
    else if name == "toml"
    then some toml
    else if name == "yaml" || name == "yml"
    then some yaml
    else if name == "ini"
    then some ini
    else if name == "properties"
    then some properties
    else none

unfoldable pub of : FilePath → Option OutputFormat
unfolding extension
of path = elim (extension path) [ none ↦ none | some name ↦ format_named name ]
