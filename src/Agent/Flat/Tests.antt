-- ===== src/Agent/Flat/Tests.antt =====
-- Runs of the flat formats of dynamic-config-agent/src/render.rs.
use dynamic_config_k8s.Prelude.Texts.{head_is, all_chars}
use dynamic_config_k8s.Agent.Flat.Escapes.{read_value, OnLine, begins_blank}
use dynamic_config_k8s.Agent.Flat.Leaves.{leaves}
use dynamic_config_k8s.Prelude.{length}
use dynamic_config_k8s.Prelude.{String, ◌≡◌, refl, true, false, not, [], ◌∷◌, All, ok, err}
use dynamic_config_k8s.Prelude.Texts.{
  join, all_chars, split_once, digits_value, empty_text, replace, any_char, map_chars, char_in,
}
use dynamic_config_k8s.Prelude.Texts.Laws.{HasNo}
use dynamic_config_k8s.Json.{
  keyed, field_of, Value, object, array, number, boolean, no_values, next, no_fields, field,
}
use dynamic_config_k8s.Agent.Flat.{
  properties_scalar, flat_ini, flat_properties, env_entries, array_at, parses_f64, parses_i64,
}
use dynamic_config_k8s.Agent.Flat.Entries.{IsVariable, HasLeaves, env_name, env_entries-IsExact}
use dynamic_config_k8s.Agent.Flat.Escapes.{unescaped-properties_scalar}
use dynamic_config_k8s.Agent.Flat.Blame.{Blames, flat_properties-Blames}
use dynamic_config_k8s.Agent.Flat.Arrays.{is_ok, ini_refuses, is_ok-flat_ini}

-- the compact text of the values below, and of no others
abbrev shown : Value → String
shown (number n) = n
shown (boolean true) = "true"
shown (boolean false) = "false"
shown (array _) = "[1]"
shown _ = "null"

abbrev document : Value
document = object (
    field "host" (Value.text "db")
      (field "pool" (object (field "max_size" (number "8") no_fields)) no_fields))

abbrev listed : Value
listed = object (field "hosts" (array (next (number "1") no_values)) no_fields)

abbrev nested : Value
nested = object (field "db" listed no_fields)

properties_document : flat_properties shown document ≡ ok "host = db\npool.max_size = 8\n"
unfolding flat_properties replace join
properties_document = refl

ini_document : flat_ini shown document ≡ ok "host = db\n\n[pool]\nmax_size = 8\n"
unfolding flat_ini any_char parses_f64 parses_i64 join all_chars split_once map_chars char_in
    digits_value empty_text
ini_document = refl

-- An array at the root of an INI document is written.
ini_listed : flat_ini shown listed ≡ ok "hosts = [1]\n"
unfolding flat_ini join
ini_listed = refl

env_document : env_entries shown document ≡ ("HOST", "db") ∷ ("POOL_MAX_SIZE", "8") ∷ []
unfolding env_entries map_chars char_in join
env_document = refl

version_widens : parses_f64 "1.10" ≡ true
unfolding parses_f64 split_once all_chars empty_text map_chars char_in
version_widens = refl

is_ok-flat_ini_example : is_ok (flat_ini shown nested) ≡ not (ini_refuses shown nested)
is_ok-flat_ini_example = is_ok-flat_ini shown nested

document-keyed : keyed document ≡ true
unfolding keyed field_of
document-keyed = refl

nested-keyed : keyed nested ≡ true
unfolding keyed field_of
nested-keyed = refl

nested-refused : flat_properties shown nested ≡ err (array_at "db.hosts")
unfolding flat_properties join
nested-refused = refl

env_entries-IsExact_example :
    All (IsVariable shown document) (env_entries shown document)
    × HasLeaves shown env_name document (env_entries shown document)
    × (length (env_entries shown document) ≡ leaves document)
env_entries-IsExact_example = env_entries-IsExact shown document document-keyed

not_blank : begins_blank "a=b:c\\d\n" ≡ false
unfolding head_is
not_blank = refl

no_return : HasNo 13 "a=b:c\\d\n"
unfolding all_chars
no_return = refl

unescaped-properties_scalar_example :
    (read_value (properties_scalar shown (Value.text "a=b:c\\d\n")) ≡ "a=b:c\\d\n")
    × OnLine (properties_scalar shown (Value.text "a=b:c\\d\n"))
unescaped-properties_scalar_example =
    unescaped-properties_scalar shown "a=b:c\\d\n" not_blank no_return

flat_properties-Blames_example : Blames [] nested (array_at "db.hosts")
flat_properties-Blames_example =
    flat_properties-Blames shown nested (array_at "db.hosts") nested-keyed nested-refused
