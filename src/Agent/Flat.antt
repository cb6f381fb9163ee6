-- ===== src/Agent/Flat.antt =====
-- dynamic-config-agent/src/render.rs, the flat formats: `walk`, `flat`, `env_entries` and
-- `verbatim_entries`. What an `emit` pushes is the result, in the order of the pushes; a path that the
-- source pushes to and pops from is an argument. `to_string` is the compact text of a value, which the
-- serde_json crate writes.
mod Arrays
mod Blame
mod Leaves
mod Entries
mod Escapes
mod Tests
use Prim.Native.Char.{Char, code}
use Prim.Native.String.{[] as nil_text, ◌∷◌ as cons_text}
use dynamic_config_k8s.Prelude.{
  true, true, true, true, true, true, ◌+◌, ◌-◌, ◌^◌, String, Bool, true, false, not, ◌&&◌, ◌||◌,
  none, some, List, [], ◌∷◌, ◌++◌, ltb, leb, nat_eq, if◌then◌else◌, ◌==◌, Result, ok, err, ◌>>=◌,
  ◌>>◌,
}
use dynamic_config_k8s.Prelude.Texts.{
  ◌⊕◌, join, replace, any_char, all_chars, is_digit, is_upper, is_lower, empty_text, ascii_upper,
  map_chars, split_once, digits_value,
}
use dynamic_config_k8s.Json.{is_object, Value, Fields, object, array, text, null, no_fields, field}

pub data Refused : Type 0 where
  array_at : String → Refused
  no_table : Refused

-- the nested fields of a document, each leaf through `emit`; an array ends the walk
module _ {X : Type 0} (emit : List String → Value → Result Refused X) where
  unfoldable mutual
    pub walk : List String → Value → Result Refused (List X)
    walk path (object fields) = walk_fields path fields
    walk path (array _) = err (array_at (join "." path))
    walk path scalar = do line ← emit path scalar; ok (line ∷ [])

    pub walk_fields : List String → Fields → Result Refused (List X)
    walk_fields path no_fields = ok []
    walk_fields path (field key inner more) = do
      here ← walk (path ++ key ∷ []) inner
      later ← walk_fields path more
      ok (here ++ later)

-- the same with arrays as leaves; no `emit` of it fails
module _ {X : Type 0} (emit : List String → Value → X) where
  unfoldable mutual
    pub walk_env : List String → Value → List X
    walk_env path (object fields) = walk_env_fields path fields
    walk_env path leaf = emit path leaf ∷ []

    pub walk_env_fields : List String → Fields → List X
    walk_env_fields path no_fields = []
    walk_env_fields path (field key inner more) =
        walk_env (path ++ key ∷ []) inner ++ walk_env_fields path more

-- the four passes of `replace`: backslash, `=`, `:` and the newline
abbrev pub escaped : String → String
escaped s = replace 10 "\\n" (replace 58 "\\:" (replace 61 "\\=" (replace 92 "\\\\" s)))

abbrev pub env_char : Char → Char
env_char c =
    if is_lower (code c) || is_upper (code c) || is_digit (code c) then ascii_upper c else "_"

-- what `str::parse` takes: a sign at most, and the digits of a number
abbrev unsigned : String → String
unsigned nil_text = ""
unsigned (cons_text c s) = if nat_eq (code c) b'+' || nat_eq (code c) b'-' then s else cons_text c s

abbrev is_negative : String → Bool
is_negative nil_text = false
is_negative (cons_text c s) = nat_eq (code c) b'-'

abbrev digits : String → Bool
digits s = all_chars is_digit s && not (empty_text s)

-- `i64::from_str`
unfoldable pub parses_i64 : String → Bool
parses_i64 s = digits (unsigned s) && elim (digits_value 10 0 (unsigned s)) [
  | none ↦ false
  | some n ↦ if is_negative s then leb n (2 ^ 63) else ltb n (2 ^ 63)
]

abbrev mantissa : String → Bool
mantissa s = elim (split_once b'.' s) [
  | none ↦ digits s
  | some (whole, part) ↦
      all_chars is_digit whole
      && all_chars is_digit part
      && not (empty_text whole && empty_text part)
]

abbrev exponent : Char → Char
exponent c = if nat_eq (code c) b'E' then "e" else c

-- `f64::from_str`: a number with a point and an exponent, or one of the three words
unfoldable pub parses_f64 : String → Bool
parses_f64 s =
    let body = unsigned s in
    let word = map_chars ascii_upper body in
    word == "INF"
    || word == "INFINITY"
    || word == "NAN"
    || elim (split_once b'e' (map_chars exponent body)) [
      | none ↦ mantissa body
      | some (front, power) ↦ mantissa front && digits (unsigned power)
    ]

abbrev pub widens : String → Bool
widens s = s == "true" || s == "false" || parses_i64 s || parses_f64 s

module _ (to_string : Value → String) where
  unfoldable pub properties_scalar : Value → String
  unfolding replace
  properties_scalar (text s) = escaped s
  properties_scalar other = to_string other

  unfoldable pub ini_scalar : Value → String
  unfolding replace parses_i64 parses_f64 any_char
  ini_scalar (text s) =
      if widens s || any_char (nat_eq 10) s then "\"" ⊕ replace b'"' "'" s ⊕ "\"" else s
  ini_scalar other = to_string other

  abbrev pub assigned : String → String → String
  assigned key value = key ⊕ " = " ⊕ value

  -- the scalars, and lists, at the root
  unfoldable pub ini_roots : Fields → List String
  unfolding ini_scalar
  ini_roots no_fields = []
  ini_roots (field key value more) =
      let rest = ini_roots more in
      if is_object value then rest else assigned key (ini_scalar value) ∷ rest

  abbrev pub ini_line : List String → Value → Result Refused String
  ini_line path scalar = ok (assigned (join "." path) (ini_scalar scalar))

  unfoldable pub ini_section : String → Value → Result Refused (List String)
  unfolding walk ini_scalar
  ini_section key value = do lines ← walk ini_line [] value; ok (("\n[" ⊕ key ⊕ "]") ∷ lines)

  -- one section for each table of the root
  unfoldable pub ini_sections : Fields → Result Refused (List String)
  unfolding ini_section
  ini_sections no_fields = ok []
  ini_sections (field key value more) =
      let rest = ini_sections more in
      if is_object value
      then (do here ← ini_section key value; later ← rest; ok (here ++ later))
      else rest

  unfoldable pub ini_lines : Value → Result Refused (List String)
  unfolding ini_roots ini_sections
  ini_lines (object fields) = do sections ← ini_sections fields; ok (ini_roots fields ++ sections)
  ini_lines _ = err no_table

  abbrev pub properties_line : List String → Value → Result Refused String
  properties_line path scalar = ok (assigned (join "." path) (properties_scalar scalar))

  unfoldable pub properties_lines : Value → Result Refused (List String)
  unfolding walk properties_scalar
  properties_lines document = walk properties_line [] document

  abbrev finished : List String → String
  finished lines = join "\n" lines ⊕ "\n"

  unfoldable pub flat_properties : Value → Result Refused String
  unfolding properties_lines
  flat_properties document = do lines ← properties_lines document; ok (finished lines)

  unfoldable pub flat_ini : Value → Result Refused String
  unfolding ini_lines
  flat_ini document = do lines ← ini_lines document; ok (finished lines)

  abbrev pub env_value : Value → String
  env_value (text s) = s
  env_value null = ""
  env_value other = to_string other

  abbrev pub env_entry : List String → Value → String × String
  env_entry path value = (map_chars env_char (join "_" path), env_value value)

  abbrev pub verbatim_entry : List String → Value → String × String
  verbatim_entry path value = (join "." path, env_value value)

  unfoldable pub env_entries : Value → List (String × String)
  unfolding walk_env
  env_entries document = walk_env env_entry [] document

  unfoldable pub verbatim_entries : Value → List (String × String)
  unfolding walk_env
  verbatim_entries document = walk_env verbatim_entry [] document
