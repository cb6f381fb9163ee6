-- ===== src/Json.antt =====
-- `serde_json::Value`, as the programs read it: lists of values and of
-- fields are data types of their own, and a number is its text.
pub mod Pointers
use dynamic_config_k8s.Prelude.Texts.{is_none}
use dynamic_config_k8s.Prelude.{
  true, false, ◌&&◌, ◌||◌, String, Bool, Option, none, some, List, [], ◌∷◌, if◌then◌else◌, ◌==◌,
}

mutual
  pub data Value : Type 0 where
    null : Value
    boolean : Bool → Value
    number text : String → Value
    array : Values → Value
    object : Fields → Value

  pub data Values : Type 0 where
    no_values : Values
    next : Value → Values → Values

  pub data Fields : Type 0 where
    no_fields : Fields
    field : String → Value → Fields → Fields

unfoldable pub field_of : String → Fields → Option Value
field_of key no_fields = none
field_of key (field name held more) =
    let later = field_of key more in if name == key then some held else later

-- `value.get(key)`
unfoldable pub get : String → Value → Option Value
unfolding field_of
get key (object fields) = field_of key fields
get key _ = none

-- `value.pointer("/a/b")`, as its keys
unfoldable pub pointer : List String → Value → Option Value
unfolding get
pointer [] v = some v
pointer (key ∷ keys) v = elim (get key v) [ none ↦ none | some held ↦ pointer keys held ]

abbrev pub as_text : Option Value → Option String
as_text (some (text s)) = some s
as_text _ = none

abbrev pub as_array : Option Value → Option Values
as_array (some (array values)) = some values
as_array _ = none

-- the texts of an array
unfoldable pub texts : Values → List String
texts no_values = []
texts (next (text s) more) = s ∷ texts more
texts (next _ more) = texts more

abbrev pub is_object : Value → Bool
is_object (object _) = true
is_object _ = false

-- an array somewhere below the tables of a value
unfoldable mutual
  pub has_array : Value → Bool
  has_array (array _) = true
  has_array (object fields) = has_array_field fields
  has_array _ = false

  pub has_array_field : Fields → Bool
  has_array_field no_fields = false
  has_array_field (field key inner more) = has_array inner || has_array_field more

-- no table names a key twice, as in any value that was parsed
unfoldable mutual
  pub keyed : Value → Bool
  keyed (object fields) = keyed_fields fields
  keyed _ = true

  pub keyed_fields : Fields → Bool
  keyed_fields no_fields = true
  keyed_fields (field key inner more) =
      is_none (field_of key more) && keyed inner && keyed_fields more
