-- ===== src/Json/Pointers.antt =====
-- Reading a value at a path of keys, and the parts of a table that names no key twice.
use dynamic_config_k8s.Prelude.{
  String, ◌≡◌, refl, Bool, true, false, ◌&&◌, Option, none, some, List, [], ◌∷◌, arith, ◌==◌,
  eq_iff, eq_refl,
}
use dynamic_config_k8s.Prelude.Texts.{is_none}
use dynamic_config_k8s.Json.{
  is_object, Value, Fields, object, array, text, null, number, boolean, no_fields, field, keyed,
  keyed_fields, pointer, get, field_of,
}

-- a field that is found first under its own name, and one that is found past another name
pub pointer-here :
    (key : String) (keys : List String) (inner : Value) (more : Fields)
    → pointer (key ∷ keys) (object (field key inner more)) ≡ pointer keys inner
unfolding pointer get field_of
pointer-here key keys inner more = ground (arith, eq_refl key)

pub pointer-later :
    (key name : String) (keys : List String) (inner : Value) (more : Fields) (w : Value)
    → field_of key more ≡ none
    → pointer (name ∷ keys) (object more) ≡ some w
    → pointer (name ∷ keys) (object (field key inner more)) ≡ some w
unfolding pointer get field_of
pointer-later key name keys inner more w h e = ground (arith, eq_iff key name)

pub and-parts : (a b : Bool) → a && b ≡ true → (a ≡ true) × (b ≡ true)
and-parts a b h = ground arith

pub none-is_none : {A : Type 0} (o : Option A) → is_none o ≡ true → o ≡ none
none-is_none none h = refl
none-is_none (some _) h = ground arith

pub keyed-parts :
    (key : String) (inner : Value) (more : Fields)
    → keyed_fields (field key inner more) ≡ true
    → (field_of key more ≡ none) × (keyed inner ≡ true) × (keyed_fields more ≡ true)
unfolding keyed
keyed-parts key inner more h =
    let (front, later) =
      and-parts (is_none (field_of key more) && keyed inner) (keyed_fields more) h in
    let (first, here) = and-parts (is_none (field_of key more)) (keyed inner) front in
    (none-is_none (field_of key more) first, here, later)

pub pointer-root : (v w : Value) → pointer [] v ≡ some w → v ≡ w
unfolding pointer
pointer-root v w e = cc

pub pointer-leaf :
    (v : Value) (name : String) (keys : List String)
    → is_object v ≡ false
    → pointer (name ∷ keys) v ≡ none
unfolding pointer get
pointer-leaf null name keys h = refl
pointer-leaf (boolean _) name keys h = refl
pointer-leaf (number _) name keys h = refl
pointer-leaf (text _) name keys h = refl
pointer-leaf (array _) name keys h = refl
pointer-leaf (object _) name keys h = cc

pub pointer-empty :
    (name : String) (keys : List String) → pointer (name ∷ keys) (object no_fields) ≡ none
unfolding pointer get field_of
pointer-empty name keys = refl

pub pointer-same :
    (key name : String) (keys : List String) (inner : Value) (more : Fields) (w : Value)
    → key == name ≡ true
    → pointer (name ∷ keys) (object (field key inner more)) ≡ some w
    → pointer keys inner ≡ some w
unfolding pointer get field_of
pointer-same key name keys inner more w h e = ground arith

pub pointer-other :
    (key name : String) (keys : List String) (inner : Value) (more : Fields) (w : Value)
    → key == name ≡ false
    → pointer (name ∷ keys) (object (field key inner more)) ≡ some w
    → pointer (name ∷ keys) (object more) ≡ some w
unfolding pointer get field_of
pointer-other key name keys inner more w h e = ground arith
