-- ===== src/Agent/Flat/Blame.antt =====
-- dynamic-config-agent/src/render.rs, `walk`: what a refusal says.
use mathlib.Core.List.{append-nil, append_assoc}
use dynamic_config_k8s.Prelude.{
  >>=-eq-err, err-injective, String, ◌≡◌, refl, sym, ap, ◌∙◌, inl, inr, true, some, List, [], ◌∷◌,
  ◌++◌, Result, ok, err,
}
use dynamic_config_k8s.Prelude.Texts.{join}
use dynamic_config_k8s.Json.{
  Value, Values, Fields, object, array, text, null, number, boolean, no_fields, field, keyed,
  keyed_fields, pointer,
}
use dynamic_config_k8s.Json.Pointers.{pointer-here, pointer-later, keyed-parts}
use dynamic_config_k8s.Agent.Flat.{
  Refused, array_at, walk, walk_fields, flat_properties, properties_lines, properties_scalar,
  properties_line, assigned,
}

-- the refusal names the path of an array that is there
abbrev pub Blames : List String → Value → Refused → Type 0
Blames path v why =
    (keys : List String) × (items : Values) × (pointer keys v ≡ some (array items))
    × (why ≡ array_at (join "." (path ++ keys)))

module _ {X : Type 0} (line : List String → Value → X) where
  abbrev emit : List String → Value → Result Refused X
  emit path v = ok (line path v)

  mutual
    unfolding walk keyed pointer

    pub walk-Blames :
        (path : List String) (v : Value) (why : Refused)
        → keyed v ≡ true
        → walk emit path v ≡ err why
        → Blames path v why
    walk-Blames path null why k e = cc
    walk-Blames path (boolean _) why k e = cc
    walk-Blames path (number _) why k e = cc
    walk-Blames path (text _) why k e = cc
    walk-Blames path (array items) why k e = (
      [],
      items,
      refl,
      sym (err-injective e) ∙ ap (λ p. array_at (join "." p)) (sym (append-nil path)),
    )
    walk-Blames path (object fields) why k e =
        let (name, keys, items, found, same) = walk_fields-Blames path fields why k e in
        (name ∷ keys, items, found, same)

    walk_fields-Blames :
        (path : List String) (fields : Fields) (why : Refused)
        → keyed_fields fields ≡ true
        → walk_fields emit path fields ≡ err why
        → (name : String) × (keys : List String) × (items : Values) × (pointer
              (name ∷ keys)
              (object fields)
            ≡ some (array items))
          × (why ≡ array_at (join "." (path ++ name ∷ keys)))
    walk_fields-Blames path no_fields why k e = cc
    walk_fields-Blames path (field key inner more) why k e =
        let parts = keyed-parts key inner more k in
        elim (>>=-eq-err (walk emit (path ++ key ∷ []) inner) _ e) [
          | inl here ↦
              let (keys, items, found, same) =
                walk-Blames (path ++ key ∷ []) inner why parts.1 here in
              (
                key,
                keys,
                items,
                pointer-here key keys inner more ∙ found,
                same ∙ ap (λ p. array_at (join "." p)) (append_assoc path (key ∷ []) keys),
              )
          | inr (_, _, rest) ↦ elim (>>=-eq-err (walk_fields emit path more) _ rest) [
            | inl later ↦
                let (name, keys, items, found, same) =
                  walk_fields-Blames path more why parts.2 later in
                (
                  name,
                  keys,
                  items,
                  pointer-later key name keys inner more (array items) parts.0 found,
                  same,
                )
            | inr (_, _, over) ↦ cc
          ]
        ]

-- A document, its tables naming no key twice, that `.properties` refuses has an array at the very path
-- that the refusal names.
pub flat_properties-Blames :
    (to_string : Value → String) (v : Value) (why : Refused)
    → keyed v ≡ true
    → flat_properties to_string v ≡ err why
    → Blames [] v why
unfolding flat_properties properties_lines
flat_properties-Blames to_string v why k e =
    elim (>>=-eq-err (walk (properties_line to_string) [] v) _ e) [
      | inl walked ↦
          walk-Blames (λ path w. assigned to_string (join "." path) (properties_scalar to_string w))
            [] v why k walked
      | inr (_, _, over) ↦ cc
    ]
