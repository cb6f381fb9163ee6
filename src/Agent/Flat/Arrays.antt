-- ===== src/Agent/Flat/Arrays.antt =====
-- dynamic-config-agent/src/render.rs: which documents the flat formats refuse.
use dynamic_config_k8s.Prelude.{
  true, true, true, true, true, true, String, ◌≡◌, refl, ◌∙◌, inl, inr, Bool, true, false, not,
  ◌&&◌, ◌||◌, List, [], ◌∷◌, ◌++◌, arith, Bool-cases, Result, ok, err, ◌>>=◌,
}
use dynamic_config_k8s.Prelude.Texts.{join}
use dynamic_config_k8s.Json.{
  is_object, Value, Fields, object, array, text, null, number, boolean, no_fields, field, has_array,
  has_array_field,
}
use dynamic_config_k8s.Agent.Flat.{
  assigned, properties_scalar, properties_line, ini_line, ini_scalar, walk, walk_fields, flat_ini,
  flat_properties, ini_lines, properties_lines, ini_sections, ini_section,
}

abbrev pub is_ok : {E A : Type 0} → Result E A → Bool
is_ok (ok _) = true
is_ok (err _) = false

-- A chain is fine exactly if its steps are, where the later one does not depend on what the first gave.
is_ok-bind :
    {E A B : Type 0} (m : Result E A) (f : A → Result E B) (fine : Bool)
    → ((a : A) → is_ok (f a) ≡ fine)
    → is_ok (m >>= f) ≡ is_ok m && fine
is_ok-bind (ok a) f fine h = h a
is_ok-bind (err e) f fine h = refl

not_or : (a b : Bool) → not a && not b ≡ not (a || b)
not_or a b = ground arith

module _ {X : Type 0} (line : List String → Value → X) where
  mutual
    unfolding walk has_array

    pub is_ok-walk :
        (path : List String) (v : Value)
        → is_ok (walk (λ p w. ok (line p w)) path v) ≡ not (has_array v)
    is_ok-walk path null = refl
    is_ok-walk path (boolean _) = refl
    is_ok-walk path (number _) = refl
    is_ok-walk path (text _) = refl
    is_ok-walk path (array _) = refl
    is_ok-walk path (object fields) = is_ok-walk_fields path fields

    is_ok-walk_fields :
        (path : List String) (fields : Fields)
        → is_ok (walk_fields (λ p w. ok (line p w)) path fields) ≡ not (has_array_field fields)
    is_ok-walk_fields path no_fields = refl
    is_ok-walk_fields path (field key inner more) =
        let rest : Bool = is_ok (walk_fields (λ p w. ok (line p w)) path more) in
        rw
          (
            is_ok-bind (walk (λ p w. ok (line p w)) (path ++ key ∷ []) inner) _ rest (λ here.
                is_ok-bind (walk_fields (λ p w. ok (line p w)) path more) _ true (λ later. refl)
                ∙ ground arith),
            is_ok-walk (path ++ key ∷ []) inner,
            is_ok-walk_fields path more,
          )
          (not_or (has_array inner) (has_array_field more))

module _ (to_string : Value → String) where
  -- `.properties` refuses a document exactly if an array is somewhere in it
  pub is_ok-flat_properties : (v : Value) → is_ok (flat_properties to_string v) ≡ not (has_array v)
  unfolding flat_properties properties_lines
  is_ok-flat_properties v =
      rw
        (
          is_ok-bind (walk (properties_line to_string) [] v) _ true (λ lines. refl),
          is_ok-walk (λ path w. assigned to_string (join "." path) (properties_scalar to_string w))
              [] v,
        )
        (ground arith)

  -- an array in a table of the root
  abbrev pub array_in_table : Fields → Bool
  array_in_table no_fields = false
  array_in_table (field key inner more) =
      (is_object inner && has_array inner) || array_in_table more

  is_ok-ini_section :
      (key : String) (v : Value) → is_ok (ini_section to_string key v) ≡ not (has_array v)
  unfolding ini_section
  is_ok-ini_section key v =
      rw
        (
          is_ok-bind (walk (ini_line to_string) [] v) _ true (λ lines. refl),
          is_ok-walk (λ path w. assigned to_string (join "." path) (ini_scalar to_string w)) [] v,
        )
        (ground arith)

  is_ok-ini_sections :
      (fields : Fields) → is_ok (ini_sections to_string fields) ≡ not (array_in_table fields)
  unfolding ini_sections
  is_ok-ini_sections no_fields = refl
  is_ok-ini_sections (field key inner more) =
      let rest = is_ok (ini_sections to_string more) in
      let both =
        is_ok-bind (ini_section to_string key inner)
          (λ here. ini_sections to_string more >>= λ later. ok (here ++ later)) rest
          (λ here.
            is_ok-bind (ini_sections to_string more) _ true (λ later. refl) ∙ ground arith) in
      elim (Bool-cases (is_object inner)) [
        | inl e ↦ ground (arith, both, is_ok-ini_section key inner, is_ok-ini_sections more)
        | inr e ↦ ground (arith, is_ok-ini_sections more)
      ]

  -- the documents that `.ini` refuses
  abbrev pub ini_refuses : Value → Bool
  ini_refuses (object fields) = array_in_table fields
  ini_refuses _ = true

  is_ok-ini_lines : (v : Value) → is_ok (ini_lines to_string v) ≡ not (ini_refuses v)
  unfolding ini_lines
  is_ok-ini_lines null = refl
  is_ok-ini_lines (boolean _) = refl
  is_ok-ini_lines (number _) = refl
  is_ok-ini_lines (text _) = refl
  is_ok-ini_lines (array _) = refl
  is_ok-ini_lines (object fields) =
      is_ok-bind (ini_sections to_string fields) _ true (λ lines. refl)
      ∙ rw (is_ok-ini_sections fields) (ground arith)

  -- `.ini` takes tables, and refuses one exactly if an array is below a table of its root: an array that
  -- is a field of the root itself is written.
  pub is_ok-flat_ini : (v : Value) → is_ok (flat_ini to_string v) ≡ not (ini_refuses v)
  unfolding flat_ini
  is_ok-flat_ini v =
      is_ok-bind (ini_lines to_string v) _ true (λ lines. refl)
      ∙ rw (is_ok-ini_lines v) (ground arith)
