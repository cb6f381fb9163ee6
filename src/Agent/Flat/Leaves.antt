-- ===== src/Agent/Flat/Leaves.antt =====
-- dynamic-config-agent/src/render.rs, `walk_env`: what is emitted is the leaves of the document, all of
-- them, each under its path.
use mathlib.Core.List.{append-nil, append_assoc}
use dynamic_config_k8s.Prelude.{
  ℕ, ◌+◌, length, length-append, Some-back, Some, Some-front, String, ◌≡◌, refl, sym, ap, ◌∙◌,
  subst, inl, inr, true, false, some, List, [], ◌∷◌, ◌++◌, Bool-cases, ◌==◌, eq_iff, All,
  All-append,
}
use dynamic_config_k8s.Json.{
  is_object, Value, Fields, object, array, text, null, number, boolean, no_fields, field, keyed,
  keyed_fields, pointer,
}
use dynamic_config_k8s.Json.Pointers.{
  pointer-here, pointer-later, keyed-parts, pointer-root, pointer-leaf, pointer-empty, pointer-same,
  pointer-other,
}
use dynamic_config_k8s.Agent.Flat.{walk_env, walk_env_fields}

-- how many leaves a value has: a table is none, whatever else is one
mutual
  pub leaves : Value → ℕ
  leaves (object fields) = leaves_in fields
  leaves null = 1
  leaves (boolean _) = 1
  leaves (number _) = 1
  leaves (text _) = 1
  leaves (array _) = 1

  leaves_in : Fields → ℕ
  leaves_in no_fields = 0
  leaves_in (field _ inner more) = leaves inner + leaves_in more

module _ {X : Type 0} (emit : List String → Value → X) where
  mutual
    unfolding walk_env leaves

    pub length-walk_env :
        (path : List String) (v : Value) → length (walk_env emit path v) ≡ leaves v
    length-walk_env path (object fields) = length-walk_env_fields path fields
    length-walk_env path null = refl
    length-walk_env path (boolean _) = refl
    length-walk_env path (number _) = refl
    length-walk_env path (text _) = refl
    length-walk_env path (array _) = refl

    length-walk_env_fields :
        (path : List String) (fields : Fields)
        → length (walk_env_fields emit path fields) ≡ leaves_in fields
    length-walk_env_fields path no_fields = refl
    length-walk_env_fields path (field key inner more) =
        length-append (walk_env emit (path ++ key ∷ []) inner) (walk_env_fields emit path more)
        ∙ ap (λ n. n + length (walk_env_fields emit path more))
            (length-walk_env (path ++ key ∷ []) inner)
        ∙ ap (λ n. leaves inner + n) (length-walk_env_fields path more)

module _ {X : Type 0} (emit : List String → Value → X) (P : X → Type 0) where
  -- whatever is emitted for a leaf below a path has the property
  abbrev Everywhere : List String → Value → Type 0
  Everywhere path v =
      (keys : List String) (w : Value)
      → pointer keys v ≡ some w
      → is_object w ≡ false
      → P (emit (path ++ keys) w)

  abbrev EverywhereIn : List String → Fields → Type 0
  EverywhereIn path fields =
      (name : String) (keys : List String) (w : Value)
      → pointer (name ∷ keys) (object fields) ≡ some w
      → is_object w ≡ false
      → P (emit (path ++ name ∷ keys) w)

  mutual
    unfolding walk_env keyed pointer

    pub All-walk_env :
        (path : List String) (v : Value)
        → keyed v ≡ true
        → Everywhere path v
        → All P (walk_env emit path v)
    All-walk_env path null k h =
        (subst (λ p. P (emit p null)) (append-nil path) (h [] null refl refl), tt)
    All-walk_env path (boolean b) k h =
        (subst (λ p. P (emit p (boolean b))) (append-nil path) (h [] (boolean b) refl refl), tt)
    All-walk_env path (number n) k h =
        (subst (λ p. P (emit p (number n))) (append-nil path) (h [] (number n) refl refl), tt)
    All-walk_env path (text s) k h =
        (subst (λ p. P (emit p (text s))) (append-nil path) (h [] (text s) refl refl), tt)
    All-walk_env path (array vs) k h =
        (subst (λ p. P (emit p (array vs))) (append-nil path) (h [] (array vs) refl refl), tt)
    All-walk_env path (object fields) k h =
        All-walk_env_fields path fields k (λ name keys w e leaf. h (name ∷ keys) w e leaf)

    All-walk_env_fields :
        (path : List String) (fields : Fields)
        → keyed_fields fields ≡ true
        → EverywhereIn path fields
        → All P (walk_env_fields emit path fields)
    All-walk_env_fields path no_fields k h = tt
    All-walk_env_fields path (field key inner more) k h =
        let parts = keyed-parts key inner more k in
        All-append P (walk_env emit (path ++ key ∷ []) inner) (walk_env_fields emit path more) (
          All-walk_env (path ++ key ∷ []) inner parts.1 (λ keys w e leaf.
              subst (λ p. P (emit p w)) (sym (append_assoc path (key ∷ []) keys))
                (h key keys w (pointer-here key keys inner more ∙ e) leaf)),
          All-walk_env_fields path more parts.2 (λ name keys w e leaf.
              h name keys w (pointer-later key name keys inner more w parts.0 e) leaf),
        )

-- Every leaf is emitted under its path.
module _ {X : Type 0} (emit : List String → Value → X) where
  -- a leaf at the end of its path, and a path that goes on past a leaf
  at_leaf :
      (v : Value) (path keys : List String) (w : Value)
      → is_object v ≡ false
      → pointer keys v ≡ some w
      → emit path v ≡ emit (path ++ keys) w
  at_leaf v path [] w flat e =
      ap (λ p. emit p v) (sym (append-nil path)) ∙ ap (emit (path ++ [])) (pointer-root v w e)
  at_leaf v path (name ∷ keys) w flat e = cc (pointer-leaf v name keys flat, e)

  abbrev Emits : List String → List String → Value → List X → Type 0
  Emits path keys w xs = Some (λ x. x ≡ emit (path ++ keys) w) xs

  mutual
    unfolding walk_env

    pub Some-walk_env :
        (v : Value) (path keys : List String) (w : Value)
        → pointer keys v ≡ some w
        → is_object w ≡ false
        → Emits path keys w (walk_env emit path v)
    Some-walk_env null path keys w e leaf = inl (at_leaf null path keys w refl e)
    Some-walk_env (boolean b) path keys w e leaf = inl (at_leaf (boolean b) path keys w refl e)
    Some-walk_env (number n) path keys w e leaf = inl (at_leaf (number n) path keys w refl e)
    Some-walk_env (text s) path keys w e leaf = inl (at_leaf (text s) path keys w refl e)
    Some-walk_env (array vs) path keys w e leaf = inl (at_leaf (array vs) path keys w refl e)
    Some-walk_env (object fields) path [] w e leaf =
        cc (ap is_object (pointer-root (object fields) w e), leaf)
    Some-walk_env (object fields) path (name ∷ keys) w e leaf =
        Some-walk_env_fields fields path name keys w e leaf

    Some-walk_env_fields :
        (fields : Fields) (path : List String) (name : String) (keys : List String) (w : Value)
        → pointer (name ∷ keys) (object fields) ≡ some w
        → is_object w ≡ false
        → Emits path (name ∷ keys) w (walk_env_fields emit path fields)
    Some-walk_env_fields no_fields path name keys w e leaf = cc (pointer-empty name keys, e)
    Some-walk_env_fields (field key inner more) path name keys w e leaf =
        elim (Bool-cases (key == name)) [
          | inl same ↦
              Some-front _ (walk_env emit (path ++ key ∷ []) inner) (walk_env_fields emit path more)
                (subst (λ p. Some (λ x. x ≡ emit p w) (walk_env emit (path ++ key ∷ []) inner))
                  (append_assoc path (key ∷ []) keys
                    ∙ ap (λ k. path ++ k ∷ keys) ((eq_iff key name).0 same))
                  (Some-walk_env inner (path ++ key ∷ []) keys w
                    (pointer-same key name keys inner more w same e) leaf))
          | inr other ↦
              Some-back _ (walk_env emit (path ++ key ∷ []) inner) (walk_env_fields emit path more)
                (Some-walk_env_fields more path name keys w
                  (pointer-other key name keys inner more w other e) leaf)
        ]
