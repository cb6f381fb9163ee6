-- ===== src/Agent/Flat/Entries.antt =====
-- dynamic-config-agent/src/render.rs, `env_entries` and `verbatim_entries`: the entries that a document
-- becomes.
use Prim.Native.Char.{Char, code}
use Prim.Native.String.{[] as nil_text, ◌∷◌ as cons_text}
use dynamic_config_k8s.Prelude.{
  length, Some, below-at, ℕ, ◌-◌, ◌<◌, String, ◌≡◌, refl, sym, subst, inl, inr, Bool, true, false,
  ◌||◌, some, List, [], arith, nat_eq, Bool-cases, All,
}
use dynamic_config_k8s.Prelude.Texts.{join, map_chars, char_in, all_chars, is_upper, is_digit}
use dynamic_config_k8s.Json.{is_object, Value, keyed, pointer}
use dynamic_config_k8s.Agent.Flat.Leaves.{length-walk_env, leaves, All-walk_env, Some-walk_env}
use dynamic_config_k8s.Agent.Flat.{
  is_lower, env_entries, verbatim_entries, env_value, verbatim_entry, env_entry, env_char,
}

-- an entry is the leaf of the document at some path, written as text under the path's own name
abbrev pub IsLeaf : (Value → String) → (List String → String) → Value → String × String → Type 0
IsLeaf to_string name v entry =
    (keys : List String) × (w : Value) × (pointer keys v ≡ some w)
    × (is_object w ≡ false)
    × (entry ≡ (name keys, env_value to_string w))

-- every leaf of the document has its entry
abbrev pub HasLeaves :
    (Value → String) → (List String → String) → Value → List (String × String) → Type 0
HasLeaves to_string name v entries =
    (keys : List String) (w : Value)
    → pointer keys v ≡ some w
    → is_object w ≡ false
    → Some (λ entry. entry ≡ (name keys, env_value to_string w)) entries

abbrev pub env_name : List String → String
env_name keys = map_chars env_char (join "_" keys)

abbrev env_name_char : ℕ → Bool
env_name_char c = is_upper c || is_digit c || nat_eq c b'_'

-- the upper-case letters, whichever character the table has for a position past its end
upper-at :
    (past : Char) (n : ℕ)
    → n < 26
    → is_upper (code (char_in past "ABCDEFGHIJKLMNOPQRSTUVWXYZ" n)) ≡ true
unfolding char_in
upper-at past n h =
    below-at 26 (λ i. is_upper (code (char_in past "ABCDEFGHIJKLMNOPQRSTUVWXYZ" i))) n refl h

env_char-IsName : (c : Char) → env_name_char (code (env_char c)) ≡ true
env_char-IsName c = elim (Bool-cases (is_lower (code c))) [
  | inl low ↦
      let same : env_char c ≡ char_in c "ABCDEFGHIJKLMNOPQRSTUVWXYZ" (code c - b'a') =
        ground arith in
      let upper : is_upper (code (env_char c)) ≡ true =
        subst (λ d. is_upper (code d) ≡ true) (sym same)
          (upper-at c (code c - b'a') (ground arith)) in
      ground (arith, upper)
  | inr other ↦ elim (Bool-cases (is_upper (code c) || is_digit (code c))) [
    | inl kept ↦
        let same : env_char c ≡ c = ground arith in
        subst (λ d. env_name_char (code d) ≡ true) (sym same) (ground arith)
    | inr foreign ↦
        let same : env_char c ≡ "_" = ground arith in
        subst (λ d. env_name_char (code d) ≡ true) (sym same) refl
  ]
]

env_name-chars : (s : String) → all_chars env_name_char (map_chars env_char s) ≡ true
unfolding all_chars map_chars
env_name-chars nil_text = refl
env_name-chars (cons_text c s) = ground (arith, env_char-IsName c, env_name-chars s)

abbrev pub IsVariable : (Value → String) → Value → String × String → Type 0
IsVariable to_string v entry =
    IsLeaf to_string env_name v entry × (all_chars env_name_char entry.0 ≡ true)

module _ (to_string : Value → String) (v : Value) (unique : keyed v ≡ true) where
  -- The entries of a document are its leaves: each entry is a leaf, under the name of its path, each leaf
  -- has its entry, and there are as many entries as leaves.
  pub verbatim_entries-IsExact :
      All (IsLeaf to_string (join ".") v) (verbatim_entries to_string v)
      × HasLeaves to_string (join ".") v (verbatim_entries to_string v)
      × (length (verbatim_entries to_string v) ≡ leaves v)
  unfolding verbatim_entries
  verbatim_entries-IsExact = (
    All-walk_env (verbatim_entry to_string) (IsLeaf to_string (join ".") v) [] v unique
        (λ keys w e leaf. (keys, w, e, leaf, refl)),
    λ keys w e leaf. Some-walk_env (verbatim_entry to_string) v [] keys w e leaf,
    length-walk_env (verbatim_entry to_string) [] v,
  )

  -- In a document whose tables name no key twice, the variables are its leaves: each is the value at some
  -- path that is no table, under a name that is made of that path, of upper-case letters, digits and
  -- underscores only; each leaf has its variable; and there are as many variables as leaves.
  pub env_entries-IsExact :
      All (IsVariable to_string v) (env_entries to_string v)
      × HasLeaves to_string env_name v (env_entries to_string v)
      × (length (env_entries to_string v) ≡ leaves v)
  unfolding env_entries
  env_entries-IsExact = (
    All-walk_env (env_entry to_string) (IsVariable to_string v) [] v unique
        (λ keys w e leaf. ((keys, w, e, leaf, refl), env_name-chars (join "_" keys))),
    λ keys w e leaf. Some-walk_env (env_entry to_string) v [] keys w e leaf,
    length-walk_env (env_entry to_string) [] v,
  )
