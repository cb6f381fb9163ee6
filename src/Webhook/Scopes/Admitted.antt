-- ===== src/Webhook/Scopes/Admitted.antt =====
-- dynamic-config-webhook/src/annotations.rs: the names that a store gate and a variable gate let through.
use Prim.Native.Char.{code}
use Prim.Native.String.{[] as nil_text, ◌∷◌ as cons_text}
use dynamic_config_k8s.Prelude.{
  ℕ, String, ◌≡◌, refl, sym, subst, ◌⊎◌, inl, inr, Bool, true, false, List, [], ◌∷◌, arith,
  nat_eq_iff, Bool-cases, Option-cases, ◌==◌, eq_iff, any, all, All, All-append, ok,
}
use dynamic_config_k8s.Prelude.Texts.{head_is, starts_with, strip_suffix, strip_prefix, is_none}
use dynamic_config_k8s.Webhook.Scopes.{
  sources, is_source, Group, ScopedNames, env_head, env_pattern, env_names, source_names, matches,
  scoped, allows, parse,
}
use dynamic_config_k8s.Webhook.Scopes.Gates.{IsName, IsGroup, parse-IsGroup}

matches-star : (other : String) → matches other "*" ≡ true
unfolding matches strip_suffix
matches-star other = refl

matches_everything : (p other : String) → (p == "*") ≡ true → matches other p ≡ true
matches_everything p other h =
    subst (λ q. matches other q ≡ true) (sym ((eq_iff p "*").0 h)) (matches-star other)

module _ (valid : String → Bool) where
  scoped-IsName :
      (kind namespace : String) (groups : List Group)
      → All (IsGroup valid kind) groups
      → All (IsName valid kind) (scoped namespace groups)
  unfolding scoped
  scoped-IsName kind namespace [] h = tt
  scoped-IsName kind namespace (g ∷ more) h =
      let later = scoped-IsName kind namespace more h.1 in
      let joined = All-append (IsName valid kind) g.1 (scoped namespace more) (h.0.2, later) in
      ground (arith, later, joined)

  -- one pattern: a lone `*`, or one that the test accepts
  module _ (Q : String → Type 0)
      (sound : (p name : String)
        → valid p ≡ true
        → (p == "*") ≡ false
        → matches name p ≡ true
        → Q name) where
    any-matches :
        (kind name : String) (patterns : List String)
        → All (IsName valid kind) patterns
        → any (matches name) patterns ≡ true
        → Q name ⊎ ((other : String) → any (matches other) patterns ≡ true)
    any-matches kind name [] h e = cc
    any-matches kind name (p ∷ more) h e = elim (Bool-cases (p == "*")) [
      | inl star ↦ inr (λ other. rw (matches_everything p other star))
      | inr named ↦ elim (Bool-cases (matches name p)) [
        | inl hit ↦ inl (sound p name (ground arith) named hit)
        | inr miss ↦ elim (any-matches kind name more h.1 (ground arith)) [
          | inl q ↦ inl q
          | inr every ↦ inr (λ other. ground (arith, every other))
        ]
      ]
    ]

    admitted :
        (kind spec namespace name : String) (gate : ScopedNames)
        → parse valid kind spec ≡ ok gate
        → allows gate namespace name ≡ true
        → Q name ⊎ ((other : String) → allows gate namespace other ≡ true)
    unfolding allows
    admitted kind spec namespace name gate h e =
        any-matches kind name (scoped namespace gate.groups)
          (scoped-IsName kind namespace gate.groups (parse-IsGroup valid kind spec gate h)) e

all_of_any :
    (q : String → Bool) (p : String) (xs : List String)
    → any (λ s. s == p) xs ≡ true
    → all q xs ≡ true
    → q p ≡ true
all_of_any q p [] h e = cc
all_of_any q p (x ∷ xs) h e = ground (arith, eq_iff x p, all_of_any q p xs)

source-plain : (p : String) → is_source p ≡ true → is_none (strip_suffix "*" p) ≡ true
unfolding is_source strip_suffix
source-plain p h = all_of_any (λ s. is_none (strip_suffix "*" s)) p sources h refl

source-matches :
    (p name : String)
    → is_source p ≡ true
    → (p == "*") ≡ false
    → matches name p ≡ true
    → is_source name ≡ true
unfolding matches
source-matches p name known star h = ground (arith, source-plain p known, eq_iff p name)

pub source_names-allows :
    (spec namespace name : String) (gate : ScopedNames)
    → source_names spec ≡ ok gate
    → allows gate namespace name ≡ true
    → (is_source name ≡ true) ⊎ ((other : String) → allows gate namespace other ≡ true)
unfolding source_names
source_names-allows spec namespace name gate h e =
    admitted is_source (λ n. is_source n ≡ true) source-matches _ spec namespace name gate h e

head_is-starts_with :
    (q : ℕ → Bool) (p name : String)
    → head_is q p ≡ true
    → starts_with p name ≡ true
    → head_is q name ≡ true
unfolding head_is starts_with strip_prefix
head_is-starts_with q nil_text name h e = cc
head_is-starts_with q (cons_text c p) nil_text h e = cc
head_is-starts_with q (cons_text c p) (cons_text d name) h e =
    ground (arith, nat_eq_iff (code c) (code d))

env-matches :
    (p name : String)
    → env_pattern p ≡ true
    → (p == "*") ≡ false
    → matches name p ≡ true
    → head_is env_head name ≡ true
unfolding matches env_pattern
env-matches p name valid star h = elim (Option-cases (strip_suffix "*" p)) [
  | inl e ↦ ground (arith, eq_iff p name)
  | inr (stem, e) ↦ ground (arith, head_is-starts_with env_head stem name)
]

-- A gate of variables lets only names through that begin with an upper-case letter or an underscore,
-- unless it holds a lone `*` for that namespace and lets everything through.
pub env_names-allows :
    (spec namespace name : String) (gate : ScopedNames)
    → env_names spec ≡ ok gate
    → allows gate namespace name ≡ true
    → (head_is env_head name ≡ true) ⊎ ((other : String) → allows gate namespace other ≡ true)
unfolding env_names
env_names-allows spec namespace name gate h e =
    admitted env_pattern (λ n. head_is env_head n ≡ true) env-matches _ spec namespace name gate h e
