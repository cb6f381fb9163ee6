-- ===== src/Webhook/Scopes/Gates.antt =====
-- dynamic-config-webhook/src/annotations.rs: what a gate that was parsed can let through.
use dynamic_config_k8s.Prelude.{
  Result-cases, String, ◌≡◌, inl, inr, Bool, true, false, ◌||◌, List, [], ◌∷◌, arith, ◌==◌,
  is_empty, All, ok, ensure, >>=-eq-ok,
}
use dynamic_config_k8s.Webhook.Refusals.{Refusal}
use dynamic_config_k8s.Webhook.Scopes.{
  Group, ScopedNames, pieces, namespace_ok, halves, parse_names, parse_group, parse_groups, parse,
}

module _ (valid : String → Bool) (kind : String) where
  abbrev pub IsName : String → Type 0
  IsName name = (name == "*" || valid name) ≡ true

  abbrev pub IsGroup : Group → Type 0
  IsGroup group = (namespace_ok group.0 ≡ true) × (is_empty group.1 ≡ false) × All IsName group.1

  parse_names-IsName :
      (pieces names : List String) → parse_names valid kind pieces ≡ ok names → All IsName names
  unfolding parse_names
  parse_names-IsName [] names h = ground arith
  parse_names-IsName (name ∷ more) names h = elim (Result-cases (parse_names valid kind more)) [
    | inl (rest, e) ↦ let all_rest = parse_names-IsName more rest e in ground (arith, all_rest)
    | inr (f, e) ↦ ground arith
  ]

  parse_group-IsGroup :
      (text : String) (group : Group) → parse_group valid kind text ≡ ok group → IsGroup group
  unfolding parse_group
  parse_group-IsGroup text group h =
      let (u, named, h') =
        >>=-eq-ok (ensure (namespace_ok (halves text).0) (Refusal.not_a_namespace (halves text).0))
          _ h in
      let (names, e, h'') = >>=-eq-ok (parse_names valid kind (pieces b',' (halves text).1)) _ h' in
      let all_names = parse_names-IsName (pieces b',' (halves text).1) names e in
      ground (arith, all_names)

  parse_groups-IsGroup :
      (texts : List String) (groups : List Group)
      → parse_groups valid kind texts ≡ ok groups
      → All IsGroup groups
  unfolding parse_groups
  parse_groups-IsGroup [] groups h = ground arith
  parse_groups-IsGroup (text ∷ more) groups h =
      let (first, e, h') = >>=-eq-ok (parse_group valid kind text) _ h in
      let (rest, e', h'') = >>=-eq-ok (parse_groups valid kind more) _ h' in
      let here = parse_group-IsGroup text first e in
      let later = parse_groups-IsGroup more rest e' in ground (arith, here, later)

  -- Every group of a gate that was parsed is for a namespace, and names at least one pattern; every
  -- pattern is `*` or one that the gate's test accepts.
  pub parse-IsGroup :
      (spec : String) (gate : ScopedNames)
      → parse valid kind spec ≡ ok gate
      → All IsGroup gate.groups
  unfolding parse
  parse-IsGroup spec gate h =
      let (groups, e, h') = >>=-eq-ok (parse_groups valid kind (pieces b';' spec)) _ h in
      let all_groups = parse_groups-IsGroup (pieces b';' spec) groups e in
      ground (arith, all_groups)
