-- ===== src/NodeAgent/Volume/Inside.antt =====
-- dynamic-config-node-agent/src/publish.rs: where a volume's file stands.
use dynamic_config_k8s.Prelude.Yields.{ok-injective}
use dynamic_config_k8s.Webhook.Installation.{unwrap_or}
use dynamic_config_k8s.Agent.Arguments.{from_args}
use dynamic_config_k8s.Agent.Arguments.Fields.{Environment}
use dynamic_config_k8s.NodeAgent.Volume.Lines.{watched-out}
use dynamic_config_k8s.Prelude.{
  map_err-eq-ok, subst, >>=-eq-ok, ok, ensure, ensure-true, map_err, true,
}
use dynamic_config_k8s.NodeAgent.Volume.{
  parse, Volume, Attributes, want, is_inside, outside_volume, refused_by, watched, line, asked,
}
use dynamic_config_k8s.Prelude.{
  String, ◌≡◌, refl, sym, ap, ◌∙◌, ◌⊎◌, inl, inr, false, ◌||◌, List, [], ◌∷◌, ◌++◌, arith,
  if◌then◌else◌, Bool-cases, ◌==◌, any,
}
use dynamic_config_k8s.Prelude.Texts.{split, path_join, empty_text}
use dynamic_config_k8s.Prelude.Texts.Laws.{split-path_join}
use dynamic_config_k8s.NodeAgent.Volume.{empty_text, climbs}

abbrev pub up : List String → List String
up [] = []
up (part ∷ more) = more

-- one part of a path, from a directory whose innermost part comes first
unfoldable pub enter : List String → String → List String
unfolding empty_text
enter at part =
    if empty_text part || part == "." then at else if climbs part then up at else part ∷ at

unfoldable pub walk : List String → List String → List String
unfolding enter
walk at [] = at
walk at (part ∷ more) = walk (enter at part) more

-- where a path leads
abbrev pub place : String → List String
place path = walk [] (split b'/' path)

walk-append : (at a b : List String) → walk at (a ++ b) ≡ walk (walk at a) b
unfolding walk
walk-append at [] b = refl
walk-append at (part ∷ a) b = walk-append (enter at part) a b

-- a path that never climbs ends below the directory that it begins in
abbrev pub Below : List String → List String → Type 0
Below at to = (names : List String) × (to ≡ names ++ at)

enter-Below : (at : List String) (part : String) → climbs part ≡ false → Below at (enter at part)
unfolding enter
enter-Below at part h = elim (Bool-cases (empty_text part || part == ".")) [
  | inl stays ↦ ([], rw (enter, stays) refl)
  | inr goes ↦ (part ∷ [], rw (enter, goes, h) refl)
]

append_assoc : (a b c : List String) → a ++ (b ++ c) ≡ (a ++ b) ++ c
append_assoc [] b c = refl
append_assoc (x ∷ a) b c = ap (λ l. x ∷ l) (append_assoc a b c)

walk-Below : (at parts : List String) → any climbs parts ≡ false → Below at (walk at parts)
unfolding walk
walk-Below at [] h = ([], refl)
walk-Below at (part ∷ more) h =
    let (first, entered) = enter-Below at part (ground arith) in
    let (names, walked) = walk-Below (enter at part) more (ground arith) in
    (names ++ first, walked ∙ ap (λ l. names ++ l) entered ∙ append_assoc names first at)

place-front :
    (target : String) (front : List String)
    → (split b'/' target ≡ front) ⊎ (split b'/' target ≡ front ++ "" ∷ [])
    → place target ≡ walk [] front
unfolding walk enter empty_text
place-front target front (inl same) = ap (walk []) same
place-front target front (inr same) = ap (walk []) same ∙ walk-append [] front ("" ∷ [])

inside-climbs :
    (relative : String) → is_inside relative ≡ true → any climbs (split b'/' relative) ≡ false
inside-climbs relative h = ground arith

-- a path that never climbs, joined to a directory, ends below the directory
path_join-Below :
    (target relative : String)
    → any climbs (split b'/' relative) ≡ false
    → Below (place target) (place (path_join target relative))
unfolding split path_join walk enter
path_join-Below target relative h =
    let (front, joined, split_target) = split-path_join target relative in
    let led : place (path_join target relative) ≡ walk (walk [] front) (split b'/' relative) =
      ap (walk []) joined ∙ walk-append [] front (split b'/' relative) in
    let at : place target ≡ walk [] front = place-front target front split_target in
    let (names, walked) = walk-Below (walk [] front) (split b'/' relative) h in
    (names, led ∙ walked ∙ ap (λ l. names ++ l) (sym at))

-- Whatever the attributes of a volume that is accepted are, the specification that they give the agent has
-- one output, the volume's, and it stands below the directory that the kubelet gave.
pub parse-IsInside :
    (env : Environment) (target : String) (attributes : Attributes) (v : Volume)
    → parse env target attributes ≡ ok v
    → (v.spec.out ≡ v.out) × (v.spec.also ≡ []) × Below (place target) (place v.out)
unfolding parse
parse-IsInside env target attributes v e =
    let (source, _, e1) = >>=-eq-ok (want attributes "source") _ e in
    let (key, _, e2) = >>=-eq-ok (want attributes "key") _ e1 in
    let (relative, _, e3) = >>=-eq-ok (want attributes "path") _ e2 in
    let (_, inside, e4) = >>=-eq-ok (ensure (is_inside relative) (outside_volume relative)) _ e3 in
    let out = path_join target relative in
    let arguments = watched (line (asked attributes source key out)) in
    let (spec, accepted, e5) = >>=-eq-ok (map_err refused_by (from_args env arguments)) _ e4 in
    let stays =
      inside-climbs relative (ensure-true (is_inside relative) (outside_volume relative) inside) in
    let (names, below) = path_join-Below target relative stays in
    let built : Volume = record {
      out = out;
      spec = spec;
      document = record {
        source = source;
        endpoint = spec.endpoint;
        key = key;
        credential = unwrap_or (attributes "token-secret") "";
      };
    } in
    let same : built ≡ v = ok-injective e5 in
    let (written, alone) =
      watched-out env attributes source key out spec
        (map_err-eq-ok refused_by (from_args env arguments) spec accepted) in
    subst
      (λ (w : Volume).
        (w.spec.out ≡ w.out) × (w.spec.also ≡ []) × Below (place target) (place w.out))
      same (written, alone, (names, below))
