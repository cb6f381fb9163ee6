-- ===== src/Webhook/Pod/Fitting.antt =====
-- dynamic-config-webhook/src/annotations.rs, `of_pod_with`: the containers that a request names, in the pod.
use dynamic_config_k8s.Prelude.{
  String, ◌≡◌, sym, ap, ◌∙◌, subst, inl, inr, Bool, true, false, not, ◌&&◌, Option, none, some,
  List, [], ◌∷◌, arith, Bool-cases, Option-cases, eq_iff, is_empty, All, ok, ensure, ok_or,
}
use dynamic_config_k8s.Prelude.{ensure-true, ok_or-some}
use dynamic_config_k8s.Prelude.Yields.{Yields, Yields-ok, Yields-bind}
use dynamic_config_k8s.Prelude.Texts.{is_some}
use dynamic_config_k8s.Json.{Value, Values, no_values, next, pointer, as_text}
use dynamic_config_k8s.Webhook.Classes.Lookups.{SomeItem}
use dynamic_config_k8s.Webhook.Installation.{Installation}
use dynamic_config_k8s.Webhook.Pod.{of_pod_with, lookup}
use dynamic_config_k8s.Webhook.Pod.Shape.{
  Request, no_such_container, no_command, has_probe, at_odds, empty_value,
}
use dynamic_config_k8s.Webhook.Pod.Containers.{
  is_named, find_container, has_container, pod_containers, all_present, inject_containers, pieces,
  lists, has_command, wrapped,
}
use dynamic_config_k8s.Webhook.Pod.Stages.{of_pod_with-Asked, of_pod_with-annotations}

-- a container that says it has the name
abbrev Bears : String → Value → Type 0
Bears name container = as_text (pointer ("name" ∷ []) container) ≡ some name

abbrev has_probe_of_its_own : Value → Bool
has_probe_of_its_own container = is_some (pointer ("livenessProbe" ∷ []) container)

-- what the container that is wrapped is, in the pod: it has a command to wrap, it sees the document, and
-- it has no probe of its own where the wrapper needs one
abbrev Wraps : Value → Bool → Option (List String) → Option String → Type 0
Wraps pod restart listed none = Unit
Wraps pod restart listed (some name) =
    SomeItem
      (λ container.
        Bears name container
        × (has_command container ≡ true)
        × (restart && has_probe_of_its_own container ≡ false))
      (pod_containers pod)
    × (lists name listed ≡ true)

-- the containers that are to see the document are in the pod
abbrev Sees : Value → Option (List String) → Type 0
Sees pod none = Unit
Sees pod (some names) =
    (is_empty names ≡ false) × All (λ name. SomeItem (Bears name) (pod_containers pod)) names

abbrev pub FitsPod : Value → Request → Type 0
FitsPod pod r =
    Wraps pod r.behaviour.env_restart r.inject_containers r.behaviour.env_inject
    × Sees pod r.inject_containers

is_named-Bears :
    (name : String) (container : Value) → is_named name container ≡ true → Bears name container
is_named-Bears name container h = elim (Option-cases (as_text (pointer ("name" ∷ []) container))) [
  | inl e ↦ cc (rw (e, is_named) at h)
  | inr (held, e) ↦ e ∙ ap some ((eq_iff held name).0 (rw (e, is_named) at h))
]

find_container-SomeItem :
    (P : Value → Type 0) (name : String) (held : Values) (container : Value)
    → find_container name held ≡ some container
    → (Bears name container → P container)
    → SomeItem P held
unfolding find_container
find_container-SomeItem P name no_values container e give = cc
find_container-SomeItem P name (next first more) container e give =
    elim (Bool-cases (is_named name first)) [
      | inl named ↦
          let same : first ≡ container = ground arith in
          inl
            (subst P (sym same) (give (subst (Bears name) same (is_named-Bears name first named))))
      | inr other ↦ inr (find_container-SomeItem P name more container (ground arith) give)
    ]

has_container-SomeItem :
    (name : String) (held : Values) → has_container name held ≡ true → SomeItem (Bears name) held
has_container-SomeItem name held h = elim (Option-cases (find_container name held)) [
  | inl e ↦ cc (rw e at h)
  | inr (container, e) ↦ find_container-SomeItem (Bears name) name held container e (λ b. b)
]

all_present-All :
    (held : Values) (names : List String)
    → Yields (λ _. All (λ name. SomeItem (Bears name) held) names) (all_present held names)
unfolding all_present
all_present-All held [] = Yields-ok tt tt
all_present-All held (name ∷ more) =
    Yields-bind (ensure (has_container name held) (no_such_container name)) _ (λ _ here. record {
      at = λ done e. (
        has_container-SomeItem name held
            (ensure-true (has_container name held) (no_such_container name) here),
        (all_present-All held more).at done e,
      );
    })

inject_containers-Sees :
    (pod : Value) (found : Option String) → Yields (Sees pod) (inject_containers pod found)
unfolding inject_containers
inject_containers-Sees pod none = Yields-ok none tt
inject_containers-Sees pod (some text) =
    Yields-bind (ensure (not (is_empty (pieces text))) (empty_value "inject-containers")) _
      (λ _ some_named. Yields-bind (all_present (pod_containers pod) (pieces text)) _ (λ done there.
        Yields-ok (some (pieces text)) (
          not_true (is_empty (pieces text)) (
              ensure-true (not (is_empty (pieces text))) (empty_value "inject-containers")
                some_named),
          (all_present-All (pod_containers pod) (pieces text)).at done there,
        )))
  where
    not_true : (b : Bool) → not b ≡ true → b ≡ false
    not_true b h = ground arith

wrapped-Wraps :
    (pod : Value) (restart : Bool) (listed : Option (List String)) (found : Option String)
    → Yields (λ _. Wraps pod restart listed found) (wrapped pod restart listed found)
unfolding wrapped
wrapped-Wraps pod restart listed none = Yields-ok tt tt
wrapped-Wraps pod restart listed (some name) =
    Yields-bind (ensure (lists name listed) (at_odds "env-inject" "inject-containers")) _ (λ _ seen.
      Yields-bind (ok_or (find_container name (pod_containers pod)) (no_such_container name)) _
        (λ held there. Yields-bind (ensure (has_command held) (no_command name)) _ (λ _ command.
          record {
            at = λ done e. (
              find_container-SomeItem _ name (pod_containers pod) held
                  (ok_or-some (find_container name (pod_containers pod)) (no_such_container name)
                    held there)
                  (λ bears. (
                    bears,
                    ensure-true (has_command held) (no_command name) command,
                    not_true (restart && has_probe_of_its_own held) (
                        ensure-true (not (restart && has_probe_of_its_own held)) (has_probe name)
                          e),
                  )),
              ensure-true (lists name listed) (at_odds "env-inject" "inject-containers") seen,
            );
          })))
  where
    not_true : (b : Bool) → not b ≡ true → b ≡ false
    not_true b h = ground arith

-- Whatever container a request names is one of the pod's: the containers that are to see the document are
-- there, and at least one is named if any is; the one that is wrapped has a command, sees the document,
-- and has no liveness probe where the wrapper restarts it.
pub of_pod_with-FitsPod :
    (i : Installation) (pod : Value) (r : Request) → of_pod_with i pod ≡ ok (some r) → FitsPod pod r
of_pod_with-FitsPod i pod r e =
    let (annotations, found) = of_pod_with-annotations i pod r e in
    let (names, _, passed) = of_pod_with-Asked i pod annotations r found e in
    (
      (wrapped-Wraps pod r.behaviour.env_restart r.inject_containers r.behaviour.env_inject).at tt
          passed.wraps,
      (inject_containers-Sees pod (lookup annotations "inject-containers")).at r.inject_containers
          passed.listed,
    )
