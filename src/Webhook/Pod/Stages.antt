-- ===== src/Webhook/Pod/Stages.antt =====
-- dynamic-config-webhook/src/annotations.rs, `of_pod_with`: the stages that a pod has passed once it has a
-- request, each with what it gave.
use dynamic_config_k8s.Prelude.{
  ◌++◌, Option-cases, inl, inr, inl, none, Option-cases, [], ok_or-some, String, ◌≡◌, refl, Option,
  some, ok,
}
use dynamic_config_k8s.Prelude.Yields.{ok-injective, Yields, Yields-ok, Yields-bind, Yields-if}
use dynamic_config_k8s.Json.{Fields, Value}
use dynamic_config_k8s.Webhook.Installation.{Installation, store_strings}
use dynamic_config_k8s.Webhook.Pod.{
  asks, lookup, marked, read_keys, annotations_of, of_annotations, of_pod_with, schema_file, Names,
  store_of, extra_renders, renderings, sort_names, same, requested,
}
use dynamic_config_k8s.Webhook.Pod.Shape.{ObjectRef, required, Request, Reach}
use dynamic_config_k8s.Webhook.Pod.Reading.{Lookup, defaulted, demanded}
use dynamic_config_k8s.Webhook.Pod.Store.{
  Arguments, when, certificate, Secrets, pod_flags, addressed, reached, templated,
}
use dynamic_config_k8s.Webhook.Pod.Named.{mode_argument, watch_of}
use dynamic_config_k8s.Webhook.Pod.Sidecar.{mode_of, container}
use dynamic_config_k8s.Webhook.Pod.Around.{behaviour}
use dynamic_config_k8s.Webhook.Pod.Containers.{agent_env, inject_containers, wrapped}

-- what was read of a pod that asks for the agent
pub record Passed (i : Installation) (pod : Value) (get : Lookup) (names : Names) (r : Request)
    : Type 0 where
  pub source : Option String
  pub stored : store_of i get ≡ ok source
  pub named : source ≡ some r.source
  pub mode : mode_of i source (get "mode") ≡ ok r.mode
  pub watched : watch_of i source "watch-seconds" (get "watch-seconds") ≡ ok r.watch_seconds
  pub address : Option String × Secrets
  pub addresses : addressed same same get (store_strings i source) ≡ ok address
  pub reach : Reach
  pub reaches :
      reached same same get (store_strings i source) i.allow_tls_skip_verify pod_flags address
      ≡ ok (reach, r.tls_skip_verify)
  pub endpoint : r.reach.endpoint ≡ reach.endpoint
  pub secrets : r.reach.secret_env ≡ reach.secret_env
  pub authority : r.reach.ca ≡ reach.ca
  pub template : Option ObjectRef × Arguments
  pub templates : templated same same get (store_strings i source) ≡ ok template
  pub arguments :
      r.reach.arguments
      ≡ reach.arguments
        ++ when r.container.file_mode mode_argument
        ++ template.1
        ++ when r.schema schema_file
        ++ certificate same same get (store_strings i source) r.tls
  pub boxed : container i source pod get ≡ ok r.container
  pub around :
      behaviour i source pod get
        (defaulted get (store_strings i source))
        r.mode
        r.container.volume_memory
      ≡ ok r.behaviour
  pub listed : inject_containers pod (get "inject-containers") ≡ ok r.inject_containers
  pub wraps : wrapped pod r.behaviour.env_restart r.inject_containers r.behaviour.env_inject ≡ ok tt
  pub default_path : Option String
  pub extras : extra_renders i get default_path (sort_names names.extra) ≡ ok r.extra
  pub also : renderings get default_path (sort_names names.also) ≡ ok r.also
  pub path : default_path ≡ some r.path

requested-Passed :
    (i : Installation) (pod : Value) (get : Lookup) (names : Names)
    → Yields (Passed i pod get names) (requested i pod get names)
unfolding requested
requested-Passed i pod get names = Yields-bind (store_of i get) _ (λ source stored.
    let held = store_strings i source in
    let found = defaulted get held in
    Yields-bind (mode_of i source (get "mode")) _ (λ mode moded.
      Yields-bind (watch_of i source "watch-seconds" (get "watch-seconds")) _ (λ seconds watched.
        Yields-bind (addressed same same get held) _ (λ address addresses.
          Yields-bind (reached same same get held i.allow_tls_skip_verify pod_flags address) _
            (λ reach reaches. Yields-bind (container i source pod get) _ (λ box boxed.
              Yields-bind (behaviour i source pod get found mode box.volume_memory) _
                (λ about around.
                  Yields-bind (agent_env about.aws_secret (get "agent-env")) _ (λ own_env _.
                    Yields-bind (inject_containers pod (get "inject-containers")) _
                      (λ seen_by listed.
                        Yields-bind (wrapped pod about.env_restart seen_by about.env_inject) _
                          (λ _ wraps.
                            Yields-bind (templated same same get held) _ (λ template templates.
                              Yields-bind
                                (extra_renders i get (found "path") (sort_names names.extra)) _
                                (λ extra extras.
                                  Yields-bind
                                    (renderings get (found "path") (sort_names names.also)) _
                                    (λ also alsos.
                                      Yields-bind (demanded "path" (found "path")) _ (λ path pathed.
                                        Yields-bind (demanded "source" source) _ (λ name named.
                                          Yields-bind (demanded "key" (found "key")) _ (λ key _.
                                            Yields-ok _ (record {
                                              source = source;
                                              stored = stored;
                                              named =
                                                  ok_or-some source (required "source") name named;
                                              mode = moded;
                                              watched = watched;
                                              address = address;
                                              addresses = addresses;
                                              reach = reach.0;
                                              reaches = reaches;
                                              endpoint = refl;
                                              secrets = refl;
                                              authority = refl;
                                              template = template;
                                              templates = templates;
                                              arguments = refl;
                                              boxed = boxed;
                                              around = around;
                                              listed = listed;
                                              wraps = wraps;
                                              default_path = found "path";
                                              extras = extras;
                                              also = alsos;
                                              path =
                                                  ok_or-some (found "path") (required "path") path
                                                    pathed;
                                            })))))))))))))))))

-- what a pod with annotations has passed once it has a request; without one there is nothing to say
abbrev pub Asked : Installation → Value → Fields → Option Request → Type 0
Asked i pod annotations none = Unit
Asked i pod annotations (some r) =
    (names : Names) × (read_keys annotations (record { extra = []; also = [] }) ≡ ok names)
    × Passed i pod (lookup annotations) names r

of_annotations-Asked :
    (i : Installation) (pod : Value) (annotations : Fields)
    → Yields (Asked i pod annotations) (of_annotations i pod annotations)
unfolding of_annotations
of_annotations-Asked i pod annotations =
    Yields-bind (marked pod (lookup annotations "status")) _ (λ patched _.
      Yields-if patched _ _ (λ _. Yields-ok none tt)
        (λ _. Yields-bind (asks (lookup annotations "inject")) _ (λ wanted _.
          Yields-if wanted _ _
            (λ _.
              Yields-bind (read_keys annotations (record { extra = []; also = [] })) _ (λ names e.
                Yields-bind (requested i pod (lookup annotations) names) _ (λ r f.
                  Yields-ok (some r)
                    (names, e, (requested-Passed i pod (lookup annotations) names).at r f))))
            (λ _. Yields-ok none tt))))

-- A request comes of annotations that passed every stage.
pub of_pod_with-Asked :
    (i : Installation) (pod : Value) (annotations : Fields) (r : Request)
    → annotations_of pod ≡ some annotations
    → of_pod_with i pod ≡ ok (some r)
    → Asked i pod annotations (some r)
unfolding of_pod_with
of_pod_with-Asked i pod annotations r found e =
    (of_annotations-Asked i pod annotations).at (some r) (rw (of_pod_with, found) at e)

pub of_pod_with-annotations :
    (i : Installation) (pod : Value) (r : Request)
    → of_pod_with i pod ≡ ok (some r)
    → (annotations : Fields) × (annotations_of pod ≡ some annotations)
unfolding of_pod_with
of_pod_with-annotations i pod r e = elim (Option-cases (annotations_of pod)) [
  | inl absent ↦ let nothing = ok-injective (rw (of_pod_with, absent) at e) in cc
  | inr found ↦ found
]
