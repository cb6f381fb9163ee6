-- ===== src/Webhook/Pod/Admitted.antt =====
-- dynamic-config-webhook/src/annotations.rs, `of_pod_with`: what holds of every request.
use dynamic_config_k8s.Prelude.{
  ◌≡◌, refl, sym, ap, ◌∙◌, subst, Bool, true, false, not, ◌&&◌, Option, none, some, ◌++◌, All, ok,
}
use dynamic_config_k8s.Prelude.Texts.{is_some, is_none}
use dynamic_config_k8s.Json.{Value}
use dynamic_config_k8s.Webhook.Installation.{Installation, store_strings}
use dynamic_config_k8s.Webhook.Pod.{of_pod_with, lookup, same, sort_names, schema_file}
use dynamic_config_k8s.Webhook.Pod.Shape.{Reach, Request, ObjectRef}
use dynamic_config_k8s.Webhook.Pod.Reading.{defaulted}
use dynamic_config_k8s.Webhook.Pod.Store.{when, pod_flags}
use dynamic_config_k8s.Webhook.Pod.Named.{mode_argument}
use dynamic_config_k8s.Webhook.Pod.Coherent.{IsCoherent, implies, behaviour-IsCoherent}
use dynamic_config_k8s.Webhook.Pod.Reaches.{
  carries, sets_variable, addressed-IsAddressedOnce, reached-address, reached-IsAuthenticated,
}
use dynamic_config_k8s.Webhook.Pod.Guarded.{
  IsGuarded, skips, carries-more, carries-mode_argument, carries-templated, carries-certificate,
  extra_renders-IsGuarded,
}
use dynamic_config_k8s.Webhook.Pod.Stages.{of_pod_with-Asked, of_pod_with-annotations}

-- What a request wishes around its render has what the wish needs: an injected environment has an init
-- container, and a restart has both containers besides; a named grace, and a refusal to revoke, are for
-- dynamic secrets, and a grace that is named is positive and within the pod's own; generations that are
-- kept are in memory, ten at most; an acknowledgement has a readiness probe and an agent that stays; a
-- notification and a canary have an agent that stays; and events and an image are on offer.
of_pod_with-IsCoherent :
    (i : Installation) (pod : Value) (r : Request)
    → of_pod_with i pod ≡ ok (some r)
    → IsCoherent i pod r.mode r.container.volume_memory r.behaviour
of_pod_with-IsCoherent i pod r e =
    let (annotations, found) = of_pod_with-annotations i pod r e in
    let (names, _, passed) = of_pod_with-Asked i pod annotations r found e in
    let get = lookup annotations in
    (behaviour-IsCoherent i passed.source pod get (defaulted get (store_strings i passed.source))
        r.mode r.container.volume_memory).at
      r.behaviour passed.around

carries-schema : (schema : Option ObjectRef) → carries skips (when schema schema_file) ≡ false
carries-schema none = refl
carries-schema (some _) = refl

-- Each store of a request, the main one and those of the named renders, has one address; and the agent is
-- told to go without authentication only where the installation offers that and no authority is named.
pub of_pod_with-IsGuarded :
    (i : Installation) (pod : Value) (r : Request)
    → of_pod_with i pod ≡ ok (some r)
    → IsGuarded i.allow_tls_skip_verify r.reach
      × All (λ e. IsGuarded i.allow_tls_skip_verify e.reach) r.extra
of_pod_with-IsGuarded i pod r e =
    let (annotations, found) = of_pod_with-annotations i pod r e in
    let (names, _, passed) = of_pod_with-Asked i pod annotations r found e in
    let get = lookup annotations in
    let allowed = i.allow_tls_skip_verify in
    let held = store_strings i passed.source in
    let result : Reach × Bool = (passed.reach, r.tls_skip_verify) in
    let safe =
      (reached-IsAuthenticated same same get held allowed pod_flags passed.address refl).at result
        passed.reaches in
    let address =
      (reached-address same same get held allowed pod_flags passed.address).at result
        passed.reaches in
    let once = (addressed-IsAddressedOnce same same get held).at passed.address passed.addresses in
    let front = passed.reach.arguments ++ when r.container.file_mode mode_argument in
    let mode =
      carries-more passed.reach.arguments _ r.tls_skip_verify safe.1
        (carries-mode_argument same same get held r.container.file_mode) in
    let template =
      carries-more front passed.template.1 r.tls_skip_verify mode
        ((carries-templated same same get held).at passed.template passed.templates) in
    let schema =
      carries-more (front ++ passed.template.1) _ r.tls_skip_verify template
        (carries-schema r.schema) in
    let all_of =
      carries-more (front ++ passed.template.1 ++ when r.schema schema_file) _ r.tls_skip_verify
        schema (carries-certificate same same get held r.tls) in
    (
      (
        ap (sets_variable "DYNAMIC_CONFIG_AGENT_ENDPOINT") (passed.secrets ∙ address.1)
            ∙ once
            ∙ ap (λ o. not (is_some o)) (sym (passed.endpoint ∙ address.0)),
        subst (λ b. implies b (allowed && is_none r.reach.ca) ≡ true)
            (sym (ap (carries skips) passed.arguments ∙ all_of))
            (subst (λ ca. implies r.tls_skip_verify (allowed && is_none ca) ≡ true)
              (sym passed.authority) safe.0),
      ),
      (extra_renders-IsGuarded i get passed.default_path (sort_names names.extra)).at r.extra
          passed.extras,
    )
