-- ===== src/Webhook/Pod/Guarded.antt =====
-- dynamic-config-webhook/src/annotations.rs: the stores of a pod, of its main render and of the named ones.
use dynamic_config_k8s.Prelude.{
  ap, sym, subst, not, any-append, ◌∙◌, [], String, ◌≡◌, refl, sym, ap, ◌∙◌, subst, Bool, true,
  false, not, ◌&&◌, ◌||◌, Option, none, some, List, [], ◌∷◌, ◌++◌, arith, ◌==◌, All, any-append,
  ensure,
}
use dynamic_config_k8s.Prelude.Texts.{is_some, is_none, ◌⊕◌}
use dynamic_config_k8s.Prelude.Yields.{Yields, Yields-ok, Yields-bind}
use dynamic_config_k8s.Webhook.Contract.{prefix}
use dynamic_config_k8s.Webhook.Scopes.{is_source}
use dynamic_config_k8s.Webhook.Installation.{Installation, Supplied, store_strings}
use dynamic_config_k8s.Webhook.Pod.{extra_renders}
use dynamic_config_k8s.Webhook.Pod.Shape.{Reach, bad_value, elsewhere}
use dynamic_config_k8s.Webhook.Pod.Reading.{
  Lookup, defaulted, respects, pairs, demanded, level, object_ref, one_place,
}
use dynamic_config_k8s.Webhook.Pod.Store.{
  Arguments, Secrets, when, render_flags, addressed, reached, templated, certificate,
}
use dynamic_config_k8s.Webhook.Pod.Named.{
  extra_render, watch_of, file_mode_of, port_of, same_directory, is_path, mode_argument,
}
use dynamic_config_k8s.Webhook.Pod.Coherent.{implies}
use dynamic_config_k8s.Webhook.Pod.Reaches.{
  sets_variable, reached-address, carries, carries-neither, carries-when, IsAddressedOnce,
  IsAuthenticated, addressed-IsAddressedOnce, reached-IsAuthenticated,
}

abbrev pub skips : String
skips = "--tls-skip-verify"

-- a store that is addressed once, and that the agent authenticates unless the installation lets the pod
-- decide and the pod names no authority
abbrev pub IsGuarded : Bool → Reach → Type 0
IsGuarded allowed reach =
    IsAddressedOnce reach.endpoint reach.secret_env
    × (implies (carries skips reach.arguments) (allowed && is_none reach.ca) ≡ true)

module _ (label mount : String → String) (get : Lookup) (held : List Supplied) where
  pub carries-templated : Yields (λ t. carries skips t.1 ≡ false) (templated label mount get held)
  unfolding templated
  carries-templated =
      let pair = level get held "template" "template-configmap" in
      let reference = object_ref "template" pair.1 in
      Yields-bind (one_place (label "template") (label "template-configmap") pair.0 reference) _
        (λ _ _. Yields-ok _ (
          carries-neither label mount get held skips
            (when pair.0 (λ t. ("--template-inline", t) ∷ [])) _
            (carries-when label mount get held skips "--template-inline" pair.0 (λ t. t) refl)
            (carries-when label mount get held skips "--template" reference
              (λ r. mount "/etc/dynamic-config/template" ⊕ "/" ⊕ r.key) refl)))

  pub carries-certificate :
      (tls : Option String) → carries skips (certificate label mount get held tls) ≡ false
  carries-certificate none = refl
  carries-certificate (some _) = refl

  pub carries-mode_argument :
      (mode : Option String) → carries skips (when mode mode_argument) ≡ false
  carries-mode_argument none = refl
  carries-mode_argument (some _) = refl

pub carries-more :
    (args more : Arguments) (skip : Bool)
    → carries skips args ≡ skip
    → carries skips more ≡ false
    → carries skips (args ++ more) ≡ skip
carries-more args more skip h k =
    any-append (λ entry. entry.0 == skips) args more
    ∙ or_false (carries skips args) (carries skips more) skip h k
  where
    or_false : (a b c : Bool) → a ≡ c → b ≡ false → a || b ≡ c
    or_false a b c e f = ground (arith, e, f)

-- what is put after the arguments that reach the store does not change whether it is authenticated
abbrev AddressesAs : Option String × Secrets → Reach → Type 0
AddressesAs address reach = (reach.endpoint ≡ address.0) × (reach.secret_env ≡ address.1)

guarded :
    (allowed : Bool) (address : Option String × Secrets) (result : Reach × Bool) (args : Arguments)
    → IsAddressedOnce address.0 address.1
    → AddressesAs address result.0
    → IsAuthenticated allowed result
    → carries skips args ≡ result.1
    → IsGuarded allowed (record result.0 { arguments = args })
guarded allowed address result args once same safe h = (
  ap (sets_variable "DYNAMIC_CONFIG_AGENT_ENDPOINT") same.1
      ∙ once
      ∙ ap (λ e. not (is_some e)) (sym same.0),
  subst (λ b. implies b (allowed && is_none result.0.ca) ≡ true) (sym h) safe.0,
)

extra_render-IsGuarded :
    (i : Installation) (suffix : String) (get : Lookup) (default_path : Option String)
    → Yields
        (λ e. IsGuarded i.allow_tls_skip_verify e.reach)
        (extra_render i suffix get default_path)
unfolding extra_render
extra_render-IsGuarded i suffix get default_path =
    let label : String → String = λ key. prefix ⊕ key ⊕ "." ⊕ suffix in
    let mount : String → String = λ path. path ⊕ "-" ⊕ suffix in
    Yields-bind (demanded (label "source") (get "source")) _ (λ source _.
      Yields-bind (ensure (is_source source) (bad_value (label "source") source)) _ (λ _ _.
        let held = store_strings i (some source) in
        let found = defaulted get held in
        Yields-bind (respects is_path get held) _ (λ _ _. Yields-bind (pairs get held) _ (λ _ _.
          Yields-bind (demanded (label "key") (found "key")) _ (λ key _.
            Yields-bind (demanded (label "path") (get "path")) _ (λ path _.
              Yields-bind (ensure (same_directory path default_path) (elsewhere (label "path"))) _
                (λ _ _.
                  Yields-bind
                    (watch_of i (some source) (label "watch-seconds") (get "watch-seconds")) _
                    (λ seconds _. Yields-bind (addressed label mount get held) _ (λ address e.
                      Yields-bind (port_of (label "metrics-port") (get "metrics-port")) _ (λ port _.
                        Yields-bind
                          (reached label mount get held i.allow_tls_skip_verify render_flags
                            address)
                          _
                          (λ reach f.
                            Yields-bind
                              (file_mode_of i (some source) (label "file-mode") (get "file-mode")) _
                              (λ mode _.
                                Yields-bind (templated label mount get held) _ (λ template g.
                                  let own_mode = carries-mode_argument label mount get held mode in
                                  let own_template =
                                    (carries-templated label mount get held).at template g in
                                  let own_certificate =
                                    carries-certificate label mount get held (found "tls-secret") in
                                  let safe =
                                    (reached-IsAuthenticated label mount get held
                                        i.allow_tls_skip_verify render_flags address refl).at
                                      reach f in
                                  Yields-ok _ (
                                    guarded i.allow_tls_skip_verify address reach
                                      (reach.0.arguments
                                        ++ when mode mode_argument
                                        ++ template.1
                                        ++ certificate label mount get held (found "tls-secret"))
                                      ((addressed-IsAddressedOnce label mount get held).at address
                                        e)
                                      ((reached-address label mount get held i.allow_tls_skip_verify
                                          render_flags address).at
                                        reach f)
                                      safe
                                      (carries-more
                                        (reach.0.arguments ++ when mode mode_argument ++ template.1)
                                        _ reach.1
                                        (carries-more (reach.0.arguments ++ when mode mode_argument)
                                          template.1 reach.1
                                          (carries-more reach.0.arguments (when mode mode_argument)
                                            reach.1 safe.1 own_mode)
                                          own_template)
                                        own_certificate)))))))))))))))

pub extra_renders-IsGuarded :
    (i : Installation) (get : Lookup) (default_path : Option String) (suffixes : List String)
    → Yields
        (All (λ e. IsGuarded i.allow_tls_skip_verify e.reach))
        (extra_renders i get default_path suffixes)
unfolding extra_renders
extra_renders-IsGuarded i get default_path [] = Yields-ok [] tt
extra_renders-IsGuarded i get default_path (suffix ∷ more) =
    Yields-bind (extra_render i suffix (λ key. get (key ⊕ "." ⊕ suffix)) default_path) _ (λ first e.
      Yields-bind (extra_renders i get default_path more) _ (λ rest f. Yields-ok (first ∷ rest) (
        (extra_render-IsGuarded i suffix (λ key. get (key ⊕ "." ⊕ suffix)) default_path).at first e,
        (extra_renders-IsGuarded i get default_path more).at rest f,
      )))
