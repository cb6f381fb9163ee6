-- ===== src/Webhook/Pod/Reaches.antt =====
-- dynamic-config-webhook/src/annotations.rs: the address of a store, and whether it is authenticated.
use dynamic_config_k8s.Prelude.{
  any-append, ap, ◌∙◌, [], ◌∷◌, List, arith, ◌==◌, false, inl, inr, Option-cases, if◌then◌else◌,
  ensure-true, String, ◌≡◌, refl, ap, ◌∙◌, inl, inr, Bool, true, false, not, ◌&&◌, ◌||◌, Option,
  none, some, List, [], ◌∷◌, ◌++◌, arith, if◌then◌else◌, Option-cases, ◌==◌, any, any-append,
  ensure, ok_or,
}
use dynamic_config_k8s.Prelude.Texts.{◌⊕◌, is_some, is_none, split_once, ◌⊕◌}
use dynamic_config_k8s.Prelude.Yields.{Yields, Yields-ok, Yields-err, Yields-if, Yields-bind}
use dynamic_config_k8s.Webhook.Installation.{Supplied}
use dynamic_config_k8s.Webhook.Pod.Shape.{
  SecretRef, ObjectRef, Reach, required, both_set, at_odds, not_on_offer, bad_value,
}
use dynamic_config_k8s.Webhook.Pod.Reading.{
  Lookup, defaulted, secret_ref, object_ref, level, one_place, switched,
}
use dynamic_config_k8s.Webhook.Pod.Store.{
  Arguments, Secrets, when, named, pass_through, addressed, reached, ssh_arguments, skip_verify,
}
use dynamic_config_k8s.Webhook.Pod.Coherent.{implies, both_hold}

-- whether a variable comes from a secret, and whether a flag is among the arguments
abbrev pub sets_variable : String → Secrets → Bool
sets_variable name secrets = any (λ entry. entry.0 == name) secrets

abbrev pub carries : String → Arguments → Bool
carries flag arguments = any (λ entry. entry.0 == flag) arguments

is_some-secret_ref :
    (key : String) (text : Option String)
    → Yields (λ r. is_some r ≡ is_some text) (secret_ref key text)
unfolding secret_ref
is_some-secret_ref key none = Yields-ok none refl
is_some-secret_ref key (some text) =
    Yields-bind (ok_or (split_once b'/' text) (bad_value key text)) _ (λ parts _. Yields-ok _ refl)

sets_variable-named :
    (token password endpoint : Option SecretRef)
    → sets_variable "DYNAMIC_CONFIG_AGENT_ENDPOINT" (
        named "DYNAMIC_CONFIG_AGENT_TOKEN" token
        ++ named "DYNAMIC_CONFIG_AGENT_PASSWORD" password
        ++ named "DYNAMIC_CONFIG_AGENT_ENDPOINT" endpoint)
      ≡ is_some endpoint
sets_variable-named none none none = refl
sets_variable-named none none (some _) = refl
sets_variable-named none (some _) none = refl
sets_variable-named none (some _) (some _) = refl
sets_variable-named (some _) none none = refl
sets_variable-named (some _) none (some _) = refl
sets_variable-named (some _) (some _) none = refl
sets_variable-named (some _) (some _) (some _) = refl

exactly_one : (a b : Bool) → a || b ≡ true → not (a && b) ≡ true → b ≡ not a
exactly_one a b h k = ground arith

-- the endpoint is given once: as an argument, or as a variable from a secret
abbrev pub IsAddressedOnce : Option String → Secrets → Type 0
IsAddressedOnce endpoint secrets =
    sets_variable "DYNAMIC_CONFIG_AGENT_ENDPOINT" secrets ≡ not (is_some endpoint)

abbrev pub IsChecked : Bool → Option ObjectRef → Bool → Type 0
IsChecked allowed ca skip = implies skip (allowed && is_none ca) ≡ true

-- Unauthenticated TLS is asked of the agent only where the installation offers it and no authority is
-- named, and the request says whether it is.
abbrev pub IsAuthenticated : Bool → Reach × Bool → Type 0
IsAuthenticated allowed result =
    IsChecked allowed result.0.ca result.1
    × (carries "--tls-skip-verify" result.0.arguments ≡ result.1)

module _ (label mount : String → String) (get : Lookup) (held : List Supplied) where
  pub addressed-IsAddressedOnce :
      Yields (λ address. IsAddressedOnce address.0 address.1) (addressed label mount get held)
  unfolding addressed
  addressed-IsAddressedOnce =
      let pair = level get held "endpoint" "endpoint-secret" in
      Yields-bind (secret_ref (label "token-secret") (defaulted get held "token-secret")) _
        (λ token _.
          Yields-bind (secret_ref (label "password-secret") (defaulted get held "password-secret"))
            _
            (λ password _.
              Yields-bind (secret_ref (label "endpoint-secret") pair.1) _ (λ endpoint e.
                Yields-bind
                  (ensure (is_some pair.0 || is_some pair.1) (required (label "endpoint"))) _
                  (λ _ one.
                    Yields-bind
                      (one_place (label "endpoint") (label "endpoint-secret") pair.0 pair.1) _
                      (λ _ once. Yields-ok _ (
                        sets_variable-named token password endpoint
                        ∙ (is_some-secret_ref (label "endpoint-secret") pair.1).at endpoint e
                        ∙ exactly_one (is_some pair.0) (is_some pair.1)
                            (ensure-true (is_some pair.0 || is_some pair.1)
                              (required (label "endpoint")) one)
                            (ensure-true (not (is_some pair.0 && is_some pair.1))
                              (both_set (label "endpoint") (label "endpoint-secret")) once)))))))

  skip_verify-IsChecked :
      (allowed : Bool) (ca : Option ObjectRef)
      → Yields (IsChecked allowed ca) (skip_verify label mount get held allowed ca)
  unfolding skip_verify
  skip_verify-IsChecked allowed ca =
      Yields-bind (switched (label "tls-skip-verify") (defaulted get held "tls-skip-verify") false)
        _
        (λ skip _.
          Yields-bind (ensure (not skip || allowed) (not_on_offer (label "tls-skip-verify"))) _
            (λ _ h.
              Yields-bind
                (ensure (not skip || is_none ca)
                  (at_odds (label "tls-skip-verify") (label "ca-configmap")))
                _
                (λ _ k. Yields-ok skip (
                  both_hold skip allowed (is_none ca)
                    (ensure-true (not skip || allowed) (not_on_offer (label "tls-skip-verify")) h)
                    (ensure-true (not skip || is_none ca)
                      (at_odds (label "tls-skip-verify") (label "ca-configmap")) k)))))

  pub carries-when :
      {A : Type 0} (flag first : String) (o : Option A) (f : A → String)
      → first == flag ≡ false
      → carries flag (when o (λ a. (first, f a) ∷ [])) ≡ false
  carries-when flag first none f h = refl
  carries-when flag first (some a) f h = ground (arith, h)

  pub carries-append :
      (flag : String) (front back : Arguments)
      → carries flag front ≡ false
      → carries flag (front ++ back) ≡ carries flag back
  carries-append flag front back h =
      any-append (λ entry. entry.0 == flag) front back ∙ ap (λ b. b || carries flag back) h

  pub carries-neither :
      (flag : String) (front back : Arguments)
      → carries flag front ≡ false
      → carries flag back ≡ false
      → carries flag (front ++ back) ≡ false
  carries-neither flag front back h k = carries-append flag front back h ∙ k

  carries-pass_through :
      (flag : String) (found : Lookup) (flags : List (String × String))
      → any (λ entry. entry.1 == flag) flags ≡ false
      → carries flag (pass_through found flags) ≡ false
  unfolding pass_through
  carries-pass_through flag found [] h = refl
  carries-pass_through flag found ((key, first) ∷ more) h =
      carries-append flag (when (found key) (λ value. (first, value) ∷ []))
        (pass_through found more)
        (carries-when flag first (found key) (λ value. value) (ground arith))
      ∙ carries-pass_through flag found more (ground arith)

  carries-ssh_arguments :
      (ssh : Option ObjectRef)
      → Yields
          (λ args. carries "--tls-skip-verify" args ≡ false)
          (ssh_arguments label mount get held ssh)
  unfolding ssh_arguments
  carries-ssh_arguments none = Yields-ok [] refl
  carries-ssh_arguments (some ssh) = elim (Option-cases (defaulted get held "auth")) [
    | inl e ↦ rw (ssh_arguments, e) (Yields-ok _ refl)
    | inr (auth, e) ↦
        rw (ssh_arguments, e)
          (Yields-if (auth == "ssh-key") _ _ (λ _. Yields-ok _ refl) (λ _. Yields-err _))
  ]

  carries-skip :
      (skip : Bool)
      → carries "--tls-skip-verify" (if skip then ("--tls-skip-verify", "") ∷ [] else []) ≡ skip
  carries-skip true = refl
  carries-skip false = refl

  pub reached-IsAuthenticated :
      (allowed : Bool) (flags : List (String × String)) (address : Option String × Secrets)
      → any (λ entry. entry.1 == "--tls-skip-verify") flags ≡ false
      → Yields (IsAuthenticated allowed) (reached label mount get held allowed flags address)
  unfolding reached
  reached-IsAuthenticated allowed flags address none_of_them =
      let found = defaulted get held in
      let skips : String = "--tls-skip-verify" in
      let ssh = object_ref "ssh-privatekey" (found "ssh-secret") in
      let ca = object_ref "ca.crt" (found "ca-configmap") in
      Yields-bind (ssh_arguments label mount get held ssh) _ (λ keyed e.
        Yields-bind (skip_verify label mount get held allowed ca) _ (λ skip f.
          let authority : ObjectRef → Arguments =
            λ c. ("--ca", mount "/etc/dynamic-config/ca" ⊕ "/" ⊕ c.key) ∷ [] in
          let named_server : Arguments =
            when (found "tls-server-name") (λ name. ("--tls-server-name", name) ∷ []) in
          let front : Arguments =
            pass_through found flags ++ keyed ++ when ca authority ++ named_server in
          Yields-ok _ (
            (skip_verify-IsChecked allowed ca).at skip f,
            carries-append skips front _ (
                  carries-neither skips (pass_through found flags ++ keyed ++ when ca authority)
                    named_server
                    (carries-neither skips (pass_through found flags ++ keyed) (when ca authority)
                      (carries-neither skips (pass_through found flags) keyed
                        (carries-pass_through skips found flags none_of_them)
                        ((carries-ssh_arguments ssh).at keyed e))
                      (carries-when skips "--ca" ca
                        (λ c. mount "/etc/dynamic-config/ca" ⊕ "/" ⊕ c.key) refl))
                    (carries-when skips "--tls-server-name" (found "tls-server-name") (λ name. name)
                      refl))
                ∙ carries-skip skip,
          )))

  pub reached-address :
      (allowed : Bool) (flags : List (String × String)) (address : Option String × Secrets)
      → Yields
          (λ r. (r.0.endpoint ≡ address.0) × (r.0.secret_env ≡ address.1))
          (reached label mount get held allowed flags address)
  unfolding reached
  reached-address allowed flags address =
      let found = defaulted get held in
      Yields-bind
        (ssh_arguments label mount get held (object_ref "ssh-privatekey" (found "ssh-secret"))) _
        (λ keyed _.
          Yields-bind
            (skip_verify label mount get held allowed (object_ref "ca.crt" (found "ca-configmap")))
            _ (λ skip _. Yields-ok _ (refl, refl)))
