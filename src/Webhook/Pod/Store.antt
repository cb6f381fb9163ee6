-- ===== src/Webhook/Pod/Store.antt =====
-- dynamic-config-webhook/src/annotations.rs: the parts of `of_pod_with` and `extra_render` that say how the
-- agent reaches a store. The two functions have the same code here, with other names for the keys and the
-- mounts of a named render.
use dynamic_config_k8s.Prelude.{
  String, Bool, false, not, ◌||◌, Option, none, some, List, [], ◌∷◌, ◌++◌, if◌then◌else◌, ◌==◌,
  Result, ok, err, ◌>>=◌, ◌>>◌, ensure,
}
use dynamic_config_k8s.Prelude.Texts.{is_some, is_none, ◌⊕◌}
use dynamic_config_k8s.Webhook.Installation.{Supplied}
use dynamic_config_k8s.Webhook.Pod.Shape.{
  Refused, SecretRef, ObjectRef, Reach, required, at_odds, not_on_offer,
}
use dynamic_config_k8s.Webhook.Pod.Reading.{
  Lookup, defaulted, secret_ref, object_ref, level, one_place, switched,
}

abbrev pub Arguments : Type 0
Arguments = List (String × String)

abbrev pub Secrets : Type 0
Secrets = List (String × SecretRef)

abbrev pub when : {A : Type 0} → Option A → (A → Arguments) → Arguments
when none f = []
when (some a) f = f a

abbrev pub named : String → Option SecretRef → Secrets
named variable none = []
named variable (some reference) = (variable, reference) ∷ []

unfoldable pub pass_through : Lookup → List (String × String) → Arguments
pass_through found [] = []
pass_through found ((key, flag) ∷ more) =
    when (found key) (λ value. (flag, value) ∷ []) ++ pass_through found more

abbrev pub render_flags : List (String × String)
render_flags =
    ("section", "--section")
    ∷ ("auth", "--auth")
    ∷ ("auth-mount", "--auth-mount")
    ∷ ("auth-role", "--auth-role")
    ∷ ("auth-username", "--auth-username")
    ∷ ("auth-token-path", "--auth-token-path")
    ∷ ("namespace", "--namespace")
    ∷ ("ref", "--ref")
    ∷ ("api-url", "--api-url")
    ∷ []

-- those of the main render
abbrev pub pod_flags : List (String × String)
pod_flags =
    render_flags
    ++ ("startup-policy", "--startup-policy")
      ∷ ("on-delete", "--on-delete")
      ∷ ("max-document-bytes", "--max-document-bytes")
      ∷ ("max-staleness", "--max-staleness")
      ∷ []

-- the ways in which a render's keys and mounts are named: as they are, or with its suffix
module _ (label mount : String → String) (get : Lookup) (held : List Supplied) where
  abbrev found : Lookup
  found = defaulted get held

  -- the endpoint, and the secrets that become variables
  unfoldable pub addressed : Result Refused (Option String × Secrets)
  unfolding secret_ref level
  addressed =
      let pair = level get held "endpoint" "endpoint-secret" in
      do
        token ← secret_ref (label "token-secret") (found "token-secret")
        password ← secret_ref (label "password-secret") (found "password-secret")
        endpoint ← secret_ref (label "endpoint-secret") pair.1
        ensure (is_some pair.0 || is_some pair.1) (required (label "endpoint"))
        one_place (label "endpoint") (label "endpoint-secret") pair.0 pair.1
        ok (
          pair.0,
          named "DYNAMIC_CONFIG_AGENT_TOKEN" token
              ++ named "DYNAMIC_CONFIG_AGENT_PASSWORD" password
              ++ named "DYNAMIC_CONFIG_AGENT_ENDPOINT" endpoint,
        )

  abbrev key_file : ObjectRef → String × String
  key_file ssh = ("--ssh-key", mount "/etc/dynamic-config/ssh" ⊕ "/" ⊕ ssh.key)

  -- a mounted ssh key is the method, unless another is named
  unfoldable pub ssh_arguments : Option ObjectRef → Result Refused Arguments
  ssh_arguments none = ok []
  ssh_arguments (some ssh) = elim (found "auth") [
    | none ↦ ok (("--auth", "ssh-key") ∷ key_file ssh ∷ [])
    | some auth ↦
        if auth == "ssh-key"
        then ok (key_file ssh ∷ [])
        else err (at_odds (label "ssh-secret") (label "auth"))
  ]

  -- unauthenticated TLS: on offer only where the installation says so, and not beside an authority
  unfoldable pub skip_verify : Bool → Option ObjectRef → Result Refused Bool
  unfolding switched
  skip_verify allowed ca = do
    skip ← switched (label "tls-skip-verify") (found "tls-skip-verify") false
    ensure (not skip || allowed) (not_on_offer (label "tls-skip-verify"))
    ensure (not skip || is_none ca) (at_odds (label "tls-skip-verify") (label "ca-configmap"))
    ok skip

  abbrev authority : ObjectRef → Arguments
  authority ca = ("--ca", mount "/etc/dynamic-config/ca" ⊕ "/" ⊕ ca.key) ∷ []

  unfoldable pub reached :
      Bool → List (String × String) → Option String × Secrets → Result Refused (Reach × Bool)
  unfolding ssh_arguments skip_verify pass_through object_ref
  reached allowed flags address =
      let ssh = object_ref "ssh-privatekey" (found "ssh-secret") in
      let ca = object_ref "ca.crt" (found "ca-configmap") in
      do
        keyed ← ssh_arguments ssh
        skip ← skip_verify allowed ca
        ok (
          record {
            endpoint = address.0;
            secret_env = address.1;
            arguments =
                pass_through found flags
                ++ keyed
                ++ when ca authority
                ++ when (found "tls-server-name") (λ name. ("--tls-server-name", name) ∷ [])
                ++ (if skip then ("--tls-skip-verify", "") ∷ [] else []);
            ca = ca;
            ssh = ssh;
          },
          skip,
        )

  abbrev template_file : ObjectRef → Arguments
  template_file reference =
      ("--template", mount "/etc/dynamic-config/template" ⊕ "/" ⊕ reference.key) ∷ []

  -- one template, in one place
  unfoldable pub templated : Result Refused (Option ObjectRef × Arguments)
  unfolding level object_ref
  templated =
      let pair = level get held "template" "template-configmap" in
      let reference = object_ref "template" pair.1 in
      do
        one_place (label "template") (label "template-configmap") pair.0 reference
        ok (
          reference,
          when pair.0 (λ text. ("--template-inline", text) ∷ []) ++ when reference template_file,
        )

  abbrev pub certificate : Option String → Arguments
  certificate tls = when tls (λ _.
      ("--tls-cert", mount "/etc/dynamic-config/tls" ⊕ "/tls.crt")
      ∷ ("--tls-key", mount "/etc/dynamic-config/tls" ⊕ "/tls.key")
      ∷ [])
