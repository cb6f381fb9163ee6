-- ===== src/Agent/Arguments.antt =====
-- dynamic-config-agent/src/spec.rs: `Spec::from_args`, from the command line to a specification.
pub mod Fields
pub mod Flags
pub mod Auth
mod Sound
pub mod Served
mod Tests
use dynamic_config_k8s.Prelude.{
  ℕ, ◌-◌, String, Bool, true, false, not, ◌&&◌, ◌||◌, Option, none, some, List, [], ◌∷◌,
  if◌then◌else◌, ◌==◌, Result, ok, err, ◌>>=◌, ◌>>◌, ensure, ok_or,
}
use dynamic_config_k8s.Prelude.Texts.{is_some, is_none, split, split_once, trim, parse_unsigned}
use dynamic_config_k8s.Agent.Files.{FilePath}
use dynamic_config_k8s.Agent.Formats.{of}
use dynamic_config_k8s.Agent.Arguments.Fields.{
  Refused, Settings, Draft, Spec, Rendering, Environment, initial, needs_value, unknown_flag,
  required, unknown_source, only_for, not_octal, unpaired_tls, two_templates, no_format,
  also_unpaired, also_unknown, also_without_out, also_no_format,
}
use dynamic_config_k8s.Agent.Arguments.Flags.{
  switch, draft, plain, checked, flags, flag_in, octal_digits,
}
use dynamic_config_k8s.Agent.Arguments.Auth.{validated_auth}

-- the variables of `Rendering::parse`
pub record Parts : Type 0 where
  pub out : Option FilePath
  pub section : Option String
  pub file_mode : Option ℕ

unfoldable pub set_part : String → String → Parts → Result Refused Parts
set_part name value parts =
    if name == "out"
    then ok (record parts { out = some value })
    else if name == "section"
    then ok (record parts { section = some value })
    else if name == "mode"
    then (do
      mode ← ok_or (parse_unsigned 8 32 (octal_digits value)) (not_octal "--also")
      ok (record parts { file_mode = some mode }))
    else err also_unknown

unfoldable pub read_parts : List String → Parts → Result Refused Parts
unfolding set_part
read_parts [] parts = ok parts
read_parts (item ∷ more) parts = do
  pair ← ok_or (split_once b'=' item) also_unpaired
  next ← set_part (trim pair.0) pair.1 parts
  read_parts more next

unfoldable pub parse_rendering : Option ℕ → String → Result Refused Rendering
unfolding read_parts
parse_rendering default_mode text = do
  parts ←
      read_parts (split b',' text) (record { out = none; section = none; file_mode = default_mode })
  out ← ok_or parts.out also_without_out
  ensure (is_some (of out)) also_no_format
  ok (record { out = out; section = parts.section; file_mode = parts.file_mode })

unfoldable pub parse_renderings : Option ℕ → List String → Result Refused (List Rendering)
parse_renderings default_mode [] = ok []
parse_renderings default_mode (text ∷ more) = do
  rendering ← parse_rendering default_mode text
  rest ← parse_renderings default_mode more
  ok (rendering ∷ rest)

abbrev pub apply_settings : (Settings → Settings) → Draft → Draft
apply_settings f d = record d { settings = f d.settings }

-- the loop over the arguments
unfoldable pub read_flags : List String → Draft → Result Refused Draft
read_flags [] d = ok d
read_flags (name ∷ []) d = elim (flag_in name flags) [
  | none ↦ err (unknown_flag name)
  | some (switch f) ↦ ok (apply_settings f d)
  | some _ ↦ err (needs_value name)
]
read_flags (name ∷ value ∷ more) d = elim (flag_in name flags) [
  | none ↦ err (unknown_flag name)
  | some (switch f) ↦ read_flags (value ∷ more) (apply_settings f d)
  | some (draft f) ↦ read_flags more (f value d)
  | some (plain f) ↦ read_flags more (apply_settings (f value) d)
  | some (checked f) ↦ do s ← f value d.settings; read_flags more (record d { settings = s })
]

abbrev pub known_source : String → Bool
known_source source =
    source == "consul"
    || source == "vault"
    || source == "config-server"
    || source == "firestore"
    || source == "git"
    || source == "redis"
    || source == "etcd"
    || source == "nats"
    || source == "s3"

-- a flag of some stores only
abbrev pub only : {A : Type 0} → String → Bool → Option A → Result Refused (Unit {0})
only flag its held = ensure (is_none held || its) (only_for flag)

abbrev pub is_templated : Settings → Bool
is_templated s = is_some s.template || is_some s.template_inline

abbrev both_or_neither : Bool → Bool → Bool
both_or_neither true b = b
both_or_neither false b = not b

unfoldable pub validated : Spec → Result Refused Spec
unfolding validated_auth
validated spec =
    let s = spec.settings in
    do
      ensure (known_source spec.source) (unknown_source spec.source)
      ensure (both_or_neither (is_some s.tls_cert) (is_some s.tls_key)) unpaired_tls
      only "--ref" (spec.source == "git") s.reference
      only "--ssh-key" (spec.source == "git") s.ssh_key
      only "--api-url" (spec.source == "firestore" || spec.source == "s3") s.api_url
      only "--namespace" (spec.source == "vault") s.namespace
      validated_auth spec
      ensure (not (is_some s.template && is_some s.template_inline)) two_templates
      ensure (is_templated s || is_some (of spec.out)) no_format
      ok spec

unfoldable pub from_args : Environment → List String → Result Refused Spec
unfolding validated parse_renderings
from_args env arguments = do
  d ← read_flags arguments (initial env)
  source ← ok_or d.source (required "--source")
  endpoint ← ok_or d.endpoint (required "--endpoint")
  key ← ok_or d.key (required "--key")
  out ← ok_or d.out (required "--out")
  also ← parse_renderings d.settings.file_mode d.also
  validated (record {
    source = source;
    endpoint = endpoint;
    key = key;
    out = out;
    also = also;
    settings = d.settings;
  })
