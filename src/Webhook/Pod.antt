-- ===== src/Webhook/Pod.antt =====
-- dynamic-config-webhook/src/annotations.rs, `of_pod_with`: what a pod asks for, stage by stage in the
-- order of the code, so that the first thing that is wrong is what is refused.
pub mod Shape
pub mod Reading
pub mod Store
pub mod Named
pub mod Sidecar
pub mod Around
pub mod Containers
pub mod Coherent
pub mod Admitted
pub mod Pinned
pub mod Prevails
pub mod Guarded
pub mod Reaches
pub mod Stages
pub mod Handover
pub mod Fitting
mod Tests
use Prim.Native.Nat.{Ordering}
use Prim.Native.String.{len, compare}
use dynamic_config_k8s.Prelude.{
  ℕ, ◌+◌, ◌-◌, ◌/◌, String, Bool, true, false, not, ◌&&◌, ◌||◌, Option, none, some, List, [], ◌∷◌,
  ◌++◌, leb, nat_eq, if◌then◌else◌, ◌==◌, any, Result, ok, err, ◌>>=◌, ◌>>◌, ensure,
}
use dynamic_config_k8s.Prelude.Texts.{
  empty_text, all_chars, is_lower, is_digit, strip_prefix, split_once, starts_with, parent, ◌⊕◌,
}
use dynamic_config_k8s.Json.{Value, Fields, object, no_fields, field, field_of, pointer, as_text}
use dynamic_config_k8s.Webhook.Contract.{prefix, is_known, is_per_render}
use dynamic_config_k8s.Webhook.Scopes.{is_source}
use dynamic_config_k8s.Webhook.Installation.{Installation, supplied_source, store_strings, or_else}
use dynamic_config_k8s.Webhook.Pod.Shape.{
  Refused, Request, Rendering, ObjectRef, ExtraRender, mark_without_container, foreign_mark,
  bad_value, not_in_contract, pinned_text, not_absolute, elsewhere,
}
use dynamic_config_k8s.Webhook.Pod.Reading.{
  Lookup, Checked, fine, respects, pairs, defaulted, object_ref, demanded,
}
use dynamic_config_k8s.Webhook.Pod.Store.{
  Arguments, when, pod_flags, addressed, reached, templated, certificate,
}
use dynamic_config_k8s.Webhook.Pod.Named.{extra_render, watch_of, mode_argument}
use dynamic_config_k8s.Webhook.Pod.Sidecar.{mode_of, container}
use dynamic_config_k8s.Webhook.Pod.Around.{behaviour}
use dynamic_config_k8s.Webhook.Pod.Containers.{
  already_injected, inject_containers, wrapped, agent_env, fleet_env,
}

-- the annotations of a pod, if it has any
abbrev pub annotations_of : Value → Option Fields
annotations_of pod = elim (pointer ("metadata" ∷ "annotations" ∷ []) pod) [
  | some (object fields) ↦ some fields
  | _ ↦ none
]

unfoldable pub lookup : Fields → Lookup
unfolding field_of
lookup annotations name = as_text (field_of (prefix ⊕ name) annotations)

-- the mark of an earlier pass: `true` if this pod was patched already
unfoldable pub marked : Value → Option String → Result Refused Bool
unfolding already_injected
marked pod none = ok false
marked pod (some mark) =
    if mark == "injected"
    then (if already_injected pod then ok true else err (mark_without_container "status"))
    else err (foreign_mark "status")

unfoldable pub asks : Option String → Result Refused Bool
asks none = ok false
asks (some text) =
    if text == "true"
    then ok true
    else if text == "false"
    then ok false
    else err (bad_value "inject" text)

abbrev suffix_char : ℕ → Bool
suffix_char c = is_lower c || is_digit c || nat_eq c b'-'

abbrev pub valid_suffix : String → Bool
valid_suffix suffix = not (empty_text suffix) && leb (len suffix) 32 && all_chars suffix_char suffix

-- the names of further renders, and of further renderings of the main document
pub record Names : Type 0 where
  pub extra : List String
  pub also : List String

abbrev pub is_also : String → Bool
is_also base = base == "also" || base == "also-section"

abbrev with_name : String → List String → List String
with_name name held = if any (λ n. n == name) held then held else held ++ name ∷ []

-- one key of this contract
unfoldable pub read_key : String → Names → Result Refused Names
unfolding split_once all_chars empty_text is_known is_per_render
read_key name names = if is_known name then ok names else elim (split_once b'.' name) [
  | none ↦ err (not_in_contract name)
  | some (base, suffix) ↦
      if is_also base && valid_suffix suffix
      then ok (record names { also = with_name suffix names.also })
      else if is_per_render base && valid_suffix suffix
      then ok (record names { extra = with_name suffix names.extra })
      else err (not_in_contract name)
]

unfoldable pub read_keys : Fields → Names → Result Refused Names
unfolding read_key
read_keys no_fields names = ok names
read_keys (field key _ more) names = elim (strip_prefix prefix key) [
  | none ↦ read_keys more names
  | some name ↦ read_key name names >>= read_keys more
]

abbrev comes_first : String → String → Bool
comes_first a b = elim (compare a b) [ Ordering.gt ↦ false | _ ↦ true ]

unfoldable pub insert_sorted : String → List String → List String
insert_sorted name [] = name ∷ []
insert_sorted name (held ∷ more) =
    let rest = insert_sorted name more in
    if comes_first name held then name ∷ held ∷ more else held ∷ rest

unfoldable pub sort_names : List String → List String
unfolding insert_sorted
sort_names [] = []
sort_names (name ∷ more) = insert_sorted name (sort_names more)

abbrev first_of : Option (String × Bool) → Option String
first_of none = none
first_of (some (source, _)) = some source

unfoldable pub known_source : Option String → Checked
known_source none = fine
known_source (some source) = ensure (is_source source) (bad_value "source" source)

unfoldable pub respects_source : Option String → Option (String × Bool) → Checked
respects_source (some pod) (some (fleet, true)) =
    ensure (pod == fleet) (pinned_text "source" pod fleet)
respects_source _ _ = fine

abbrev no_key_is_exempt : String → Bool
no_key_is_exempt key = false

-- the source that answers, once no pin of the installation is differed from
unfoldable pub store_of : Installation → Lookup → Result Refused (Option String)
unfolding known_source respects_source supplied_source store_strings respects pairs
store_of i get =
    let source = or_else (get "source") (first_of (supplied_source i)) in
    do
      known_source (get "source")
      respects_source (get "source") (supplied_source i)
      respects no_key_is_exempt get (store_strings i source)
      pairs get (store_strings i source)
      ok source

unfoldable pub extra_renders :
    Installation → Lookup → Option String → List String → Result Refused (List ExtraRender)
unfolding extra_render
extra_renders i get default_path [] = ok []
extra_renders i get default_path (suffix ∷ more) = do
  first ← extra_render i suffix (λ key. get (key ⊕ "." ⊕ suffix)) default_path
  rest ← extra_renders i get default_path more
  ok (first ∷ rest)

abbrev parent_of : Option String → Option String
parent_of none = none
parent_of (some path) = parent path

abbrev same_parent : Option String → Option String → Bool
same_parent none none = true
same_parent (some a) (some b) = a == b
same_parent _ _ = false

unfoldable pub renderings : Lookup → Option String → List String → Result Refused (List Rendering)
unfolding parent starts_with
renderings get default_path [] = ok []
renderings get default_path (suffix ∷ more) = do
  path ← demanded ("also." ⊕ suffix) (get ("also." ⊕ suffix))
  ensure (starts_with "/" path) (not_absolute ("also." ⊕ suffix))
  ensure (same_parent (parent path) (parent_of default_path)) (elsewhere ("also." ⊕ suffix))
  rest ← renderings get default_path more
  ok (record { name = suffix; path = path; section = get ("also-section." ⊕ suffix) } ∷ rest)

abbrev schema_file : ObjectRef → Arguments
schema_file reference = ("--schema", "/etc/dynamic-config/schema/" ⊕ reference.key) ∷ []

abbrev pub same : String → String
same key = key

-- a pod that asks for the agent
unfoldable pub requested : Installation → Value → Lookup → Names → Result Refused Request
unfolding store_of defaulted mode_of watch_of addressed reached container behaviour agent_env
    fleet_env inject_containers wrapped templated object_ref extra_renders renderings sort_names
requested i pod get names = do
  source ← store_of i get
  let held = store_strings i source
  let found = defaulted get held
  mode ← mode_of i source (get "mode")
  watch_seconds ← watch_of i source "watch-seconds" (get "watch-seconds")
  address ← addressed same same get held
  reach ← reached same same get held i.allow_tls_skip_verify pod_flags address
  box ← container i source pod get
  around ← behaviour i source pod get found mode box.volume_memory
  own_env ← agent_env around.aws_secret (get "agent-env")
  seen_by ← inject_containers pod (get "inject-containers")
  wrapped pod around.env_restart seen_by around.env_inject
  template ← templated same same get held
  let schema = object_ref "schema.json" (found "schema-configmap")
  let tls = found "tls-secret"
  extra ← extra_renders i get (found "path") (sort_names names.extra)
  also ← renderings get (found "path") (sort_names names.also)
  path ← demanded "path" (found "path")
  named ← demanded "source" source
  key ← demanded "key" (found "key")
  ok (record {
    source = named;
    key = key;
    path = path;
    mode = mode;
    watch_seconds = watch_seconds;
    reach = record reach.0 {
      arguments =
          reach.0.arguments
          ++ when box.file_mode mode_argument
          ++ template.1
          ++ when schema schema_file
          ++ certificate same same get held tls;
    };
    tls_server_name = found "tls-server-name";
    tls_skip_verify = reach.1;
    container = box;
    behaviour = around;
    agent_env = own_env;
    fleet_env = fleet_env i around.aws_secret own_env;
    inject_containers = seen_by;
    tls = tls;
    template = template.0;
    schema = schema;
    extra = extra;
    also = also;
  })

-- a pod with annotations: nothing, or what it asks for
unfoldable pub of_annotations : Installation → Value → Fields → Result Refused (Option Request)
unfolding marked asks read_keys requested lookup
of_annotations i pod annotations = do
  patched ← marked pod (lookup annotations "status")
  if patched then ok none else (do
    wanted ← asks (lookup annotations "inject")
    if wanted
        then (do
          names ← read_keys annotations (record { extra = []; also = [] })
          request ← requested i pod (lookup annotations) names
          ok (some request))
        else ok none)

unfoldable pub of_pod_with : Installation → Value → Result Refused (Option Request)
unfolding of_annotations pointer
of_pod_with i pod = elim (annotations_of pod) [
  | none ↦ ok none
  | some annotations ↦ of_annotations i pod annotations
]
