-- ===== src/Webhook/Pod/Named.antt =====
-- dynamic-config-webhook/src/annotations.rs, `extra_render`: a further render, whose keys end in its name.
-- A path is compared by the text of its directory; trailing and doubled slashes are not modelled.
use dynamic_config_k8s.Prelude.{
  ℕ, String, Bool, true, Option, none, some, [], ◌∷◌, ◌++◌, nat_eq, if◌then◌else◌, ◌==◌, Result, ok,
  ◌>>=◌, ◌>>◌, ensure, map_err,
}
use dynamic_config_k8s.Prelude.Texts.{◌⊕◌, parent}
use dynamic_config_k8s.Webhook.Contract.{prefix}
use dynamic_config_k8s.Webhook.Quantities.{octal_mode}
use dynamic_config_k8s.Webhook.Scopes.{is_source}
use dynamic_config_k8s.Webhook.Installation.{Installation, store_strings, supplied, knob, unwrap_or}
use dynamic_config_k8s.Webhook.Pod.Shape.{Refused, ExtraRender, bad_value, elsewhere, value_of}
use dynamic_config_k8s.Webhook.Pod.Reading.{
  Lookup, defaulted, respects, pairs, pin, number, demanded,
}
use dynamic_config_k8s.Webhook.Pod.Store.{
  Arguments, render_flags, addressed, reached, templated, certificate, when,
}

abbrev pub directory : String → String
directory path = unwrap_or (parent path) ""

-- whole seconds, against the store's tier
unfoldable pub watch_of : Installation → Option String → String → Option String → Result Refused ℕ
unfolding number supplied pin
watch_of i source key none = ok (unwrap_or (knob i source (λ k. k.watch_seconds)) 15)
watch_of i source key (some text) = do
  seconds ← number 64 key text
  pin nat_eq key (supplied i source "watch-seconds" (λ k. k.watch_seconds)) seconds
  ok seconds

unfoldable pub file_mode_of :
    Installation → Option String → String → Option String → Result Refused (Option String)
unfolding supplied pin
file_mode_of i source key none = ok (knob i source (λ k. k.file_mode))
file_mode_of i source key (some text) = do
  mode ← map_err value_of (octal_mode key text)
  pin (λ a b. a == b) key (supplied i source "file-mode" (λ k. k.file_mode)) mode
  ok (some mode)

abbrev pub mode_argument : String → Arguments
mode_argument mode = ("--file-mode", "0" ⊕ mode) ∷ []

abbrev nonzero : ℕ → Option ℕ
nonzero n = if nat_eq n 0 then none else some n

-- a port, or "0" for none
unfoldable pub port_of : String → Option String → Result Refused (Option ℕ)
unfolding number
port_of key none = ok none
port_of key (some text) = do port ← number 16 key text; ok (nonzero port)

abbrev pub same_directory : String → Option String → Bool
same_directory path none = true
same_directory path (some default) = directory path == directory default

-- a named render has its own path, which no tier answers for
abbrev pub is_path : String → Bool
is_path key = key == "path"

unfoldable pub extra_render :
    Installation → String → Lookup → Option String → Result Refused ExtraRender
unfolding store_strings respects pairs defaulted watch_of addressed port_of reached file_mode_of
    templated
extra_render i suffix get default_path =
    let label : String → String = λ key. prefix ⊕ key ⊕ "." ⊕ suffix in
    let mount : String → String = λ path. path ⊕ "-" ⊕ suffix in
    do
      source ← demanded (label "source") (get "source")
      ensure (is_source source) (bad_value (label "source") source)
      let held = store_strings i (some source)
      let found = defaulted get held
      respects is_path get held
      pairs get held
      key ← demanded (label "key") (found "key")
      path ← demanded (label "path") (get "path")
      ensure (same_directory path default_path) (elsewhere (label "path"))
      watch_seconds ← watch_of i (some source) (label "watch-seconds") (get "watch-seconds")
      address ← addressed label mount get held
      metrics_port ← port_of (label "metrics-port") (get "metrics-port")
      reach ← reached label mount get held i.allow_tls_skip_verify render_flags address
      file_mode ← file_mode_of i (some source) (label "file-mode") (get "file-mode")
      template ← templated label mount get held
      let tls = found "tls-secret"
      ok (record {
        name = suffix;
        metrics_port = metrics_port;
        source = source;
        key = key;
        path = path;
        watch_seconds = watch_seconds;
        reach = record reach.0 {
          arguments =
              reach.0.arguments
              ++ when file_mode mode_argument
              ++ template.1
              ++ certificate label mount get held tls;
        };
        tls = tls;
        template = template.0;
      })
