-- ===== src/Agent/Arguments/Served.antt =====
-- dynamic-config-agent/src/spec.rs: what holds of every specification that a command line gives.
use dynamic_config_k8s.Prelude.{
  ensure-true, ℕ, String, ◌≡◌, refl, sym, subst, ◌⊎◌, inl, inr, Bool, true, false, not, ◌&&◌, ◌||◌,
  Option, none, some, List, [], ◌∷◌, arith, if◌then◌else◌, Bool-cases, Option-cases, ◌==◌, All, ok,
  ensure, ok_or, >>=-eq-ok,
}
use dynamic_config_k8s.Prelude.Yields.{Yields, Yields-ok, Yields-err, Yields-bind}
use dynamic_config_k8s.Prelude.Texts.{is_some}
use dynamic_config_k8s.Agent.Formats.{of}
use dynamic_config_k8s.Agent.Arguments.Auth.{validated_auth}
use dynamic_config_k8s.Agent.Arguments.{
  only, also_no_format, also_without_out, split, read_parts, apply_settings, read_flags,
  known_source, is_templated, both_or_neither, parse_rendering, parse_renderings, validated,
  from_args,
}
use dynamic_config_k8s.Agent.Arguments.Fields.{
  required, unknown_source, unpaired_tls, two_templates, no_format, Draft, Spec, Rendering,
  Environment, initial, unknown_flag, needs_value,
}
use dynamic_config_k8s.Agent.Arguments.Flags.{Flag, switch, draft, plain, checked, flags, flag_in}
use dynamic_config_k8s.Agent.Arguments.Sound.{IsSound, Keeps, flags-Keeps}

found_here :
    {A : Type 0} (b : Bool) (x y : A) (rest : Option A)
    → b ≡ true
    → (if b then some x else rest) ≡ some y
    → x ≡ y
found_here true x y rest h e = cc
found_here false x y rest h e = cc

found_later :
    {A : Type 0} (b : Bool) (x : A) (rest found : Option A)
    → b ≡ false
    → (if b then some x else rest) ≡ found
    → rest ≡ found
found_later true x rest found h e = cc
found_later false x rest found h e = e

flag_in-Keeps :
    (name : String) (table : List (String × Flag)) (flag : Flag)
    → All (λ entry. Keeps entry.1) table
    → flag_in name table ≡ some flag
    → Keeps flag
unfolding flag_in
flag_in-Keeps name [] flag h e = cc
flag_in-Keeps name ((held, first) ∷ more) flag (here, later) e = elim (Bool-cases (held == name)) [
  | inl same ↦ subst Keeps (found_here (held == name) first flag (flag_in name more) same e) here
  | inr other ↦
      flag_in-Keeps name more flag later
        (found_later (held == name) first (flag_in name more) (some flag) other e)
]

abbrev Flag-at : String → Type 0
Flag-at name =
    (flag_in name flags ≡ none) ⊎ ((flag : Flag) × (flag_in name flags ≡ some flag) × Keeps flag)

Flag-at-cases : (name : String) → Flag-at name
Flag-at-cases name = elim (Option-cases (flag_in name flags)) [
  | inl e ↦ inl e
  | inr (flag, e) ↦ inr (flag, e, flag_in-Keeps name flags flag flags-Keeps e)
]

-- Whatever flags are read, in whatever order, the settings stay sound.
read_flags-IsSound :
    (arguments : List String) (d : Draft)
    → IsSound d.settings
    → Yields (λ d'. IsSound d'.settings) (read_flags arguments d)
unfolding read_flags
read_flags-IsSound [] d h = Yields-ok d h
read_flags-IsSound (name ∷ []) d h = elim (Flag-at-cases name) [
  | inl e ↦ rw (read_flags, e) (Yields-err (unknown_flag name))
  | inr (switch f, e, keeps) ↦ rw (read_flags, e) (Yields-ok _ (keeps d.settings h))
  | inr (draft f, e, keeps) ↦ rw (read_flags, e) (Yields-err (needs_value name))
  | inr (plain f, e, keeps) ↦ rw (read_flags, e) (Yields-err (needs_value name))
  | inr (checked f, e, keeps) ↦ rw (read_flags, e) (Yields-err (needs_value name))
]
read_flags-IsSound (name ∷ value ∷ more) d h = elim (Flag-at-cases name) [
  | inl e ↦ rw (read_flags, e) (Yields-err (unknown_flag name))
  | inr (switch f, e, keeps) ↦
      rw (read_flags, e)
        (read_flags-IsSound (value ∷ more) (apply_settings f d) (keeps d.settings h))
  | inr (draft f, e, keeps) ↦
      rw (read_flags, e) (read_flags-IsSound more (f value d) (keeps value d h))
  | inr (plain f, e, keeps) ↦
      rw (read_flags, e)
        (read_flags-IsSound more (apply_settings (f value) d) (keeps value d.settings h))
  | inr (checked f, e, keeps) ↦
      rw (read_flags, e)
        (Yields-bind (f value d.settings) _ (λ s fine.
          read_flags-IsSound more (record d { settings = s })
            ((keeps value d.settings h).at s fine)))
]

-- a file of a format that the agent writes
abbrev pub HasFormat : Rendering → Type 0
HasFormat rendering = is_some (of rendering.out) ≡ true

parse_rendering-HasFormat :
    (default_mode : Option ℕ) (text : String) → Yields HasFormat (parse_rendering default_mode text)
unfolding parse_rendering
parse_rendering-HasFormat default_mode text =
    Yields-bind
      (read_parts (split b',' text)
        (record { out = none; section = none; file_mode = default_mode }))
      _
      (λ parts _. Yields-bind (ok_or parts.out also_without_out) _ (λ out _.
        Yields-bind (ensure (is_some (of out)) also_no_format) _
          (λ _ h. Yields-ok _ (ensure-true (is_some (of out)) also_no_format h))))

parse_renderings-HasFormat :
    (default_mode : Option ℕ) (texts : List String)
    → Yields (All HasFormat) (parse_renderings default_mode texts)
unfolding parse_renderings
parse_renderings-HasFormat default_mode [] = Yields-ok [] tt
parse_renderings-HasFormat default_mode (text ∷ more) =
    Yields-bind (parse_rendering default_mode text) _ (λ r e.
      Yields-bind (parse_renderings default_mode more) _ (λ rest f. Yields-ok (r ∷ rest) (
        (parse_rendering-HasFormat default_mode text).at r e,
        (parse_renderings-HasFormat default_mode more).at rest f,
      )))

abbrev pub IsChecked : Spec → Type 0
IsChecked spec =
    (known_source spec.source ≡ true)
    × (is_some spec.settings.tls_cert ≡ is_some spec.settings.tls_key)
    × (is_templated spec.settings || is_some (of spec.out) ≡ true)

paired : (a b : Bool) → both_or_neither a b ≡ true → a ≡ b
paired a b h = ground arith

pub validated-IsChecked : (spec : Spec) → Yields (λ s. IsChecked s × (s ≡ spec)) (validated spec)
unfolding validated
validated-IsChecked spec =
    let s = spec.settings in
    Yields-bind (ensure (known_source spec.source) (unknown_source spec.source)) _ (λ _ known.
      Yields-bind (ensure (both_or_neither (is_some s.tls_cert) (is_some s.tls_key)) unpaired_tls) _
        (λ _ pair. Yields-bind (only "--ref" (spec.source == "git") s.reference) _ (λ _ _.
          Yields-bind (only "--ssh-key" (spec.source == "git") s.ssh_key) _ (λ _ _.
            Yields-bind
              (only "--api-url" (spec.source == "firestore" || spec.source == "s3") s.api_url) _
              (λ _ _.
                Yields-bind (only "--namespace" (spec.source == "vault") s.namespace) _ (λ _ _.
                  Yields-bind (validated_auth spec) _ (λ _ _.
                    Yields-bind
                      (ensure (not (is_some s.template && is_some s.template_inline)) two_templates)
                      _
                      (λ _ _.
                        Yields-bind (ensure (is_templated s || is_some (of spec.out)) no_format) _
                          (λ _ format. Yields-ok spec (
                            (
                              ensure-true (known_source spec.source) (unknown_source spec.source)
                                  known,
                              paired (is_some s.tls_cert) (is_some s.tls_key) (
                                  ensure-true
                                    (both_or_neither (is_some s.tls_cert) (is_some s.tls_key))
                                    unpaired_tls pair),
                              ensure-true (is_templated s || is_some (of spec.out)) no_format
                                  format,
                            ),
                            refl,
                          ))))))))))

initial-IsSound : (env : Environment) → IsSound (initial env).settings
initial-IsSound env = (tt, omega arith, tt, tt, omega arith, tt, tt)

-- Every command line that is accepted names a known store, both halves of a client certificate or
-- neither, a format for each file that no template writes, permissions with which the agent can read its
-- main file, a bounded history, positive times, and nothing to call outside its own pod.
pub from_args-IsServed :
    (env : Environment) (arguments : List String) (spec : Spec)
    → from_args env arguments ≡ ok spec
    → IsSound spec.settings × IsChecked spec × All HasFormat spec.also
unfolding from_args
from_args-IsServed env arguments spec e =
    let (d, read, e1) = >>=-eq-ok (read_flags arguments (initial env)) _ e in
    let (source, _, e2) = >>=-eq-ok (ok_or d.source (required "--source")) _ e1 in
    let (endpoint, _, e3) = >>=-eq-ok (ok_or d.endpoint (required "--endpoint")) _ e2 in
    let (key, _, e4) = >>=-eq-ok (ok_or d.key (required "--key")) _ e3 in
    let (out, _, e5) = >>=-eq-ok (ok_or d.out (required "--out")) _ e4 in
    let (also, parsed, e6) = >>=-eq-ok (parse_renderings d.settings.file_mode d.also) _ e5 in
    let built : Spec = record {
      source = source;
      endpoint = endpoint;
      key = key;
      out = out;
      also = also;
      settings = d.settings;
    } in
    let (checked_of, same) = (validated-IsChecked built).at spec e6 in
    (
      subst (λ s. IsSound s.settings) (sym same)
          ((read_flags-IsSound arguments (initial env) (initial-IsSound env)).at d read),
      checked_of,
      subst (λ s. All HasFormat s.also) (sym same)
          ((parse_renderings-HasFormat d.settings.file_mode d.also).at also parsed),
    )
