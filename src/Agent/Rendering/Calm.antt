-- ===== src/Agent/Rendering/Calm.antt =====
-- dynamic-config-agent/src/render.rs: an `expect` of a format always holds.
use dynamic_config_k8s.Agent.Arguments.{from_args, is_templated}
use dynamic_config_k8s.Agent.Arguments.Served.{from_args-IsServed, HasFormat}
use Prim.Native.String.{len}
use dynamic_config_k8s.Prelude.{
  arith, ◌||◌, err, All, String, ◌≡◌, refl, ap, inl, inr, Bool, true, false, Option, none, some,
  List, [], ◌∷◌, leb, Option-cases, ok,
}
use dynamic_config_k8s.Prelude.Fails.{Fails-ensure, Fails, Fails-ok, Fails-bind, Fails-map_err}
use dynamic_config_k8s.Prelude.Texts.{is_some}
use dynamic_config_k8s.Json.{Value}
use dynamic_config_k8s.Agent.Files.{FilePath}
use dynamic_config_k8s.Agent.Formats.{OutputFormat, of, json, toml, yaml, ini, properties}
use dynamic_config_k8s.Agent.Flat.{flat_ini, flat_properties}
use dynamic_config_k8s.Agent.Arguments.Fields.{Environment, Spec, Rendering}
use dynamic_config_k8s.Agent.Rendering.{
  emit, Engine, Fault, Document, refused, flat, over_ceiling, panicked, of_output, resolve, render,
  validate, expected, render_fetched, render_also, render_each, render_all, ceiling_of,
}

module _ {F E : Type 0} (engine : Engine F E) (fetched : Document F) where
  abbrev pub panics : Fault E → Bool
  panics (refused _) = false
  panics (flat _) = false
  panics over_ceiling = false
  panics panicked = true
  panics (of_output _ why) = panics why

  abbrev Calm : Fault E → Type 0
  Calm why = panics why ≡ false

  expected-Calm : (out : FilePath) → is_some (of out) ≡ true → Fails Calm (expected engine out)
  expected-Calm out h = elim (Option-cases (of out)) [
    | inl e ↦ cc (ap is_some e, h)
    | inr (format, e) ↦ rw e (Fails-ok format)
  ]

  resolve-Calm : (section : Option String) → Fails Calm (resolve engine fetched section)
  unfolding resolve
  resolve-Calm section = Fails-map_err refused _ (λ d _. refl)

  render-Calm :
      (document : Value) (format : OutputFormat) → Fails Calm (render engine document format)
  unfolding render
  render-Calm document json =
      Fails-bind _ _ (Fails-map_err refused (engine.to_string_pretty document) (λ d _. refl))
        (λ a _. Fails-ok _)
  render-Calm document toml = Fails-map_err refused (engine.to_toml document) (λ d _. refl)
  render-Calm document yaml = Fails-map_err refused (engine.to_yaml document) (λ d _. refl)
  render-Calm document ini = Fails-map_err flat (flat_ini engine.to_string document) (λ d _. refl)
  render-Calm document properties =
      Fails-map_err flat (flat_properties engine.to_string document) (λ d _. refl)

  validate-Calm :
      (schema : Option FilePath) (document : Value) → Fails Calm (validate engine schema document)
  unfolding validate
  validate-Calm none document = Fails-ok tt
  validate-Calm (some schema) document =
      Fails-map_err refused (engine.satisfies schema document) (λ d _. refl)

  emit-Calm :
      (spec : Spec) (document : Value)
      → is_templated spec.settings || is_some (of spec.out) ≡ true
      → Fails Calm (emit engine spec document)
  unfolding emit
  emit-Calm spec document h = elim (Option-cases spec.settings.template) [
    | inr (path, e) ↦
        rw (emit, e)
          (Fails-bind _ _ (Fails-map_err refused (engine.read_file path) (λ d _. refl))
            (λ text _. Fails-map_err refused (engine.template text document) (λ d _. refl)))
    | inl e ↦ elim (Option-cases spec.settings.template_inline) [
      | inr (text, f) ↦
          rw (emit, e, f) (Fails-map_err refused (engine.template text document) (λ d _. refl))
      | inl f ↦
          rw (emit, e, f)
            (Fails-bind _ _ (expected-Calm spec.out (ground (arith, ap is_some e, ap is_some f)))
              (λ format _. render-Calm document format))
    ]
  ]

  render_fetched-Calm :
      (spec : Spec)
      → is_templated spec.settings || is_some (of spec.out) ≡ true
      → Fails Calm (render_fetched engine fetched spec)
  unfolding render_fetched
  render_fetched-Calm spec h = Fails-bind _ _ (resolve-Calm spec.settings.section) (λ document _.
      Fails-bind _ _ (validate-Calm spec.settings.schema document)
        (λ _ _. emit-Calm spec document h))

  render_also-Calm :
      (spec : Spec) (rendering : Rendering)
      → HasFormat rendering
      → Fails Calm (render_also engine fetched spec rendering)
  unfolding render_also
  render_also-Calm spec rendering h =
      Fails-bind _ _
        (Fails-map_err (of_output rendering.out) (resolve engine fetched rendering.section)
          (resolve-Calm rendering.section).at)
        (λ document _.
          Fails-bind _ _
            (Fails-map_err (of_output rendering.out) (validate engine spec.settings.schema document)
              (validate-Calm spec.settings.schema document).at)
            (λ _ _. Fails-bind _ _ (expected-Calm rendering.out h) (λ format _.
              Fails-bind _ _
                (Fails-map_err (of_output rendering.out) (render engine document format)
                  (render-Calm document format).at)
                (λ _ _. Fails-ok _))))

  render_each-Calm :
      (spec : Spec) (renderings : List Rendering)
      → All HasFormat renderings
      → Fails Calm (render_each engine fetched spec renderings)
  unfolding render_each
  render_each-Calm spec [] h = Fails-ok []
  render_each-Calm spec (rendering ∷ more) (here, later) =
      Fails-bind _ _ (render_also-Calm spec rendering here)
        (λ _ _. Fails-bind _ _ (render_each-Calm spec more later) (λ _ _. Fails-ok _))

  -- With a specification that the command line gave, no document makes the agent panic while it renders:
  -- what goes wrong is an error that is returned.
  pub render_all-panics :
      (env : Environment) (arguments : List String) (spec : Spec) (why : Fault E)
      → from_args env arguments ≡ ok spec
      → render_all engine spec fetched ≡ err why
      → panics why ≡ false
  unfolding render_all
  render_all-panics env arguments spec why accepted =
      let (_, checked, formats) = from_args-IsServed env arguments spec accepted in
      (Fails-bind _ _
          (Fails-ensure
            (leb (len fetched.text) (ceiling_of engine spec.settings.max_document_bytes))
            over_ceiling refl)
          (λ _ _. Fails-bind _ _ (render_fetched-Calm spec checked.2) (λ _ _.
            Fails-bind _ _ (render_each-Calm spec spec.also formats) (λ _ _. Fails-ok _)))).at
        why
