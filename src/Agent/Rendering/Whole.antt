-- ===== src/Agent/Rendering/Whole.antt =====
-- dynamic-config-agent/src/render.rs: what a rendered set is, and what keeps one from being rendered.
use Prim.Native.String.{len}
use dynamic_config_k8s.Prelude.{
  ℕ, ◌≡◌, refl, subst, Option, List, [], ◌∷◌, map, leb, ok, ensure, map_err, >>=-eq-ok,
}
use dynamic_config_k8s.Prelude.Yields.{ok-injective, Yields, Yields-ok, Yields-bind}
use dynamic_config_k8s.Agent.Files.{FilePath, Published}
use dynamic_config_k8s.Agent.Arguments.Fields.{Spec, Rendering}
use dynamic_config_k8s.Agent.Rendering.{
  Engine, Document, over_ceiling, of_output, resolve, render, validate, expected, render_fetched,
  render_also, render_each, render_all, ceiling_of,
}

-- where a file goes, and the permissions that it lands with
abbrev pub landing : Published → FilePath × Option ℕ
landing file = (file.out, file.file_mode)

abbrev pub asked : Rendering → FilePath × Option ℕ
asked rendering = (rendering.out, rendering.file_mode)

abbrev pub landings : Spec → List (FilePath × Option ℕ)
landings spec = (spec.out, spec.settings.file_mode) ∷ map asked spec.also

module _ {F E : Type 0} (engine : Engine F E) (fetched : Document F) where
  landing-render_also :
      (spec : Spec) (rendering : Rendering)
      → Yields (λ file. landing file ≡ asked rendering) (render_also engine fetched spec rendering)
  unfolding render_also
  landing-render_also spec rendering =
      Yields-bind (map_err (of_output rendering.out) (resolve engine fetched rendering.section)) _
        (λ document _.
          Yields-bind
            (map_err (of_output rendering.out) (validate engine spec.settings.schema document)) _
            (λ _ _. Yields-bind (expected engine rendering.out) _ (λ format _.
              Yields-bind (map_err (of_output rendering.out) (render engine document format)) _
                (λ rendered _. Yields-ok _ refl))))

  landing-render_each :
      (spec : Spec) (renderings : List Rendering)
      → Yields
          (λ set. map landing set ≡ map asked renderings)
          (render_each engine fetched spec renderings)
  unfolding render_each
  landing-render_each spec [] = Yields-ok [] refl
  landing-render_each spec (rendering ∷ more) =
      Yields-bind (render_also engine fetched spec rendering) _ (λ first e.
        Yields-bind (render_each engine fetched spec more) _ (λ rest f. Yields-ok (first ∷ rest) (
          let here = (landing-render_also spec rendering).at first e in
          let later = (landing-render_each spec more).at rest f in cc)))

  -- A set that is rendered is the whole set: one file for each output that was asked for, in their order,
  -- at its path and with its permissions.
  pub landing-render_all :
      (spec : Spec) (set : List Published)
      → render_all engine spec fetched ≡ ok set
      → map landing set ≡ landings spec
  unfolding render_all
  landing-render_all spec set e =
      let (_, _, e1) =
        >>=-eq-ok
          (ensure (leb (len fetched.text) (ceiling_of engine spec.settings.max_document_bytes))
            over_ceiling)
          _ e in
      let (main, _, e2) = >>=-eq-ok (render_fetched engine fetched spec) _ e1 in
      let (rest, read, e3) = >>=-eq-ok (render_each engine fetched spec spec.also) _ e2 in
      subst (λ s. map landing s ≡ landings spec) (ok-injective e3)
        (let later = (landing-render_each spec spec.also).at rest read in cc)
