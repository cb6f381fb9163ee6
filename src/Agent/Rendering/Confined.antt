-- ===== src/Agent/Rendering/Confined.antt =====
-- dynamic-config-agent/src: the command line, the rendering and the loop together: what the agent never
-- touches.
use dynamic_config_k8s.Prelude.{
  ℕ, String, ◌≡◌, refl, ap, ◌∙◌, Bool, false, not, ◌||◌, Option, List, [], ◌∷◌, map, arith, ◌==◌,
  any, Result,
}
use dynamic_config_k8s.Prelude.Texts.{is_some}
use dynamic_config_k8s.Agent.Files.{FilePath, Published}
use dynamic_config_k8s.Agent.Publishing.{Io}
use dynamic_config_k8s.Agent.Publishing.Written.{avoids}
use dynamic_config_k8s.Agent.Arguments.Fields.{Spec, Rendering}
use dynamic_config_k8s.Agent.Rendering.{Engine, Document, Fault, render_all}
use dynamic_config_k8s.Agent.Rendering.Whole.{asked, landing, landings, landing-render_all}
use dynamic_config_k8s.Agent.Sidecar.{Target, Spec as LoopSpec, Fetched, Loop, Event, outputs}
use dynamic_config_k8s.Agent.Sidecar.Outside.{IsAway, traces-run, run, state, there}

-- what the loop reads of a specification; the cohort and the kind of container come from the pod
abbrev pub loop_spec : Option ℕ → Bool → Spec → LoopSpec
loop_spec cohort native spec = record {
  output = record {
    history = spec.settings.history;
    notifies = is_some spec.settings.notify_http;
    meta = spec.settings.meta;
  };
  main = record { out = spec.out; file_mode = spec.settings.file_mode };
  also = map (λ (r : Rendering). record { out = r.out; file_mode = r.file_mode }) spec.also;
  startup_policy = spec.settings.startup_policy;
  on_delete = spec.settings.on_delete;
  on_drift = spec.settings.on_drift;
  cohort = cohort;
  revoke_on_shutdown = spec.settings.revoke_on_shutdown;
  tls_reload = spec.settings.tls_reload;
  native = native;
}

-- a path among those that something lands at
abbrev lands : FilePath → List (FilePath × Option ℕ) → Bool
lands path pairs = any (λ pair. pair.0 == path) pairs

avoids-lands :
    (path : FilePath) (set : List Published) → avoids path set ≡ not (lands path (map landing set))
avoids-lands path [] = refl
avoids-lands path (file ∷ more) = ground (arith, avoids-lands path more)

outputs-lands :
    (path : FilePath) (cohort : Option ℕ) (native : Bool) (spec : Spec)
    → any (λ out. out == path) (outputs (loop_spec cohort native spec)) ≡ lands path (landings spec)
outputs-lands path cohort native spec =
    ap (λ rest. spec.out == path || rest) (also-lands path spec.also)
  where
    also-lands :
        (p : FilePath) (also : List Rendering)
        → any
            (λ out. out == p)
            (map
              (λ (t : Target). t.out)
              (map (λ (r : Rendering). record { out = r.out; file_mode = r.file_mode }) also))
          ≡ lands p (map asked also)
    also-lands p [] = refl
    also-lands p (r ∷ more) = ap (λ rest. r.out == p || rest) (also-lands p more)

module _ {F E : Type 0} (engine : Engine F E) (spec : Spec) where
  abbrev pub rendered_from : Fetched (Document F) → Result (Fault E) (List Published)
  rendered_from fetched = render_all engine spec fetched.value

  -- Whatever the store answers and in whatever order things happen, the agent publishes nothing but the
  -- outputs of its specification: at any other path, no document is written, emptied or replaced, no
  -- generation is kept, and no description is made, if what the loop holds at its start has no such path.
  -- (The hidden files that keep generations, descriptions and half-written documents beside an output are
  -- not paths of this model.)
  pub traces-run-render_all :
      (digest : String → String) (cohort : Option ℕ) (native : Bool) (path : FilePath)
      (events : List (Io × Event (Document F))) (l : Loop (Document F))
      → lands path (landings spec) ≡ false
      → IsAway path l
      → there path (state (run digest rendered_from (loop_spec cohort native spec) events l))
        ≡ there path l
  traces-run-render_all digest cohort native path events l other =
      traces-run digest rendered_from (loop_spec cohort native spec) path
        (λ document set e.
          avoids-lands path set
          ∙ ap (λ pairs. not (lands path pairs))
              (landing-render_all engine document.value spec set e)
          ∙ ap not other)
        (outputs-lands path cohort native spec ∙ other) events l
