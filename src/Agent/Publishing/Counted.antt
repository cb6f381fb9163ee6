-- ===== src/Agent/Publishing/Counted.antt =====
-- dynamic-config-agent/src/sidecar.rs, `publish`: what is counted.
use dynamic_config_k8s.Prelude.{
  suc, String, ◌≡◌, refl, ◌∙◌, Option, List, [], ◌∷◌, arith, if◌then◌else◌, all,
}
use dynamic_config_k8s.Agent.Files.{FilePath, Published}
use dynamic_config_k8s.Agent.Metrics.{Metrics, Revision, rendered, generation}
use dynamic_config_k8s.Agent.Publishing.{
  Io, Output, World, counting, keep_previous, write_file, write_all, describe, acknowledge_first,
  finish, publish,
}

metrics-keep_previous :
    (io : Io) (spec : Output) (path : FilePath) (w : World)
    → (keep_previous io spec path w).metrics ≡ w.metrics
unfolding keep_previous
metrics-keep_previous io spec path w = ground arith

metrics-write_all :
    (io : Io) (spec : Output) (set : List Published) (w : World)
    → (write_all io spec set w).0.metrics ≡ w.metrics
unfolding write_all write_file
metrics-write_all io spec [] w = refl
metrics-write_all io spec (file ∷ more) w =
    let kept = keep_previous io spec file.out w in
    ground (
      arith,
      metrics-write_all io spec more (write_file file kept),
      metrics-keep_previous io spec file.out w,
    )

metrics-describe :
    (digest : String → String) (io : Io) (revision : Option Revision) (set : List Published)
    (w : World)
    → (describe digest io revision set w).metrics ≡ w.metrics
unfolding describe
metrics-describe digest io revision [] w = refl
metrics-describe digest io revision (file ∷ more) w =
    metrics-describe digest io revision more _ ∙ ground arith

abbrev pub after_render :
    (String → String) → Io → List Published → Option Revision → Metrics → Metrics
after_render digest io set revision m =
    acknowledge_first digest set (generation revision (rendered io.now m))

metrics-finish :
    (digest : String → String) (io : Io) (spec : Output) (set : List Published)
    (revision : Option Revision) (w : World)
    → (finish digest io spec set revision w).metrics ≡ after_render digest io set revision w.metrics
unfolding finish
metrics-finish digest io spec set revision w =
    let counted = counting (after_render digest io set revision) w in
    let told : World =
      if spec.notifies then record counted { calls = suc counted.calls } else counted in
    ground (arith, metrics-describe digest io revision set told)

write_all-eq-all :
    (io : Io) (spec : Output) (set : List Published) (w : World)
    → (write_all io spec set w).1 ≡ all (λ file. io.writes file.out) set
unfolding write_all
write_all-eq-all io spec [] w = refl
write_all-eq-all io spec (file ∷ more) w =
    ground
      (arith, write_all-eq-all io spec more (write_file file (keep_previous io spec file.out w)))

-- A set counts as a render, with its revision and its main document's fingerprint, exactly if every
-- write of it worked; a set that stops half-way leaves every counter as it was.
pub metrics-publish :
    (digest : String → String) (io : Io) (spec : Output) (set : List Published)
    (revision : Option Revision) (w : World)
    → (publish digest io spec set revision w).0.metrics ≡ (
        if all (λ file. io.writes file.out) set
        then after_render digest io set revision w.metrics
        else w.metrics)
unfolding publish
metrics-publish digest io spec set revision w =
    let written = write_all-eq-all io spec set w in
    let same = metrics-write_all io spec set w in
    let counted = metrics-finish digest io spec set revision (write_all io spec set w).0 in
    ground (arith, written, same, counted)
