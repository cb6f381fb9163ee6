-- ===== src/Agent/Publishing/Traces.antt =====
-- dynamic-config-agent/src/sidecar.rs, `publish`: what a set leaves at a path outside it.
use dynamic_config_k8s.Prelude.{
  ap, ◌∙◌, inl, inr, Bool-cases, suc, String, ◌≡◌, refl, ap, ◌∙◌, inl, inr, true, false, Option,
  List, [], ◌∷◌, arith, if◌then◌else◌, Bool-cases, ◌==◌, filter,
}
use dynamic_config_k8s.Agent.Files.{FilePath, Files, Published, read}
use dynamic_config_k8s.Agent.Metrics.{rendered, generation, Revision}
use dynamic_config_k8s.Agent.Publishing.{
  acknowledge_first, counting, Io, Output, World, Meta, keep_previous, write_file, write_all,
  describe, finish, publish,
}
use dynamic_config_k8s.Agent.Publishing.Written.{avoids, read-publish}

abbrev Kept : Type 0
Kept = List (FilePath × String)

abbrev generations : FilePath → Kept → Kept
generations path kept = filter (λ g. g.0 == path) kept

abbrev descriptions : FilePath → List Meta → List Meta
descriptions path metas = filter (λ m. m.out == path) metas

abbrev pub Traces : Type 0
Traces = Option String × Kept × List Meta

-- all that there is of a path: the file, the generations of it that were kept, and what describes it
unfoldable pub traces : FilePath → Files → Kept → List Meta → Traces
traces path files kept metas = (read path files, generations path kept, descriptions path metas)

generations-keep_previous :
    (io : Io) (spec : Output) (out path : FilePath) (w : World)
    → out == path ≡ false
    → generations path (keep_previous io spec out w).kept ≡ generations path w.kept
unfolding keep_previous
generations-keep_previous io spec out path w other = ground arith

generations-write_all :
    (io : Io) (spec : Output) (path : FilePath) (set : List Published) (w : World)
    → avoids path set ≡ true
    → generations path (write_all io spec set w).0.kept ≡ generations path w.kept
unfolding write_all write_file
generations-write_all io spec path [] w h = refl
generations-write_all io spec path (file ∷ more) w h =
    let w' = keep_previous io spec file.out w in
    let kept = generations-keep_previous io spec file.out path w (ground arith) in
    let later = generations-write_all io spec path more (write_file file w') (ground arith) in
    ground (arith, kept, later)

metas-write_all :
    (io : Io) (spec : Output) (set : List Published) (w : World)
    → (write_all io spec set w).0.metas ≡ w.metas
unfolding write_all write_file keep_previous
metas-write_all io spec [] w = refl
metas-write_all io spec (file ∷ more) w =
    let w' = keep_previous io spec file.out w in
    let later = metas-write_all io spec more (write_file file w') in ground (arith, later)

descriptions-describe :
    (digest : String → String) (io : Io) (path : FilePath) (revision : Option Revision)
    (set : List Published) (w : World)
    → avoids path set ≡ true
    → ((describe digest io revision set w).kept ≡ w.kept)
      × (descriptions path (describe digest io revision set w).metas ≡ descriptions path w.metas)
unfolding describe
descriptions-describe digest io path revision [] w h = (refl, refl)
descriptions-describe digest io path revision (file ∷ more) w h =
    let meta : Meta = record {
      out = file.out;
      revision = revision;
      fingerprint = digest file.document;
    } in
    let next : World = if io.describes file.out then record w { metas = meta ∷ w.metas } else w in
    let (kept, told) = descriptions-describe digest io path revision more next (ground arith) in
    (kept ∙ ground arith, told ∙ ground arith)

descriptions-finish :
    (digest : String → String) (io : Io) (spec : Output) (path : FilePath) (set : List Published)
    (revision : Option Revision) (w : World)
    → avoids path set ≡ true
    → ((finish digest io spec set revision w).kept ≡ w.kept)
      × (descriptions path (finish digest io spec set revision w).metas ≡ descriptions path w.metas)
unfolding finish
descriptions-finish digest io spec path set revision w h =
    let counted =
      counting (λ m. acknowledge_first digest set (generation revision (rendered io.now m))) w in
    let told : World =
      if spec.notifies then record counted { calls = suc counted.calls } else counted in
    let (kept, written) = descriptions-describe digest io path revision set told h in
    (ground (arith, kept), ground (arith, written))

beside-publish :
    (digest : String → String) (io : Io) (spec : Output) (path : FilePath) (set : List Published)
    (revision : Option Revision) (w : World)
    → avoids path set ≡ true
    → (generations path (publish digest io spec set revision w).0.kept ≡ generations path w.kept)
      × (descriptions path (publish digest io spec set revision w).0.metas
          ≡ descriptions path w.metas)
unfolding publish
beside-publish digest io spec path set revision w apart =
    let w' = (write_all io spec set w).0 in
    let kept = generations-write_all io spec path set w apart in
    let metas = ap (descriptions path) (metas-write_all io spec set w) in
    let (still, told) = descriptions-finish digest io spec path set revision w' apart in
    let kept' = ap (generations path) still ∙ kept in
    let told' = told ∙ metas in
    elim (Bool-cases (write_all io spec set w).1) [
      | inl e ↦ rw e (kept', told')
      | inr e ↦ rw e (kept, metas)
    ]

pub traces-eq :
    (path : FilePath) (files files' : Files) (kept kept' : Kept) (metas metas' : List Meta)
    → read path files ≡ read path files'
    → generations path kept ≡ generations path kept'
    → descriptions path metas ≡ descriptions path metas'
    → traces path files kept metas ≡ traces path files' kept' metas'
unfolding traces
traces-eq path files files' kept kept' metas metas' a b c = λ i. (a i, b i, c i)

-- Publishing leaves no trace of a path outside the set: its file is as it was, no generation of it is
-- kept, and nothing describes it.
pub traces-publish :
    (digest : String → String) (io : Io) (spec : Output) (path : FilePath) (set : List Published)
    (revision : Option Revision) (w : World)
    → avoids path set ≡ true
    → let after = (publish digest io spec set revision w).0 in
      traces path after.files after.kept after.metas ≡ traces path w.files w.kept w.metas
traces-publish digest io spec path set revision w apart =
    let (kept, told) = beside-publish digest io spec path set revision w apart in
    traces-eq path _ _ _ _ _ _ (read-publish digest io spec path set revision w apart) kept told
