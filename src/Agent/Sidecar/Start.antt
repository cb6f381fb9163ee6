-- ===== src/Agent/Sidecar/Start.antt =====
-- dynamic-config-agent/src/sidecar.rs: the first fetch of `run_from`, and `recovered` where it fails.
pub mod Recovery
mod Tests
use dynamic_config_k8s.Prelude.{
  String, Bool, false, Option, none, some, List, [], ◌∷◌, map, if◌then◌else◌, Result, ok, err,
  ◌>>=◌, ◌>>◌, ensure, map_err,
}
use dynamic_config_k8s.Prelude.Texts.{empty_text, trim, is_none}
use dynamic_config_k8s.Agent.Files.{FilePath, Published, Files, read, write}
use dynamic_config_k8s.Agent.Metrics.{failed as failed_render, lease_held, watch_up}
use dynamic_config_k8s.Agent.Publishing.{Io, World, counting, publish}
use dynamic_config_k8s.Agent.Sidecar.{
  Lease, Fetched, Loop, Spec, Target, Answer, fetched, Failure, no_fresh_document, not_rendered,
  not_written, allow_cached, require_fresh, best_effort, idle,
}

abbrev pub text_or_blank : Option String → String
text_or_blank none = ""
text_or_blank (some text) = text

-- `read_to_string(path).unwrap_or_default()`
abbrev pub contents : Files → FilePath → String
contents files path = text_or_blank (read path files)

abbrev pub held_at : Files → Target → Published
held_at files target = record {
  out = target.out;
  document = contents files target.out;
  file_mode = target.file_mode;
}

-- the set as it stands on the disk, the main file's text read already
unfoldable pub on_disk : Spec → String → Files → List Published
on_disk spec main files =
    record { out = spec.main.out; document = main; file_mode = spec.main.file_mode }
    ∷ map (held_at files) spec.also

-- an empty file, if the test says that one is needed; a write that fails ends the start
unfoldable pub ensure_file : Io → Bool → Target → Files → Result Failure Files
ensure_file io needed target files =
    if needed
    then (if io.writes target.out
        then ok (write target.out "" target.file_mode files)
        else err not_written)
    else ok files

unfoldable pub ensure_files : Io → List Target → Files → Result Failure Files
ensure_files io [] files = ok files
ensure_files io (target ∷ more) files = do
  files' ← ensure_file io (is_none (read target.out files)) target files
  ensure_files io more files'

abbrev pub Recovered : Type 0
Recovered = World × List Published

unfoldable pub serve_cached : Spec → World → Option String → Result Failure Recovered
serve_cached spec w none = err no_fresh_document
serve_cached spec w (some cached) =
    if empty_text (trim cached)
    then err no_fresh_document
    else ok (counting failed_render w, on_disk spec cached w.files)

unfoldable pub recovered : Io → Spec → World → Result Failure Recovered
recovered io spec w = elim spec.startup_policy [
  | require_fresh ↦ err no_fresh_document
  | allow_cached ↦ serve_cached spec w (read spec.main.out w.files)
  | best_effort ↦
      let existing = contents w.files spec.main.out in
      do
        files ← ensure_file io (empty_text existing) spec.main w.files
        files' ← ensure_files io spec.also files
        ok (record (counting failed_render w) { files = files' }, on_disk spec existing files')
]

module _ {V R : Type 0} (digest : String → String)
    (render_all : Fetched V → Result R (List Published)) (spec : Spec) where
  abbrev pub begins : World → List Published → Option Lease → List (Fetched V) → Loop V
  begins w set lease heard = record {
    world = counting watch_up w;
    rendered = some set;
    withheld = none;
    lease = lease;
    slot = none;
    gone = false;
    resyncing = idle;
    heard = heard;
  }

  abbrev pub held_lease : Option Lease → World → World
  held_lease none w = w
  held_lease (some lease) w = counting (lease_held lease.ttl) w

  -- a document that was fetched is rendered and published, or the agent does not start
  unfoldable pub begin : Io → Fetched V → World → Result Failure (Loop V)
  begin io first w = do
    fresh ← map_err (λ _. not_rendered) (render_all first)
    let result = publish digest io spec.output fresh first.revision w
    ensure result.1 not_written
    ok (begins (held_lease first.lease result.0) fresh first.lease (first ∷ []))

  unfoldable pub start : Io → Answer V → World → Result Failure (Loop V)
  start io (fetched first) w = begin io first w
  start io _ w = do found ← recovered io spec w; ok (begins found.0 found.1 none [])
