-- ===== src/Agent/Publishing.antt =====
-- dynamic-config-agent/src/sidecar.rs, `publish`, with `keep_previous` of render.rs: a rendered set on its
-- way to the volume. What the system answers to a write is an argument. The history's file names and its
-- pruning, and the text of a meta file, are not modelled: a kept generation and a description are entries.
pub mod Written
pub mod Traces
pub mod Counted
use dynamic_config_k8s.Prelude.{
  ℕ, suc, String, Bool, true, false, Option, none, some, List, [], ◌∷◌, nat_eq, if◌then◌else◌,
}
use dynamic_config_k8s.Agent.Files.{FilePath, Published, Files, read, write}
use dynamic_config_k8s.Agent.Metrics.{Metrics, Revision, rendered, generation, published}

-- what the system does with the writes of one step, and the clock
pub record Io : Type 0 where
  pub now : ℕ
  pub writes : FilePath → Bool
  pub keeps : FilePath → Bool
  pub describes : FilePath → Bool
  pub canary_file : Option String

-- the part of a `Spec` that says how a set is published
pub record Output : Type 0 where
  pub history : ℕ
  pub notifies : Bool
  pub meta : Bool

pub record Meta : Type 0 where
  pub out : FilePath
  pub revision : Option Revision
  pub fingerprint : String

pub record World : Type 0 where
  pub files : Files
  pub kept : List (FilePath × String)
  pub metas : List Meta
  pub calls : ℕ
  pub metrics : Metrics

abbrev pub counting : (Metrics → Metrics) → World → World
counting f w = record w { metrics = f w.metrics }

-- The file as it stands goes to the history, before the write that replaces it. The history of an output
-- is a hidden directory beside it; here it is the list `kept`, which nothing is pruned from.
unfoldable pub keep_previous : Io → Output → FilePath → World → World
unfolding read
keep_previous io spec path w = if nat_eq spec.history 0 then w else elim (read path w.files) [
  | none ↦ w
  | some previous ↦ if io.keeps path then record w { kept = (path, previous) ∷ w.kept } else w
]

unfoldable pub write_file : Published → World → World
unfolding write
write_file file w = record w { files = write file.out file.document file.file_mode w.files }

-- the loop over the set: the first write that fails ends it
unfoldable pub write_all : Io → Output → List Published → World → World × Bool
unfolding keep_previous write_file
write_all io spec [] w = (w, true)
write_all io spec (file ∷ more) w =
    let w' = keep_previous io spec file.out w in
    let rest = write_all io spec more (write_file file w') in
    if io.writes file.out then rest else (w', false)

-- the agent's digest of a document, `sha256:…`; the hidden file beside an output that holds its
-- description is here an entry of `metas`
module _ (digest : String → String) where
  unfoldable pub describe : Io → Option Revision → List Published → World → World
  describe io revision [] w = w
  describe io revision (file ∷ more) w =
      let meta : Meta = record {
        out = file.out;
        revision = revision;
        fingerprint = digest file.document;
      } in
      describe io revision more
        (if io.describes file.out then record w { metas = meta ∷ w.metas } else w)

  unfoldable pub acknowledge_first : List Published → Metrics → Metrics
  unfolding published
  acknowledge_first [] m = m
  acknowledge_first (main ∷ _) m = published (digest main.document) m

  -- what follows a set that is on the disk
  unfoldable pub finish : Io → Output → List Published → Option Revision → World → World
  unfolding describe acknowledge_first
  finish io spec set revision w =
      let counted =
        counting (λ m. acknowledge_first set (generation revision (rendered io.now m))) w in
      let told = if spec.notifies then record counted { calls = suc counted.calls } else counted in
      if spec.meta then describe io revision set told else told

  unfoldable pub publish : Io → Output → List Published → Option Revision → World → World × Bool
  unfolding write_all finish
  publish io spec set revision w =
      let (w', written) = write_all io spec set w in
      if written then (finish io spec set revision w', true) else (w', false)
