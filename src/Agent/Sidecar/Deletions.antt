-- ===== src/Agent/Sidecar/Deletions.antt =====
-- dynamic-config-agent/src/sidecar.rs: a document that the store no longer has, under `on-delete: remove`,
-- and its return.
use dynamic_config_k8s.Agent.Sidecar.Outside.{state}
use dynamic_config_k8s.Prelude.{
  String, ◌≡◌, true, none, some, List, [], ◌∷◌, if◌then◌else◌, ◌==◌, any, Result,
}
use dynamic_config_k8s.Agent.Files.{FilePath, Published, Files, read, write}
use dynamic_config_k8s.Agent.Publishing.{Io}
use dynamic_config_k8s.Agent.Sidecar.{
  outputs, Fetched, Loop, Spec, Outcome, is_absent, Event, resync_answered, resync_started, reaped,
  received, pushed, fetched,
}

-- an output that is empty, of a document that is said to be absent
abbrev pub IsEmptied : {V : Type 0} → FilePath → Outcome V → Type 0
IsEmptied out o =
    (read out (state o).world.files ≡ some "") × ((state o).world.metrics.absent_now ≡ 1)

module _ {V R : Type 0} (digest : String → String)
    (render_all : Fetched V → Result R (List Published)) (spec : Spec) where
  abbrev emptied : Io → FilePath → Files → Files
  emptied io o files = if io.writes o then write o "" none files else files

  -- the outputs that could be emptied are, and the document is said to be gone
  abbrev Emptied : Io → Loop V → Type 0
  Emptied io l =
      (l.world.metrics.absent_now ≡ 1)
      × ((out : FilePath)
          → any (λ o. o == out) (outputs spec) ≡ true
          → io.writes out ≡ true
          → read out l.world.files ≡ some "")

  -- the store has lost the document, and then pushes it again
  abbrev pub pushed_again : Io → Io → Fetched V → List (Io × Event V)
  pushed_again io later document =
      (io, resync_answered is_absent) ∷ (later, pushed document) ∷ (later, received) ∷ []

  -- the store has lost the document, and then answers with it to the next resync
  abbrev pub answered_again : Io → Io → Fetched V → List (Io × Event V)
  answered_again io later document =
      (io, resync_answered is_absent)
      ∷ (later, reaped)
      ∷ (later, resync_started)
      ∷ (later, resync_answered (fetched document))
      ∷ (later, received)
      ∷ []
