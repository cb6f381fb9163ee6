-- ===== src/NodeAgent/Registry.antt =====
-- dynamic-config-node-agent/src/shared.rs: which documents are watched, and which volumes read each.
-- The mutex is the explicit state: a poisoned lock is entered all the same, so that each method is one
-- step. The map is an association list, since no method shows the order of its keys. A stop channel
-- is a number, counted from the registry's start, and `ended` lists those that were told to stop.
mod Documents
pub mod Invariant
pub mod Readers
pub mod History
pub mod Endings
mod Tests
pub use Documents.*
unfoldable pub use Documents.{same}
use dynamic_config_k8s.Prelude.{
  ℕ, suc, ◌+◌, String, Bool, not, Option, none, some, List, [], ◌∷◌, ◌++◌, length, is_empty, any,
  filter, ◌==◌, if◌then◌else◌,
}

-- The registry never looks into a spec, so its type is a parameter.
pub record Reader (Spec : Type 0) : Type 0 where
  pub path : String
  pub spec : Spec

pub record Watched (Spec : Type 0) : Type 0 where
  pub targets : List (Reader Spec)
  pub stop : ℕ

abbrev pub Entries : Type 0 → Type 0
Entries Spec = List (Document × Watched Spec)

pub record Registry (Spec : Type 0) : Type 0 where
  pub watched : Entries Spec
  pub channels : ℕ
  pub ended : List ℕ

pub data Claim : Type 0 where
  started : ℕ → Claim
  joined : Claim

module _ {Spec : Type 0} where
  abbrev pub empty : Registry Spec
  empty = record { watched = []; channels = 0; ended = [] }

  abbrev pub reads_path : String → List (Reader Spec) → Bool
  reads_path target = any (λ held. held.path == target)

  unfoldable pub get : Document → Entries Spec → Option (Watched Spec)
  get d [] = none
  get d ((e, held) ∷ rest) = if same e d then some held else get d rest

  -- `held.targets.push(reader)` unless a reader of that path is there
  unfoldable pub join : Reader Spec → Watched Spec → Watched Spec
  join reader held =
      if reads_path reader.path held.targets
      then held
      else record held { targets = held.targets ++ reader ∷ [] }

  -- the write through `get_mut`
  unfoldable pub join_at : Document → Reader Spec → Entries Spec → Entries Spec
  join_at d reader [] = []
  join_at d reader ((e, held) ∷ rest) =
      if same e d then (e, join reader held) ∷ rest else (e, held) ∷ join_at d reader rest

  unfoldable pub start : Document → Reader Spec → Registry Spec → Registry Spec
  start d reader r = record {
    watched = (d, record { targets = reader ∷ []; stop = r.channels }) ∷ r.watched;
    channels = suc r.channels;
    ended = r.ended;
  }

  unfoldable pub claim : Registry Spec → Document → String → Spec → Registry Spec × Claim
  claim r d target spec =
      let reader : Reader Spec = record { path = target; spec = spec } in
      elim (get d r.watched) [
        | some held ↦ (record r { watched = join_at d reader r.watched }, joined)
        | none ↦ (start d reader r, started r.channels)
      ]

  unfoldable pub readers : Registry Spec → Document → List (Reader Spec)
  readers r d = elim (get d r.watched) [ none ↦ [] | some held ↦ held.targets ]

  abbrev pub others : String → List (Reader Spec) → List (Reader Spec)
  others target = filter (λ held. not (held.path == target))

  -- `watched.retain(…)`: the entries kept, and the channels that were sent `true`
  unfoldable pub retain : String → Entries Spec → Entries Spec × List ℕ
  retain target [] = ([], [])
  retain target ((d, held) ∷ rest) =
      let (kept, stopped) = retain target rest in
      let left = others target held.targets in
      if is_empty left
      then (kept, held.stop ∷ stopped)
      else ((d, record held { targets = left }) ∷ kept, stopped)

  unfoldable pub release : Registry Spec → String → Registry Spec × Bool
  release r target =
      let (kept, stopped) = retain target r.watched in
      (record r { watched = kept; ended = r.ended ++ stopped }, not (is_empty stopped))

  unfoldable pub total_targets : Entries Spec → ℕ
  total_targets [] = 0
  total_targets ((d, held) ∷ rest) = length held.targets + total_targets rest

  unfoldable pub counts : Registry Spec → ℕ × ℕ
  counts r = (length r.watched, total_targets r.watched)
