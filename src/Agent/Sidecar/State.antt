-- ===== src/Agent/Sidecar/State.antt =====
-- dynamic-config-agent/src/sidecar.rs: the state of the loop, what happens to it, and how it ends. An event
-- carries what the store, the disk and the spawned tasks answer.
use dynamic_config_k8s.Prelude.{map, ◌∷◌, ℕ, Bool, Option, List, Result}
use dynamic_config_k8s.Agent.Files.{FilePath, Published}
use dynamic_config_k8s.Agent.Publishing.{Output, World}
use dynamic_config_k8s.Agent.Metrics.{Revision}

pub record Lease : Type 0 where
  pub ttl : ℕ
  pub renewable : Bool

-- `Fetched` of the dynamic-config crate; what it holds is the crate's
pub record Fetched (V : Type 0) : Type 0 where
  pub value : V
  pub lease : Option Lease
  pub revision : Option Revision

pub data OnDrift : Type 0 where
  warn repair fail : OnDrift

pub data OnDelete : Type 0 where
  retain remove end_agent : OnDelete

pub data StartupPolicy : Type 0 where
  allow_cached require_fresh best_effort : StartupPolicy

-- an output: its path, and the permissions that it lands with
pub record Target : Type 0 where
  pub out : FilePath
  pub file_mode : Option ℕ

-- the part of a `Spec` that the loop reads; the cohort is `none` without a canary
pub record Spec : Type 0 where
  pub output : Output
  pub main : Target
  pub also : List Target
  pub startup_policy : StartupPolicy
  pub on_delete : OnDelete
  pub on_drift : OnDrift
  pub cohort : Option ℕ
  pub revoke_on_shutdown : Bool
  pub tls_reload : Bool
  pub native : Bool

abbrev out_of : Target → FilePath
out_of target = target.out

-- every path that the agent writes a document to
abbrev pub outputs : Spec → List FilePath
outputs spec = spec.main.out ∷ map out_of spec.also

pub data Ended : Type 0 where
  by_stop by_rebuild : Ended

pub data Failure : Type 0 where
  document_gone file_drifted no_fresh_document not_rendered not_written : Failure

-- what the store answers to a fetch, and to a lease that is handed back within its deadline
pub data Answer (V : Type 0) : Type 0 where
  fetched : Fetched V → Answer V
  is_absent no_answer : Answer V

pub data Revocation : Type 0 where
  revoked refused no_leases late : Revocation

pub data Resync : Type 0 where
  idle in_flight finished : Resync

pub record Loop (V : Type 0) : Type 0 where
  pub world : World
  pub rendered : Option (List Published)
  pub withheld : Option (List Published)
  pub lease : Option Lease
  -- the delivery slot, the channel `gone`, and the resync's task
  pub slot : Option (Fetched V)
  pub gone : Bool
  pub resyncing : Resync
  -- the documents that `on_document` heard, the newest first
  pub heard : List (Fetched V)

pub data Event (V : Type 0) : Type 0 where
  stopped : Revocation → Event V
  received gone_changed canarying drifting resync_started reaped : Event V
  renewal : (extended : Option (Result (Unit {0}) Lease)) → (reissued : Answer V) → Event V
  trusting : (settled : Bool) → Event V
  resync_answered : Answer V → Event V
  pushed : Fetched V → Event V
  watch_ended : (failed : Bool) → Event V
  told : (accepted : Bool) → Event V

pub data Outcome (V : Type 0) : Type 0 where
  running : Loop V → Outcome V
  ended : Ended → Loop V → Outcome V
  failed : Failure → Loop V → Outcome V
