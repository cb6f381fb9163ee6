-- ===== src/Agent/Sidecar.antt =====
-- dynamic-config-agent/src/sidecar.rs, `run_from`: the loop, one arm of its `select!` at a time. The order
-- in which arms fire, and what the store, the disk and the clock answer, come from outside, so an event
-- carries them. A task that the loop spawns is an event of its own.
mod State
pub mod Canaries
pub mod Deletions
pub mod Leases
pub mod Start
pub mod Outside
mod Tests
pub use State.*
use dynamic_config_k8s.Prelude.{
  ℕ, ◌-◌, String, Bool, true, false, not, ◌&&◌, Option, none, some, List, [], ◌∷◌, nat_eq,
  if◌then◌else◌, Result, ok, err,
}
use dynamic_config_k8s.Prelude.Texts.{is_some}
use dynamic_config_k8s.Agent.Canary.{percent, admitted}
use dynamic_config_k8s.Agent.Files.{
  FilePath, Published, Files, drifted as drifted_file, unchanged, write,
}
use dynamic_config_k8s.Agent.Publishing.{Io, counting, publish}
use dynamic_config_k8s.Agent.Metrics.{
  Metrics, Revision, failed as failed_render, delivered, resynced, absent, lease_revoked,
  lease_renewed, lease_renewal_failed, canary_holding, canary_admitted, tls_reloaded, drifted,
  undrifted, watch_up, watch_down, notified, notification_failed,
}

-- `cohort.unwrap_or(0)`
abbrev pub cohort_or_zero : Option ℕ → ℕ
cohort_or_zero none = 0
cohort_or_zero (some cohort) = cohort

module _ {V R : Type 0} (digest : String → String)
    (render_all : Fetched V → Result R (List Published)) (spec : Spec) where
  abbrev pub count : (Metrics → Metrics) → Loop V → Loop V
  count f l = record l { world = counting f l.world }

  -- a set that is to replace what is served: it is `rendered` only once it is written
  unfoldable pub serve : Io → List Published → Option Revision → Loop V → Loop V
  serve io fresh revision l =
      let (world, written) = publish digest io spec.output fresh revision l.world in
      if written
      then record l { world = world; rendered = some fresh }
      else count failed_render (record l { world = world })

  -- whether a fresh set is to be held back, by the percentage that the file names now
  unfoldable pub held_back : Io → Bool
  held_back io = elim spec.cohort [
    | none ↦ false
    | some cohort ↦ not (admitted cohort (percent io.canary_file))
  ]

  -- the part of the loop after the `select!`
  unfoldable pub arrived : Io → Fetched V → Loop V → Loop V
  arrived io document l = elim (render_all document) [
    | err _ ↦ count failed_render l
    | ok fresh ↦
        if unchanged l.rendered fresh
        then l
        else if held_back io
        then record (count (canary_holding (percent io.canary_file)) l) { withheld = some fresh }
        else serve io fresh document.revision (record l { heard = document ∷ l.heard })
  ]

  unfoldable pub stop : Revocation → Loop V → Loop V
  stop revoked l = if is_some l.lease && spec.revoke_on_shutdown then count lease_revoked l else l
  stop _ l = l

  unfoldable pub receive : Io → Loop V → Loop V
  receive io l = elim l.slot [
    | none ↦ l
    | some document ↦ arrived io document (record (count (delivered io.now) l) { slot = none })
  ]

  -- a new credential is a new document
  unfoldable pub reissue : Io → Answer V → Loop V → Loop V
  reissue io (fetched document) l = arrived io document (record l { lease = document.lease })
  reissue io _ l = count failed_render l

  unfoldable pub renew : Io → Lease → Option (Result (Unit {0}) Lease) → Answer V → Loop V → Loop V
  renew io held extended reissued l =
      if held.renewable
      then (elim extended [
        | none ↦ l
        | some (ok granted) ↦ record (count (lease_renewed granted.ttl) l) { lease = some granted }
        | some (err _) ↦ reissue io reissued (count lease_renewal_failed l)
      ])
      else reissue io reissued l

  -- what the file says, if there is a canary
  abbrev pub share : Io → Option ℕ
  share io = elim spec.cohort [ none ↦ none | some _ ↦ percent io.canary_file ]

  unfoldable pub widen : Io → List Published → Loop V → Loop V
  widen io fresh l =
      if admitted (cohort_or_zero spec.cohort) (share io)
      then serve io fresh none (record (count (canary_admitted (share io)) l) { withheld = none })
      else l

  unfoldable pub repaired : Io → List Published → Loop V → Loop V
  repaired io set l =
      let (world, written) = publish digest io spec.output set none l.world in
      if written
      then count undrifted (record l { world = world })
      else count failed_render (record l { world = world })

  unfoldable pub check_drift : Io → List Published → Loop V → Outcome V
  check_drift io set l = elim (drifted_file l.world.files set) [
    | none ↦ running (count undrifted l)
    | some _ ↦ elim spec.on_drift [
      | warn ↦ running (count drifted l)
      | repair ↦ running (repaired io set (count drifted l))
      | fail ↦ failed file_drifted (count drifted l)
    ]
  ]

  -- the loop that empties the outputs
  unfoldable pub empty_files : Io → List FilePath → Files → Files
  empty_files io [] files = files
  empty_files io (out ∷ more) files =
      empty_files io more (if io.writes out then write out "" none files else files)

  unfoldable pub deleted : Io → Loop V → Loop V
  deleted io l = elim spec.on_delete [
    | retain ↦ l
    | remove ↦ record l {
      world = record l.world { files = empty_files io (outputs spec) l.world.files };
    }
    | end_agent ↦ record l { gone = true }
  ]

  -- the body of the resync's task
  unfoldable pub resync : Io → Answer V → Loop V → Loop V
  resync io (fetched document) l = record (count (resynced io.now) l) {
    slot = some document;
    resyncing = finished;
  }
  resync io is_absent l = deleted io (record (count absent l) { resyncing = finished })
  resync io no_answer l = record (count failed_render l) { resyncing = finished }

  abbrev reopened : Bool → Metrics → Metrics
  reopened failing m = watch_up (watch_down (if failing then failed_render m else m))

  -- an arm whose guard does not hold does not fire
  unfoldable pub step : Io → Event V → Loop V → Outcome V
  step io (stopped answer) l = ended by_stop (stop answer l)
  step io received l = running (receive io l)
  step io gone_changed l = if l.gone then failed document_gone l else running l
  step io (renewal extended reissued) l = elim l.lease [
    | none ↦ running l
    | some held ↦ running (renew io held extended reissued l)
  ]
  step io (trusting settled) l =
      if spec.tls_reload && settled then ended by_rebuild (count tls_reloaded l) else running l
  step io canarying l = elim l.withheld [
    | none ↦ running l
    | some fresh ↦ running (widen io fresh l)
  ]
  step io drifting l = elim l.rendered [ none ↦ running l | some set ↦ check_drift io set l ]
  step io resync_started l = elim l.resyncing [
    | idle ↦ running (if spec.native then record l { resyncing = in_flight } else l)
    | _ ↦ running l
  ]
  step io (resync_answered answer) l = elim l.resyncing [
    | in_flight ↦ running (resync io answer l)
    | _ ↦ running l
  ]
  step io reaped l = elim l.resyncing [
    | finished ↦ running (record l { resyncing = idle })
    | _ ↦ running l
  ]
  step io (pushed document) l = running (record l { slot = some document })
  step io (watch_ended failing) l = running (count (reopened failing) l)
  step io (told accepted) l =
      if nat_eq l.world.calls 0
      then running l
      else running (
          count (if accepted then notified else notification_failed)
            (record l { world = record l.world { calls = l.world.calls - 1 } }))
