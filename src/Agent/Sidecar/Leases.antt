-- ===== src/Agent/Sidecar/Leases.antt =====
-- dynamic-config-agent/src/sidecar.rs: the renewal arm.
use dynamic_config_k8s.Prelude.{not, ◌||◌, ap, ◌∙◌}
use dynamic_config_k8s.Webhook.Installation.{or_else}
use dynamic_config_k8s.Agent.Sidecar.{step, renewal, running}
use dynamic_config_k8s.Agent.Sidecar.Outside.{state}
use dynamic_config_k8s.Prelude.{
  ℕ, String, ◌≡◌, refl, inl, inr, Bool, false, Option, none, some, List, [], ◌∷◌, arith,
  if◌then◌else◌, Result, ok, err, Result-cases,
}
use dynamic_config_k8s.Agent.Files.{Published}
use dynamic_config_k8s.Agent.Publishing.{Io, acknowledge_first}
use dynamic_config_k8s.Agent.Publishing.Counted.{metrics-publish, after_render}
use dynamic_config_k8s.Agent.Metrics.{
  failed as failed_render, canary_holding, Metrics, Revision, bump, lease_renewal_failed,
  lease_renewed, rendered, generation, published,
}
use dynamic_config_k8s.Agent.Sidecar.{
  Fetched, Loop, Spec, Answer, fetched, is_absent, no_answer, Lease, serve, arrived, reissue, renew,
  count,
}

abbrev pub failures : Metrics → ℕ
failures m = m.lease_renewal_failures

failures-after_render :
    (digest : String → String) (io : Io) (set : List Published) (revision : Option Revision)
    (m : Metrics)
    → failures (after_render digest io set revision m) ≡ failures m
unfolding acknowledge_first published generation rendered
failures-after_render digest io [] revision m = ground arith
failures-after_render digest io (main ∷ more) revision m = ground arith

module _ {V R : Type 0} (digest : String → String)
    (render_all : Fetched V → Result R (List Published)) (spec : Spec) where
  failures-serve :
      (io : Io) (fresh : List Published) (revision : Option Revision) (l : Loop V)
      → failures (serve digest render_all spec io fresh revision l).world.metrics
        ≡ failures l.world.metrics
  unfolding serve failed_render
  failures-serve io fresh revision l =
      let counted = metrics-publish digest io spec.output fresh revision l.world in
      let same = failures-after_render digest io fresh revision l.world.metrics in
      ground (arith, counted, same)

  failures-arrived :
      (io : Io) (document : Fetched V) (l : Loop V)
      → failures (arrived digest render_all spec io document l).world.metrics
        ≡ failures l.world.metrics
  unfolding arrived failed_render canary_holding
  failures-arrived io document l = elim (Result-cases (render_all document)) [
    | inl (fresh, e) ↦
        let served =
          failures-serve io fresh document.revision (record l { heard = document ∷ l.heard }) in
        ground (arith, served)
    | inr (_, e) ↦ ground arith
  ]

  failures-reissue :
      (io : Io) (reply : Answer V) (l : Loop V)
      → failures (reissue digest render_all spec io reply l).world.metrics
        ≡ failures l.world.metrics
  unfolding reissue failed_render
  failures-reissue io (fetched document) l =
      failures-arrived io document (record l { lease = document.lease })
  failures-reissue io is_absent l = refl
  failures-reissue io no_answer l = refl

  -- whether the store was asked to extend the lease, and refused
  abbrev pub was_refused : Lease → Option (Result (Unit {0}) Lease) → Bool
  was_refused held none = false
  was_refused held (some (ok _)) = false
  was_refused held (some (err _)) = held.renewable

  -- whether a new credential has to be fetched: the lease cannot be extended, or was not
  abbrev pub asks_again : Lease → Option (Result (Unit {0}) Lease) → Bool
  asks_again held extended = not held.renewable || was_refused held extended

  abbrev pub granted : Option (Result (Unit {0}) Lease) → Option Lease
  granted (some (ok longer)) = some longer
  granted _ = none

  -- the lease of a document, if one was fetched
  abbrev pub lease_of : Answer V → Option Lease → Option Lease
  lease_of (fetched document) old = document.lease
  lease_of is_absent old = old
  lease_of no_answer old = old

  lease-arrived :
      (io : Io) (document : Fetched V) (l : Loop V)
      → (arrived digest render_all spec io document l).lease ≡ l.lease
  unfolding arrived serve
  lease-arrived io document l = ground arith

  lease-reissue :
      (io : Io) (reply : Answer V) (l : Loop V)
      → (reissue digest render_all spec io reply l).lease ≡ lease_of reply l.lease
  unfolding reissue
  lease-reissue io (fetched document) l =
      lease-arrived io document (record l { lease = document.lease })
  lease-reissue io is_absent l = refl
  lease-reissue io no_answer l = refl

  failures-renew :
      (io : Io) (held : Lease) (extended : Option (Result (Unit {0}) Lease)) (reply : Answer V)
      (l : Loop V)
      → failures (renew digest render_all spec io held extended reply l).world.metrics ≡ (
          if was_refused held extended
          then bump (failures l.world.metrics)
          else failures l.world.metrics)
  unfolding renew lease_renewal_failed lease_renewed
  failures-renew io held extended reply l =
      let plain = failures-reissue io reply l in
      let refused : Loop V = count digest render_all spec lease_renewal_failed l in
      let counted = failures-reissue io reply refused in ground (arith, plain, counted)

  lease-renew :
      (io : Io) (held : Lease) (extended : Option (Result (Unit {0}) Lease)) (reply : Answer V)
      (l : Loop V)
      → (renew digest render_all spec io held extended reply l).lease ≡ (
          if asks_again held extended
          then lease_of reply l.lease
          else or_else (granted extended) l.lease)
  unfolding renew lease_renewal_failed lease_renewed
  lease-renew io held extended reply l =
      let plain = lease-reissue io reply l in
      let refused : Loop V = count digest render_all spec lease_renewal_failed l in
      let counted = lease-reissue io reply refused in ground (arith, plain, counted)

  step-due :
      (io : Io) (held : Lease) (extended : Option (Result (Unit {0}) Lease)) (reply : Answer V)
      (l : Loop V)
      → l.lease ≡ some held
      → step digest render_all spec io (renewal extended reply) l
        ≡ running (renew digest render_all spec io held extended reply l)
  unfolding step
  step-due io held extended reply l due = ground arith

  -- When a lease is due, and whatever the store answers: a lease that cannot be extended, or whose
  -- extension was refused, is given up for the lease of the document that is fetched in its place, if one
  -- is; a lease that was extended becomes what was granted. The counter of failed renewals moves exactly
  -- if a lease that could be extended was refused.
  pub step-renewal :
      (io : Io) (held : Lease) (extended : Option (Result (Unit {0}) Lease)) (reply : Answer V)
      (l : Loop V)
      → l.lease ≡ some held
      → let next = state (step digest render_all spec io (renewal extended reply) l) in
        (next.lease ≡ (
          if asks_again held extended
          then lease_of reply (some held)
          else or_else (granted extended) (some held)))
        × (failures next.world.metrics ≡ (
            if was_refused held extended
            then bump (failures l.world.metrics)
            else failures l.world.metrics))
  step-renewal io held extended reply l due =
      let stepped = step-due io held extended reply l due in
      (
        ap (λ o. (state o).lease) stepped
            ∙ lease-renew io held extended reply l
            ∙ ap
                (λ old.
                  if asks_again held extended
                  then lease_of reply old
                  else or_else (granted extended) old)
                due,
        ap (λ o. failures (state o).world.metrics) stepped
            ∙ failures-renew io held extended reply l,
      )
