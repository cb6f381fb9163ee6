-- ===== src/Operator/Election/Writes.antt =====
-- dynamic-config-operator/src/election.rs: what a claim writes, and when it writes nothing.
use dynamic_config_k8s.Prelude.{
  ℕ, ◌+◌, ◌*◌, ◌%◌, ◌^◌, ◌<◌, String, ◌≡◌, refl, ◌≢◌, ◌↔◌, true, false, Option, some, arith,
  if◌then◌else◌, eq_iff, Result, ok, err,
}
use dynamic_config_k8s.Operator.Election.{
  LeaseSpec, Lease, KubeError, Write, nothing, create, replace, default_spec, unwrap_or, mine,
  held_by, expired, request, settled, send, claim, term_seconds, second,
}

-- A lease is left alone exactly if another replica holds it and it has not expired.
pub request-nothing_iff :
    (identity : String) (now checked : ℕ) (current : Lease)
    → (request identity now checked (some current) ≡ nothing) ↔ (
        (held_by identity (unwrap_or default_spec current.spec) ≡ false)
        × (expired checked (unwrap_or default_spec current.spec) ≡ false))
unfolding request
request-nothing_iff identity now checked current = ground arith

-- A lease of another holder that names a renewal and this program's term is left alone at every check
-- within sixteen seconds of that renewal.
pub request-fresh :
    (identity holder : String) (now checked renewed : ℕ) (version : Option String)
    (spec : LeaseSpec)
    → spec.holder_identity ≡ some holder
    → holder ≢ identity
    → spec.renew_time ≡ some renewed
    → spec.lease_duration_seconds ≡ some term_seconds
    → checked < renewed + 16 * second
    → request identity now checked (some (record { resource_version = version; spec = some spec }))
      ≡ nothing
unfolding request held_by expired
request-fresh identity holder now checked renewed version spec h ne r d fresh =
    ground (arith, eq_iff holder identity)

abbrev pub fields : Lease → LeaseSpec
fields lease = unwrap_or default_spec lease.spec

-- A lease that is replaced is replaced at the version that was read, and names this replica as its
-- holder, renewed now. A renewal keeps the time of acquisition and the count of transitions; a
-- takeover stamps a new time and counts one more, at 32 bits.
pub request-replace :
    (identity : String) (now checked : ℕ) (current lease : Lease)
    → request identity now checked (some current) ≡ replace lease
    → (lease.resource_version ≡ current.resource_version)
      × ((fields lease).holder_identity ≡ some identity)
      × ((fields lease).renew_time ≡ some now)
      × ((fields lease).lease_duration_seconds ≡ some term_seconds)
      × ((fields lease).acquire_time ≡ (
          if held_by identity (fields current)
          then some (unwrap_or now (fields current).acquire_time)
          else some now))
      × ((fields lease).lease_transitions ≡ (
          if held_by identity (fields current)
          then (fields current).lease_transitions
          else some ((unwrap_or 0 (fields current).lease_transitions + 1) % 2 ^ 32)))
unfolding request mine
request-replace identity now checked current lease h = ground arith

settled-eq-true : (r : Result KubeError (Unit {0})) → settled r ≡ ok true → r ≡ ok tt
unfolding settled
settled-eq-true r h = ground arith

send-eq-true :
    (answer : Write → Result KubeError (Unit {0})) (w : Write)
    → send answer w ≡ ok true
    → (w ≢ nothing) × (answer w ≡ ok tt)
unfolding send
send-eq-true answer nothing h = cc
send-eq-true answer (create lease) h = (λ e. cc, settled-eq-true (answer (create lease)) h)
send-eq-true answer (replace lease) h = (λ e. cc, settled-eq-true (answer (replace lease)) h)

-- A claim that succeeds has read the lease, had something to write, and was not refused the write.
pub claim-eq-true :
    (identity : String) (now checked : ℕ) (got : Result KubeError (Option Lease))
    (answer : Write → Result KubeError (Unit {0}))
    → claim identity now checked got answer ≡ ok true
    → (current : Option Lease) × (got ≡ ok current)
      × (request identity now checked current ≢ nothing)
      × (answer (request identity now checked current) ≡ ok tt)
unfolding claim
claim-eq-true identity now checked (ok current) answer h =
    let (writes, accepted) = send-eq-true answer (request identity now checked current) h in
    (current, refl, writes, accepted)
claim-eq-true identity now checked (err e) answer h = cc
