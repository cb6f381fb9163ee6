-- ===== src/Operator/Election/Fence.antt =====
-- dynamic-config-operator/src/election.rs: the resource version is the fence between replicas.
use dynamic_config_k8s.Prelude.{
  ℕ, ◌≤◌, ◌<◌, String, ◌≡◌, refl, sym, ◌∙◌, ◌≢◌, ◌⊎◌, Bool, true, Option, some, arith, Result, ok,
}
use dynamic_config_k8s.Operator.Election.{
  Lease, KubeError, Write, nothing, create, replace, held_by, expired, request, claim, second,
}
use dynamic_config_k8s.Operator.Election.Writes.{fields, request-replace, claim-eq-true}

-- The API server, as the documentation of Kubernetes describes it: every change of an object gives it
-- a resource version that it never had, and a replacement succeeds only at the version that it names.
pub record Server : Type 1 where
  pub World : Type 0
  pub stored : World → Option Lease
  pub revision : World → ℕ
  pub version : ℕ → String
  pub answer : World → Write → Result KubeError (Unit {0})
  pub next : World → Write → World
  pub version_injective : (m n : ℕ) → version m ≡ version n → m ≡ n
  pub stored_version :
      (w : World) (lease : Lease)
      → stored w ≡ some lease
      → lease.resource_version ≡ some (version (revision w))
  pub replace_current :
      (w : World) (lease : Lease)
      → answer w (replace lease) ≡ ok tt
      → (current : Lease) × (stored w ≡ some current)
        × (lease.resource_version ≡ current.resource_version)
  pub write_moves : (w : World) (r : Write) → answer w r ≡ ok tt → revision w < revision (next w r)

module _ (server : Server) where
  open server use {
    World, stored, revision, version, answer, next, version_injective, stored_version,
    replace_current, write_moves,
  }

  -- What other clients did meanwhile never takes the revision back, and an unchanged revision means
  -- an unchanged object.
  pub record Later (before now : World) : Type 0 where
    pub grows : revision before ≤ revision now
    pub unchanged : revision before ≡ revision now → stored before ≡ stored now

  -- one claim of a replica: the lease is read in one world and written in a later one
  unfoldable pub claim_at : String → ℕ → ℕ → World → World → Result KubeError Bool
  claim_at identity now checked read write =
      claim identity now checked (ok (stored read)) (answer write)

  request-ne-create :
      (identity : String) (now checked : ℕ) (current lease : Lease)
      → request identity now checked (some current) ≢ create lease
  unfolding request
  request-ne-create identity now checked current lease = ground arith

  request-takes :
      (identity : String) (now checked : ℕ) (current : Lease)
      → request identity now checked (some current) ≢ nothing
      → (held_by identity (fields current) ≡ true) ⊎ (expired checked (fields current) ≡ true)
  unfolding request
  request-takes identity now checked current h = ground arith

  fenced_write :
      (identity : String) (now checked : ℕ) (read write : World) (current : Lease) (w : Write)
      → request identity now checked (some current) ≡ w
      → stored read ≡ some current
      → w ≢ nothing
      → answer write w ≡ ok tt
      → revision write ≡ revision read
  fenced_write identity now checked read write current nothing e found ne h = absurd (ne refl)
  fenced_write identity now checked read write current (create lease) e found ne h =
      absurd (request-ne-create identity now checked current lease e)
  fenced_write identity now checked read write current (replace lease) e found ne h =
      let (there, stands, agrees) = replace_current write lease h in
      let (based, _, _, _, _, _) = request-replace identity now checked current lease e in
      let v : version (revision write) ≡ version (revision read) =
        cc (stored_version write there stands, stored_version read current found, agrees, based) in
      version_injective (revision write) (revision read) v

  -- A claim on an existing lease succeeds only if nobody wrote between its read and its write.
  pub claim_fenced :
      (identity : String) (now checked : ℕ) (read write : World) (current : Lease)
      → stored read ≡ some current
      → claim_at identity now checked read write ≡ ok true
      → revision write ≡ revision read
  unfolding claim_at
  claim_fenced identity now checked read write current found h =
      let (there, same, writes, accepted) =
        claim-eq-true identity now checked (ok (stored read)) (answer write) h in
      let e : there ≡ some current = ground arith in
      fenced_write identity now checked read write current (request identity now checked there)
        (rw e) found writes accepted

  -- Of two replicas that read the same lease, the one that writes second is not elected, whatever
  -- happened in between.
  pub claim_exclusive :
      (first second : String) (now now' checked checked' : ℕ) (read write write' : World)
      (current : Lease)
      → stored read ≡ some current
      → Later read write
      → claim_at first now checked read write ≡ ok true
      → Later (next write (request first now checked (some current))) write'
      → claim_at second now' checked' read write' ≢ ok true
  unfolding claim_at
  claim_exclusive first second now now' checked checked' read write write' current found before won
        after h =
      let (there, same, writes, accepted) =
        claim-eq-true first now checked (ok (stored read)) (answer write) won in
      let e : there ≡ some current = ground arith in
      let moved : revision write
          < revision (next write (request first now checked (some current))) =
        write_moves write (request first now checked (some current)) (rw e at accepted) in
      let fenced : revision write' ≡ revision read =
        claim_fenced second now' checked' read write' current found h in
      let up : revision read ≤ revision write = before.grows in
      let up' : revision (next write (request first now checked (some current))) ≤ revision write' =
        after.grows in
      omega arith

  -- A replica is elected over the lease that stands at the moment of its write only if it holds that
  -- lease already or the lease has expired.
  pub claim_takes_expired :
      (identity : String) (now checked : ℕ) (read write : World) (current : Lease)
      → stored read ≡ some current
      → Later read write
      → claim_at identity now checked read write ≡ ok true
      → (stored write ≡ some current)
        × ((held_by identity (fields current) ≡ true) ⊎ (expired checked (fields current) ≡ true))
  unfolding claim_at
  claim_takes_expired identity now checked read write current found before h =
      let (there, same, writes, accepted) =
        claim-eq-true identity now checked (ok (stored read)) (answer write) h in
      let e : there ≡ some current = ground arith in
      let fenced = claim_fenced identity now checked read write current found h in
      (
        sym (before.unchanged (sym fenced)) ∙ found,
        request-takes identity now checked current (rw e at writes),
      )
