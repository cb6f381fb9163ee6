-- ===== src/Operator/Election/Tests.antt =====
-- dynamic-config-operator/src/election.rs: two replicas, and a server with one lease.
use dynamic_config_k8s.Prelude.{
  ℕ, ◌+◌, ◌*◌, ◌<◌, String, ◌≡◌, refl, ◌≢◌, ◌⊎◌, true, false, none, some, List, [], ◌∷◌, arith, All,
  ok, err,
}
use dynamic_config_k8s.Operator.Election.{
  replace, LeaseSpec, Lease, api, other, default_spec, unwrap_or, mine, held_by, expired, request,
  claim, second, term, Attempt, leading, lead,
}
use dynamic_config_k8s.Operator.Election.Writes.{fields}
use dynamic_config_k8s.Operator.Election.SampleServer.{Shelf, sample, strokes, shown, judge, store}
use dynamic_config_k8s.Operator.Election.Fence.{
  Later, claim_at, claim_exclusive, claim_takes_expired,
}
use dynamic_config_k8s.Operator.Election.Leading.{lead-leading, confirmed, last_at}

abbrev lease_of : String → ℕ → Lease
lease_of holder renewed = record {
  resource_version = some "a";
  spec = some (record {
    holder_identity = some holder;
    lease_duration_seconds = some 15;
    renew_time = some renewed;
    acquire_time = some 0;
    lease_transitions = some 4;
  });
}

abbrev spec_of : String → ℕ → LeaseSpec
spec_of holder renewed = unwrap_or default_spec (lease_of holder renewed).spec

taken :
    claim "one" (100 * second) (100 * second) (ok (some (lease_of "two" 0))) (λ _. ok tt) ≡ ok true
unfolding claim held_by expired mine
taken = refl

conflict : claim "one" (100 * second) (100 * second) (ok none) (λ _. err (api 409)) ≡ ok false
unfolding claim held_by expired mine
conflict = refl

-- renewed at 5s, then the server is gone
abbrev outage : List Attempt
outage =
    record { at = 5 * second; answer = ok true }
    ∷ record { at = 10 * second; answer = err other }
    ∷ record { at = 15 * second; answer = err other }
    ∷ record { at = 20 * second; answer = err other }
    ∷ []

abbrev blip : List Attempt
blip =
    record { at = 5 * second; answer = err other }
    ∷ record { at = 10 * second; answer = ok true }
    ∷ []

blip_leads : lead 0 blip ≡ leading (10 * second)
unfolding lead
blip_leads = refl

lead-leading_example :
    All (λ a. a.answer ≢ ok false) blip
    × (10 * second ≡ confirmed 0 blip)
    × (last_at 0 blip < confirmed 0 blip + term)
lead-leading_example = lead-leading 0 0 (10 * second) blip (omega arith) blip_leads

-- a lease of "two" that was last renewed at the start
abbrev stale : Shelf
stale = record { held = some (spec_of "two" 0); revision = 3 }

abbrev late : ℕ
late = 100 * second

abbrev stale_lease : Lease
stale_lease = record { resource_version = some (strokes 3); spec = some (spec_of "two" 0) }

stays : Later sample stale stale
stays = record { grows = omega arith; unchanged = λ _. refl }

one_wins : claim_at sample "one" late late stale stale ≡ ok true
unfolding claim_at claim shown judge held_by expired mine strokes
one_wins = refl

shown-stale : shown stale ≡ some stale_lease
unfolding shown
shown-stale = refl

settles :
    Later sample
      (store stale (request "one" late late (some stale_lease)))
      (store stale (request "one" late late (some stale_lease)))
settles = record { grows = omega arith; unchanged = λ _. refl }

claim_exclusive_example :
    claim_at sample "three" late late stale
      (store stale (request "one" late late (some stale_lease)))
    ≢ ok true
claim_exclusive_example =
    claim_exclusive sample "one" "three" late late late late stale stale
      (store stale (request "one" late late (some stale_lease))) stale_lease shown-stale stays
      one_wins settles

claim_takes_expired_example :
    (shown stale ≡ some stale_lease)
    × ((held_by "one" (fields stale_lease) ≡ true) ⊎ (expired late (fields stale_lease) ≡ true))
claim_takes_expired_example =
    claim_takes_expired sample "one" late late stale stale stale_lease shown-stale stays one_wins

abbrev taken_over : Lease
taken_over = record {
  resource_version = some "a";
  spec = some (record {
    holder_identity = some "one";
    lease_duration_seconds = some 15;
    renew_time = some late;
    acquire_time = some late;
    lease_transitions = some 5;
  });
}

takes_over : request "one" late late (some (lease_of "two" 0)) ≡ replace taken_over
unfolding request held_by expired mine
takes_over = refl
