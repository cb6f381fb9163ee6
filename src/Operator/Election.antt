-- ===== src/Operator/Election.antt =====
-- dynamic-config-operator/src/election.rs: leader election over a Lease.
-- Times are nanoseconds. `claim` reads the lease, decides what to send, and sends it; the clock is read
-- twice, once for the lease that is written (`now`) and once for the test of expiry (`checked`). The
-- API server is the caller's: what it answered to the read, and a function for what it answers to a
-- write. An `i32` is its bit pattern, so that the count of transitions wraps at 32 bits, as in a release
-- build.
pub mod Writes
pub mod Fence
pub mod Leading
mod SampleServer
mod Tests
use dynamic_config_k8s.Prelude.{
  ◌>>=◌, ◌>>◌, ℕ, ◌+◌, ◌-◌, ◌*◌, ◌/◌, ◌%◌, ◌^◌, String, Bool, true, false, Option, none, some, List,
  [], ◌∷◌, ltb, leb, nat_eq, if◌then◌else◌, ◌==◌, Result, ok, err,
}

abbrev pub second : ℕ
second = 1_000_000_000

abbrev pub term_seconds : ℕ
term_seconds = 15

abbrev pub term : ℕ
term = term_seconds * second

abbrev pub renew_every : ℕ
renew_every = 5 * second

-- the fields of `LeaseSpec` that the operator reads or writes
pub record LeaseSpec : Type 0 where
  pub holder_identity : Option String
  pub lease_duration_seconds : Option ℕ
  pub renew_time : Option ℕ
  pub acquire_time : Option ℕ
  pub lease_transitions : Option ℕ

pub record Lease : Type 0 where
  pub resource_version : Option String
  pub spec : Option LeaseSpec

pub data KubeError : Type 0 where
  api : ℕ → KubeError
  other : KubeError

pub data Write : Type 0 where
  nothing : Write
  create : Lease → Write
  replace : Lease → Write

abbrev pub default_spec : LeaseSpec
default_spec = record {
  holder_identity = none;
  lease_duration_seconds = none;
  renew_time = none;
  acquire_time = none;
  lease_transitions = none;
}

abbrev pub unwrap_or {ℓ} : {A : Type ℓ} → A → Option A → A
unwrap_or a none = a
unwrap_or a (some b) = b

-- the closure `mine`
unfoldable pub mine : String → ℕ → Option String → Option ℕ → Option ℕ → Lease
mine identity now version acquired transitions = record {
  resource_version = version;
  spec = some (record {
    holder_identity = some identity;
    lease_duration_seconds = some term_seconds;
    renew_time = some now;
    acquire_time = some (unwrap_or now acquired);
    lease_transitions = transitions;
  });
}

unfoldable pub held_by : String → LeaseSpec → Bool
held_by identity spec = elim spec.holder_identity [
  | none ↦ false
  | some holder ↦ holder == identity
]

-- whole seconds since the last renewal, past the duration that the lease names
unfoldable pub expired : ℕ → LeaseSpec → Bool
expired checked spec = elim spec.renew_time [
  | none ↦ true
  | some renewed ↦
      ltb (unwrap_or term_seconds spec.lease_duration_seconds) ((checked - renewed) / second)
]

-- what a claim sends, once it has read the lease
unfoldable pub request : String → ℕ → ℕ → Option Lease → Write
request identity now checked none = create (mine identity now none none (some 0))
request identity now checked (some current) =
    let spec = unwrap_or default_spec current.spec in
    if held_by identity spec
    then replace
        (mine identity now current.resource_version spec.acquire_time spec.lease_transitions)
    else if expired checked spec
    then replace (
        mine identity now current.resource_version none
          (some ((unwrap_or 0 spec.lease_transitions + 1) % 2 ^ 32)))
    else nothing

-- the two `match`es on an answer to a write: a conflict is no error, it is a lost race
unfoldable pub settled : Result KubeError (Unit {0}) → Result KubeError Bool
settled (ok _) = ok true
settled (err (api code)) = if nat_eq code 409 then ok false else err (api code)
settled (err other) = err other

unfoldable pub send : (Write → Result KubeError (Unit {0})) → Write → Result KubeError Bool
unfolding settled
send answer nothing = ok false
send answer (create lease) = settled (answer (create lease))
send answer (replace lease) = settled (answer (replace lease))

unfoldable pub claim :
    String
    → ℕ
    → ℕ
    → Result KubeError (Option Lease)
    → (Write → Result KubeError (Unit {0}))
    → Result KubeError Bool
unfolding request send
claim identity now checked got answer = do
  current ← got
  send answer (request identity now checked current)

-- The first loop of `lead`: it polls until a claim succeeds, and an error ends it. `none` is a loop
-- that is still waiting when the answers end.
unfoldable pub wait_turn : List (Result KubeError Bool) → Option (Result KubeError (Unit {0}))
wait_turn [] = none
wait_turn (err e ∷ rest) = some (err e)
wait_turn (ok true ∷ rest) = some (ok tt)
wait_turn (ok false ∷ rest) = wait_turn rest

-- One attempt to renew: when its answer came, and the answer.
pub record Attempt : Type 0 where
  pub at : ℕ
  pub answer : Result KubeError Bool

pub data Held : Type 0 where
  leading : ℕ → Held
  stood_down : ℕ → Held

-- one round of the second loop of `lead`, from the time of the last success
unfoldable pub attempted : ℕ → Attempt → Held
attempted held a = elim a.answer [
  | ok true ↦ leading a.at
  | ok false ↦ stood_down a.at
  | err e ↦ if leb term (a.at - held) then stood_down a.at else leading held
]

unfoldable pub lead : ℕ → List Attempt → Held
unfolding attempted
lead held [] = leading held
lead held (a ∷ rest) = elim (attempted held a) [
  | leading since ↦ lead since rest
  | stood_down at ↦ stood_down at
]
