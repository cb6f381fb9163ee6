-- ===== src/Agent/Histogram.antt =====
-- dynamic-config-agent/src/metrics.rs: the histogram of the operator's reconciliations. A bucket stands
-- beside its ceiling; durations are in milliseconds.
pub mod Counts
use dynamic_config_k8s.Prelude.{ℕ, ◌+◌, ◌-◌, ◌%◌, ◌^◌, min, List, [], ◌∷◌, map, leb, if◌then◌else◌}
use dynamic_config_k8s.Agent.Metrics.{bump}

abbrev pub Bucket : Type 0
Bucket = ℕ × ℕ

pub record Histogram : Type 0 where
  pub total : ℕ
  pub sum : ℕ
  pub failures : ℕ
  pub buckets : List Bucket

abbrev pub ceilings : List ℕ
ceilings = 10 ∷ 50 ∷ 100 ∷ 500 ∷ 1_000 ∷ 5_000 ∷ 15_000 ∷ 60_000 ∷ []

abbrev pub unused : Histogram
unused = record {
  total = 0;
  sum = 0;
  failures = 0;
  buckets = map (λ ceiling. (ceiling, 0)) ceilings;
}

-- `u64::try_from(millis).unwrap_or(u64::MAX)`
abbrev pub clamp : ℕ → ℕ
clamp millis = min millis (2 ^ 64 - 1)

-- the loop over the buckets
unfoldable pub observe : ℕ → List Bucket → List Bucket
observe millis [] = []
observe millis ((ceiling, held) ∷ more) =
    (ceiling, if leb millis ceiling then bump held else held) ∷ observe millis more

unfoldable pub reconciled : ℕ → Histogram → Histogram
unfolding observe
reconciled millis h = record h {
  total = bump h.total;
  sum = (h.sum + clamp millis) % 2 ^ 64;
  buckets = observe (clamp millis) h.buckets;
}

unfoldable pub reconcile_failed : Histogram → Histogram
reconcile_failed h = record h { failures = bump h.failures }

abbrev pub max : ℕ → ℕ → ℕ
max a b = if leb a b then b else a

-- the loop of `histogram`: what a scrape prints for each bucket, from the largest count so far
unfoldable pub printed : ℕ → List Bucket → List ℕ
printed cumulative [] = []
printed cumulative ((ceiling, held) ∷ more) =
    max cumulative held ∷ printed (max cumulative held) more
