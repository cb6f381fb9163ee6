-- ===== src/Agent/Histogram/Counts.antt =====
-- dynamic-config-agent/src/metrics.rs: what the buckets hold, and what a scrape prints.
mod Tests
use dynamic_config_k8s.Prelude.{
  ℕ, suc, ◌-◌, ◌%◌, ◌^◌, ◌≤◌, ◌≡◌, refl, ap, ◌∙◌, List, [], ◌∷◌, map, arith, leb, if◌then◌else◌,
  length,
}
use dynamic_config_k8s.Agent.Histogram.{
  Histogram, Bucket, unused, clamp, observe, reconciled, printed, max, ceilings,
}

-- the state after some reconciliations, the newest first
unfoldable pub after : List ℕ → Histogram
after [] = unused
after (millis ∷ older) = reconciled millis (after older)

-- how many of them took at most so long
unfoldable pub at_most : ℕ → List ℕ → ℕ
at_most ceiling [] = 0
at_most ceiling (millis ∷ older) =
    if leb (clamp millis) ceiling then suc (at_most ceiling older) else at_most ceiling older

abbrev counts : List ℕ → List ℕ → List Bucket
counts marks times = map (λ ceiling. (ceiling, at_most ceiling times % 2 ^ 64)) marks

observe-counts :
    (marks : List ℕ) (millis : ℕ) (older : List ℕ)
    → observe (clamp millis) (counts marks older) ≡ counts marks (millis ∷ older)
unfolding observe at_most
observe-counts [] millis older = refl
observe-counts (ceiling ∷ marks) millis older = ground (arith, observe-counts marks millis older)

-- Each bucket counts every reconciliation that took at most its ceiling, and the total counts all of
-- them; the counters wrap at 64 bits.
pub buckets-after :
    (times : List ℕ)
    → ((after times).buckets ≡ counts ceilings times)
      × ((after times).total ≡ length times % 2 ^ 64)
unfolding after reconciled at_most
buckets-after [] = (refl, refl)
buckets-after (millis ∷ older) =
    let (buckets, total) = buckets-after older in
    (
      ap (observe (clamp millis)) buckets ∙ observe-counts ceilings millis older,
      omega (arith, total),
    )

-- no printed count is smaller than the one before it
abbrev pub IsRising : ℕ → List ℕ → Type 0
IsRising least [] = Unit
IsRising least (n ∷ more) = (least ≤ n) × IsRising n more

-- A scrape never prints a bucket below the one before it, whatever the counters hold when it reads them,
-- so also between two increments of one observation.
pub printed-IsRising : (least : ℕ) (buckets : List Bucket) → IsRising least (printed least buckets)
unfolding printed
printed-IsRising least [] = tt
printed-IsRising least ((ceiling, held) ∷ more) =
    (ground arith, printed-IsRising (max least held) more)
