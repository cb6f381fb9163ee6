-- ===== src/Agent/Histogram/Counts/Tests.antt =====
-- dynamic-config-agent/src/metrics.rs: three reconciliations, and a scrape of torn counters.
use dynamic_config_k8s.Prelude.{◌≡◌, [], ◌∷◌}
use dynamic_config_k8s.Agent.Histogram.Counts.{buckets-after, after, counts}
use dynamic_config_k8s.Agent.Histogram.{List, Bucket, ceilings}

buckets-after_example :
    ((after (7 ∷ 70_000 ∷ 120 ∷ [])).buckets ≡ counts ceilings (7 ∷ 70_000 ∷ 120 ∷ []))
    × ((after (7 ∷ 70_000 ∷ 120 ∷ [])).total ≡ 3)
buckets-after_example = buckets-after (7 ∷ 70_000 ∷ 120 ∷ [])

abbrev torn : List Bucket
torn = (10, 4) ∷ (50, 3) ∷ (100, 9) ∷ []
