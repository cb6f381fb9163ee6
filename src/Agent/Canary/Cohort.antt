-- ===== src/Agent/Canary/Cohort.antt =====
-- dynamic-config-agent/src/canary.rs: the cohort only grows with the percentage.
mod Tests
use dynamic_config_k8s.Prelude.{
  ℕ, zero, suc, Bool, if◌then◌else◌, ◌-◌, ◌≤◌, ◌<◌, String, ◌≡◌, Option, some, arith,
}
use dynamic_config_k8s.Agent.Canary.{trim, parse_unsigned, Digest, bucket, percent, admitted}

bucket-lt : (sha : Digest) (pod : String) → bucket sha pod < 100
unfolding bucket
bucket-lt sha pod = ground arith

percent-le : (file : Option String) (p : ℕ) → percent file ≡ some p → p ≤ 100
unfolding percent
percent-le file p h = ground arith

-- The cap at a hundred decides nothing: a pod is admitted as by the number in the file itself, so that a
-- number of a hundred or more admits every pod, and a file without a number as well.
admitted-percent :
    (sha : Digest) (pod text : String)
    → admitted (bucket sha pod) (percent (some text))
      ≡ admitted (bucket sha pod) (parse_unsigned 10 16 (trim text))
unfolding admitted percent
admitted-percent sha pod text = ground (arith, bucket-lt sha pod)

-- how many of the buckets under a bound pass a test
unfoldable pub how_many : (ℕ → Bool) → ℕ → ℕ
how_many test zero = 0
how_many test (suc n) = if test n then suc (how_many test n) else how_many test n
