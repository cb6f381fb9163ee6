-- ===== src/Agent/Metrics/Tests.antt =====
-- dynamic-config-agent/src/metrics.rs: an application that acknowledges, and two agents on the clock.
use dynamic_config_k8s.Prelude.Texts.{empty_text, starts_with, trim, strip_prefix}
use dynamic_config_k8s.Agent.Metrics.Server.{fingerprint_of, body}
use dynamic_config_k8s.Agent.Metrics.{acknowledged}
use dynamic_config_k8s.Prelude.{◌≡◌, refl}
use dynamic_config_k8s.Agent.Metrics.{
  empty_text, staleness, rendered_at_least_once, Metrics, at_start,
}
use dynamic_config_k8s.Agent.Metrics.Server.{body, fingerprint_of, respond, current, applied_route}

abbrev serving : Metrics
serving = record at_start { renders = 1; rendered_fingerprint = "sha256:ab"; max_staleness = 300 }

acknowledges :
    (respond rendered_at_least_once 50 "POST /applied HTTP/1.1\r\nhost: a\r\n\r\nsha256:ab\n"
      serving).1
    ≡ current
unfolding respond rendered_at_least_once staleness applied_route fingerprint_of starts_with trim
    body strip_prefix acknowledged empty_text
acknowledges = refl

abbrev stale : Metrics
stale = record serving { last_success = 100 }
