-- ===== src/Agent/Metrics/Acknowledgement.antt =====
-- dynamic-config-agent/src/metrics.rs: what an acknowledgement says about the application.
use dynamic_config_k8s.Prelude.{ℕ, String, ◌≡◌, ◌↔◌, true, false, arith, eq_iff}
use dynamic_config_k8s.Prelude.Texts.{empty_text}
use dynamic_config_k8s.Agent.Metrics.{Metrics, acknowledged, applied}
use dynamic_config_k8s.Agent.Metrics.Server.{current, applied_route}

-- The answer `current` is given exactly if the application counts as running what is published, after
-- that very acknowledgement; a blank fingerprint is refused, and changes nothing.
pub applied_route-current_iff :
    (now : ℕ) (fingerprint : String) (m : Metrics)
    → (applied_route now fingerprint m).1 ≡ current
      ↔ ((empty_text fingerprint ≡ false) × (applied (applied_route now fingerprint m).0 ≡ true))
unfolding applied_route acknowledged applied empty_text
applied_route-current_iff now fingerprint m =
    ground (arith, eq_iff m.rendered_fingerprint fingerprint)
