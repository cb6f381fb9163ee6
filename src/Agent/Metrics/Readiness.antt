-- ===== src/Agent/Metrics/Readiness.antt =====
-- dynamic-config-agent/src/metrics.rs: `/readyz` of the agent.
use dynamic_config_k8s.Prelude.{ℕ, ◌+◌, ◌≤◌, ◌≡◌, ◌≢◌, ◌↔◌, ◌⊎◌, true, arith}
use dynamic_config_k8s.Agent.Metrics.{Metrics, rendered_at_least_once, staleness}

-- An agent is ready at a given time exactly if it has rendered, and either has no ceiling, or has had no
-- answer from the store to measure from, or has had its last one at most the ceiling ago.
pub rendered_at_least_once_iff :
    (now : ℕ) (m : Metrics)
    → (rendered_at_least_once now m ≡ true) ↔ (
        (m.renders ≢ 0)
        × ((m.max_staleness ≡ 0) ⊎ (m.last_success ≡ 0) ⊎ (now ≤ m.last_success + m.max_staleness)))
unfolding rendered_at_least_once staleness
rendered_at_least_once_iff now m = ground arith

-- An agent that has rendered, and that has had neither a delivery nor a resync, is ready at every later
-- time, whatever its ceiling: the render at the start does not start the clock.
pub ready_without_success :
    (now : ℕ) (m : Metrics)
    → m.renders ≢ 0
    → m.last_success ≡ 0
    → rendered_at_least_once now m ≡ true
unfolding rendered_at_least_once staleness
ready_without_success now m r s = ground arith
