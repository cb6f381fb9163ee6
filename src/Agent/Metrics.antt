-- ===== src/Agent/Metrics.antt =====
-- dynamic-config-agent/src/metrics.rs: the counters and gauges as one state, the readiness and the
-- acknowledgement. Counters are `AtomicU64`, whose `fetch_add` wraps; `now` is the clock in seconds.
pub mod Server
pub mod Acknowledgement
pub mod Readiness
mod Tests
use dynamic_config_k8s.Prelude.{
  ℕ, ◌+◌, ◌-◌, ◌%◌, ◌^◌, String, Bool, not, ◌&&◌, ◌||◌, Option, none, some, nat_eq, leb,
  if◌then◌else◌, ◌==◌,
}
use dynamic_config_k8s.Prelude.Texts.{empty_text}

pub record Metrics : Type 0 where
  pub renders : ℕ
  pub render_failures : ℕ
  pub last_render : ℕ
  pub deliveries : ℕ
  pub resyncs : ℕ
  pub watch_connected : ℕ
  pub watch_reconnects : ℕ
  pub last_success : ℕ
  pub lease_renewals : ℕ
  pub lease_renewal_failures : ℕ
  pub lease_revocations : ℕ
  pub lease_ttl : ℕ
  pub absent_total : ℕ
  pub absent_now : ℕ
  pub generation_held : ℕ
  pub notifications : ℕ
  pub notification_failures : ℕ
  pub drift_now : ℕ
  pub drift_total : ℕ
  pub rendered_fingerprint : String
  pub applied_fingerprint : String
  pub applied_at : ℕ
  pub acks : ℕ
  pub ack_mismatches : ℕ
  pub canary_held : ℕ
  pub canary_percent : ℕ
  pub tls_reloads : ℕ
  pub max_staleness : ℕ

abbrev pub bump : ℕ → ℕ
bump n = (n + 1) % 2 ^ 64

-- what the process starts with
abbrev pub at_start : Metrics
at_start = record {
  renders = 0;
  render_failures = 0;
  last_render = 0;
  deliveries = 0;
  resyncs = 0;
  watch_connected = 0;
  watch_reconnects = 0;
  last_success = 0;
  lease_renewals = 0;
  lease_renewal_failures = 0;
  lease_revocations = 0;
  lease_ttl = 0;
  absent_total = 0;
  absent_now = 0;
  generation_held = 0;
  notifications = 0;
  notification_failures = 0;
  drift_now = 0;
  drift_total = 0;
  rendered_fingerprint = "";
  applied_fingerprint = "";
  applied_at = 0;
  acks = 0;
  ack_mismatches = 0;
  canary_held = 0;
  canary_percent = 100;
  tls_reloads = 0;
  max_staleness = 0;
}

unfoldable pub delivered : ℕ → Metrics → Metrics
delivered now m = record m { deliveries = bump m.deliveries; last_success = now }

unfoldable pub resynced : ℕ → Metrics → Metrics
resynced now m = record m { resyncs = bump m.resyncs; last_success = now }

unfoldable pub watch_up : Metrics → Metrics
watch_up m = record m { watch_connected = 1 }

unfoldable pub watch_down : Metrics → Metrics
watch_down m = record m { watch_connected = 0; watch_reconnects = bump m.watch_reconnects }

unfoldable pub lease_renewed : ℕ → Metrics → Metrics
lease_renewed seconds m = record m { lease_renewals = bump m.lease_renewals; lease_ttl = seconds }

unfoldable pub lease_renewal_failed : Metrics → Metrics
lease_renewal_failed m = record m { lease_renewal_failures = bump m.lease_renewal_failures }

unfoldable pub lease_revoked : Metrics → Metrics
lease_revoked m = record m { lease_revocations = bump m.lease_revocations }

unfoldable pub lease_held : ℕ → Metrics → Metrics
lease_held seconds m = record m { lease_ttl = seconds }

unfoldable pub rendered : ℕ → Metrics → Metrics
rendered now m = record m { absent_now = 0; renders = bump m.renders; last_render = now }

unfoldable pub failed : Metrics → Metrics
failed m = record m { render_failures = bump m.render_failures }

unfoldable pub absent : Metrics → Metrics
absent m = record m { absent_total = bump m.absent_total; absent_now = 1 }

-- a revision that the store counts, or an opaque one
pub data Revision : Type 0 where
  counter : ℕ → Revision
  opaque_ : String → Revision

unfoldable pub generation : Option Revision → Metrics → Metrics
generation (some (counter number)) m = record m { generation_held = number }
generation (some (opaque_ tag)) m = m
generation none m = m

unfoldable pub set_max_staleness : ℕ → Metrics → Metrics
set_max_staleness seconds m = record m { max_staleness = seconds }

-- `now().saturating_sub(last)`
unfoldable pub staleness : ℕ → Metrics → ℕ
staleness now m = if nat_eq m.last_success 0 then 0 else now - m.last_success

unfoldable pub rendered_at_least_once : ℕ → Metrics → Bool
unfolding staleness
rendered_at_least_once now m =
    not (nat_eq m.renders 0) && (nat_eq m.max_staleness 0 || leb (staleness now m) m.max_staleness)

unfoldable pub notified : Metrics → Metrics
notified m = record m { notifications = bump m.notifications }

unfoldable pub notification_failed : Metrics → Metrics
notification_failed m = record m { notification_failures = bump m.notification_failures }

unfoldable pub published : String → Metrics → Metrics
published fingerprint m = record m { rendered_fingerprint = fingerprint }

-- whether the application runs what is published, with what the call counts
unfoldable pub acknowledged : ℕ → String → Metrics → Metrics × Bool
acknowledged now fingerprint m =
    let current = m.rendered_fingerprint == fingerprint in
    (
      record m {
        acks = bump m.acks;
        applied_at = now;
        applied_fingerprint = fingerprint;
        ack_mismatches = if current then m.ack_mismatches else bump m.ack_mismatches;
      },
      current,
    )

unfoldable pub applied : Metrics → Bool
unfolding empty_text
applied m =
    not (empty_text m.rendered_fingerprint) && m.rendered_fingerprint == m.applied_fingerprint

unfoldable pub unapplied_seconds : ℕ → Metrics → ℕ
unfolding applied
unapplied_seconds now m =
    if applied m then 0 else if nat_eq m.last_render 0 then 0 else now - m.last_render

unfoldable pub rendered_and_applied : ℕ → Metrics → Bool
unfolding rendered_at_least_once applied
rendered_and_applied now m = rendered_at_least_once now m && applied m

abbrev pub percent_or_all : Option ℕ → ℕ
percent_or_all none = 100
percent_or_all (some percent) = percent

unfoldable pub canary_holding : Option ℕ → Metrics → Metrics
canary_holding percent m = record m { canary_held = 1; canary_percent = percent_or_all percent }

unfoldable pub canary_admitted : Option ℕ → Metrics → Metrics
canary_admitted percent m = record m { canary_held = 0; canary_percent = percent_or_all percent }

unfoldable pub tls_reloaded : Metrics → Metrics
tls_reloaded m = record m { tls_reloads = bump m.tls_reloads }

unfoldable pub drifted : Metrics → Metrics
drifted m = record m { drift_total = bump m.drift_total; drift_now = 1 }

unfoldable pub undrifted : Metrics → Metrics
undrifted m = record m { drift_now = 0 }
