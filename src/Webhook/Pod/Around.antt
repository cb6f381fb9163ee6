-- ===== src/Webhook/Pod/Around.antt =====
-- dynamic-config-webhook/src/annotations.rs, `of_pod_with`: what the agent does around a render, and the
-- annotations that contradict each other.
use dynamic_config_k8s.Prelude.{
  ℕ, String, Bool, true, false, not, ◌||◌, Option, none, some, [], ◌∷◌, leb, nat_eq, if◌then◌else◌,
  ◌==◌, Result, ok, err, ◌>>=◌, ◌>>◌, ensure,
}
use dynamic_config_k8s.Prelude.Texts.{is_some, is_none, strip_suffix, parse_unsigned}
use dynamic_config_k8s.Json.{Value, number as json_number, pointer}
use dynamic_config_k8s.Webhook.Knobs.{Mode, init, sidecar, both}
use dynamic_config_k8s.Webhook.Installation.{
  Installation, supplied, knob, unwrap_or, agent_image_allowed,
}
use dynamic_config_k8s.Webhook.Pod.Shape.{
  Refused, Behaviour, bad_value, at_odds, needs, not_on_offer, over_limit,
}
use dynamic_config_k8s.Webhook.Pod.Reading.{Lookup, Checked, pin, switched, number, object_ref}
use dynamic_config_k8s.Webhook.Pod.Sidecar.{same_mode}

abbrev pub most_history : ℕ
most_history = 10

-- `terminationGracePeriodSeconds`, thirty if the pod names none
abbrev u64_or : Option Value → ℕ → ℕ
u64_or (some (json_number text)) absent = unwrap_or (parse_unsigned 10 64 text) absent
u64_or _ absent = absent

unfoldable pub grace_of : Value → ℕ
unfolding pointer
grace_of pod = u64_or (pointer ("spec" ∷ "terminationGracePeriodSeconds" ∷ []) pod) 30

unfoldable pub revoke_grace_of : Value → Option String → Result Refused (Option ℕ)
unfolding number strip_suffix grace_of
revoke_grace_of pod none = ok none
revoke_grace_of pod (some text) = do
  seconds ← number 64 "revoke-grace" (unwrap_or (strip_suffix "s" text) text)
  ensure (not (nat_eq seconds 0)) (bad_value "revoke-grace" text)
  ensure (leb seconds (grace_of pod)) (over_limit "revoke-grace")
  ok (some seconds)

unfoldable pub history_of : Bool → Option String → Result Refused (Option ℕ)
unfolding number
history_of volume_memory none = ok none
history_of volume_memory (some text) = do
  keep ← number 64 "history" text
  ensure (not (nat_eq keep 0)) (bad_value "history" text)
  ensure (leb keep most_history) (over_limit "history")
  ensure volume_memory (at_odds "history" "volume-medium")
  ok (some keep)

-- a deadline; zero is none at all
unfoldable pub timeout_of : Option String → Result Refused (Option ℕ)
unfolding number
timeout_of none = ok none
timeout_of (some text) = do
  seconds ← number 64 "timeout" text
  ensure (not (nat_eq seconds 0)) (bad_value "timeout" text)
  ok (some seconds)

unfoldable pub image_of : Installation → Option String → Result Refused (Option String)
image_of i none = ok none
image_of i (some image) = do
  ensure (agent_image_allowed i image) (not_on_offer "agent-image")
  ok (some image)

unfoldable pub drift_of : Option String → Result Refused (Option String)
drift_of none = ok none
drift_of (some policy) =
    if policy == "warn" || policy == "repair" || policy == "fail"
    then ok (some policy)
    else err (bad_value "on-drift" policy)

abbrev opens_port : ℕ → Option ℕ
opens_port n = if nat_eq n 0 then none else some n

-- the port of the metrics; zero declines a default that is not pinned
unfoldable pub metrics_port_of :
    Installation → Option String → Option String → Result Refused (Option ℕ)
unfolding number knob supplied pin
metrics_port_of i source none = ok (knob i source (λ k. k.metrics_port))
metrics_port_of i source (some text) = do
  port ← number 16 "metrics-port" text
  pin nat_eq "metrics-port" (supplied i source "metrics-port" (λ k. k.metrics_port)) port
  ok (opens_port port)

-- a key that asks for nothing unless another is given
abbrev pub without : String → String → Bool → Bool → Checked
without key other asked given = ensure (not asked || given) (needs key other)

-- a key that says nothing beside some mode
abbrev pub not_in : Mode → String → Mode → Bool → Checked
not_in barred key mode asked =
    ensure (not asked || not (same_mode mode barred)) (at_odds key "mode")

abbrev pub named_source : Option String → Bool
named_source none = false
named_source (some source) = source == "s3"

unfoldable pub behaviour :
    Installation → Option String → Value → Lookup → Lookup → Mode → Bool → Result Refused Behaviour
unfolding switched metrics_port_of revoke_grace_of history_of timeout_of image_of drift_of
    object_ref
behaviour i source pod get found mode volume_memory =
    let env_inject = get "env-inject" in
    let aws_secret = found "aws-secret" in
    let canary = object_ref "percent" (found "canary-configmap") in
    do
      not_in sidecar "env-inject" mode (is_some env_inject)
      env_restart ← switched "env-restart" (get "env-restart") false
      without "env-restart" "env-inject" env_restart (is_some env_inject)
      ensure (not env_restart || same_mode mode both) (at_odds "env-restart" "mode")
      ensure (is_none aws_secret || named_source source) (needs "aws-secret" "source")
      metrics_port ← metrics_port_of i source (get "metrics-port")
      meta ← switched "meta" (get "meta") false
      dynamic ← switched "dynamic" (get "dynamic") false
      revoke_on_shutdown ← switched "revoke-on-shutdown" (get "revoke-on-shutdown") true
      revoke_grace ← revoke_grace_of pod (get "revoke-grace")
      without "revoke-grace" "dynamic" (is_some revoke_grace) dynamic
      init_first ← switched "init-first" (get "init-first") false
      not_in sidecar "init-first" mode init_first
      not_in init "notify-http" mode (is_some (get "notify-http"))
      tls_reload ← switched "tls-reload" (get "tls-reload") true
      history ← history_of volume_memory (get "history")
      not_in init "canary-configmap" mode (is_some canary)
      timeout ← timeout_of (found "timeout")
      agent_image ← image_of i (get "agent-image")
      events ← switched "events" (get "events") false
      ensure (not events || i.allow_events) (not_on_offer "events")
      on_drift ← drift_of (get "on-drift")
      without "revoke-on-shutdown" "dynamic" (not revoke_on_shutdown) dynamic
      readiness ← switched "readiness" (get "readiness") true
      require_ack ← switched "require-ack" (get "require-ack") false
      without "require-ack" "readiness" require_ack readiness
      not_in init "require-ack" mode require_ack
      ok (record {
        env_inject = env_inject;
        env_restart = env_restart;
        aws_secret = aws_secret;
        metrics_port = metrics_port;
        meta = meta;
        dynamic = dynamic;
        revoke_on_shutdown = revoke_on_shutdown;
        revoke_grace = revoke_grace;
        init_first = init_first;
        extra_secret = get "extra-secret";
        notify_http = get "notify-http";
        tls_reload = tls_reload;
        history = history;
        canary = canary;
        timeout = timeout;
        agent_image = agent_image;
        events = events;
        on_drift = on_drift;
        readiness = readiness;
        require_ack = require_ack;
      })
