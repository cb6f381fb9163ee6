-- ===== src/Webhook/Pod/Coherent.antt =====
-- dynamic-config-webhook/src/annotations.rs, `of_pod_with`: the annotations that contradict each other.
use dynamic_config_k8s.Prelude.{
  false, ok, ensure-true, ℕ, String, ◌≡◌, refl, Bool, true, not, ◌&&◌, ◌||◌, Option, none, some,
  arith, ltb, leb, nat_eq, ensure,
}
use dynamic_config_k8s.Prelude.Texts.{is_none, is_some}
use dynamic_config_k8s.Prelude.Yields.{Yields, Yields-ok, Yields-bind}
use dynamic_config_k8s.Json.{Value}
use dynamic_config_k8s.Webhook.Knobs.{Mode, init, sidecar, both}
use dynamic_config_k8s.Webhook.Installation.{Installation, agent_image_allowed}
use dynamic_config_k8s.Webhook.Pod.Shape.{
  needs, at_odds, not_on_offer, Behaviour, over_limit, bad_value,
}
use dynamic_config_k8s.Webhook.Pod.Reading.{switched, object_ref, Lookup, number}
use dynamic_config_k8s.Webhook.Pod.Sidecar.{same_mode}
use dynamic_config_k8s.Webhook.Pod.Around.{
  drift_of, timeout_of, metrics_port_of, without, not_in, behaviour, history_of, image_of,
  named_source, revoke_grace_of, grace_of, most_history,
}

-- between one and a bound
abbrev pub within : ℕ → Option ℕ → Bool
within bound none = true
within bound (some n) = ltb 0 n && leb n bound

abbrev pub allowed_image : Installation → Option String → Bool
allowed_image i none = true
allowed_image i (some image) = agent_image_allowed i image

abbrev pub implies : Bool → Bool → Bool
implies a b = not a || b

-- what each wish needs, of the installation, of the pod and of the other wishes
abbrev pub IsCoherent : Installation → Value → Mode → Bool → Behaviour → Type 0
IsCoherent i pod mode volume_memory b =
    (implies (is_some b.env_inject) (not (same_mode mode sidecar)) ≡ true)
    × (implies b.env_restart (is_some b.env_inject && same_mode mode both) ≡ true)
    × (implies (is_some b.revoke_grace || not b.revoke_on_shutdown) b.dynamic ≡ true)
    × (within (grace_of pod) b.revoke_grace ≡ true)
    × (implies (is_some b.history) volume_memory && within most_history b.history ≡ true)
    × (implies b.require_ack (b.readiness && not (same_mode mode init)) ≡ true)
    × (implies (is_some b.notify_http || is_some b.canary) (not (same_mode mode init)) ≡ true)
    × (implies b.events i.allow_events && allowed_image i b.agent_image ≡ true)

without-implies :
    (key other : String) (asked given : Bool)
    → without key other asked given ≡ ok tt
    → implies asked given ≡ true
without-implies key other asked given = ensure-true (implies asked given) (needs key other)

not_in-implies :
    (barred : Mode) (key : String) (mode : Mode) (asked : Bool)
    → not_in barred key mode asked ≡ ok tt
    → implies asked (not (same_mode mode barred)) ≡ true
not_in-implies barred key mode asked =
    ensure-true (implies asked (not (same_mode mode barred))) (at_odds key "mode")

and_holds : (a b : Bool) → a ≡ true → b ≡ true → a && b ≡ true
and_holds a b h k = ground (arith, h, k)

pub both_hold : (a b c : Bool) → implies a b ≡ true → implies a c ≡ true → implies a (b && c) ≡ true
both_hold a b c h k = ground (arith, h, k)

either_holds : (a b c : Bool) → implies a c ≡ true → implies b c ≡ true → implies (a || b) c ≡ true
either_holds a b c h k = ground (arith, h, k)

positive_within :
    (n bound : ℕ) → not (nat_eq n 0) ≡ true → leb n bound ≡ true → ltb 0 n && leb n bound ≡ true
positive_within n bound h k = ground arith

within-revoke_grace_of :
    (pod : Value) (found : Option String)
    → Yields (λ g. within (grace_of pod) g ≡ true) (revoke_grace_of pod found)
unfolding revoke_grace_of
within-revoke_grace_of pod none = Yields-ok none refl
within-revoke_grace_of pod (some text) = Yields-bind (number 64 "revoke-grace" _) _ (λ seconds _.
    Yields-bind (ensure (not (nat_eq seconds 0)) (bad_value "revoke-grace" text)) _ (λ _ some_time.
      Yields-bind (ensure (leb seconds (grace_of pod)) (over_limit "revoke-grace")) _ (λ _ in_time.
        Yields-ok (some seconds) (
          positive_within seconds (grace_of pod)
            (ensure-true (not (nat_eq seconds 0)) (bad_value "revoke-grace" text) some_time)
            (ensure-true (leb seconds (grace_of pod)) (over_limit "revoke-grace") in_time)))))

within-history_of :
    (volume_memory : Bool) (found : Option String)
    → Yields
        (λ h. implies (is_some h) volume_memory && within most_history h ≡ true)
        (history_of volume_memory found)
unfolding history_of
within-history_of volume_memory none = Yields-ok none refl
within-history_of volume_memory (some text) = Yields-bind (number 64 "history" text) _ (λ keep _.
    Yields-bind (ensure (not (nat_eq keep 0)) (bad_value "history" text)) _ (λ _ some_kept.
      Yields-bind (ensure (leb keep most_history) (over_limit "history")) _ (λ _ few.
        Yields-bind (ensure volume_memory (at_odds "history" "volume-medium")) _ (λ _ in_memory.
          Yields-ok (some keep) (
            let bounded =
              positive_within keep most_history
                (ensure-true (not (nat_eq keep 0)) (bad_value "history" text) some_kept)
                (ensure-true (leb keep most_history) (over_limit "history") few) in
            let kept = ensure-true volume_memory (at_odds "history" "volume-medium") in_memory in
            ground (arith, bounded, kept))))))

allowed-image_of :
    (i : Installation) (found : Option String)
    → Yields (λ image. allowed_image i image ≡ true) (image_of i found)
unfolding image_of
allowed-image_of i none = Yields-ok none refl
allowed-image_of i (some image) =
    Yields-bind (ensure (agent_image_allowed i image) (not_on_offer "agent-image")) _ (λ _ h.
      Yields-ok (some image)
        (ensure-true (agent_image_allowed i image) (not_on_offer "agent-image") h))

pub behaviour-IsCoherent :
    (i : Installation) (source : Option String) (pod : Value) (get found : Lookup) (mode : Mode)
    (volume_memory : Bool)
    → Yields
        (IsCoherent i pod mode volume_memory)
        (behaviour i source pod get found mode volume_memory)
unfolding behaviour
behaviour-IsCoherent i source pod get found mode volume_memory =
    let wraps = is_some (get "env-inject") in
    let tells = is_some (get "notify-http") in
    let canary = is_some (object_ref "percent" (found "canary-configmap")) in
    Yields-bind (not_in sidecar "env-inject" mode wraps) _ (λ _ g1.
      Yields-bind (switched "env-restart" (get "env-restart") false) _ (λ restart _.
        Yields-bind (without "env-restart" "env-inject" restart wraps) _ (λ _ g2.
          Yields-bind (ensure (not restart || same_mode mode both) (at_odds "env-restart" "mode")) _
            (λ _ g3.
              Yields-bind
                (ensure (is_none (found "aws-secret") || named_source source)
                  (needs "aws-secret" "source"))
                _
                (λ _ _. Yields-bind (metrics_port_of i source (get "metrics-port")) _ (λ port _.
                  Yields-bind (switched "meta" (get "meta") false) _ (λ meta _.
                    Yields-bind (switched "dynamic" (get "dynamic") false) _ (λ dynamic _.
                      Yields-bind (switched "revoke-on-shutdown" (get "revoke-on-shutdown") true) _
                        (λ revoke _.
                          Yields-bind (revoke_grace_of pod (get "revoke-grace")) _ (λ grace e4.
                            Yields-bind (without "revoke-grace" "dynamic" (is_some grace) dynamic) _
                              (λ _ g5.
                                Yields-bind (switched "init-first" (get "init-first") false) _
                                  (λ first _.
                                    Yields-bind (not_in sidecar "init-first" mode first) _ (λ _ _.
                                      Yields-bind (not_in init "notify-http" mode tells) _ (λ _ g6.
                                        Yields-bind (switched "tls-reload" (get "tls-reload") true)
                                          _
                                          (λ reload _.
                                            Yields-bind (history_of volume_memory (get "history")) _
                                              (λ history e7.
                                                Yields-bind
                                                  (not_in init "canary-configmap" mode canary) _
                                                  (λ _ g8.
                                                    Yields-bind (timeout_of (found "timeout")) _
                                                      (λ timeout _.
                                                        Yields-bind (image_of i (get "agent-image"))
                                                          _
                                                          (λ image e9.
                                                            Yields-bind
                                                            (switched "events" (get "events") false)
                                                            _
                                                            (λ events _.
                                                            Yields-bind
                                                            (ensure (not events || i.allow_events)
                                                            (not_on_offer "events"))
                                                            _
                                                            (λ _ g10.
                                                            Yields-bind (drift_of (get "on-drift"))
                                                            _
                                                            (λ drift _.
                                                            Yields-bind
                                                            (without "revoke-on-shutdown" "dynamic"
                                                            (not revoke) dynamic)
                                                            _
                                                            (λ _ g11.
                                                            Yields-bind
                                                            (switched "readiness" (get "readiness")
                                                            true)
                                                            _
                                                            (λ readiness _.
                                                            Yields-bind
                                                            (switched "require-ack"
                                                            (get "require-ack") false)
                                                            _
                                                            (λ ack _.
                                                            Yields-bind
                                                            (without "require-ack" "readiness" ack
                                                            readiness)
                                                            _
                                                            (λ _ g12.
                                                            Yields-bind
                                                            (not_in init "require-ack" mode ack) _
                                                            (λ _ g13. Yields-ok _ (
                                                            not_in-implies sidecar "env-inject" mode
                                                            wraps g1,
                                                            both_hold restart wraps
                                                            (same_mode mode both)
                                                            (without-implies "env-restart"
                                                            "env-inject" restart wraps g2)
                                                            (ensure-true
                                                            (implies restart (same_mode mode both))
                                                            (at_odds "env-restart" "mode") g3),
                                                            either_holds (is_some grace)
                                                            (not revoke) dynamic
                                                            (without-implies "revoke-grace"
                                                            "dynamic" (is_some grace) dynamic g5)
                                                            (without-implies "revoke-on-shutdown"
                                                            "dynamic" (not revoke) dynamic g11),
                                                            (within-revoke_grace_of pod
                                                            (get "revoke-grace")).at
                                                            grace e4,
                                                            (within-history_of volume_memory
                                                            (get "history")).at
                                                            history e7,
                                                            both_hold ack readiness
                                                            (not (same_mode mode init))
                                                            (without-implies "require-ack"
                                                            "readiness" ack readiness g12)
                                                            (not_in-implies init "require-ack" mode
                                                            ack g13),
                                                            either_holds tells canary
                                                            (not (same_mode mode init))
                                                            (not_in-implies init "notify-http" mode
                                                            tells g6)
                                                            (not_in-implies init "canary-configmap"
                                                            mode canary g8),
                                                            and_holds
                                                            (implies events i.allow_events)
                                                            (allowed_image i image)
                                                            (ensure-true
                                                            (implies events i.allow_events)
                                                            (not_on_offer "events") g10)
                                                            ((allowed-image_of i
                                                            (get "agent-image")).at
                                                            image e9),
                                                            ))))))))))))))))))))))))))))
