-- ===== src/Webhook/Pod/Prevails.antt =====
-- dynamic-config-webhook/src/annotations.rs, `of_pod_with`: an address that the installation pins.
use dynamic_config_k8s.Prelude.{
  ensure-true, String, ◌≡◌, true, not, ◌&&◌, Option, List, ◌==◌, find, ensure-true,
}
use dynamic_config_k8s.Prelude.Yields.{Yields}
use dynamic_config_k8s.Prelude.Texts.{is_none, is_some}
use dynamic_config_k8s.Webhook.Installation.{Installation, Supplied}
use dynamic_config_k8s.Webhook.Pod.Reading.{Lookup, is_pinned}

-- the text that the installation supplies for a key
abbrev pub supplied_text : String → List Supplied → Option Supplied
supplied_text key held = find (λ s. s.key == key) held

-- the half of a pair that is not pinned is the pod's only where it gives the pinned one as well
abbrev IsHalved : Lookup → List Supplied → Type 0
IsHalved get held =
    not (is_pinned "endpoint" held && is_none (get "endpoint") && is_some (get "endpoint-secret"))
    ≡ true
