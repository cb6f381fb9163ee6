-- ===== src/Agent/Metrics/Server.antt =====
-- dynamic-config-agent/src/metrics.rs, `serve`: the answer to one request, without the sockets. The text
-- of the exposition is not modelled: it is the route `exposed`.
use Prim.Native.String.{[], ◌∷◌}
use dynamic_config_k8s.Prelude.{◌∷◌, Bool, if◌then◌else◌, String, Option, none, some, ℕ}
use dynamic_config_k8s.Prelude.Texts.{strip_prefix, empty_text, starts_with, trim}
use dynamic_config_k8s.Agent.Metrics.{Metrics, acknowledged}

pub data Reply : Type 0 where
  no_fingerprint current healthy ready unready exposed : Reply
  conflict : (held : String) → Reply

-- `request.split_once("\r\n\r\n")`, the part behind the mark
unfoldable pub body : String → Option String
unfolding strip_prefix
body [] = none
body (c ∷ s) =
    let later = body s in
    elim (strip_prefix "\r\n\r\n" (c ∷ s)) [ some rest ↦ some rest | none ↦ later ]

unfoldable pub fingerprint_of : String → String
unfolding body trim
fingerprint_of request = elim (body request) [ none ↦ "" | some text ↦ trim text ]

unfoldable pub applied_route : ℕ → String → Metrics → Metrics × Reply
applied_route now fingerprint m =
    let (m', is_current) = acknowledged now fingerprint m in
    if empty_text fingerprint
    then (m, no_fingerprint)
    else if is_current
    then (m', current)
    else (m', conflict m'.rendered_fingerprint)

-- the readiness is the caller's function, as in the source
unfoldable pub respond : (ℕ → Metrics → Bool) → ℕ → String → Metrics → Metrics × Reply
unfolding applied_route fingerprint_of starts_with
respond is_ready now request m =
    if starts_with "POST /applied" request
    then applied_route now (fingerprint_of request) m
    else if starts_with "GET /healthz" request
    then (m, healthy)
    else if starts_with "GET /readyz" request
    then (m, if is_ready now m then ready else unready)
    else (m, exposed)
