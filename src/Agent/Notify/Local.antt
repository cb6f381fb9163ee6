-- ===== src/Agent/Notify/Local.antt =====
-- dynamic-config-agent/src/notify.rs: where an endpoint that was accepted is.
use dynamic_config_k8s.Prelude.{
  ok_or-some, ensure-true, ◌^◌, ◌<◌, String, ◌≡◌, refl, sym, subst, inl, inr, Bool, true, ◌||◌,
  Option, none, some, arith, Bool-cases, ◌==◌, eq_iff, ok, ensure, ok_or, >>=-eq-ok,
}
use dynamic_config_k8s.Prelude.Yields.{ok-injective}
use dynamic_config_k8s.Prelude.Texts.{
  empty_text, strip_prefix, split_once, rsplit_once, parse_unsigned, trim_front, trim_back,
  starts_with,
}
use dynamic_config_k8s.Prelude.Texts.Laws.{parse_unsigned-lt}
use dynamic_config_k8s.Agent.Notify.{
  path_of, Endpoint, parse, parted, is_loopback, is_bracket, not_http, no_port, not_loopback,
  not_a_port,
}

abbrev pub is_own : String → Bool
is_own host = host == "localhost" || host == "127.0.0.1" || host == "::1"

-- a name of this pod, a port, and a path from the root
abbrev pub IsLocal : Endpoint → Type 0
IsLocal endpoint =
    (is_own endpoint.host ≡ true)
    × (endpoint.port < 2 ^ 16)
    × (starts_with "/" endpoint.path ≡ true)

path_of-starts_with :
    (rest : String) (found : Option (String × String))
    → starts_with "/" (path_of rest found).1 ≡ true
unfolding starts_with strip_prefix
path_of-starts_with rest none = refl
path_of-starts_with rest (some (front, back)) = refl

-- one of four names, or not a loopback
by_name :
    (P : String → Type 0) (host : String)
    → P "localhost"
    → P "127.0.0.1"
    → P "[::1]"
    → P "::1"
    → is_loopback host ≡ true
    → P host
by_name P host a b c d h =
    let at : (name : String) → P name → host == name ≡ true → P host =
      λ name held e. subst P (sym ((eq_iff host name).0 e)) held in
    elim (Bool-cases (host == "localhost")) [
      | inl e ↦ at "localhost" a e
      | inr e ↦ elim (Bool-cases (host == "127.0.0.1")) [
        | inl f ↦ at "127.0.0.1" b f
        | inr f ↦ elim (Bool-cases (host == "[::1]")) [
          | inl g ↦ at "[::1]" c g
          | inr g ↦ at "::1" d (ground arith)
        ]
      ]
    ]

trimmed-is_own :
    (host : String)
    → is_loopback host ≡ true
    → is_own (trim_back is_bracket (trim_front is_bracket host)) ≡ true
unfolding trim_front trim_back empty_text
trimmed-is_own host h =
    by_name (λ name. is_own (trim_back is_bracket (trim_front is_bracket name)) ≡ true) host refl
      refl refl refl h

-- Whatever url is accepted for notifications, the agent calls a name of its own pod, at a port of 16
-- bits, with a path from the root.
pub parse-IsLocal :
    (url : String) (endpoint : Endpoint) → parse url ≡ ok endpoint → IsLocal endpoint
unfolding parse
parse-IsLocal url endpoint e =
    let (rest, _, e1) = >>=-eq-ok (ok_or (strip_prefix "http://" url) not_http) _ e in
    let (at, _, e2) = >>=-eq-ok (ok_or (rsplit_once b':' (parted rest).0) no_port) _ e1 in
    let (_, own, e3) = >>=-eq-ok (ensure (is_loopback at.0) not_loopback) _ e2 in
    let (port, read, e4) = >>=-eq-ok (ok_or (parse_unsigned 10 16 at.1) not_a_port) _ e3 in
    subst IsLocal (ok-injective e4) (
      trimmed-is_own at.0 (ensure-true (is_loopback at.0) not_loopback own),
      parse_unsigned-lt 10 16 at.1 port
          (ok_or-some (parse_unsigned 10 16 at.1) not_a_port port read),
      path_of-starts_with rest (split_once b'/' rest),
    )
