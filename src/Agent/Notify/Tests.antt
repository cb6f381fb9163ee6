-- ===== src/Agent/Notify/Tests.antt =====
-- Runs of dynamic-config-agent/src/notify.rs.
use dynamic_config_k8s.Prelude.{◌≡◌, refl, ok, err}
use dynamic_config_k8s.Prelude.Texts.{strip_prefix, rsplit_once, parse_unsigned, empty_text}
use dynamic_config_k8s.Agent.Notify.{Endpoint, parse, not_loopback}
use dynamic_config_k8s.Agent.Notify.Local.{IsLocal, parse-IsLocal}

abbrev reload : Endpoint
reload = record { host = "::1"; port = 8080; path = "/-/reload" }

reloads : parse "http://[::1]:8080/-/reload" ≡ ok reload
unfolding parse strip_prefix rsplit_once parse_unsigned empty_text
reloads = refl

elsewhere : parse "http://10.0.0.7:8080/" ≡ err not_loopback
unfolding parse strip_prefix rsplit_once
elsewhere = refl

parse-IsLocal_example : IsLocal reload
parse-IsLocal_example = parse-IsLocal "http://[::1]:8080/-/reload" reload reloads
