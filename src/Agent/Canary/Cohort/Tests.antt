-- ===== src/Agent/Canary/Cohort/Tests.antt =====
-- dynamic-config-agent/src/canary.rs: one pod while the cohort widens.
use dynamic_config_k8s.Prelude.{◌≡◌, refl, true, some}
use dynamic_config_k8s.Prelude.Texts.{parse_unsigned, trim}
use dynamic_config_k8s.Agent.Canary.{trim, parse_unsigned, Digest, bucket, percent, admitted}

-- a hash that gives every name the bytes 0x01 and 0x2c, three hundred as one number
abbrev sha : Digest
sha pod = (1, 44)

ten : percent (some " 10\n") ≡ some 10
unfolding percent parse_unsigned trim
ten = refl

fifty : percent (some "50") ≡ some 50
unfolding percent parse_unsigned trim
fifty = refl

in_ten : admitted (bucket sha "billing-0") (percent (some " 10\n")) ≡ true
unfolding admitted bucket percent parse_unsigned trim
in_ten = refl
