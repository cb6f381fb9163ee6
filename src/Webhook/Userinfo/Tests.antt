-- ===== src/Webhook/Userinfo/Tests.antt =====
-- dynamic-config-webhook/src/annotations.rs: addresses with and without a credential.
use dynamic_config_k8s.Prelude.{◌≡◌, refl}
use dynamic_config_k8s.Prelude.Texts.{◌⊕◌, all_chars, empty_text, head_is}
use dynamic_config_k8s.Webhook.Userinfo.{ellipsis, without_userinfo}
use dynamic_config_k8s.Webhook.Userinfo.Hiding.{without_userinfo-hides}

hides : without_userinfo "redis://u:p@ss@h:6379/0?x=a@b" ≡ "redis://…@h:6379/0?x=a@b"
unfolding without_userinfo
hides = refl

keeps : without_userinfo "https://vault:8200/a@b" ≡ "https://vault:8200/a@b"
unfolding without_userinfo
keeps = refl

without_userinfo-hides_example :
    without_userinfo ("redis" ⊕ "://" ⊕ ("u:p@ss" ⊕ "@" ⊕ "h:6379") ⊕ "/0")
    ≡ "redis" ⊕ "://" ⊕ ellipsis ⊕ "@" ⊕ "h:6379" ⊕ "/0"
unfolding all_chars empty_text head_is
without_userinfo-hides_example =
    without_userinfo-hides "redis" "u:p@ss" "h:6379" "/0" refl refl refl refl refl
