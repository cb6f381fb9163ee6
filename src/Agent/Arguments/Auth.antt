-- ===== src/Agent/Arguments/Auth.antt =====
-- dynamic-config-agent/src/spec.rs, `validated_auth`: how each store may be authenticated to. Without a
-- method, the argument of `--auth` is none.
use dynamic_config_k8s.Prelude.{
  String, ◌&&◌, ◌||◌, Option, none, some, nat_eq, if◌then◌else◌, ◌==◌, Result, ok, err, ◌>>◌,
  ensure,
}
use dynamic_config_k8s.Prelude.Texts.{is_some, any_char}
use dynamic_config_k8s.Agent.Arguments.Fields.{
  Refused, Spec, Settings, auth_needs, auth_unknown, nats_without_bucket, redis_with_auth,
}

abbrev Checked : Type 0
Checked = Result Refused (Unit {0})

abbrev fine : Checked
fine = ok tt

abbrev needs : {A : Type 0} → String → Option A → Checked
needs what held = ensure (is_some held) (auth_needs what)

abbrev consul : Settings → String → Checked
consul s method =
    if method == "token"
    then needs "token" s.token
    else if method == "kubernetes"
    then needs "auth mount" s.auth_mount
    else if method == "jwt"
    then needs "auth mount" s.auth_mount >> needs "token" s.token
    else err (auth_unknown method)

abbrev vault : Settings → String → Checked
vault s method =
    if method == "token" || method == "jwt"
    then needs "token" s.token
    else if method == "kubernetes"
    then needs "auth role" s.auth_role
    else if method == "approle"
    then needs "auth role" s.auth_role >> needs "password" s.password
    else if method == "userpass" || method == "ldap"
    then needs "auth username" s.auth_username >> needs "password" s.password
    else if method == "cert"
    then needs "tls cert" s.tls_cert
    else err (auth_unknown method)

abbrev config_server : String → Checked
config_server method = ensure (method == "kubernetes") (auth_unknown method)

abbrev firestore : Settings → String → Checked
firestore s method =
    if method == "metadata-server" || method == "emulator"
    then fine
    else if method == "access-token"
    then needs "token" s.token
    else err (auth_unknown method)

abbrev git : Settings → String → Checked
git s method =
    if method == "anonymous" || method == "ssh"
    then fine
    else if method == "token"
    then needs "token" s.token
    else if method == "ssh-key"
    then needs "ssh key" s.ssh_key
    else err (auth_unknown method)

-- a store with a method given, and one without
unfoldable pub validated_method : Spec → String → Checked
validated_method spec method =
    if spec.source == "consul"
    then consul spec.settings method
    else if spec.source == "vault"
    then vault spec.settings method
    else if spec.source == "config-server"
    then config_server method
    else if spec.source == "firestore"
    then firestore spec.settings method
    else if spec.source == "git"
    then git spec.settings method
    else if spec.source == "redis"
    then err redis_with_auth
    else err (auth_unknown method)

unfoldable pub validated_plain : Spec → Checked
unfolding any_char
validated_plain spec =
    if spec.source == "vault"
    then needs "token" spec.settings.token
    else if spec.source == "etcd" && is_some spec.settings.auth_username
    then needs "password" spec.settings.password
    else if spec.source == "nats"
    then ensure (any_char (nat_eq b'/') spec.key) nats_without_bucket
    else fine

unfoldable pub validated_auth : Spec → Checked
unfolding validated_method validated_plain
validated_auth spec = elim spec.settings.auth [
  | none ↦ validated_plain spec
  | some method ↦ validated_method spec method
]
