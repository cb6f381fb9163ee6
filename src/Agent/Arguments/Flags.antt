-- ===== src/Agent/Arguments/Flags.antt =====
-- dynamic-config-agent/src/spec.rs, the `match` of `from_args`: what each flag does, as a table.
use dynamic_config_k8s.Prelude.{
  ◌++◌, true, false, ℕ, ◌/◌, ◌%◌, String, Bool, not, Option, none, some, List, [], ◌∷◌, leb, nat_eq,
  if◌then◌else◌, ◌==◌, Result, ok, err, ◌>>=◌, ◌>>◌, ensure, ok_or, map_err,
}
use dynamic_config_k8s.Prelude.Texts.{parse_unsigned, strip_prefix}
use dynamic_config_k8s.Agent.Notify.{parse as parse_endpoint}
use dynamic_config_k8s.Agent.Sidecar.{
  StartupPolicy, OnDelete, OnDrift, allow_cached, require_fresh, best_effort, retain, remove,
  end_agent, warn, repair, fail,
}
use dynamic_config_k8s.Agent.Arguments.Fields.{
  Refused, Settings, Draft, not_whole, is_zero, not_octal, past_0777, owner_cannot_read,
  unknown_value, history_past_most, notify, most_history,
}

-- a flag alone, or one with the argument that follows it
pub data Flag : Type 0 where
  switch : (Settings → Settings) → Flag
  draft : (String → Draft → Draft) → Flag
  plain : (String → Settings → Settings) → Flag
  checked : (String → Settings → Result Refused Settings) → Flag

unfoldable pub startup_policy_of : String → Result Refused StartupPolicy
startup_policy_of text =
    if text == "allow-cached"
    then ok allow_cached
    else if text == "require-fresh"
    then ok require_fresh
    else if text == "best-effort"
    then ok best_effort
    else err (unknown_value "--startup-policy")

unfoldable pub on_delete_of : String → Result Refused OnDelete
on_delete_of text =
    if text == "retain"
    then ok retain
    else if text == "remove"
    then ok remove
    else if text == "fail"
    then ok end_agent
    else err (unknown_value "--on-delete")

unfoldable pub on_drift_of : String → Result Refused OnDrift
on_drift_of text =
    if text == "warn"
    then ok warn
    else if text == "repair"
    then ok repair
    else if text == "fail"
    then ok fail
    else err (unknown_value "--on-drift")

-- whole seconds, of a `u64`
unfoldable pub whole : String → String → Result Refused ℕ
whole flag text = ok_or (parse_unsigned 10 64 text) (not_whole flag)

-- seconds for which zero is refused
unfoldable pub seconds : String → String → Result Refused ℕ
unfolding whole
seconds flag text = do n ← whole flag text; ensure (not (nat_eq n 0)) (is_zero flag); ok n

abbrev pub octal_digits : String → String
octal_digits text = elim (strip_prefix "0o" text) [ none ↦ text | some digits ↦ digits ]

abbrev pub owner_reads : ℕ → Bool
owner_reads mode = not (nat_eq (mode / 0o400 % 2) 0)

unfoldable pub file_mode_of : String → Result Refused ℕ
file_mode_of text = do
  mode ← ok_or (parse_unsigned 8 32 (octal_digits text)) (not_octal "--file-mode")
  ensure (leb mode 0o777) (past_0777 "--file-mode")
  ensure (owner_reads mode) (owner_cannot_read "--file-mode")
  ok mode

unfoldable pub history_of : String → Result Refused ℕ
history_of text = do
  n ← ok_or (parse_unsigned 10 64 text) (not_whole "--history")
  ensure (leb n most_history) history_past_most
  ok n

abbrev pub at_least_one : ℕ → ℕ
at_least_one n = if nat_eq n 0 then 1 else n

unfoldable pub flags : List (String × Flag)
flags =
    ("--source", draft (λ v d. record d { source = some v }))
    ∷ ("--endpoint", draft (λ v d. record d { endpoint = some v }))
    ∷ ("--key", draft (λ v d. record d { key = some v }))
    ∷ ("--out", draft (λ v d. record d { out = some v }))
    ∷ (
      "--watch",
      checked (λ v s. do n ← whole "--watch" v; ok (record s { watch = some (at_least_one n) })),
    )
    ∷ ("--token", plain (λ v s. record s { token = some v }))
    ∷ ("--section", plain (λ v s. record s { section = some v }))
    ∷ ("--metrics-addr", plain (λ v s. record s { metrics_addr = some v }))
    ∷ (
      "--startup-policy",
      checked (λ v s. do p ← startup_policy_of v; ok (record s { startup_policy = p })),
    )
    ∷ (
      "--max-document-bytes",
      checked (λ v s. do
        n ← whole "--max-document-bytes" v
        ok (record s { max_document_bytes = some n })),
    )
    ∷ ("--on-delete", checked (λ v s. do p ← on_delete_of v; ok (record s { on_delete = p })))
    ∷ ("--on-drift", checked (λ v s. do p ← on_drift_of v; ok (record s { on_drift = p })))
    ∷ ("--no-tls-reload", switch (λ s. record s { tls_reload = false }))
    ∷ ("--require-ack", switch (λ s. record s { require_ack = true }))
    ∷ ("--events", switch (λ s. record s { events = true }))
    ∷ ("--canary", plain (λ v s. record s { canary = some v }))
    ∷ (
      "--timeout",
      checked (λ v s. do n ← seconds "--timeout" v; ok (record s { timeout = some n })),
    )
    ∷ ("--history", checked (λ v s. do n ← history_of v; ok (record s { history = n })))
    ∷ (
      "--notify-http",
      checked
          (λ v s. do e ← map_err notify (parse_endpoint v); ok (record s { notify_http = some e })),
    )
    ∷ ("--also", draft (λ v d. record d { also = d.also ++ v ∷ [] }))
    ∷ ("--schema", plain (λ v s. record s { schema = some v }))
    ∷ ("--meta", switch (λ s. record s { meta = true }))
    ∷ (
      "--max-staleness",
      checked (λ v s. do n ← seconds "--max-staleness" v; ok (record s { max_staleness = some n })),
    )
    ∷ ("--dynamic", switch (λ s. record s { dynamic = true }))
    ∷ ("--no-revoke-on-shutdown", switch (λ s. record s { revoke_on_shutdown = false }))
    ∷ (
      "--revoke-grace",
      checked (λ v s. do n ← seconds "--revoke-grace" v; ok (record s { revoke_grace = n })),
    )
    ∷ ("--file-mode", checked (λ v s. do n ← file_mode_of v; ok (record s { file_mode = some n })))
    ∷ ("--auth", plain (λ v s. record s { auth = some v }))
    ∷ ("--auth-mount", plain (λ v s. record s { auth_mount = some v }))
    ∷ ("--auth-role", plain (λ v s. record s { auth_role = some v }))
    ∷ ("--auth-username", plain (λ v s. record s { auth_username = some v }))
    ∷ ("--auth-token-path", plain (λ v s. record s { auth_token_path = some v }))
    ∷ ("--namespace", plain (λ v s. record s { namespace = some v }))
    ∷ ("--ref", plain (λ v s. record s { reference = some v }))
    ∷ ("--ssh-key", plain (λ v s. record s { ssh_key = some v }))
    ∷ ("--api-url", plain (λ v s. record s { api_url = some v }))
    ∷ ("--template", plain (λ v s. record s { template = some v }))
    ∷ ("--template-inline", plain (λ v s. record s { template_inline = some v }))
    ∷ ("--ca", plain (λ v s. record s { ca = some v }))
    ∷ ("--tls-server-name", plain (λ v s. record s { tls_server_name = some v }))
    ∷ ("--tls-skip-verify", switch (λ s. record s { tls_skip_verify = true }))
    ∷ ("--tls-cert", plain (λ v s. record s { tls_cert = some v }))
    ∷ ("--tls-key", plain (λ v s. record s { tls_key = some v }))
    ∷ ("--one-shot", switch (λ s. record s { watch = none }))
    ∷ []

unfoldable pub flag_in : String → List (String × Flag) → Option Flag
flag_in name [] = none
flag_in name ((held, flag) ∷ more) =
    let rest = flag_in name more in if held == name then some flag else rest
