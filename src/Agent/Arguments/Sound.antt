-- ===== src/Agent/Arguments/Sound.antt =====
-- dynamic-config-agent/src/spec.rs: what holds of the settings after any flags.
use dynamic_config_k8s.Prelude.{
  ensure-true, ℕ, ◌≤◌, String, ◌≡◌, sym, subst, inl, inr, true, not, Option, none, some, arith, leb,
  nat_eq, All, Result, ok, err, ◌>>=◌, ensure, ok_or, map_err, Result-cases,
}
use dynamic_config_k8s.Prelude.Yields.{Yields, Yields-ok, Yields-err, Yields-bind}
use dynamic_config_k8s.Prelude.Texts.{parse_unsigned}
use dynamic_config_k8s.Agent.Notify.{Endpoint, parse as parse_endpoint}
use dynamic_config_k8s.Agent.Notify.Local.{IsLocal, parse-IsLocal}
use dynamic_config_k8s.Agent.Arguments.Fields.{
  is_zero, not_octal, past_0777, owner_cannot_read, history_past_most, not_whole, Refused, Settings,
  Draft, most_history, notify,
}
use dynamic_config_k8s.Agent.Arguments.Flags.{
  at_least_one, startup_policy_of, on_delete_of, on_drift_of, octal_digits, Flag, switch, draft,
  plain, checked, flags, owner_reads, whole, seconds, file_mode_of, history_of,
}

abbrev pub IsPositive : Option ℕ → Type 0
IsPositive none = Unit
IsPositive (some n) = 1 ≤ n

-- permissions with which the agent can read its own file
abbrev pub IsMode : Option ℕ → Type 0
IsMode none = Unit
IsMode (some mode) = (mode ≤ 0o777) × (owner_reads mode ≡ true)

abbrev pub CallsOwn : Option Endpoint → Type 0
CallsOwn none = Unit
CallsOwn (some endpoint) = IsLocal endpoint

abbrev pub IsSound : Settings → Type 0
IsSound s =
    IsMode s.file_mode
    × (s.history ≤ most_history)
    × IsPositive s.timeout
    × IsPositive s.max_staleness
    × (1 ≤ s.revoke_grace)
    × IsPositive s.watch
    × CallsOwn s.notify_http

seconds-IsPositive : (flag text : String) → Yields (λ n. 1 ≤ n) (seconds flag text)
unfolding seconds
seconds-IsPositive flag text = Yields-bind (whole flag text) _ (λ n e.
    Yields-bind (ensure (not (nat_eq n 0)) (is_zero flag)) _ (λ _ h.
      Yields-ok n
        (let above = ensure-true (not (nat_eq n 0)) (is_zero flag) h in ground (arith, above))))

file_mode_of-IsMode : (text : String) → Yields (λ n. IsMode (some n)) (file_mode_of text)
unfolding file_mode_of
file_mode_of-IsMode text =
    Yields-bind (ok_or (parse_unsigned 8 32 (octal_digits text)) (not_octal "--file-mode")) _
      (λ mode e. Yields-bind (ensure (leb mode 0o777) (past_0777 "--file-mode")) _ (λ _ h.
        Yields-bind (ensure (owner_reads mode) (owner_cannot_read "--file-mode")) _ (λ _ k.
          let below_777 = ensure-true (leb mode 0o777) (past_0777 "--file-mode") h in
          Yields-ok mode (
            ground (arith, below_777),
            ensure-true (owner_reads mode) (owner_cannot_read "--file-mode") k,
          ))))

history_of-leb : (text : String) → Yields (λ n. n ≤ most_history) (history_of text)
unfolding history_of
history_of-leb text =
    Yields-bind (ok_or (parse_unsigned 10 64 text) (not_whole "--history")) _ (λ n e.
      Yields-bind (ensure (leb n most_history) history_past_most) _ (λ _ h. Yields-ok n (
        let below_most = ensure-true (leb n most_history) history_past_most h in
        ground (arith, below_most))))

endpoint-IsLocal : (text : String) → Yields IsLocal (map_err notify (parse_endpoint text))
endpoint-IsLocal text = elim (Result-cases (parse_endpoint text)) [
  | inl (endpoint, e) ↦
      subst (λ r. Yields IsLocal (map_err notify r)) (sym e)
        (Yields-ok endpoint (parse-IsLocal text endpoint e))
  | inr (why, e) ↦ subst (λ r. Yields IsLocal (map_err notify r)) (sym e) (Yields-err (notify why))
]

-- what a flag does keeps the settings sound
abbrev pub Keeps : Flag → Type 0
Keeps (switch f) = (s : Settings) → IsSound s → IsSound (f s)
Keeps (draft f) = (v : String) (d : Draft) → IsSound d.settings → IsSound (f v d).settings
Keeps (plain f) = (v : String) (s : Settings) → IsSound s → IsSound (f v s)
Keeps (checked f) = (v : String) (s : Settings) → IsSound s → Yields IsSound (f v s)

-- a value that is read, and then put into the settings
puts :
    {A : Type 0} {P : A → Type 0} {r : Result Refused A} (put : A → Settings)
    → Yields P r
    → ((a : A) → P a → IsSound (put a))
    → Yields IsSound (r >>= λ a. ok (put a))
puts {r = r} put read sound = Yields-bind r _ (λ a e. Yields-ok (put a) (sound a (read.at a e)))

-- a value of which nothing is asked
any_value : {A : Type 0} (r : Result Refused A) → Yields (λ _. Unit {0}) r
any_value (ok a) = Yields-ok a tt
any_value (err e) = Yields-err e

at_least_one-leb : (n : ℕ) → 1 ≤ at_least_one n
at_least_one-leb n = ground arith

-- every flag of the table
pub flags-Keeps : All (λ entry. Keeps entry.1) flags
unfolding flags
flags-Keeps = (
  λ v s h. h,
  (
    λ v s h. h,
    (
      λ v s h. h,
      (
        λ v s h. h,
        (
          λ v s h.
              puts (λ n. record s { watch = some (at_least_one n) }) (any_value (whole "--watch" v))
                (λ n _. (h.0, h.1, h.2, h.3, h.4, at_least_one-leb n, h.6)),
          (
            λ v s h. h,
            (
              λ v s h. h,
              (
                λ v s h. h,
                (
                  λ v s h.
                      puts (λ p. record s { startup_policy = p }) (any_value (startup_policy_of v))
                        (λ p _. h),
                  (
                    λ v s h.
                        puts (λ n. record s { max_document_bytes = some n })
                          (any_value (whole "--max-document-bytes" v)) (λ n _. h),
                    (
                      λ v s h.
                          puts (λ p. record s { on_delete = p }) (any_value (on_delete_of v))
                            (λ p _. h),
                      (
                        λ v s h.
                            puts (λ p. record s { on_drift = p }) (any_value (on_drift_of v))
                              (λ p _. h),
                        (
                          λ s h. h,
                          (
                            λ s h. h,
                            (
                              λ s h. h,
                              (
                                λ v s h. h,
                                (
                                  λ v s h.
                                      puts (λ n. record s { timeout = some n })
                                        (seconds-IsPositive "--timeout" v)
                                        (λ n p. (h.0, h.1, p, h.3, h.4, h.5, h.6)),
                                  (
                                    λ v s h.
                                        puts (λ n. record s { history = n }) (history_of-leb v)
                                          (λ n p. (h.0, p, h.2, h.3, h.4, h.5, h.6)),
                                    (
                                      λ v s h.
                                          puts (λ e. record s { notify_http = some e })
                                            (endpoint-IsLocal v)
                                            (λ e p. (h.0, h.1, h.2, h.3, h.4, h.5, p)),
                                      (
                                        λ v s h. h,
                                        (
                                          λ v s h. h,
                                          (
                                            λ s h. h,
                                            (
                                              λ v s h.
                                                  puts (λ n. record s { max_staleness = some n })
                                                    (seconds-IsPositive "--max-staleness" v)
                                                    (λ n p. (h.0, h.1, h.2, p, h.4, h.5, h.6)),
                                              (
                                                λ s h. h,
                                                (
                                                  λ s h. h,
                                                  (
                                                    λ v s h.
                                                        puts (λ n. record s { revoke_grace = n })
                                                          (seconds-IsPositive "--revoke-grace" v)
                                                          (λ n p.
                                                            (h.0, h.1, h.2, h.3, p, h.5, h.6)),
                                                    (
                                                      λ v s h.
                                                          puts
                                                            (λ n. record s { file_mode = some n })
                                                            (file_mode_of-IsMode v)
                                                            (λ n p.
                                                            (p, h.1, h.2, h.3, h.4, h.5, h.6)),
                                                      (
                                                        λ v s h. h,
                                                        (
                                                          λ v s h. h,
                                                          (
                                                            λ v s h. h,
                                                            (
                                                            λ v s h. h,
                                                            (
                                                            λ v s h. h,
                                                            (
                                                            λ v s h. h,
                                                            (
                                                            λ v s h. h,
                                                            (
                                                            λ v s h. h,
                                                            (
                                                            λ v s h. h,
                                                            (
                                                            λ v s h. h,
                                                            (
                                                            λ v s h. h,
                                                            (
                                                            λ v s h. h,
                                                            (
                                                            λ v s h. h,
                                                            (
                                                            λ s h. h,
                                                            (
                                                            λ v s h. h,
                                                            (
                                                            λ v s h. h,
                                                            (
                                                            λ s h.
                                                            (h.0, h.1, h.2, h.3, h.4, tt, h.6),
                                                            tt,
                                                            ),
                                                            ),
                                                            ),
                                                            ),
                                                            ),
                                                            ),
                                                            ),
                                                            ),
                                                            ),
                                                            ),
                                                            ),
                                                            ),
                                                            ),
                                                            ),
                                                          ),
                                                        ),
                                                      ),
                                                    ),
                                                  ),
                                                ),
                                              ),
                                            ),
                                          ),
                                        ),
                                      ),
                                    ),
                                  ),
                                ),
                              ),
                            ),
                          ),
                        ),
                      ),
                    ),
                  ),
                ),
              ),
            ),
          ),
        ),
      ),
    ),
  ),
)
