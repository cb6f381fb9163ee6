-- ===== src/Webhook/Pod/Handover.antt =====
-- dynamic-config-webhook/src/annotations.rs and dynamic-config-agent/src/spec.rs: what the webhook writes
-- on the agent's command line, as the agent reads it.
use dynamic_config_k8s.Webhook.Pod.Shape
use dynamic_config_k8s.Prelude.{Result, Option, String, ◌≡◌, some, ok, sym, ◌∙◌}
use dynamic_config_k8s.Prelude.{
  ℕ, String, ◌≡◌, refl, sym, ap, ◌∙◌, subst, Bool, true, false, not, ◌||◌, Option, some, arith,
  nat_eq, nat_eq_iff, ◌==◌, All, Result, ok, err, map_err, >>=-eq-ok,
}
use dynamic_config_k8s.Prelude.{map_err-eq-ok}
use dynamic_config_k8s.Prelude.Texts.{parse_unsigned, strip_prefix, ◌⊕◌}
use dynamic_config_k8s.Agent.Arguments.Fields
use dynamic_config_k8s.Agent.Arguments.Flags
use dynamic_config_k8s.Webhook.Quantities.{octal_mode, without_0o, to_octal}
use dynamic_config_k8s.Webhook.Quantities.Modes.{
  octal_mode-eq-ok, passes_under, passes_under-at, owner_reads,
}
use dynamic_config_k8s.Webhook.Installation.{Installation, supplied}
use dynamic_config_k8s.Webhook.Pod.Shape.{value_of}
use dynamic_config_k8s.Webhook.Pod.Reading.{pin}
use dynamic_config_k8s.Webhook.Pod.Named.{file_mode_of, mode_argument}

abbrev is_taken : Result Fields.Refused ℕ → ℕ → Bool
is_taken (ok n) v = nat_eq n v
is_taken (err _) v = false

is_taken-ok : (r : Result Fields.Refused ℕ) (v : ℕ) → is_taken r v ≡ true → r ≡ ok v
is_taken-ok (ok n) v h = ap ok ((nat_eq_iff n v).0 h)
is_taken-ok (err e) v h = cc

-- the argument of a mode is read as the mode
taken : ℕ → Bool
taken v = not (owner_reads v) || is_taken (Flags.file_mode_of ("0" ⊕ to_octal v)) v

all_taken : passes_under taken 512 ≡ true
unfolding passes_under taken Flags.file_mode_of parse_unsigned to_octal strip_prefix
all_taken = refl

taken-eq :
    (v : ℕ) → owner_reads v ≡ true → taken v ≡ true → Flags.file_mode_of ("0" ⊕ to_octal v) ≡ ok v
unfolding taken
taken-eq v reads h = is_taken-ok (Flags.file_mode_of ("0" ⊕ to_octal v)) v (ground arith)

given-mode :
    (a b : String)
    → ◌≡◌ {A = Result Shape.Refused (Option String)} (ok (some a)) (ok (some b))
    → a ≡ b
given-mode a b e = cc

-- A file mode that a pod may ask for is handed to the agent as an argument that the agent takes, and
-- that it reads as the number that the pod wrote.
pub file_mode_of-taken :
    (i : Installation) (source : Option String) (key text mode : String)
    → file_mode_of i source key (some text) ≡ ok (some mode)
    → (n : ℕ) × (parse_unsigned 8 32 (without_0o text) ≡ some n)
      × All
          (λ argument. (argument.0 ≡ "--file-mode") × (Flags.file_mode_of argument.1 ≡ ok n))
          (mode_argument mode)
unfolding file_mode_of
file_mode_of-taken i source key text mode e =
    let (printed, passes, e1) = >>=-eq-ok (map_err value_of (octal_mode key text)) _ e in
    let (_, _, e2) =
      >>=-eq-ok (pin (λ a b. a == b) key (supplied i source "file-mode" (λ k. k.file_mode)) printed)
        _ e1 in
    let (v, parsed, small, reads, same) =
      octal_mode-eq-ok key text printed
        (map_err-eq-ok value_of (octal_mode key text) printed passes) in
    let kept = given-mode printed mode e2 in
    (
      v,
      parsed,
      (
        (
          refl,
          subst (λ m. Flags.file_mode_of ("0" ⊕ m) ≡ ok v) (sym same ∙ kept)
              (taken-eq v reads (passes_under-at taken 512 v small all_taken)),
        ),
        tt,
      ),
    )
