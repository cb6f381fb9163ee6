-- ===== src/NodeAgent/Volume/Lines.antt =====
-- dynamic-config-node-agent/src/publish.rs: which files a volume's command line has the agent write.
use dynamic_config_k8s.Prelude.{
  sym, ◌∙◌, ap, Bool-cases, All-append, ◌++◌, ℕ, String, ◌≡◌, refl, sym, ap, ◌∙◌, inl, inr, Option,
  some, List, [], ◌∷◌, ◌++◌, Bool-cases, All, All-append, ok,
}
use dynamic_config_k8s.Prelude.Yields.{Yields}
use dynamic_config_k8s.Agent.Arguments.{from_args, parse_renderings, read_flags}
use dynamic_config_k8s.Agent.Arguments.Fields.{Rendering, Spec, Environment, initial, Draft}
use dynamic_config_k8s.Agent.Arguments.Flags.{flag_in, flags}
use dynamic_config_k8s.NodeAgent.Volume.{
  asked, asks_watch, watched, Pairs, line, Attributes, passed, options,
}
use dynamic_config_k8s.NodeAgent.Volume.Steps.{
  Takes, read_flags-line, passed-Takes, any_settings, completed, watched-line, from_args-Draft,
}

-- the main output, and no other
abbrev Writes : String → Draft → Type 0
Writes out d = (d.out ≡ some out) × (d.also ≡ [])

options-Takes :
    (out : String) → All (λ o. (v : String) → Takes (Writes out) (flag_in o.1 flags) v) options
unfolding flags flag_in
options-Takes out = (
  λ v d h. h,
  (
    λ v d h. h,
    (
      λ v d h. h,
      (
        λ v d h. h,
        (
          λ v d h. h,
          (
            λ v d h. h,
            (
              λ v d h. h,
              (
                λ v d h. h,
                (
                  λ v d h. h,
                  (λ v d h. any_settings _ (λ _. h), (λ v d h. any_settings _ (λ _. h), tt)),
                ),
              ),
            ),
          ),
        ),
      ),
    ),
  ),
)

one_output : (o : Option String) (a b : String) → o ≡ some a → o ≡ some b → a ≡ b
one_output o a b e f = cc

no_renderings :
    (mode : Option ℕ) (texts : List String) (also : List Rendering)
    → texts ≡ []
    → parse_renderings mode texts ≡ ok also
    → also ≡ []
unfolding parse_renderings
no_renderings mode [] also bare parsed = cc
no_renderings mode (text ∷ texts) also bare parsed = cc

-- the agent's own output is the one on its line
from_args-out :
    (env : Environment) (arguments : List String) (out : String) (spec : Spec)
    → Yields (Writes out) (read_flags arguments (initial env))
    → from_args env arguments ≡ ok spec
    → (spec.out ≡ out) × (spec.also ≡ [])
from_args-out env arguments out spec reads e =
    let (d, read, _, held, parsed) = from_args-Draft env arguments spec e in
    let kept = reads.at d read in
    (
      one_output d.out spec.out out held kept.0,
      no_renderings d.settings.file_mode d.also spec.also kept.1 parsed,
    )

abbrev AreKept : String → Pairs → Type 0
AreKept out pairs = All (λ p. Takes (Writes out) (flag_in p.0 flags) p.1) pairs

-- once the output is set, the flags behind it keep it
set-Writes :
    (env : Environment) (source key out : String) (more : Pairs)
    → AreKept out more
    → Yields (Writes out) (
        read_flags
          (line (("--source", source) ∷ ("--key", key) ∷ ("--out", out) ∷ more))
          (initial env))
unfolding read_flags line flags flag_in
set-Writes env source key out more takes =
    read_flags-line (Writes out) more
      (record (initial env) { source = some source; key = some key; out = some out }) takes
      (refl, refl)

watch-Takes : (out : String) → AreKept out (("--watch", "15") ∷ [])
unfolding flags flag_in
watch-Takes out = (λ d h. any_settings _ (λ _. h), tt)

asked-Writes :
    (env : Environment) (attributes : Attributes) (source key out : String)
    → Yields
        (Writes out)
        (read_flags (line (completed (asked attributes source key out))) (initial env))
asked-Writes env attributes source key out =
    let pairs = asked attributes source key out in
    let more = passed attributes options in
    let takes : AreKept out more =
      passed-Takes (Writes out) attributes options (options-Takes out) in
    elim (Bool-cases (asks_watch (line pairs))) [
      | inl e ↦ rw e (set-Writes env source key out more takes)
      | inr e ↦ rw e (
          set-Writes env source key out (more ++ ("--watch", "15") ∷ [])
            (All-append _ more (("--watch", "15") ∷ []) (takes, watch-Takes out)))
    ]

-- What a volume's line makes of the agent: its one output is the one that was asked for.
pub watched-out :
    (env : Environment) (attributes : Attributes) (source key out : String) (spec : Spec)
    → from_args env (watched (line (asked attributes source key out))) ≡ ok spec
    → (spec.out ≡ out) × (spec.also ≡ [])
watched-out env attributes source key out spec e =
    from_args-out env (line (completed (asked attributes source key out))) out spec
      (asked-Writes env attributes source key out)
      (ap (from_args env) (sym (watched-line (asked attributes source key out))) ∙ e)
