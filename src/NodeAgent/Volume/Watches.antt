-- ===== src/NodeAgent/Volume/Watches.antt =====
-- dynamic-config-node-agent/src/publish.rs: that a volume has a watch.
use dynamic_config_k8s.Prelude.{any-append, ◌||◌, Bool, arith}
use dynamic_config_k8s.Prelude.Yields.{ok-injective, Yields, Yields-ok, Yields-bind}
use dynamic_config_k8s.Prelude.Texts.{path_join, is_some}
use dynamic_config_k8s.Prelude.{
  map_err-eq-ok, subst, sym, ap, ◌∙◌, >>=-eq-ok, map_err, ensure, ok, any-append, All-append,
  String, ◌≡◌, refl, inl, inr, Bool, true, false, [], ◌∷◌, arith, Bool-cases, ◌==◌, eq_iff, any,
  All,
}
use dynamic_config_k8s.NodeAgent.Volume.{
  Attributes, parse, Volume, want, is_inside, outside_volume, refused_by, passed, options, asked,
  watched, Pairs, line, asks_watch,
}
use dynamic_config_k8s.Agent.Arguments.{from_args, read_flags}
use dynamic_config_k8s.Agent.Arguments.Fields.{initial, Environment, Draft}
use dynamic_config_k8s.Agent.Arguments.Flags.{flag_in, flags, whole, file_mode_of}
use dynamic_config_k8s.NodeAgent.Volume.Steps.{
  watched-line, passed-Takes, from_args-Draft, completed, Takes, Steps, read_flags-line,
  read_flags-step, any_settings,
}

abbrev Anything : Draft → Type 0
Anything d = Unit {0}

abbrev Watches : Draft → Type 0
Watches d = is_some d.settings.watch ≡ true

abbrev is_watch : String × String → Bool
is_watch pair = pair.0 == "--watch"

abbrev pub names_watch : String × String → Bool
names_watch pair = pair.1 == "--watch"

-- a flag that keeps a watch, and that stands for one if it is the watch's own
abbrev Fits : String → String → Type 0
Fits name value =
    Takes Anything (flag_in name flags) value × Takes Watches (flag_in name flags) value

watch-Steps : (value : String) → Steps Anything Watches (flag_in "--watch" flags) value
unfolding flags flag_in
watch-Steps value d h = Yields-bind (whole "--watch" value) _ (λ n _. Yields-ok _ refl)

options-Fit : All (λ o. (v : String) → Fits o.1 v) options
unfolding flags flag_in
options-Fit = (
  λ v. (λ d h. tt, λ d h. h),
  (
    λ v. (λ d h. tt, λ d h. h),
    (
      λ v. (λ d h. tt, λ d h. h),
      (
        λ v. (λ d h. tt, λ d h. h),
        (
          λ v. (λ d h. tt, λ d h. h),
          (
            λ v. (λ d h. tt, λ d h. h),
            (
              λ v. (λ d h. tt, λ d h. h),
              (
                λ v. (λ d h. tt, λ d h. h),
                (
                  λ v. (λ d h. tt, λ d h. h),
                  (
                    λ v. (
                      λ d h. any_settings _ (λ _. tt),
                      λ d h. Yields-bind (file_mode_of v) _ (λ n _. Yields-ok _ h),
                    ),
                    (λ v. (λ d h. any_settings _ (λ _. tt), λ d h. watch-Steps v d tt), tt),
                  ),
                ),
              ),
            ),
          ),
        ),
      ),
    ),
  ),
)

Fits-Watches :
    (pairs : Pairs)
    → All (λ p. Fits p.0 p.1) pairs
    → All (λ p. Takes Watches (flag_in p.0 flags) p.1) pairs
Fits-Watches [] fits = tt
Fits-Watches (pair ∷ more) fits = (fits.0.1, Fits-Watches more fits.1)

-- a line with a watch on it gives a watch
line-Watches :
    (pairs : Pairs) (d : Draft)
    → All (λ p. Fits p.0 p.1) pairs
    → any is_watch pairs ≡ true
    → Yields Watches (read_flags (line pairs) d)
unfolding line
line-Watches [] d fits has = cc
line-Watches (pair ∷ more) d fits has = elim (Bool-cases (is_watch pair)) [
  | inl e ↦
      let own : Steps Anything Watches (flag_in pair.0 flags) pair.1 =
        subst (λ name. Steps Anything Watches (flag_in name flags) pair.1)
          (sym ((eq_iff pair.0 "--watch").0 e)) (watch-Steps pair.1) in
      read_flags-step Anything Watches Watches pair.0 pair.1 (line more) d own tt
        (λ d' q. read_flags-line Watches more d' (Fits-Watches more fits.1) q)
  | inr e ↦
      read_flags-step Anything Anything Watches pair.0 pair.1 (line more) d fits.0.0 tt
        (λ d' _. line-Watches more d' fits.1 (ground arith))
]

-- a text on the line is a flag, if none of the values is that text
line-is_watch :
    (pairs : Pairs)
    → any names_watch pairs ≡ false
    → asks_watch (line pairs) ≡ true
    → any is_watch pairs ≡ true
unfolding line
line-is_watch [] h k = k
line-is_watch (pair ∷ more) h k = ground (arith, line-is_watch more)

both_Fit :
    (pairs : Pairs)
    → All (λ p. Takes Anything (flag_in p.0 flags) p.1) pairs
    → All (λ p. Takes Watches (flag_in p.0 flags) p.1) pairs
    → All (λ p. Fits p.0 p.1) pairs
both_Fit [] a b = tt
both_Fit (pair ∷ more) a b = ((a.0, b.0), both_Fit more a.1 b.1)

option-Anything :
    (table : Pairs)
    → All (λ o. (v : String) → Fits o.1 v) table
    → All (λ o. (v : String) → Takes Anything (flag_in o.1 flags) v) table
option-Anything [] h = tt
option-Anything (o ∷ more) h = (λ v. (h.0 v).0, option-Anything more h.1)

option-Watches :
    (table : Pairs)
    → All (λ o. (v : String) → Fits o.1 v) table
    → All (λ o. (v : String) → Takes Watches (flag_in o.1 flags) v) table
option-Watches [] h = tt
option-Watches (o ∷ more) h = (λ v. (h.0 v).1, option-Watches more h.1)

asked-Fits :
    (attributes : Attributes) (source key out : String)
    → All (λ p. Fits p.0 p.1) (asked attributes source key out)
unfolding flags flag_in
asked-Fits attributes source key out =
    let passes =
      both_Fit (passed attributes options)
        (passed-Takes Anything attributes options (option-Anything options options-Fit))
        (passed-Takes Watches attributes options (option-Watches options options-Fit)) in
    ((λ d h. tt, λ d h. h), ((λ d h. tt, λ d h. h), ((λ d h. tt, λ d h. h), passes)))

own_watch-Fits : Fits "--watch" "15"
unfolding flags flag_in
own_watch-Fits = (λ d h. any_settings _ (λ _. tt), λ d h. watch-Steps "15" d tt)

completed-Fits :
    (pairs : Pairs) → All (λ p. Fits p.0 p.1) pairs → All (λ p. Fits p.0 p.1) (completed pairs)
completed-Fits pairs h = elim (Bool-cases (asks_watch (line pairs))) [
  | inl e ↦ rw e h
  | inr e ↦
      rw e (All-append (λ p. Fits p.0 p.1) pairs (("--watch", "15") ∷ []) (h, (own_watch-Fits, tt)))
]

or_true : (b : Bool) → b || true ≡ true
or_true b = ground arith

completed-is_watch :
    (pairs : Pairs) → any names_watch pairs ≡ false → any is_watch (completed pairs) ≡ true
completed-is_watch pairs h = elim (Bool-cases (asks_watch (line pairs))) [
  | inl e ↦ rw e (line-is_watch pairs h e)
  | inr e ↦ rw e (any-append is_watch pairs (("--watch", "15") ∷ []) ∙ or_true (any is_watch pairs))
]

-- an accepted volume is what its line says
parse-asked :
    (env : Environment) (target : String) (attributes : Attributes) (v : Volume)
    → parse env target attributes ≡ ok v
    → from_args env (watched (line (asked attributes v.document.source v.document.key v.out)))
      ≡ ok v.spec
unfolding parse
parse-asked env target attributes v e =
    let (source, _, e1) = >>=-eq-ok (want attributes "source") _ e in
    let (key, _, e2) = >>=-eq-ok (want attributes "key") _ e1 in
    let (relative, _, e3) = >>=-eq-ok (want attributes "path") _ e2 in
    let (_, _, e4) = >>=-eq-ok (ensure (is_inside relative) (outside_volume relative)) _ e3 in
    let out = path_join target relative in
    let arguments = watched (line (asked attributes source key out)) in
    let (spec, accepted, e5) = >>=-eq-ok (map_err refused_by (from_args env arguments)) _ e4 in
    subst
      (λ (w : Volume).
        from_args env (watched (line (asked attributes w.document.source w.document.key w.out)))
        ≡ ok w.spec)
      (ok-injective e5) (map_err-eq-ok refused_by (from_args env arguments) spec accepted)

-- The command line of a volume that is accepted gives the agent a watch, if no value on it is the text of
-- the flag that asks for one.
pub parse-IsWatched :
    (env : Environment) (target : String) (attributes : Attributes) (v : Volume)
    → parse env target attributes ≡ ok v
    → any names_watch (asked attributes v.document.source v.document.key v.out) ≡ false
    → is_some v.spec.settings.watch ≡ true
parse-IsWatched env target attributes v e h =
    let accepted = parse-asked env target attributes v e in
    let pairs = asked attributes v.document.source v.document.key v.out in
    let (d, read, settings, _, _) =
      from_args-Draft env (line (completed pairs)) v.spec
        (ap (from_args env) (sym (watched-line pairs)) ∙ accepted) in
    ap (λ s. is_some s.watch) settings
    ∙ (line-Watches (completed pairs) (initial env)
          (completed-Fits pairs (asked-Fits attributes v.document.source v.document.key v.out))
          (completed-is_watch pairs h)).at
        d read
