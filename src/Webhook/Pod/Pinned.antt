-- ===== src/Webhook/Pod/Pinned.antt =====
-- dynamic-config-webhook/src/annotations.rs, `of_pod_with`: what the installation pins.
use dynamic_config_k8s.Prelude.{
  ensure-true, ℕ, String, ◌≡◌, refl, sym, ap, ◌∙◌, subst, inl, inr, Bool, true, false, not, ◌||◌,
  Option, none, some, List, [], ◌∷◌, arith, nat_eq, nat_eq_iff, Option-cases, ◌==◌, eq_refl, All,
  Result, ok, ensure,
}
use dynamic_config_k8s.Prelude.Yields.{Yields-weaker, Yields, Yields-ok, Yields-bind}
use dynamic_config_k8s.Json.{Value, Fields}
use dynamic_config_k8s.Webhook.Userinfo.{without_userinfo}
use dynamic_config_k8s.Webhook.Knobs.{KnobDefaults, Mode, init, sidecar, both}
use dynamic_config_k8s.Webhook.Installation.{
  Installation, Supplied, supplied, supplied_source, store_strings, store, knob, tier, tier?,
  or_else, unwrap_or, first_of_pair,
}
use dynamic_config_k8s.Webhook.Pod.{
  annotations_of, lookup, store_of, known_source, respects_source, first_of, no_key_is_exempt,
  of_pod_with,
}
use dynamic_config_k8s.Webhook.Pod.Shape.{Refused, Request, pinned_text, pinned_value}
use dynamic_config_k8s.Webhook.Pod.Reading.{Lookup, respects, pairs, pin, pin_holds, number}
use dynamic_config_k8s.Webhook.Pod.Named.{watch_of}
use dynamic_config_k8s.Webhook.Pod.Sidecar.{chosen, mode_of, mode_named, same_mode}
use dynamic_config_k8s.Webhook.Pod.Stages.{of_pod_with-Asked}

-- a value that is as pinned, if it is pinned
abbrev pub keeps {ℓ} : {T : Type ℓ} → (T → T → Bool) → Option (T × Bool) → T → Bool
keeps same (some (tier, true)) value = same tier value
keeps same _ value = true

-- a text that the installation supplies: pinned, it is what the pod says, if the pod says anything
abbrev pub Kept : Lookup → Supplied → Type 0
Kept get held = not held.pinned || pin_holds held.value (get held.key) ≡ true

no_exemption : (a b : Bool) → a || false || b ≡ true → a || b ≡ true
no_exemption a b h = ground arith

respects-Kept :
    (get : Lookup) (held : List Supplied)
    → Yields (λ _. All (Kept get) held) (respects no_key_is_exempt get held)
unfolding respects
respects-Kept get [] = Yields-ok tt tt
respects-Kept get (first ∷ more) =
    Yields-bind
      (ensure (not first.pinned || false || pin_holds first.value (get first.key))
        (pinned_text first.key (without_userinfo _) (without_userinfo first.value)))
      _
      (λ _ h.
        Yields-weaker (respects no_key_is_exempt get more)
          (λ _ later. (
            no_exemption (not first.pinned) (pin_holds first.value (get first.key))
                (ensure-true _ _ h),
            later,
          ))
          (respects-Kept get more))

first_of_pair-tier :
    {T : Type 0} (i : Installation) (key : String) (pick : KnobDefaults → Option T)
    (knobs : KnobDefaults)
    → first_of_pair (tier i key pick knobs) ≡ pick knobs
unfolding tier
first_of_pair-tier i key pick knobs = elim (Option-cases (pick knobs)) [
  | inl e ↦ rw (tier, e) refl
  | inr (value, e) ↦ rw (tier, e) refl
]

first_of_pair-or_else :
    {T : Type 0} (a b : Option (T × Bool))
    → first_of_pair (or_else a b) ≡ or_else (first_of_pair a) (first_of_pair b)
first_of_pair-or_else none b = refl
first_of_pair-or_else (some a) b = refl

tier?-key :
    {T : Type 0} (i : Installation) (a b : String) (pick : KnobDefaults → Option T)
    (knobs : Option KnobDefaults)
    → first_of_pair (tier? i a pick knobs) ≡ first_of_pair (tier? i b pick knobs)
tier?-key i a b pick none = refl
tier?-key i a b pick (some knobs) =
    first_of_pair-tier i a pick knobs ∙ sym (first_of_pair-tier i b pick knobs)

knob-supplied :
    {T : Type 0} (i : Installation) (source : Option String) (key : String)
    (pick : KnobDefaults → Option T)
    → knob i source pick ≡ first_of_pair (supplied i source key pick)
unfolding knob supplied
knob-supplied i source key pick =
    first_of_pair-or_else (tier? i "" pick (store i source)) (tier i "" pick i.fleet)
    ∙ ap (λ o. or_else o (first_of_pair (tier i "" pick i.fleet)))
        (tier?-key i "" key pick (store i source))
    ∙ ap (or_else (first_of_pair (tier? i key pick (store i source))))
        (first_of_pair-tier i "" pick i.fleet ∙ sym (first_of_pair-tier i key pick i.fleet))
    ∙ sym (first_of_pair-or_else (tier? i key pick (store i source)) (tier i key pick i.fleet))

-- What the installation pins is kept, also where its own answer stands in for the pod's.
keeps-unwrap_or :
    {T : Type 0} (same : T → T → Bool) (built_in : T) (given : Option (T × Bool))
    → ((t : T) → same t t ≡ true)
    → keeps same given (unwrap_or (first_of_pair given) built_in) ≡ true
keeps-unwrap_or same built_in none h = refl
keeps-unwrap_or same built_in (some (t, true)) h = h t
keeps-unwrap_or same built_in (some (t, false)) h = refl

pin-keeps :
    {T : Type 0} (same : T → T → Bool) (key : String) (given : Option (T × Bool)) (value : T)
    → pin same key given value ≡ ok tt
    → keeps same given value ≡ true
unfolding pin
pin-keeps same key none value h = refl
pin-keeps same key (some (t, true)) value h = ensure-true (same t value) (pinned_value key) h
pin-keeps same key (some (t, false)) value h = refl

chosen-keeps :
    {T : Type 0} (i : Installation) (source : Option String) (same : T → T → Bool) (key : String)
    (pick : KnobDefaults → Option T) (built_in : T) (read : String → Result Refused T)
    (found : Option String)
    → ((t : T) → same t t ≡ true)
    → Yields
        (λ v. keeps same (supplied i source key pick) v ≡ true)
        (chosen i source same key pick built_in read found)
unfolding chosen
chosen-keeps i source same key pick built_in read none reflexive = Yields-ok _ (
    ap (λ o. keeps same (supplied i source key pick) (unwrap_or o built_in))
      (knob-supplied i source key pick)
    ∙ keeps-unwrap_or same built_in (supplied i source key pick) reflexive)
chosen-keeps i source same key pick built_in read (some text) reflexive =
    Yields-bind (read text) _ (λ value _.
      Yields-bind (pin same key (supplied i source key pick) value) _
        (λ _ h. Yields-ok value (pin-keeps same key (supplied i source key pick) value h)))

watch_of-keeps :
    (i : Installation) (source : Option String) (found : Option String)
    → Yields
        (λ v. keeps nat_eq (supplied i source "watch-seconds" (λ k. k.watch_seconds)) v ≡ true)
        (watch_of i source "watch-seconds" found)
unfolding watch_of
watch_of-keeps i source none =
    let pick : KnobDefaults → Option ℕ = λ k. k.watch_seconds in
    Yields-ok _ (
      ap (λ o. keeps nat_eq (supplied i source "watch-seconds" pick) (unwrap_or o 15))
        (knob-supplied i source "watch-seconds" pick)
      ∙ keeps-unwrap_or nat_eq 15 (supplied i source "watch-seconds" pick)
          (λ n. (nat_eq_iff n n).1 refl))
watch_of-keeps i source (some text) =
    let pick : KnobDefaults → Option ℕ = λ k. k.watch_seconds in
    Yields-bind (number 64 "watch-seconds" text) _ (λ value _.
      Yields-bind (pin nat_eq "watch-seconds" (supplied i source "watch-seconds" pick) value) _
        (λ _ h.
          Yields-ok value
            (pin-keeps nat_eq "watch-seconds" (supplied i source "watch-seconds" pick) value h)))

same_mode_refl : (mode : Mode) → same_mode mode mode ≡ true
same_mode_refl init = refl
same_mode_refl sidecar = refl
same_mode_refl both = refl

mode_of-keeps :
    (i : Installation) (source found : Option String)
    → Yields
        (λ m. keeps same_mode (supplied i source "mode" (λ k. k.mode)) m ≡ true)
        (mode_of i source found)
unfolding mode_of
mode_of-keeps i source found =
    chosen-keeps i source same_mode "mode" (λ k. k.mode) sidecar mode_named found same_mode_refl

-- the source that answers, and the walk over its strings
abbrev pub same_source : Option (String × Bool) → Option String → Bool
same_source (some (fleet, true)) (some source) = source == fleet
same_source _ _ = true

respects_source-same :
    (pod : Option String) (fleet : Option (String × Bool))
    → respects_source pod fleet ≡ ok tt
    → same_source fleet (or_else pod (first_of fleet)) ≡ true
unfolding respects_source
respects_source-same (some pod) (some (name, true)) h =
    ensure-true (pod == name) (pinned_text "source" pod name) h
respects_source-same (some pod) (some (name, false)) h = refl
respects_source-same (some pod) none h = refl
respects_source-same none (some (name, true)) h = eq_refl name
respects_source-same none (some (name, false)) h = refl
respects_source-same none none h = refl

pub store_of-keeps :
    (i : Installation) (get : Lookup)
    → Yields
        (λ source.
          (same_source (supplied_source i) source ≡ true) × All (Kept get) (store_strings i source))
        (store_of i get)
unfolding store_of
store_of-keeps i get =
    let source = or_else (get "source") (first_of (supplied_source i)) in
    Yields-bind (known_source (get "source")) _ (λ _ _.
      Yields-bind (respects_source (get "source") (supplied_source i)) _ (λ _ h.
        Yields-bind (respects no_key_is_exempt get (store_strings i source)) _ (λ done k.
          Yields-bind (pairs get (store_strings i source)) _ (λ _ _. Yields-ok source (
            respects_source-same (get "source") (supplied_source i) h,
            (respects-Kept get (store_strings i source)).at done k,
          )))))

-- What the installation pins for the main render's store, no pod overrides: its source, its mode and
-- interval, and every text that the pod gives as well.
pub of_pod_with-keeps :
    (i : Installation) (pod : Value) (annotations : Fields) (r : Request)
    → annotations_of pod ≡ some annotations
    → of_pod_with i pod ≡ ok (some r)
    → (same_source (supplied_source i) (some r.source) ≡ true)
      × (keeps same_mode (supplied i (some r.source) "mode" (λ k. k.mode)) r.mode ≡ true)
      × (keeps nat_eq
            (supplied i (some r.source) "watch-seconds" (λ k. k.watch_seconds))
            r.watch_seconds
          ≡ true)
      × All (Kept (lookup annotations)) (store_strings i (some r.source))
of_pod_with-keeps i pod annotations r found e =
    let (names, _, passed) = of_pod_with-Asked i pod annotations r found e in
    let get = lookup annotations in
    let (same, kept) = (store_of-keeps i get).at passed.source passed.stored in
    let mode = (mode_of-keeps i passed.source (get "mode")).at r.mode passed.mode in
    let watch =
      (watch_of-keeps i passed.source (get "watch-seconds")).at r.watch_seconds passed.watched in
    subst
      (λ (source : Option String).
        (same_source (supplied_source i) source ≡ true)
        × (keeps same_mode (supplied i source "mode" (λ k. k.mode)) r.mode ≡ true)
        × (keeps nat_eq (supplied i source "watch-seconds" (λ k. k.watch_seconds)) r.watch_seconds
            ≡ true)
        × All (Kept get) (store_strings i source))
      passed.named (same, mode, watch, kept)
