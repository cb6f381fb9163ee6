-- ===== src/Webhook/Installation/Stores.antt =====
-- dynamic-config-webhook/src/annotations.rs: what holds of every installation that starts.
use dynamic_config_k8s.Prelude.{
  String, ◌≡◌, refl, subst, ◌⊎◌, inl, inr, Bool, true, false, not, Option, some, List, [], ◌∷◌,
  ◌++◌, arith, Option-cases, ◌==◌, eq_iff, Result, ok, err, ensure, ok_or, map_err, >>=-eq-ok,
}
use dynamic_config_k8s.Prelude.Yields.{ok-injective}
use dynamic_config_k8s.Prelude.Texts.{split_once, trim}
use dynamic_config_k8s.Webhook.Refusals.{Refusal}
use dynamic_config_k8s.Webhook.Scopes.{
  scoped, ScopedNames, no_names, pieces, is_source, env_names, source_names, allows,
}
use dynamic_config_k8s.Webhook.Scopes.Admitted.{source_names-allows}
use dynamic_config_k8s.Webhook.Knobs.{KnobDefaults, no_defaults}
use dynamic_config_k8s.Webhook.EnvEntries.{Entry}
use dynamic_config_k8s.Webhook.EnvEntries.Laws.{IsClean, env_entries-IsClean}
use dynamic_config_k8s.Webhook.Installation.{
  Installation, Environment, var, set_fleet, fleet_knobs, set_pairs, store_defaults, Stores,
  has_store, set_stores, flag, fleet_source, fleet_env, scoped_gate, from_lookup, text_or_empty,
}

-- each store is one that the contract knows, and has one tier
abbrev pub AreStores : Stores → Type 0
AreStores [] = Unit
AreStores (s ∷ more) = (is_source s.0 ≡ true) × (has_store more s.0 ≡ false) × AreStores more

has_store-snoc :
    (stores : Stores) (name : String) (s : String × KnobDefaults)
    → has_store stores name ≡ false
    → (s.0 == name) ≡ false
    → has_store (stores ++ s ∷ []) name ≡ false
has_store-snoc [] name s h e = ground arith
has_store-snoc (x ∷ more) name s h e = ground (arith, has_store-snoc more name s)

AreStores-snoc :
    (stores : Stores) (s : String × KnobDefaults)
    → AreStores stores
    → is_source s.0 ≡ true
    → has_store stores s.0 ≡ false
    → AreStores (stores ++ s ∷ [])
AreStores-snoc [] s h k n = (k, refl, tt)
AreStores-snoc (x ∷ more) s h k n = (
  h.0,
  has_store-snoc more x.0 s h.1 (ground (arith, eq_iff x.0 s.0, eq_iff s.0 x.0)),
  AreStores-snoc more s h.2 k (ground arith),
)

set_stores-AreStores :
    (stores result : Stores) (groups : List String)
    → AreStores stores
    → set_stores stores groups ≡ ok result
    → AreStores result
unfolding set_stores
set_stores-AreStores stores result [] h e = subst AreStores (ok-injective e) h
set_stores-AreStores stores result (group ∷ more) h e =
    let (halves, _, e1) =
      >>=-eq-ok (ok_or (split_once b':' group) (Refusal.no_store_head store_defaults group)) _ e in
    let name = trim halves.0 in
    let (u, known, e2) =
      >>=-eq-ok (ensure (is_source name) (Refusal.unknown_store store_defaults name)) _ e1 in
    let (v, fresh, e3) =
      >>=-eq-ok (ensure (not (has_store stores name)) (Refusal.store_twice store_defaults name)) _
        e2 in
    let (defaults, _, e4) = >>=-eq-ok (set_pairs name no_defaults (pieces b',' halves.1)) _ e3 in
    set_stores-AreStores (stores ++ (name, defaults) ∷ []) result more
      (AreStores-snoc stores (name, defaults) h (ground arith) (ground arith)) e4

fleet_source-known :
    (lookup : Environment) (r : Option String × Option Bool) (source : String)
    → fleet_source lookup ≡ ok r
    → r.0 ≡ some source
    → is_source source ≡ true
unfolding fleet_source
fleet_source-known lookup r source h e = ground arith

fleet_env-IsClean :
    (lookup : Environment) (entries : List Entry) → fleet_env lookup ≡ ok entries → IsClean entries
unfolding fleet_env
fleet_env-IsClean lookup entries h = elim (Option-cases (var lookup "DYNAMIC_CONFIG_AGENT_ENV")) [
  | inl e ↦ let nil : [] ≡ entries = ground arith in subst IsClean nil tt
  | inr (text, e) ↦ (env_entries-IsClean "DYNAMIC_CONFIG_AGENT_ENV" text entries (ground arith)).0
]

-- what a gate of stores lets through
abbrev pub GatesStores : ScopedNames → Type 0
GatesStores gate =
    (namespace name : String)
    → allows gate namespace name ≡ true
    → (is_source name ≡ true) ⊎ ((other : String) → allows gate namespace other ≡ true)

map_err-eq-ok :
    {E F : Type 0} {A : Type 0} (f : E → F) (r : Result E A) (a : A) → map_err f r ≡ ok a → r ≡ ok a
map_err-eq-ok f (ok b) a h = cc
map_err-eq-ok f (err e) a h = cc

GatesStores-no_names : GatesStores no_names
unfolding allows scoped
GatesStores-no_names namespace name h = cc

scoped_gate-GatesStores :
    (lookup : Environment) (variable : String) (gate : ScopedNames)
    → scoped_gate lookup variable source_names ≡ ok gate
    → GatesStores gate
unfolding scoped_gate
scoped_gate-GatesStores lookup variable gate h = elim (Option-cases (var lookup variable)) [
  | inl e ↦ let nil : no_names ≡ gate = ground arith in subst GatesStores nil GatesStores-no_names
  | inr (spec, e) ↦ λ namespace name.
      source_names-allows spec namespace name gate (
        map_err-eq-ok (Refusal.within variable) (source_names spec) gate (rw (e, scoped_gate) at h))
]

pub record IsSound (i : Installation) : Type 0 where
  pub stores : AreStores i.per_store
  pub source : (name : String) → i.source ≡ some name → is_source name ≡ true
  pub env : IsClean i.agent_env
  pub allow : GatesStores i.source_allow
  pub deny : GatesStores i.source_deny

-- Every installation that starts names only stores of the contract, each with one tier; its variables
-- are UPPER_SNAKE and set once; its store gates let only stores of the contract through, or everything.
pub from_lookup-IsSound :
    (lookup : Environment) (i : Installation) → from_lookup lookup ≡ ok i → IsSound i
unfolding from_lookup
from_lookup-IsSound lookup i h =
    let (fleet, _, h1) = >>=-eq-ok (set_fleet lookup no_defaults fleet_knobs) _ h in
    let (stores, stores_ok, h2) =
      >>=-eq-ok (set_stores [] (pieces b';' (text_or_empty (var lookup store_defaults)))) _ h1 in
    let (open_, _, h3) =
      >>=-eq-ok (flag lookup "DYNAMIC_CONFIG_AGENT_DEFAULTS_OVERRIDABLE" true) _ h2 in
    let (source, source_ok, h4) = >>=-eq-ok (fleet_source lookup) _ h3 in
    let (env, env_ok, h5) = >>=-eq-ok (fleet_env lookup) _ h4 in
    let (vars, _, h6) =
      >>=-eq-ok (scoped_gate lookup "DYNAMIC_CONFIG_WEBHOOK_AGENT_ENV_ALLOW" env_names) _ h5 in
    let (allow, allow_ok, h7) =
      >>=-eq-ok (scoped_gate lookup "DYNAMIC_CONFIG_WEBHOOK_SOURCE_ALLOW" source_names) _ h6 in
    let (deny, deny_ok, h8) =
      >>=-eq-ok (scoped_gate lookup "DYNAMIC_CONFIG_WEBHOOK_SOURCE_DENY" source_names) _ h7 in
    let (events, _, h9) =
      >>=-eq-ok (flag lookup "DYNAMIC_CONFIG_WEBHOOK_ALLOW_EVENTS" false) _ h8 in
    let (skip, _, h10) =
      >>=-eq-ok (flag lookup "DYNAMIC_CONFIG_WEBHOOK_ALLOW_TLS_SKIP_VERIFY" false) _ h9 in
    subst IsSound (ok-injective h10) (record {
      stores =
          set_stores-AreStores [] stores (pieces b';' (text_or_empty (var lookup store_defaults)))
            tt stores_ok;
      source = λ name. fleet_source-known lookup source name source_ok;
      env = fleet_env-IsClean lookup env env_ok;
      allow = scoped_gate-GatesStores lookup "DYNAMIC_CONFIG_WEBHOOK_SOURCE_ALLOW" allow allow_ok;
      deny = scoped_gate-GatesStores lookup "DYNAMIC_CONFIG_WEBHOOK_SOURCE_DENY" deny deny_ok;
    })
