-- ===== src/Agent/Sidecar/Tests.antt =====
-- dynamic-config-agent/src/sidecar.rs: a pod with one file, whose store says `a`, then `b`, then `c`.
use dynamic_config_k8s.Agent.Sidecar.Leases.{step-renewal}
use dynamic_config_k8s.Agent.Sidecar.Outside.{state}
use dynamic_config_k8s.Agent.Sidecar.{Lease, renewal}
use dynamic_config_k8s.Prelude.{
  String, ◌≡◌, refl, subst, true, false, none, some, List, [], ◌∷◌, Result, ok,
}
use dynamic_config_k8s.Prelude.Yields.{ok-injective}
use dynamic_config_k8s.Prelude.Texts.{parse_unsigned, trim}
use dynamic_config_k8s.Agent.Canary.{percent, admitted}
use dynamic_config_k8s.Agent.Files.{same_set, FilePath, Published, drifted, unchanged}
use dynamic_config_k8s.Agent.Metrics.{at_start}
use dynamic_config_k8s.Agent.Publishing.{Io, Output, World, publish}
use dynamic_config_k8s.Agent.Publishing.Written.{avoids, drifted-publish}
use dynamic_config_k8s.Agent.Publishing.Counted.{metrics-publish, after_render}
use dynamic_config_k8s.Agent.Sidecar.{
  best_effort, Fetched, Loop, Spec, Event, fetched, is_absent, canarying, resync_answered, pushed,
  received, running, held_back, arrived, step, remove, warn, in_flight,
}
use dynamic_config_k8s.Agent.Sidecar.Canaries.{widen-stale}
use dynamic_config_k8s.Agent.Sidecar.Leases.{failures}

abbrev app : FilePath
app = "/config/app.json"

abbrev secret : FilePath
secret = "/var/run/token"

abbrev set_of : String → List Published
set_of text = record { out = app; document = text; file_mode = none } ∷ []

abbrev says : String → Fetched String
says text = record { value = text; lease = none; revision = none }

abbrev render_all : Fetched String → Result (Unit {0}) (List Published)
render_all document = ok (set_of document.value)

abbrev digest : String → String
digest text = text

abbrev output : Output
output = record { history = 0; notifies = false; meta = false }

abbrev spec : Spec
spec = record {
  output = output;
  main = record { out = app; file_mode = none };
  also = [];
  startup_policy = best_effort;
  on_delete = remove;
  on_drift = warn;
  cohort = some 30;
  revoke_on_shutdown = true;
  tls_reload = false;
  native = true;
}

-- the percentage in the file
abbrev at_percent : String → Io
at_percent text = record {
  now = 100;
  writes = λ _. true;
  keeps = λ _. true;
  describes = λ _. true;
  canary_file = some text;
}

abbrev world_a : World
world_a = record {
  files = (app, ("a", none)) ∷ (secret, ("t", none)) ∷ [];
  kept = [];
  metas = [];
  calls = 0;
  metrics = at_start;
}

abbrev serves_a : Loop String
serves_a = record {
  world = world_a;
  rendered = some (set_of "a");
  withheld = none;
  lease = none;
  slot = none;
  gone = false;
  resyncing = in_flight;
  heard = [];
}

abbrev holds_b : Loop String
holds_b = record serves_a { withheld = some (set_of "b") }

outside : held_back digest render_all spec (at_percent "10") ≡ true
unfolding held_back percent admitted parse_unsigned trim
outside = refl

inside : held_back digest render_all spec (at_percent "50") ≡ false
unfolding held_back percent admitted parse_unsigned trim
inside = refl

changed : unchanged (some (set_of "a")) (set_of "b") ≡ false
unfolding unchanged same_set
changed = refl

-- `b` is held, `c` is published, and the next look at the percentage puts `b` back
widen-stale_example :
    (next : Loop String) × (step digest render_all spec
        (at_percent "50")
        canarying
        (arrived digest render_all spec (at_percent "50") (says "c") holds_b)
      ≡ running next)
    × (next.rendered ≡ some (set_of "b"))
    × (drifted next.world.files (set_of "b") ≡ none)
widen-stale_example =
    widen-stale digest render_all spec (at_percent "50") (at_percent "50") (says "c") (set_of "b")
      holds_b refl (refl, tt) inside inside (refl, tt)

abbrev fixed : Lease
fixed = record { ttl = 60; renewable = false }

abbrev leased : Loop String
leased = record serves_a { lease = some fixed }

abbrev anew : Fetched String
anew = record {
  value = "b";
  lease = some (record { ttl = 90; renewable = false });
  revision = none;
}

-- a lease that cannot be extended is replaced by the one that comes with a new document
step-renewal_example :
    let next =
      state (step digest render_all spec (at_percent "50") (renewal none (fetched anew)) leased) in
    (next.lease ≡ anew.lease) × (failures next.world.metrics ≡ 0)
step-renewal_example =
    step-renewal digest render_all spec (at_percent "50") fixed none (fetched anew) leased refl

drifted-publish_example :
    drifted (publish digest (at_percent "50") output (set_of "b") none world_a).0.files (set_of "b")
    ≡ none
unfolding publish
drifted-publish_example =
    drifted-publish digest (at_percent "50") output (set_of "b") none world_a (refl, tt) refl

metrics-publish_example :
    (publish digest (at_percent "50") output (set_of "b") none world_a).0.metrics
    ≡ after_render digest (at_percent "50") (set_of "b") none at_start
metrics-publish_example = metrics-publish digest (at_percent "50") output (set_of "b") none world_a

abbrev a_day : List (Io × Event String)
a_day =
    (at_percent "10", pushed (says "b"))
    ∷ (at_percent "10", received)
    ∷ (at_percent "50", canarying)
    ∷ (at_percent "50", resync_answered is_absent)
    ∷ []

elsewhere :
    (document : Fetched String) (set : List Published)
    → render_all document ≡ ok set
    → avoids secret set ≡ true
elsewhere document set h = subst (λ s. avoids secret s ≡ true) (ok-injective h) refl
