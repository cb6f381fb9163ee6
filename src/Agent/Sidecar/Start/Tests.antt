-- ===== src/Agent/Sidecar/Start/Tests.antt =====
-- dynamic-config-agent/src/sidecar.rs: a start with the store, and one without.
use dynamic_config_k8s.Prelude.{
  String, ◌≡◌, refl, true, false, none, some, List, [], ◌∷◌, All, Result, ok,
}
use dynamic_config_k8s.Prelude.Texts.{is_some, empty_text}
use dynamic_config_k8s.Agent.Files.{FilePath, Published, read, write, drifted}
use dynamic_config_k8s.Agent.Metrics.{failed, at_start}
use dynamic_config_k8s.Agent.Publishing.{Io, World, publish}
use dynamic_config_k8s.Agent.Sidecar.{Fetched, Loop, Spec, fetched, remove, warn, best_effort}
use dynamic_config_k8s.Agent.Sidecar.Start.{
  held_lease, on_disk, begins, contents, Recovered, recovered, ensure_file, ensure_files, begin,
  start,
}
use dynamic_config_k8s.Agent.Sidecar.Start.Recovery.{recovered-there, start-serves}

abbrev app : FilePath
app = "/config/app.json"

abbrev cache : FilePath
cache = "/config/cache.json"

abbrev two_files : Spec
two_files = record {
  output = record { history = 0; notifies = false; meta = false };
  main = record { out = app; file_mode = none };
  also = record { out = cache; file_mode = none } ∷ [];
  startup_policy = best_effort;
  on_delete = remove;
  on_drift = warn;
  cohort = none;
  revoke_on_shutdown = true;
  tls_reload = false;
  native = true;
}

abbrev works : Io
works = record {
  now = 100;
  writes = λ _. true;
  keeps = λ _. true;
  describes = λ _. true;
  canary_file = none;
}

abbrev bare : World
bare = record {
  files = (app, ("old", none)) ∷ [];
  kept = [];
  metas = [];
  calls = 0;
  metrics = at_start;
}

abbrev recovers : Recovered
recovers = (
  record bare {
    files = (app, ("old", none)) ∷ (cache, ("", none)) ∷ [];
    metrics = record at_start { render_failures = 1 };
  },
  record { out = app; document = "old"; file_mode = none }
      ∷ record { out = cache; document = ""; file_mode = none }
      ∷ [],
)

starts_without : recovered works two_files bare ≡ ok recovers
unfolding recovered ensure_file ensure_files on_disk read write empty_text failed
starts_without = refl

recovered-there_example :
    (All (λ t. is_some (read t.out recovers.0.files) ≡ true) (two_files.main ∷ two_files.also))
    × ((path : FilePath) → contents recovers.0.files path ≡ contents bare.files path)
recovered-there_example = recovered-there works two_files bare recovers refl starts_without

abbrev one_file : Fetched String → Result (Unit {0}) (List Published)
one_file document = ok (record { out = app; document = document.value; file_mode = none } ∷ [])

abbrev digest : String → String
digest text = text

abbrev first : Fetched String
first = record {
  value = "new";
  lease = some (record { ttl = 60; renewable = true });
  revision = none;
}

abbrev set : List Published
set = record { out = app; document = "new"; file_mode = none } ∷ []

abbrev begun : Loop String
begun =
    begins digest one_file two_files
      (held_lease digest one_file two_files first.lease
        (publish digest works two_files.output set none bare).0)
      set first.lease (first ∷ [])

begins_well : start digest one_file two_files works (fetched first) bare ≡ ok begun
unfolding start begin publish
begins_well = refl

start-serves_example :
    (begun.rendered ≡ some set)
    × (drifted begun.world.files set ≡ none)
    × (begun.lease ≡ some (record { ttl = 60; renewable = true }))
start-serves_example =
    start-serves digest one_file two_files works first set bare begun refl (refl, tt) begins_well
