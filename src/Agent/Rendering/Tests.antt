-- ===== src/Agent/Rendering/Tests.antt =====
-- dynamic-config-agent/src: an agent with a main file and a further one, whose store answers with words.
use dynamic_config_k8s.Agent.Sidecar.Outside.{there}
use dynamic_config_k8s.Agent.Publishing.Traces.{traces}
use dynamic_config_k8s.Prelude.{
  String, ◌≡◌, refl, true, false, none, some, List, [], ◌∷◌, map, if◌then◌else◌, ◌==◌, ok, err,
}
use dynamic_config_k8s.Prelude.Texts.{split, split_once, trim, join, replace}
use dynamic_config_k8s.Json.{Value, object, no_fields, field}
use dynamic_config_k8s.Agent.Files.{Published, read}
use dynamic_config_k8s.Agent.Formats.{of}
use dynamic_config_k8s.Agent.Flat.{flat_properties}
use dynamic_config_k8s.Agent.Metrics.{at_start}
use dynamic_config_k8s.Agent.Publishing.{Io}
use dynamic_config_k8s.Agent.Arguments.{from_args, read_flags, parse_rendering}
use dynamic_config_k8s.Agent.Arguments.Fields.{Spec, Environment, initial}
use dynamic_config_k8s.Agent.Arguments.Flags.{flags, flag_in}
use dynamic_config_k8s.Agent.Rendering.{Engine, Document, refused, over_ceiling, render_all}
use dynamic_config_k8s.Agent.Rendering.Whole.{landing, landings, landing-render_all}
use dynamic_config_k8s.Agent.Rendering.Calm.{panics, render_all-panics}
use dynamic_config_k8s.Agent.Rendering.Confined.{rendered_from, loop_spec, traces-run-render_all}
use dynamic_config_k8s.Agent.Sidecar.{Fetched, Loop, Event, pushed, received, drifting, in_flight}
use dynamic_config_k8s.Agent.Sidecar.Outside.{run, state}

-- one document under its section's name; one that says `bad` does not parse
abbrev engine : Engine (Unit {0}) String
engine = record {
  load = λ section whole content format.
      if content == "bad"
      then err "not a document"
      else ok (object (field section (Value.text content) no_fields));
  ceiling = 8;
  satisfies = λ schema document. ok tt;
  read_file = λ path. err "no such file";
  template = λ content document. ok content;
  to_string_pretty = λ document. ok "{}";
  to_toml = λ document. ok "";
  to_yaml = λ document. ok "";
  to_string = λ document. "null";
}

abbrev says : String → Document (Unit {0})
says content = record { text = content; format = tt }

abbrev no_environment : Environment
no_environment name = none

abbrev line : List String
line =
    "--source" ∷ "redis" ∷ "--endpoint" ∷ "redis://r" ∷ "--key" ∷ "k" ∷ "--out"
    ∷ "/c/app.properties" ∷ "--also" ∷ "out=/c/db.json,section=db" ∷ []

abbrev spec : Spec
spec = record {
  source = "redis";
  endpoint = "redis://r";
  key = "k";
  out = "/c/app.properties";
  also = record { out = "/c/db.json"; section = some "db"; file_mode = none } ∷ [];
  settings = (initial no_environment).settings;
}

accepted : from_args no_environment line ≡ ok spec
unfolding from_args read_flags flags flag_in parse_rendering split split_once trim of
accepted = refl

abbrev set : List Published
set =
    record { out = "/c/app.properties"; document = "document = a\\=b\n"; file_mode = none }
    ∷ record { out = "/c/db.json"; document = "{}\n"; file_mode = none }
    ∷ []

renders : render_all engine spec (says "a=b") ≡ ok set
unfolding render_all of flat_properties join replace
renders = refl

refuses : render_all engine spec (says "bad") ≡ err (refused "not a document")
unfolding render_all
refuses = refl

too_long : render_all engine spec (says "123456789") ≡ err over_ceiling
unfolding render_all
too_long = refl

landing-render_all_example : map landing set ≡ landings spec
landing-render_all_example = landing-render_all engine (says "a=b") spec set renders

render_all-panics_example :
    panics {F = Unit {0}} engine (says "bad") (refused "not a document") ≡ false
render_all-panics_example =
    render_all-panics engine (says "bad") no_environment line spec (refused "not a document")
      accepted refuses

abbrev io : Io
io = record {
  now = 100;
  writes = λ _. true;
  keeps = λ _. true;
  describes = λ _. true;
  canary_file = none;
}

abbrev delivery : Fetched (Document (Unit {0}))
delivery = record { value = says "a=b"; lease = none; revision = none }

abbrev a_day : List (Io × Event (Document (Unit {0})))
a_day = (io, pushed delivery) ∷ (io, received) ∷ (io, drifting) ∷ []

abbrev serves_nothing : Loop (Document (Unit {0}))
serves_nothing = record {
  world = record {
    files = ("/run/token", ("t", none)) ∷ [];
    kept = [];
    metas = [];
    calls = 0;
    metrics = at_start;
  };
  rendered = none;
  withheld = none;
  lease = none;
  slot = none;
  gone = false;
  resyncing = in_flight;
  heard = [];
}

abbrev digest : String → String
digest content = content

traces-run-render_all_example :
    there "/run/token" (
      state
        (run digest (rendered_from engine spec) (loop_spec none true spec) a_day serves_nothing))
    ≡ (some "t", [], [])
unfolding traces read
traces-run-render_all_example =
    traces-run-render_all engine spec digest none true "/run/token" a_day serves_nothing refl
      (refl, refl)
