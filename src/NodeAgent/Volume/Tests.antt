-- ===== src/NodeAgent/Volume/Tests.antt =====
-- Runs of dynamic-config-node-agent/src/publish.rs.
use dynamic_config_k8s.NodeAgent.Volume.Watches.{names_watch, parse-IsWatched}
use dynamic_config_k8s.NodeAgent.Volume.{asked, passed, given}
use dynamic_config_k8s.Prelude.{any, false, true}
use dynamic_config_k8s.Prelude.Texts.{is_some}
use dynamic_config_k8s.Prelude.Texts.{parse_unsigned}
use dynamic_config_k8s.Agent.Formats.{of}
use dynamic_config_k8s.Agent.Arguments.{read_flags}
use dynamic_config_k8s.Agent.Arguments.Flags.{flags, flag_in, whole}
use dynamic_config_k8s.Agent.Arguments.Fields.{initial}
use dynamic_config_k8s.Prelude.Texts.{empty_text}
use dynamic_config_k8s.Prelude.{◌≡◌, refl, none, some, [], if◌then◌else◌, ◌==◌, ok, err}
use dynamic_config_k8s.Agent.Arguments.Fields.{Environment}
use dynamic_config_k8s.NodeAgent.Volume.{parse, Volume, Attributes, outside_volume}
use dynamic_config_k8s.NodeAgent.Volume.Inside.{Below, place, parse-IsInside}

abbrev no_environment : Environment
no_environment name = none

-- a document in a directory of the volume
abbrev consul : Attributes
consul name =
    if name == "source"
    then some "consul"
    else if name == "endpoint"
    then some "http://consul:8500"
    else if name == "key"
    then some "app"
    else if name == "path"
    then some "conf/rendered.toml"
    else none

abbrev escaping : Attributes
escaping name = if name == "path" then some "conf/../../out" else consul name

abbrev volume : Volume
volume = record {
  out = "/pods/a/conf/rendered.toml";
  spec = record {
    source = "consul";
    endpoint = "http://consul:8500";
    key = "app";
    out = "/pods/a/conf/rendered.toml";
    also = [];
    settings = record (initial no_environment).settings { watch = some 15 };
  };
  document = record {
    source = "consul";
    endpoint = "http://consul:8500";
    key = "app";
    credential = "";
  };
}

is_volume : parse no_environment "/pods/a" consul ≡ ok volume
unfolding parse empty_text read_flags flag_in flags whole parse_unsigned of
is_volume = refl

is_refused : parse no_environment "/pods/a" escaping ≡ err (outside_volume "conf/../../out")
unfolding parse empty_text
is_refused = refl

parse-IsInside_example :
    (volume.spec.out ≡ volume.out)
    × (volume.spec.also ≡ [])
    × Below (place "/pods/a") (place "/pods/a/conf/rendered.toml")
parse-IsInside_example = parse-IsInside no_environment "/pods/a" consul volume is_volume

no_value_asks : any names_watch (asked consul "consul" "app" "/pods/a/conf/rendered.toml") ≡ false
unfolding passed given empty_text
no_value_asks = refl

parse-IsWatched_example : is_some volume.spec.settings.watch ≡ true
parse-IsWatched_example =
    parse-IsWatched no_environment "/pods/a" consul volume is_volume no_value_asks
