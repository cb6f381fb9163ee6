-- ===== src/Agent/Arguments/Tests.antt =====
-- Runs of dynamic-config-agent/src/spec.rs.
use dynamic_config_k8s.Prelude.{String, ◌≡◌, refl, true, none, some, List, [], ◌∷◌, All, ok, err}
use dynamic_config_k8s.Prelude.Texts.{strip_prefix, split, split_once, parse_unsigned, trim}
use dynamic_config_k8s.Agent.Formats.{of}
use dynamic_config_k8s.Agent.Arguments.{from_args, read_flags, parse_rendering}
use dynamic_config_k8s.Agent.Arguments.Fields.{Spec, Environment, initial, past_0777, auth_needs}
use dynamic_config_k8s.Agent.Arguments.Flags.{flags, flag_in, file_mode_of, whole}
use dynamic_config_k8s.Agent.Arguments.Sound.{IsSound}
use dynamic_config_k8s.Agent.Arguments.Served.{IsChecked, HasFormat, from_args-IsServed}

abbrev no_environment : Environment
no_environment name = none

abbrev line : List String
line =
    "--source" ∷ "consul" ∷ "--endpoint" ∷ "http://consul:8500" ∷ "--key" ∷ "app/config" ∷ "--out"
    ∷ "/config/app.toml" ∷ "--watch" ∷ "0" ∷ "--meta" ∷ "--file-mode" ∷ "0640" ∷ "--also"
    ∷ "out=/config/db.ini,section=db" ∷ []

abbrev settled : Spec
settled = record {
  source = "consul";
  endpoint = "http://consul:8500";
  key = "app/config";
  out = "/config/app.toml";
  also = record { out = "/config/db.ini"; section = some "db"; file_mode = some 0o640 } ∷ [];
  settings = record (initial no_environment).settings {
    watch = some 1;
    meta = true;
    file_mode = some 0o640;
  };
}

settles : from_args no_environment line ≡ ok settled
unfolding from_args read_flags flags flag_in parse_unsigned split trim of whole file_mode_of
    strip_prefix parse_rendering split_once
settles = refl

vault_without_token :
    from_args no_environment
      ("--source" ∷ "vault" ∷ "--endpoint" ∷ "v" ∷ "--key" ∷ "k" ∷ "--out" ∷ "/a.json" ∷ [])
    ≡ err (auth_needs "token")
unfolding from_args read_flags flags flag_in of
vault_without_token = refl

-- The permissions of a further file are not bounded, unlike those of the main file.
unbounded_mode :
    parse_rendering none "out=/config/db.ini,mode=7777"
    ≡ ok (record { out = "/config/db.ini"; section = none; file_mode = some 0o7777 })
unfolding parse_rendering split split_once trim strip_prefix parse_unsigned of
unbounded_mode = refl

bounded_mode : file_mode_of "7777" ≡ err (past_0777 "--file-mode")
unfolding file_mode_of strip_prefix parse_unsigned
bounded_mode = refl

from_args-IsServed_example :
    IsSound settled.settings × IsChecked settled × All HasFormat settled.also
from_args-IsServed_example = from_args-IsServed no_environment line settled settles
