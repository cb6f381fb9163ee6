-- ===== src/Agent/Notify.antt =====
-- dynamic-config-agent/src/notify.rs: the endpoint that is told of a render, and the status of its answer.
-- The connection and its deadline are not modelled.
pub mod Local
mod Tests
use dynamic_config_k8s.Prelude.{
  ℕ, ◌/◌, String, Bool, ◌||◌, Option, none, some, nat_eq, ◌==◌, Result, ok, ◌>>=◌, ◌>>◌, ensure,
  ok_or,
}
use dynamic_config_k8s.Prelude.Texts.{
  ◌⊕◌, strip_prefix, split_once, rsplit_once, parse_unsigned, trim_front, trim_back,
}

pub record Endpoint : Type 0 where
  pub host : String
  pub port : ℕ
  pub path : String

pub data Refused : Type 0 where
  not_http no_port not_loopback not_a_port : Refused

-- the authority, and the path from its slash on
abbrev pub path_of : String → Option (String × String) → String × String
path_of rest none = (rest, "/")
path_of rest (some (front, back)) = (front, "/" ⊕ back)

abbrev pub parted : String → String × String
parted rest = path_of rest (split_once b'/' rest)

abbrev pub is_loopback : String → Bool
is_loopback host = host == "localhost" || host == "127.0.0.1" || host == "[::1]" || host == "::1"

abbrev pub is_bracket : ℕ → Bool
is_bracket c = nat_eq c b'[' || nat_eq c b']'

unfoldable pub parse : String → Result Refused Endpoint
unfolding split_once trim_front trim_back
parse url = do
  rest ← ok_or (strip_prefix "http://" url) not_http
  at ← ok_or (rsplit_once b':' (parted rest).0) no_port
  ensure (is_loopback at.0) not_loopback
  port ← ok_or (parse_unsigned 10 16 at.1) not_a_port
  ok (record {
    host = trim_back is_bracket (trim_front is_bracket at.0);
    port = port;
    path = (parted rest).1;
  })
