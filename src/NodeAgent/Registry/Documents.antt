-- ===== src/NodeAgent/Registry/Documents.antt =====
-- dynamic-config-node-agent/src/shared.rs: what makes two requests the same read.
use dynamic_config_k8s.Prelude.{String, Bool, true, ◌&&◌, ◌≡◌, ◌↔◌, arith, ◌==◌, eq_iff}

pub record Document : Type 0 where
  pub source : String
  pub endpoint : String
  pub key : String
  pub credential : String

-- the derived `PartialEq`
unfoldable pub same : Document → Document → Bool
same d e =
    d.source == e.source
    && d.endpoint == e.endpoint
    && d.key == e.key
    && d.credential == e.credential

-- Two documents are the same exactly if all four parts agree, the credential too.
pub same_iff : (d e : Document) → (same d e ≡ true) ↔ (d ≡ e)
unfolding same
same_iff d e = ground (
  arith,
  eq_iff d.source e.source,
  eq_iff d.endpoint e.endpoint,
  eq_iff d.key e.key,
  eq_iff d.credential e.credential,
)
