-- ===== src/NodeAgent/Registry/Tests.antt =====
-- dynamic-config-node-agent/src/shared.rs: the registry on a node with two pods.
use dynamic_config_k8s.Prelude.{ℕ, String, ◌≡◌, refl, ◌↔◌, true, false, List, [], ◌∷◌}
use dynamic_config_k8s.NodeAgent.Registry.{
  Document, started, joined, claim, release, counts, get, same, retain, join_at, join, start,
  total_targets,
}
use dynamic_config_k8s.NodeAgent.Registry.Readers.{reads}
use dynamic_config_k8s.NodeAgent.Registry.History.{
  Call, claims, releases, after, wants, after-IsValid, reads-after, claim-eq-joined_iff,
}
use dynamic_config_k8s.NodeAgent.Registry.Endings.{IsSoleReader, release-eq-true_iff}

abbrev shop : Document
shop = record { source = "vault"; endpoint = "https://vault"; key = "shop"; credential = "a/token" }

abbrev other_token : Document
other_token = record {
  source = "vault";
  endpoint = "https://vault";
  key = "shop";
  credential = "b/token";
}

-- the newest call first
abbrev two_pods : List (Call ℕ)
two_pods = claims shop "/pods/b" 2 ∷ claims shop "/pods/a" 1 ∷ []

one_watch : (counts (after two_pods) ≡ (1, 2)) × ((after two_pods).ended ≡ [])
unfolding counts total_targets after claim start get same join_at join
one_watch = (refl, refl)

another_credential : (claim (after two_pods) other_token "/pods/c" 3).1 ≡ started 1
unfolding after claim start get same join_at join
another_credential = refl

last_release :
    ((release (after two_pods) "/pods/a").1 ≡ false)
    × ((release (after (releases "/pods/a" ∷ two_pods)) "/pods/b").1 ≡ true)
unfolding after claim start get same join_at join release retain
last_release = (refl, refl)

reads-after_example :
    reads (after (releases "/pods/a" ∷ two_pods)) shop "/pods/b"
    ≡ wants (releases "/pods/a" ∷ two_pods) shop "/pods/b"
reads-after_example = reads-after (releases "/pods/a" ∷ two_pods) shop "/pods/b"

claim-eq-joined_iff_example :
    ((claim (after two_pods) shop "/pods/c" 3).1 ≡ joined)
    ↔ ((p : String) × (reads (after two_pods) shop p ≡ true))
claim-eq-joined_iff_example =
    claim-eq-joined_iff (after two_pods) shop "/pods/c" 3 (after-IsValid two_pods)

release-eq-true_iff_example :
    ((release (after two_pods) "/pods/a").1 ≡ true)
    ↔ ((d : Document) × IsSoleReader (after two_pods) "/pods/a" d)
release-eq-true_iff_example =
    release-eq-true_iff (after two_pods) "/pods/a" (after-IsValid two_pods)
