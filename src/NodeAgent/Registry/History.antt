-- ===== src/NodeAgent/Registry/History.antt =====
-- dynamic-config-node-agent/src/shared.rs: what a whole history of claims and releases leaves behind.
use dynamic_config_k8s.Prelude.{
  String, Bool, true, false, not, ◌&&◌, ◌||◌, ◌≡◌, refl, ◌↔◌, inl, inr, some, List, [], ◌∷◌, arith,
  is_empty, ◌==◌, eq_refl, Option-cases,
}
use dynamic_config_k8s.NodeAgent.Registry.{
  Document, same, Reader, Watched, Entries, Registry, joined, empty, reads_path, get, claim,
  readers, release,
}
use dynamic_config_k8s.NodeAgent.Registry.Invariant.{
  IsValid, WellKept, IsValid-empty, claim-IsValid, release-IsValid,
}
use dynamic_config_k8s.NodeAgent.Registry.Readers.{reads, reads-claim, reads-release}

pub data Call (Spec : Type 0) : Type 0 where
  claims : Document → String → Spec → Call Spec
  releases : String → Call Spec

module _ {Spec : Type 0} where
  -- The registry after a history, the newest call first.
  unfoldable pub after : List (Call Spec) → Registry Spec
  after [] = empty
  after (claims d target spec ∷ older) = (claim (after older) d target spec).0
  after (releases target ∷ older) = (release (after older) target).0

  -- What the history says, with no registry: a volume reads a document if it claimed it and has not
  -- been released since.
  unfoldable pub wants : List (Call Spec) → Document → String → Bool
  wants [] d p = false
  wants (claims e target spec ∷ older) d p = (same e d && target == p) || wants older d p
  wants (releases target ∷ older) d p = not (target == p) && wants older d p

  -- Every history of claims and releases ends in a valid registry.
  pub after-IsValid : (calls : List (Call Spec)) → IsValid (after calls)
  unfolding after
  after-IsValid [] = IsValid-empty
  after-IsValid (claims d target spec ∷ older) =
      claim-IsValid (after older) d target spec (after-IsValid older)
  after-IsValid (releases target ∷ older) =
      release-IsValid (after older) target (after-IsValid older)

  -- After any history of claims and releases, a volume reads a document exactly if the history says so:
  -- it claimed that document and has not been released since.
  pub reads-after :
      (calls : List (Call Spec)) (d : Document) (p : String)
      → reads (after calls) d p ≡ wants calls d p
  unfolding after wants reads readers get
  reads-after [] d p = refl
  reads-after (claims e target spec ∷ older) d p =
      rw (reads-claim (after older) e d target p spec, reads-after older d p)
  reads-after (releases target ∷ older) d p =
      rw (reads-release (after older) d target p (after-IsValid older), reads-after older d p)

  pub path_read :
      (xs : List (Reader Spec)) → is_empty xs ≡ false → (p : String) × (reads_path p xs ≡ true)
  path_read (x ∷ xs) h = (x.path, ground (arith, eq_refl x.path))
  path_read [] h = cc

  pub get-WellKept :
      (d : Document) (xs : Entries Spec) (w : Watched Spec)
      → WellKept xs
      → get d xs ≡ some w
      → is_empty w.targets ≡ false
  unfolding get
  get-WellKept d [] w h e = cc
  get-WellKept d ((f, v) ∷ xs) w h e = ground (arith, get-WellKept d xs w h.2)

  -- In a valid registry, a claim joins a watch exactly if some volume reads the document already; otherwise it starts one.
  pub claim-eq-joined_iff :
      (r : Registry Spec) (d : Document) (target : String) (spec : Spec)
      → IsValid r
      → ((claim r d target spec).1 ≡ joined) ↔ ((p : String) × (reads r d p ≡ true))
  unfolding reads readers claim
  claim-eq-joined_iff r d target spec h = elim (Option-cases (get d r.watched)) [
    | inl unread ↦ rw (unread, claim, readers) (λ e. cc, λ q. cc (q.1))
    | inr (w, found) ↦
        rw (found, claim, readers)
          (λ _. path_read w.targets (get-WellKept d r.watched w h.kept found), λ _. refl)
  ]
