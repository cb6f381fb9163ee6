-- ===== src/NodeAgent/Registry/Readers.antt =====
-- dynamic-config-node-agent/src/shared.rs: the registry as the relation "this path reads this document".
use dynamic_config_k8s.Prelude.{
  String, Bool, true, not, ◌&&◌, ◌||◌, ◌≡◌, refl, inl, inr, Option, none, some, List, [], ◌∷◌,
  arith, is_empty, any-append, ◌==◌, eq_iff, Bool-cases, Option-cases, if◌then◌else◌,
}
use dynamic_config_k8s.NodeAgent.Registry.{
  Document, same, same_iff, Reader, Watched, Entries, Registry, reads_path, get, join, join_at,
  start, claim, readers, others, retain, release,
}
use dynamic_config_k8s.NodeAgent.Registry.Invariant.{IsValid, WellKept}

module _ {Spec : Type 0} where
  -- The abstract registry: whether the volume at `p` reads `d`.
  unfoldable pub reads : Registry Spec → Document → String → Bool
  unfolding readers
  reads r d p = reads_path p (readers r d)

  abbrev targets_of : Option (Watched Spec) → List (Reader Spec)
  targets_of none = []
  targets_of (some w) = w.targets

  reads_path-join :
      (reader : Reader Spec) (w : Watched Spec) (p : String)
      → reads_path p (join reader w).targets ≡ (reader.path == p || reads_path p w.targets)
  unfolding join
  reads_path-join reader w p = elim (Bool-cases (reads_path reader.path w.targets)) [
    | inl old ↦ rw (old, join) (ground (arith, eq_iff reader.path p))
    | inr new ↦
        rw new
          (ground (arith, any-append (λ (x : Reader Spec). x.path == p) w.targets (reader ∷ [])))
  ]

  get-join_at :
      (d e : Document) (reader : Reader Spec) (xs : Entries Spec) (w : Watched Spec)
      → get d xs ≡ some w
      → get e (join_at d reader xs) ≡ (if same d e then some (join reader w) else get e xs)
  unfolding get join_at
  get-join_at d e reader [] w h = ground arith
  get-join_at d e reader ((f, v) ∷ xs) w h =
      ground (arith, same_iff f d, same_iff f e, same_iff d e, get-join_at d e reader xs w)

  -- Claiming `d` for `target` adds that one pair to the relation.
  pub reads-claim :
      (r : Registry Spec) (d e : Document) (target p : String) (spec : Spec)
      → reads (claim r d target spec).0 e p ≡ ((same d e && target == p) || reads r e p)
  unfolding reads readers claim start get
  reads-claim r d e target p spec = elim (Option-cases (get d r.watched)) [
    | inl unread ↦ rw (unread, claim) (ground (arith, same_iff d e))
    | inr (w, found) ↦
        let reader : Reader Spec = record { path = target; spec = spec } in
        rw (found, claim)
          (ground (
            arith,
            same_iff d e,
            get-join_at d e reader r.watched w found,
            reads_path-join reader w p,
          ))
  ]

  is_empty_nil : (xs : List (Reader Spec)) → is_empty xs ≡ true → xs ≡ []
  is_empty_nil xs h = ground arith

  get-retain :
      (d : Document) (target : String) (xs : Entries Spec)
      → WellKept xs
      → targets_of (get d (retain target xs).0) ≡ others target (targets_of (get d xs))
  unfolding get retain
  get-retain d target [] h = refl
  get-retain d target ((e, w) ∷ xs) h =
      ground
        (arith, get-retain d target xs h.2, same_iff e d, is_empty_nil (others target w.targets))

  reads_path-others :
      (p target : String) (xs : List (Reader Spec))
      → reads_path p (others target xs) ≡ (not (target == p) && reads_path p xs)
  reads_path-others p target [] = ground arith
  reads_path-others p target (x ∷ xs) =
      ground (
        arith,
        reads_path-others p target xs,
        eq_iff x.path target,
        eq_iff x.path p,
        eq_iff target p,
      )

  -- Releasing `target` takes it out of every document, and changes nothing else.
  pub reads-release :
      (r : Registry Spec) (d : Document) (target p : String)
      → IsValid r
      → reads (release r target).0 d p ≡ (not (target == p) && reads r d p)
  unfolding reads readers release
  reads-release r d target p h = ground (
    arith,
    get-retain d target r.watched h.kept,
    reads_path-others p target (targets_of (get d r.watched)),
  )
