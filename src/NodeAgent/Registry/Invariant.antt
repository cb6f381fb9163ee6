-- ===== src/NodeAgent/Registry/Invariant.antt =====
-- dynamic-config-node-agent/src/shared.rs: the registry's invariant, kept by every method.
use dynamic_config_k8s.Prelude.{
  ℕ, ◌+◌, String, false, ◌≡◌, refl, inl, inr, none, List, [], ◌∷◌, ◌++◌, arith, is_empty, ◌==◌,
  eq_iff, ltb, nat_eq, Option-cases, if◌then◌else◌,
}
use dynamic_config_k8s.NodeAgent.Registry.{
  Document, Reader, Watched, Entries, Registry, empty, reads_path, get, join, join_at, start, claim,
  others, retain, release,
}

-- How often a channel stands in a list.
pub count : ℕ → List ℕ → ℕ
count c [] = 0
count c (x ∷ xs) = (if nat_eq x c then 1 else 0) + count c xs

count-append : (c : ℕ) (xs ys : List ℕ) → count c (xs ++ ys) ≡ count c xs + count c ys
unfolding count
count-append c [] ys = omega arith
count-append c (x ∷ xs) ys = omega (arith, count-append c xs ys)

module _ {Spec : Type 0} where
  -- How often a channel is held by an entry.
  pub held_by : ℕ → Entries Spec → ℕ
  held_by c [] = 0
  held_by c ((d, w) ∷ rest) = (if nat_eq w.stop c then 1 else 0) + held_by c rest

  abbrev pub DistinctPaths : List (Reader Spec) → Type 0
  DistinctPaths [] = Unit
  DistinctPaths (x ∷ xs) = (reads_path x.path xs ≡ false) × DistinctPaths xs

  abbrev pub IsServed : Watched Spec → Type 0
  IsServed w = (is_empty w.targets ≡ false) × DistinctPaths w.targets

  abbrev pub WellKept : Entries Spec → Type 0
  WellKept [] = Unit
  WellKept ((d, w) ∷ rest) = IsServed w × (get d rest ≡ none) × WellKept rest

  -- `ledger`: each channel that was opened is held by one entry or was told to stop once, not both;
  -- no other channel is held or stopped.
  pub record IsValid (r : Registry Spec) : Type 0 where
    pub kept : WellKept r.watched
    pub ledger :
        (c : ℕ) → held_by c r.watched + count c r.ended ≡ (if ltb c r.channels then 1 else 0)

  pub IsValid-empty : IsValid (empty {Spec = Spec})
  unfolding held_by count
  IsValid-empty = record { kept = tt; ledger = λ c. ground arith }

  reads_path-snoc :
      (p : String) (xs : List (Reader Spec)) (x : Reader Spec)
      → reads_path p xs ≡ false
      → (x.path == p) ≡ false
      → reads_path p (xs ++ x ∷ []) ≡ false
  reads_path-snoc p [] x h e = ground arith
  reads_path-snoc p (y ∷ xs) x h e = ground (arith, reads_path-snoc p xs x)

  DistinctPaths-snoc :
      (xs : List (Reader Spec)) (x : Reader Spec)
      → DistinctPaths xs
      → reads_path x.path xs ≡ false
      → DistinctPaths (xs ++ x ∷ [])
  DistinctPaths-snoc [] x h e = (refl, tt)
  DistinctPaths-snoc (y ∷ xs) x h e = (
    reads_path-snoc y.path xs x h.0 (ground (arith, eq_iff x.path y.path, eq_iff y.path x.path)),
    DistinctPaths-snoc xs x h.1 (ground arith),
  )

  is_empty-snoc : (xs : List (Reader Spec)) (x : Reader Spec) → is_empty (xs ++ x ∷ []) ≡ false
  is_empty-snoc [] x = refl
  is_empty-snoc (y ∷ xs) x = refl

  join-IsServed : (reader : Reader Spec) (w : Watched Spec) → IsServed w → IsServed (join reader w)
  unfolding join
  join-IsServed reader w h =
      ground (arith, DistinctPaths-snoc w.targets reader h.1, is_empty-snoc w.targets reader)

  get-join_at :
      (d e : Document) (reader : Reader Spec) (xs : Entries Spec)
      → get d xs ≡ none
      → get d (join_at e reader xs) ≡ none
  unfolding get join_at
  get-join_at d e reader [] h = refl
  get-join_at d e reader ((f, w) ∷ xs) h = ground (arith, get-join_at d e reader xs)

  join_at-WellKept :
      (d : Document) (reader : Reader Spec) (xs : Entries Spec)
      → WellKept xs
      → WellKept (join_at d reader xs)
  unfolding join_at
  join_at-WellKept d reader [] h = tt
  join_at-WellKept d reader ((e, w) ∷ xs) h = ground (
    arith,
    join-IsServed reader w h.0,
    get-join_at e d reader xs h.1,
    join_at-WellKept d reader xs h.2,
  )

  held_by-join_at :
      (c : ℕ) (d : Document) (reader : Reader Spec) (xs : Entries Spec)
      → held_by c (join_at d reader xs) ≡ held_by c xs
  unfolding held_by join_at join
  held_by-join_at c d reader [] = refl
  held_by-join_at c d reader ((e, w) ∷ xs) = ground (arith, held_by-join_at c d reader xs)

  reads_path-others :
      (p target : String) (xs : List (Reader Spec))
      → reads_path p xs ≡ false
      → reads_path p (others target xs) ≡ false
  reads_path-others p target [] h = h
  reads_path-others p target (x ∷ xs) h = ground (arith, reads_path-others p target xs)

  others-DistinctPaths :
      (target : String) (xs : List (Reader Spec))
      → DistinctPaths xs
      → DistinctPaths (others target xs)
  others-DistinctPaths target [] h = tt
  others-DistinctPaths target (x ∷ xs) h =
      ground (arith, others-DistinctPaths target xs h.1, reads_path-others x.path target xs h.0)

  get-retain :
      (d : Document) (target : String) (xs : Entries Spec)
      → get d xs ≡ none
      → get d (retain target xs).0 ≡ none
  unfolding get retain
  get-retain d target [] h = refl
  get-retain d target ((e, w) ∷ xs) h = ground (arith, get-retain d target xs)

  retain-WellKept :
      (target : String) (xs : Entries Spec) → WellKept xs → WellKept (retain target xs).0
  unfolding retain
  retain-WellKept target [] h = tt
  retain-WellKept target ((d, w) ∷ xs) h = ground (
    arith,
    others-DistinctPaths target w.targets h.0.1,
    get-retain d target xs h.1,
    retain-WellKept target xs h.2,
  )

  held_by-retain :
      (c : ℕ) (target : String) (xs : Entries Spec)
      → held_by c (retain target xs).0 + count c (retain target xs).1 ≡ held_by c xs
  unfolding held_by count retain
  held_by-retain c target [] = omega arith
  held_by-retain c target ((d, w) ∷ xs) = ground (arith, held_by-retain c target xs)

  -- A claim keeps the invariant, whether it starts a watch or joins one.
  pub claim-IsValid :
      (r : Registry Spec) (d : Document) (target : String) (spec : Spec)
      → IsValid r
      → IsValid (claim r d target spec).0
  unfolding claim start held_by
  claim-IsValid r d target spec h = elim (Option-cases (get d r.watched)) [
    | inl unread ↦
        rw (unread, claim)
          (record {
            kept = ((refl, (refl, tt)), unread, h.kept);
            ledger = λ c. ground (arith, h.ledger c);
          })
    | inr (w, e) ↦
        rw (e, claim)
          (record {
            kept = join_at-WellKept d (record { path = target; spec = spec }) r.watched h.kept;
            ledger = λ c. omega (
              arith,
              h.ledger c,
              held_by-join_at c d (record { path = target; spec = spec }) r.watched,
            );
          })
  ]

  -- A release keeps the invariant.
  pub release-IsValid :
      (r : Registry Spec) (target : String) → IsValid r → IsValid (release r target).0
  unfolding release
  release-IsValid r target h = record {
    kept = retain-WellKept target r.watched h.kept;
    ledger = λ c. omega (
      arith,
      h.ledger c,
      held_by-retain c target r.watched,
      count-append c r.ended (retain target r.watched).1,
    );
  }
