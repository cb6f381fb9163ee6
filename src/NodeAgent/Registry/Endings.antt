-- ===== src/NodeAgent/Registry/Endings.antt =====
-- dynamic-config-node-agent/src/shared.rs: when a release ends a watch.
use dynamic_config_k8s.Prelude.{
  String, ◌≡◌, refl, subst, ◌↔◌, inl, inr, true, false, none, some, List, [], ◌∷◌, arith,
  Bool-cases, Option-cases, eq_iff, eq_refl, is_empty,
}
use dynamic_config_k8s.NodeAgent.Registry.{
  readers, same_iff, reads_path, others, Reader, Watched, retain, Document, release, Entries, get,
  Registry,
}
use dynamic_config_k8s.NodeAgent.Registry.Invariant.{IsValid, WellKept}
use dynamic_config_k8s.NodeAgent.Registry.Readers.{reads}
use dynamic_config_k8s.NodeAgent.Registry.History.{path_read, get-WellKept}

module _ {Spec : Type 0} where
  -- the volume at `target` is the only reader of `d`
  abbrev pub IsSoleReader : Registry Spec → String → Document → Type 0
  IsSoleReader r target d =
      (reads r d target ≡ true) × ((p : String) → reads r d p ≡ true → p ≡ target)

  -- what `retain` takes away
  abbrev IsEmptied : Entries Spec → String → Document → Type 0
  IsEmptied xs target d =
      (w : Watched Spec) × (get d xs ≡ some w) × (is_empty (others target w.targets) ≡ true)

  IsEmptied-tail :
      (e : Document) (v : Watched Spec) (xs : Entries Spec) (target : String) (d : Document)
      → get e xs ≡ none
      → IsEmptied xs target d
      → IsEmptied ((e, v) ∷ xs) target d
  unfolding get
  IsEmptied-tail e v xs target d h (w, found, gone) = (w, ground (arith, same_iff e d), gone)

  IsEmptied-of_retain :
      (target : String) (xs : Entries Spec)
      → WellKept xs
      → is_empty (retain target xs).1 ≡ false
      → (d : Document) × IsEmptied xs target d
  unfolding get retain
  IsEmptied-of_retain target [] h e = cc
  IsEmptied-of_retain target ((d, w) ∷ xs) h e =
      elim (Bool-cases (is_empty (others target w.targets))) [
        | inl gone ↦ (d, (w, ground (arith, same_iff d d), gone))
        | inr stays ↦
            let (f, found) = IsEmptied-of_retain target xs h.2 (ground arith) in
            (f, IsEmptied-tail d w xs target f h.1 found)
      ]

  retain_of_emptied :
      (target : String) (xs : Entries Spec) (d : Document)
      → IsEmptied xs target d
      → is_empty (retain target xs).1 ≡ false
  unfolding get retain
  retain_of_emptied target [] d (w, found, gone) = cc
  retain_of_emptied target ((e, v) ∷ xs) d (w, found, gone) =
      ground (arith, retain_of_emptied target xs d)

  others_empty :
      (target p : String) (xs : List (Reader Spec))
      → is_empty (others target xs) ≡ true
      → reads_path p xs ≡ true
      → p ≡ target
  others_empty target p [] h e = cc
  others_empty target p (x ∷ xs) h e =
      ground (arith, eq_iff x.path target, eq_iff x.path p, others_empty target p xs)

  empty_others :
      (target : String) (xs : List (Reader Spec))
      → ((p : String) → reads_path p xs ≡ true → p ≡ target)
      → is_empty (others target xs) ≡ true
  empty_others target [] h = refl
  empty_others target (x ∷ xs) h = ground (
    arith,
    eq_refl x.path,
    h x.path,
    eq_iff x.path target,
    empty_others target xs (λ p e. h p (ground (arith, e))),
  )

  sole_of_emptied :
      (r : Registry Spec) (target : String) (d : Document)
      → IsValid r
      → IsEmptied r.watched target d
      → IsSoleReader r target d
  unfolding reads readers
  sole_of_emptied r target d h (w, found, gone) =
      let (p, e) = path_read w.targets (get-WellKept d r.watched w h.kept found) in
      let same_path = others_empty target p w.targets gone e in
      rw (found, readers)
        (
          subst (λ q. reads_path q w.targets ≡ true) same_path e,
          λ q. others_empty target q w.targets gone,
        )

  IsEmptied-of_sole :
      (r : Registry Spec) (target : String) (d : Document)
      → IsSoleReader r target d
      → IsEmptied r.watched target d
  unfolding reads readers
  IsEmptied-of_sole r target d (e, alone) = elim (Option-cases (get d r.watched)) [
    | inl unread ↦ cc
    | inr (w, found) ↦ (w, found, empty_others target w.targets (λ p x. alone p (ground arith)))
  ]

  -- In a valid registry, a release ends a watch exactly if its volume was the only reader of some document.
  pub release-eq-true_iff :
      (r : Registry Spec) (target : String)
      → IsValid r
      → ((release r target).1 ≡ true) ↔ ((d : Document) × IsSoleReader r target d)
  unfolding release
  release-eq-true_iff r target h = (
    λ ended.
        let gone : is_empty (retain target r.watched).1 ≡ false = ground arith in
        let (d, emptied) = IsEmptied-of_retain target r.watched h.kept gone in
        (d, sole_of_emptied r target d h emptied),
    λ q.
        let (d, sole) = q in
        rw (retain_of_emptied target r.watched d (IsEmptied-of_sole r target d sole)),
  )
