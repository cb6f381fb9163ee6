-- ===== src/Operator/Election/Leading.antt =====
-- dynamic-config-operator/src/election.rs: the two loops of `lead`, over the answers that they get.
use dynamic_config_k8s.Prelude.{
  ℕ, ◌+◌, ◌≤◌, ◌<◌, ◌≡◌, refl, ◌≢◌, ◌⊎◌, inl, inr, true, false, Bool, Bool-cases, leb, List, [],
  ◌∷◌, arith, All, ok, err, Result, ◌-◌, ◌++◌,
}
use dynamic_config_k8s.Operator.Election.{
  KubeError, Attempt, leading, stood_down, term, attempted, lead,
}

-- the time of the last attempt
abbrev pub last_at : ℕ → List Attempt → ℕ
last_at t [] = t
last_at t (a ∷ rest) = last_at a.at rest

-- no attempt comes later than `gap` after the one before it
abbrev pub IsSpaced : ℕ → ℕ → List Attempt → Type 0
IsSpaced gap t [] = Unit
IsSpaced gap t (a ∷ rest) = (a.at ≤ t + gap) × IsSpaced gap a.at rest

-- the last time at which the server confirmed the term, by the answers alone
unfoldable pub confirmed : ℕ → List Attempt → ℕ
confirmed held [] = held
confirmed held (a ∷ rest) = elim a.answer [
  | ok true ↦ confirmed a.at rest
  | _ ↦ confirmed held rest
]

-- what one round does, by its answer
lost : (held : ℕ) (a : Attempt) → a.answer ≡ ok false → attempted held a ≡ stood_down a.at
unfolding attempted
lost held a e = ground arith

renewed : (held : ℕ) (a : Attempt) → a.answer ≡ ok true → attempted held a ≡ leading a.at
unfolding attempted
renewed held a e = ground arith

late :
    (held : ℕ) (a : Attempt) (e : KubeError)
    → a.answer ≡ err e
    → leb term (a.at - held) ≡ true
    → attempted held a ≡ stood_down a.at
unfolding attempted
late held a e h k = ground arith

early :
    (held : ℕ) (a : Attempt) (e : KubeError)
    → a.answer ≡ err e
    → leb term (a.at - held) ≡ false
    → attempted held a ≡ leading held
unfolding attempted
early held a e h k = ground arith

Answer-cases :
    (r : Result KubeError Bool) → (r ≡ ok true) ⊎ ((r ≡ ok false) ⊎ ((e : KubeError) × (r ≡ err e)))
Answer-cases (ok true) = inl refl
Answer-cases (ok false) = inr (inl refl)
Answer-cases (err e) = inr (inr (e, refl))

-- A replica that entered the loop within its term and still leads has lost no attempt to another, leads
-- since the last confirmation, and made its last attempt within a term of it.
pub lead-leading :
    (held t since : ℕ) (attempts : List Attempt)
    → t < held + term
    → lead held attempts ≡ leading since
    → All (λ a. a.answer ≢ ok false) attempts
      × (since ≡ confirmed held attempts)
      × (last_at t attempts < confirmed held attempts + term)
unfolding lead confirmed
lead-leading held t since [] near h = (tt, cc, near)
lead-leading held t since (a ∷ rest) near h = elim (Answer-cases a.answer) [
  | inl e ↦
      let (kept, same, last) =
        lead-leading a.at a.at since rest (omega arith) (rw (renewed held a e, lead) at h) in
      rw (e, confirmed) ((λ x. cc, kept), same, last)
  | inr (inl e) ↦ cc (rw (lost held a e, lead) at h)
  | inr (inr (why, e)) ↦ elim (Bool-cases (leb term (a.at - held))) [
    | inl over ↦ cc (rw (late held a why e over, lead) at h)
    | inr within ↦
        let (kept, same, last) =
          lead-leading held a.at since rest (ground arith)
            (rw (early held a why e within, lead) at h) in
        rw (e, confirmed) ((λ x. cc, kept), same, last)
  ]
]

-- how a replica came to stand down: at some attempt, which came within a term and one gap of the last
-- confirmation before it, and which either was lost to another or found the term over
abbrev pub StoodDown : ℕ → ℕ → ℕ → List Attempt → Type 0
StoodDown gap held at attempts =
    (made : List Attempt) × (last : Attempt) × (rest : List Attempt) × (attempts
      ≡ made ++ last ∷ rest)
    × (at ≡ last.at)
    × (at < confirmed held made + term + gap)
    × ((last.answer ≡ ok false) ⊎ (confirmed held made + term ≤ at))
