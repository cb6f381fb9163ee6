-- ===== src/Prelude/Yields.antt =====
-- What holds of a fallible computation's value, whenever it has one: one rule for each way to build it.
use mathlib.Core.Path.{◌≡◌, refl, subst}
use mathlib.Core.Bool.{Bool, true, false}
use dynamic_config_k8s.Prelude.Tests.{if◌then◌else◌}
use dynamic_config_k8s.Prelude.Results.{Result, ok, err, ensure, ◌>>=◌, ◌>>◌}

pub record Yields {ℓ κ μ} {E : Type ℓ} {A : Type κ} (P : A → Type μ) (r : Result E A)
    : Type (ℓ ⊔ κ ⊔ μ) where
  pub at : (a : A) → r ≡ ok a → P a

pub Yields-weaker {ℓ κ μ ν} :
    {E : Type ℓ} {A : Type κ} {P : A → Type μ} {Q : A → Type ν} (r : Result E A)
    → ((a : A) → P a → Q a)
    → Yields P r
    → Yields Q r
Yields-weaker r f h = record { at = λ a e. f a (h.at a e) }

pub ok-injective {ℓ κ} :
    {E : Type ℓ} {A : Type κ} {a b : A} → ◌≡◌ {A = Result E A} (ok a) (ok b) → a ≡ b
ok-injective e = cc

module _ {ℓ κ μ} {E : Type ℓ} {A : Type κ} {P : A → Type μ} where
  pub Yields-ok : (a : A) → P a → Yields P (let r : Result E A = ok a in r)
  Yields-ok a p = record { at = λ b e. subst P (ok-injective e) p }

  pub Yields-err : (e : E) → Yields P (let r : Result E A = err e in r)
  Yields-err e = record { at = λ b h. cc }

  pub Yields-if :
      (b : Bool) (r s : Result E A)
      → (b ≡ true → Yields P r)
      → (b ≡ false → Yields P s)
      → Yields P (if b then r else s)
  Yields-if true r s h k = h refl
  Yields-if false r s h k = k refl

module _ {ℓ κ μ ν} {E : Type ℓ} {A : Type κ} {B : Type ν} {P : B → Type μ} where
  -- the rest of the block may use that `r` gave `a`
  pub Yields-bind :
      (r : Result E A) (f : A → Result E B)
      → ((a : A) → r ≡ ok a → Yields P (f a))
      → Yields P (r >>= f)
  Yields-bind (ok a) f h = h a refl
  Yields-bind (err e) f h = Yields-err e

-- what follows a guard may use that it holds
pub Yields-ensure {ℓ κ μ} :
    {E : Type ℓ} {A : Type κ} {P : A → Type μ} (b : Bool) (e : E) (rest : Result E A)
    → (b ≡ true → Yields P rest)
    → Yields P (ensure b e >> rest)
Yields-ensure true e rest h = h refl
Yields-ensure false e rest h = Yields-err e

pub ruleset yields_rules = (Yields-ok, Yields-err, Yields-if, Yields-bind)
