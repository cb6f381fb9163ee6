-- ===== src/Prelude/Fails.antt =====
-- What holds of a fallible computation's error, whenever it has one.
use mathlib.Core.Path.{◌≡◌, refl, subst}
use mathlib.Core.Bool.{Bool, true, false}
use dynamic_config_k8s.Prelude.Results.{Result, ok, err, ◌>>=◌, ensure, map_err, err-injective}

pub record Fails {ℓ κ μ} {E : Type ℓ} {A : Type κ} (P : E → Type μ) (r : Result E A)
    : Type (ℓ ⊔ κ ⊔ μ) where
  pub at : (e : E) → r ≡ err e → P e

module _ {ℓ κ μ} {E : Type ℓ} {A : Type κ} {P : E → Type μ} where
  pub Fails-ok : (a : A) → Fails P (let r : Result E A = ok a in r)
  Fails-ok a = record { at = λ e h. cc }

  pub Fails-err : (e : E) → P e → Fails P (let r : Result E A = err e in r)
  Fails-err e p = record { at = λ f h. subst P (err-injective h) p }

  pub Fails-map_err {ν} :
      {D : Type ν} (f : D → E) (r : Result D A)
      → ((d : D) → r ≡ err d → P (f d))
      → Fails P (map_err f r)
  Fails-map_err f (ok a) h = Fails-ok a
  Fails-map_err f (err d) h = Fails-err (f d) (h d refl)

module _ {ℓ μ} {E : Type ℓ} {P : E → Type μ} where
  pub Fails-ensure : (b : Bool) (e : E) → P e → Fails P (ensure b e)
  Fails-ensure true e p = Fails-ok tt
  Fails-ensure false e p = Fails-err e p

module _ {ℓ κ μ ν} {E : Type ℓ} {A : Type κ} {B : Type ν} {P : E → Type μ} where
  pub Fails-bind :
      (r : Result E A) (f : A → Result E B)
      → Fails P r
      → ((a : A) → r ≡ ok a → Fails P (f a))
      → Fails P (r >>= f)
  Fails-bind (ok a) f h k = k a refl
  Fails-bind (err e) f h k = Fails-err e (h.at e refl)
