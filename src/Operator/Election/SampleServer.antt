-- ===== src/Operator/Election/SampleServer.antt =====
-- dynamic-config-operator/src/election.rs: a server of one lease, which counts its versions in strokes.
use Prim.Native.Char.{Char}
use Prim.Native.String.{◌∷◌ as cons}
use dynamic_config_k8s.Prelude.{
  ℕ, zero, suc, ◌<◌, String, ◌≡◌, refl, ap, inl, inr, Option, none, some, arith, if◌then◌else◌,
  Option-cases, ◌==◌, eq_iff, Result, ok, err,
}
use dynamic_config_k8s.Operator.Election.{
  LeaseSpec, Lease, KubeError, api, Write, nothing, create, replace, default_spec, unwrap_or,
}
use dynamic_config_k8s.Operator.Election.Fence.{Server}

abbrev stroke : Char
stroke = "i"

unfoldable pub strokes : ℕ → String
strokes zero = ""
strokes (suc n) = cons stroke (strokes n)

pub strokes_injective : (m n : ℕ) → strokes m ≡ strokes n → m ≡ n
unfolding strokes
strokes_injective zero zero h = refl
strokes_injective zero (suc n) h = cc
strokes_injective (suc m) zero h = cc
strokes_injective (suc m) (suc n) h = ap suc (strokes_injective m n (cc))

pub record Shelf : Type 0 where
  pub held : Option LeaseSpec
  pub revision : ℕ

unfoldable pub shown : Shelf → Option Lease
shown s = elim s.held [
  | none ↦ none
  | some spec ↦ some (record { resource_version = some (strokes s.revision); spec = some spec })
]

unfoldable pub judge : Shelf → Write → Result KubeError (Unit {0})
judge s nothing = err (api 400)
judge s (create lease) = elim s.held [ none ↦ ok tt | some spec ↦ err (api 409) ]
judge s (replace lease) = elim s.held [
  | none ↦ err (api 404)
  | some spec ↦ elim lease.resource_version [
    | none ↦ err (api 400)
    | some v ↦ if v == strokes s.revision then ok tt else err (api 409)
  ]
]

unfoldable pub put : Shelf → Lease → Shelf
put s lease = record { held = some (unwrap_or default_spec lease.spec); revision = suc s.revision }

unfoldable pub store : Shelf → Write → Shelf
unfolding put
store s nothing = s
store s (create lease) = put s lease
store s (replace lease) = put s lease

pub shown_version :
    (s : Shelf) (lease : Lease)
    → shown s ≡ some lease
    → lease.resource_version ≡ some (strokes s.revision)
unfolding shown
shown_version s lease h = ground arith

version_of_ok :
    (v : Option String) (now : String)
    → (elim v as (λ x. Result KubeError (Unit {0})) [
      | none ↦ err (api 400)
      | some w ↦ if w == now then ok tt else err (api 409)
    ])
      ≡ ok tt
    → v ≡ some now
version_of_ok none now h = cc
version_of_ok (some w) now h = ground (arith, eq_iff w now)

pub replace_current :
    (s : Shelf) (lease : Lease)
    → judge s (replace lease) ≡ ok tt
    → (current : Lease) × (shown s ≡ some current)
      × (lease.resource_version ≡ current.resource_version)
unfolding judge shown
replace_current s lease h = elim (Option-cases s.held) [
  | inl e ↦ cc (rw (e, judge) at h)
  | inr (spec, e) ↦ (
    record { resource_version = some (strokes s.revision); spec = some spec },
    rw (e, shown),
    version_of_ok lease.resource_version (strokes s.revision) (rw (e, judge) at h),
  )
]

pub write_moves : (s : Shelf) (r : Write) → judge s r ≡ ok tt → s.revision < (store s r).revision
unfolding judge store
write_moves s nothing h = cc
write_moves s (create lease) h = omega arith
write_moves s (replace lease) h = omega arith

abbrev pub sample : Server
sample = record {
  World = Shelf;
  stored = shown;
  revision = λ s. s.revision;
  version = strokes;
  answer = judge;
  next = store;
  version_injective = strokes_injective;
  stored_version = shown_version;
  replace_current = replace_current;
  write_moves = write_moves;
}
