-- ===== src/Webhook/Userinfo.antt =====
-- dynamic-config-webhook/src/annotations.rs: a value on its way into a refusal loses its credential.
pub mod Hiding
mod Tests
use Prim.Native.Char.{code}
use Prim.Native.String.{[], ◌∷◌}
use dynamic_config_k8s.Prelude.{
  ℕ, String, Bool, ◌||◌, Option, none, some, [], ◌∷◌, nat_eq, if◌then◌else◌,
}
use dynamic_config_k8s.Prelude.Texts.{◌⊕◌, strip_prefix}

abbrev pub ellipsis : String
ellipsis = "…"

abbrev pub and_then {ℓ} : {A : Type ℓ} → (A → A) → Option A → Option A
and_then f none = none
and_then f (some a) = some (f a)

-- `value.find("://")`, as the part before the mark and the part behind it
unfoldable pub find_scheme : String → Option (String × String)
unfolding strip_prefix
find_scheme [] = none
find_scheme (c ∷ s) =
    let later = find_scheme s in
    elim (strip_prefix "://" (c ∷ s)) [
      | some rest ↦ some ([], rest)
      | none ↦ and_then (λ p. (c ∷ p.0, p.1)) later
    ]

-- `['/', '?', '#']`
abbrev pub ends_authority : ℕ → Bool
ends_authority c = nat_eq c b'/' || nat_eq c b'?' || nat_eq c b'#'

-- the authority, and what stands behind it
unfoldable pub authority : String → String × String
authority [] = ([], [])
authority (c ∷ s) =
    let (a, rest) = authority s in if ends_authority (code c) then ([], c ∷ s) else (c ∷ a, rest)

-- what stands behind the last `@`, if there is one
unfoldable pub behind_at : String → Option String
behind_at [] = none
behind_at (c ∷ s) = elim (behind_at s) [
  | some host ↦ some host
  | none ↦ if nat_eq (code c) b'@' then some s else none
]

unfoldable pub without_userinfo : String → String
unfolding find_scheme authority behind_at
without_userinfo value = elim (find_scheme value) [
  | none ↦ value
  | some (scheme, rest) ↦
      let (name, tail) = authority rest in
      elim (behind_at name) [
        | none ↦ value
        | some host ↦ scheme ⊕ "://" ⊕ ellipsis ⊕ "@" ⊕ host ⊕ tail
      ]
]
