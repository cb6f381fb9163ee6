-- ===== src/Prelude/Texts/Laws.antt =====
-- Laws of the operations on texts.
use dynamic_config_k8s.Prelude.Texts.{split, path_join, is_char, prepend_head}
use dynamic_config_k8s.Prelude.Tests.{Bool-cases}
use Prim.Native.Char.{Char}
use mathlib.Core.Logic.{◌⊎◌, inl, inr}
use mathlib.Core.List.{List, ◌++◌}
use Prim.Native.String.{[], ◌∷◌}
use dynamic_config_k8s.Prelude.Tests.{ltb, nat_eq, if◌then◌else◌}
use dynamic_config_k8s.Prelude.Texts.{◌⊕◌, parse_unsigned, strip_prefix, split_once, all_chars}
use Prim.Native.Nat.{ℕ, ◌^◌, ◌<◌}
use Prim.Native.String.{String}
use mathlib.Core.Path.{◌≡◌, refl, ap, ◌∙◌}
use mathlib.Core.Bool.{true, false, not}
use mathlib.Core.Option.{Option, some, none}
use native.Mathlib.Omega.{arith}

-- a text without the character `n`
abbrev pub HasNo : ℕ → String → Type 0
HasNo n s = all_chars (λ c. not (nat_eq c n)) s ≡ true

abbrev in_range : ℕ → Option ℕ → Option ℕ
in_range bits none = none
in_range bits (some n) = if ltb n (2 ^ bits) then some n else none

in_range-lt : (bits : ℕ) (o : Option ℕ) (n : ℕ) → in_range bits o ≡ some n → n < 2 ^ bits
in_range-lt bits o n h = ground arith

-- A number that is read fits in its type.
pub parse_unsigned-lt :
    (base bits : ℕ) (s : String) (n : ℕ) → parse_unsigned base bits s ≡ some n → n < 2 ^ bits
unfolding parse_unsigned
parse_unsigned-lt base bits [] n h = cc
parse_unsigned-lt base bits (c ∷ s) n h = ground arith

pub strip_prefix-append : (p s : String) → strip_prefix p (p ⊕ s) ≡ some s
unfolding strip_prefix
strip_prefix-append [] s = refl
strip_prefix-append (c ∷ p) s = ground (arith, strip_prefix-append p s)

pub split_once-append :
    (n : ℕ) (a b : String) (c : String)
    → HasNo n a
    → split_once n c ≡ some ([], b)
    → split_once n (a ⊕ c) ≡ some (a, b)
unfolding split_once all_chars
split_once-append n [] b c h e = e
split_once-append n (d ∷ a) b c h e = ground (arith, split_once-append n a b c)

pub split_once-none : (n : ℕ) (a : String) → HasNo n a → split_once n a ≡ none
unfolding split_once all_chars
split_once-none n [] h = refl
split_once-none n (d ∷ a) h = ground (arith, split_once-none n a)

split-slash :
    (c : Char) (s : String)
    → is_char b'/' c ≡ true
    → split b'/' (c ∷ s) ≡ List.◌∷◌ [] (split b'/' s)
unfolding split
split-slash c s h = rw (split, h) refl

split-plain :
    (c : Char) (s : String)
    → is_char b'/' c ≡ false
    → split b'/' (c ∷ s) ≡ prepend_head c (split b'/' s)
unfolding split
split-plain c s h = rw (split, h) refl

path_join-slash : (c : Char) (s : String) → is_char b'/' c ≡ true → path_join (c ∷ []) s ≡ c ∷ s
unfolding path_join
path_join-slash c s h = rw (path_join, h) refl

path_join-plain :
    (c : Char) (s : String) → is_char b'/' c ≡ false → path_join (c ∷ []) s ≡ c ∷ "/" ∷ s
unfolding path_join
path_join-plain c s h = rw (path_join, h) refl

split-path_join_from :
    (c : Char) (s relative : String)
    → (first : String) × (more : List String) × (split b'/' (path_join (c ∷ s) relative)
        ≡ List.◌∷◌ first more ++ split b'/' relative)
      × ((split b'/' (c ∷ s) ≡ List.◌∷◌ first more)
          ⊎ (split b'/' (c ∷ s) ≡ List.◌∷◌ first more ++ List.◌∷◌ [] List.[]))
unfolding split path_join
split-path_join_from c [] relative = elim (Bool-cases (is_char b'/' c)) [
  | inl slash ↦ (
    [],
    List.[],
    ap (split b'/') (path_join-slash c relative slash) ∙ split-slash c relative slash,
    inr (split-slash c [] slash),
  )
  | inr plain ↦ (
    c ∷ [],
    List.[],
    ap (split b'/') (path_join-plain c relative plain) ∙ split-plain c ("/" ∷ relative) plain,
    inl (split-plain c [] plain),
  )
]
split-path_join_from c (d ∷ s) relative =
    let (first, more, joined, front) = split-path_join_from d s relative in
    elim (Bool-cases (is_char b'/' c)) [
      | inl slash ↦ (
        [],
        List.◌∷◌ first more,
        split-slash c (path_join (d ∷ s) relative) slash ∙ ap (List.◌∷◌ []) joined,
        elim front [
          | inl same ↦ inl (split-slash c (d ∷ s) slash ∙ ap (List.◌∷◌ []) same)
          | inr same ↦ inr (split-slash c (d ∷ s) slash ∙ ap (List.◌∷◌ []) same)
        ],
      )
      | inr plain ↦ (
        c ∷ first,
        more,
        split-plain c (path_join (d ∷ s) relative) plain ∙ ap (prepend_head c) joined,
        elim front [
          | inl same ↦ inl (split-plain c (d ∷ s) plain ∙ ap (prepend_head c) same)
          | inr same ↦ inr (split-plain c (d ∷ s) plain ∙ ap (prepend_head c) same)
        ],
      )
    ]

-- A path and its join are split alike, up to one empty part at the end of the path.
pub split-path_join :
    (s relative : String)
    → (front : List String) × (split b'/' (path_join s relative) ≡ front ++ split b'/' relative)
      × ((split b'/' s ≡ front) ⊎ (split b'/' s ≡ front ++ List.◌∷◌ [] List.[]))
unfolding split path_join
split-path_join [] relative = (List.[], refl, inr refl)
split-path_join (c ∷ s) relative =
    let (first, more, joined, front) = split-path_join_from c s relative in
    (List.◌∷◌ first more, joined, front)
