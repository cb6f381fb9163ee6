-- ===== src/Webhook/Userinfo/Hiding.antt =====
-- dynamic-config-webhook/src/annotations.rs: the credential is not in what is printed.
use Prim.Native.String.{[], ◌∷◌}
use dynamic_config_k8s.Prelude.{
  ℕ, String, ◌≡◌, refl, true, not, ◌||◌, none, some, [], ◌∷◌, arith, nat_eq,
}
use dynamic_config_k8s.Prelude.Texts.{◌⊕◌, strip_prefix, all_chars, head_is, empty_text}
use dynamic_config_k8s.Webhook.Userinfo.{
  ellipsis, find_scheme, ends_authority, authority, behind_at, without_userinfo,
}

-- a text with no character that ends an authority
abbrev pub IsAuthority : String → Type 0
IsAuthority s = all_chars (λ c. not (ends_authority c)) s ≡ true

abbrev pub HasNo : ℕ → String → Type 0
HasNo n s = all_chars (λ c. not (nat_eq c n)) s ≡ true

-- what may stand behind an authority: nothing, or a path, a query or a fragment
abbrev pub IsTail : String → Type 0
IsTail s = (empty_text s || head_is ends_authority s) ≡ true

authority-append :
    (a tail : String) → IsAuthority a → IsTail tail → authority (a ⊕ tail) ≡ (a, tail)
unfolding authority all_chars head_is empty_text
authority-append [] [] h t = refl
authority-append [] (c ∷ s) h t = ground arith
authority-append (c ∷ a) tail h t = ground (arith, authority-append a tail (ground arith) t)

behind_at-none : (h : String) → HasNo b'@' h → behind_at h ≡ none
unfolding behind_at all_chars
behind_at-none [] h = refl
behind_at-none (c ∷ s) h = ground (arith, behind_at-none s)

behind_at-append : (u h : String) → HasNo b'@' h → behind_at (u ⊕ "@" ⊕ h) ≡ some h
unfolding behind_at
behind_at-append [] h clean = (ground (arith, behind_at-none h clean))
behind_at-append (c ∷ u) h clean = ground (arith, behind_at-append u h clean)

find_scheme-append :
    (s rest : String) → HasNo b':' s → find_scheme (s ⊕ "://" ⊕ rest) ≡ some (s, rest)
unfolding find_scheme strip_prefix all_chars
find_scheme-append [] rest clean = ground arith
find_scheme-append (c ∷ s) rest clean = ground (arith, find_scheme-append s rest)

IsAuthority-append : (u h : String) → IsAuthority u → IsAuthority h → IsAuthority (u ⊕ "@" ⊕ h)
unfolding all_chars
IsAuthority-append [] h p q = q
IsAuthority-append (c ∷ u) h p q = ground (arith, IsAuthority-append u h)

-- In a value of a scheme without a colon, an authority with an `@`, and a tail that is empty or begins
-- with `/`, `?` or `#`, whatever stands before the authority's last `@` is replaced by one mark.
pub without_userinfo-hides :
    (scheme user host tail : String)
    → HasNo b':' scheme
    → IsAuthority user
    → IsAuthority host
    → HasNo b'@' host
    → IsTail tail
    → without_userinfo (scheme ⊕ "://" ⊕ (user ⊕ "@" ⊕ host) ⊕ tail)
      ≡ scheme ⊕ "://" ⊕ ellipsis ⊕ "@" ⊕ host ⊕ tail
unfolding without_userinfo
without_userinfo-hides scheme user host tail s u h clean t = ground (
  arith,
  find_scheme-append scheme ((user ⊕ "@" ⊕ host) ⊕ tail) s,
  authority-append (user ⊕ "@" ⊕ host) tail (IsAuthority-append user host u h) t,
  behind_at-append user host clean,
)
