-- ===== src/Agent/Base64/Tests.antt =====
-- Runs of dynamic-config-agent/src/render.rs, `base64` and `unbase64`.
use dynamic_config_k8s.Prelude.Texts.{char_in}
use dynamic_config_k8s.Prelude.{ℕ, ◌≡◌, refl, none, some, List, [], ◌∷◌, arith}
use dynamic_config_k8s.Agent.Base64.{base64, unbase64, digit_of}
use dynamic_config_k8s.Agent.Base64.Laws.{unbase64-base64}

hello : base64 (b'h' ∷ b'e' ∷ b'l' ∷ b'l' ∷ b'o' ∷ []) ≡ "aGVsbG8="
unfolding base64 char_in
hello = refl

foreign_character : unbase64 "aGV?bG8=" ≡ none
unfolding unbase64 digit_of
foreign_character = refl

-- Padding and line breaks say nothing, wherever they stand.
padding_inside : unbase64 "aG=V\nsbG8" ≡ some (b'h' ∷ b'e' ∷ b'l' ∷ b'l' ∷ b'o' ∷ [])
unfolding unbase64 digit_of
padding_inside = refl

abbrev bytes : List ℕ
bytes = 255 ∷ 0 ∷ 128 ∷ 7 ∷ []

unbase64-base64_example : unbase64 (base64 bytes) ≡ some bytes
unbase64-base64_example = unbase64-base64 bytes (ground arith)
