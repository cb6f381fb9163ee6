-- ===== src/Agent/Base64/Laws.antt =====
-- dynamic-config-agent/src/render.rs: decoding what was encoded.
use Prim.Native.Char.{code}
use Prim.Native.String.{String, ◌∷◌ as cons_text}
use dynamic_config_k8s.Prelude.Texts.{char_in}
use dynamic_config_k8s.Prelude.{
  below-at, ℕ, ◌+◌, ◌-◌, ◌/◌, ◌%◌, ◌^◌, ◌≤◌, ◌<◌, String, ◌≡◌, refl, ap, ◌∙◌, Bool, true, false,
  some, List, [], ◌∷◌, arith, nat_eq, All,
}
use dynamic_config_k8s.Agent.Base64.{
  Digit, bits, skipped, foreign, base64, unbase64, decoded, digit_of, symbol, sextet, block,
  shifted, push,
}

abbrev is_bits : Digit → ℕ → Bool
is_bits (bits n) v = nat_eq n v
is_bits skipped v = false
is_bits foreign v = false

is_bits-eq : (d : Digit) (v : ℕ) → is_bits d v ≡ true → d ≡ bits v
is_bits-eq d v h = ground arith

digit_of-symbol : (v : ℕ) → v < 64 → digit_of (code (symbol v)) ≡ bits v
unfolding digit_of char_in
digit_of-symbol v h =
    is_bits-eq (digit_of (code (symbol v))) v
      (below-at 64 (λ n. is_bits (digit_of (code (symbol n))) n) v refl h)

first_byte :
    (r a b c : ℕ)
    → a < 256
    → b < 256
    → c < 256
    → shifted (shifted r (sextet (block a b c) 18)) (sextet (block a b c) 12) / 2 ^ 4 % 256 ≡ a
first_byte r a b c ha hb hc = omega arith

second_byte :
    (r a b c : ℕ)
    → a < 256
    → b < 256
    → c < 256
    → shifted (shifted r (sextet (block a b c) 12)) (sextet (block a b c) 6) / 2 ^ 2 % 256 ≡ b
second_byte r a b c ha hb hc = omega arith

third_byte :
    (r a b c : ℕ)
    → a < 256
    → b < 256
    → c < 256
    → shifted (shifted r (sextet (block a b c) 6)) (sextet (block a b c) 0) / 2 ^ 0 % 256 ≡ c
third_byte r a b c ha hb hc = omega arith

-- One symbol of a chunk, met with fewer than two bits held, and met with enough to end a byte.
decoded-first :
    (r v : ℕ) (s : String)
    → v < 64
    → decoded r 0 (cons_text (symbol v) s) ≡ decoded (shifted r v) 6 s
unfolding decoded
decoded-first r v s h = ground (arith, digit_of-symbol v h)

decoded-next :
    (r held v : ℕ) (s : String)
    → v < 64
    → 2 ≤ held
    → decoded r held (cons_text (symbol v) s)
      ≡ push (shifted r v / 2 ^ (held + 6 - 8) % 256) (decoded (shifted r v) (held + 6 - 8) s)
unfolding decoded
decoded-next r held v s h k = ground (arith, digit_of-symbol v h)

decoded-padding : (r held : ℕ) (s : String) → decoded r held (cons_text "=" s) ≡ decoded r held s
unfolding decoded digit_of
decoded-padding r held s = refl

decoded-nil : (r held : ℕ) → decoded r held "" ≡ some []
unfolding decoded
decoded-nil r held = refl

decoded-equal : (r held : ℕ) → decoded r held "=" ≡ some []
decoded-equal r held = decoded-padding r held "" ∙ decoded-nil r held

decoded-equals : (r held : ℕ) → decoded r held "==" ≡ some []
decoded-equals r held = decoded-padding r held "=" ∙ decoded-equal r held

sextet-lt : (w n : ℕ) → sextet w n < 64
sextet-lt w n = omega arith

decoded-two :
    (r v w : ℕ) (s : String)
    → v < 64
    → w < 64
    → decoded r 0 (cons_text (symbol v) (cons_text (symbol w) s))
      ≡ push (shifted (shifted r v) w / 2 ^ 4 % 256) (decoded (shifted (shifted r v) w) 4 s)
decoded-two r v w s h k = decoded-first r v _ h ∙ decoded-next (shifted r v) 6 w s k (omega arith)

module _ (r a b c : ℕ) (ha : a < 256) (hb : b < 256) (hc : c < 256) where
  abbrev whole : ℕ
  whole = block a b c

  abbrev after_two : ℕ
  after_two = shifted (shifted r (sextet whole 18)) (sextet whole 12)

  decoded-head :
      (s : String)
      → decoded r 0 (cons_text (symbol (sextet whole 18)) (cons_text (symbol (sextet whole 12)) s))
        ≡ push a (decoded after_two 4 s)
  decoded-head s =
      rw
        (
          decoded-two r (sextet whole 18) (sextet whole 12) s (sextet-lt whole 18)
              (sextet-lt whole 12),
          first_byte r a b c ha hb hc,
        )
        refl

  decoded-third :
      (s : String)
      → decoded after_two 4 (cons_text (symbol (sextet whole 6)) s)
        ≡ push b (decoded (shifted after_two (sextet whole 6)) 2 s)
  decoded-third s =
      rw
        (
          decoded-next after_two 4 (sextet whole 6) s (sextet-lt whole 6) (omega arith),
          second_byte (shifted r (sextet whole 18)) a b c ha hb hc,
        )
        refl

  decoded-fourth :
      (s : String)
      → decoded (shifted after_two (sextet whole 6)) 2 (cons_text (symbol (sextet whole 0)) s)
        ≡ push c (decoded (shifted (shifted after_two (sextet whole 6)) (sextet whole 0)) 0 s)
  decoded-fourth s =
      rw
        (
          decoded-next (shifted after_two (sextet whole 6)) 2 (sextet whole 0) s (sextet-lt whole 0)
              (omega arith),
          third_byte after_two a b c ha hb hc,
        )
        refl

decoded-base64 :
    (bytes : List ℕ) (r : ℕ) → All (λ b. b < 256) bytes → decoded r 0 (base64 bytes) ≡ some bytes
unfolding base64
decoded-base64 [] r h = decoded-nil r 0
decoded-base64 (a ∷ []) r (ha, h) =
    rw (decoded-head r a 0 0 ha (omega arith) (omega arith) "==")
      (ap (push a) (decoded-equals (after_two r a 0 0 ha (omega arith) (omega arith)) 4))
decoded-base64 (a ∷ b ∷ []) r (ha, (hb, h)) =
    rw (decoded-head r a b 0 ha hb (omega arith), decoded-third r a b 0 ha hb (omega arith))
      (ap (λ s. push a (push b s))
        (decoded-equal (shifted (after_two r a b 0 ha hb (omega arith)) (sextet (block a b 0) 6))
          2))
decoded-base64 (a ∷ b ∷ c ∷ more) r (ha, (hb, (hc, h))) =
    rw
      (
        decoded-head r a b c ha hb hc,
        decoded-third r a b c ha hb hc,
        decoded-fourth r a b c ha hb hc,
      )
      (ap (λ s. push a (push b (push c s))) (decoded-base64 more _ h))

-- Any bytes come back from their base64 encoding.
pub unbase64-base64 :
    (bytes : List ℕ) → All (λ b. b < 256) bytes → unbase64 (base64 bytes) ≡ some bytes
unfolding unbase64
unbase64-base64 bytes h = decoded-base64 bytes 0 h
