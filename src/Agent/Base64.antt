-- ===== src/Agent/Base64.antt =====
-- dynamic-config-agent/src/render.rs: `base64` and `unbase64`, the filters of a template that carry bytes.
-- A byte is a number; the register of the decoder is a `u32`, whose shift drops the bits past 32.
mod Laws
mod Tests
use dynamic_config_k8s.Prelude.Texts.{char_in}
use dynamic_config_k8s.Prelude.Texts.{is_digit, is_lower, is_upper}
use Prim.Native.Char.{Char, code}
use Prim.Native.String.{String, [] as nil_text, ◌∷◌ as cons_text}
use dynamic_config_k8s.Prelude.{
  ℕ, ◌+◌, ◌-◌, ◌*◌, ◌/◌, ◌%◌, ◌^◌, String, ◌||◌, Option, none, some, List, [], ◌∷◌, leb, nat_eq,
  if◌then◌else◌,
}

abbrev alphabet : String
alphabet = "ABCDEFGHIJKLMNOPQRSTUVWXYZabcdefghijklmnopqrstuvwxyz0123456789+/"

-- `ALPHABET[position]`; no position is past the table
abbrev pub symbol : ℕ → Char
symbol position = char_in "=" alphabet position

-- the block of a chunk, its missing bytes zero
abbrev block : ℕ → ℕ → ℕ → ℕ
block a b c = a * 2 ^ 16 + b * 2 ^ 8 + c

abbrev sextet : ℕ → ℕ → ℕ
sextet whole shift = whole / 2 ^ shift % 64

-- the four symbols of a chunk of `count` bytes
abbrev symbols : ℕ → ℕ → String → String
symbols whole count rest =
    let at : ℕ → ℕ → Char =
      λ index shift. if leb index count then symbol (sextet whole shift) else "=" in
    cons_text (at 0 18) (cons_text (at 1 12) (cons_text (at 2 6) (cons_text (at 3 0) rest)))

unfoldable pub base64 : List ℕ → String
base64 [] = ""
base64 (a ∷ []) = symbols (block a 0 0) 1 ""
base64 (a ∷ b ∷ []) = symbols (block a b 0) 2 ""
base64 (a ∷ b ∷ c ∷ more) = symbols (block a b c) 3 (base64 more)

-- what a character says: six bits, nothing, or that the text is not base64
pub data Digit : Type 0 where
  bits : ℕ → Digit
  skipped : Digit
  foreign : Digit

unfoldable pub digit_of : ℕ → Digit
digit_of c =
    if is_upper c
    then bits (c - b'A')
    else if is_lower c
    then bits (c - b'a' + 26)
    else if is_digit c
    then bits (c - b'0' + 52)
    else if nat_eq c 43
    then bits 62
    else if nat_eq c 47
    then bits 63
    else if nat_eq c 61 || nat_eq c 10 || nat_eq c 13
    then skipped
    else foreign

-- `bits << 6 | value` on a `u32`; a value is below 64, so that `|` is a sum
abbrev shifted : ℕ → ℕ → ℕ
shifted register value = register * 2 ^ 6 % 2 ^ 32 + value

abbrev push : ℕ → Option (List ℕ) → Option (List ℕ)
push byte none = none
push byte (some later) = some (byte ∷ later)

-- the loop: its register, how many bits of it are held, and the characters to come
unfoldable pub decoded : ℕ → ℕ → String → Option (List ℕ)
decoded register held nil_text = some []
decoded register held (cons_text c s) = elim (digit_of (code c)) [
  | bits value ↦
      let next = shifted register value in
      let full = decoded next (held + 6 - 8) s in
      let short = decoded next (held + 6) s in
      if leb 8 (held + 6) then push (next / 2 ^ (held + 6 - 8) % 256) full else short
  | skipped ↦ decoded register held s
  | foreign ↦ none
]

unfoldable pub unbase64 : String → Option (List ℕ)
unfolding decoded
unbase64 text = decoded 0 0 text
