-- ===== src/Webhook/Quantities.antt =====
-- dynamic-config-webhook/src/annotations.rs: quantities, file modes and numeric ids.
pub mod Modes
use Prim.Native.Nat.{bit_and}
use Prim.Native.Char.{Char}
use Prim.Native.String.{[], ◌∷◌}
use dynamic_config_k8s.Prelude.{
  ◌>>=◌, ◌>>◌, ℕ, ◌*◌, ◌/◌, ◌%◌, ◌^◌, String, Bool, not, ◌&&◌, ◌||◌, Option, none, some, List, [],
  ◌∷◌, ltb, leb, nat_eq, if◌then◌else◌, Result, ok, ensure, ok_or,
}
use dynamic_config_k8s.Prelude.Texts.{
  strip_prefix, strip_suffix, parse_unsigned, head_is, all_chars, is_digit, is_lower, is_upper,
}
use dynamic_config_k8s.Webhook.Refusals.{Refusal}

-- a Kubernetes suffix, and how many bytes it stands for
abbrev scales : List (String × ℕ)
scales =
    List.◌∷◌ ("Ki", 1024)
      (List.◌∷◌ ("Mi", 1024 * 1024)
        (List.◌∷◌ ("Gi", 1024 * 1024 * 1024)
          (List.◌∷◌ ("k", 1000)
            (List.◌∷◌ ("M", 1_000_000) (List.◌∷◌ ("G", 1_000_000_000) List.[])))))

-- the first arm of the `match` whose suffix fits
unfoldable pub scaled : List (String × ℕ) → String → String × ℕ
unfolding strip_suffix
scaled List.[] text = (text, 1)
scaled (List.◌∷◌ (suffix, scale) more) text =
    let rest = scaled more text in
    elim (strip_suffix suffix text) [ some number ↦ (number, scale) | none ↦ rest ]

abbrev checked_mul : ℕ → ℕ → ℕ → Option ℕ
checked_mul bits a b = if ltb (a * b) (2 ^ bits) then some (a * b) else none

unfoldable pub bytes_of : String → Option ℕ
bytes_of quantity =
    let (number, scale) = scaled scales quantity in
    elim (parse_unsigned 10 64 number) [ none ↦ none | some n ↦ checked_mul 64 n scale ]

abbrev octal_char : ℕ → Char
octal_char d =
    if nat_eq d 0
    then "0"
    else if nat_eq d 1
    then "1"
    else if nat_eq d 2
    then "2"
    else if nat_eq d 3
    then "3"
    else if nat_eq d 4
    then "4"
    else if nat_eq d 5
    then "5"
    else if nat_eq d 6
    then "6"
    else "7"

-- `format!("{value:o}")` of a value of at most three octal digits
unfoldable pub to_octal : ℕ → String
to_octal v =
    if ltb v 8
    then octal_char v ∷ []
    else if ltb v 64
    then octal_char (v / 8) ∷ octal_char (v % 8) ∷ []
    else octal_char (v / 64) ∷ octal_char (v / 8 % 8) ∷ octal_char (v % 8) ∷ []

abbrev pub without_0o : String → String
without_0o text = elim (strip_prefix "0o" text) [ none ↦ text | some octal ↦ octal ]

unfoldable pub octal_mode : String → String → Result Refusal String
octal_mode context text = do
  value ← ok_or (parse_unsigned 8 32 (without_0o text)) (Refusal.not_octal context text)
  ensure (leb value 0o777) (Refusal.above_0777 context text)
  ensure (not (nat_eq (bit_and value 0o400) 0)) (Refusal.not_owner_readable context text)
  ok (to_octal value)

unfoldable pub sane_quantity : String → Bool
unfolding head_is all_chars
sane_quantity text =
    head_is is_digit text
    && all_chars (λ c. is_digit c || is_lower c || is_upper c || nat_eq c b'.') text

unfoldable pub nonroot_id : String → String → Result Refusal ℕ
nonroot_id context text = do
  id ← ok_or (parse_unsigned 10 32 text) (Refusal.not_numeric_id context text)
  ensure (not (nat_eq id 0)) (Refusal.zero_id context text)
  ok id
