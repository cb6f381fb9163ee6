-- ===== src/Agent/Canary.antt =====
-- dynamic-config-agent/src/canary.rs: which pods take a new document first. The hash is the sha2 crate's
-- function, an argument here; of its digest the code reads two bytes.
pub mod Cohort
use dynamic_config_k8s.Prelude.{
  ℕ, ◌+◌, ◌*◌, ◌%◌, ◌^◌, min, String, Bool, true, Option, none, some, ltb,
}
use dynamic_config_k8s.Prelude.Texts.{parse_unsigned, trim}

abbrev pub Digest : Type 0
Digest = String → ℕ × ℕ

unfoldable pub bucket : Digest → String → ℕ
bucket sha pod = ((sha pod).0 * 2 ^ 8 + (sha pod).1) % 100

-- what stands in the file, if it could be read
unfoldable pub percent : Option String → Option ℕ
unfolding trim parse_unsigned
percent none = none
percent (some text) = elim (parse_unsigned 10 16 (trim text)) [
  | none ↦ none
  | some value ↦ some (min value 100)
]

unfoldable pub admitted : ℕ → Option ℕ → Bool
admitted cohort none = true
admitted cohort (some percent) = ltb cohort percent
