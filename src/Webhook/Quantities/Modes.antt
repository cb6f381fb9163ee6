-- ===== src/Webhook/Quantities/Modes.antt =====
-- dynamic-config-webhook/src/annotations.rs: what a file mode, an id and a number of bytes can be.
use Prim.Native.Nat.{bit_and}
use dynamic_config_k8s.Prelude.{
  ℕ, zero, suc, ◌^◌, ◌≤◌, ◌<◌, String, ◌≡◌, refl, ap, inl, inr, Bool, true, false, not, ◌&&◌, ◌||◌,
  some, arith, nat_eq, Option-cases, ◌==◌, eq_iff, Result, ok, err,
}
use dynamic_config_k8s.Prelude.Texts.{parse_unsigned, strip_prefix}
use dynamic_config_k8s.Prelude.Texts.Laws.{parse_unsigned-lt}
use dynamic_config_k8s.Webhook.Refusals.{Refusal}
use dynamic_config_k8s.Webhook.Quantities.{octal_mode, without_0o, to_octal, nonroot_id, bytes_of}

-- A small range is checked value by value.
-- a test of every number under a bound
unfoldable pub passes_under : (ℕ → Bool) → ℕ → Bool
passes_under test zero = true
passes_under test (suc m) = passes_under test m && test m

pub passes_under-at :
    (test : ℕ → Bool) (m x : ℕ) → x < m → passes_under test m ≡ true → test x ≡ true
unfolding passes_under
passes_under-at test zero x small h = absurd (omega arith)
passes_under-at test (suc m) x small h = ground (arith, passes_under-at test m x)

abbrev pub owner_reads : ℕ → Bool
owner_reads v = not (nat_eq (bit_and v 0o400) 0)

abbrev gives : Result Refusal String → String → Bool
gives (ok s) t = s == t
gives (err _) t = false

gives-ok : (r : Result Refusal String) (t : String) → gives r t ≡ true → r ≡ ok t
gives-ok (ok s) t h = ap ok ((eq_iff s t).0 h)
gives-ok (err e) t h = cc

-- the mode is printed and read again as itself
comes_back : String → ℕ → Bool
comes_back other v = not (owner_reads v) || gives (octal_mode other (to_octal v)) (to_octal v)

all_come_back : (other : String) → passes_under (comes_back other) 512 ≡ true
unfolding passes_under comes_back octal_mode parse_unsigned to_octal strip_prefix
all_come_back other = refl

comes_back-eq :
    (other : String) (v : ℕ)
    → owner_reads v ≡ true
    → comes_back other v ≡ true
    → octal_mode other (to_octal v) ≡ ok (to_octal v)
unfolding comes_back
comes_back-eq other v reads h = gives-ok (octal_mode other (to_octal v)) (to_octal v) (ground arith)

pub octal_mode-eq-ok :
    (context text s : String)
    → octal_mode context text ≡ ok s
    → (v : ℕ) × (parse_unsigned 8 32 (without_0o text) ≡ some v)
      × (v < 512)
      × (owner_reads v ≡ true)
      × (s ≡ to_octal v)
unfolding octal_mode
octal_mode-eq-ok context text s h = elim (Option-cases (parse_unsigned 8 32 (without_0o text))) [
  | inl e ↦ cc (rw (e, octal_mode) at h)
  | inr (v, e) ↦ (v, e, ground arith, ground arith, ground arith)
]

-- A mode that passes is at most 0777 and lets the owner read, and its printed form is its own printed
-- form: it can be given again, in any context, and comes back unchanged.
pub octal_mode-again :
    (context text s : String)
    → octal_mode context text ≡ ok s
    → (v : ℕ) × (v ≤ 0o777)
      × (owner_reads v ≡ true)
      × (s ≡ to_octal v)
      × ((other : String) → octal_mode other s ≡ ok s)
octal_mode-again context text s h =
    let (v, parsed, small, reads, printed) = octal_mode-eq-ok context text s h in
    (
      v,
      omega arith,
      reads,
      printed,
      λ other. rw printed (
          comes_back-eq other v reads
            (passes_under-at (comes_back other) 512 v small (all_come_back other))),
    )

-- An id that passes is not root's, and fits in 32 bits.
pub nonroot_id_bounds :
    (context text : String) (id : ℕ)
    → nonroot_id context text ≡ ok id
    → (0 < id) × (id < 2 ^ 32) × (parse_unsigned 10 32 text ≡ some id)
unfolding nonroot_id
nonroot_id_bounds context text id h = elim (Option-cases (parse_unsigned 10 32 text)) [
  | inl e ↦ cc (rw (e, nonroot_id) at h)
  | inr (v, e) ↦
      let same : v ≡ id = ground arith in
      (ground arith, rw same at (parse_unsigned-lt 10 32 text v e), rw same at e)
]

bytes_of-lt : (quantity : String) (n : ℕ) → bytes_of quantity ≡ some n → n < 2 ^ 64
unfolding bytes_of
bytes_of-lt quantity n h = ground arith
