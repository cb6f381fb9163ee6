-- ===== src/Webhook/EnvEntries/Laws.antt =====
-- dynamic-config-webhook/src/annotations.rs: what a list of pairs that passes holds.
use dynamic_config_k8s.Prelude.{
  String, ◌≡◌, refl, inl, inr, true, false, List, [], ◌∷◌, ◌++◌, arith, Bool-cases, ◌==◌, eq_iff,
  is_empty, ok, ok_or, >>=-eq-ok,
}
use dynamic_config_k8s.Prelude.Texts.{empty_text, trim, split, split_once}
use dynamic_config_k8s.Webhook.Refusals.{Refusal}
use dynamic_config_k8s.Webhook.EnvEntries.{
  Entry, upper_snake, sets, add_entry, add_entries, env_entries,
}

-- every name is UPPER_SNAKE, and no name is set twice
abbrev pub IsClean : List Entry → Type 0
IsClean [] = Unit
IsClean (e ∷ more) = (upper_snake e.0 ≡ true) × (sets more e.0 ≡ false) × IsClean more

sets-snoc :
    (entries : List Entry) (name : String) (e : Entry)
    → sets entries name ≡ false
    → (e.0 == name) ≡ false
    → sets (entries ++ e ∷ []) name ≡ false
sets-snoc [] name e h k = ground arith
sets-snoc (x ∷ more) name e h k = ground (arith, sets-snoc more name e)

IsClean-snoc :
    (entries : List Entry) (e : Entry)
    → IsClean entries
    → upper_snake e.0 ≡ true
    → sets entries e.0 ≡ false
    → IsClean (entries ++ e ∷ [])
IsClean-snoc [] e h u n = (u, refl, tt)
IsClean-snoc (x ∷ more) e h u n = (
  h.0,
  sets-snoc more x.0 e h.1 (ground (arith, eq_iff x.0 e.0, eq_iff e.0 x.0)),
  IsClean-snoc more e h.2 u (ground arith),
)

add_entry-IsClean :
    (context entry : String) (entries longer : List Entry)
    → IsClean entries
    → add_entry context entries entry ≡ ok longer
    → IsClean longer
unfolding add_entry
add_entry-IsClean context entry entries longer h e =
    let (halves, split, e') =
      >>=-eq-ok (ok_or (split_once b'=' entry) (Refusal.not_a_pair context entry)) _ e in
    ground (arith, IsClean-snoc entries (trim halves.0, halves.1) h)

add_entries-IsClean :
    (context : String) (entries result : List Entry) (pieces : List String)
    → IsClean entries
    → add_entries context entries pieces ≡ ok result
    → IsClean result
unfolding add_entries
add_entries-IsClean context entries result [] h e = ground arith
add_entries-IsClean context entries result (piece ∷ more) h e =
    elim (Bool-cases (empty_text (trim piece))) [
      | inl blank ↦ add_entries-IsClean context entries result more h (rw (blank, add_entries) at e)
      | inr filled ↦
          let e' = rw (filled, add_entries) at e in
          let (longer, added, e'') = >>=-eq-ok (add_entry context entries (trim piece)) _ e' in
          add_entries-IsClean context longer result more
            (add_entry-IsClean context (trim piece) entries longer h added) e''
    ]

-- A list of variables that passes names something; every name is UPPER_SNAKE, and none is set twice.
pub env_entries-IsClean :
    (context text : String) (entries : List Entry)
    → env_entries context text ≡ ok entries
    → IsClean entries × (is_empty entries ≡ false)
unfolding env_entries
env_entries-IsClean context text entries h =
    let (found, e, h') = >>=-eq-ok (add_entries context [] (split b',' text)) _ h in
    let clean = add_entries-IsClean context [] found (split b',' text) tt e in ground (arith, clean)
