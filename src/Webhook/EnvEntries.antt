-- ===== src/Webhook/EnvEntries.antt =====
-- dynamic-config-webhook/src/annotations.rs: `env_entries`, the list of NAME=value pairs of an annotation.
pub mod Laws
use dynamic_config_k8s.Prelude.{
  ◌>>=◌, ◌>>◌, ◌+◌, String, Bool, not, ◌&&◌, List, [], ◌∷◌, ◌++◌, if◌then◌else◌, ◌==◌, is_empty,
  any, Result, ok, ensure, ok_or,
}
use dynamic_config_k8s.Prelude.Texts.{empty_text, all_chars, head_is, trim, split, split_once}
use dynamic_config_k8s.Webhook.Refusals.{Refusal}
use dynamic_config_k8s.Webhook.Scopes.{env_head, env_char}

abbrev pub Entry : Type 0
Entry = String × String

unfoldable pub upper_snake : String → Bool
upper_snake name = head_is env_head name && all_chars env_char name

abbrev pub sets : List Entry → String → Bool
sets entries name = any (λ e. e.0 == name) entries

-- one round of the loop, on a piece that is not blank
unfoldable pub add_entry : String → List Entry → String → Result Refusal (List Entry)
unfolding upper_snake
add_entry context entries entry = do
  halves ← ok_or (split_once b'=' entry) (Refusal.not_a_pair context entry)
  let name = trim halves.0
  ensure (upper_snake name) (Refusal.not_upper_snake context name)
  ensure (not (sets entries name)) (Refusal.set_twice context name)
  ok (entries ++ (name, halves.1) ∷ [])

unfoldable pub add_entries : String → List Entry → List String → Result Refusal (List Entry)
unfolding add_entry
add_entries context entries [] = ok entries
add_entries context entries (piece ∷ more) =
    let entry = trim piece in
    let skipped = add_entries context entries more in
    if empty_text entry
    then skipped
    else (do longer ← add_entry context entries entry; add_entries context longer more)

unfoldable pub env_entries : String → String → Result Refusal (List Entry)
unfolding add_entries
env_entries context text = do
  entries ← add_entries context [] (split b',' text)
  ensure (not (is_empty entries)) (Refusal.names_nothing context)
  ok entries
