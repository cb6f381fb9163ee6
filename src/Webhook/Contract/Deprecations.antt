-- ===== src/Webhook/Contract/Deprecations.antt =====
-- dynamic-config-webhook/src/annotations.rs: which keys warn.
use dynamic_config_k8s.Prelude.{
  String, ◌≡◌, refl, inl, inr, Option, none, some, List, [], ◌∷◌, arith, Option-cases, All,
}
use dynamic_config_k8s.Prelude.Texts.{◌⊕◌, strip_prefix, split_once}
use dynamic_config_k8s.Prelude.Texts.Laws.{HasNo, split_once-append, split_once-none}
use dynamic_config_k8s.Webhook.Contract.{
  warning_named, AnnotationSpec, prefix, registry, Warning, base_of, retired, warning_for,
  deprecation_warnings, deprecations,
}

abbrev pub IsLive : AnnotationSpec → Type 0
IsLive spec = spec.deprecated_since ≡ none

retired-live :
    (table : List AnnotationSpec) (base : String) → All IsLive table → retired table base ≡ none
unfolding retired
retired-live [] base h = refl
retired-live (spec ∷ table) base h = ground (arith, retired-live table base h.1)

warning_for-live :
    (table : List AnnotationSpec) (key : String) → All IsLive table → warning_for table key ≡ none
unfolding warning_for warning_named
warning_for-live table key h = elim (Option-cases (strip_prefix prefix key)) [
  | inl e ↦ rw (e, warning_for)
  | inr (name, e) ↦ ground (arith, e, retired-live table (base_of name) h)
]

-- A table that retires nothing warns about nothing.
pub deprecation_warnings-live :
    (table : List AnnotationSpec) (keys : List String)
    → All IsLive table
    → deprecation_warnings table keys ≡ []
unfolding deprecation_warnings
deprecation_warnings-live table [] h = refl
deprecation_warnings-live table (key ∷ keys) h =
    ground (arith, warning_for-live table key h, deprecation_warnings-live table keys h)

registry-IsLive : All IsLive registry
unfolding registry
registry-IsLive = ground arith

-- The contract has retired no key: whatever a pod sets, there is no warning.
pub deprecations-nil : (keys : List String) → deprecations keys ≡ []
unfolding deprecations
deprecations-nil keys = deprecation_warnings-live registry keys registry-IsLive

-- the warning for another spelling of the same base
abbrev pub renamed : String → Option Warning → Option Warning
renamed key none = none
renamed key (some w) = some (record w { key = key })

warning_for-prefix :
    (table : List AnnotationSpec) (name : String)
    → warning_for table (prefix ⊕ name) ≡ warning_named table name
unfolding warning_for
warning_for-prefix table name = refl

dot_first : (suffix : String) → split_once b'.' ("." ⊕ suffix) ≡ some ("", suffix)
unfolding split_once
dot_first suffix = refl

warning_named-suffix :
    (table : List AnnotationSpec) (base suffix : String)
    → HasNo b'.' base
    → warning_named table (base ⊕ "." ⊕ suffix)
      ≡ renamed (prefix ⊕ base ⊕ "." ⊕ suffix) (warning_named table base)
unfolding warning_named
warning_named-suffix table base suffix h = ground (
  arith,
  split_once-append b'.' base suffix ("." ⊕ suffix) h (dot_first suffix),
  split_once-none b'.' base h,
)

-- The key of a named render, whose base holds no dot, warns exactly if its base does, with the same
-- release and the same replacement, under its own spelling.
pub warning_for-suffix :
    (table : List AnnotationSpec) (base suffix : String)
    → HasNo b'.' base
    → warning_for table (prefix ⊕ base ⊕ "." ⊕ suffix)
      ≡ renamed (prefix ⊕ base ⊕ "." ⊕ suffix) (warning_for table (prefix ⊕ base))
warning_for-suffix table base suffix h =
    rw (warning_for-prefix, warning_for-prefix) (warning_named-suffix table base suffix h)
