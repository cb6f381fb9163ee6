-- ===== src/Agent/Flat/Escapes.antt =====
-- dynamic-config-agent/src/render.rs, `properties_scalar`: the escapes of a text, and reading them back.
use dynamic_config_k8s.Prelude.Texts.{trim_front, head_is}
use dynamic_config_k8s.Prelude.{◌||◌}
use Prim.Native.Char.{Char, code}
use Prim.Native.String.{[] as nil_text, ◌∷◌ as cons_text}
use dynamic_config_k8s.Prelude.{
  Char-path, ℕ, String, ◌≡◌, refl, sym, ap, ◌∙◌, subst, inl, inr, Bool, true, false, not, ◌&&◌,
  arith, nat_eq, nat_eq_iff, if◌then◌else◌, Bool-cases,
}
use dynamic_config_k8s.Prelude.Texts.{◌⊕◌, replace, all_chars}
use dynamic_config_k8s.Prelude.Texts.Laws.{HasNo}
use dynamic_config_k8s.Agent.Flat.{escaped, properties_scalar}
use dynamic_config_k8s.Json.{Value, text}

-- what a letter stands for behind a backslash; a `u` and four digits, which nothing here writes, are left out
abbrev stands_for : Char → Char
stands_for d =
    if nat_eq (code d) b'n'
    then "\n"
    else if nat_eq (code d) b't'
    then "\t"
    else if nat_eq (code d) b'r'
    then "\r"
    else if nat_eq (code d) b'f'
    then "\u{c}"
    else d

-- how the format reads the characters of a value
unfoldable pub unescaped : String → String
unescaped nil_text = ""
unescaped (cons_text c nil_text) = if nat_eq (code c) 92 then "" else cons_text c ""
unescaped (cons_text c (cons_text d s)) =
    let kept = unescaped (cons_text d s) in
    let taken = unescaped s in
    if nat_eq (code c) 92 then cons_text (stands_for d) taken else cons_text c kept

-- the blanks that the format skips in front of a value: a space, a tab and a form feed
abbrev pub is_blank : ℕ → Bool
is_blank c = nat_eq c b' ' || nat_eq c 9 || nat_eq c 12

-- a value as the format reads it from its line, behind the `=`
abbrev pub read_value : String → String
read_value line = unescaped (trim_front is_blank line)

abbrev pub begins_blank : String → Bool
begins_blank s = head_is is_blank s

-- one character, in one pass
abbrev escape : Char → String
escape c =
    if nat_eq (code c) 92
    then "\\\\"
    else if nat_eq (code c) 61
    then "\\="
    else if nat_eq (code c) 58
    then "\\:"
    else if nat_eq (code c) 10
    then "\\n"
    else cons_text c ""

append_text_assoc : (a b c : String) → (a ⊕ b) ⊕ c ≡ a ⊕ (b ⊕ c)
append_text_assoc nil_text b c = refl
append_text_assoc (cons_text d a) b c = ap (cons_text d) (append_text_assoc a b c)

replace-append :
    (n : ℕ) (with a b : String) → replace n with (a ⊕ b) ≡ replace n with a ⊕ replace n with b
unfolding replace
replace-append n with nil_text b = refl
replace-append n with (cons_text c a) b =
    ap (λ rest. (if nat_eq (code c) n then with else cons_text c "") ⊕ rest)
      (replace-append n with a b)
    ∙ sym (append_text_assoc _ (replace n with a) (replace n with b))

-- what the first pass makes of a character
abbrev first : Char → String
first c = if nat_eq (code c) 92 then "\\\\" else cons_text c ""

-- A character is one of the four that are escaped, or none of them.
by_escape :
    (P : Char → Type 0)
    → P "\\"
    → P "="
    → P ":"
    → P "\n"
    → ((c : Char)
        → nat_eq (code c) 92 ≡ false
        → nat_eq (code c) 61 ≡ false
        → nat_eq (code c) 58 ≡ false
        → nat_eq (code c) 10 ≡ false
        → P c)
    → (c : Char) → P c
by_escape P backslash equals colon newline other c =
    let at : (d : Char) → P d → nat_eq (code c) (code d) ≡ true → P c =
      λ d held e. subst P (sym (Char-path c d ((nat_eq_iff (code c) (code d)).0 e))) held in
    elim (Bool-cases (nat_eq (code c) 92)) [
      | inl e ↦ at "\\" backslash e
      | inr e ↦ elim (Bool-cases (nat_eq (code c) 61)) [
        | inl f ↦ at "=" equals f
        | inr f ↦ elim (Bool-cases (nat_eq (code c) 58)) [
          | inl g ↦ at ":" colon g
          | inr g ↦ elim (Bool-cases (nat_eq (code c) 10)) [
            | inl h ↦ at "\n" newline h
            | inr h ↦ other c e f g h
          ]
        ]
      ]
    ]

later_passes :
    (c : Char) → replace 10 "\\n" (replace 58 "\\:" (replace 61 "\\=" (first c))) ≡ escape c
unfolding replace
later_passes c =
    by_escape (λ d. replace 10 "\\n" (replace 58 "\\:" (replace 61 "\\=" (first d))) ≡ escape d)
      refl refl refl refl (λ d e f g h. rw (e, f, g, h) refl) c

-- The passes do what one pass over the characters does.
escaped-cons : (c : Char) (s : String) → escaped (cons_text c s) ≡ escape c ⊕ escaped s
unfolding replace
escaped-cons c s =
    ap (λ t. replace 10 "\\n" (replace 58 "\\:" t))
      (replace-append 61 "\\=" (first c) (replace 92 "\\\\" s))
    ∙ ap (replace 10 "\\n") (
        replace-append 58 "\\:" (replace 61 "\\=" (first c))
          (replace 61 "\\=" (replace 92 "\\\\" s)))
    ∙ replace-append 10 "\\n" (replace 58 "\\:" (replace 61 "\\=" (first c)))
        (replace 58 "\\:" (replace 61 "\\=" (replace 92 "\\\\" s)))
    ∙ ap (λ front. front ⊕ escaped s) (later_passes c)

unescaped-plain :
    (c : Char) (t : String)
    → nat_eq (code c) 92 ≡ false
    → unescaped (cons_text c t) ≡ cons_text c (unescaped t)
unfolding unescaped
unescaped-plain c nil_text e = rw e refl
unescaped-plain c (cons_text d t) e = rw e refl

unescaped-escape : (c : Char) (t : String) → unescaped (escape c ⊕ t) ≡ cons_text c (unescaped t)
unfolding unescaped
unescaped-escape c t =
    by_escape (λ d. unescaped (escape d ⊕ t) ≡ cons_text d (unescaped t)) refl refl refl refl
      (λ d e f g h. rw (e, f, g, h) (unescaped-plain d t e)) c

unescaped-nothing : unescaped (escaped "") ≡ ""
unfolding unescaped replace
unescaped-nothing = refl

-- A text is read back as it was written, whatever characters it has.
unescaped-escaped : (s : String) → unescaped (escaped s) ≡ s
unescaped-escaped nil_text = unescaped-nothing
unescaped-escaped (cons_text c s) =
    ap unescaped (escaped-cons c s)
    ∙ unescaped-escape c (escaped s)
    ∙ ap (cons_text c) (unescaped-escaped s)

all_chars-append :
    (p : ℕ → Bool) (a b : String) → all_chars p (a ⊕ b) ≡ all_chars p a && all_chars p b
unfolding all_chars
all_chars-append p nil_text b = refl
all_chars-append p (cons_text c a) b = ground (arith, all_chars-append p a b)

-- what ends a line
abbrev ends_line : ℕ → Bool
ends_line c = nat_eq c 10 || nat_eq c 13

abbrev pub OnLine : String → Type 0
OnLine s = all_chars (λ c. not (ends_line c)) s ≡ true

escape-OnLine : (c : Char) → nat_eq (code c) 13 ≡ false → OnLine (escape c)
unfolding all_chars
escape-OnLine c =
    by_escape (λ d. nat_eq (code d) 13 ≡ false → OnLine (escape d)) (λ _. refl) (λ _. refl)
      (λ _. refl) (λ _. refl) (λ d e f g h k. rw (e, f, g, h, h, k) refl) c

escaped-OnLine : (s : String) → HasNo 13 s → OnLine (escaped s)
unfolding all_chars replace
escaped-OnLine nil_text h = refl
escaped-OnLine (cons_text c s) h =
    let on_line : ℕ → Bool = λ n. not (ends_line n) in
    ap (all_chars on_line) (escaped-cons c s)
    ∙ all_chars-append on_line (escape c) (escaped s)
    ∙ rw (escape-OnLine c (ground arith), escaped-OnLine s (ground arith)) refl

trim-plain :
    (d : Char) (t : String)
    → is_blank (code d) ≡ false
    → trim_front is_blank (cons_text d t) ≡ cons_text d t
unfolding trim_front
trim-plain d t k = rw (trim_front, k) refl

-- the escapes put no blank in front
trim-escape :
    (c : Char) (t : String)
    → is_blank (code c) ≡ false
    → trim_front is_blank (escape c ⊕ t) ≡ escape c ⊕ t
unfolding trim_front
trim-escape c t =
    by_escape (λ d. is_blank (code d) ≡ false → trim_front is_blank (escape d ⊕ t) ≡ escape d ⊕ t)
      (λ _. refl) (λ _. refl) (λ _. refl) (λ _. refl)
      (λ d e f g h k. rw (e, f, g, h) (trim-plain d t k)) c

trim-escaped : (s : String) → begins_blank s ≡ false → trim_front is_blank (escaped s) ≡ escaped s
unfolding head_is trim_front replace
trim-escaped nil_text h = refl
trim-escaped (cons_text c s) h =
    ap (trim_front is_blank) (escaped-cons c s)
    ∙ trim-escape c (escaped s) h
    ∙ sym (escaped-cons c s)

-- A text that does not begin with a blank and has no carriage return stays on its line, and is read back
-- from it as it was, whatever else it has. (Neither is escaped: the format skips the one and ends the line
-- at the other.)
pub unescaped-properties_scalar :
    (to_string : Value → String) (s : String)
    → begins_blank s ≡ false
    → HasNo 13 s
    → (read_value (properties_scalar to_string (text s)) ≡ s)
      × OnLine (properties_scalar to_string (text s))
unfolding properties_scalar
unescaped-properties_scalar to_string s plain h =
    (ap unescaped (trim-escaped s plain) ∙ unescaped-escaped s, escaped-OnLine s h)
