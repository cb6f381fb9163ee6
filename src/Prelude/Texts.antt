-- ===== src/Prelude/Texts.antt =====
-- The operations of `str` that the program uses, over native texts by recursion on their characters.
-- A pattern of one character is its code point; `split` and the like go by characters, as in Rust.
pub mod Laws
use Prim.Native.Char.{Char, code}
use Prim.Native.String.{String, [], ◌∷◌}
use Prim.Native.Nat.{ℕ, ◌+◌, ◌-◌, ◌*◌, ◌^◌}
use mathlib.Core.Bool.{Bool, true, false, ◌&&◌, ◌||◌}
use mathlib.Core.Option.{Option, none, some}
use mathlib.Core.List.{List}
use dynamic_config_k8s.Prelude.Tests.{ltb, leb, nat_eq, if◌then◌else◌, ◌==◌}

abbrev pub is_char : ℕ → Char → Bool
is_char n c = nat_eq (code c) n

abbrev pub is_none {ℓ} : {A : Type ℓ} → Option A → Bool
is_none none = true
is_none (some _) = false

abbrev pub is_some {ℓ} : {A : Type ℓ} → Option A → Bool
is_some none = false
is_some (some _) = true

-- `c.is_ascii_digit()` and its kin
abbrev pub is_digit : ℕ → Bool
is_digit c = leb b'0' c && leb c b'9'

abbrev pub is_lower : ℕ → Bool
is_lower c = leb b'a' c && leb c b'z'

abbrev pub is_upper : ℕ → Bool
is_upper c = leb b'A' c && leb c b'Z'

-- `char::is_whitespace`
unfoldable pub is_whitespace : ℕ → Bool
is_whitespace c =
    (leb 9 c && leb c 13)
    || nat_eq c 32
    || nat_eq c 0x85
    || nat_eq c 0xa0
    || nat_eq c 0x1680
    || (leb 0x2000 c && leb c 0x200a)
    || nat_eq c 0x2028
    || nat_eq c 0x2029
    || nat_eq c 0x202f
    || nat_eq c 0x205f
    || nat_eq c 0x3000

-- concatenation, by clauses, so that it computes at `c ∷ s`
infixr 66 ◌⊕◌
abbrev pub ◌⊕◌ : String → String → String
[] ⊕ t = t
(c ∷ s) ⊕ t = c ∷ (s ⊕ t)

unfoldable pub empty_text : String → Bool
empty_text [] = true
empty_text (c ∷ s) = false

unfoldable pub all_chars : (ℕ → Bool) → String → Bool
all_chars p [] = true
all_chars p (c ∷ s) = p (code c) && all_chars p s

unfoldable pub any_char : (ℕ → Bool) → String → Bool
any_char p [] = false
any_char p (c ∷ s) = p (code c) || any_char p s

-- `s.chars().next().is_some_and(p)`
unfoldable pub head_is : (ℕ → Bool) → String → Bool
head_is p [] = false
head_is p (c ∷ s) = p (code c)

unfoldable pub strip_prefix : String → String → Option String
strip_prefix [] s = some s
strip_prefix (c ∷ p) [] = none
strip_prefix (c ∷ p) (d ∷ s) =
    let rest = strip_prefix p s in if is_char (code c) d then rest else none

unfoldable pub starts_with : String → String → Bool
unfolding strip_prefix
starts_with p s = is_some (strip_prefix p s)

abbrev prepend : Char → Option String → Option String
prepend c none = none
prepend c (some s) = some (c ∷ s)

-- the part before the one place where the rest is the suffix
unfoldable pub strip_suffix : String → String → Option String
strip_suffix p [] = if p == "" then some "" else none
strip_suffix p (c ∷ s) =
    let rest = strip_suffix p s in if p == (c ∷ s) then some "" else prepend c rest

unfoldable pub trim_start : String → String
unfolding is_whitespace
trim_start [] = []
trim_start (c ∷ s) = let rest = trim_start s in if is_whitespace (code c) then rest else c ∷ s

unfoldable pub trim_end : String → String
unfolding is_whitespace empty_text
trim_end [] = []
trim_end (c ∷ s) =
    let rest = trim_end s in if is_whitespace (code c) && empty_text rest then [] else c ∷ rest

unfoldable pub trim : String → String
unfolding trim_start trim_end
trim s = trim_start (trim_end s)

abbrev prepend_left : Char → Option (String × String) → Option (String × String)
prepend_left c none = none
prepend_left c (some (a, b)) = some (c ∷ a, b)

unfoldable pub split_once : ℕ → String → Option (String × String)
split_once n [] = none
split_once n (c ∷ s) =
    let rest = split_once n s in if is_char n c then some ([], s) else prepend_left c rest

-- the last separator, rather than the first
unfoldable pub rsplit_once : ℕ → String → Option (String × String)
rsplit_once n [] = none
rsplit_once n (c ∷ s) = elim (rsplit_once n s) [
  | some (a, b) ↦ some (c ∷ a, b)
  | none ↦ if is_char n c then some ([], s) else none
]

-- `s.trim_matches(p)` at the front and at the back
unfoldable pub trim_front : (ℕ → Bool) → String → String
trim_front p [] = []
trim_front p (c ∷ s) = let rest = trim_front p s in if p (code c) then rest else c ∷ s

unfoldable pub trim_back : (ℕ → Bool) → String → String
unfolding empty_text
trim_back p [] = []
trim_back p (c ∷ s) =
    let rest = trim_back p s in if p (code c) && empty_text rest then [] else c ∷ rest

abbrev pub prepend_head : Char → List String → List String
prepend_head c List.[] = List.◌∷◌ (c ∷ []) List.[]
prepend_head c (List.◌∷◌ a more) = List.◌∷◌ (c ∷ a) more

unfoldable pub split : ℕ → String → List String
split n [] = List.◌∷◌ [] List.[]
split n (c ∷ s) =
    let rest = split n s in if is_char n c then List.◌∷◌ [] rest else prepend_head c rest

-- `Path::join` of a relative path, as text: one slash between the two, unless the first is empty or ends
-- with one
unfoldable pub path_join : String → String → String
path_join [] relative = relative
path_join (c ∷ []) relative = if is_char b'/' c then c ∷ relative else c ∷ "/" ∷ relative
path_join (c ∷ d ∷ more) relative = c ∷ path_join (d ∷ more) relative

-- the character at a position of a table, or another one past its end
unfoldable pub char_in : Char → String → ℕ → Char
char_in past [] position = past
char_in past (c ∷ more) position =
    let rest = char_in past more (position - 1) in if nat_eq position 0 then c else rest

-- `c.to_ascii_uppercase()`
abbrev pub ascii_upper : Char → Char
ascii_upper c =
    if is_lower (code c) then char_in c "ABCDEFGHIJKLMNOPQRSTUVWXYZ" (code c - b'a') else c

-- `s.chars().map(f).collect()`
unfoldable pub map_chars : (Char → Char) → String → String
map_chars f [] = []
map_chars f (c ∷ s) = f c ∷ map_chars f s

-- `s.replace(c, with)`, for a pattern of one character
unfoldable pub replace : ℕ → String → String → String
replace n with [] = []
replace n with (c ∷ s) = (if is_char n c then with else c ∷ []) ⊕ replace n with s

unfoldable pub join : String → List String → String
join sep List.[] = []
join sep (List.◌∷◌ a List.[]) = a
join sep (List.◌∷◌ a (List.◌∷◌ b more)) = a ⊕ sep ⊕ join sep (List.◌∷◌ b more)

-- the digits of a number below the base, most significant first
unfoldable pub digits_value : ℕ → ℕ → String → Option ℕ
digits_value base acc [] = some acc
digits_value base acc (c ∷ s) =
    if leb b'0' (code c) && ltb (code c) (b'0' + base)
    then digits_value base (acc * base + (code c - b'0')) s
    else none

-- `from_str_radix` and `parse` of an unsigned type: digits behind one `+` at most, not none, in range
unfoldable pub parse_unsigned : ℕ → ℕ → String → Option ℕ
unfolding digits_value empty_text
parse_unsigned base bits [] = none
parse_unsigned base bits (c ∷ s) =
    let body = if is_char b'+' c then s else c ∷ s in
    if empty_text body then none else elim (digits_value base 0 body) [
      | none ↦ none
      | some n ↦ if ltb n (2 ^ bits) then some n else none
    ]

-- `Path::parent`, as text: what stands before the last slash, the root for a path right below it, and
-- nothing for an empty path or the root
unfoldable pub parent : String → Option String
unfolding rsplit_once empty_text
parent path = if empty_text path || path == "/" then none else elim (rsplit_once b'/' path) [
  | none ↦ some ""
  | some (front, name) ↦ if empty_text front then some "/" else some front
]
