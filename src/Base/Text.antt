-- ===== src/Base/Text.antt =====
-- The functions of Go's strings package that the program calls, on texts as lists of characters.
use Prim.Native.Nat.{ℕ, zero, suc, ◌+◌, ◌-◌}
use mathlib.Core.Path.{◌≡◌, refl, ap, ◌∙◌}
use text.Mathlib.TextLemmas.{nil-append, cons-append}
use native.Mathlib.Omega.{arith}
use Prim.Native.Char.{code}
use Prim.Native.String.{String, ◌++◌ as cat}
use mathlib.Core.Bool.{Bool, true, false, not, ◌&&◌, ◌||◌}
use mathlib.Core.Option.{Option, none, some}
use text.Mathlib.Text.{◌==◌ as str_eq}
use fi_mcp_kit.Base.Tests.{leb, eqb, if◌then◌else◌}

-- strings.HasPrefix
unfoldable pub has_prefix : String → String → Bool
has_prefix s String.[] = true
has_prefix String.[] (String.◌∷◌ d t) = false
has_prefix (String.◌∷◌ c s) (String.◌∷◌ d t) = eqb (code c) (code d) && has_prefix s t

-- strings.HasSuffix
unfoldable pub has_suffix : String → String → Bool
has_suffix String.[] t = str_eq "" t
has_suffix (String.◌∷◌ c s) t = str_eq (String.◌∷◌ c s) t || has_suffix s t

-- What stands behind a prefix, where the text has it: strings.CutPrefix.
unfoldable pub strip_prefix : String → String → Option String
strip_prefix String.[] s = some s
strip_prefix (String.◌∷◌ d p) String.[] = none
strip_prefix (String.◌∷◌ d p) (String.◌∷◌ c s) =
    let rest = strip_prefix p s in if eqb (code c) (code d) then rest else none

unfoldable pub text_length : String → ℕ
text_length String.[] = 0
text_length (String.◌∷◌ c s) = suc (text_length s)

-- What stands before and behind the first occurrence: strings.Cut.
unfoldable pub cut_text : String → String → Option (String × String)
unfolding strip_prefix
cut_text sep String.[] = none
cut_text sep (String.◌∷◌ c s) = elim (strip_prefix sep (String.◌∷◌ c s)) [
  | some rest ↦ some ("", rest)
  | none ↦ elim (cut_text sep s) [ none ↦ none | some (a, b) ↦ some (String.◌∷◌ c a, b) ]
]

replace_text_from : String → String → ℕ → String → String
unfolding strip_prefix text_length
replace_text_from token new n String.[] = ""
replace_text_from token new (suc n) (String.◌∷◌ c s) = replace_text_from token new n s
replace_text_from token new zero (String.◌∷◌ c s) = elim (strip_prefix token (String.◌∷◌ c s)) [
  | none ↦ String.◌∷◌ c (replace_text_from token new 0 s)
  | some rest ↦ cat new (replace_text_from token new (text_length token - 1) s)
]

-- Every occurrence of a text that is not empty, from the left: strings.ReplaceAll.
unfoldable pub replace_text : String → String → String → String
unfolding replace_text_from
replace_text token new s = replace_text_from token new 0 s

-- strings.Contains
unfoldable pub contains_text : String → String → Bool
unfolding has_prefix
contains_text String.[] t = str_eq t ""
contains_text (String.◌∷◌ c s) t = has_prefix (String.◌∷◌ c s) t || contains_text s t

pub has_prefix_found : (s p : String) → has_prefix s p ≡ false → strip_prefix p s ≡ none
unfolding has_prefix strip_prefix
has_prefix_found s String.[] h = cc
has_prefix_found String.[] (String.◌∷◌ d p) h = refl
has_prefix_found (String.◌∷◌ c s) (String.◌∷◌ d p) h = ground (arith, h, has_prefix_found s p)

replace_text_from-absent :
    (token new s : String) → contains_text s token ≡ false → replace_text_from token new 0 s ≡ s
unfolding replace_text_from contains_text
replace_text_from-absent token new String.[] h = refl
replace_text_from-absent token new (String.◌∷◌ c s) h =
    ground (arith, h, has_prefix_found (String.◌∷◌ c s) token, replace_text_from-absent token new s)

-- A text without the token is left as it is.
pub replace_text-absent :
    (token new s : String) → contains_text s token ≡ false → replace_text token new s ≡ s
unfolding replace_text
replace_text-absent token new s h = replace_text_from-absent token new s h

-- The text behind a prefix of one character, and the text before the last character.
unfoldable pub drop_first : String → String
drop_first String.[] = ""
drop_first (String.◌∷◌ c s) = s

unfoldable pub drop_last : String → String
drop_last String.[] = ""
drop_last (String.◌∷◌ c String.[]) = ""
drop_last (String.◌∷◌ c (String.◌∷◌ d s)) = String.◌∷◌ c (drop_last (String.◌∷◌ d s))

-- unicode.IsSpace
unfoldable pub is_space : ℕ → Bool
is_space c =
    (leb 9 c && leb c 13)
    || eqb c 0x20
    || eqb c 0x85
    || eqb c 0xA0
    || eqb c 0x1680
    || (leb 0x2000 c && leb c 0x200A)
    || eqb c 0x2028
    || eqb c 0x2029
    || eqb c 0x202F
    || eqb c 0x205F
    || eqb c 0x3000

trim_left : String → String
trim_left String.[] = ""
trim_left (String.◌∷◌ c s) =
    let rest = trim_left s in if is_space (code c) then rest else String.◌∷◌ c s

trim_right : String → String
trim_right String.[] = ""
trim_right (String.◌∷◌ c s) =
    let rest = trim_right s in if is_space (code c) && str_eq rest "" then "" else String.◌∷◌ c rest

-- strings.TrimSpace
unfoldable pub trim_space : String → String
unfolding trim_left trim_right is_space
trim_space s = trim_right (trim_left s)

-- A text without white space is what TrimSpace leaves of it.
unfoldable pub is_solid : String → Bool
unfolding is_space
is_solid String.[] = true
is_solid (String.◌∷◌ c s) = not (is_space (code c)) && is_solid s

trim_right-is_solid : (s : String) → is_solid s ≡ true → trim_right s ≡ s
unfolding is_solid trim_right
trim_right-is_solid String.[] h = refl
trim_right-is_solid (String.◌∷◌ c s) h = ground (arith, h, trim_right-is_solid s)

trim_left-is_solid : (s : String) → is_solid s ≡ true → trim_left s ≡ s
unfolding is_solid trim_left
trim_left-is_solid String.[] h = refl
trim_left-is_solid (String.◌∷◌ c s) h = ground (arith, h)

pub trim_space-is_solid : (s : String) → is_solid s ≡ true → trim_space s ≡ s
unfolding trim_space
trim_space-is_solid s h = ap trim_right (trim_left-is_solid s h) ∙ trim_right-is_solid s h

pub is_solid-cat :
    (s t : String) → is_solid s ≡ true → is_solid t ≡ true → is_solid (cat s t) ≡ true
unfolding is_solid
is_solid-cat String.[] t h k = ap is_solid (nil-append t) ∙ k
is_solid-cat (String.◌∷◌ c s) t h k =
    ap is_solid (cons-append c s t) ∙ ground (arith, h, k, is_solid-cat s t)

-- Unicode simple folding, as far as it reaches letters of ASCII: U+017F is a form of s, U+212A of k.
unfoldable pub fold : ℕ → ℕ
fold c =
    if leb b'A' c && leb c b'Z'
    then c + 32
    else if eqb c 0x17F
    then b's'
    else if eqb c 0x212A
    then b'k'
    else c

-- strings.EqualFold, where one of the texts is ASCII.
unfoldable pub equal_fold : String → String → Bool
unfolding fold
equal_fold String.[] String.[] = true
equal_fold String.[] (String.◌∷◌ d t) = false
equal_fold (String.◌∷◌ c s) String.[] = false
equal_fold (String.◌∷◌ c s) (String.◌∷◌ d t) = eqb (fold (code c)) (fold (code d)) && equal_fold s t

-- What stands before the first "__", and behind it: strings.Index(s, "__") and the two slices.
unfoldable pub cut_name : String → Option (String × String)
unfolding has_prefix
cut_name String.[] = none
cut_name (String.◌∷◌ c s) =
    if has_prefix (String.◌∷◌ c s) "__"
    then some ("", drop_first s)
    else elim (cut_name s) [ none ↦ none | some (a, b) ↦ some (String.◌∷◌ c a, b) ]
