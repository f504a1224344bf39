-- ===== src/Text.antt =====
-- The functions of Go's `strings` package that the program calls. A text is its list of code points.
-- Case mapping is exact on ASCII and on the four other characters whose image is ASCII; it leaves all
-- further characters as they are, which no comparison with a constant of the program can see.
pub mod Laws
use Prim.Native.Char.{Char, code}
use Prim.Native.String.{char_at, [], ◌∷◌, ◌++◌}
use mathlib.Core.Bool.{Bool, true, false, ◌&&◌, ◌||◌, not}
use canada_post.Prelude.{ℕ, ◌-◌, String, leb, nat_eq, if◌then◌else◌, ◌==◌}

-- concatenation of texts
infixr 65 ◌⧺◌
abbrev pub ◌⧺◌ : String → String → String
s ⧺ t = s ++ t

-- `unicode.IsSpace`
unfoldable pub is_space : Char → Bool
is_space c =
    let n = code c in
    leb 9 n && leb n 13
    || nat_eq n 32
    || nat_eq n 0x85
    || nat_eq n 0xa0
    || nat_eq n 0x1680
    || leb 0x2000 n && leb n 0x200a
    || nat_eq n 0x2028
    || nat_eq n 0x2029
    || nat_eq n 0x202f
    || nat_eq n 0x205f
    || nat_eq n 0x3000

abbrev pub is_empty : String → Bool
is_empty [] = true
is_empty (_ ∷ _) = false

pub trim_left : String → String
trim_left [] = []
trim_left (c ∷ s) = if is_space c then trim_left s else c ∷ s

pub trim_right : String → String
trim_right [] = []
trim_right (c ∷ s) = let rest = trim_right s in if is_space c && is_empty rest then [] else c ∷ rest

-- `strings.TrimSpace`
unfoldable pub trim : String → String
unfolding trim_left trim_right is_space
trim s = trim_right (trim_left s)

abbrev pub blank : String → Bool
blank s = is_empty (trim s)

upper_char : Char → Char
upper_char c =
    let n = code c in
    if leb b'a' n && leb n b'z'
    then char_at "ABCDEFGHIJKLMNOPQRSTUVWXYZ" (n - b'a')
    else if nat_eq n 0x131
    then "I"
    else if nat_eq n 0x17f
    then "S"
    else c

lower_char : Char → Char
lower_char c =
    let n = code c in
    if leb b'A' n && leb n b'Z'
    then char_at "abcdefghijklmnopqrstuvwxyz" (n - b'A')
    else if nat_eq n 0x130
    then "i"
    else if nat_eq n 0x212a
    then "k"
    else c

-- `strings.ToUpper`
unfoldable pub to_upper : String → String
unfolding upper_char
to_upper [] = []
to_upper (c ∷ s) = upper_char c ∷ to_upper s

-- `strings.ToLower`
unfoldable pub to_lower : String → String
unfolding lower_char
to_lower [] = []
to_lower (c ∷ s) = lower_char c ∷ to_lower s

fold_char : Char → Char
fold_char c =
    let n = code c in if nat_eq n 0x17f then "s" else if nat_eq n 0x130 then c else lower_char c

fold : String → String
unfolding fold_char lower_char
fold [] = []
fold (c ∷ s) = fold_char c ∷ fold s

-- `strings.EqualFold`
unfoldable pub equal_fold : String → String → Bool
unfolding fold
equal_fold s t = fold s == fold t

-- `strings.ToUpper(strings.TrimSpace(s))`
abbrev pub code_of : String → String
code_of s = to_upper (trim s)

-- `strings.HasPrefix`
unfoldable pub has_prefix : String → String → Bool
has_prefix s [] = true
has_prefix [] (p ∷ ps) = false
has_prefix (c ∷ s) (p ∷ ps) = nat_eq (code c) (code p) && has_prefix s ps

-- `strings.Contains`
unfoldable pub contains : String → String → Bool
unfolding has_prefix
contains [] t = is_empty t
contains (c ∷ s) t = has_prefix (c ∷ s) t || contains s t
