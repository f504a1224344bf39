-- ===== src/Shipment/Postal.antt =====
-- `validatePostalCode` and its two patterns, in service/shipping_service.go.
use Prim.Native.Char.{Char, code}
use Prim.Native.String.{[] as nil, ◌∷◌ as cons}
use canada_post.Prelude.{
  String, List, [], ◌∷◌, ◌++◌, Bool, true, false, not, ◌&&◌, ◌||◌, ◌==◌, Result, ok, refuse, leb,
  ltb, nat_eq, if◌then◌else◌,
}
use canada_post.Text.{trim, to_upper, is_empty, code_of}
use canada_post.Offices.{drop_spaces}
use canada_post.Shipment.Phone.{rune_len, is_digit}

-- a whole text against one class for each character
unfoldable pub matches : List (Char → Bool) → String → Bool
matches [] nil = true
matches [] (cons c s) = false
matches (p ∷ ps) nil = false
matches (p ∷ ps) (cons c s) = p c && matches ps s

-- [A-Z]
unfoldable pub is_capital : Char → Bool
is_capital c = leb b'A' (code c) && leb (code c) b'Z'

abbrev is_dash : Char → Bool
is_dash c = nat_eq (code c) b'-'

-- ^[A-Z]\d[A-Z]\d[A-Z]\d$
unfoldable pub is_canada_postal_code : String → Bool
is_canada_postal_code =
    matches (is_capital ∷ is_digit ∷ is_capital ∷ is_digit ∷ is_capital ∷ is_digit ∷ [])

abbrev five_digits : List (Char → Bool)
five_digits = is_digit ∷ is_digit ∷ is_digit ∷ is_digit ∷ is_digit ∷ []

-- ^\d{5}(-\d{4})?$
unfoldable pub is_us_postal_code : String → Bool
is_us_postal_code s =
    matches five_digits s
    || matches (five_digits ++ (is_dash ∷ is_digit ∷ is_digit ∷ is_digit ∷ is_digit ∷ [])) s

unfoldable pub validate_postal_code : String → String → Result (Unit {0})
validate_postal_code country postal =
    let p = trim postal in
    let c = code_of country in
    if is_empty p
    then ok tt
    else if c == "CA"
    then refuse (not (is_canada_postal_code (drop_spaces (to_upper p))))
        "invalid Canadian postal code"
    else if c == "US"
    then refuse (not (is_us_postal_code p)) "invalid US zip code"
    else refuse (ltb 14 (rune_len p)) "postal code exceeds 14 characters"
