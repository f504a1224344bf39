-- ===== src/Shipment/Phone.antt =====
-- `runeLen` and `validateCanadaPostPhone`, in service/shipping_service.go. A text is its runes, so `i == 0`
-- of the loop is the first round.
pub mod Shape
use Prim.Native.Char.{Char, code}
use Prim.Native.String.{[], ◌∷◌}
use canada_post.Prelude.{
  ℕ, suc, String, Bool, true, false, ◌&&◌, ◌||◌, Result, ok, err, refuse, ◌>>◌, if◌then◌else◌, leb,
  ltb, nat_eq,
}
use canada_post.Text.{trim, is_empty}

unfoldable pub rune_count : String → ℕ
rune_count [] = 0
rune_count (c ∷ s) = suc (rune_count s)

unfoldable pub rune_len : String → ℕ
rune_len value = rune_count (trim value)

unfoldable pub is_digit : Char → Bool
is_digit c = leb b'0' (code c) && leb (code c) b'9'

unfoldable pub is_phone_mark : Char → Bool
is_phone_mark c =
    let n = code c in
    nat_eq n b'.'
    || nat_eq n b'-'
    || nat_eq n b'('
    || nat_eq n b')'
    || nat_eq n b' '
    || nat_eq n b'x'
    || nat_eq n b'p'
    || nat_eq n b'X'
    || nat_eq n b'P'

-- the loop; the flag is `i == 0`
unfoldable pub phone_runes : Bool → String → Result (Unit {0})
phone_runes first [] = ok tt
phone_runes first (c ∷ s) =
    let rest = phone_runes false s in
    if is_digit c
    then rest
    else if nat_eq (code c) b'+'
    then (if first then rest else err "plus sign must be first character")
    else if is_phone_mark c
    then rest
    else err "phone contains invalid characters"

unfoldable pub validate_canada_post_phone : String → Result (Unit {0})
validate_canada_post_phone phone =
    let trimmed = trim phone in
    if is_empty trimmed then ok tt else do
      refuse (ltb 25 (rune_len trimmed)) "phone exceeds 25 characters"
      phone_runes true trimmed
