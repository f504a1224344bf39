-- ===== src/Shipment/Phone/Shape.antt =====
-- Which phone numbers `validateCanadaPostPhone` of service/shipping_service.go accepts.
use Prim.Native.Char.{Char, code}
use Prim.Native.String.{[], ◌∷◌}
use canada_post.Prelude.{
  String, ◌≤◌, ◌≡◌, refl, ◌⊎◌, ◌↔◌, inl, inr, true, false, ◌||◌, ok, arith, Bool-cases,
}
use canada_post.Text.{trim, is_empty}
use canada_post.Text.Laws.{trim_idem}
use canada_post.Shipment.Phone.{
  rune_len, is_digit, is_phone_mark, phone_runes, validate_canada_post_phone,
}

-- digits and phone marks only
abbrev pub IsPlain : String → Type 0
IsPlain [] = Unit
IsPlain (c ∷ s) = ((is_digit c || is_phone_mark c) ≡ true) × IsPlain s

-- the same, behind one plus sign or none
abbrev pub IsPhone : String → Type 0
IsPhone [] = Unit
IsPhone (c ∷ s) = ((code c ≡ b'+') ⊎ ((is_digit c || is_phone_mark c) ≡ true)) × IsPlain s

IsPlain-ok : (s : String) → phone_runes false s ≡ ok tt → IsPlain s
unfolding phone_runes
IsPlain-ok [] h = tt
IsPlain-ok (c ∷ s) h = ground (arith, IsPlain-ok s)

plus_no_mark : (c : Char) → code c ≡ b'+' → is_phone_mark c ≡ false
unfolding is_phone_mark
plus_no_mark c h = ground arith

plain_fine : (s : String) → IsPlain s → phone_runes false s ≡ ok tt
unfolding phone_runes
plain_fine [] h = refl
plain_fine (c ∷ s) (p, h) = ground (arith, plain_fine s h, plus_no_mark c)

IsPhone-ok : (s : String) → phone_runes true s ≡ ok tt → IsPhone s
unfolding phone_runes
IsPhone-ok [] h = tt
IsPhone-ok (c ∷ s) h = ground (arith, IsPlain-ok s)

phone_fine : (s : String) → IsPhone s → phone_runes true s ≡ ok tt
unfolding phone_runes
phone_fine [] h = refl
phone_fine (c ∷ s) (p, h) = ground (arith, plain_fine s h)

rune_len-trim : (s : String) → rune_len (trim s) ≡ rune_len s
unfolding rune_len
rune_len-trim s = rw trim_idem

-- A phone number is accepted exactly if it is blank, or its trimmed text has at most 25 runes, which are
-- digits and phone marks behind one leading plus sign or none.
pub validate_canada_post_phone_iff :
    (phone : String)
    → (validate_canada_post_phone phone ≡ ok tt)
      ↔ ((is_empty (trim phone) ≡ true) ⊎ ((rune_len phone ≤ 25) × IsPhone (trim phone)))
unfolding validate_canada_post_phone
validate_canada_post_phone_iff phone = (
  λ h. elim (Bool-cases (is_empty (trim phone))) [
    | inl e ↦ inl e
    | inr e ↦ inr (ground (arith, rune_len-trim phone), IsPhone-ok (trim phone) (ground arith))
  ],
  λ h. elim h [
    | inl e ↦ rw e
    | inr (short, shape) ↦ ground (arith, rune_len-trim phone, phone_fine (trim phone) shape)
  ],
)
