-- ===== src/Tests/Shipments.antt =====
-- Snapshots, phone numbers and rates at concrete inputs.
use canada_post.Prelude.{
  pos, String, List, [], ◌∷◌, ◌++◌, none, true, false, ◌≡◌, ◌↔◌, refl, ok, ◌⊎◌, ◌≤◌, arith,
}
use canada_post.Text.{trim, is_empty, to_upper}
use canada_post.Float64.Sample.{Hundredths, nan, num, sample}
use canada_post.Snapshot.{default_value}
use canada_post.Shipment.Phone.{
  rune_count, rune_len, is_digit, is_phone_mark, phone_runes, validate_canada_post_phone,
}
use canada_post.Shipment.Phone.Shape.{IsPhone, validate_canada_post_phone_iff}
use canada_post.Shipment.Validate.{
  validate_shipment_snapshot, validate_shipper, require_text, require_province, limit_text, name_of,
  validate_other_place, validate_place, validate_postal_place, validate_recipient,
}
use canada_post.Shipment.Postal.{
  validate_postal_code, is_canada_postal_code, matches, is_capital, is_us_postal_code,
}
use canada_post.Offices.{drop_spaces}
use canada_post.Shipment.Request.{build_shipment_request_from_snapshot}
use canada_post.Shipment.Request.Limits.{
  IsWithinLimits, build_shipment_request_from_snapshot-IsWithinLimits,
}
use canada_post.Rates.{PriceQuote, best_from}
use canada_post.Rates.Cheapest.{
  IsCovered, IsStrict, IsOffer, best_from-IsCovered, best_from-IsOffer,
}
use canada_post.Tests.Samples.{snapshot, cod_options}

validate_canada_post_phone_iff_example : (validate_canada_post_phone "+1 416 555 0101" ≡ ok tt) ↔ (
    (is_empty (trim "+1 416 555 0101") ≡ true)
    ⊎ ((rune_len "+1 416 555 0101" ≤ 25) × IsPhone (trim "+1 416 555 0101")))
validate_canada_post_phone_iff_example = validate_canada_post_phone_iff "+1 416 555 0101"

valid : validate_shipment_snapshot ⦃fl = sample⦄ snapshot "CA" ≡ ok tt
unfolding validate_shipment_snapshot validate_shipper trim default_value validate_postal_code
    to_upper is_canada_postal_code matches drop_spaces is_capital is_digit require_text rune_len
    rune_count require_province validate_canada_post_phone phone_runes is_phone_mark
    is_us_postal_code limit_text name_of validate_other_place validate_place validate_postal_place
    validate_recipient
valid = refl

build_shipment_request_from_snapshot-IsWithinLimits_example :
    IsWithinLimits ⦃fl = sample⦄
      (build_shipment_request_from_snapshot ⦃fl = sample⦄ snapshot "CA" cod_options none)
build_shipment_request_from_snapshot-IsWithinLimits_example =
    build_shipment_request_from_snapshot-IsWithinLimits ⦃fl = sample⦄ snapshot "CA" cod_options none
      valid

lt_trans : (x y z : Hundredths) → sample.lt x y ≡ true → sample.lt y z ≡ true → sample.lt x z ≡ true
lt_trans nan y z h k = absurd (cc h)
lt_trans (num a) nan z h k = absurd (cc h)
lt_trans (num a) (num b) nan h k = absurd (cc k)
lt_trans (num a) (num b) (num c) h k = ground arith

lt_irrefl : (x : Hundredths) → sample.lt x x ≡ false
lt_irrefl nan = refl
lt_irrefl (num a) = ground arith

strict : IsStrict ⦃fl = sample⦄
strict = record { trans = lt_trans; irrefl = lt_irrefl }

abbrev quote : String → Hundredths → PriceQuote Hundredths
quote service price = record {
  service_code = service;
  service_name = "";
  due = price;
  guaranteed_delivery = true;
  expected_transit_time = pos 3;
  expected_delivery_date = "2030-01-02";
}

abbrev quotes : List (PriceQuote Hundredths)
quotes = quote "DOM.EP" (num 1500) ∷ (quote "DOM.XP" (num 2100) ∷ [])

best_from-IsCovered_example :
    IsCovered ⦃fl = sample⦄
      (trim "DOM.EP")
      (num 1200)
      (best_from ⦃fl = sample⦄ [] (quotes ++ (quote "DOM.EP" (num 1200) ∷ quotes)))
unfolding trim
best_from-IsCovered_example =
    best_from-IsCovered ⦃fl = sample⦄ strict quotes quotes [] (quote "DOM.EP" (num 1200)) refl

best_from-IsOffer_example : IsOffer ⦃fl = sample⦄ (best_from ⦃fl = sample⦄ [] (quotes ++ quotes))
best_from-IsOffer_example = best_from-IsOffer ⦃fl = sample⦄ (quotes ++ quotes)
