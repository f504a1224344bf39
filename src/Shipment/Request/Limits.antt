-- ===== src/Shipment/Request/Limits.antt =====
-- What the checks of a snapshot say of eleven texts of the request that is built from it: Canada Post's limits on their
-- lengths. The lengths are those of the trimmed texts, as `runeLen` counts them.
use canada_post.Prelude.{
  String, ◌≡◌, ◌∙◌, inl, inr, ◌≤◌, arith, ok, >>-eq-ok, Bool-cases, List, Option, ◌==◌, ◌||◌,
  if◌then◌else◌,
}
use canada_post.Text.{trim, is_empty}
use canada_post.Float64.{Float64}
use canada_post.Options.Build.{ShipmentOption, ShipmentNotification}
use canada_post.Snapshot.{RateSnapshot, default_value}
use canada_post.Shipment.Phone.{rune_len, validate_canada_post_phone}
use canada_post.Shipment.Postal.{validate_postal_code}
use canada_post.Shipment.Validate.{
  name_of, origin_postal, shipper_address, shipper_city, shipper_province, dest_address, dest_city,
  dest_province, validate_shipper, validate_recipient, validate_place, validate_postal_place,
  validate_other_place, validate_shipment_snapshot,
}
use canada_post.Shipment.Payload.{ShipmentRequest}
use canada_post.Shipment.Request.{build_shipment_request_from_snapshot}
use canada_post.Shipment.Request.Texts.{
  Fits, rune_len-trim, filled, explain-ok, if-ok, require_text-Fits, limit_text-short,
  require_province-Fits, sanitize_address_line-Fits, limit_text-trim, two_short, sender_Fits,
  recipient_Fits, validate_canada_post_phone-trim, default_value-Fits,
}

module _ ⦃fl : Float64⦄ where
  -- eleven texts of a request; the others, the sender's postal code among them, are not looked at
  pub record IsWithinLimits (r : ShipmentRequest fl.Value) : Type 0 where
    pub sender_company : Fits 1 44 r.sender.company
    pub sender_address : Fits 1 44 r.sender.address_line1
    pub sender_city : Fits 1 40 r.sender.city
    pub sender_province : Fits 2 2 r.sender.prov_state
    pub sender_phone : validate_canada_post_phone r.sender.contact_phone ≡ ok tt
    pub shipping_point : validate_postal_code "CA" (trim r.requested_shipping_point) ≡ ok tt
    pub destination_name : Fits 1 44 r.destination.name
    pub destination_company : rune_len r.destination.company ≤ 44
    pub destination_address : Fits 1 44 r.destination.address_line1
    pub destination_city : rune_len r.destination.city ≤ 40
    pub destination_province : rune_len r.destination.prov_state ≤ 20

  -- what `validate_shipper` says
  record ShipperFits (s : RateSnapshot fl.Value) : Type 0 where
    postal : validate_postal_code "CA" (trim (origin_postal s)) ≡ ok tt
    address : Fits 1 44 (shipper_address s)
    city : Fits 1 40 (shipper_city s)
    province : Fits 2 2 (shipper_province s)
    phone : validate_canada_post_phone s.shipper.phone ≡ ok tt
    name : rune_len (name_of s.shipper) ≤ 44
    company :
        rune_len
          (if is_empty (trim s.shipper.company) then name_of s.shipper else trim s.shipper.company)
        ≤ 44

  validate_shipper-ShipperFits :
      (s : RateSnapshot fl.Value) → validate_shipper s ≡ ok tt → ShipperFits s
  unfolding validate_shipper
  validate_shipper-ShipperFits s h0 =
      let (_, h1) = (>>-eq-ok _ _ _).0 h0 in
      let (postal, h2) = (>>-eq-ok _ _ _).0 h1 in
      let (address, h3) = (>>-eq-ok _ _ _).0 h2 in
      let (city, h4) = (>>-eq-ok _ _ _).0 h3 in
      let (province, h5) = (>>-eq-ok _ _ _).0 h4 in
      let (_, h6) = (>>-eq-ok _ _ _).0 h5 in
      let (phone, h7) = (>>-eq-ok _ _ _).0 h6 in
      let (name, company) = (>>-eq-ok _ _ _).0 h7 in
      record {
        postal = explain-ok _ _ postal;
        address = require_text-Fits _ _ _ _ address;
        city = require_text-Fits _ _ _ _ city;
        province = require_province-Fits _ _ _ province;
        phone = explain-ok _ _ phone;
        name = limit_text-short _ _ _ name;
        company = limit_text-short _ _ _ company;
      }

  record RecipientFits (s : RateSnapshot fl.Value) : Type 0 where
    address : Fits 1 44 (dest_address s)
    name : rune_len (name_of s.customer) ≤ 44
    company : rune_len (trim s.customer.company) ≤ 44

  validate_recipient-RecipientFits :
      (s : RateSnapshot fl.Value) (country : String)
      → validate_recipient s country ≡ ok tt
      → RecipientFits s
  unfolding validate_recipient
  validate_recipient-RecipientFits s country h0 =
      let (address, h1) = (>>-eq-ok _ _ _).0 h0 in
      let (_, h2) = (>>-eq-ok _ _ _).0 h1 in
      let (name, h3) = (>>-eq-ok _ _ _).0 h2 in
      let (company, _) = (>>-eq-ok _ _ _).0 h3 in
      record {
        address = require_text-Fits _ _ _ _ address;
        name = limit_text-short _ _ _ name;
        company = limit_text-short _ _ _ company;
      }

  abbrev PlaceFits : RateSnapshot fl.Value → Type 0
  PlaceFits s = (rune_len (dest_city s) ≤ 40) × (rune_len (dest_province s) ≤ 20)

  validate_postal_place-PlaceFits :
      (s : RateSnapshot fl.Value) (country : String)
      → validate_postal_place s country ≡ ok tt
      → PlaceFits s
  unfolding validate_postal_place
  validate_postal_place-PlaceFits s country h0 =
      let (city, h1) = (>>-eq-ok _ _ _).0 h0 in
      let (province, _) = (>>-eq-ok _ _ _).0 h1 in
      ((require_text-Fits _ _ _ _ city).1, two_short _ (require_province-Fits _ _ _ province))

  validate_other_place-PlaceFits :
      (s : RateSnapshot fl.Value) (country : String)
      → validate_other_place s country ≡ ok tt
      → PlaceFits s
  unfolding validate_other_place
  validate_other_place-PlaceFits s country h0 =
      let (city, h1) = (>>-eq-ok _ _ _).0 h0 in
      let (province, _) = (>>-eq-ok _ _ _).0 h1 in
      (limit_text-trim _ _ _ city, limit_text-trim _ _ _ province)

  validate_place-PlaceFits :
      (s : RateSnapshot fl.Value) (country : String)
      → validate_place s country ≡ ok tt
      → PlaceFits s
  unfolding validate_place
  validate_place-PlaceFits s country h =
      elim (if-ok (country == "CA" || country == "US") (validate_postal_place s country)
        (validate_other_place s country) h) [
          | inl e ↦ validate_postal_place-PlaceFits s country e
          | inr e ↦ validate_other_place-PlaceFits s country e
        ]

  name_of-Fits :
      (full : String) (name fallback : String)
      → rune_len (if is_empty (trim full) then name else trim full) ≤ 44
      → Fits 1 44 fallback
      → Fits 1 44 (default_value full fallback)
  unfolding default_value
  name_of-Fits full name fallback short h = elim (Bool-cases (is_empty (trim full))) [
    | inl e ↦ rw e h
    | inr e ↦ rw e (filled full e, ground (arith, rune_len-trim full))
  ]

  -- A snapshot that `validateShipmentSnapshot` accepts, for whatever destination country, gives a request in which these eleven
  -- texts are within Canada Post's limits, once trimmed: the sender's company and both first address lines have 1 to 44
  -- characters, the sender's city 1 to 40 and its province code exactly 2, the recipient's name 1 to 44, the recipient's company, city
  -- and province at most 44, 40 and 20; the sender's phone number and the shipping point's
  -- postal code pass their own checks. Of the other texts nothing is said.
  pub build_shipment_request_from_snapshot-IsWithinLimits :
      (s : RateSnapshot fl.Value) (country : String) (options : List (ShipmentOption fl.Value))
      (notification : Option ShipmentNotification)
      → validate_shipment_snapshot s country ≡ ok tt
      → IsWithinLimits (build_shipment_request_from_snapshot s country options notification)
  unfolding validate_shipment_snapshot build_shipment_request_from_snapshot name_of
  build_shipment_request_from_snapshot-IsWithinLimits s country options notification h =
      let (h0, h1) = (>>-eq-ok _ _ _).0 h in
      let (h2, h3) = (>>-eq-ok _ _ _).0 h1 in
      let a = validate_shipper-ShipperFits s h0 in
      let b = validate_recipient-RecipientFits s _ h2 in
      let (city, province) = validate_place-PlaceFits s _ h3 in
      let name = name_of-Fits s.shipper.full_name _ "Sender" a.name sender_Fits in
      record {
        sender_company = name_of-Fits s.shipper.company (name_of s.shipper) _ a.company name;
        sender_address = sanitize_address_line-Fits _ a.address;
        sender_city = a.city;
        sender_province = a.province;
        sender_phone = validate_canada_post_phone-trim _ ∙ a.phone;
        shipping_point = a.postal;
        destination_name =
            default_value-Fits 44 (name_of s.customer) "Recipient" b.name recipient_Fits;
        destination_company = b.company;
        destination_address = sanitize_address_line-Fits _ b.address;
        destination_city = city;
        destination_province = province;
      }
