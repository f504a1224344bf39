-- ===== src/Shipment/Validate.antt =====
-- `validateShipmentSnapshot` and `validateCustoms`, in service/shipping_service.go.
use canada_post.Prelude.{
  ℕ, ℤ, pos, negsuc, String, List, [], ◌∷◌, none, some, Bool, false, not, ◌&&◌, ◌||◌, ◌==◌, Result,
  ok, err, refuse, ◌>>=◌, ◌>>◌, if◌then◌else◌, ltb, nat_eq, is_positive,
}
use canada_post.Text.{◌⧺◌, trim, is_empty, blank, code_of}
use canada_post.Float64.{Float64, zero_value}
use canada_post.Snapshot.{AddressSnapshot, RateSnapshot, CustomItemSnapshot, default_value}
use canada_post.Shipment.Phone.{rune_len, validate_canada_post_phone}
use canada_post.Shipment.Postal.{validate_postal_code}

-- `fmt.Errorf("…: %w", err)`
abbrev pub explain : String → Result (Unit {0}) → Result (Unit {0})
explain what (ok u) = ok u
explain what (err e) = err (what ⧺ ": " ⧺ e)

-- a text that has to be there, and its greatest length
unfoldable pub require_text : String → ℕ → String → String → Result (Unit {0})
require_text value most missing long = do
  refuse (is_empty value) missing
  refuse (ltb most (rune_len value)) long

-- the greatest length of a text that may be empty
unfoldable pub limit_text : String → ℕ → String → Result (Unit {0})
limit_text value most long = refuse (not (is_empty value) && ltb most (rune_len value)) long

-- a province code has to be there, with two characters
unfoldable pub require_province : String → String → String → Result (Unit {0})
require_province value missing wrong = do
  refuse (is_empty value) missing
  refuse (not (nat_eq (rune_len value) 2)) wrong

-- the full name, else the first and the last name
unfoldable pub name_of : AddressSnapshot → String
name_of a =
    let full = trim a.full_name in
    if is_empty full then trim (trim (a.first_name ⧺ " " ⧺ a.last_name)) else full

module _ ⦃fl : Float64⦄ where
  abbrev pub origin_postal : RateSnapshot fl.Value → String
  origin_postal s = default_value s.origin.postal_code s.shipper.zip

  abbrev pub shipper_address : RateSnapshot fl.Value → String
  shipper_address s = default_value s.shipper.street1 s.origin.address_line

  abbrev pub shipper_city : RateSnapshot fl.Value → String
  shipper_city s = default_value s.shipper.city s.origin.city

  abbrev pub shipper_province : RateSnapshot fl.Value → String
  shipper_province s =
      default_value (default_value s.shipper.province_code s.shipper.province) s.origin.province

  abbrev pub dest_address : RateSnapshot fl.Value → String
  dest_address s = default_value s.customer.street1 s.destination.address_line

  abbrev pub dest_city : RateSnapshot fl.Value → String
  dest_city s = default_value s.customer.city s.destination.city

  abbrev pub dest_province : RateSnapshot fl.Value → String
  dest_province s =
      default_value (default_value s.customer.province_code s.customer.province)
        s.destination.province

  abbrev pub dest_postal : RateSnapshot fl.Value → String
  dest_postal s = default_value s.customer.zip s.destination.postal_code

  -- the part on the shipper
  unfoldable pub validate_shipper : RateSnapshot fl.Value → Result (Unit {0})
  validate_shipper s =
      let postal = trim (origin_postal s) in
      let company = trim s.shipper.company in
      let name = name_of s.shipper in
      do
        refuse (is_empty postal) "origin postal code is required"
        explain "invalid origin postal code" (validate_postal_code "CA" postal)
        require_text (trim (shipper_address s)) 44 "shipper address-line-1 is required"
            "shipper address-line-1 exceeds 44 characters"
        require_text (trim (shipper_city s)) 40 "shipper city is required"
            "shipper city exceeds 40 characters"
        require_province (trim (shipper_province s)) "shipper prov-state is required"
            "shipper prov-state must be 2 characters"
        refuse (blank s.shipper.phone) "shipper phone is required"
        explain "invalid shipper phone number" (validate_canada_post_phone s.shipper.phone)
        limit_text name 44 "shipper name exceeds 44 characters"
        limit_text (if is_empty company then name else company) 44
            "shipper company exceeds 44 characters"

  -- the part on the recipient and the country
  unfoldable pub validate_recipient : RateSnapshot fl.Value → String → Result (Unit {0})
  validate_recipient s country =
      let name = name_of s.customer in
      let company = trim s.customer.company in
      do
        require_text (trim (dest_address s)) 44 "destination address-line-1 is required"
            "destination address-line-1 exceeds 44 characters"
        refuse (is_empty name && is_empty company) "destination name or company is required"
        limit_text name 44 "destination name exceeds 44 characters"
        limit_text company 44 "destination company exceeds 44 characters"
        refuse (is_empty country) "destination country-code is required"
        refuse (not (nat_eq (rune_len country) 2)) "destination country-code must be 2 characters"

  -- the case of Canada and the United States
  unfoldable pub validate_postal_place : RateSnapshot fl.Value → String → Result (Unit {0})
  validate_postal_place s country =
      let postal = trim (dest_postal s) in
      do
        require_text (trim (dest_city s)) 40 "destination city is required"
            "destination city exceeds 40 characters"
        require_province (trim (dest_province s)) "destination prov-state is required"
            "destination prov-state must be 2 characters"
        refuse (is_empty postal) "destination postal/zip code is required"
        explain "invalid destination postal/zip code" (validate_postal_code country postal)

  -- the default case
  unfoldable pub validate_other_place : RateSnapshot fl.Value → String → Result (Unit {0})
  validate_other_place s country =
      let postal = trim (dest_postal s) in
      do
        limit_text (trim (dest_city s)) 40 "destination city exceeds 40 characters"
        limit_text (trim (dest_province s)) 20 "destination prov-state exceeds 20 characters"
        explain "invalid destination postal/zip code"
            (if is_empty postal then ok tt else validate_postal_code country postal)

  -- the switch on the country
  unfoldable pub validate_place : RateSnapshot fl.Value → String → Result (Unit {0})
  validate_place s country =
      if country == "CA" || country == "US"
      then validate_postal_place s country
      else validate_other_place s country

  unfoldable pub validate_shipment_snapshot : RateSnapshot fl.Value → String → Result (Unit {0})
  validate_shipment_snapshot s dest_country =
      let given = code_of dest_country in
      let country =
        if is_empty given
        then code_of (default_value s.customer.country_code s.customer.country)
        else given in
      do validate_shipper s; validate_recipient s country; validate_place s country

  -- `float64(n)` of a quantity above zero, and the sum of the loop in `validateCustoms`
  unfoldable pub add_weight : fl.Value → CustomItemSnapshot fl.Value → fl.Value
  add_weight total item =
      if is_positive item.quantity
      then fl.add total (fl.mul item.weight (fl.of_int item.quantity))
      else total

  abbrev above_9999 : ℤ → Bool
  above_9999 (pos n) = ltb 9999 n
  above_9999 (negsuc n) = false

  unfoldable pub validate_custom_item : CustomItemSnapshot fl.Value → Result (Unit {0})
  validate_custom_item item =
      let description = trim (default_value item.description item.code) in
      do
        refuse (above_9999 item.quantity) "customs number-of-units exceeds 4 digits"
        require_text description 45 "customs description is required"
            "customs description exceeds 45 characters"
        refuse (not (is_empty item.code) && ltb 15 (rune_len item.code))
            "customs sku exceeds 15 characters"
        refuse (blank item.origin_country) "customs country-of-origin is required"

  -- the loop; it returns the total weight
  unfoldable pub customs_weight : fl.Value → List (CustomItemSnapshot fl.Value) → Result fl.Value
  customs_weight total [] = ok total
  customs_weight total (item ∷ items) = do
    validate_custom_item item
    customs_weight (add_weight total item) items

  unfoldable pub validate_customs : RateSnapshot fl.Value → Result (Unit {0})
  validate_customs s = elim s.customs_info [
    | none ↦ ok tt
    | some info ↦ elim info.custom_items [
      | [] ↦ err "customs sku-list must include at least one item"
      | _ ∷ _ ↦ do
        total ← customs_weight zero_value info.custom_items
        refuse (fl.lt s.parcel.weight total) "customs weight exceeds parcel weight"
    ]
  ]
