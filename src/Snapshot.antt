-- ===== src/Snapshot.antt =====
-- The rate snapshot and what it is made of: the types of service/rate_snapshot_store.go and
-- service/shipping_service.go, `snapshotAddress`, `snapshotCustoms`, `snapshotInsurance` and the address
-- and parcel mapping. A protobuf message is a record of the fields that the program reads; a nil
-- message is `none`. Times are numbers of seconds.
pub mod Customs
use canada_post.Prelude.{
  ℕ, ℤ, pos, String, List, [], ◌∷◌, Option, none, some, Bool, true, false, ◌&&◌, ◌||◌, ◌==◌, Result,
  ok, err, refuse, ◌>>◌, if◌then◌else◌, is_positive,
}
use canada_post.Text.{trim, to_upper, is_empty, blank, code_of}
use canada_post.Dict.{Dict}
use canada_post.Float64.{Float64, zero_value, at_most_zero, above_zero}

-- `address.Address`
pub record Address : Type 0 where
  pub address_id : String
  pub street1 : Option String
  pub street2 : Option String
  pub city : Option String
  pub province : Option String
  pub province_code : Option String
  pub zip : Option String
  pub phone : Option String
  pub full_name : Option String
  pub first_name : Option String
  pub last_name : Option String
  pub company : Option String
  pub country : Option String
  pub country_code : Option String
  pub email : Option String

pub record CanadaPostOrigin : Type 0 where
  pub postal_code : String
  pub address_line : String
  pub city : String
  pub province : String
  pub name : String

pub record CanadaPostDestination : Type 0 where
  pub name : String
  pub address_line : String
  pub city : String
  pub province : String
  pub postal_code : String
  pub country : String

pub record ParcelMetrics (V : Type 0) : Type 0 where
  pub weight : V
  pub length : V
  pub width : V
  pub height : V

pub record AddressSnapshot : Type 0 where
  pub address_id : String
  pub street1 : String
  pub street2 : String
  pub city : String
  pub province : String
  pub zip : String
  pub phone : String
  pub full_name : String
  pub company : String
  pub country_code : String
  pub province_code : String
  pub country : String
  pub email : String
  pub first_name : String
  pub last_name : String

pub record CustomItemSnapshot (V : Type 0) : Type 0 where
  pub description : String
  pub quantity : ℤ
  pub total_value_cents : ℤ
  pub weight : V
  pub hs_tariff_number : String
  pub code : String
  pub origin_country : String

pub record CustomsSnapshot (V : Type 0) : Type 0 where
  pub eel_pfc : String
  pub contents_type : String
  pub contents_explanation : String
  pub restriction_comments : String
  pub currency : String
  pub custom_items : List (CustomItemSnapshot V)

pub record InsuranceSnapshot : Type 0 where
  pub decimal : String
  pub currency_code : String
  pub amount : ℤ

pub record RateSnapshot (V : Type 0) : Type 0 where
  pub rate_id : String
  pub service_code : String
  pub service_name : String
  pub price_cents : ℤ
  pub currency_code : String
  pub rate_to_cad : V
  pub delivery_date : String
  pub signature : String
  pub custom_options : Dict String
  pub shipper : AddressSnapshot
  pub customer : AddressSnapshot
  pub parcel : ParcelMetrics V
  pub customs_info : Option (CustomsSnapshot V)
  pub insurance : InsuranceSnapshot
  pub origin : CanadaPostOrigin
  pub destination : CanadaPostDestination
  pub invoice_uuid : String
  pub client_id : ℤ
  pub created_at : ℕ

-- `unwrapStringValue`
abbrev pub unwrap_string_value : Option String → String
unwrap_string_value none = ""
unwrap_string_value (some v) = v

-- `defaultValue`
unfoldable pub default_value : String → String → String
unfolding trim
default_value value fallback = if blank value then fallback else value

abbrev empty_origin : CanadaPostOrigin
empty_origin = record { postal_code = ""; address_line = ""; city = ""; province = ""; name = "" }

abbrev empty_destination : CanadaPostDestination
empty_destination = record {
  name = "";
  address_line = "";
  city = "";
  province = "";
  postal_code = "";
  country = "";
}

unfoldable pub map_canada_post_origin : Option Address → CanadaPostOrigin
map_canada_post_origin none = empty_origin
map_canada_post_origin (some a) = record {
  postal_code = unwrap_string_value a.zip;
  address_line = unwrap_string_value a.street1;
  city = unwrap_string_value a.city;
  province = unwrap_string_value a.province_code;
  name = unwrap_string_value a.full_name;
}

unfoldable pub map_canada_post_destination : Option Address → CanadaPostDestination
map_canada_post_destination none = empty_destination
map_canada_post_destination (some a) = record {
  name = unwrap_string_value a.full_name;
  address_line = unwrap_string_value a.street1;
  city = unwrap_string_value a.city;
  province = unwrap_string_value a.province_code;
  postal_code = unwrap_string_value a.zip;
  country = unwrap_string_value a.country_code;
}

abbrev pub empty_address : AddressSnapshot
empty_address = record {
  address_id = "";
  street1 = "";
  street2 = "";
  city = "";
  province = "";
  zip = "";
  phone = "";
  full_name = "";
  company = "";
  country_code = "";
  province_code = "";
  country = "";
  email = "";
  first_name = "";
  last_name = "";
}

unfoldable pub snapshot_address : Option Address → AddressSnapshot
snapshot_address none = empty_address
snapshot_address (some a) = record {
  address_id = trim a.address_id;
  street1 = unwrap_string_value a.street1;
  street2 = unwrap_string_value a.street2;
  city = unwrap_string_value a.city;
  province = unwrap_string_value a.province;
  zip = unwrap_string_value a.zip;
  phone = unwrap_string_value a.phone;
  full_name = unwrap_string_value a.full_name;
  company = unwrap_string_value a.company;
  country_code = unwrap_string_value a.country_code;
  province_code = unwrap_string_value a.province_code;
  country = unwrap_string_value a.country;
  email = unwrap_string_value a.email;
  first_name = unwrap_string_value a.first_name;
  last_name = unwrap_string_value a.last_name;
}

-- `isEmptyCanadaPostAddress`
unfoldable pub is_empty_canada_post_address : CanadaPostOrigin → CanadaPostDestination → Bool
is_empty_canada_post_address origin dest =
    let country = code_of dest.country in
    if blank origin.postal_code
    then true
    else if is_empty country
    then true
    else if country == "CA" || country == "US"
    then blank dest.postal_code
    else false

unfoldable pub validate_canada_post_address :
    CanadaPostOrigin → CanadaPostDestination → Result (Unit {0})
validate_canada_post_address origin dest =
    refuse (is_empty_canada_post_address origin dest)
      "origin or destination address is missing required fields"
