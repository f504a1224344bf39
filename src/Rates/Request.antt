-- ===== src/Rates/Request.antt =====
-- The request for rates: `clientIDFromContext`, `clientIDFromRequest` and the payload that `fetchRatesFromAPI` of
-- service/shipping_service.go makes.
use canada_post.Prelude.{
  ℤ, pos, String, List, [], ◌∷◌, Option, none, some, not, ◌==◌, int_eq, is_positive, if◌then◌else◌,
}
use canada_post.Text.{trim, is_empty, blank, code_of}
use canada_post.Float64.{Float64}
use canada_post.Options.Values.{DynamicField}
use canada_post.Options.Build.{RateOption}
use canada_post.Snapshot.{Address, CanadaPostOrigin, CanadaPostDestination, ParcelMetrics}
use canada_post.Snapshot.Customs.{Money, CustomItem, CustomsInfo, Parcel, has_positive_dimensions}
use canada_post.Currency.{ParcelItem, RequestMoney}
use canada_post.Shipment.Payload.{Dimensions}

-- the parts of `labels.ShipRequest` that the handler reads
pub record ShipRequest (V : Type 0) : Type 0 where
  pub shipper : Option Address
  pub customer : Option Address
  pub signature : String
  pub invoice_uuid : String
  pub parcel : Option (Parcel V)
  pub parcel_insurance : Option Money
  pub parcel_items : List (Option ParcelItem)
  pub customs_info : Option (CustomsInfo V)
  pub insurance : Option Money

-- `shippingpluginpb.ShippingRateRequest`; `none` for a client id where a message on the way to it is nil
pub record ShippingRateRequest (V : Type 0) : Type 0 where
  pub ship_request : Option (ShipRequest V)
  pub custom_info : List (Option DynamicField)
  pub store_client_id : Option ℤ

-- the incoming metadata: the values of each key
pub record Metadata : Type 0 where
  pub client_ids : List String
  pub currency_codes : List String

unfoldable pub client_id_from_context : List String → String
client_id_from_context [] = ""
client_id_from_context (v ∷ _) = trim v

abbrev positive_or_zero : Option ℤ → ℤ
positive_or_zero none = pos 0
positive_or_zero (some n) = if is_positive n then n else pos 0

-- the id of the metadata; `parse_int` is `strconv.ParseInt` of base 10 and 64 bits
abbrev context_id : (String → Option ℤ) → List String → ℤ
context_id parse_int ids =
    let value = client_id_from_context ids in
    if is_empty value then pos 0 else positive_or_zero (parse_int value)

unfoldable pub client_id_from_request : (String → Option ℤ) → List String → Option ℤ → ℤ
client_id_from_request parse_int ids none = context_id parse_int ids
client_id_from_request parse_int ids (some id) =
    if not (int_eq id (pos 0)) then id else context_id parse_int ids

abbrev items_of : {V : Type 0} → Option (CustomsInfo V) → List (Option (CustomItem V))
items_of none = []
items_of (some info) = info.custom_items

abbrev pub request_money : {V : Type 0} → ShipRequest V → RequestMoney V
request_money r = record {
  parcel_insurance = r.parcel_insurance;
  parcel_items = r.parcel_items;
  insurance = r.insurance;
  customs_items = items_of r.customs_info;
}

abbrev pub phone_of : Option Address → Option String
phone_of none = none
phone_of (some a) = a.phone

pub data RateDestination : Type 0 where
  domestic : String → RateDestination
  united_states : String → RateDestination
  international : String → RateDestination

pub record RateRequest (V : Type 0) : Type 0 where
  pub customer_number : String
  pub origin_postal_code : String
  pub weight : V
  pub dimensions : Option (Dimensions V)
  pub destination : RateDestination
  pub options : List (RateOption V)

unfoldable pub rate_destination : CanadaPostDestination → RateDestination
rate_destination dest =
    let country = code_of dest.country in
    if country == "CA"
    then domestic dest.postal_code
    else if country == "US"
    then united_states dest.postal_code
    else international dest.country

module _ ⦃fl : Float64⦄ where
  unfoldable pub rate_dimensions : ParcelMetrics fl.Value → Option (Dimensions fl.Value)
  rate_dimensions p =
      if has_positive_dimensions p.length p.width p.height
      then some (record { length = p.length; width = p.width; height = p.height })
      else none

  -- an empty list of options is left out of the payload
  unfoldable pub rate_request :
      String
      → CanadaPostOrigin
      → CanadaPostDestination
      → ParcelMetrics fl.Value
      → List (RateOption fl.Value)
      → RateRequest fl.Value
  rate_request customer_number origin dest parcel options = record {
    customer_number = if blank customer_number then "" else customer_number;
    origin_postal_code = origin.postal_code;
    weight = parcel.weight;
    dimensions = rate_dimensions parcel;
    destination = rate_destination dest;
    options = options;
  }
