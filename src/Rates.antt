-- ===== src/Rates.antt =====
-- The rates of a reply of Canada Post: `mapAPIRates`, `filterRateCandidatesByService` and
-- `fallbackServiceName` of service/shipping_service.go. A Go map is walked in no fixed order; here it
-- is walked in the order of the first quote of each service.
-- `deliveryDaysFromDeliveryDate` reads the clock and Go's date formats, so it is an argument.
pub mod Cheapest
pub mod Request
pub mod Caches
pub mod Order
pub mod Fetch
use Prim.Native.Nat.{◌^◌}
use canada_post.Prelude.{
  ℕ, ◌-◌, ◌%◌, ℤ, pos, negsuc, String, List, [], ◌∷◌, Option, none, some, Bool, true, false, not,
  if◌then◌else◌, is_positive, ◌==◌,
}
use canada_post.Text.{trim, to_upper, is_empty}
use canada_post.Float64.{Float64}
use canada_post.Dict.{Dict, find, put, get, has}

-- the fields of `PriceQuote` that the program reads
pub record PriceQuote (V : Type 0) : Type 0 where
  pub service_code : String
  pub service_name : String
  pub due : V
  pub guaranteed_delivery : Bool
  pub expected_transit_time : ℤ
  pub expected_delivery_date : String

pub record RateCandidate : Type 0 where
  pub service_code : String
  pub service_name : String
  pub price_cents : ℤ
  pub delivery_date : String
  pub delivery_days : ℕ
  pub delivery_date_guaranteed : Bool

-- `uint32(n)`
abbrev pub to_uint32 : ℤ → ℕ
to_uint32 (pos n) = n % 2 ^ 32
to_uint32 (negsuc n) = 2 ^ 32 - 1 - n % 2 ^ 32

abbrev service_names : Dict String
service_names =
    ("DOM.RP", "Regular Parcel")
    ∷ ("DOM.EP", "Expedited Parcel")
    ∷ ("DOM.XP", "Xpresspost")
    ∷ ("DOM.XP.CERT", "Xpresspost Certified")
    ∷ ("DOM.PC", "Priority")
    ∷ ("DOM.LIB", "Library Materials")
    ∷ ("USA.EP", "Expedited Parcel USA")
    ∷ ("USA.SP.AIR", "Small Packet USA Air")
    ∷ ("USA.TP", "Tracked Packet USA")
    ∷ ("USA.TP.LVM", "Tracked Packet USA (LVM)")
    ∷ ("USA.XP", "Xpresspost USA")
    ∷ ("INT.XP", "Xpresspost International")
    ∷ ("INT.IP.AIR", "International Parcel Air")
    ∷ ("INT.IP.SURF", "International Parcel Surface")
    ∷ ("INT.SP.AIR", "Small Packet International Air")
    ∷ ("INT.SP.SURF", "Small Packet International Surface")
    ∷ ("INT.TP", "Tracked Packet International")
    ∷ []

abbrev or_code : Option String → String → String
or_code none code = trim code
or_code (some name) code = name

unfoldable pub fallback_service_name : String → String
fallback_service_name service_code =
    or_code (find (trim (to_upper service_code)) service_names) service_code

-- `if len(enabled) == 0 …`, and the loop
unfoldable pub filter_rate_candidates_by_service :
    List RateCandidate → Dict Bool → List RateCandidate
filter_rate_candidates_by_service [] enabled = []
filter_rate_candidates_by_service (c ∷ cs) enabled =
    let rest = filter_rate_candidates_by_service cs enabled in
    if has enabled c.service_code then c ∷ rest else rest

module _ ⦃fl : Float64⦄ where
  abbrev Quotes : Type 0
  Quotes = Dict (PriceQuote fl.Value)

  -- `best, ok := bestByService[serviceID]` and what follows
  unfoldable pub improve :
      Option (PriceQuote fl.Value) → String → PriceQuote fl.Value → Quotes → Quotes
  improve none id rate m = put id rate m
  improve (some best) id rate m = if fl.lt rate.due best.due then put id rate m else m

  -- one round of the first loop
  unfoldable pub take_quote : Quotes → PriceQuote fl.Value → Quotes
  take_quote m rate =
      let id = trim rate.service_code in if is_empty id then m else improve (find id m) id rate m

  unfoldable pub best_from : Quotes → List (PriceQuote fl.Value) → Quotes
  best_from m [] = m
  best_from m (rate ∷ rates) = best_from (take_quote m rate) rates

  unfoldable pub candidate : (String → ℕ) → PriceQuote fl.Value → RateCandidate
  candidate days_until rate =
      let name = trim rate.service_name in
      let date = trim rate.expected_delivery_date in
      record {
        service_code = trim rate.service_code;
        service_name = if is_empty name then fallback_service_name rate.service_code else name;
        price_cents = fl.to_int (fl.round (fl.mul rate.due (fl.of_int (pos 100))));
        delivery_date = date;
        delivery_days =
            if is_positive rate.expected_transit_time
            then to_uint32 rate.expected_transit_time
            else days_until date;
        delivery_date_guaranteed = rate.guaranteed_delivery;
      }

  unfoldable pub candidates : (String → ℕ) → Quotes → List RateCandidate
  candidates days_until [] = []
  candidates days_until ((id, rate) ∷ m) = candidate days_until rate ∷ candidates days_until m

  -- a nil reply has no quotes
  unfoldable pub map_api_rates : (String → ℕ) → List (PriceQuote fl.Value) → List RateCandidate
  map_api_rates days_until quotes = candidates days_until (best_from [] quotes)

pub record RateMeta : Type 0 where
  pub service_code : String
  pub service_name : String

abbrev meta_or : Option RateMeta → String → String
meta_or none id = id
meta_or (some meta) id =
    if not (is_empty meta.service_code)
    then meta.service_code
    else if not (is_empty meta.service_name)
    then meta.service_name
    else id

-- `rateMetaByID` is the first argument
unfoldable pub resolve_service_code : Dict RateMeta → String → String
resolve_service_code metas rate_id =
    let id = trim rate_id in if is_empty id then "" else meta_or (find id metas) id
