-- ===== src/Rates/Fetch.antt =====
-- `fetchRatesFromAPI` of service/shipping_service.go from the candidates on, and the handler of service/get_shipping_rate.go.
pub mod Loop
pub mod Backed
use canada_post.Prelude.{
  ℕ, zero, suc, ℤ, pos, String, List, [], ◌∷◌, ◌++◌, Option, none, some, Bool, true, false, not,
  ◌==◌, Result, ok, err, refuse, ◌>>=◌, ◌>>◌, int_eq, is_positive, if◌then◌else◌,
}
use canada_post.Text.{◌⧺◌, trim, is_empty}
use canada_post.Dict.{Dict, find, put}
use canada_post.Float64.{Float64}
use canada_post.Options.Values.{DynamicField, custom_info_to_map, validate_custom_info_map_values}
use canada_post.Options.Rules.{validate_canada_post_option_rules}
use canada_post.Options.Build.{clone_options_map, build_get_rates_options}
use canada_post.Snapshot.{
  CanadaPostOrigin, CanadaPostDestination, RateSnapshot, unwrap_string_value,
  map_canada_post_origin, map_canada_post_destination, snapshot_address,
  is_empty_canada_post_address, validate_canada_post_address, ParcelMetrics,
}
use canada_post.Snapshot.Customs.{
  snapshot_customs, snapshot_insurance, build_parcels_from_label_request,
}
use canada_post.Currency.{resolve_request_currency, convert_cad_to_currency_cents}
use canada_post.Rates.{
  PriceQuote, RateCandidate, RateMeta, to_uint32, map_api_rates, filter_rate_candidates_by_service,
}
use canada_post.Rates.Request.{
  ShipRequest, ShippingRateRequest, Metadata, RateRequest, client_id_from_request, request_money,
  phone_of, rate_request,
}
use canada_post.Rates.Caches.{
  Caches, store_rate_meta, store_rate_price, store_canada_post_addresses,
}
use canada_post.Rates.Order.{RateWorld, Order, check_order, quote_order, rate_to_cad_for}

pub record ShippingRate : Type 0 where
  pub shippingrate_id : String
  pub carrier_name : String
  pub service_name : String
  pub price : ℕ
  pub delivery_days : ℕ
  pub delivery_date : String
  pub delivery_date_guaranteed : Bool

-- the answer of the handler
pub record RatesResponse : Type 0 where
  pub success : Bool
  pub failure : Bool
  pub code : String
  pub message : String
  pub shipping_rates : List ShippingRate

module _ ⦃fl : Float64⦄ where
  unfoldable pub display_price : Order → ℤ → ℤ
  display_price o cents =
      if o.currency_code == "CAD" then cents else convert_cad_to_currency_cents cents o.rate_to_cad

  unfoldable pub order_snapshot :
      RateWorld → Order → ParcelMetrics fl.Value → String → RateCandidate → RateSnapshot fl.Value
  order_snapshot w o parcel id c = record {
    rate_id = id;
    service_code = c.service_code;
    service_name = c.service_name;
    price_cents = c.price_cents;
    currency_code = o.currency_code;
    rate_to_cad = o.rate_to_cad;
    delivery_date = c.delivery_date;
    signature = o.ship.signature;
    custom_options = clone_options_map o.values;
    shipper = snapshot_address o.ship.shipper;
    customer = snapshot_address o.ship.customer;
    parcel = parcel;
    customs_info = snapshot_customs o.ship.customs_info;
    insurance = snapshot_insurance o.ship.insurance;
    origin = map_canada_post_origin o.ship.shipper;
    destination = map_canada_post_destination o.ship.customer;
    invoice_uuid = o.ship.invoice_uuid;
    client_id = o.client_id;
    created_at = w.now;
  }

  abbrev taken : Result (Unit {0}) → RateSnapshot fl.Value → Caches fl.Value → Caches fl.Value
  taken (err _) s st = st
  taken (ok _) s st = record st { snapshots = s ∷ st.snapshots }

  -- without a snapshot store, and on an error, there is a line in the log
  unfoldable pub save_snapshot :
      Option (RateSnapshot fl.Value → Result (Unit {0}))
      → RateSnapshot fl.Value
      → Caches fl.Value
      → Caches fl.Value
  save_snapshot none s st = st
  save_snapshot (some save) s st = taken (save s) s st

  unfoldable pub shipping_rate : Order → String → RateCandidate → ShippingRate
  shipping_rate o id c = record {
    shippingrate_id = id;
    carrier_name = "Canada Post";
    service_name = c.service_name;
    price = to_uint32 (display_price o c.price_cents);
    delivery_days = c.delivery_days;
    delivery_date = c.delivery_date;
    delivery_date_guaranteed = c.delivery_date_guaranteed;
  }

  -- what one turn of the loop stores
  unfoldable pub store_rate :
      RateWorld
      → Order
      → ParcelMetrics fl.Value
      → String
      → RateCandidate
      → Caches fl.Value
      → Caches fl.Value
  store_rate w o parcel id c st =
      let meta : RateMeta = record {
        service_code = c.service_code;
        service_name = c.service_name;
      } in
      store_rate_price id c.price_cents (
        store_rate_meta id meta (save_snapshot w.save_snapshot (order_snapshot w o parcel id c) st))

  -- the loop over the candidates, with the number of ids drawn
  unfoldable pub offer_rates :
      RateWorld
      → Order
      → ParcelMetrics fl.Value
      → ℕ
      → List RateCandidate
      → Caches fl.Value
      → List ShippingRate × Caches fl.Value
  offer_rates w o parcel n [] st = ([], st)
  offer_rates w o parcel n (c ∷ cs) st =
      let id = w.rate_ids n in
      let (rates, after) = offer_rates w o parcel (suc n) cs (store_rate w o parcel id c st) in
      (shipping_rate o id c ∷ rates, after)

  abbrev pub with_addresses : Order → Caches fl.Value → Caches fl.Value
  with_addresses o st =
      store_canada_post_addresses o.ship.invoice_uuid (map_canada_post_origin o.ship.shipper)
        (map_canada_post_destination o.ship.customer) st

  unfoldable pub answer_order :
      RateWorld → Order → Caches fl.Value → Result (List ShippingRate) × Caches fl.Value
  answer_order w o st = elim (quote_order w o) [
    | err e ↦ (err e, with_addresses o st)
    | ok (parcel, candidates) ↦
        let done = offer_rates w o parcel 0 candidates (with_addresses o st) in (ok done.0, done.1)
  ]

  unfoldable pub fetch_ship_request :
      RateWorld
      → Metadata
      → ShippingRateRequest fl.Value
      → ShipRequest fl.Value
      → Caches fl.Value
      → Result (List ShippingRate) × Caches fl.Value
  fetch_ship_request w metadata req ship st = elim (check_order w metadata req ship) [
    | err e ↦ (err e, st)
    | ok o ↦ answer_order w o st
  ]

  unfoldable pub fetch_rates_from_api :
      RateWorld
      → Metadata
      → ShippingRateRequest fl.Value
      → Caches fl.Value
      → Result (List ShippingRate) × Caches fl.Value
  fetch_rates_from_api w metadata req st = elim req.ship_request [
    | none ↦ (err "missing ship_request", st)
    | some ship ↦ fetch_ship_request w metadata req ship st
  ]

  abbrev rates_response : Result (List ShippingRate) → RatesResponse
  rates_response (err e) = record {
    success = false;
    failure = true;
    code = "400";
    message = e;
    shipping_rates = [];
  }
  rates_response (ok rates) = record {
    success = true;
    failure = false;
    code = "200";
    message = "GetShippingRate OK";
    shipping_rates = rates;
  }

  unfoldable pub get_shipping_rate :
      RateWorld
      → Metadata
      → ShippingRateRequest fl.Value
      → Caches fl.Value
      → RatesResponse × Caches fl.Value
  get_shipping_rate w metadata req st =
      let done = fetch_rates_from_api w metadata req st in (rates_response done.0, done.1)

-- the names that a run on concrete data computes through
unfoldable pub run_fetch : Unit {0}
unfolding fetch_rates_from_api fetch_ship_request check_order rate_to_cad_for
    canada_post.Currency.resolve_request_currency canada_post.Currency.request_codes
    canada_post.Currency.parcel_item_codes canada_post.Currency.customs_item_codes
    convert_cad_to_currency_cents store_canada_post_addresses store_rate_meta store_rate_price
    answer_order display_price offer_rates order_snapshot save_snapshot shipping_rate store_rate
    quote_order canada_post.Rates.Request.client_id_from_context
    canada_post.Rates.Request.client_id_from_request canada_post.Rates.Request.rate_destination
    canada_post.Rates.Request.rate_dimensions canada_post.Rates.Request.rate_request
    canada_post.Rates.best_from canada_post.Rates.candidate canada_post.Rates.candidates
    canada_post.Rates.fallback_service_name canada_post.Rates.filter_rate_candidates_by_service
    canada_post.Rates.improve canada_post.Rates.map_api_rates canada_post.Rates.take_quote
    canada_post.Snapshot.Customs.build_parcels_from_label_request
    canada_post.Snapshot.Customs.first_currency canada_post.Snapshot.Customs.has_positive_dimensions
    canada_post.Snapshot.Customs.ounces_to_kilograms snapshot_customs snapshot_insurance
    canada_post.Snapshot.is_empty_canada_post_address map_canada_post_destination
    map_canada_post_origin snapshot_address canada_post.Snapshot.validate_canada_post_address
run_fetch = tt
