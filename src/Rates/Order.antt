-- ===== src/Rates/Order.antt =====
-- `fetchRatesFromAPI` of service/shipping_service.go as far as the candidates: the checks, the conversion rate, and the request
-- to Canada Post. The database, the snapshot store, Canada Post, the clock and the random ids are in `RateWorld`.
use canada_post.Prelude.{
  ℕ, ℤ, pos, String, List, [], ◌∷◌, Option, none, some, Bool, true, false, ◌==◌, Result, ok, err,
  ◌>>=◌, ◌>>◌, int_eq, is_positive, if◌then◌else◌,
}
use canada_post.Text.{◌⧺◌}
use canada_post.Dict.{Dict}
use canada_post.Float64.{Float64}
use canada_post.Options.Values.{custom_info_to_map, validate_custom_info_map_values}
use canada_post.Options.Rules.{validate_canada_post_option_rules}
use canada_post.Options.Build.{build_get_rates_options}
use canada_post.Snapshot.{
  RateSnapshot, unwrap_string_value, map_canada_post_origin, map_canada_post_destination,
  validate_canada_post_address, ParcelMetrics,
}
use canada_post.Snapshot.Customs.{build_parcels_from_label_request}
use canada_post.Currency.{resolve_request_currency}
use canada_post.Rates.{PriceQuote, RateCandidate, map_api_rates, filter_rate_candidates_by_service}
use canada_post.Rates.Request.{
  ShipRequest, ShippingRateRequest, Metadata, RateRequest, client_id_from_request, request_money,
  phone_of, rate_request,
}

abbrev pub is_none_set : Dict Bool → Bool
is_none_set [] = true
is_none_set (_ ∷ _) = false

module _ ⦃fl : Float64⦄ where
  pub record RateWorld : Type 0 where
    pub get_rates : Option (RateRequest fl.Value → Result (List (PriceQuote fl.Value)))
    pub customer_number : String
    pub load_enabled_services : ℤ → Result (Dict Bool)
    pub load_currency_rate : ℤ → String → Result (Option fl.Value)
    pub save_snapshot : Option (RateSnapshot fl.Value → Result (Unit {0}))
    pub parse_int : String → Option ℤ
    pub days_until : String → ℕ
    pub rate_ids : ℕ → String
    pub now : ℕ

  -- what the checks before the addresses have found out
  pub record Order : Type 0 where
    pub ship : ShipRequest fl.Value
    pub values : Dict String
    pub enabled_services : Dict Bool
    pub client_id : ℤ
    pub currency_code : String
    pub rate_to_cad : fl.Value

  -- an error of the settings is only logged
  abbrev enabled_or_none : Result (Dict Bool) → Dict Bool
  enabled_or_none (err _) = []
  enabled_or_none (ok enabled) = enabled

  abbrev pub services_of : RateWorld → ℤ → Dict Bool
  services_of w client =
      if is_positive client then enabled_or_none (w.load_enabled_services client) else []

  abbrev rate_or : String → Result (Option fl.Value) → Result fl.Value
  rate_or currency (err e) = err ("failed to load currency rate: " ⧺ e)
  rate_or currency (ok none) =
      err ("missing conversion rate for " ⧺ currency ⧺ ". set it in settings")
  rate_or currency (ok (some rate)) = ok rate

  unfoldable pub rate_to_cad_for : RateWorld → ℤ → String → Result fl.Value
  rate_to_cad_for w client currency =
      if currency == "CAD"
      then ok (fl.of_int (pos 1))
      else if int_eq client (pos 0)
      then err "client_id required for currency conversion"
      else rate_or currency (w.load_currency_rate client currency)

  abbrev pub configured {ℓ} : {A : Type ℓ} → Option A → Result (Unit {0})
  configured none = err "canada post client not configured"
  configured (some _) = ok tt

  -- the part up to the rules
  unfoldable pub check_order :
      RateWorld → Metadata → ShippingRateRequest fl.Value → ShipRequest fl.Value → Result Order
  check_order w metadata req ship =
      let values = custom_info_to_map req.custom_info in
      let client = client_id_from_request w.parse_int metadata.client_ids req.store_client_id in
      let currency = resolve_request_currency metadata.currency_codes (some (request_money ship)) in
      let dest = map_canada_post_destination ship.customer in
      do
        configured w.get_rates
        validate_custom_info_map_values values
        rate ← rate_to_cad_for w client currency
        validate_canada_post_option_rules values ship.signature
            (unwrap_string_value (phone_of ship.customer)) dest.country rate
        ok (record {
          ship = ship;
          values = values;
          enabled_services = services_of w client;
          client_id = client;
          currency_code = currency;
          rate_to_cad = rate;
        })

  abbrev pub asked :
      Option (RateRequest fl.Value → Result (List (PriceQuote fl.Value)))
      → RateRequest fl.Value
      → Result (List (PriceQuote fl.Value))
  asked none request = err "canada post client not configured"
  asked (some get_rates) request = get_rates request

  abbrev pub enabled_only : List RateCandidate → Dict Bool → List RateCandidate
  enabled_only candidates enabled =
      if is_none_set enabled
      then candidates
      else filter_rate_candidates_by_service candidates enabled

  -- from the stored addresses to the candidates, and the parcel
  unfoldable pub quote_order :
      RateWorld → Order → Result (ParcelMetrics fl.Value × List RateCandidate)
  quote_order w o =
      let origin = map_canada_post_origin o.ship.shipper in
      let dest = map_canada_post_destination o.ship.customer in
      do
        validate_canada_post_address origin dest
        parcel ← build_parcels_from_label_request o.ship.parcel
        options ← build_get_rates_options o.values o.rate_to_cad o.ship.signature
        quotes ← asked w.get_rates (rate_request w.customer_number origin dest parcel options)
        ok (parcel, enabled_only (map_api_rates w.days_until quotes) o.enabled_services)
