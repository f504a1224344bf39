-- ===== src/Rates/Fetch/Backed.antt =====
-- What stands behind a rate that is offered.
use canada_post.Prelude.{
  List, some, true, Result, ok, err, >>-eq-ok, >>=-eq-ok, ◌≡◌, refl, subst, All, Option-cases,
  Result-cases, inl, inr,
}
use canada_post.Float64.{Float64}
use canada_post.Snapshot.{
  ParcelMetrics, unwrap_string_value, map_canada_post_origin, map_canada_post_destination,
  validate_canada_post_address,
}
use canada_post.Snapshot.Customs.{build_parcels_from_label_request}
use canada_post.Options.Values.{custom_info_to_map, validate_custom_info_map_values}
use canada_post.Options.Rules.{validate_canada_post_option_rules}
use canada_post.Options.Build.{build_get_rates_options}
use canada_post.Currency.{resolve_request_currency}
use canada_post.Rates.{RateCandidate, map_api_rates}
use canada_post.Rates.Request.{
  ShipRequest, ShippingRateRequest, Metadata, client_id_from_request, request_money, phone_of,
  rate_request,
}
use canada_post.Rates.Caches.{Caches}
use canada_post.Rates.Order.{
  RateWorld, Order, services_of, quote_order, check_order, asked, configured, rate_to_cad_for,
}
use canada_post.Rates.Fetch.{
  ShippingRate, offer_rates, with_addresses, answer_order, fetch_ship_request, fetch_rates_from_api,
}
use canada_post.Rates.Fetch.Loop.{
  is_enabled, IsBacked, IsReliable, enabled_only-All, offer_rates-IsBacked,
}

module _ ⦃fl : Float64⦄ (w : RateWorld) (reliable : IsReliable w) where
  abbrev pub AllBacked : Result (List ShippingRate) × Caches fl.Value → Type 0
  AllBacked run = (rates : List ShippingRate) → run.0 ≡ ok rates → All (IsBacked w run.1) rates

  -- all candidates of a result are of enabled services
  abbrev AllEnabled : Order → Result (ParcelMetrics fl.Value × List RateCandidate) → Type 0
  AllEnabled o (err e) = Unit
  AllEnabled o (ok (_, cs)) = All (λ c. is_enabled o.enabled_services c.service_code ≡ true) cs

  quote_order-AllEnabled :
      (o : Order) (parcel : ParcelMetrics fl.Value) (candidates : List RateCandidate)
      → quote_order w o ≡ ok (parcel, candidates)
      → AllEnabled o (ok (parcel, candidates))
  unfolding quote_order
  quote_order-AllEnabled o parcel candidates h =
      let origin = map_canada_post_origin o.ship.shipper in
      let dest = map_canada_post_destination o.ship.customer in
      let (_, h1) = (>>-eq-ok (validate_canada_post_address origin dest) _ _).0 h in
      let (p, _, h2) = >>=-eq-ok (build_parcels_from_label_request o.ship.parcel) _ h1 in
      let (options, _, h3) =
        >>=-eq-ok (build_get_rates_options o.values o.rate_to_cad o.ship.signature) _ h2 in
      let (quotes, _, h4) =
        >>=-eq-ok (asked w.get_rates (rate_request w.customer_number origin dest p options)) _ h3 in
      subst (AllEnabled o) h4
        (enabled_only-All (map_api_rates w.days_until quotes) o.enabled_services)

  -- the services of an order are those of its client
  abbrev HasServices : Result Order → Type 0
  HasServices (err e) = Unit
  HasServices (ok o) = o.enabled_services ≡ services_of w o.client_id

  check_order-HasServices :
      (metadata : Metadata) (req : ShippingRateRequest fl.Value) (ship : ShipRequest fl.Value)
      (o : Order)
      → check_order w metadata req ship ≡ ok o
      → HasServices (ok o)
  unfolding check_order
  check_order-HasServices metadata req ship o h =
      let values = custom_info_to_map req.custom_info in
      let client = client_id_from_request w.parse_int metadata.client_ids req.store_client_id in
      let currency = resolve_request_currency metadata.currency_codes (some (request_money ship)) in
      let dest = map_canada_post_destination ship.customer in
      let (_, h1) = (>>-eq-ok (configured w.get_rates) _ _).0 h in
      let (_, h2) = (>>-eq-ok (validate_custom_info_map_values values) _ _).0 h1 in
      let (rate, _, h3) = >>=-eq-ok (rate_to_cad_for w client currency) _ h2 in
      let (_, h4) =
        (>>-eq-ok
            (validate_canada_post_option_rules values ship.signature
              (unwrap_string_value (phone_of ship.customer)) dest.country rate)
            _ _).0
          h3 in
      subst HasServices h4 refl

  answer_order-AllBacked :
      (o : Order) (st : Caches fl.Value) → HasServices (ok o) → AllBacked (answer_order w o st)
  unfolding answer_order
  answer_order-AllBacked o st services = elim (Result-cases (quote_order w o)) [
    | inr (_, e) ↦ rw (e, answer_order) (λ _ h. absurd (cc h))
    | inl ((parcel, cs), e) ↦
        rw (e, answer_order)
          (λ rates h.
            let run = offer_rates w o parcel 0 cs (with_addresses o st) in
            let same : run.0 ≡ rates = cc h in
            subst (All (IsBacked w run.1)) same (
              offer_rates-IsBacked w reliable o parcel 0 cs (with_addresses o st) services
                (quote_order-AllEnabled o parcel cs e)))
  ]

  fetch_ship_request-AllBacked :
      (metadata : Metadata) (req : ShippingRateRequest fl.Value) (ship : ShipRequest fl.Value)
      (st : Caches fl.Value)
      → AllBacked (fetch_ship_request w metadata req ship st)
  unfolding fetch_ship_request
  fetch_ship_request-AllBacked metadata req ship st =
      elim (Result-cases (check_order w metadata req ship)) [
        | inr (_, g) ↦ rw (g, fetch_ship_request) (λ _ h. absurd (cc h))
        | inl (o, g) ↦
            rw (g, fetch_ship_request)
              (answer_order-AllBacked o st (check_order-HasServices metadata req ship o g))
      ]

  fetch_rates_from_api-AllBacked :
      (metadata : Metadata) (req : ShippingRateRequest fl.Value) (st : Caches fl.Value)
      → AllBacked (fetch_rates_from_api w metadata req st)
  unfolding fetch_rates_from_api
  fetch_rates_from_api-AllBacked metadata req st = elim (Option-cases req.ship_request) [
    | inl e ↦ rw (e, fetch_rates_from_api) (λ _ h. absurd (cc h))
    | inr (ship, e) ↦
        rw (e, fetch_rates_from_api) (fetch_ship_request-AllBacked metadata req ship st)
  ]

  -- Whatever the request, the settings and the reply of Canada Post: behind each rate that `fetchRatesFromAPI` returns there is a
  -- snapshot that the store has taken under the rate's id, with its service and the price in CAD of which the rate's is the
  -- conversion; the price map holds that price; and the service is one that the settings of the client enable, if they name
  -- any. The random ids are distinct and not blank, and the snapshot store refuses no snapshot.
  pub fetch_rates_from_api-IsBacked :
      (metadata : Metadata) (req : ShippingRateRequest fl.Value) (st : Caches fl.Value)
      (rates : List ShippingRate)
      → (fetch_rates_from_api w metadata req st).0 ≡ ok rates
      → All (IsBacked w (fetch_rates_from_api w metadata req st).1) rates
  fetch_rates_from_api-IsBacked metadata req st rates h =
      fetch_rates_from_api-AllBacked metadata req st rates h
