-- ===== src/Tests/Rates.antt =====
-- A request for rates at concrete inputs.
use Prim.Native.String.{[] as nil, ◌∷◌ as cons}
use canada_post.Prelude.{
  ℕ, zero, suc, ◌<◌, pos, String, [], ◌∷◌, none, some, true, false, ◌==◌, ok, ◌≡◌, refl, ap, ◌∙◌,
  All, eq_iff, arith, Bool-cases, inl, inr,
}
use canada_post.Text.{trim, is_space, is_empty}
use canada_post.Text.Laws.{has_no_space, trim-plain}
use canada_post.Float64.Sample.{Hundredths, num, sample}
use canada_post.Snapshot.{Address}
use canada_post.Rates.{PriceQuote}
use canada_post.Rates.Request.{ShipRequest, ShippingRateRequest, Metadata}
use canada_post.Rates.Caches.{Caches}
use canada_post.Rates.Order.{RateWorld}
use canada_post.Rates.Fetch.{ShippingRate, fetch_rates_from_api, run_fetch}
use canada_post.Options.Rules.{run_rules}
use canada_post.Options.Build.{run_build}
use canada_post.Rates.Fetch.Loop.{IsBacked, IsReliable}
use canada_post.Rates.Fetch.Backed.{fetch_rates_from_api-IsBacked}

abbrev address : String → Address
address zip = record {
  address_id = "";
  street1 = some "1 Main St";
  street2 = none;
  city = some "Ottawa";
  province = none;
  province_code = some "ON";
  zip = some zip;
  phone = some "613-555-0100";
  full_name = some "Ann";
  first_name = none;
  last_name = none;
  company = none;
  country = none;
  country_code = some "CA";
  email = none;
}

abbrev ship : ShipRequest Hundredths
ship = record {
  shipper = some (address "K1A 0B1");
  customer = some (address "M5H 2N2");
  signature = "NO_SIGNATURE";
  invoice_uuid = "inv-1";
  parcel = some (record { weight = num 5000; length = num 0; width = num 0; height = num 0 });
  parcel_insurance = none;
  parcel_items = [];
  customs_info = none;
  insurance = none;
}

abbrev request : ShippingRateRequest Hundredths
request = record { ship_request = some ship; custom_info = []; store_client_id = some (pos 7) }

-- x, xx, xxx and so on
abbrev ids : ℕ → String
ids zero = "x"
ids (suc n) = cons "x" (ids n)

abbrev size : String → ℕ
size nil = 0
size (cons c s) = suc (size s)

size-ids : (n : ℕ) → size (ids n) ≡ suc n
size-ids zero = refl
size-ids (suc n) = ap suc (size-ids n)

ids-plain : (n : ℕ) → has_no_space (ids n) ≡ true
unfolding is_space
ids-plain zero = refl
ids-plain (suc n) = ids-plain n

trim-ids : (n : ℕ) → trim (ids n) ≡ ids n
trim-ids n = trim-plain (ids n) (ids-plain n)

filled : (n : ℕ) → is_empty (ids n) ≡ false
filled zero = refl
filled (suc n) = refl

ids-apart : (i j : ℕ) → i < j → (ids j == ids i) ≡ false
ids-apart i j h = elim (Bool-cases (ids j == ids i)) [
  | inr e ↦ e
  | inl e ↦
      let same : size (ids j) ≡ size (ids i) = ap size ((eq_iff (ids j) (ids i)).0 e) in
      absurd (omega (arith, size-ids i, size-ids j, same, h))
]

abbrev quote : String → Hundredths → PriceQuote Hundredths
quote service price = record {
  service_code = service;
  service_name = "";
  due = price;
  guaranteed_delivery = true;
  expected_transit_time = pos 3;
  expected_delivery_date = "2030-01-02";
}

abbrev world : RateWorld ⦃fl = sample⦄
world = record {
  get_rates = some (λ _. ok (quote "DOM.EP" (num 1500) ∷ (quote "DOM.XP" (num 2100) ∷ [])));
  customer_number = "0001";
  load_enabled_services = λ _. ok (("DOM.XP", true) ∷ []);
  load_currency_rate = λ _ _. ok none;
  save_snapshot = some (λ s. ok tt);
  parse_int = λ _. none;
  days_until = λ _. 4;
  rate_ids = ids;
  now = 0;
}

reliable : IsReliable ⦃fl = sample⦄ world
reliable = record {
  filled = λ n. ap is_empty (trim-ids n) ∙ filled n;
  apart = λ i j h. rw (trim-ids j) (rw (trim-ids i) (ids-apart i j h));
  save = λ s. ok tt;
  stored = refl;
  accepts = λ s. refl;
}

abbrev metadata : Metadata
metadata = record { client_ids = []; currency_codes = [] }

abbrev fresh : Caches Hundredths
fresh = record { rate_metas = []; rate_prices = []; addresses = []; snapshots = [] }

abbrev xpresspost : ShippingRate
xpresspost = record {
  shippingrate_id = "x";
  carrier_name = "Canada Post";
  service_name = "Xpresspost";
  price = 2100;
  delivery_days = 3;
  delivery_date = "2030-01-02";
  delivery_date_guaranteed = true;
}

-- the one service that the settings enable
fetched : (fetch_rates_from_api ⦃fl = sample⦄ world metadata request fresh).0 ≡ ok (xpresspost ∷ [])
unfolding run_rules run_build run_fetch
fetched = refl

fetch_rates_from_api-IsBacked_example :
    All
      (IsBacked ⦃fl = sample⦄ world
        (fetch_rates_from_api ⦃fl = sample⦄ world metadata request fresh).1)
      (xpresspost ∷ [])
fetch_rates_from_api-IsBacked_example =
    fetch_rates_from_api-IsBacked ⦃fl = sample⦄ world reliable metadata request fresh
      (xpresspost ∷ []) fetched
