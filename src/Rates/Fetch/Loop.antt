-- ===== src/Rates/Fetch/Loop.antt =====
-- The loop of `fetchRatesFromAPI` over the candidates: what it leaves in the maps and with the snapshot store.
use canada_post.Prelude.{
  ℕ, suc, ◌<◌, ℤ, String, List, [], ◌∷◌, some, Bool, true, false, ◌||◌, ◌==◌, Result, ok,
  if◌then◌else◌, ◌≡◌, refl, sym, ap, ◌∙◌, All, arith, Bool-cases, inl, inr, eq_refl,
}
use mathlib.Core.List.{Memᴰ}
use canada_post.Text.{trim, is_empty}
use canada_post.Dict.{Dict, find, has}
use canada_post.Dict.Laws.{find-put}
use canada_post.Float64.{Float64}
use canada_post.Snapshot.{RateSnapshot, ParcelMetrics}
use canada_post.Currency.{convert_cad_to_currency_cents}
use canada_post.Rates.{RateCandidate, to_uint32, filter_rate_candidates_by_service}
use canada_post.Rates.Caches.{Caches, lookup_rate_price, store_rate_price, store_rate_meta}
use canada_post.Rates.Order.{RateWorld, Order, is_none_set, services_of, enabled_only}
use canada_post.Rates.Fetch.{
  ShippingRate, save_snapshot, order_snapshot, display_price, shipping_rate, store_rate,
  offer_rates,
}

-- the services of the settings, when they name any, have this one
abbrev pub is_enabled : Dict Bool → String → Bool
is_enabled enabled code = is_none_set enabled || has enabled code

filter-All :
    (cs : List RateCandidate) (enabled : Dict Bool)
    → All (λ c. has enabled c.service_code ≡ true) (filter_rate_candidates_by_service cs enabled)
unfolding filter_rate_candidates_by_service
filter-All [] enabled = tt
filter-All (c ∷ cs) enabled = elim (Bool-cases (has enabled c.service_code)) [
  | inl e ↦ rw (e, filter_rate_candidates_by_service) (e, filter-All cs enabled)
  | inr e ↦ rw (e, filter_rate_candidates_by_service) (filter-All cs enabled)
]

nothing_set : (cs : List RateCandidate) → All (λ c. is_enabled [] c.service_code ≡ true) cs
nothing_set [] = tt
nothing_set (c ∷ cs) = (refl, nothing_set cs)

pub enabled_only-All :
    ⦃fl : Float64⦄ (cs : List RateCandidate) (enabled : Dict Bool)
    → All (λ c. is_enabled enabled c.service_code ≡ true) (enabled_only cs enabled)
enabled_only-All cs [] = nothing_set cs
enabled_only-All cs (e ∷ enabled) = filter-All cs (e ∷ enabled)

module _ ⦃fl : Float64⦄ (w : RateWorld) where
  -- the price in the currency of a snapshot
  abbrev pub snapshot_price : RateSnapshot fl.Value → ℤ
  snapshot_price s =
      if s.currency_code == "CAD"
      then s.price_cents
      else convert_cad_to_currency_cents s.price_cents s.rate_to_cad

  -- the snapshot store has taken a snapshot for the rate, of its service and price; the price map holds the price in CAD; and the
  -- service is one that the client's settings enable
  abbrev pub IsBacked : Caches fl.Value → ShippingRate → Type 0
  IsBacked st rate =
      (s : RateSnapshot fl.Value) × Memᴰ s st.snapshots
      × (s.rate_id ≡ rate.shippingrate_id)
      × (s.service_name ≡ rate.service_name)
      × (rate.price ≡ to_uint32 (snapshot_price s))
      × (lookup_rate_price rate.shippingrate_id st ≡ s.price_cents)
      × (is_enabled (services_of w s.client_id) s.service_code ≡ true)

  -- what the random ids and the snapshot store are assumed to do
  pub record IsReliable : Type 0 where
    pub filled : (n : ℕ) → is_empty (trim (w.rate_ids n)) ≡ false
    pub apart : (i j : ℕ) → i < j → (trim (w.rate_ids j) == trim (w.rate_ids i)) ≡ false
    pub save : RateSnapshot fl.Value → Result (Unit {0})
    pub stored : w.save_snapshot ≡ some save
    pub accepts : (s : RateSnapshot fl.Value) → save s ≡ ok tt

module _ ⦃fl : Float64⦄ (w : RateWorld) (reliable : IsReliable w) (o : Order)
    (parcel : ParcelMetrics fl.Value) where
  abbrev stored_by : ℕ → RateCandidate → Caches fl.Value → Caches fl.Value
  stored_by n c st = store_rate w o parcel (w.rate_ids n) c st

  abbrev offered : ℕ → List RateCandidate → Caches fl.Value → List ShippingRate × Caches fl.Value
  offered n cs st = offer_rates w o parcel n cs st

  save_snapshot-taken :
      (s : RateSnapshot fl.Value) (st : Caches fl.Value)
      → save_snapshot w.save_snapshot s st ≡ record st { snapshots = s ∷ st.snapshots }
  unfolding save_snapshot
  save_snapshot-taken s st = rw reliable.stored (rw (reliable.accepts s) refl)

  store_rate-snapshots :
      (n : ℕ) (c : RateCandidate) (st : Caches fl.Value)
      → (stored_by n c st).snapshots ≡ order_snapshot w o parcel (w.rate_ids n) c ∷ st.snapshots
  unfolding store_rate store_rate_price store_rate_meta
  store_rate-snapshots n c st =
      let s = order_snapshot w o parcel (w.rate_ids n) c in
      rw (reliable.filled n) (ap (λ t. t.snapshots) (save_snapshot-taken s st))

  store_rate-prices :
      (n : ℕ) (c : RateCandidate) (st : Caches fl.Value) (id : String)
      → find id (stored_by n c st).rate_prices
        ≡ (if trim (w.rate_ids n) == id then some c.price_cents else find id st.rate_prices)
  unfolding store_rate store_rate_price store_rate_meta
  store_rate-prices n c st id =
      let s = order_snapshot w o parcel (w.rate_ids n) c in
      rw (reliable.filled n) (
        rw (save_snapshot-taken s st)
          (find-put (trim (w.rate_ids n)) id c.price_cents st.rate_prices))

  offer_rates-keeps_snapshots :
      (n : ℕ) (cs : List RateCandidate) (st : Caches fl.Value) (s : RateSnapshot fl.Value)
      → Memᴰ s st.snapshots
      → Memᴰ s (offered n cs st).1.snapshots
  unfolding offer_rates
  offer_rates-keeps_snapshots n [] st s m = m
  offer_rates-keeps_snapshots n (c ∷ cs) st s m =
      offer_rates-keeps_snapshots (suc n) cs (stored_by n c st) s
        (rw (store_rate-snapshots n c st) (Memᴰ.tail m))

  -- later rates leave the prices of earlier ones
  offer_rates-keeps_prices :
      (i n : ℕ) (cs : List RateCandidate) (st : Caches fl.Value)
      → i < n
      → find (trim (w.rate_ids i)) (offered n cs st).1.rate_prices
        ≡ find (trim (w.rate_ids i)) st.rate_prices
  unfolding offer_rates
  offer_rates-keeps_prices i n [] st h = refl
  offer_rates-keeps_prices i n (c ∷ cs) st h =
      offer_rates-keeps_prices i (suc n) cs (stored_by n c st) (omega (arith, h))
      ∙ (store_rate-prices n c st (trim (w.rate_ids i)) ∙ rw (reliable.apart i n h) refl)

  offer_rates-lookup :
      (n : ℕ) (c : RateCandidate) (cs : List RateCandidate) (st : Caches fl.Value)
      → lookup_rate_price (w.rate_ids n) (offered (suc n) cs (stored_by n c st)).1 ≡ c.price_cents
  unfolding lookup_rate_price
  offer_rates-lookup n c cs st =
      let id = trim (w.rate_ids n) in
      rw (reliable.filled n) (
        rw (offer_rates-keeps_prices n (suc n) cs (stored_by n c st) (omega arith))
          (rw (store_rate-prices n c st id) (rw (eq_refl id) refl)))

  pub offer_rates-IsBacked :
      (n : ℕ) (cs : List RateCandidate) (st : Caches fl.Value)
      → o.enabled_services ≡ services_of w o.client_id
      → All (λ c. is_enabled o.enabled_services c.service_code ≡ true) cs
      → All (IsBacked w (offered n cs st).1) (offered n cs st).0
  unfolding offer_rates shipping_rate order_snapshot display_price
  offer_rates-IsBacked n [] st enabled _ = tt
  offer_rates-IsBacked n (c ∷ cs) st enabled (allowed, others) =
      let next = stored_by n c st in
      let s = order_snapshot w o parcel (w.rate_ids n) c in
      (
        (
          s,
          offer_rates-keeps_snapshots (suc n) cs next s
              (rw (store_rate-snapshots n c st) (Memᴰ.head refl)),
          refl,
          refl,
          refl,
          offer_rates-lookup n c cs st,
          rw (sym enabled) allowed,
        ),
        offer_rates-IsBacked (suc n) cs next enabled others,
      )
