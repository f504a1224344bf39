-- ===== src/Rates/Caches.antt =====
-- The maps that the process keeps, and the snapshots that the snapshot store has taken: `storeRateMeta`, `storeRatePrice`,
-- `lookupRatePrice`, `storeCanadaPostAddresses` and `loadCanadaPostAddresses` of service/shipping_service.go.
use canada_post.Prelude.{ℤ, pos, String, List, Option, none, some, if◌then◌else◌}
use canada_post.Text.{trim, is_empty}
use canada_post.Dict.{Dict, find, put}
use canada_post.Float64.{Float64}
use canada_post.Snapshot.{
  CanadaPostOrigin, CanadaPostDestination, RateSnapshot, is_empty_canada_post_address,
}
use canada_post.Rates.{RateMeta}

pub record CanadaPostAddressPair : Type 0 where
  pub origin : CanadaPostOrigin
  pub destination : CanadaPostDestination

-- `rateMetaByID`, `ratePriceByID` and `addressByInvoice`, and the snapshots that the snapshot store has taken
pub record Caches (V : Type 0) : Type 0 where
  pub rate_metas : Dict RateMeta
  pub rate_prices : Dict ℤ
  pub addresses : Dict CanadaPostAddressPair
  pub snapshots : List (RateSnapshot V)

abbrev pub price_or_zero : Option ℤ → ℤ
price_or_zero none = pos 0
price_or_zero (some price) = price

module _ ⦃fl : Float64⦄ where
  unfoldable pub store_rate_meta : String → RateMeta → Caches fl.Value → Caches fl.Value
  store_rate_meta id meta st =
      if is_empty (trim id) then st else record st { rate_metas = put (trim id) meta st.rate_metas }

  unfoldable pub store_rate_price : String → ℤ → Caches fl.Value → Caches fl.Value
  store_rate_price id price st =
      if is_empty (trim id)
      then st
      else record st { rate_prices = put (trim id) price st.rate_prices }

  unfoldable pub lookup_rate_price : String → Caches fl.Value → ℤ
  lookup_rate_price id st =
      if is_empty (trim id) then pos 0 else price_or_zero (find (trim id) st.rate_prices)

  unfoldable pub store_canada_post_addresses :
      String → CanadaPostOrigin → CanadaPostDestination → Caches fl.Value → Caches fl.Value
  store_canada_post_addresses invoice origin dest st =
      let id = trim invoice in
      if is_empty id
      then st
      else if is_empty_canada_post_address origin dest
      then st
      else record st {
        addresses = put id (record { origin = origin; destination = dest }) st.addresses;
      }

  unfoldable pub load_canada_post_addresses :
      String → Caches fl.Value → Option CanadaPostAddressPair
  load_canada_post_addresses invoice st =
      if is_empty (trim invoice) then none else find (trim invoice) st.addresses
