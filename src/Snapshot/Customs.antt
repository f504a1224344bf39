-- ===== src/Snapshot/Customs.antt =====
-- Customs, insurance and parcels of a request: `snapshotCustoms` and `snapshotInsurance` of
-- service/rate_snapshot_store.go, `ouncesToKilograms` and `buildParcelsFromLabelRequest` of
-- service/shipping_service.go.
use canada_post.Prelude.{
  ℤ, pos, String, List, [], ◌∷◌, Option, none, some, Bool, ◌&&◌, Result, ok, err, refuse, ◌>>◌,
  if◌then◌else◌, is_positive,
}
use canada_post.Text.{trim, is_empty}
use canada_post.Float64.{Float64, zero_value, at_most_zero, above_zero}
use canada_post.Snapshot.{CustomItemSnapshot, CustomsSnapshot, InsuranceSnapshot, ParcelMetrics}

-- `money.Money`
pub record Money : Type 0 where
  pub decimal : String
  pub currency_code : String
  pub amount : ℤ

-- `labels.CustomItem`, its weight in ounces
pub record CustomItem (V : Type 0) : Type 0 where
  pub description : String
  pub quantity : ℤ
  pub total_value : Option Money
  pub weight : V
  pub hs_tariff_number : String
  pub code : String
  pub origin_country : String

-- `labels.CustomsInfo`
pub record CustomsInfo (V : Type 0) : Type 0 where
  pub eel_pfc : String
  pub contents_type : String
  pub contents_explanation : String
  pub restriction_comments : String
  pub custom_items : List (Option (CustomItem V))

-- `labels.Parcel`, its weight in ounces
pub record Parcel (V : Type 0) : Type 0 where
  pub weight : V
  pub length : V
  pub width : V
  pub height : V

abbrev pub money_currency : Option Money → String
money_currency none = ""
money_currency (some m) = m.currency_code

abbrev pub money_amount : Option Money → ℤ
money_amount none = pos 0
money_amount (some m) = m.amount

unfoldable pub snapshot_insurance : Option Money → InsuranceSnapshot
snapshot_insurance none = record { decimal = ""; currency_code = ""; amount = pos 0 }
snapshot_insurance (some m) = record {
  decimal = trim m.decimal;
  currency_code = trim m.currency_code;
  amount = m.amount;
}

-- `currency` of the loop in `snapshotCustoms`: the first that is not blank
unfoldable pub first_currency : {V : Type 0} → String → List (Option (CustomItem V)) → String
first_currency currency [] = currency
first_currency currency (none ∷ items) = first_currency currency items
first_currency currency (some item ∷ items) =
    first_currency (if is_empty currency then trim (money_currency item.total_value) else currency)
      items

module _ ⦃fl : Float64⦄ where
  unfoldable pub ounces_to_kilograms : fl.Value → fl.Value
  ounces_to_kilograms ounces =
      if at_most_zero ounces
      then zero_value
      else fl.div
          (fl.round (fl.mul (fl.div ounces (fl.decimal 3527396195 8)) (fl.of_int (pos 100))))
          (fl.of_int (pos 100))

  unfoldable pub has_positive_dimensions : fl.Value → fl.Value → fl.Value → Bool
  has_positive_dimensions l w h = above_zero l && above_zero w && above_zero h

  unfoldable pub build_parcels_from_label_request :
      Option (Parcel fl.Value) → Result (ParcelMetrics fl.Value)
  build_parcels_from_label_request none = err "parcel is required"
  build_parcels_from_label_request (some p) = do
    refuse (at_most_zero p.weight) "parcel weight is required"
    ok (record {
      weight = ounces_to_kilograms p.weight;
      length = p.length;
      width = p.width;
      height = p.height;
    })

  -- one item of the loop in `snapshotCustoms`
  unfoldable pub snapshot_item : CustomItem fl.Value → CustomItemSnapshot fl.Value
  snapshot_item item = record {
    description = trim item.description;
    quantity = if is_positive item.quantity then item.quantity else pos 1;
    total_value_cents = money_amount item.total_value;
    weight = ounces_to_kilograms item.weight;
    hs_tariff_number = trim item.hs_tariff_number;
    code = trim item.code;
    origin_country = trim item.origin_country;
  }

  unfoldable pub snapshot_items :
      List (Option (CustomItem fl.Value)) → List (CustomItemSnapshot fl.Value)
  snapshot_items [] = []
  snapshot_items (none ∷ items) = snapshot_items items
  snapshot_items (some item ∷ items) = snapshot_item item ∷ snapshot_items items

  unfoldable pub snapshot_customs :
      Option (CustomsInfo fl.Value) → Option (CustomsSnapshot fl.Value)
  snapshot_customs none = none
  snapshot_customs (some info) = some (record {
    eel_pfc = trim info.eel_pfc;
    contents_type = info.contents_type;
    contents_explanation = trim info.contents_explanation;
    restriction_comments = trim info.restriction_comments;
    currency = first_currency "" info.custom_items;
    custom_items = snapshot_items info.custom_items;
  })
