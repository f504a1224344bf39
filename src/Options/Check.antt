-- ===== src/Options/Check.antt =====
-- The checks on built options and on values for a destination: `validateOptions` and
-- `validateCustomInfoForDestination`, in service/label_options.go.
pub mod Spec
pub mod Exact
use canada_post.Prelude.{
  ℕ, ◌+◌, String, List, [], ◌∷◌, Bool, true, false, not, ◌||◌, ◌&&◌, ◌==◌, Result, ok, err, refuse,
  ◌>>=◌, ◌>>◌, if◌then◌else◌, ltb,
}
use canada_post.Text.{◌⧺◌, trim, to_upper, is_empty, blank, code_of}
use canada_post.Dict.{Dict, find, get}
use canada_post.Float64.{Float64, at_most_zero}
use canada_post.Options.Values.{
  non_delivery_handling_field, cod_amount_field, parse_amount, non_delivery_of, is_d2po_enabled,
  is_cod_enabled, run_values,
}
use canada_post.Options.Rules.{is_foreign}
use canada_post.Options.Build.{ShipmentOption, is_non_delivery_code}

-- The cases of the switch in `validateOptions`.
pub data Kind : Type 0 where
  age hfp safe_drop non_delivery cod cov d2po other : Kind

unfoldable pub kind : String → Kind
kind c =
    if c == "PA18" || c == "PA19"
    then age
    else if c == "HFP"
    then hfp
    else if c == "DNS" || c == "LAD"
    then safe_drop
    else if is_non_delivery_code c
    then non_delivery
    else if c == "COD"
    then cod
    else if c == "COV"
    then cov
    else if c == "D2PO"
    then d2po
    else other

-- The local variables of `validateOptions`.
pub record Tally : Type 0 where
  pub age_count : ℕ
  pub delivery_count : ℕ
  pub non_delivery_count : ℕ
  pub has_cod : Bool
  pub has_hfp : Bool
  pub has_d2po : Bool

abbrev pub empty_tally : Tally
empty_tally = record {
  age_count = 0;
  delivery_count = 0;
  non_delivery_count = 0;
  has_cod = false;
  has_hfp = false;
  has_d2po = false;
}

unfoldable pub close_tally : Tally → Result (Unit {0})
close_tally t = do
  refuse (ltb 1 t.age_count) "only one age verification option can be selected"
  refuse (ltb 1 t.delivery_count) "only one delivery method option can be selected"
  refuse (ltb 1 t.non_delivery_count) "only one non-delivery handling option can be selected"
  refuse (t.has_d2po && ltb 0 t.delivery_count)
      "delivery method is mutually exclusive with Deliver to Post Office"
  refuse (t.has_cod && not (t.has_hfp || t.has_d2po))
      "COD requires Hold for Pickup or Deliver to Post Office to be selected"

abbrev pub is_domestic : String → Bool
is_domestic country = code_of country == "CA"

module _ ⦃fl : Float64⦄ where
  -- one round of the loop
  unfoldable pub count_option : String → Kind → ShipmentOption fl.Value → Tally → Result Tally
  count_option country age opt t = ok (record t { age_count = t.age_count + 1 })
  count_option country hfp opt t =
      ok (record t { delivery_count = t.delivery_count + 1; has_hfp = true })
  count_option country safe_drop opt t = ok (record t { delivery_count = t.delivery_count + 1 })
  count_option country non_delivery opt t = do
    refuse (is_domestic country)
        "non-delivery handling options are only valid for USA/International shipments"
    ok (record t { non_delivery_count = t.non_delivery_count + 1 })
  count_option country cod opt t = do
    refuse (is_foreign country) "COD is only available for Canada destinations"
    refuse (at_most_zero opt.option_amount) "COD amount must be greater than zero"
    refuse (blank opt.option_qualifier1) "COD includes_shipping must be provided"
    ok (record t { has_cod = true })
  count_option country cov opt t = do
    refuse (at_most_zero opt.option_amount) "coverage amount must be greater than zero"
    ok t
  count_option country d2po opt t = do
    refuse (is_foreign country) "D2PO is only available for Canada destinations"
    refuse (blank opt.option_qualifier2) "D2PO office_id is required"
    ok (record t { has_d2po = true })
  count_option country other opt t = ok t

  abbrev pub kind_of : ShipmentOption fl.Value → Kind
  kind_of opt = kind (code_of opt.code)

  unfoldable pub count_options : String → List (ShipmentOption fl.Value) → Tally → Result Tally
  count_options country [] t = ok t
  count_options country (opt ∷ opts) t = do
    t' ← count_option country (kind_of opt) opt t
    count_options country opts t'

  unfoldable pub validate_options : List (ShipmentOption fl.Value) → String → Result (Unit {0})
  validate_options [] country = ok tt
  validate_options (opt ∷ opts) country = do
    t ← count_options country (opt ∷ opts) empty_tally
    close_tally t

  unfoldable pub validate_custom_info_for_destination : Dict String → String → Result (Unit {0})
  validate_custom_info_for_destination values country =
      let handling = non_delivery_of values in
      let raw = trim (get values non_delivery_handling_field) in
      let selected = if is_empty raw then handling else raw in
      let (_, cod_ok) = parse_amount (get values cod_amount_field) in
      if is_empty (code_of country)
      then ok tt
      else if is_domestic country
      then refuse (is_non_delivery_code handling) (
          "non_delivery_handling=" ⧺ selected
          ⧺ " is not allowed for destination CA. choose non-delivery handling only for USA/International shipments")
      else do
        refuse (is_cod_enabled values cod_ok) "COD is only available for Canada destinations"
        refuse (is_d2po_enabled values) "D2PO is only available for Canada destinations"

-- Names everything that a run of these functions computes with.
unfoldable pub run_check : Unit {0}
unfolding run_values kind count_option count_options close_tally validate_options
    validate_custom_info_for_destination
run_check = tt
