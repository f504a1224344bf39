-- ===== src/Options/Build.antt =====
-- Building the options of a shipment: `buildGetRatesOptions`, `buildCreateLabelOptions`, the map helpers
-- and `dedupeRateOptions` of service/canada_post_options.go; `dedupeShipmentOptions`,
-- `mergeShipmentOptions` and `hasNonDeliveryOption` of service/label_options.go.
use canada_post.Prelude.{
  ℤ, String, List, [], ◌∷◌, ◌++◌, Option, none, some, Bool, true, not, ◌||◌, ◌&&◌, ◌==◌, Result, ok,
  err, refuse, ◌>>=◌, ◌>>◌, if◌then◌else◌, any,
}
use canada_post.Text.{◌⧺◌, trim, to_upper, is_empty, blank, code_of}
use canada_post.Dict.{Dict, put, get}
use canada_post.Float64.{Float64, zero_value}
use canada_post.Offices.{Answer, resolve_office_id_from_selection}
use canada_post.Options.Values.{
  cod_amount_field, cod_includes_shipping_field, so_enabled_field, cov_amount_field,
  d2po_office_id_field, d2po_office_selection_field, d2po_notification_email_field, parse_bool,
  parse_amount, normalize_bool_string, age_of, delivery_of, non_delivery_of, signature_enabled,
  is_d2po_enabled, is_no_d2po_selection, is_cod_enabled, is_cov_enabled, rate_or_one, run_values,
}
use canada_post.Options.Rules.{is_proof_of_age}

pub record ShipmentOption (V : Type 0) : Type 0 where
  pub code : String
  pub option_amount : V
  pub option_qualifier1 : String
  pub option_qualifier2 : String

pub record RateOption (V : Type 0) : Type 0 where
  pub code : String
  pub option_amount : V

pub record ShipmentNotification : Type 0 where
  pub email : String
  pub on_shipment : Bool
  pub on_exception : Bool
  pub on_delivery : Bool

-- `cloneOptionsMap`: nil and the empty map are one value, as every reader treats them alike
unfoldable pub clone_options_map : Dict String → Dict String
clone_options_map [] = []
clone_options_map ((k, v) ∷ values) = (k, trim v) ∷ clone_options_map values

put_all : Dict String → Dict String → Dict String
put_all merged [] = merged
put_all merged ((k, v) ∷ incoming) = put_all (put k (trim v) merged) incoming

unfoldable pub merge_options_maps : Dict String → Dict String → Dict String
unfolding put_all
merge_options_maps stored incoming = put_all (clone_options_map stored) incoming

-- The loop of both `dedupe` functions, over the code of an item and the codes seen.
module _ {ℓ} {A : Type ℓ} (code : A → String) where
  unfoldable pub dedupe_from : List String → List A → List A
  dedupe_from seen [] = []
  dedupe_from seen (opt ∷ opts) =
      let c = code_of (code opt) in
      let skip = is_empty c || any (λ s. s == c) seen in
      let rest = dedupe_from (if skip then seen else c ∷ seen) opts in
      if skip then rest else opt ∷ rest

abbrev pub shipment_code : {V : Type 0} → ShipmentOption V → String
shipment_code o = o.code

abbrev rate_code : {V : Type 0} → RateOption V → String
rate_code o = o.code

unfoldable pub dedupe_shipment_options :
    {V : Type 0} → List (ShipmentOption V) → List (ShipmentOption V)
dedupe_shipment_options opts = dedupe_from shipment_code [] opts

unfoldable pub dedupe_rate_options : {V : Type 0} → List (RateOption V) → List (RateOption V)
dedupe_rate_options opts = dedupe_from rate_code [] opts

abbrev pub is_non_delivery_code : String → Bool
is_non_delivery_code c = c == "RASE" || c == "RTS" || c == "ABAN"

unfoldable pub has_non_delivery_option : {V : Type 0} → List (ShipmentOption V) → Bool
has_non_delivery_option opts = any (λ o. is_non_delivery_code (code_of (shipment_code o))) opts

-- `requiresCustoms`, in service/shipping_service.go
unfoldable pub requires_customs : String → Bool
requires_customs country =
    let code = trim (to_upper country) in not (is_empty code) && not (code == "CA")

abbrev pub is_delivery_code : String → Bool
is_delivery_code c = c == "HFP" || c == "DNS" || c == "LAD"

module _ ⦃fl : Float64⦄ where
  -- an option that has a code alone
  abbrev pub coded : String → ShipmentOption fl.Value
  coded c = record {
    code = c;
    option_amount = zero_value;
    option_qualifier1 = "";
    option_qualifier2 = "";
  }

  abbrev pub coded_if : Bool → String → List (ShipmentOption fl.Value)
  coded_if b c = if b then coded c ∷ [] else []

  unfoldable pub build_get_rates_options :
      Dict String → fl.Value → String → Result (List (RateOption fl.Value))
  build_get_rates_options values rate signature =
      let r = rate_or_one rate in
      let (amount, amount_ok) = parse_amount (get values cov_amount_field) in
      let signed = parse_bool (get values so_enabled_field) || signature_enabled signature in
      let so : List (RateOption fl.Value) =
        if signed then record { code = "SO"; option_amount = zero_value } ∷ [] else [] in
      if is_cov_enabled values amount_ok
      then (do
        refuse (not amount_ok) "COV amount is required and must be a positive number"
        ok (
            dedupe_rate_options
              (so ++ record { code = "COV"; option_amount = fl.mul amount r } ∷ [])))
      else ok (dedupe_rate_options so)

  -- the COV part of `buildCreateLabelOptions`
  unfoldable pub cov_options : Dict String → fl.Value → Result (List (ShipmentOption fl.Value))
  cov_options values r =
      let (amount, amount_ok) = parse_amount (get values cov_amount_field) in
      if not (is_cov_enabled values amount_ok) then ok [] else do
        refuse (not amount_ok) "COV amount is required and must be a positive number"
        ok (record (coded "COV") { option_amount = fl.mul amount r } ∷ [])

  -- its COD part
  unfoldable pub cod_options : Dict String → fl.Value → Result (List (ShipmentOption fl.Value))
  cod_options values r =
      let (amount, amount_ok) = parse_amount (get values cod_amount_field) in
      if not (is_cod_enabled values amount_ok) then ok [] else do
        refuse (not amount_ok) "COD amount is required and must be a positive number"
        ok (
            record (coded "COD") {
              option_amount = fl.mul amount r;
              option_qualifier1 = normalize_bool_string (get values cod_includes_shipping_field);
            }
            ∷ [])

  -- The database as `resolveOfficeIDFromSelection` sees it.
  module _ (configured : Bool) (query : ℤ → String → Answer String) (client : ℤ) where
    -- the office of its D2PO part: the given id, or the one that the selection names
    unfoldable pub chosen_office : Dict String → Result String
    chosen_office values =
        let office_id = trim (get values d2po_office_id_field) in
        let selection = trim (get values d2po_office_selection_field) in
        if not (is_empty office_id)
        then ok office_id
        else if is_no_d2po_selection selection || is_empty selection
        then ok ""
        else elim (resolve_office_id_from_selection configured query client selection) [
          | ok resolved ↦ ok resolved
          | err e ↦ err ("failed to resolve post office selection: " ⧺ e)
        ]

    -- the D2PO or delivery part, with the notification
    unfoldable pub delivery_options :
        Dict String → Result (List (ShipmentOption fl.Value) × Option ShipmentNotification)
    delivery_options values =
        let delivery = delivery_of values in
        let email = trim (get values d2po_notification_email_field) in
        if not (is_d2po_enabled values)
        then ok (coded_if (is_delivery_code delivery) delivery, none)
        else do
          refuse (is_delivery_code delivery)
              "delivery method is mutually exclusive with Deliver to Post Office"
          office_id ← chosen_office values
          refuse (blank office_id)
              "D2PO office selection is required when Deliver to Post Office is enabled"
          refuse (is_empty email) "D2PO notification email is required"
          ok (
            record (coded "D2PO") { option_qualifier2 = office_id } ∷ [],
            some (record {
              email = email;
              on_shipment = true;
              on_exception = true;
              on_delivery = true;
            }),
          )

    unfoldable pub build_create_label_options :
        Dict String
        → fl.Value
        → Result (List (ShipmentOption fl.Value) × Option ShipmentNotification)
    build_create_label_options values rate =
        let r = rate_or_one rate in
        let age = age_of values in
        let handling = non_delivery_of values in
        do
          cov ← cov_options values r
          cod ← cod_options values r
          (delivery, notification) ← delivery_options values
          ok (
            dedupe_shipment_options (
                coded_if (parse_bool (get values so_enabled_field)) "SO"
                ++ (cov
                    ++ (cod
                        ++ (delivery
                            ++ (coded_if (is_proof_of_age age) age
                                ++ coded_if (is_non_delivery_code handling) handling))))),
            notification,
          )

abbrev pub default_non_delivery_option : String
default_non_delivery_option = "RASE"

module _ ⦃fl : Float64⦄ where
  unfoldable pub merge_shipment_options :
      List (ShipmentOption fl.Value) → String → List (ShipmentOption fl.Value)
  merge_shipment_options options country =
      let final = dedupe_shipment_options options in
      if requires_customs country && not (has_non_delivery_option final)
      then final ++ coded default_non_delivery_option ∷ []
      else final

-- Names everything that a run of these functions computes with.
unfoldable pub run_build : Unit {0}
unfolding run_values clone_options_map put_all merge_options_maps dedupe_from
    dedupe_shipment_options dedupe_rate_options has_non_delivery_option requires_customs
    build_get_rates_options cov_options cod_options chosen_office delivery_options
    build_create_label_options merge_shipment_options resolve_office_id_from_selection
run_build = tt
