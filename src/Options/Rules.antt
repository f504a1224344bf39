-- ===== src/Options/Rules.antt =====
-- The business rules on option values: `validateCanadaPostOptionRules` and its parts, in
-- service/canada_post_options.go.
use canada_post.Prelude.{
  pos, String, List, [], ◌∷◌, ◌++◌, Bool, not, ◌||◌, ◌&&◌, ◌==◌, Result, ok, err, refuse, ◌>>◌,
  if◌then◌else◌, leb, length,
}
use canada_post.Text.{◌⧺◌, trim, is_empty, blank, code_of}
use canada_post.Dict.{Dict, get}
use canada_post.Float64.{Float64}
use canada_post.Options.Values.{
  cod_enabled_field, cod_amount_field, so_enabled_field, d2po_office_id_field,
  d2po_office_selection_field, d2po_notification_email_field, non_delivery_handling_field,
  parse_bool, parse_amount, age_of, delivery_of, non_delivery_of, signature_enabled,
  is_d2po_enabled, is_no_d2po_selection, rate_or_one, run_values,
}

abbrev pub is_proof_of_age : String → Bool
is_proof_of_age age = age == "PA18" || age == "PA19"

unfoldable pub validate_signature_requirement : Dict String → String → Result (Unit {0})
validate_signature_requirement values signature =
    let needs = is_proof_of_age (age_of values) in
    let leave = delivery_of values == "LAD" in
    let signed = signature_enabled signature || parse_bool (get values so_enabled_field) in
    do
      refuse (needs && not signed)
          "age verification requires signature option. please enable signature to continue"
      refuse (leave && signed)
          "Leave at Door cannot be combined with signature option. please choose standard delivery or another delivery method"
      refuse (needs && leave)
          "Leave at Door cannot be combined with age verification. please choose standard delivery"

-- the label that the switch appends for a delivery method
abbrev delivery_label : String → List String
delivery_label delivery =
    if delivery == "HFP"
    then "Hold for Pickup (Pay at Post Office)" ∷ []
    else if delivery == "DNS"
    then "Do Not Safe Drop" ∷ []
    else if delivery == "LAD"
    then "Leave at Door" ∷ []
    else []

-- `strings.Join(selected, ", ")`
join_comma : List String → String
join_comma [] = ""
join_comma (x ∷ []) = x
join_comma (x ∷ xs) = x ⧺ ", " ⧺ join_comma xs

unfoldable pub validate_delivery_method_exclusivity : Dict String → Result (Unit {0})
unfolding join_comma
validate_delivery_method_exclusivity values =
    let selected =
      delivery_label (delivery_of values)
      ++ (if is_d2po_enabled values then "Deliver to Post Office" ∷ [] else []) in
    if leb (length selected) 1
    then ok tt
    else err ("only one delivery method can be selected, but found: " ⧺ join_comma selected)

abbrev pub is_foreign : String → Bool
is_foreign country = not (is_empty (code_of country)) && not (code_of country == "CA")

unfoldable pub validate_non_delivery_handling : Dict String → String → Result (Unit {0})
validate_non_delivery_handling values country =
    let handling = non_delivery_of values in
    let raw = trim (get values non_delivery_handling_field) in
    let selected = if is_empty raw then handling else raw in
    if is_empty handling
    then ok tt
    else if not (code_of country == "CA")
    then ok tt
    else err (
        "non-delivery handling option '" ⧺ selected
        ⧺ "' is not available for Canadian destinations. these options are only available for USA and international shipments")

unfoldable pub validate_d2po_requirements : Dict String → String → String → Result (Unit {0})
validate_d2po_requirements values phone country =
    if not (is_d2po_enabled values)
    then ok tt
    else let selection = trim (get values d2po_office_selection_field) in
      let office = if is_no_d2po_selection selection then "" else selection in
      let delivery = delivery_of values in
      do
        refuse (is_foreign country)
            "Deliver to Post Office is only available for Canadian destinations"
        refuse (blank (get values d2po_office_id_field) && is_empty office)
            "post office selection is required when Deliver to Post Office is selected"
        refuse (blank (get values d2po_notification_email_field))
            "email is required for post office delivery notifications"
        refuse (blank phone) "recipient phone number is required when using Deliver to Post Office"
        refuse (delivery == "HFP")
            "cannot select both Hold for Pickup (Pay at Post Office) and Deliver to Post Office"
        refuse (delivery == "LAD") "cannot select both Leave at Door and Deliver to Post Office"
        refuse (delivery == "DNS") "cannot select both Do Not Safe Drop and Deliver to Post Office"

module _ ⦃fl : Float64⦄ where
  unfoldable pub validate_cod_requirements : Dict String → String → fl.Value → Result (Unit {0})
  validate_cod_requirements values country rate =
      let (amount, amount_ok) = parse_amount (trim (get values cod_amount_field)) in
      if not (parse_bool (get values cod_enabled_field) || amount_ok)
      then ok tt
      else let delivery = delivery_of values in
        do
          refuse (not amount_ok) "COD amount is required and must be a positive number"
          refuse (is_foreign country) "COD is only available for Canadian destinations"
          refuse (fl.lt (fl.of_int (pos 1000)) (fl.mul amount (rate_or_one rate)))
              "COD amount cannot exceed $1,000 CAD"
          refuse (delivery == "LAD") "COD cannot be combined with Leave at Door"
          refuse (delivery == "DNS") "COD cannot be combined with Do Not Safe Drop"
          refuse (not (delivery == "HFP" || is_d2po_enabled values))
              "COD requires Hold for Pickup or Deliver to Post Office to be selected"

  -- `validateCanadaPostOptionRules`
  unfoldable pub validate_canada_post_option_rules :
      Dict String → String → String → String → fl.Value → Result (Unit {0})
  validate_canada_post_option_rules values signature phone country rate = do
    validate_signature_requirement values signature
    validate_delivery_method_exclusivity values
    validate_cod_requirements values country rate
    validate_d2po_requirements values phone country
    validate_non_delivery_handling values country

-- Names everything that a run of the rules computes with.
unfoldable pub run_rules : Unit {0}
unfolding run_values join_comma validate_signature_requirement validate_delivery_method_exclusivity
    validate_non_delivery_handling validate_d2po_requirements validate_cod_requirements
    validate_canada_post_option_rules
run_rules = tt
