-- ===== src/Options/Values.antt =====
-- The option values of a request and their normal forms: the field names, label lists and maps of
-- service/label_options.go with `customInfoToMap`, `parseBool`, `parseAmount`, `resolveMappedValue` and
-- the field validators, and the predicates of service/canada_post_options.go.
pub mod Laws
use canada_post.Prelude.{
  pos, String, List, [], ◌∷◌, ◌++◌, Option, none, some, Bool, true, false, not, ◌||◌, ◌&&◌, ◌==◌,
  Result, ok, err, refuse, ◌>>◌, if◌then◌else◌, any,
}
use canada_post.Text.{◌⧺◌, trim, to_upper, to_lower, is_empty, blank, code_of}
use canada_post.Dict.{Dict, find, put, get}
use canada_post.Float64.{Float64, zero_value, at_most_zero}

-- A `ShippingDynamicData` message, as far as the program reads it.
pub record DynamicField : Type 0 where
  pub name : String
  pub value : String

abbrev pub cod_enabled_field : String
cod_enabled_field = "COD_enabled"

abbrev pub cod_amount_field : String
cod_amount_field = "COD_amount"

abbrev pub cod_includes_shipping_field : String
cod_includes_shipping_field = "COD_includes_shipping"

abbrev pub age_verification_field : String
age_verification_field = "age_verification"

abbrev pub delivery_method_field : String
delivery_method_field = "delivery_method"

abbrev pub non_delivery_handling_field : String
non_delivery_handling_field = "non_delivery_handling"

abbrev pub d2po_enabled_field : String
d2po_enabled_field = "D2PO_enabled"

abbrev pub d2po_office_id_field : String
d2po_office_id_field = "D2PO_office_id"

abbrev pub d2po_office_selection_field : String
d2po_office_selection_field = "D2PO_office_selection"

abbrev pub d2po_notification_email_field : String
d2po_notification_email_field = "D2PO_notification_email"

abbrev pub so_enabled_field : String
so_enabled_field = "SO_enabled"

abbrev pub cov_enabled_field : String
cov_enabled_field = "COV_enabled"

abbrev pub cov_amount_field : String
cov_amount_field = "COV_amount"

abbrev pub no_d2po_selection_label : String
no_d2po_selection_label = "No Post Office Delivery"

abbrev pub age_verification_labels : List String
age_verification_labels = "No Age Verification" ∷ "Proof of Age 18+" ∷ "Proof of Age 19+" ∷ []

abbrev pub delivery_method_labels : List String
delivery_method_labels =
    "No Delivery Preference" ∷ "Standard Delivery" ∷ "Hold for Pickup (Pay at Post Office)"
    ∷ "Do Not Safe Drop" ∷ "Leave at Door" ∷ []

abbrev pub non_delivery_labels : List String
non_delivery_labels =
    "No Non-Delivery Handling" ∷ "Return at Sender's Expense" ∷ "Return to Sender"
    ∷ "Abandon Shipment" ∷ []

pub age_verification_map : Dict String
age_verification_map =
    ("NO AGE VERIFICATION", "NONE")
    ∷ ("PROOF OF AGE 18+", "PA18")
    ∷ ("PROOF OF AGE 19+", "PA19")
    ∷ ("NONE", "NONE")
    ∷ ("PA18", "PA18")
    ∷ ("PA19", "PA19")
    ∷ []

pub delivery_method_map : Dict String
delivery_method_map =
    ("NO DELIVERY PREFERENCE", "STANDARD")
    ∷ ("HOLD FOR PICKUP (PAY AT POST OFFICE)", "HFP")
    ∷ ("DO NOT SAFE DROP", "DNS")
    ∷ ("LEAVE AT DOOR", "LAD")
    ∷ ("STANDARD", "STANDARD")
    ∷ ("HFP", "HFP")
    ∷ ("DNS", "DNS")
    ∷ ("LAD", "LAD")
    ∷ []

pub non_delivery_map : Dict String
non_delivery_map =
    ("NO NON-DELIVERY HANDLING", "")
    ∷ ("RETURN AT SENDER'S EXPENSE", "RASE")
    ∷ ("RETURN TO SENDER", "RTS")
    ∷ ("ABANDON SHIPMENT", "ABAN")
    ∷ ("RASE", "RASE")
    ∷ ("RTS", "RTS")
    ∷ ("ABAN", "ABAN")
    ∷ []

-- `customInfoToMap`: a nil item is `none`
custom_info_onto : Dict String → List (Option DynamicField) → Dict String
custom_info_onto values [] = values
custom_info_onto values (none ∷ items) = custom_info_onto values items
custom_info_onto values (some item ∷ items) =
    let name = trim item.name in
    custom_info_onto (if is_empty name then values else put name (trim item.value) values) items

unfoldable pub custom_info_to_map : List (Option DynamicField) → Dict String
unfolding custom_info_onto
custom_info_to_map items = custom_info_onto [] items

unfoldable pub parse_bool : String → Bool
parse_bool value = let v = to_lower (trim value) in v == "true" || v == "1" || v == "yes"

unfoldable pub normalize_bool_string : String → String
normalize_bool_string value = if parse_bool value then "true" else "false"

abbrev or_else : Option String → String → String
or_else none v = v
or_else (some mapped) v = mapped

unfoldable pub resolve_mapped_value : String → Dict String → String
resolve_mapped_value value mapping =
    let v = code_of value in if is_empty v then "" else or_else (find v mapping) v

-- `resolveMappedValue(values[fieldAgeVerification], ageVerificationMap)` and its siblings
unfoldable pub age_of : Dict String → String
age_of values = resolve_mapped_value (get values age_verification_field) age_verification_map

unfoldable pub delivery_of : Dict String → String
delivery_of values = resolve_mapped_value (get values delivery_method_field) delivery_method_map

unfoldable pub non_delivery_of : Dict String → String
non_delivery_of values =
    resolve_mapped_value (get values non_delivery_handling_field) non_delivery_map

-- `len(value) != 0 && value != "true" && …` of the validators: an absent or blank field is accepted
unfoldable pub validate_bool_field : Dict String → String → Result (Unit {0})
validate_bool_field values field = elim (find field values) [
  | none ↦ ok tt
  | some value ↦
      if blank value
      then ok tt
      else let v = to_lower (trim value) in
        if v == "true" || v == "false" || v == "1" || v == "0" || v == "yes" || v == "no"
        then ok tt
        else err ("invalid boolean value for " ⧺ field)
]

unfoldable pub validate_enum_field : Dict String → String → List String → Result (Unit {0})
validate_enum_field values field allowed = elim (find field values) [
  | none ↦ ok tt
  | some value ↦
      if blank value || any (λ candidate. code_of value == code_of candidate) allowed
      then ok tt
      else err ("invalid value for " ⧺ field)
]

-- `signatureEnabled`
unfoldable pub signature_enabled : String → Bool
signature_enabled signature =
    let s = code_of signature in
    not (is_empty s || s == "NO_SIGNATURE" || s == "SIGNATURE_UNSPECIFIED" || s == "UNSPECIFIED")

-- `isNoD2POSelection`
unfoldable pub is_no_d2po_selection : String → Bool
is_no_d2po_selection selection =
    let s = code_of selection in is_empty s || s == "NONE" || s == to_upper no_d2po_selection_label

-- `isD2POEnabled`
unfoldable pub is_d2po_enabled : Dict String → Bool
is_d2po_enabled values =
    let selection = trim (get values d2po_office_selection_field) in
    parse_bool (get values d2po_enabled_field)
    || not (blank (get values d2po_office_id_field))
    || not (is_empty selection) && not (is_no_d2po_selection selection)

module _ ⦃fl : Float64⦄ where
  -- `parseAmount`: the value is 0 where the flag is false
  unfoldable pub parse_amount : String → fl.Value × Bool
  parse_amount value =
      let v = trim value in
      if is_empty v then (zero_value, false) else elim (fl.parse_float v) [
        | none ↦ (zero_value, false)
        | some x ↦ if at_most_zero x then (zero_value, false) else (x, true)
      ]

  -- `if rateToCad <= 0 { rateToCad = 1 }`
  unfoldable pub rate_or_one : fl.Value → fl.Value
  rate_or_one rate = if at_most_zero rate then fl.of_int (pos 1) else rate

unfoldable pub is_cod_enabled : Dict String → Bool → Bool
is_cod_enabled values amount_ok = parse_bool (get values cod_enabled_field) || amount_ok

unfoldable pub is_cov_enabled : Dict String → Bool → Bool
is_cov_enabled values amount_ok = parse_bool (get values cov_enabled_field) || amount_ok

abbrev amount_required : String → String
amount_required what = what ⧺ " amount is required and must be a positive number"

module _ ⦃fl : Float64⦄ where
  -- `validateCustomInfoMapValues`
  unfoldable pub validate_custom_info_map_values : Dict String → Result (Unit {0})
  validate_custom_info_map_values values =
      let (_, cod_ok) = parse_amount (get values cod_amount_field) in
      let (_, cov_ok) = parse_amount (get values cov_amount_field) in
      do
        validate_bool_field values cod_enabled_field
        validate_bool_field values cod_includes_shipping_field
        validate_bool_field values d2po_enabled_field
        validate_bool_field values so_enabled_field
        validate_bool_field values cov_enabled_field
        validate_enum_field values age_verification_field
            (age_verification_labels ++ "NONE" ∷ "PA18" ∷ "PA19" ∷ [])
        validate_enum_field values delivery_method_field
            (delivery_method_labels ++ "STANDARD" ∷ "HFP" ∷ "DNS" ∷ "LAD" ∷ [])
        validate_enum_field values non_delivery_handling_field
            (non_delivery_labels ++ "RASE" ∷ "RTS" ∷ "ABAN" ∷ [])
        refuse (not (blank (get values cod_amount_field)) && not cod_ok) (amount_required "COD")
        refuse (parse_bool (get values cod_enabled_field) && not cod_ok) (amount_required "COD")
        refuse (not (blank (get values cov_amount_field)) && not cov_ok) (amount_required "COV")
        refuse (parse_bool (get values cov_enabled_field) && not cov_ok) (amount_required "COV")

-- Names everything that a run of these functions computes with.
unfoldable pub run_values : Unit {0}
unfolding trim to_lower to_upper find put custom_info_onto custom_info_to_map parse_bool
    normalize_bool_string resolve_mapped_value age_verification_map delivery_method_map
    non_delivery_map age_of delivery_of non_delivery_of validate_bool_field validate_enum_field
    signature_enabled is_no_d2po_selection is_d2po_enabled parse_amount rate_or_one is_cod_enabled
    is_cov_enabled validate_custom_info_map_values
run_values = tt
