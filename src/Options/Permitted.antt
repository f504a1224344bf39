-- ===== src/Options/Permitted.antt =====
-- What the business rules of service/canada_post_options.go permit, and that
-- `validateCanadaPostOptionRules` permits exactly that.
pub mod Exact
use canada_post.Prelude.{
  ℤ, pos, String, Bool, true, false, ◌||◌, ◌&&◌, ◌==◌, ◌≡◌, refl, ◌↔◌, ◌⊎◌, inl, inr, Result, ok,
  arith, Bool-cases, not, eq_iff,
}
use canada_post.Text.{trim, is_empty, blank, code_of}
use canada_post.Dict.{Dict, get}
use canada_post.Float64.{Float64}
use canada_post.Options.Values.{
  cod_enabled_field, cod_amount_field, so_enabled_field, d2po_office_id_field,
  d2po_office_selection_field, d2po_notification_email_field, parse_bool, parse_amount, age_of,
  delivery_of, non_delivery_of, signature_enabled, is_d2po_enabled, is_no_d2po_selection,
  rate_or_one,
}
use canada_post.Options.Rules.{
  is_proof_of_age, is_foreign, validate_signature_requirement, validate_delivery_method_exclusivity,
  validate_cod_requirements, validate_d2po_requirements, validate_non_delivery_handling,
  validate_canada_post_option_rules,
}
use canada_post.Options.Build.{is_delivery_code}
use canada_post.Options.Check.{is_domestic}

-- a signature was asked for, by the request or by the option
abbrev pub is_signed : Dict String → String → Bool
is_signed values signature = signature_enabled signature || parse_bool (get values so_enabled_field)

pub record SignatureFits (values : Dict String) (signature : String) : Type 0 where
  pub age_signed : is_proof_of_age (age_of values) ≡ true → is_signed values signature ≡ true
  pub leave_unsigned : (delivery_of values == "LAD") ≡ true → is_signed values signature ≡ false
  pub leave_unaged : (delivery_of values == "LAD") ≡ true → is_proof_of_age (age_of values) ≡ false

-- an office is given by its id, or by a selection that names one
abbrev pub has_office : Dict String → Bool
has_office values =
    not (blank (get values d2po_office_id_field))
    || not (is_no_d2po_selection (trim (get values d2po_office_selection_field)))
      && not (is_empty (trim (get values d2po_office_selection_field)))

pub record D2poFits (values : Dict String) (phone country : String) : Type 0 where
  pub at_home : is_foreign country ≡ false
  pub office : has_office values ≡ true
  pub email : blank (get values d2po_notification_email_field) ≡ false
  pub reachable : blank phone ≡ false

signature_ok :
    (values : Dict String) (signature : String)
    → validate_signature_requirement values signature ≡ ok tt
    → SignatureFits values signature
unfolding validate_signature_requirement
signature_ok values signature h = ground arith

signature_fine :
    (values : Dict String) (signature : String)
    → SignatureFits values signature
    → validate_signature_requirement values signature ≡ ok tt
unfolding validate_signature_requirement
signature_fine values signature s = ground (arith, s.age_signed, s.leave_unsigned, s.leave_unaged)

exclusive_ok :
    (values : Dict String)
    → validate_delivery_method_exclusivity values ≡ ok tt
    → is_d2po_enabled values ≡ true
    → is_delivery_code (delivery_of values) ≡ false
unfolding validate_delivery_method_exclusivity
exclusive_ok values h e = ground arith

exclusive_fine :
    (values : Dict String)
    → (is_d2po_enabled values ≡ true → is_delivery_code (delivery_of values) ≡ false)
    → validate_delivery_method_exclusivity values ≡ ok tt
unfolding validate_delivery_method_exclusivity
exclusive_fine values h = elim (Bool-cases (is_d2po_enabled values)) [
  | inl e ↦ ground (arith, h e)
  | inr e ↦ ground arith
]

d2po_ok :
    (values : Dict String) (phone country : String)
    → validate_d2po_requirements values phone country ≡ ok tt
    → is_d2po_enabled values ≡ true
    → D2poFits values phone country
unfolding validate_d2po_requirements
d2po_ok values phone country h e = ground arith

d2po_fine :
    (values : Dict String) (phone country : String)
    → (is_d2po_enabled values ≡ true → is_delivery_code (delivery_of values) ≡ false)
    → (is_d2po_enabled values ≡ true → D2poFits values phone country)
    → validate_d2po_requirements values phone country ≡ ok tt
unfolding validate_d2po_requirements
d2po_fine values phone country alone fits = elim (Bool-cases (is_d2po_enabled values)) [
  | inl e ↦
      let f = fits e in let a = alone e in ground (arith, f.at_home, f.office, f.email, f.reachable)
  | inr e ↦ ground arith
]

-- no non-delivery handling is chosen for Canada
abbrev pub HandlingFits : Dict String → String → Type 0
HandlingFits values country = is_domestic country ≡ true → is_empty (non_delivery_of values) ≡ true

handling_ok :
    (values : Dict String) (country : String)
    → validate_non_delivery_handling values country ≡ ok tt
    → HandlingFits values country
unfolding validate_non_delivery_handling
handling_ok values country h e = ground arith

handling_fine :
    (values : Dict String) (country : String)
    → HandlingFits values country
    → validate_non_delivery_handling values country ≡ ok tt
unfolding validate_non_delivery_handling
handling_fine values country f = elim (Bool-cases (is_domestic country)) [
  | inl e ↦ ground (arith, f e)
  | inr e ↦ ground arith
]

module _ ⦃fl : Float64⦄ where
  -- COD is asked for: by its flag, or by an amount
  abbrev pub asks_cod : Dict String → Bool
  asks_cod values =
      parse_bool (get values cod_enabled_field)
      || (parse_amount (trim (get values cod_amount_field))).1

  abbrev pub cod_cad : Dict String → fl.Value → fl.Value
  cod_cad values rate =
      fl.mul (parse_amount (trim (get values cod_amount_field))).0 (rate_or_one rate)

  pub record CodFits (values : Dict String) (country : String) (rate : fl.Value) : Type 0 where
    pub amount : (parse_amount (trim (get values cod_amount_field))).1 ≡ true
    pub at_home : is_foreign country ≡ false
    pub within : fl.lt (fl.of_int (pos 1000)) (cod_cad values rate) ≡ false
    pub safe : (delivery_of values == "LAD" || delivery_of values == "DNS") ≡ false
    pub pickup : (delivery_of values == "HFP" || is_d2po_enabled values) ≡ true

  cod_ok :
      (values : Dict String) (country : String) (rate : fl.Value)
      → validate_cod_requirements values country rate ≡ ok tt
      → asks_cod values ≡ true
      → CodFits values country rate
  unfolding validate_cod_requirements
  cod_ok values country rate h e = ground arith

  cod_fine :
      (values : Dict String) (country : String) (rate : fl.Value)
      → (asks_cod values ≡ true → CodFits values country rate)
      → validate_cod_requirements values country rate ≡ ok tt
  unfolding validate_cod_requirements
  cod_fine values country rate fits = elim (Bool-cases (asks_cod values)) [
    | inl e ↦ let f = fits e in ground (arith, f.amount, f.at_home, f.within, f.safe, f.pickup)
    | inr e ↦ ground arith
  ]

  pub record IsPermitted (values : Dict String) (signature phone country : String) (rate : fl.Value)
      : Type 0 where
    pub signature_fits : SignatureFits values signature
    pub d2po_alone : is_d2po_enabled values ≡ true → is_delivery_code (delivery_of values) ≡ false
    pub cod_fits : asks_cod values ≡ true → CodFits values country rate
    pub d2po_fits : is_d2po_enabled values ≡ true → D2poFits values phone country
    pub handling_fits : HandlingFits values country
