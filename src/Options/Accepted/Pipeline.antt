-- ===== src/Options/Accepted/Pipeline.antt =====
-- From the rules to the final check, as `CreateLabel` (service/create_label.go) chains them: option
-- values that `validateCanadaPostOptionRules` lets through build options that `validateOptions` accepts.
use canada_post.Prelude.{
  ◌+◌, ℤ, String, List, [], ◌∷◌, ◌++◌, ◌≡◌, sym, ◌∙◌, subst, Bool, true, false, ◌||◌, ◌==◌, arith,
  if◌then◌else◌, All-append, Bool-cases, inl, inr, ok, >>=-eq-ok, Option,
}
use canada_post.Dict.{Dict, get}
use canada_post.Float64.{Float64, at_most_zero, above_zero}
use canada_post.Offices.{Answer}
use canada_post.Snapshot.{RateSnapshot}
use canada_post.Currency.{build_snapshot_options, insurance_amount_cad}
use canada_post.Options.Values.{
  cod_amount_field, cov_amount_field, so_enabled_field, parse_bool, parse_amount, age_of,
  delivery_of, non_delivery_of, is_d2po_enabled, is_cod_enabled, rate_or_one,
}
use canada_post.Options.Values.Laws.{parse_amount-trim}
use canada_post.Options.Rules.{is_proof_of_age, validate_canada_post_option_rules}
use canada_post.Options.Permitted.{IsPermitted, asks_cod}
use canada_post.Options.Permitted.Exact.{validate_canada_post_option_rules_iff}
use canada_post.Options.Build.{
  ShipmentOption, ShipmentNotification, coded, coded_if, cov_options, cod_options, delivery_options,
  is_delivery_code, is_non_delivery_code, dedupe_shipment_options, build_create_label_options,
}
use canada_post.Options.Check.{Tally, empty_tally, validate_options}
use canada_post.Options.Check.Spec.{
  IsAcceptable, Closes, tally_after, IsAcceptable-of_Closes, Closes-of_IsAcceptable,
}
use canada_post.Options.Check.Exact.{validate_options_iff}
use canada_post.Options.Accepted.{dedupe_shipment_options-IsAcceptable}
use canada_post.Options.Accepted.Parts.{
  Part, Part-nil, Part-append, kind_codes, so-Part, age-Part, handling-Part, tally_after-append,
}
use canada_post.Options.Accepted.Charges.{cov-Part, cod-Part}
use canada_post.Options.Accepted.Delivery.{change_by, delivery-Part}

module _ ⦃fl : Float64⦄ where
  -- The products with the rate do not underflow to zero.
  pub record HasAmounts (values : Dict String) (rate : fl.Value) : Type 0 where
    pub cov_above :
        (parse_amount (get values cov_amount_field)).1 ≡ true
        → at_most_zero (fl.mul (parse_amount (get values cov_amount_field)).0 (rate_or_one rate))
          ≡ false
    pub cod_above :
        (parse_amount (get values cod_amount_field)).1 ≡ true
        → at_most_zero (fl.mul (parse_amount (get values cod_amount_field)).0 (rate_or_one rate))
          ≡ false

  -- A part that changes no count keeps a list acceptable.
  IsAcceptable-append :
      (country : String) (os extra : List (ShipmentOption fl.Value))
      → IsAcceptable country os
      → Part country extra (λ t. t)
      → IsAcceptable country (os ++ extra)
  IsAcceptable-append country os extra a p =
      IsAcceptable-of_Closes country (os ++ extra) (All-append _ os extra a.each p.fits) (
        subst Closes
          (sym (tally_after-append empty_tally os extra ∙ p.counts (tally_after empty_tally os)))
          (Closes-of_IsAcceptable country os a))

  -- The options of a snapshot: a signature, and a coverage above zero.
  snapshot-Part :
      (country : String) (s : RateSnapshot fl.Value)
      → ((x : fl.Value) → above_zero x ≡ true → at_most_zero x ≡ false)
      → Part country (build_snapshot_options s) (λ t. t)
  unfolding build_snapshot_options
  snapshot-Part country s law = Part-append _ _ (so-Part country _) cover
    where
      cover :
          Part country
            (if above_zero (insurance_amount_cad s)
              then record (coded "COV") { option_amount = insurance_amount_cad s } ∷ []
              else [])
            (λ t. t)
      cover = elim (Bool-cases (above_zero (insurance_amount_cad s))) [
        | inl e ↦ rw e (record {
          fits = rw kind_codes.1 (law (insurance_amount_cad s) e, tt);
          counts = λ t. rw kind_codes.1 (ground arith);
        })
        | inr e ↦ rw e Part-nil
      ]

  -- what all parts of the builder do to a tally
  abbrev all_changes : Bool → Bool → String → String → String → Tally → Tally
  all_changes cod_on post_office delivery age handling t =
      let u = change_by post_office delivery (record t { has_cod = t.has_cod || cod_on }) in
      record u {
        age_count = u.age_count + (if is_proof_of_age age then 1 else 0);
        non_delivery_count =
            u.non_delivery_count + (if is_non_delivery_code handling then 1 else 0);
      }

  changes_close :
      (cod_on post_office : Bool) (delivery age handling : String)
      → (post_office ≡ true → is_delivery_code delivery ≡ false)
      → (cod_on ≡ true → (delivery == "HFP" || post_office) ≡ true)
      → Closes (all_changes cod_on post_office delivery age handling empty_tally)
  changes_close cod_on post_office delivery age handling alone pickup = (
    ground arith,
    ground arith,
    ground arith,
    λ h. ground (arith, alone),
    λ h. ground (arith, pickup),
  )

  module _ (values : Dict String) (signature phone country : String) (rate : fl.Value)
      (configured : Bool) (query : ℤ → String → Answer String) (client : ℤ) where
    abbrev cod_flag : Bool
    cod_flag = is_cod_enabled values (parse_amount (get values cod_amount_field)).1

    asks_cod_of_flag : cod_flag ≡ true → asks_cod values ≡ true
    unfolding is_cod_enabled
    asks_cod_of_flag h = rw (parse_amount-trim (get values cod_amount_field)) h

    -- the list that the builder makes before deduplication
    abbrev raw_options :
        List (ShipmentOption fl.Value)
        → List (ShipmentOption fl.Value)
        → List (ShipmentOption fl.Value)
        → List (ShipmentOption fl.Value)
    raw_options cov cod delivery =
        coded_if (parse_bool (get values so_enabled_field)) "SO"
        ++ (cov
            ++ (cod
                ++ (delivery
                    ++ (coded_if (is_proof_of_age (age_of values)) (age_of values)
                        ++ coded_if (is_non_delivery_code (non_delivery_of values))
                            (non_delivery_of values)))))

    built :
        (opts : List (ShipmentOption fl.Value)) (n : Option ShipmentNotification)
        → IsPermitted values signature phone country rate
        → HasAmounts values rate
        → build_create_label_options configured query client values rate ≡ ok (opts, n)
        → (raw : List (ShipmentOption fl.Value)) × (opts ≡ dedupe_shipment_options raw)
          × Part country raw (
              all_changes cod_flag
                (is_d2po_enabled values)
                (delivery_of values)
                (age_of values)
                (non_delivery_of values))
    unfolding build_create_label_options
    built opts n p amounts e =
        let r = rate_or_one rate in
        let (cov, ecov, e1) = >>=-eq-ok (cov_options values r) _ e in
        let (cod, ecod, e2) = >>=-eq-ok (cod_options values r) _ e1 in
        let (del, edel, e3) = >>=-eq-ok (delivery_options configured query client values) _ e2 in
        let home = λ (h : is_d2po_enabled values ≡ true). (p.d2po_fits h).at_home in
        let cod_home = λ (h : cod_flag ≡ true). (p.cod_fits (asks_cod_of_flag h)).at_home in
        (
          raw_options cov cod del.0,
          cc e3,
          Part-append _ _ (so-Part country _) (
              Part-append _ _ (cov-Part country values r cov ecov amounts.cov_above) (
                Part-append _ _ (cod-Part country values r cod ecod amounts.cod_above cod_home) (
                  Part-append _ _
                    (delivery-Part configured query client values del.0 country del.1 edel home)
                    (Part-append _ _ (age-Part country (age_of values))
                      (handling-Part country (non_delivery_of values) p.handling_fits))))),
        )

    -- Option values that the business rules accept, once built into options and joined with those of the
    -- rate snapshot as `CreateLabel` does, are accepted by `validateOptions`: if the amounts times the
    -- rate stay above zero, and a float above zero is not at most zero.
    pub validate_options-build_create_label_options :
        (s : RateSnapshot fl.Value) (opts : List (ShipmentOption fl.Value))
        (n : Option ShipmentNotification)
        → ((x : fl.Value) → above_zero x ≡ true → at_most_zero x ≡ false)
        → HasAmounts values rate
        → validate_canada_post_option_rules values signature phone country rate ≡ ok tt
        → build_create_label_options configured query client values rate ≡ ok (opts, n)
        → validate_options (dedupe_shipment_options (opts ++ build_snapshot_options s)) country
          ≡ ok tt
    validate_options-build_create_label_options s opts n law amounts rules e =
        let p =
          (validate_canada_post_option_rules_iff values signature phone country rate).0 rules in
        let (raw, same, part) = built opts n p amounts e in
        let close =
          changes_close cod_flag (is_d2po_enabled values) (delivery_of values) (age_of values)
            (non_delivery_of values) p.d2po_alone (λ h. (p.cod_fits (asks_cod_of_flag h)).pickup) in
        let first =
          IsAcceptable-of_Closes country raw part.fits
            (subst Closes (sym (part.counts empty_tally)) close) in
        let deduped : IsAcceptable country opts =
          rw same (dedupe_shipment_options-IsAcceptable raw country first) in
        (validate_options_iff _ country).1 (
          dedupe_shipment_options-IsAcceptable _ country
            (IsAcceptable-append country opts _ deduped (snapshot-Part country s law)))
