-- ===== src/Tests/Options.antt =====
-- Option values and options at concrete inputs.
use canada_post.Prelude.{
  ℤ, pos, String, List, [], ◌∷◌, ◌++◌, none, false, ◌≡◌, ◌↔◌, refl, ok, take, if◌then◌else◌,
}
use canada_post.Text.{is_empty}
use canada_post.Dict.{Dict}
use canada_post.Float64.{above_zero}
use canada_post.Float64.Sample.{Hundredths, nan, num, sample}
use canada_post.Offices.{Answer, no_rows}
use canada_post.Options.Values.{run_values}
use canada_post.Options.Rules.{
  validate_canada_post_option_rules, validate_cod_requirements, run_rules,
}
use canada_post.Options.Build.{
  ShipmentOption, shipment_code, dedupe_shipment_options, merge_shipment_options,
  build_create_label_options, run_build,
}
use canada_post.Options.Check.{validate_options, run_check}
use canada_post.Options.Check.Spec.{IsAcceptable, count_kind, is_non_delivery}
use canada_post.Options.Check.Exact.{validate_options_iff}
use canada_post.Options.Permitted.{IsPermitted}
use canada_post.Options.Permitted.Exact.{validate_canada_post_option_rules_iff}
use canada_post.Options.Dedupe.{with_code, with_code-dedupe_shipment_options}
use canada_post.Options.Accepted.{dedupe_shipment_options-IsAcceptable}
use canada_post.Options.Accepted.Pipeline.{HasAmounts, validate_options-build_create_label_options}
use canada_post.Options.Merge.{merge_shipment_options-one}
use canada_post.Options.Unordered.{IsUnordered, unordered_cod_accepted}
use canada_post.Currency.{build_snapshot_options}
use canada_post.Tests.Samples.{snapshot, cod_values, option, cod_options, positive_sample}

abbrev no_office : ℤ → String → Answer String
no_office client display = no_rows

built :
    build_create_label_options ⦃fl = sample⦄ false no_office (pos 7) cod_values (num 100)
    ≡ ok (cod_options, none)
unfolding run_build run_values
built = refl

ruled : validate_canada_post_option_rules ⦃fl = sample⦄ cod_values "" "" "CA" (num 100) ≡ ok tt
unfolding run_rules run_values
ruled = refl

amounts : HasAmounts ⦃fl = sample⦄ cod_values (num 100)
unfolding run_values
amounts = record { cov_above = λ h. absurd (cc h); cod_above = λ h. refl }

checked : validate_options ⦃fl = sample⦄ cod_options "CA" ≡ ok tt
unfolding run_check
checked = refl

accepted : IsAcceptable ⦃fl = sample⦄ "CA" cod_options
accepted = (validate_options_iff ⦃fl = sample⦄ cod_options "CA").0 checked

validate_options-build_create_label_options_example :
    validate_options ⦃fl = sample⦄
      (dedupe_shipment_options (cod_options ++ build_snapshot_options ⦃fl = sample⦄ snapshot))
      "CA"
    ≡ ok tt
validate_options-build_create_label_options_example =
    validate_options-build_create_label_options ⦃fl = sample⦄ cod_values "" "" "CA" (num 100) false
      no_office (pos 7) snapshot cod_options none positive_sample amounts ruled built

validate_options_iff_example :
    (validate_options ⦃fl = sample⦄ cod_options "CA" ≡ ok tt)
    ↔ IsAcceptable ⦃fl = sample⦄ "CA" cod_options
validate_options_iff_example = validate_options_iff ⦃fl = sample⦄ cod_options "CA"

validate_canada_post_option_rules_iff_example :
    (validate_canada_post_option_rules ⦃fl = sample⦄ cod_values "" "" "CA" (num 100) ≡ ok tt)
    ↔ IsPermitted ⦃fl = sample⦄ cod_values "" "" "CA" (num 100)
validate_canada_post_option_rules_iff_example =
    validate_canada_post_option_rules_iff ⦃fl = sample⦄ cod_values "" "" "CA" (num 100)

with_code-dedupe_shipment_options_example :
    with_code shipment_code "COD" (dedupe_shipment_options (cod_options ++ cod_options)) ≡ (
      if is_empty "COD"
      then []
      else take 1 (with_code shipment_code "COD" (cod_options ++ cod_options)))
with_code-dedupe_shipment_options_example =
    with_code-dedupe_shipment_options "COD" (cod_options ++ cod_options)

dedupe_shipment_options-IsAcceptable_example :
    IsAcceptable ⦃fl = sample⦄ "CA" (dedupe_shipment_options cod_options)
dedupe_shipment_options-IsAcceptable_example =
    dedupe_shipment_options-IsAcceptable ⦃fl = sample⦄ cod_options "CA" accepted

abbrev abroad_options : List (ShipmentOption Hundredths)
abroad_options = option "SO" ∷ []

abroad_checked : validate_options ⦃fl = sample⦄ abroad_options "US" ≡ ok tt
unfolding run_check
abroad_checked = refl

merge_shipment_options-one_example :
    count_kind ⦃fl = sample⦄ is_non_delivery
      (merge_shipment_options ⦃fl = sample⦄ abroad_options "US")
    ≡ 1
unfolding run_build
merge_shipment_options-one_example =
    merge_shipment_options-one ⦃fl = sample⦄ abroad_options "US" refl
      ((validate_options_iff ⦃fl = sample⦄ abroad_options "US").0 abroad_checked)

abbrev nan_values : Dict String
nan_values = ("COD_amount", "NaN") ∷ (("delivery_method", "HFP") ∷ [])

above_nan : (y : Hundredths) → sample.lt y nan ≡ false
above_nan nan = refl
above_nan (num n) = refl

IsUnordered-nan : IsUnordered ⦃fl = sample⦄ nan
IsUnordered-nan = record { below = λ y. refl; above = above_nan }

unordered_cod_accepted_example :
    (above_zero ⦃fl = sample⦄ nan ≡ false)
    × (validate_cod_requirements ⦃fl = sample⦄ nan_values "CA" (num 100) ≡ ok tt)
unfolding run_rules run_values
unordered_cod_accepted_example =
    unordered_cod_accepted ⦃fl = sample⦄ nan_values "CA" (num 100) nan refl refl IsUnordered-nan
      IsUnordered-nan refl refl
