-- ===== src/Options/Accepted/Charges.antt =====
-- The COV and COD parts of `buildCreateLabelOptions`, in service/canada_post_options.go.
use canada_post.Prelude.{
  String, List, [], ◌∷◌, ◌≡◌, ◌⊎◌, Bool, true, false, ◌||◌, arith, Bool-cases, inl, inr, ok,
}
use canada_post.Dict.{Dict, get}
use canada_post.Float64.{Float64, at_most_zero}
use canada_post.Options.Values.{
  cod_amount_field, cod_includes_shipping_field, cov_amount_field, parse_amount,
  normalize_bool_string, is_cod_enabled, is_cov_enabled,
}
use canada_post.Options.Rules.{is_foreign}
use canada_post.Options.Build.{ShipmentOption, coded, cov_options, cod_options}
use canada_post.Options.Accepted.Parts.{Part, Part-nil, kind_codes, normalize_bool_string-blank}

module _ ⦃fl : Float64⦄ where
  -- the COV part, where the amount that it sends is above zero
  module _ (country : String) (values : Dict String) (r : fl.Value) where
    abbrev cov_amount : fl.Value × Bool
    cov_amount = parse_amount (get values cov_amount_field)

    abbrev pub cod_amount : fl.Value × Bool
    cod_amount = parse_amount (get values cod_amount_field)

    cov_shape :
        (os : List (ShipmentOption fl.Value))
        → cov_options values r ≡ ok os
        → (os ≡ [])
          ⊎ ((cov_amount.1 ≡ true)
              × (os ≡ record (coded "COV") { option_amount = fl.mul cov_amount.0 r } ∷ []))
    unfolding cov_options
    cov_shape os e = elim (Bool-cases (is_cov_enabled values cov_amount.1)) [
      | inl on ↦ inr (ground arith, ground arith)
      | inr off ↦ inl (ground arith)
    ]

    pub cov-Part :
        (os : List (ShipmentOption fl.Value))
        → cov_options values r ≡ ok os
        → (cov_amount.1 ≡ true → at_most_zero (fl.mul cov_amount.0 r) ≡ false)
        → Part country os (λ t. t)
    cov-Part os e positive = elim (cov_shape os e) [
      | inl off ↦ rw off Part-nil
      | inr (given, one) ↦ rw one (record {
        fits = rw kind_codes.1 (positive given, tt);
        counts = λ t. rw kind_codes.1 (ground arith);
      })
    ]

    -- COD is asked for, as the builder sees it
    abbrev pub cod_on : Bool
    cod_on = is_cod_enabled values cod_amount.1

    cod_option : ShipmentOption fl.Value
    cod_option = record (coded "COD") {
      option_amount = fl.mul cod_amount.0 r;
      option_qualifier1 = normalize_bool_string (get values cod_includes_shipping_field);
    }

    cod_shape :
        (os : List (ShipmentOption fl.Value))
        → cod_options values r ≡ ok os
        → ((cod_on ≡ false) × (os ≡ []))
          ⊎ ((cod_on ≡ true) × (cod_amount.1 ≡ true) × (os ≡ cod_option ∷ []))
    unfolding cod_options cod_option
    cod_shape os e = elim (Bool-cases cod_on) [
      | inl on ↦ inr (on, ground arith, ground arith)
      | inr off ↦ inl (off, ground arith)
    ]

    pub cod-Part :
        (os : List (ShipmentOption fl.Value))
        → cod_options values r ≡ ok os
        → (cod_amount.1 ≡ true → at_most_zero (fl.mul cod_amount.0 r) ≡ false)
        → (cod_on ≡ true → is_foreign country ≡ false)
        → Part country os (λ t. record t { has_cod = t.has_cod || cod_on })
    unfolding cod_option
    cod-Part os e positive home = elim (cod_shape os e) [
      | inl (off, empty) ↦ rw (off, empty) (record { fits = tt; counts = λ t. ground arith })
      | inr (on, given, one) ↦
          rw (on, one)
            (record {
              fits = rw kind_codes.2 (
                (
                  home on,
                  positive given,
                  normalize_bool_string-blank (get values cod_includes_shipping_field),
                ),
                tt,
              );
              counts = λ t. rw kind_codes.2 (ground arith);
            })
    ]
