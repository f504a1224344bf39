-- ===== src/Options/Merge.antt =====
-- `mergeShipmentOptions` of service/label_options.go: what is sent abroad says how to handle a failed
-- delivery.
use canada_post.Prelude.{
  ◌≤◌, String, List, [], ◌∷◌, ◌≡◌, refl, true, false, ◌==◌, arith, eq_iff, Bool-cases, inl, inr,
}
use canada_post.Text.{trim, to_upper, code_of}
use canada_post.Float64.{Float64}
use canada_post.Options.Build.{
  ShipmentOption, coded, dedupe_shipment_options, is_non_delivery_code, has_non_delivery_option,
  requires_customs, merge_shipment_options, default_non_delivery_option,
}
use canada_post.Options.Check.{kind}
use canada_post.Options.Check.Spec.{is_non_delivery, count_kind, IsAcceptable}
use canada_post.Options.Accepted.{count_kind-append, dedupe_shipment_options-IsAcceptable}

is_non_delivery-kind : (c : String) → is_non_delivery (kind c) ≡ is_non_delivery_code c
unfolding kind
is_non_delivery-kind c = elim (Bool-cases (c == "RASE")) [
  | inl e ↦ rw ((eq_iff c "RASE").0 e) refl
  | inr e ↦ elim (Bool-cases (c == "RTS")) [
    | inl e' ↦ rw ((eq_iff c "RTS").0 e') refl
    | inr e' ↦ elim (Bool-cases (c == "ABAN")) [
      | inl e'' ↦ rw ((eq_iff c "ABAN").0 e'') refl
      | inr e'' ↦ ground arith
    ]
  ]
]

module _ ⦃fl : Float64⦄ where
  count-has :
      (os : List (ShipmentOption fl.Value))
      → has_non_delivery_option os ≡ false
      → count_kind is_non_delivery os ≡ 0
  unfolding has_non_delivery_option
  count-has [] h = omega arith
  count-has (o ∷ os) h = ground (arith, count-has os, is_non_delivery-kind (code_of o.code))

  count-has_not :
      (os : List (ShipmentOption fl.Value))
      → has_non_delivery_option os ≡ true
      → 1 ≤ count_kind is_non_delivery os
  unfolding has_non_delivery_option
  count-has_not [] h = absurd (cc h)
  count-has_not (o ∷ os) h = ground (arith, count-has_not os, is_non_delivery-kind (code_of o.code))

  default_count : count_kind is_non_delivery (coded default_non_delivery_option ∷ []) ≡ 1
  unfolding kind trim to_upper
  default_count = omega arith

  -- For a destination that needs customs papers, the options that are sent hold exactly one
  -- non-delivery option, if the given options were acceptable for it.
  pub merge_shipment_options-one :
      (os : List (ShipmentOption fl.Value)) (country : String)
      → requires_customs country ≡ true
      → IsAcceptable country os
      → count_kind is_non_delivery (merge_shipment_options os country) ≡ 1
  unfolding merge_shipment_options
  merge_shipment_options-one os country abroad a =
      let d = dedupe_shipment_options-IsAcceptable os country a in
      elim (Bool-cases (has_non_delivery_option (dedupe_shipment_options os))) [
        | inl e ↦ rw (abroad, e) (omega (arith, d.one_non_delivery, count-has_not _ e))
        | inr e ↦
            rw (abroad, e)
              (omega (
                arith,
                count-has _ e,
                default_count,
                count_kind-append is_non_delivery (dedupe_shipment_options os)
                    (coded default_non_delivery_option ∷ []),
              ))
      ]
