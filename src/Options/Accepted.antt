-- ===== src/Options/Accepted.antt =====
-- Acceptable lists of options stay acceptable: deduplication and the options of a snapshot.
pub mod Parts
pub mod Charges
pub mod Delivery
pub mod Pipeline
use canada_post.Prelude.{
  ℕ, ◌+◌, ◌≤◌, String, List, [], ◌∷◌, ◌++◌, ◌≡◌, refl, Bool, true, false, ◌||◌, ◌==◌, arith, any,
  eq_iff, if◌then◌else◌, All, All-append, Bool-cases, inl, inr, ◌∙◌,
}
use canada_post.Text.{trim, to_upper, is_empty, code_of}
use canada_post.Float64.{Float64, at_most_zero}
use canada_post.Options.Build.{ShipmentOption, dedupe_from, shipment_code, dedupe_shipment_options}
use canada_post.Options.Dedupe.{
  any_code, All-dedupe_shipment_options, any_code-dedupe_shipment_options,
}
use canada_post.Options.Check.{Kind, other, cov, kind, kind_of}
use canada_post.Options.Check.Spec.{
  is_age, is_hfp, is_delivery, is_non_delivery, is_cod, is_d2po, count_kind, any_kind, Fits,
  IsAcceptable,
}

is_hfp-kind : (c : String) → is_hfp (kind c) ≡ (c == "HFP")
unfolding kind
is_hfp-kind c = elim (Bool-cases (c == "HFP")) [
  | inl e ↦ rw ((eq_iff c "HFP").0 e) refl
  | inr e ↦ ground arith
]

is_d2po-kind : (c : String) → is_d2po (kind c) ≡ (c == "D2PO")
unfolding kind
is_d2po-kind c = elim (Bool-cases (c == "D2PO")) [
  | inl e ↦ rw ((eq_iff c "D2PO").0 e) refl
  | inr e ↦ ground arith
]

module _ ⦃fl : Float64⦄ where
  any_kind-hfp :
      (os : List (ShipmentOption fl.Value)) → any_kind is_hfp os ≡ any_code shipment_code "HFP" os
  any_kind-hfp [] = refl
  any_kind-hfp (o ∷ os) = rw (is_hfp-kind (code_of o.code), any_kind-hfp os)

  any_kind-d2po :
      (os : List (ShipmentOption fl.Value)) → any_kind is_d2po os ≡ any_code shipment_code "D2PO" os
  any_kind-d2po [] = refl
  any_kind-d2po (o ∷ os) = rw (is_d2po-kind (code_of o.code), any_kind-d2po os)

  module _ (p : Kind → Bool) where
    count_kind-dedupe_from :
        (seen : List String) (os : List (ShipmentOption fl.Value))
        → count_kind p (dedupe_from shipment_code seen os) ≤ count_kind p os
    unfolding dedupe_from
    count_kind-dedupe_from seen [] = omega arith
    count_kind-dedupe_from seen (o ∷ os) =
        ground
          (arith, count_kind-dedupe_from seen os, count_kind-dedupe_from (code_of o.code ∷ seen) os)

    any_kind-dedupe_from :
        (seen : List String) (os : List (ShipmentOption fl.Value))
        → any_kind p (dedupe_from shipment_code seen os) ≡ true
        → any_kind p os ≡ true
    unfolding dedupe_from
    any_kind-dedupe_from seen [] h = cc
    any_kind-dedupe_from seen (o ∷ os) h =
        ground
          (arith, any_kind-dedupe_from seen os, any_kind-dedupe_from (code_of o.code ∷ seen) os)

    pub count_kind-append :
        (xs ys : List (ShipmentOption fl.Value))
        → count_kind p (xs ++ ys) ≡ count_kind p xs + count_kind p ys
    count_kind-append [] ys = omega arith
    count_kind-append (x ∷ xs) ys = omega (arith, count_kind-append xs ys)

    pub any_kind-append :
        (xs ys : List (ShipmentOption fl.Value))
        → any_kind p (xs ++ ys) ≡ (any_kind p xs || any_kind p ys)
    any_kind-append [] ys = refl
    any_kind-append (x ∷ xs) ys = ground (arith, any_kind-append xs ys)

  module _ (os : List (ShipmentOption fl.Value)) where
    pickup_kept :
        (any_kind is_hfp os || any_kind is_d2po os) ≡ true
        → (any_kind is_hfp (dedupe_shipment_options os)
            || any_kind is_d2po (dedupe_shipment_options os))
          ≡ true
    pickup_kept h = ground (
      arith,
      any_kind-hfp os,
      any_kind-d2po os,
      any_kind-hfp (dedupe_shipment_options os),
      any_kind-d2po (dedupe_shipment_options os),
      any_code-dedupe_shipment_options "HFP" os refl,
      any_code-dedupe_shipment_options "D2PO" os refl,
    )

    -- Deduplication keeps a list acceptable.
    pub dedupe_shipment_options-IsAcceptable :
        (country : String)
        → IsAcceptable country os
        → IsAcceptable country (dedupe_shipment_options os)
    unfolding dedupe_shipment_options
    dedupe_shipment_options-IsAcceptable country a = record {
      each = All-dedupe_shipment_options _ os a.each;
      one_age = omega (arith, count_kind-dedupe_from is_age [] os, a.one_age);
      one_delivery = omega (arith, count_kind-dedupe_from is_delivery [] os, a.one_delivery);
      one_non_delivery =
          omega (arith, count_kind-dedupe_from is_non_delivery [] os, a.one_non_delivery);
      d2po_alone = λ h. omega (
        arith,
        count_kind-dedupe_from is_delivery [] os,
        a.d2po_alone (any_kind-dedupe_from is_d2po [] os h),
      );
      cod_pickup = λ h. pickup_kept (a.cod_pickup (any_kind-dedupe_from is_cod [] os h));
    }
