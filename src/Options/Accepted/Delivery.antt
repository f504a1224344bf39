-- ===== src/Options/Accepted/Delivery.antt =====
-- The delivery part of `buildCreateLabelOptions`, in service/canada_post_options.go.
use canada_post.Prelude.{
  ◌+◌, ℤ, String, List, [], ◌∷◌, ◌≡◌, ◌⊎◌, Bool, true, false, not, ◌||◌, ◌&&◌, ◌==◌, arith,
  if◌then◌else◌, Bool-cases, inl, inr, ok, Option, Result-cases,
}
use canada_post.Text.{blank}
use canada_post.Dict.{Dict}
use canada_post.Float64.{Float64}
use canada_post.Offices.{Answer}
use canada_post.Options.Values.{delivery_of, is_d2po_enabled}
use canada_post.Options.Rules.{is_foreign}
use canada_post.Options.Build.{
  ShipmentOption, ShipmentNotification, coded, coded_if, delivery_options, chosen_office,
  is_delivery_code,
}
use canada_post.Options.Check.{Tally}
use canada_post.Options.Accepted.Parts.{Part, kind_codes, kind_of_delivery}

-- what the delivery part does to a tally, with D2PO or without, for a delivery method
abbrev pub change_by : Bool → String → Tally → Tally
change_by post_office c t = record t {
  delivery_count =
      t.delivery_count + (if post_office then 0 else if is_delivery_code c then 1 else 0);
  has_hfp = t.has_hfp || not post_office && c == "HFP";
  has_d2po = t.has_d2po || post_office;
}

module _ ⦃fl : Float64⦄ where
  plain-Part :
      (country c : String) → Part country (coded_if (is_delivery_code c) c) (change_by false c)
  plain-Part country c = elim (Bool-cases (is_delivery_code c)) [
    | inl e ↦ rw e (elim (Bool-cases (c == "HFP")) [
      | inl p ↦ record {
        fits = rw (kind_of_delivery c e, p) (tt, tt);
        counts = λ t. rw (kind_of_delivery c e, p) (ground arith);
      }
      | inr p ↦ record {
        fits = rw (kind_of_delivery c e, p) (tt, tt);
        counts = λ t. rw (kind_of_delivery c e, p) (ground arith);
      }
    ])
    | inr e ↦ rw e (record { fits = tt; counts = λ t. ground arith })
  ]

  office-Part :
      (country office c : String)
      → is_foreign country ≡ false
      → blank office ≡ false
      → Part country (record (coded "D2PO") { option_qualifier2 = office } ∷ []) (change_by true c)
  office-Part country office c home named = record {
    fits = rw kind_codes.3 ((home, named), tt);
    counts = λ t. rw kind_codes.3 (ground arith);
  }

  module _ (configured : Bool) (query : ℤ → String → Answer String) (client : ℤ) where
    module _ (values : Dict String) (os : List (ShipmentOption fl.Value)) where
      delivery_shape :
          (n : Option ShipmentNotification)
          → delivery_options configured query client values ≡ ok (os, n)
          → ((is_d2po_enabled values ≡ false)
              × (os ≡ coded_if (is_delivery_code (delivery_of values)) (delivery_of values)))
            ⊎ ((is_d2po_enabled values ≡ true)
                × ((office : String) × (blank office ≡ false)
                    × (os ≡ record (coded "D2PO") { option_qualifier2 = office } ∷ [])))
      unfolding delivery_options
      delivery_shape n e = elim (Bool-cases (is_d2po_enabled values)) [
        | inr off ↦ inl (off, ground arith)
        | inl on ↦ elim (Result-cases (chosen_office configured query client values)) [
          | inl (office, chosen) ↦ inr (on, (office, ground arith, ground arith))
          | inr (m, failed) ↦ absurd (ground arith)
        ]
      ]

      pub delivery-Part :
          (country : String) (n : Option ShipmentNotification)
          → delivery_options configured query client values ≡ ok (os, n)
          → (is_d2po_enabled values ≡ true → is_foreign country ≡ false)
          → Part country os (change_by (is_d2po_enabled values) (delivery_of values))
      delivery-Part country n e home = elim (delivery_shape n e) [
        | inr (on, (office, named, one)) ↦
            rw (on, one) (office-Part country office (delivery_of values) (home on) named)
        | inl (off, plain) ↦ rw (off, plain) (plain-Part country (delivery_of values))
      ]
