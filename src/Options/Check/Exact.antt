-- ===== src/Options/Check/Exact.antt =====
-- `validateOptions` of service/label_options.go accepts exactly the acceptable lists.
use canada_post.Prelude.{String, List, [], ◌∷◌, ◌≡◌, refl, ◌↔◌, inl, inr, ok, arith, Result-cases}
use canada_post.Float64.{Float64}
use canada_post.Options.Build.{ShipmentOption}
use canada_post.Options.Check.{empty_tally, count_options, validate_options}
use canada_post.Options.Check.Spec.{
  IsAcceptable, IsAcceptable-of_Closes, Closes-of_IsAcceptable, tally_after,
  count_options-tally_after, count_options_ok, close_tally_ok, close_tally_fine,
}

module _ ⦃fl : Float64⦄ where
  sound :
      (opts : List (ShipmentOption fl.Value)) (country : String)
      → validate_options opts country ≡ ok tt
      → IsAcceptable country opts
  unfolding validate_options
  sound [] country h = ground arith
  sound (o ∷ os) country h = elim (Result-cases (count_options country (o ∷ os) empty_tally)) [
    | inl (t, e) ↦
        let fits = count_options_ok country (o ∷ os) empty_tally t e in
        let all = count_options-tally_after country (o ∷ os) empty_tally fits in
        IsAcceptable-of_Closes country (o ∷ os) fits
          (close_tally_ok (tally_after empty_tally (o ∷ os)) (rw all at h))
    | inr (m, e) ↦ absurd (cc (rw e at h))
  ]

  complete :
      (opts : List (ShipmentOption fl.Value)) (country : String)
      → IsAcceptable country opts
      → validate_options opts country ≡ ok tt
  unfolding validate_options
  complete [] country a = refl
  complete (o ∷ os) country a = rw (count_options-tally_after country (o ∷ os) empty_tally a.each) (
      close_tally_fine (tally_after empty_tally (o ∷ os))
        (Closes-of_IsAcceptable country (o ∷ os) a))

  -- `validateOptions` accepts a list of options exactly if every option fits the destination, at most
  -- one option of each exclusive group is there, none of the delivery group stands beside D2PO, and COD
  -- comes with Hold for Pickup or D2PO.
  pub validate_options_iff :
      (opts : List (ShipmentOption fl.Value)) (country : String)
      → (validate_options opts country ≡ ok tt) ↔ IsAcceptable country opts
  validate_options_iff opts country = (sound opts country, complete opts country)
