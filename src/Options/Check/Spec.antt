-- ===== src/Options/Check/Spec.antt =====
-- What `validateOptions` accepts, as a predicate on the list of options, and that it accepts exactly that.
use canada_post.Prelude.{
  ℕ, ◌+◌, ◌≤◌, String, List, [], ◌∷◌, Bool, true, false, ◌||◌, ◌≡◌, ◌∙◌, ap, inl, inr, ok, arith,
  All, if◌then◌else◌, Result-cases,
}
use canada_post.Text.{blank}
use canada_post.Float64.{Float64, at_most_zero}
use canada_post.Options.Rules.{is_foreign}
use canada_post.Options.Build.{ShipmentOption}
use canada_post.Options.Check.{
  Kind, age, hfp, safe_drop, non_delivery, cod, cov, d2po, Tally, empty_tally, count_option,
  count_options, close_tally, kind_of, is_domestic,
}

abbrev pub is_age : Kind → Bool
is_age age = true
is_age _ = false

abbrev pub is_hfp : Kind → Bool
is_hfp hfp = true
is_hfp _ = false

abbrev pub is_delivery : Kind → Bool
is_delivery hfp = true
is_delivery safe_drop = true
is_delivery _ = false

abbrev pub is_non_delivery : Kind → Bool
is_non_delivery non_delivery = true
is_non_delivery _ = false

abbrev pub is_cod : Kind → Bool
is_cod cod = true
is_cod _ = false

abbrev pub is_d2po : Kind → Bool
is_d2po d2po = true
is_d2po _ = false

module _ ⦃fl : Float64⦄ where
  -- how many options have a kind that passes the test
  abbrev pub count_kind : (Kind → Bool) → List (ShipmentOption fl.Value) → ℕ
  count_kind p [] = 0
  count_kind p (o ∷ os) = (if p (kind_of o) then 1 else 0) + count_kind p os

  abbrev pub any_kind : (Kind → Bool) → List (ShipmentOption fl.Value) → Bool
  any_kind p [] = false
  any_kind p (o ∷ os) = p (kind_of o) || any_kind p os

  -- what an option of each kind needs, for a destination
  abbrev pub Fits : String → Kind → ShipmentOption fl.Value → Type 0
  Fits country non_delivery o = is_domestic country ≡ false
  Fits country cod o =
      (is_foreign country ≡ false)
      × (at_most_zero o.option_amount ≡ false)
      × (blank o.option_qualifier1 ≡ false)
  Fits country cov o = at_most_zero o.option_amount ≡ false
  Fits country d2po o = (is_foreign country ≡ false) × (blank o.option_qualifier2 ≡ false)
  Fits country _ o = Unit

  pub record IsAcceptable (country : String) (opts : List (ShipmentOption fl.Value)) : Type 0 where
    pub each : All (λ o. Fits country (kind_of o) o) opts
    pub one_age : count_kind is_age opts ≤ 1
    pub one_delivery : count_kind is_delivery opts ≤ 1
    pub one_non_delivery : count_kind is_non_delivery opts ≤ 1
    pub d2po_alone : any_kind is_d2po opts ≡ true → count_kind is_delivery opts ≡ 0
    pub cod_pickup :
        any_kind is_cod opts ≡ true → (any_kind is_hfp opts || any_kind is_d2po opts) ≡ true

  -- the tally after the options, if none is refused
  abbrev pub tally_after : Tally → List (ShipmentOption fl.Value) → Tally
  tally_after t os = record {
    age_count = t.age_count + count_kind is_age os;
    delivery_count = t.delivery_count + count_kind is_delivery os;
    non_delivery_count = t.non_delivery_count + count_kind is_non_delivery os;
    has_cod = t.has_cod || any_kind is_cod os;
    has_hfp = t.has_hfp || any_kind is_hfp os;
    has_d2po = t.has_d2po || any_kind is_d2po os;
  }

  abbrev bump : Kind → Tally → Tally
  bump k t = record {
    age_count = t.age_count + (if is_age k then 1 else 0);
    delivery_count = t.delivery_count + (if is_delivery k then 1 else 0);
    non_delivery_count = t.non_delivery_count + (if is_non_delivery k then 1 else 0);
    has_cod = t.has_cod || is_cod k;
    has_hfp = t.has_hfp || is_hfp k;
    has_d2po = t.has_d2po || is_d2po k;
  }

  count_option-Fits :
      (country : String) (k : Kind) (o : ShipmentOption fl.Value) (t : Tally)
      → Fits country k o
      → count_option country k o t ≡ ok (bump k t)
  unfolding count_option
  count_option-Fits country age o t h = ground arith
  count_option-Fits country _ o t h = ground arith

  count_option_ok :
      (country : String) (k : Kind) (o : ShipmentOption fl.Value) (t t' : Tally)
      → count_option country k o t ≡ ok t'
      → Fits country k o
  unfolding count_option
  count_option_ok country age o t t' h = tt
  count_option_ok country _ o t t' h = ground arith

  tally_after-bump :
      (t : Tally) (o : ShipmentOption fl.Value) (os : List (ShipmentOption fl.Value))
      → tally_after (bump (kind_of o) t) os ≡ tally_after t (o ∷ os)
  tally_after-bump t o os = ground arith

  pub count_options-tally_after :
      (country : String) (os : List (ShipmentOption fl.Value)) (t : Tally)
      → All (λ o. Fits country (kind_of o) o) os
      → count_options country os t ≡ ok (tally_after t os)
  unfolding count_options
  count_options-tally_after country [] t h = ground arith
  count_options-tally_after country (o ∷ os) t (p, h) =
      rw (count_option-Fits country (kind_of o) o t p) (
        count_options-tally_after country os (bump (kind_of o) t) h
        ∙ ap ok (tally_after-bump t o os))

  pub count_options_ok :
      (country : String) (os : List (ShipmentOption fl.Value)) (t t' : Tally)
      → count_options country os t ≡ ok t'
      → All (λ o. Fits country (kind_of o) o) os
  unfolding count_options
  count_options_ok country [] t t' h = tt
  count_options_ok country (o ∷ os) t t' h =
      elim (Result-cases (count_option country (kind_of o) o t)) [
        | inl (u, e) ↦ (
          count_option_ok country (kind_of o) o t u e,
          count_options_ok country os u t' (rw e at h),
        )
        | inr (m, e) ↦ absurd (cc (rw e at h))
      ]

  -- the conditions on the counts alone
  abbrev pub Closes : Tally → Type 0
  Closes t =
      (t.age_count ≤ 1)
      × (t.delivery_count ≤ 1)
      × (t.non_delivery_count ≤ 1)
      × (t.has_d2po ≡ true → t.delivery_count ≡ 0)
      × (t.has_cod ≡ true → (t.has_hfp || t.has_d2po) ≡ true)

  pub close_tally_ok : (t : Tally) → close_tally t ≡ ok tt → Closes t
  unfolding close_tally
  close_tally_ok t h = ground arith

  pub close_tally_fine : (t : Tally) → Closes t → close_tally t ≡ ok tt
  unfolding close_tally
  close_tally_fine t h = ground arith

  pub IsAcceptable-of_Closes :
      (country : String) (os : List (ShipmentOption fl.Value))
      → All (λ o. Fits country (kind_of o) o) os
      → Closes (tally_after empty_tally os)
      → IsAcceptable country os
  IsAcceptable-of_Closes country os fits c = record {
    each = fits;
    one_age = omega (arith, c.0);
    one_delivery = omega (arith, c.1);
    one_non_delivery = omega (arith, c.2);
    d2po_alone = λ p. omega (arith, c.3 p);
    cod_pickup = c.4;
  }

  pub Closes-of_IsAcceptable :
      (country : String) (os : List (ShipmentOption fl.Value))
      → IsAcceptable country os
      → Closes (tally_after empty_tally os)
  Closes-of_IsAcceptable country os a = (
    omega (arith, a.one_age),
    omega (arith, a.one_delivery),
    omega (arith, a.one_non_delivery),
    λ h. omega (arith, a.d2po_alone h),
    a.cod_pickup,
  )
