-- ===== src/Options/Accepted/Parts.antt =====
-- What each part of `buildCreateLabelOptions` (service/canada_post_options.go) adds to the tally of
-- `validateOptions` (service/label_options.go).
use canada_post.Prelude.{
  ◌+◌, String, List, [], ◌++◌, ◌≡◌, refl, ◌∙◌, ap, Bool, true, false, ◌==◌, arith, eq_iff,
  if◌then◌else◌, All, All-append, Bool-cases, inl, inr,
}
use canada_post.Text.{trim, to_upper, is_empty, blank, code_of}
use canada_post.Float64.{Float64}
use canada_post.Options.Values.{parse_bool, normalize_bool_string}
use canada_post.Options.Rules.{is_proof_of_age}
use canada_post.Options.Build.{ShipmentOption, coded_if, is_delivery_code, is_non_delivery_code}
use canada_post.Options.Check.{
  age, hfp, safe_drop, non_delivery, cod, cov, d2po, other, kind, kind_of, Tally, is_domestic,
}
use canada_post.Options.Check.Spec.{
  Fits, tally_after, is_age, is_delivery, is_non_delivery, is_cod, is_hfp, is_d2po,
}
use canada_post.Options.Accepted.{count_kind-append, any_kind-append}

-- the kinds of the codes that the program writes
pub kind_codes :
    (kind (code_of "SO") ≡ other)
    × (kind (code_of "COV") ≡ cov)
    × (kind (code_of "COD") ≡ cod)
    × (kind (code_of "D2PO") ≡ d2po)
unfolding kind trim to_upper
kind_codes = (refl, refl, refl, refl)

kind_of_age : (c : String) → is_proof_of_age c ≡ true → kind (code_of c) ≡ age
unfolding kind trim to_upper
kind_of_age c h = elim (Bool-cases (c == "PA18")) [
  | inl e ↦ rw ((eq_iff c "PA18").0 e) refl
  | inr e ↦ rw ((eq_iff c "PA19").0 (ground arith)) refl
]

kind_of_handling : (c : String) → is_non_delivery_code c ≡ true → kind (code_of c) ≡ non_delivery
unfolding kind trim to_upper
kind_of_handling c h = elim (Bool-cases (c == "RASE")) [
  | inl e ↦ rw ((eq_iff c "RASE").0 e) refl
  | inr e ↦ elim (Bool-cases (c == "RTS")) [
    | inl e' ↦ rw ((eq_iff c "RTS").0 e') refl
    | inr e' ↦ rw ((eq_iff c "ABAN").0 (ground arith)) refl
  ]
]

non_delivery-ne-empty : (c : String) → is_non_delivery_code c ≡ true → is_empty c ≡ true → ⊥
non_delivery-ne-empty String.[] h e = absurd (cc h)
non_delivery-ne-empty (String.◌∷◌ c s) h e = absurd (cc e)

pub kind_of_delivery :
    (c : String)
    → is_delivery_code c ≡ true
    → kind (code_of c) ≡ (if c == "HFP" then hfp else safe_drop)
unfolding kind trim to_upper
kind_of_delivery c h = elim (Bool-cases (c == "HFP")) [
  | inl e ↦ rw ((eq_iff c "HFP").0 e) refl
  | inr e ↦ elim (Bool-cases (c == "DNS")) [
    | inl e' ↦ rw ((eq_iff c "DNS").0 e') refl
    | inr e' ↦ rw ((eq_iff c "LAD").0 (ground arith)) refl
  ]
]

pub normalize_bool_string-blank : (v : String) → blank (normalize_bool_string v) ≡ false
unfolding normalize_bool_string trim
normalize_bool_string-blank v = elim (Bool-cases (parse_bool v)) [
  | inl e ↦ rw e refl
  | inr e ↦ rw e refl
]

module _ ⦃fl : Float64⦄ where
  -- every option of a part fits, and the part changes a tally in one way
  pub record Part (country : String) (os : List (ShipmentOption fl.Value)) (change : Tally → Tally)
      : Type 0 where
    pub fits : All (λ o. Fits country (kind_of o) o) os
    pub counts : (t : Tally) → tally_after t os ≡ change t

  pub tally_after-append :
      (t : Tally) (xs ys : List (ShipmentOption fl.Value))
      → tally_after t (xs ++ ys) ≡ tally_after (tally_after t xs) ys
  tally_after-append t xs ys = ground (
    arith,
    count_kind-append is_age xs ys,
    count_kind-append is_delivery xs ys,
    count_kind-append is_non_delivery xs ys,
    any_kind-append is_cod xs ys,
    any_kind-append is_hfp xs ys,
    any_kind-append is_d2po xs ys,
  )

  pub Part-append :
      {country : String} (xs ys : List (ShipmentOption fl.Value)) {f g : Tally → Tally}
      → Part country xs f
      → Part country ys g
      → Part country (xs ++ ys) (λ t. g (f t))
  Part-append xs ys {f} {g} p q = record {
    fits = All-append _ xs ys p.fits q.fits;
    counts = λ t.
        tally_after-append t xs ys ∙ (ap (λ u. tally_after u ys) (p.counts t) ∙ q.counts (f t));
  }

  pub Part-nil : {country : String} → Part country [] (λ t. t)
  Part-nil = record { fits = tt; counts = λ t. ground arith }

  pub so-Part : (country : String) (b : Bool) → Part country (coded_if b "SO") (λ t. t)
  so-Part country true = record {
    fits = rw kind_codes.0 (tt, tt);
    counts = λ t. rw kind_codes.0 (ground arith);
  }
  so-Part country false = Part-nil

  pub age-Part :
      (country c : String)
      → Part country
          (coded_if (is_proof_of_age c) c)
          (λ t. record t { age_count = t.age_count + (if is_proof_of_age c then 1 else 0) })
  age-Part country c = elim (Bool-cases (is_proof_of_age c)) [
    | inl e ↦ rw e (record {
      fits = rw (kind_of_age c e) (tt, tt);
      counts = λ t. rw (kind_of_age c e) (ground arith);
    })
    | inr e ↦ rw e (record { fits = tt; counts = λ t. ground arith })
  ]

  pub handling-Part :
      (country c : String)
      → (is_domestic country ≡ true → is_empty c ≡ true)
      → Part country (coded_if (is_non_delivery_code c) c) (λ t. record t {
        non_delivery_count = t.non_delivery_count + (if is_non_delivery_code c then 1 else 0);
      })
  handling-Part country c free = elim (Bool-cases (is_non_delivery_code c)) [
    | inl e ↦ rw e (record {
      fits = rw (kind_of_handling c e) (not_domestic e, tt);
      counts = λ t. rw (kind_of_handling c e) (ground arith);
    })
    | inr e ↦ rw e (record { fits = tt; counts = λ t. ground arith })
  ]
    where
      not_domestic : is_non_delivery_code c ≡ true → is_domestic country ≡ false
      not_domestic e = elim (Bool-cases (is_domestic country)) [
        | inl d ↦ absurd (non_delivery-ne-empty c e (free d))
        | inr d ↦ d
      ]
