-- ===== src/Options/Dedupe.antt =====
-- The two `dedupe` functions: of every code that is not blank the first option stays, and nothing else.
use canada_post.Prelude.{
  String, List, [], ◌∷◌, ◌≡◌, ◌∙◌, Bool, true, false, ◌||◌, ◌==◌, arith, any, take, eq_iff,
  if◌then◌else◌, All, Bool-cases, inl, inr,
}
use canada_post.Text.{is_empty, code_of}
use canada_post.Options.Build.{ShipmentOption, dedupe_from, shipment_code, dedupe_shipment_options}

module _ {ℓ} {A : Type ℓ} (code : A → String) where
  -- the items with a given normal code
  abbrev pub with_code : String → List A → List A
  with_code c [] = []
  with_code c (o ∷ os) =
      let rest = with_code c os in if code_of (code o) == c then o ∷ rest else rest

  with_code-dedupe_from :
      (c : String) (seen : List String) (os : List A)
      → with_code c (dedupe_from code seen os)
        ≡ (if is_empty c || any (λ s. s == c) seen then [] else take 1 (with_code c os))
  unfolding dedupe_from
  with_code-dedupe_from c seen [] = ground arith
  with_code-dedupe_from c seen (o ∷ os) = ground (
    arith,
    eq_iff (code_of (code o)) c,
    with_code-dedupe_from c seen os,
    with_code-dedupe_from c (code_of (code o) ∷ seen) os,
  )

  All-dedupe_from {κ} :
      (P : A → Type κ) (seen : List String) (os : List A)
      → All P os
      → All P (dedupe_from code seen os)
  unfolding dedupe_from
  All-dedupe_from P seen [] h = tt
  All-dedupe_from P seen (o ∷ os) (p, h) =
      elim (Bool-cases (is_empty (code_of (code o)) || any (λ s. s == code_of (code o)) seen)) [
        | inl e ↦ rw e (All-dedupe_from P seen os h)
        | inr e ↦ rw e (p, All-dedupe_from P (code_of (code o) ∷ seen) os h)
      ]

  -- a text that is among the codes stays among them, unless it was seen before
  abbrev pub any_code : String → List A → Bool
  any_code c [] = false
  any_code c (o ∷ os) = code_of (code o) == c || any_code c os

  any_code-dedupe_from :
      (c : String) (seen : List String) (os : List A)
      → is_empty c ≡ false
      → any_code c os ≡ true
      → (any_code c (dedupe_from code seen os) || any (λ s. s == c) seen) ≡ true
  unfolding dedupe_from
  any_code-dedupe_from c seen [] n h = cc
  any_code-dedupe_from c seen (o ∷ os) n h = ground (
    arith,
    eq_iff (code_of (code o)) c,
    any_code-dedupe_from c seen os n,
    any_code-dedupe_from c (code_of (code o) ∷ seen) os n,
  )

module _ {V : Type 0} where
  -- Of the options with one code, deduplication keeps the first, and none if the code is blank.
  pub with_code-dedupe_shipment_options :
      (c : String) (os : List (ShipmentOption V))
      → with_code shipment_code c (dedupe_shipment_options os)
        ≡ (if is_empty c then [] else take 1 (with_code shipment_code c os))
  unfolding dedupe_shipment_options
  with_code-dedupe_shipment_options c os =
      with_code-dedupe_from shipment_code c [] os ∙ ground arith

  pub All-dedupe_shipment_options {κ} :
      (P : ShipmentOption V → Type κ) (os : List (ShipmentOption V))
      → All P os
      → All P (dedupe_shipment_options os)
  unfolding dedupe_shipment_options
  All-dedupe_shipment_options P os h = All-dedupe_from shipment_code P [] os h

  pub any_code-dedupe_shipment_options :
      (c : String) (os : List (ShipmentOption V))
      → is_empty c ≡ false
      → any_code shipment_code c os ≡ true
      → any_code shipment_code c (dedupe_shipment_options os) ≡ true
  unfolding dedupe_shipment_options
  any_code-dedupe_shipment_options c os n h =
      ground (arith, any_code-dedupe_from shipment_code c [] os n h)
