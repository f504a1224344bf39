-- ===== src/Options/Permitted/Exact.antt =====
-- `validateCanadaPostOptionRules` of service/canada_post_options.go against its specification.
use canada_post.Prelude.{String, ◌≡◌, ◌↔◌, ok, >>-eq-ok}
use canada_post.Dict.{Dict}
use canada_post.Float64.{Float64}
use canada_post.Options.Rules.{validate_canada_post_option_rules}
use canada_post.Options.Permitted.{
  IsPermitted, signature_ok, signature_fine, exclusive_ok, exclusive_fine, cod_ok, cod_fine,
  d2po_ok, d2po_fine, handling_ok, handling_fine,
}

module _ ⦃fl : Float64⦄ where
  module _ (values : Dict String) (signature phone country : String) (rate : fl.Value) where
    permitted :
        validate_canada_post_option_rules values signature phone country rate ≡ ok tt
        → IsPermitted values signature phone country rate
    unfolding validate_canada_post_option_rules
    permitted h =
        let (s, h1) = (>>-eq-ok _ _ _).0 h in
        let (x, h2) = (>>-eq-ok _ _ _).0 h1 in
        let (c, h3) = (>>-eq-ok _ _ _).0 h2 in
        let (d, n) = (>>-eq-ok _ _ _).0 h3 in
        record {
          signature_fits = signature_ok values signature s;
          d2po_alone = exclusive_ok values x;
          cod_fits = cod_ok values country rate c;
          d2po_fits = d2po_ok values phone country d;
          handling_fits = handling_ok values country n;
        }

    accepted :
        IsPermitted values signature phone country rate
        → validate_canada_post_option_rules values signature phone country rate ≡ ok tt
    unfolding validate_canada_post_option_rules
    accepted p = rw (signature_fine values signature p.signature_fits) (
        rw (exclusive_fine values p.d2po_alone) (
          rw (cod_fine values country rate p.cod_fits) (
            rw (d2po_fine values phone country p.d2po_alone p.d2po_fits)
              (handling_fine values country p.handling_fits))))

    -- The business rules accept option values exactly if the signature, the delivery method, COD, D2PO
    -- and the non-delivery handling each fit the request, as `IsPermitted` says.
    pub validate_canada_post_option_rules_iff :
        (validate_canada_post_option_rules values signature phone country rate ≡ ok tt)
        ↔ IsPermitted values signature phone country rate
    validate_canada_post_option_rules_iff = (permitted, accepted)
