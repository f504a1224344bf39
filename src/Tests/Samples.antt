-- ===== src/Tests/Samples.antt =====
-- Data for the runs: a parcel from Ottawa to Toronto, with amounts in hundredths.
use canada_post.Prelude.{pos, String, List, [], ◌∷◌, none, true, false, ◌≡◌, arith, refl}
use canada_post.Dict.{Dict}
use canada_post.Float64.{at_most_zero, above_zero}
use canada_post.Float64.Sample.{Hundredths, nan, num, sample}
use canada_post.Options.Build.{ShipmentOption}
use canada_post.Snapshot.{AddressSnapshot, RateSnapshot, empty_address}

abbrev pub shipper : AddressSnapshot
shipper = record empty_address {
  street1 = "1 Main St";
  city = "Ottawa";
  province_code = "ON";
  zip = "K1A 0B1";
  phone = "613-555-0100";
  full_name = "Ann Shipper";
  country_code = "CA";
}

abbrev pub customer : AddressSnapshot
customer = record empty_address {
  street1 = "2 Bay St";
  city = "Toronto";
  province_code = "ON";
  zip = "M5H 2N2";
  phone = "+1 416 555 0101";
  full_name = "Bob Buyer";
  country_code = "CA";
}

abbrev pub snapshot : RateSnapshot Hundredths
snapshot = record {
  rate_id = "r1";
  service_code = "DOM.EP";
  service_name = "Expedited Parcel";
  price_cents = pos 1250;
  currency_code = "CAD";
  rate_to_cad = num 100;
  delivery_date = "2030-01-02";
  signature = "";
  custom_options = [];
  shipper = shipper;
  customer = customer;
  parcel = record { weight = num 150; length = num 1000; width = num 1000; height = num 500 };
  customs_info = none;
  insurance = record { decimal = ""; currency_code = ""; amount = pos 0 };
  origin = record {
    postal_code = "K1A 0B1";
    address_line = "1 Main St";
    city = "Ottawa";
    province = "ON";
    name = "Ann";
  };
  destination = record {
    name = "Bob";
    address_line = "2 Bay St";
    city = "Toronto";
    province = "ON";
    postal_code = "M5H 2N2";
    country = "CA";
  };
  invoice_uuid = "inv-1";
  client_id = pos 7;
  created_at = 0;
}

-- COD of 50 dollars, held for pickup, with a signature and a proof of age
abbrev pub cod_values : Dict String
cod_values =
    ("COD_amount", "50")
    ∷ (("COD_includes_shipping", "true")
        ∷ (("delivery_method", "HFP")
            ∷ (("age_verification", "PA18") ∷ (("SO_enabled", "true") ∷ []))))

abbrev pub option : String → ShipmentOption Hundredths
option c = record {
  code = c;
  option_amount = num 0;
  option_qualifier1 = "";
  option_qualifier2 = "";
}

-- the options made from them
abbrev pub cod_options : List (ShipmentOption Hundredths)
cod_options =
    option "SO"
    ∷ (record (option "COD") { option_amount = num 5000; option_qualifier1 = "true" }
        ∷ (option "HFP" ∷ (option "PA18" ∷ [])))

pub positive_sample :
    (x : Hundredths) → above_zero ⦃fl = sample⦄ x ≡ true → at_most_zero ⦃fl = sample⦄ x ≡ false
positive_sample nan h = refl
positive_sample (num n) h = ground arith
