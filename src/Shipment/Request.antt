-- ===== src/Shipment/Request.antt =====
-- `buildShipmentRequestFromSnapshot` and `createShipmentFromSnapshot`, in service/shipping_service.go.
pub mod Texts
pub mod Limits
use Prim.Native.Char.{Char, code}
use Prim.Native.String.{[] as nil, ◌∷◌ as cons}
use canada_post.Prelude.{
  ℕ, zero, suc, ℤ, pos, String, List, [], ◌∷◌, Option, none, some, Bool, true, false, not, ◌&&◌,
  ◌||◌, ◌==◌, Result, ok, err, refuse, ◌>>=◌, ◌>>◌, if◌then◌else◌, ltb, is_positive, any,
}
use canada_post.Text.{◌⧺◌, trim, to_upper, to_lower, is_empty, blank, code_of}
use canada_post.Float64.{Float64, zero_value, at_most_zero, above_zero}
use canada_post.Options.Build.{
  ShipmentOption, ShipmentNotification, requires_customs, merge_shipment_options,
}
use canada_post.Snapshot.{
  RateSnapshot, CustomsSnapshot, CustomItemSnapshot, default_value, validate_canada_post_address,
}
use canada_post.Snapshot.Customs.{has_positive_dimensions}
use canada_post.Currency.{
  resolve_destination_country, customs_needs_conversion, conversion_from_cad,
}
use canada_post.Shipment.Phone.{rune_len, rune_count, validate_canada_post_phone}
use canada_post.Shipment.Validate.{
  explain, origin_postal, shipper_address, shipper_city, shipper_province, dest_address, dest_city,
  dest_province, dest_postal, name_of, validate_shipment_snapshot, validate_customs,
}
use canada_post.Shipment.Payload.{
  Dimensions, SenderPart, DestinationPart, ShipmentCustoms, ShipmentRequest, sanitize_address_line,
  requires_client_voice, has_shipment_option_code, build_shipment_customs,
}

module _ ⦃fl : Float64⦄ where
  unfoldable pub build_shipment_request_from_snapshot :
      RateSnapshot fl.Value
      → String
      → List (ShipmentOption fl.Value)
      → Option ShipmentNotification
      → ShipmentRequest fl.Value
  build_shipment_request_from_snapshot s country options notification =
      let sender_name = default_value s.shipper.full_name "Sender" in
      record {
        requested_shipping_point = origin_postal s;
        service_code = trim s.service_code;
        sender = record {
          name = sender_name;
          company = default_value s.shipper.company sender_name;
          contact_phone = trim s.shipper.phone;
          address_line1 = sanitize_address_line (shipper_address s);
          address_line2 = sanitize_address_line (trim s.shipper.street2);
          city = shipper_city s;
          prov_state = shipper_province s;
          postal_code = default_value s.shipper.zip s.origin.postal_code;
        };
        destination = record {
          name = default_value (name_of s.customer) "Recipient";
          company = trim s.customer.company;
          client_voice_number =
              if requires_client_voice s.service_code || has_shipment_option_code options "D2PO"
              then trim s.customer.phone
              else "";
          address_line1 = sanitize_address_line (dest_address s);
          address_line2 = sanitize_address_line (trim s.customer.street2);
          city = dest_city s;
          prov_state = dest_province s;
          country_code =
              default_value (default_value s.customer.country_code s.customer.country)
                s.destination.country;
          postal_code = dest_postal s;
        };
        weight = s.parcel.weight;
        dimensions =
            if has_positive_dimensions s.parcel.length s.parcel.width s.parcel.height
            then some (record {
              length = s.parcel.length;
              width = s.parcel.width;
              height = s.parcel.height;
            })
            else none;
        notification = notification;
        show_packing_instructions = true;
        options = merge_shipment_options options country;
        customs =
            if requires_customs country
            then build_shipment_customs s.customs_info s.currency_code s.rate_to_cad
                (conversion_from_cad s)
            else none;
      }

  abbrev has_items : Option (CustomsSnapshot fl.Value) → Bool
  has_items none = false
  has_items (some info) = elim info.custom_items [ [] ↦ false | _ ∷ _ ↦ true ]

  -- the customs part of the checks
  unfoldable pub check_customs : RateSnapshot fl.Value → String → Result (Unit {0})
  check_customs s country =
      if requires_customs country
      then (do
        refuse (not (has_items s.customs_info)) "customs info required for international shipments"
        validate_customs s
        refuse (customs_needs_conversion s && is_empty (conversion_from_cad s))
            "conversion-from-cad required when customs currency is not CAD")
      else ok tt

  unfoldable pub check_client_voice : RateSnapshot fl.Value → Result (Unit {0})
  check_client_voice s =
      if requires_client_voice s.service_code
      then (do
        refuse (blank s.customer.phone) "customer phone required for selected service"
        explain "invalid customer phone number" (validate_canada_post_phone s.customer.phone))
      else ok tt

  -- the checks of `createShipmentFromSnapshot` before it makes the request
  unfoldable pub check_snapshot : RateSnapshot fl.Value → String → Result (Unit {0})
  check_snapshot s country = do
    validate_shipment_snapshot s country
    validate_canada_post_address s.origin s.destination
    refuse (at_most_zero s.parcel.weight) "parcel weight is required"
    check_customs s country
    check_client_voice s

  -- `createShipmentFromSnapshot`: `create` is the client's call of Canada Post, `none` no client
  unfoldable pub create_shipment_from_snapshot {ℓ} :
      {Response : Type ℓ}
      → Option (ShipmentRequest fl.Value → Result Response)
      → RateSnapshot fl.Value
      → List (ShipmentOption fl.Value)
      → Option ShipmentNotification
      → Result Response
  create_shipment_from_snapshot none s options notification =
      err "canada post client not configured"
  create_shipment_from_snapshot (some create) s options notification =
      let country = resolve_destination_country s in
      do
        check_snapshot s country
        create (build_shipment_request_from_snapshot s country options notification)
