-- ===== src/Shipment/Payload.antt =====
-- The parts of the request for Canada Post: `ShipmentRequest` of service/canada_post_types.go, whose nested
-- structs are records here, and the helpers of `buildShipmentRequestFromSnapshot` and `buildShipmentCustoms` in
-- service/shipping_service.go. Nil parts are `none`.

use Prim.Native.String.{[] as nil, ◌∷◌ as cons}
use canada_post.Prelude.{
  ℕ, zero, suc, ℤ, pos, String, List, [], ◌∷◌, Option, none, some, Bool, not, ◌&&◌, ◌||◌, ◌==◌,
  if◌then◌else◌, ltb, is_positive, any,
}
use canada_post.Text.{trim, to_upper, to_lower, is_empty, code_of}
use canada_post.Float64.{Float64, zero_value, above_zero}
use canada_post.Options.Build.{ShipmentOption, ShipmentNotification}
use canada_post.Snapshot.{CustomsSnapshot, CustomItemSnapshot, default_value}
use canada_post.Shipment.Phone.{rune_count}

pub record Dimensions (V : Type 0) : Type 0 where
  pub length : V
  pub width : V
  pub height : V

pub record SenderPart : Type 0 where
  pub name : String
  pub company : String
  pub contact_phone : String
  pub address_line1 : String
  pub address_line2 : String
  pub city : String
  pub prov_state : String
  pub postal_code : String

pub record DestinationPart : Type 0 where
  pub name : String
  pub company : String
  pub client_voice_number : String
  pub address_line1 : String
  pub address_line2 : String
  pub city : String
  pub prov_state : String
  pub country_code : String
  pub postal_code : String

pub record ShipmentCustomsItem (V : Type 0) : Type 0 where
  pub customs_number_of_units : ℤ
  pub customs_description : String
  pub unit_weight : V
  pub customs_value_per_unit : V
  pub hs_tariff_code : String
  pub sku : String
  pub country_of_origin : String

pub record ShipmentCustoms (V : Type 0) : Type 0 where
  pub us_declaration_id : String
  pub currency : String
  pub conversion_from_cad : String
  pub reason_for_export : String
  pub items : List (ShipmentCustomsItem V)

pub record ShipmentRequest (V : Type 0) : Type 0 where
  pub requested_shipping_point : String
  pub service_code : String
  pub sender : SenderPart
  pub destination : DestinationPart
  pub weight : V
  pub dimensions : Option (Dimensions V)
  pub notification : Option ShipmentNotification
  pub show_packing_instructions : Bool
  pub options : List (ShipmentOption V)
  pub customs : Option (ShipmentCustoms V)

-- `string(runes[:n])`
unfoldable pub first_runes : ℕ → String → String
first_runes zero s = ""
first_runes (suc n) nil = ""
first_runes (suc n) (cons c s) = cons c (first_runes n s)

unfoldable pub sanitize_address_line : String → String
sanitize_address_line value =
    let v = trim value in
    if is_empty v then "" else if ltb 44 (rune_count v) then trim (first_runes 44 v) else v

abbrev client_voice_services : List String
client_voice_services = "USA.EP" ∷ "USA.XP" ∷ "USA.TP" ∷ "INT.XP" ∷ "INT.TP" ∷ []

unfoldable pub requires_client_voice : String → Bool
requires_client_voice service_code =
    let c = trim (to_upper service_code) in any (λ s. s == c) client_voice_services

unfoldable pub map_reason_for_export : String → String
map_reason_for_export value =
    let v = to_lower (trim value) in
    if v == "gift" || v == "gft"
    then "GFT"
    else if v == "documents" || v == "document" || v == "doc"
    then "DOC"
    else if v == "sample" || v == "sam"
    then "SAM"
    else if v == "return" || v == "returned_goods" || v == "ret"
    then "RET"
    else if v == "repair" || v == "rep"
    then "REP"
    else if v == "intercompany_transfer" || v == "intercompany" || v == "int"
    then "INT"
    else "SOG"

module _ ⦃fl : Float64⦄ where
  -- `hasShipmentOptionCode`, for a code in capitals
  unfoldable pub has_shipment_option_code : List (ShipmentOption fl.Value) → String → Bool
  has_shipment_option_code options c =
      any (λ o. to_upper (trim (ShipmentOption.code o)) == c) options

  abbrev one_if_not_positive : ℤ → ℤ
  one_if_not_positive n = if is_positive n then n else pos 1

  unfoldable pub customs_item :
      Bool → fl.Value → CustomItemSnapshot fl.Value → ShipmentCustomsItem fl.Value
  customs_item convert rate item =
      let units = one_if_not_positive item.quantity in
      let per_unit =
        fl.div (fl.div (fl.of_int item.total_value_cents) (fl.of_int (pos 100)))
          (fl.of_int units) in
      record {
        customs_number_of_units = units;
        customs_description = default_value item.description item.code;
        unit_weight = item.weight;
        customs_value_per_unit =
            if is_positive item.total_value_cents
            then (if convert then fl.mul per_unit rate else per_unit)
            else zero_value;
        hs_tariff_code = item.hs_tariff_number;
        sku = item.code;
        country_of_origin = item.origin_country;
      }

  unfoldable pub customs_items :
      Bool → fl.Value → List (CustomItemSnapshot fl.Value) → List (ShipmentCustomsItem fl.Value)
  customs_items convert rate [] = []
  customs_items convert rate (item ∷ items) =
      customs_item convert rate item ∷ customs_items convert rate items

  unfoldable pub build_shipment_customs :
      Option (CustomsSnapshot fl.Value)
      → String
      → fl.Value
      → String
      → Option (ShipmentCustoms fl.Value)
  build_shipment_customs none fallback rate conversion = none
  build_shipment_customs (some info) fallback rate conversion =
      let own = code_of info.currency in
      let second = if is_empty own then code_of fallback else own in
      let currency = if is_empty second then "USD" else second in
      some (record {
        us_declaration_id = trim info.eel_pfc;
        currency = currency;
        conversion_from_cad = trim conversion;
        reason_for_export = map_reason_for_export info.contents_type;
        items = customs_items (not (currency == "CAD") && above_zero rate) rate info.custom_items;
      })
