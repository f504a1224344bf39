-- ===== src/Label.antt =====
-- `CreateLabel` and `saveLabelPDF` of service/create_label.go. What the handler calls outside of the repository, or
-- in the database and on the disk, is in `World`, as the replies to its calls; its effects are the list of
-- events beside the outcome, in their order.
pub mod Handler
use canada_post.Prelude.{
  ℕ, ℤ, pos, String, List, [], ◌∷◌, ◌++◌, Option, none, some, Bool, true, false, not, ◌&&◌, ◌||◌,
  ◌==◌, Result, ok, err, if◌then◌else◌, int_eq,
}
use canada_post.Text.{◌⧺◌, trim, to_upper, is_empty, contains}
use canada_post.Dict.{Dict}
use canada_post.Float64.{Float64, at_most_zero}
use canada_post.Offices.{Answer}
use canada_post.Options.Values.{DynamicField, custom_info_to_map, validate_custom_info_map_values}
use canada_post.Options.Rules.{validate_canada_post_option_rules}
use canada_post.Options.Build.{
  ShipmentOption, ShipmentNotification, merge_options_maps, build_create_label_options,
  dedupe_shipment_options,
}
use canada_post.Options.Check.{validate_options}
use canada_post.Snapshot.{RateSnapshot, default_value}
use canada_post.Snapshot.Customs.{CustomsInfo, snapshot_customs}
use canada_post.Currency.{
  RequestMoney, resolve_request_currency, resolve_destination_country, build_snapshot_options,
}
use canada_post.Rates.{RateMeta, fallback_service_name, resolve_service_code}
use canada_post.Shipment.Payload.{ShipmentRequest}
use canada_post.Shipment.Request.{create_shipment_from_snapshot}

pub record Link : Type 0 where
  pub rel : String
  pub href : String

pub record ShipmentResponse : Type 0 where
  pub shipment_id : String
  pub tracking_pin : String
  pub links : List Link

pub record LabelRecord (V : Type 0) : Type 0 where
  pub id : String
  pub shipment_id : String
  pub tracking_number : String
  pub invoice_uuid : String
  pub rate_id : String
  pub carrier : String
  pub service_code : String
  pub service_name : String
  pub shipping_charges_cents : ℤ
  pub delivery_date : String
  pub delivery_days : ℕ
  pub refund_link : String
  pub weight : V

-- the parts of `labels.LabelRequest` that the handler reads
pub record LabelRequest (V : Type 0) : Type 0 where
  pub shipping_rate_id : String
  pub label_id : String
  pub invoice_uuid : String
  pub customs_info : Option (CustomsInfo V)
  pub money : RequestMoney V

-- the result that the handler answers with: a failure, the label's id and tracking code, or a nil store that is
-- called
pub data Outcome : Type 0 where
  failed : String → String → Outcome
  issued : String → String → Outcome
  panicked : Outcome

pub data Event (V : Type 0) : Type 0 where
  bought : Event V
  stored_pdf : String → Event V
  stored_rate : String → String → Event V
  stored_tracking : String → String → Event V
  stored_record : LabelRecord V → Event V

abbrev pub is_record : {V : Type 0} → Event V → Bool
is_record bought = false
is_record (stored_pdf _) = false
is_record (stored_rate _ _) = false
is_record (stored_tracking _ _) = false
is_record (stored_record _) = true

-- a value, or an answer of this code and message at once
pub data Step {ℓ} (A : Type ℓ) : Type ℓ where
  go : A → Step A
  stop : String → String → Step A

infixl 5 ◌>>=◌ ◌>>◌
abbrev pub ◌>>=◌ {ℓ κ} : {A : Type ℓ} {B : Type κ} → Step A → (A → Step B) → Step B
go a >>= f = f a
stop code message >>= f = stop code message

abbrev pub ◌>>◌ {ℓ} : {B : Type ℓ} → Step (Unit {0}) → Step B → Step B
m >> k = m >>= λ _. k

abbrev pub stop_if : Bool → String → String → Step (Unit {0})
stop_if true code message = stop code message
stop_if false code message = go tt

-- an error's message with this code
abbrev pub coded {ℓ} : {A : Type ℓ} → String → Result A → Step A
coded code (ok a) = go a
coded code (err e) = stop code e

-- any error with this code and message
abbrev pub replaced {ℓ} : {A : Type ℓ} → String → String → Result A → Step A
replaced code message (ok a) = go a
replaced code message (err e) = stop code message

abbrev pub present {ℓ} : {A : Type ℓ} → String → String → Option A → Step A
present code message (some a) = go a
present code message none = stop code message

-- the loop over the links: the last label and the last refund link
unfoldable pub link_url : String → List Link → String → String
link_url rel [] url = url
link_url rel (link ∷ links) url = link_url rel links (if link.rel == rel then link.href else url)

unfoldable pub is_valid_label_id : String → Bool
is_valid_label_id id = not (contains id "/" || contains id "\\" || contains id "..")

module _ ⦃fl : Float64⦄ where
  -- `Load` of the snapshot store, the rates of the database, the two calls of Canada Post, the post
  -- offices, and the disk; `none` stands for what is not configured
  pub record World : Type 1 where
    pub Pdf : Type 0
    pub load_snapshot : Option (String → Result (RateSnapshot fl.Value))
    pub load_currency_rate : Option (ℤ → String → Result (Option fl.Value))
    pub has_offices : Bool
    pub find_office : ℤ → String → Answer String
    pub create_shipment : Option (ShipmentRequest fl.Value → Result ShipmentResponse)
    pub get_artifact : String → Result Pdf
    pub write_file : String → String → Pdf → Result (Unit {0})
    pub rate_metas : Dict RateMeta
    pub days_until : String → ℕ
    pub storage_path : String
    pub generated_id : String

  -- the rate for a request in another currency, when the snapshot has none
  unfoldable pub with_rate :
      World → ℤ → String → RateSnapshot fl.Value → Step (RateSnapshot fl.Value)
  with_rate w client currency s =
      if at_most_zero s.rate_to_cad && not (is_empty currency) && not (to_upper currency == "CAD")
      then (do
        load ← present "500" "currency rates store not configured" w.load_currency_rate
        stop_if (int_eq client (pos 0)) "400" "client_id required for currency conversion"
        found ← replaced "500" "failed to load currency rate" (load client currency)
        rate ← present "400" ("missing conversion rate for " ⧺ currency) found
        go (record s { rate_to_cad = rate }))
      else go s

  abbrev with_customs :
      Option (CustomsInfo fl.Value) → RateSnapshot fl.Value → RateSnapshot fl.Value
  with_customs none s = s
  with_customs (some info) s = record s { customs_info = snapshot_customs (some info) }

  abbrev with_currency : String → RateSnapshot fl.Value → RateSnapshot fl.Value
  with_currency currency s =
      if is_empty s.currency_code then record s { currency_code = currency } else s

  -- the part up to the rate: the snapshot that the label is made from
  unfoldable pub load_for_label :
      World → List String → ℤ → LabelRequest fl.Value → Step (RateSnapshot fl.Value)
  load_for_label w metadata client r = do
    stop_if (is_empty (trim r.shipping_rate_id)) "400" "CreateLabel missing shipping_rate_id"
    load ← present "500" "rate snapshot store not configured" w.load_snapshot
    s ← replaced "404" "rate expired or invalid" (load (trim r.shipping_rate_id))
    let currency = resolve_request_currency metadata (some r.money)
    with_rate w client currency (with_currency currency (with_customs r.customs_info s))

  -- the options of the label
  unfoldable pub label_options :
      World
      → ℤ
      → List (Option DynamicField)
      → RateSnapshot fl.Value
      → Step (List (ShipmentOption fl.Value) × Option ShipmentNotification)
  label_options w client fields s =
      let values = merge_options_maps s.custom_options (custom_info_to_map fields) in
      let country = resolve_destination_country s in
      do
        coded "400" (validate_custom_info_map_values values)
        coded "400" (
            validate_canada_post_option_rules values s.signature s.customer.phone country
              s.rate_to_cad)
        (built, notification) ←
            coded "400"
              (build_create_label_options w.has_offices w.find_office client values s.rate_to_cad)
        let options = dedupe_shipment_options (built ++ build_snapshot_options s)
        coded "400" (validate_options options country)
        go (options, notification)
