-- ===== src/Label/Handler.antt =====
-- The end of `CreateLabel`, from the shipment on, and the whole handler.
pub mod Effects
use canada_post.Prelude.{
  ℕ, ℤ, pos, String, List, [], ◌∷◌, ◌++◌, Option, none, some, Bool, true, false, not, ◌&&◌, ◌||◌,
  ◌==◌, Result, ok, err, if◌then◌else◌,
}
use canada_post.Text.{◌⧺◌, trim, is_empty}
use canada_post.Float64.{Float64}
use canada_post.Options.Values.{DynamicField}
use canada_post.Options.Build.{ShipmentOption, ShipmentNotification}
use canada_post.Snapshot.{RateSnapshot, default_value}
use canada_post.Rates.{fallback_service_name, resolve_service_code}
use canada_post.Shipment.Request.{create_shipment_from_snapshot}
use canada_post.Label.{
  Link, ShipmentResponse, LabelRecord, LabelRequest, Outcome, failed, issued, panicked, Event,
  bought, stored_pdf, stored_rate, stored_tracking, stored_record, Step, go, stop, ◌>>=◌, ◌>>◌,
  coded, present, link_url, is_valid_label_id, World, load_for_label, label_options,
}

module _ ⦃fl : Float64⦄ where
  abbrev pub Run : Type 0
  Run = Outcome × List (Event fl.Value)

  unfoldable pub save_label_pdf : (w : World) → String → w.Pdf → Result (Unit {0})
  save_label_pdf w id pdf =
      let path = trim w.storage_path in
      if is_valid_label_id id
      then w.write_file (if is_empty path then "files/labels" else path) (id ⧺ ".pdf") pdf
      else err "invalid label id"

  unfoldable pub label_record :
      World
      → LabelRequest fl.Value
      → String
      → RateSnapshot fl.Value
      → ShipmentResponse
      → LabelRecord fl.Value
  label_record w r id s shipment =
      let name = trim s.service_name in
      record {
        id = id;
        shipment_id = shipment.shipment_id;
        tracking_number = shipment.tracking_pin;
        invoice_uuid = default_value s.invoice_uuid r.invoice_uuid;
        rate_id = trim r.shipping_rate_id;
        carrier = "Canada Post";
        service_code = resolve_service_code w.rate_metas s.service_code;
        service_name = if is_empty name then fallback_service_name s.service_code else name;
        shipping_charges_cents = s.price_cents;
        delivery_date = s.delivery_date;
        delivery_days = w.days_until s.delivery_date;
        refund_link = link_url "refund" shipment.links "";
        weight = s.parcel.weight;
      }

  -- `SaveChosenRateID` and `SaveTrackingNumber`, each under its condition
  unfoldable pub rate_events : String → String → List (Event fl.Value)
  rate_events invoice rate_id =
      if not (is_empty invoice) && not (is_empty rate_id)
      then stored_rate invoice rate_id ∷ []
      else []

  unfoldable pub tracking_events : String → String → List (Event fl.Value)
  tracking_events invoice tracking =
      if not (is_empty invoice) && not (is_empty tracking)
      then stored_tracking invoice tracking ∷ []
      else []

  -- the writes to the database, whose errors are only logged
  unfoldable pub store_events :
      World
      → LabelRequest fl.Value
      → String
      → RateSnapshot fl.Value
      → ShipmentResponse
      → List (Event fl.Value)
  store_events w r id s shipment =
      let invoice = default_value s.invoice_uuid r.invoice_uuid in
      rate_events invoice r.shipping_rate_id
      ++ (tracking_events invoice shipment.tracking_pin
          ++ (stored_record (label_record w r id s shipment) ∷ []))

  -- behind `saveLabelPDF`; without a store the first write panics
  unfoldable pub finish :
      World → LabelRequest fl.Value → String → RateSnapshot fl.Value → ShipmentResponse → Run
  finish w r id s shipment = elim w.load_currency_rate [
    | none ↦ (panicked, bought ∷ (stored_pdf id ∷ []))
    | some _ ↦
        (issued id shipment.tracking_pin, bought ∷ (stored_pdf id ∷ store_events w r id s shipment))
  ]

  -- from the shipment on: Canada Post has been asked to make it
  unfoldable pub deliver :
      World → LabelRequest fl.Value → String → RateSnapshot fl.Value → ShipmentResponse → Run
  deliver w r id s shipment =
      let url = link_url "label" shipment.links "" in
      if is_empty url
      then (failed "500" "label URL not found in response", bought ∷ [])
      else elim (w.get_artifact url) [
        | err e ↦ (failed "500" e, bought ∷ [])
        | ok pdf ↦ elim (save_label_pdf w id pdf) [
          | err e ↦ (failed "500" e, bought ∷ [])
          | ok _ ↦ finish w r id s shipment
        ]
      ]

  abbrev run_step {ℓ} : {A : Type ℓ} → Step A → (A → Run) → Run
  run_step (go a) k = k a
  run_step (stop code message) k = (failed code message, [])

  -- the parts of the handler before the shipment
  unfoldable pub prepare :
      World
      → List String
      → ℤ
      → List (Option DynamicField)
      → LabelRequest fl.Value
      → Step (RateSnapshot fl.Value × ShipmentResponse)
  prepare w metadata client fields r = do
    s ← load_for_label w metadata client r
    (options, notification) ← label_options w client fields s
    shipment ← coded "400" (create_shipment_from_snapshot w.create_shipment s options notification)
    go (s, shipment)

  unfoldable pub create_label :
      World → List String → ℤ → List (Option DynamicField) → Option (LabelRequest fl.Value) → Run
  create_label w metadata client fields none = (failed "400" "CreateLabel missing ship_request", [])
  create_label w metadata client fields (some r) =
      run_step (prepare w metadata client fields r)
        λ p. deliver w r (if is_empty r.label_id then w.generated_id else r.label_id) p.0 p.1
