-- ===== src/Label/Handler/Effects.antt =====
-- What `CreateLabel` leaves behind on each of its ways out.
use canada_post.Prelude.{
  ℤ, String, List, [], ◌∷◌, ◌++◌, Option, none, some, Bool, true, false, any, ◌≡◌, refl, sym,
  Bool-cases, Option-cases, Result-cases, inl, inr, if◌then◌else◌,
}
use canada_post.Text.{is_empty}
use canada_post.Float64.{Float64}
use canada_post.Options.Values.{DynamicField}
use canada_post.Snapshot.{RateSnapshot}
use canada_post.Label.{
  ShipmentResponse, LabelRequest, Outcome, failed, issued, panicked, Event, bought, is_record, Step,
  go, stop, stored_record, link_url, is_valid_label_id, World,
}
use canada_post.Label.Handler.{
  Run, save_label_pdf, rate_events, tracking_events, label_record, store_events, finish, deliver,
  prepare, run_step, create_label,
}

abbrev pub is_issued : Outcome → Bool
is_issued (failed _ _) = false
is_issued (issued _ _) = true
is_issued panicked = false

module _ ⦃fl : Float64⦄ where
  -- the outcome says success exactly if a label record is among the events
  abbrev pub IsHonest : Run → Type 0
  IsHonest run = is_issued run.0 ≡ any is_record run.1

  any-append :
      (xs ys : List (Event fl.Value)) → any is_record ys ≡ true → any is_record (xs ++ ys) ≡ true
  any-append [] ys h = h
  any-append (e ∷ xs) ys h = elim (Bool-cases (is_record e)) [
    | inl b ↦ rw b refl
    | inr b ↦ rw b (any-append xs ys h)
  ]

  store_events-record :
      (w : World) (r : LabelRequest fl.Value) (id : String) (s : RateSnapshot fl.Value)
      (shipment : ShipmentResponse)
      → any is_record (store_events w r id s shipment) ≡ true
  unfolding store_events
  store_events-record w r id s shipment =
      any-append (rate_events _ _) _ (
        any-append (tracking_events _ _) (stored_record (label_record w r id s shipment) ∷ []) refl)

  finish-IsHonest :
      (w : World) (r : LabelRequest fl.Value) (id : String) (s : RateSnapshot fl.Value)
      (shipment : ShipmentResponse)
      → IsHonest (finish w r id s shipment)
  unfolding finish store_events label_record
  finish-IsHonest w r id s shipment = elim (Option-cases w.load_currency_rate) [
    | inl e ↦ rw e refl
    | inr (_, e) ↦ rw e (sym (store_events-record w r id s shipment))
  ]

  deliver-IsHonest :
      (w : World) (r : LabelRequest fl.Value) (id : String) (s : RateSnapshot fl.Value)
      (shipment : ShipmentResponse)
      → IsHonest (deliver w r id s shipment)
  unfolding deliver
  deliver-IsHonest w r id s shipment =
      elim (Bool-cases (is_empty (link_url "label" shipment.links ""))) [
        | inl e ↦ rw e refl
        | inr e ↦ rw e (elim (Result-cases (w.get_artifact (link_url "label" shipment.links ""))) [
          | inr (_, a) ↦ rw a refl
          | inl (pdf, a) ↦ rw a (elim (Result-cases (save_label_pdf w id pdf)) [
            | inr (_, b) ↦ rw b refl
            | inl (_, b) ↦ rw b (finish-IsHonest w r id s shipment)
          ])
        ])
      ]

  step-IsHonest {ℓ} :
      {A : Type ℓ} (m : Step A) (k : A → Run) → ((a : A) → IsHonest (k a)) → IsHonest (run_step m k)
  step-IsHonest (go a) k h = h a
  step-IsHonest (stop code message) k h = refl

  -- Whatever the request, the stored data and the replies of Canada Post, the database and the disk: `CreateLabel` answers
  -- with a label exactly if it has asked the database to store the record of a label.
  pub create_label-IsHonest :
      (w : World) (metadata : List String) (client : ℤ) (fields : List (Option DynamicField))
      (r : Option (LabelRequest fl.Value))
      → IsHonest (create_label w metadata client fields r)
  unfolding create_label
  create_label-IsHonest w metadata client fields none = refl
  create_label-IsHonest w metadata client fields (some r) =
      step-IsHonest (prepare w metadata client fields r) _ λ p. deliver-IsHonest w r _ p.0 p.1

  -- nothing but the purchase has happened, and no label was issued
  abbrev IsUnsaved : Run → Type 0
  IsUnsaved run = (is_issued run.0 ≡ false) × (run.1 ≡ bought ∷ [])

  deliver-bad_label_id :
      (w : World) (r : LabelRequest fl.Value) (id : String) (s : RateSnapshot fl.Value)
      (shipment : ShipmentResponse)
      → is_valid_label_id id ≡ false
      → IsUnsaved (deliver w r id s shipment)
  unfolding deliver save_label_pdf
  deliver-bad_label_id w r id s shipment bad =
      elim (Bool-cases (is_empty (link_url "label" shipment.links ""))) [
        | inl e ↦ rw e (refl, refl)
        | inr e ↦ rw e (elim (Result-cases (w.get_artifact (link_url "label" shipment.links ""))) [
          | inr (_, a) ↦ rw a (refl, refl)
          | inl (_, a) ↦ rw a (rw bad (refl, refl))
        ])
      ]

  -- what has happened when the parts before the shipment's label are over
  abbrev pub purchases : Step (RateSnapshot fl.Value × ShipmentResponse) → List (Event fl.Value)
  purchases (go _) = bought ∷ []
  purchases (stop _ _) = []

  run_step-bad_label_id :
      (m : Step (RateSnapshot fl.Value × ShipmentResponse))
      (k : RateSnapshot fl.Value × ShipmentResponse → Run)
      → ((p : RateSnapshot fl.Value × ShipmentResponse) → IsUnsaved (k p))
      → (is_issued (run_step m k).0 ≡ false) × ((run_step m k).1 ≡ purchases m)
  run_step-bad_label_id (go p) k h = h p
  run_step-bad_label_id (stop code message) k h = (refl, refl)

  -- A request whose label id, or the generated one if it has none, holds a path separator or two dots: whatever the stored data and
  -- the replies of Canada Post and the disk, `CreateLabel` answers with no label and stores neither a file nor a
  -- record, tracking number or chosen rate; but Canada Post has sold the shipment whenever all checks before it and the call itself
  -- have succeeded, since the id is looked at last.
  pub create_label-bad_label_id :
      (w : World) (metadata : List String) (client : ℤ) (fields : List (Option DynamicField))
      (r : LabelRequest fl.Value)
      → is_valid_label_id (if is_empty r.label_id then w.generated_id else r.label_id) ≡ false
      → (is_issued (create_label w metadata client fields (some r)).0 ≡ false)
        × ((create_label w metadata client fields (some r)).1
            ≡ purchases (prepare w metadata client fields r))
  unfolding create_label
  create_label-bad_label_id w metadata client fields r bad =
      run_step-bad_label_id (prepare w metadata client fields r) _
        λ p. deliver-bad_label_id w r _ p.0 p.1 bad
