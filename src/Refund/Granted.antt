-- ===== src/Refund/Granted.antt =====
-- When a refund succeeds.
use canada_post.Prelude.{
  ℤ, String, Option, some, Bool, true, false, Result, ok, err, ◌≡◌, ◌↔◌, refl, sym, ap, ◌∙◌, subst,
}
use canada_post.Text.{trim, blank}
use canada_post.Client.{RefundResponse}
use canada_post.Client.Refund.{RefundResult, refunded, failed}
use canada_post.Label.{Step, go, stop, ◌>>=◌, stop_if, replaced}
use canada_post.Refund.{
  RefundRecord, Incoming, RefundWorld, fetch_customer_email_from_orders, refund_client_id,
  orders_token, check_record, prepare_refund, refund_response, ask_if, refund_shipment,
}

module _ {ℓ κ} {A : Type ℓ} {B : Type κ} where
  bind-go :
      (m : Step A) (k : A → Step B) {b : B} → (m >>= k) ≡ go b → (a : A) × (m ≡ go a) × (k a ≡ go b)
  bind-go (go a) k h = (a, refl, h)
  bind-go (stop code message) k h = absurd (cc h)

stop_if-go :
    (bad : Bool) (code message : String) {u : Unit {0}}
    → stop_if bad code message ≡ go u
    → bad ≡ false
stop_if-go false code message h = refl
stop_if-go true code message h = absurd (cc h)

replaced-go {ℓ} :
    {A : Type ℓ} (code message : String) (r : Result A) {a : A}
    → replaced code message r ≡ go a
    → r ≡ ok a
replaced-go code message (ok x) h = cc h
replaced-go code message (err e) h = absurd (cc h)

-- the record is there, with a refund link and an invoice
abbrev pub IsRefundable : RefundRecord → Type 0
IsRefundable r =
    (blank r.id ≡ false) × (blank r.refund_link ≡ false) × (blank r.invoice_uuid ≡ false)

check_record_iff : (r : RefundRecord) → (check_record r ≡ go tt) ↔ IsRefundable r
unfolding check_record
check_record_iff r = (
  λ h.
      let (_, a, h1) = bind-go (stop_if (blank r.id) "404" "RefundShipment label not found") _ h in
      let (_, b, h2) =
        bind-go (stop_if (blank r.refund_link) "400" "RefundShipment refund link not found") _ h1 in
      (stop_if-go _ _ _ a, stop_if-go _ _ _ b, stop_if-go _ _ _ h2),
  λ (a, b, c). rw a (rw b (rw c refl)),
)

abbrev asked_with : String → String → Step (String × String)
asked_with link email = go (link, email)

module _ (w : RefundWorld) (incoming : Incoming) (store_client : Option ℤ) where
  abbrev client : ℤ
  client = refund_client_id store_client

  abbrev email_of : RefundRecord → Result String
  email_of r =
      (fetch_customer_email_from_orders w incoming r.invoice_uuid client (orders_token w client)).0

  -- the stored record of the label is refundable, and its customer has this address
  abbrev pub IsReady : String → RefundRecord → String → Type 0
  IsReady label_id r email =
      (blank label_id ≡ false)
      × (w.load_record (trim label_id) ≡ ok r)
      × IsRefundable r
      × (email_of r ≡ ok email)
      × (blank email ≡ false)

  prepare_refund-IsReady :
      (label_id link email : String)
      → prepare_refund w incoming store_client label_id ≡ go (link, email)
      → (r : RefundRecord) × IsReady label_id r email × (r.refund_link ≡ link)
  unfolding prepare_refund
  prepare_refund-IsReady label_id link email h =
      let (_, a, h1) =
        bind-go (stop_if (blank label_id) "400" "RefundShipment missing label_id") _ h in
      let (r, b, h2) =
        bind-go
          (replaced "500" "RefundShipment failed to load label record"
            (w.load_record (trim label_id)))
          _ h1 in
      let (_, c, h3) = bind-go (check_record r) _ h2 in
      let (e, d, h4) =
        bind-go (replaced "500" "RefundShipment failed to load customer email" (email_of r)) _ h3 in
      let (_, f, h5) =
        bind-go
          (stop_if (blank e) "400"
            "customer email missing (required by Canada Post refund request)")
          _ h4 in
      let same : e ≡ email = cc h5 in
      let linked : r.refund_link ≡ link = cc h5 in
      (
        r,
        (
          stop_if-go _ _ _ a,
          replaced-go _ _ _ b,
          (check_record_iff r).0 c,
          replaced-go _ _ _ d ∙ ap ok same,
          subst (λ x. blank x ≡ false) same (stop_if-go _ _ _ f),
        ),
        linked,
      )

  IsReady-prepare_refund :
      (label_id : String) (r : RefundRecord) (email : String)
      → IsReady label_id r email
      → prepare_refund w incoming store_client label_id ≡ go (r.refund_link, email)
  unfolding prepare_refund
  IsReady-prepare_refund label_id r email (a, b, c, d, e) =
      rw a (rw b (rw ((check_record_iff r).1 c) (rw d (rw e refl))))

  ask_if-success :
      (m : Step (String × String))
      → (ask_if w m).success ≡ true
      → (link : String) × (email : String) × (ticket : RefundResponse) × (m ≡ go (link, email))
        × (w.refund link email ≡ refunded ticket)
  ask_if-success (stop code message) h = absurd (cc h)
  ask_if-success (go (link, email)) h = granted (w.refund link email) refl h
    where
      granted :
          (r : RefundResult)
          → w.refund link email ≡ r
          → (refund_response r).success ≡ true
          → (l : String) × (e : String) × (ticket : RefundResponse) × (asked_with link email
              ≡ go (l, e))
            × (w.refund l e ≡ refunded ticket)
      granted (refunded ticket) e h = (link, email, ticket, refl, e)
      granted (failed f) e h = absurd (cc h)

  -- A refund is reported exactly if the label's stored record has an id, a refund link and an invoice, the orders service has an
  -- address that is not blank for it, and Canada Post grants the refund of that link for that address.
  pub success-refund_shipment :
      (label_id : String)
      → ((refund_shipment w incoming store_client (some label_id)).success ≡ true) ↔ (
          (r : RefundRecord) × (email : String) × (ticket : RefundResponse) × IsReady label_id r
            email
          × (w.refund r.refund_link email ≡ refunded ticket))
  unfolding refund_shipment
  success-refund_shipment label_id = (
    λ h.
        let (link, email, ticket, prepared, granted) =
          ask_if-success (prepare_refund w incoming store_client label_id) h in
        let (r, ready, linked) = prepare_refund-IsReady label_id link email prepared in
        (
          r,
          email,
          ticket,
          ready,
          subst (λ l. w.refund l email ≡ refunded ticket) (sym linked) granted,
        ),
    λ (r, email, ticket, ready, granted).
        rw (IsReady-prepare_refund label_id r email ready) (rw granted refl),
  )
