-- ===== src/Tests/Refund.antt =====
-- Refunds at concrete inputs.
use canada_post.Prelude.{
  pos, String, [], ◌∷◌, Option, some, true, ◌==◌, ok, err, if◌then◌else◌, ◌≡◌, ◌↔◌, refl,
}
use canada_post.Text.{trim, is_empty, to_lower, has_prefix}
use canada_post.Dict.{Dict, find, put, get}
use canada_post.Float64.Sample.{sample}
use canada_post.Client.{CanadaPostClient, HttpReply, HttpRequest, RefundResponse, Wire}
use canada_post.Client.Refund
use canada_post.Client.Refund.{RefundResult, refunded, ask_refund}
use canada_post.Client.Refund.Exact.{IsGranted, refund_shipment_iff}
use canada_post.Refund.{
  RefundRecord, Incoming, OrdersAnswer, answered, refused, unauthenticated, RefundWorld,
  refund_shipment, fetch_customer_email_from_orders, fetch_with_token, after_token,
  fetch_with_incoming, retry_bearer, orders_headers, caller_id,
}
use canada_post.Uninstall.{raw_token, drop_front}
use canada_post.Rates.Request.{client_id_from_context}
use canada_post.Refund.Asked.{IsFetched, fetch_customer_email_from_orders-IsFetched}
use canada_post.Refund.Granted.{IsReady, success-refund_shipment}

abbrev ticket : RefundResponse
ticket = record { service_ticket_id = "42"; service_ticket_date = "2030-01-03" }

-- bodies are texts; Canada Post grants the refund of one link
abbrev wire : Wire ⦃fl = sample⦄ String
wire = record {
  marshal_rates = λ _ _. ok "";
  unmarshal_rates = λ _. ok [];
  marshal_shipment = λ _ _. ok "";
  unmarshal_shipment = λ _. err "no shipment";
  marshal_refund = λ _ email. ok email;
  unmarshal_refund = λ body. if body == "ticket" then ok ticket else err "no ticket";
  unmarshal_messages = λ _. err "no messages";
  with_header = λ body. body;
  is_empty_body = is_empty;
  body_text = λ body. body;
  code_text = λ _. "404";
  new_request = λ _ _. ok tt;
  send = λ request.
      if request.url == "https://ct.soa-gw.canadapost.ca/refund/1"
      then ok (record { status_code = 200; body = ok "ticket" })
      else ok (record { status_code = 404; body = ok "" });
}

abbrev client : Option CanadaPostClient
client = some (record { base_url = ""; username = "u"; password = "p"; customer_number = "1" })

abbrev link : String
link = "https://ct.soa-gw.canadapost.ca/refund/1"

refund_shipment_iff_example :
    (canada_post.Client.Refund.refund_shipment ⦃fl = sample⦄ wire client link "ann@example.org"
      ≡ refunded ticket)
    ↔ ((reply : HttpReply String) × (ask_refund ⦃fl = sample⦄ wire client link "ann@example.org"
          ≡ ok reply)
        × IsGranted ⦃fl = sample⦄ wire reply ticket)
refund_shipment_iff_example =
    refund_shipment_iff ⦃fl = sample⦄ wire client link "ann@example.org" ticket

-- orders answers the raw token of the request only
abbrev orders : Dict String → String → OrdersAnswer
orders headers invoice =
    if get headers "authorization" == "abc"
    then answered (some " ann@example.org")
    else refused (unauthenticated "wrong token")

abbrev world : RefundWorld
world = record {
  load_record = λ id.
      if id == "l1"
      then ok (record { id = "l1"; refund_link = link; invoice_uuid = "inv-1" })
      else ok (record { id = ""; refund_link = ""; invoice_uuid = "" });
  access_token = λ _. "old";
  orders_addr = "orders:50051";
  dial = ok tt;
  invoice = orders;
  refund = canada_post.Client.Refund.refund_shipment ⦃fl = sample⦄ wire client;
  int_text = λ _. "7";
}

abbrev incoming : Incoming
incoming = record { authorization = "Bearer abc" ∷ []; client_ids = []; sources = [] }

fetched :
    fetch_customer_email_from_orders world incoming "inv-1" (pos 7) "old"
    ≡ (ok "ann@example.org", "Bearer old" ∷ ("abc" ∷ []))
unfolding fetch_customer_email_from_orders trim to_lower has_prefix fetch_with_token after_token
    fetch_with_incoming retry_bearer orders_headers caller_id put find raw_token drop_front
    client_id_from_context
fetched = refl

fetch_customer_email_from_orders-IsFetched_example :
    IsFetched world
      (record { incoming = incoming; client_id = pos 7; invoice_uuid = trim "inv-1" })
      (fetch_customer_email_from_orders world incoming "inv-1" (pos 7) "old")
fetch_customer_email_from_orders-IsFetched_example =
    fetch_customer_email_from_orders-IsFetched world incoming "inv-1" (pos 7) "old"

success-refund_shipment_example :
    ((refund_shipment world incoming (some (pos 7)) (some " l1")).success ≡ true) ↔ (
      (r : RefundRecord) × (email : String) × (t : RefundResponse) × IsReady world incoming
        (some (pos 7))
        " l1"
        r
        email
      × (world.refund r.refund_link email ≡ refunded t))
success-refund_shipment_example = success-refund_shipment world incoming (some (pos 7)) " l1"
