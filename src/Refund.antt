-- ===== src/Refund.antt =====
-- `RefundShipment` and `fetchCustomerEmailFromOrders` of service/refund_shipment.go, and `RefundLabel` of
-- service/refund_label.go. The database, the orders service and Canada Post are in `RefundWorld`.
pub mod Asked
pub mod Granted
use Prim.Native.String.{[] as nil, ◌∷◌ as cons}
use Prim.Native.Char.{code}
use canada_post.Prelude.{
  ℕ, zero, suc, ℤ, pos, String, List, [], ◌∷◌, Option, none, some, Bool, true, false, not, ◌&&◌,
  ◌||◌, ◌==◌, Result, ok, err, is_positive, nat_eq, if◌then◌else◌,
}
use canada_post.Text.{◌⧺◌, trim, to_lower, has_prefix, is_empty, blank}
use canada_post.Dict.{Dict, put}
use canada_post.Uninstall.{drop_front, raw_token}
use canada_post.Client.{RefundResponse, RefundFailure, failure_text}
use canada_post.Client.Refund.{RefundResult, refunded, failed}
use canada_post.Label.{Step, go, stop, ◌>>=◌, ◌>>◌, stop_if, replaced}
use canada_post.Rates.Request.{client_id_from_context}

-- what the handler reads of a stored `LabelRecord`
pub record RefundRecord : Type 0 where
  pub id : String
  pub refund_link : String
  pub invoice_uuid : String

-- the values of the incoming metadata; empty lists when there is none
pub record Incoming : Type 0 where
  pub authorization : List String
  pub client_ids : List String
  pub sources : List String

pub record ResultResponse : Type 0 where
  pub success : Bool
  pub failure : Bool
  pub code : String
  pub message : String

-- an error of a gRPC call: `Unauthenticated`, another status, or none that `status.FromError` reads
pub data CallError : Type 0 where
  unauthenticated : String → CallError
  other_status : String → CallError
  no_status : String → CallError

-- the orders service's answer to a call: the customer's address of the invoice, if there is an invoice
pub data OrdersAnswer : Type 0 where
  answered : Option String → OrdersAnswer
  refused : CallError → OrdersAnswer

abbrev pub first_trimmed : List String → String
first_trimmed [] = ""
first_trimmed (v ∷ _) = trim v

abbrev refusal : String → String → ResultResponse
refusal code message = record { success = false; failure = true; code = code; message = message }

abbrev call_text : CallError → String
call_text (unauthenticated e) = e
call_text (other_status e) = e
call_text (no_status e) = e

-- the customer's address, or what becomes of the call's error
pub data Called : Type 0 where
  found : String → Called
  broken : CallError → Called

abbrev pub called : OrdersAnswer → Called
called (answered none) = found ""
called (answered (some email)) = found (trim email)
called (refused e) = broken e

-- "bearer " in any case in front
abbrev pub bearer_form : String → String
bearer_form auth = if has_prefix (to_lower auth) "bearer " then auth else "Bearer " ⧺ auth

abbrev header_if : String → String → Dict String → Dict String
header_if key value headers = if is_empty value then headers else put key value headers

pub record RefundWorld : Type 0 where
  -- an empty record for an id that is not stored
  pub load_record : String → Result RefundRecord
  pub access_token : ℤ → String
  pub orders_addr : String
  pub dial : Result (Unit {0})
  pub invoice : Dict String → String → OrdersAnswer
  pub refund : String → String → RefundResult
  pub int_text : ℤ → String

-- what the calls of the orders service have in common
pub record Caller : Type 0 where
  pub incoming : Incoming
  pub client_id : ℤ
  pub invoice_uuid : String

unfoldable pub caller_id : RefundWorld → Caller → String
caller_id w c =
    let own = first_trimmed c.incoming.client_ids in
    if not (is_empty own)
    then own
    else if is_positive c.client_id
    then w.int_text c.client_id
    else trim (client_id_from_context c.incoming.client_ids)

-- the headers of `callOrders`
unfoldable pub orders_headers : RefundWorld → Caller → String → Dict String
orders_headers w c auth = header_if "x-request-source" (first_trimmed c.incoming.sources) (
    header_if "x-client-id" (caller_id w c)
      (header_if "authorization" (trim auth) (("x-force-auth", "true") ∷ [])))

abbrev pub call_orders : RefundWorld → Caller → String → Called
call_orders w c auth = called (w.invoice (orders_headers w c auth) c.invoice_uuid)

abbrev pub called_result : Called → Result String
called_result (found email) = ok email
called_result (broken e) = err (call_text e)

-- an email or an error, and the authorizations that were tried
abbrev pub Fetched : Type 0
Fetched = Result String × List String

-- behind the call with the raw authorization
unfoldable pub retry_bearer : RefundWorld → Caller → String → Called → Fetched
retry_bearer w c auth (found email) = (ok email, [])
retry_bearer w c auth (broken (unauthenticated e)) =
    (called_result (call_orders w c (bearer_form auth)), bearer_form auth ∷ [])
retry_bearer w c auth (broken (other_status e)) = (err e, [])
retry_bearer w c auth (broken (no_status e)) = (err e, [])

abbrev pub and_before : String → Fetched → Fetched
and_before auth (r, tried) = (r, auth ∷ tried)

-- with the authorization of the request
unfoldable pub fetch_with_incoming : RefundWorld → Caller → String → Fetched
fetch_with_incoming w c auth =
    if is_empty auth
    then (err "authorization is missing for orders request", [])
    else and_before (raw_token auth) (retry_bearer w c auth (call_orders w c (raw_token auth)))

-- behind the call with the store's token
unfoldable pub after_token : RefundWorld → Caller → String → Called → Fetched
after_token w c auth (found email) = (ok email, [])
after_token w c auth (broken (unauthenticated e)) = fetch_with_incoming w c auth
after_token w c auth (broken (other_status e)) = (err e, [])
after_token w c auth (broken (no_status e)) = fetch_with_incoming w c auth

unfoldable pub fetch_with_token : RefundWorld → Caller → String → String → Fetched
fetch_with_token w c auth token =
    if is_empty token
    then fetch_with_incoming w c auth
    else and_before ("Bearer " ⧺ token) (after_token w c auth (call_orders w c ("Bearer " ⧺ token)))

unfoldable pub fetch_customer_email_from_orders :
    RefundWorld → Incoming → String → ℤ → String → Fetched
fetch_customer_email_from_orders w incoming invoice client token =
    let auth = first_trimmed incoming.authorization in
    let c : Caller = record {
      incoming = incoming;
      client_id = client;
      invoice_uuid = trim invoice;
    } in
    if blank w.orders_addr
    then (err "orders grpc addr is required", [])
    else if blank invoice
    then (err "invoice uuid is required", [])
    else elim w.dial [
      | err e ↦ (err e, [])
      | ok _ ↦
          if is_empty auth && blank token
          then (err "authorization is missing for orders request", [])
          else fetch_with_token w c auth (trim token)
    ]

unfoldable pub refund_client_id : Option ℤ → ℤ
refund_client_id none = pos 0
refund_client_id (some id) = id

abbrev pub orders_token : RefundWorld → ℤ → String
orders_token w client = if is_positive client then trim (w.access_token client) else ""

-- the checks of the stored record
unfoldable pub check_record : RefundRecord → Step (Unit {0})
check_record r = do
  stop_if (blank r.id) "404" "RefundShipment label not found"
  stop_if (blank r.refund_link) "400" "RefundShipment refund link not found"
  stop_if (blank r.invoice_uuid) "400" "RefundShipment invoice uuid not found"

-- the link of the refund, and the email: what Canada Post is asked with
unfoldable pub prepare_refund : RefundWorld → Incoming → Option ℤ → String → Step (String × String)
prepare_refund w incoming store_client label_id =
    let client = refund_client_id store_client in
    do
      stop_if (blank label_id) "400" "RefundShipment missing label_id"
      r ←
          replaced "500" "RefundShipment failed to load label record"
            (w.load_record (trim label_id))
      check_record r
      email ←
          replaced "500" "RefundShipment failed to load customer email"
            (fetch_customer_email_from_orders w incoming r.invoice_uuid client
              (orders_token w client)).0
      stop_if (blank email) "400" "customer email missing (required by Canada Post refund request)"
      go (r.refund_link, email)

abbrev pub refund_response : RefundResult → ResultResponse
refund_response (failed e) = refusal "400" (failure_text e)
refund_response (refunded r) = record {
  success = true;
  failure = false;
  code = "200";
  message =
      "RefundShipment OK ticket_id="
      ⧺ trim r.service_ticket_id
      ⧺ " ticket_date="
      ⧺ trim r.service_ticket_date;
}

abbrev pub ask_if : RefundWorld → Step (String × String) → ResultResponse
ask_if w (stop code message) = refusal code message
ask_if w (go (link, email)) = refund_response (w.refund link email)

-- the request's label id, when it has a ship request, and its client id, when it names its store
unfoldable pub refund_shipment : RefundWorld → Incoming → Option ℤ → Option String → ResultResponse
refund_shipment w incoming store_client none = refusal "400" "RefundShipment missing ship_request"
refund_shipment w incoming store_client (some label_id) =
    ask_if w (prepare_refund w incoming store_client label_id)

-- both ways on lead to `RefundShipment`
unfoldable pub refund_label : RefundWorld → Incoming → Option ℤ → Option String → ResultResponse
refund_label w incoming store_client none = refusal "400" "RefundLabel missing ship_request"
refund_label w incoming store_client (some label_id) =
    refund_shipment w incoming store_client (some label_id)
