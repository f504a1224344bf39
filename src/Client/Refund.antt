-- ===== src/Client/Refund.antt =====
-- `RefundShipment` of service/canada_post_client.go, `parseRefundResponse` and `parseRefundMessage`.
pub mod Exact
use canada_post.Prelude.{
  ℕ, String, List, [], ◌∷◌, Option, none, some, Bool, true, false, not, ◌&&◌, ◌||◌, ◌⊎◌, inl, inr,
  Result, ok, err, refuse, ◌>>=◌, ◌>>◌, nat_eq, ltb, leb, if◌then◌else◌,
}
use canada_post.Text.{◌⧺◌, trim, is_empty, blank}
use canada_post.Float64.{Float64}
use canada_post.Client.{
  CanadaPostClient, HttpReply, RefundResponse, CpMessage, RefundFailure, refund_error, plain_error,
  Wire, labelled, there, post, headers_of, shipment_type, shipment_space,
}

pub data RefundResult : Type 0 where
  refunded : RefundResponse → RefundResult
  failed : RefundFailure → RefundResult

-- the ticket has an id or a date
abbrev pub has_ticket : RefundResponse → Bool
has_ticket r = not (blank r.service_ticket_id) || not (blank r.service_ticket_date)

abbrev pub ticket_of : Result RefundResponse → Option RefundResponse
ticket_of (err _) = none
ticket_of (ok r) = if has_ticket r then some r else none

abbrev filled_message : CpMessage → Option CpMessage
filled_message m = if is_empty m.code && is_empty m.description then none else some m

abbrev first_message : Result (List CpMessage) → Option CpMessage
first_message (err _) = none
first_message (ok []) = none
first_message (ok (m ∷ _)) =
    filled_message (record { code = trim m.code; description = trim m.description })

abbrev pub from_message : Option CpMessage → Result (RefundResponse ⊎ CpMessage)
from_message none = err "unexpected refund response payload"
from_message (some m) = ok (inr m)

abbrev pub message_failure : ℕ → CpMessage → RefundFailure
message_failure status m = refund_error status m.code m.description

abbrev pub from_result : Result RefundResult → RefundResult
from_result (ok r) = r
from_result (err e) = failed (plain_error e)

abbrev pub parsed : ℕ → Result (RefundResponse ⊎ CpMessage) → RefundResult
parsed status (err e) = failed (plain_error e)
parsed status (ok (inr m)) = failed (message_failure status m)
parsed status (ok (inl r)) = refunded r

module _ ⦃fl : Float64⦄ {Body : Type 0} (wire : Wire Body) where
  unfoldable pub parse_refund_message : Body → Option CpMessage
  parse_refund_message body = first_message (wire.unmarshal_messages body)

  unfoldable pub parse_refund_response : Body → Result (RefundResponse ⊎ CpMessage)
  parse_refund_response body =
      let message = parse_refund_message body in
      if wire.is_empty_body body
      then err "refund response is empty"
      else elim (ticket_of (wire.unmarshal_refund body)) [
        | some r ↦ ok (inl r)
        | none ↦ from_message message
      ]

  -- a status that is no success
  unfoldable pub refused_refund : ℕ → Body → RefundFailure
  refused_refund status body = elim (parse_refund_message body) [
    | some m ↦ message_failure status m
    | none ↦ plain_error ("refund API error " ⧺ wire.code_text status ⧺ ": " ⧺ wire.body_text body)
  ]

  unfoldable pub read_refund_body : ℕ → Body → RefundResult
  read_refund_body status body =
      if nat_eq status 404
      then failed (refund_error status "404" "invalid shipment id or refund link")
      else if ltb status 200 || leb 300 status
      then failed (refused_refund status body)
      else parsed status (parse_refund_response body)

  unfoldable pub read_refund : HttpReply Body → RefundResult
  read_refund reply = elim reply.body [
    | err e ↦ failed (plain_error ("failed to read refund response: " ⧺ e))
    | ok body ↦ read_refund_body reply.status_code body
  ]

  -- the reply to the one request that is sent
  unfoldable pub ask_refund : Option CanadaPostClient → String → String → Result (HttpReply Body)
  ask_refund client refund_url email = do
    c ← there client
    refuse (blank refund_url) "refund url is required"
    refuse (blank email) "refund email is required"
    body ←
        labelled "failed to marshal refund request: "
          (wire.marshal_refund shipment_space (trim email))
    labelled "failed to create refund request: " (wire.new_request "POST" (trim refund_url))
    labelled "failed to send refund request: " (
        wire.send (
          post wire c (trim refund_url) (headers_of shipment_type shipment_type)
            (wire.with_header body)))

  unfoldable pub refund_shipment : Option CanadaPostClient → String → String → RefundResult
  refund_shipment client refund_url email = elim (ask_refund client refund_url email) [
    | err e ↦ failed (plain_error e)
    | ok reply ↦ read_refund reply
  ]
