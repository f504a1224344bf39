-- ===== src/Client.antt =====
-- service/canada_post_client.go: the requests to Canada Post and what becomes of their replies. The transport of `net/http` and
-- the XML codec are parameters: a request may not be built, its sending may fail, and so may the reading of a reply's body. The
-- log is left out; a client that is nil is `none`.
pub mod Refund
pub mod Offices
use canada_post.Prelude.{
  ℕ, ℤ, pos, String, List, [], ◌∷◌, Option, none, some, Bool, true, false, not, ◌&&◌, ◌||◌, ◌==◌,
  Result, ok, err, refuse, ◌>>=◌, ◌>>◌, nat_eq, ltb, leb, if◌then◌else◌,
}
use canada_post.Text.{◌⧺◌, trim, is_empty, blank}
use canada_post.Dict.{Dict}
use canada_post.Float64.{Float64}
use canada_post.Label.{ShipmentResponse}
use canada_post.Rates.{PriceQuote}
use canada_post.Rates.Request.{RateRequest}
use canada_post.Shipment.Payload.{ShipmentRequest}

pub record CanadaPostClient : Type 0 where
  pub base_url : String
  pub username : String
  pub password : String
  pub customer_number : String

pub record HttpRequest (Body : Type 0) : Type 0 where
  pub method : String
  pub url : String
  pub headers : Dict String
  pub username : String
  pub password : String
  pub body : Option Body

pub record HttpReply (Body : Type 0) : Type 0 where
  pub status_code : ℕ
  pub body : Result Body

pub record RefundResponse : Type 0 where
  pub service_ticket_id : String
  pub service_ticket_date : String

pub record CpMessage : Type 0 where
  pub code : String
  pub description : String

-- an error of a refund: a message of Canada Post, or another
pub data RefundFailure : Type 0 where
  refund_error : ℕ → String → String → RefundFailure
  plain_error : String → RefundFailure

-- `Error` of `CPRefundError`
unfoldable pub refund_error_text : String → String → String
refund_error_text code description =
    if not (is_empty code) && not (is_empty description)
    then "refund error code=" ⧺ code ⧺ ": " ⧺ description
    else if not (is_empty description)
    then description
    else "refund error"

abbrev pub failure_text : RefundFailure → String
failure_text (refund_error _ code description) = refund_error_text code description
failure_text (plain_error message) = message

-- `xml.Marshal`, `xml.Unmarshal` and the requests of `net/http`
pub record Wire ⦃fl : Float64⦄ (Body : Type 0) : Type 0 where
  -- the namespace first
  pub marshal_rates : String → RateRequest fl.Value → Result Body
  pub unmarshal_rates : Body → Result (List (PriceQuote fl.Value))
  pub marshal_shipment : String → ShipmentRequest fl.Value → Result Body
  pub unmarshal_shipment : Body → Result ShipmentResponse
  -- the namespace, and the address
  pub marshal_refund : String → String → Result Body
  pub unmarshal_refund : Body → Result RefundResponse
  pub unmarshal_messages : Body → Result (List CpMessage)
  pub with_header : Body → Body
  pub is_empty_body : Body → Bool
  pub body_text : Body → String
  pub code_text : ℕ → String
  pub new_request : String → String → Result (Unit {0})
  pub send : HttpRequest Body → Result (HttpReply Body)

abbrev pub labelled {ℓ} : {A : Type ℓ} → String → Result A → Result A
labelled what (ok a) = ok a
labelled what (err e) = err (what ⧺ e)

abbrev pub there {ℓ} : {A : Type ℓ} → Option A → Result A
there none = err "canada post client is nil"
there (some c) = ok c

abbrev text_or_blank : {Body : Type 0} → (Body → String) → Result Body → String
text_or_blank text (ok body) = text body
text_or_blank text (err _) = ""

abbrev pub headers_of : String → String → Dict String
headers_of kind accept =
    ("Content-Type", kind) ∷ ("Accept", accept) ∷ ("Accept-Language", "en-CA") ∷ []

abbrev pub shipment_type : String
shipment_type = "application/vnd.cpc.ncshipment-v4+xml"

abbrev pub shipment_space : String
shipment_space = "http://www.canadapost.ca/ws/ncshipment-v4"

abbrev pub rate_type : String
rate_type = "application/vnd.cpc.ship.rate-v4+xml"

module _ ⦃fl : Float64⦄ {Body : Type 0} (wire : Wire Body) where
  abbrev pub post : CanadaPostClient → String → Dict String → Body → HttpRequest Body
  post c url headers body = record {
    method = "POST";
    url = url;
    headers = headers;
    username = c.username;
    password = c.password;
    body = some body;
  }

  abbrev api_error : {A : Type 0} → HttpReply Body → Result A
  api_error reply = err (
      "API error "
      ⧺ wire.code_text reply.status_code
      ⧺ ": "
      ⧺ text_or_blank wire.body_text reply.body)

  unfoldable pub read_rates : HttpReply Body → Result (List (PriceQuote fl.Value))
  read_rates reply = if not (nat_eq reply.status_code 200) then api_error reply else (do
    body ← labelled "failed to read response body: " reply.body
    labelled "failed to unmarshal response: " (wire.unmarshal_rates body))

  unfoldable pub get_rates :
      Option CanadaPostClient → Option (RateRequest fl.Value) → Result (List (PriceQuote fl.Value))
  get_rates client request = do
    c ← there client
    req ← elim request [ none ↦ err "rate request is nil" | some r ↦ ok r ]
    body ←
        labelled "failed to marshal request: "
          (wire.marshal_rates "http://www.canadapost.ca/ws/ship/rate-v4" req)
    labelled "failed to create request: " (wire.new_request "POST" (c.base_url ⧺ "/rs/ship/price"))
    reply ←
        labelled "failed to send request: "
          (wire.send (post c (c.base_url ⧺ "/rs/ship/price") (headers_of rate_type rate_type) body))
    read_rates reply

  unfoldable pub read_shipment : HttpReply Body → Result ShipmentResponse
  read_shipment reply =
      if not (nat_eq reply.status_code 200) && not (nat_eq reply.status_code 201)
      then api_error reply
      else labelled "failed to decode response: " (reply.body >>= wire.unmarshal_shipment)

  abbrev pub shipment_url : CanadaPostClient → String
  shipment_url c = c.base_url ⧺ "/rs/" ⧺ c.customer_number ⧺ "/ncshipment"

  unfoldable pub create_shipment :
      Option CanadaPostClient → Option (ShipmentRequest fl.Value) → Result ShipmentResponse
  create_shipment client request = do
    c ← there client
    req ← elim request [ none ↦ err "shipment request is nil" | some r ↦ ok r ]
    body ← labelled "failed to marshal request: " (wire.marshal_shipment shipment_space req)
    labelled "failed to create request: " (wire.new_request "POST" (shipment_url c))
    reply ←
        labelled "failed to send request: "
          (wire.send (post c (shipment_url c) (headers_of shipment_type shipment_type) body))
    read_shipment reply

  unfoldable pub read_artifact : HttpReply Body → Result Body
  read_artifact reply =
      if not (nat_eq reply.status_code 200)
      then err ("failed to download artifact: status " ⧺ wire.code_text reply.status_code)
      else reply.body

  unfoldable pub get_artifact : Option CanadaPostClient → String → Result Body
  get_artifact client url = do
    c ← there client
    labelled "failed to create request: " (wire.new_request "GET" url)
    reply ← labelled "failed to download artifact: " (
        wire.send (record {
          method = "GET";
          url = url;
          headers = ("Accept", "application/pdf") ∷ [];
          username = c.username;
          password = c.password;
          body = none;
        }))
    read_artifact reply
