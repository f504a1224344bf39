-- ===== src/Client/Refund/Exact.antt =====
-- When a refund is granted.
use canada_post.Prelude.{
  ℕ, String, Option, none, some, Bool, true, false, ◌&&◌, ◌||◌, ◌⊎◌, ◌↔◌, inl, inr, Result, ok, err,
  nat_eq, ltb, leb, ◌≡◌, refl, sym, ap, ◌∙◌, subst, arith, Bool-cases, Option-cases, Result-cases,
}
use canada_post.Float64.{Float64}
use canada_post.Client.{CanadaPostClient, HttpReply, RefundResponse, CpMessage, Wire}
use canada_post.Client.Refund.{
  refunded, has_ticket, ticket_of, parse_refund_message, parse_refund_response, parsed,
  from_message, read_refund_body, read_refund, ask_refund, refund_shipment,
}

abbrev pub is_success : ℕ → Bool
is_success status = leb 200 status && ltb status 300

ticket_of_iff :
    (o : Result RefundResponse) (r : RefundResponse)
    → (ticket_of o ≡ some r) ↔ ((o ≡ ok r) × (has_ticket r ≡ true))
ticket_of_iff (err e) r = (λ h. absurd (cc h), λ (h, _). absurd (cc h))
ticket_of_iff (ok t) r = elim (Bool-cases (has_ticket t)) [
  | inl e ↦ rw e (λ h. (cc h, subst (λ x. has_ticket x ≡ true) (cc h) e), λ (h, _). cc h)
  | inr e ↦ rw e (
    λ h. absurd (cc h),
    λ (h, k). let same : t ≡ r = cc h in absurd (cc (e, k, ap has_ticket same)),
  )
]

from_message-not : (m : Option CpMessage) (r : RefundResponse) → from_message m ≡ ok (inl r) → ⊥
from_message-not none r h = cc h
from_message-not (some m) r h = cc h

parsed_iff :
    (status : ℕ) (p : Result (RefundResponse ⊎ CpMessage)) (r : RefundResponse)
    → (parsed status p ≡ refunded r) ↔ (p ≡ ok (inl r))
parsed_iff status (err e) r = (λ h. absurd (cc h), λ h. absurd (cc h))
parsed_iff status (ok (inl t)) r = (λ h. cc h, λ h. cc h)
parsed_iff status (ok (inr m)) r = (λ h. absurd (cc h), λ h. absurd (cc h))

module _ ⦃fl : Float64⦄ {Body : Type 0} (wire : Wire Body) where
  parse_refund_response_iff :
      (body : Body) (r : RefundResponse)
      → (parse_refund_response wire body ≡ ok (inl r)) ↔ (
          (wire.is_empty_body body ≡ false)
          × (wire.unmarshal_refund body ≡ ok r)
          × (has_ticket r ≡ true))
  unfolding parse_refund_response
  parse_refund_response_iff body r =
      let iff = ticket_of_iff (wire.unmarshal_refund body) r in
      elim (Bool-cases (wire.is_empty_body body)) [
        | inl e ↦ rw e (λ h. absurd (cc h), λ (h, _, _). absurd (cc h))
        | inr e ↦ rw e (elim (Option-cases (ticket_of (wire.unmarshal_refund body))) [
          | inr (t, g) ↦
              rw (g, parse_refund_response)
                (
                  λ h.
                      let same : t ≡ r = cc h in
                      let (k, l) = iff.0 (g ∙ ap some same) in (refl, k, l),
                  λ (_, k, l). let same : some t ≡ some r = sym g ∙ iff.1 (k, l) in cc same,
                )
          | inl g ↦
              rw (g, parse_refund_response)
                (
                  λ h. absurd (from_message-not (parse_refund_message wire body) r h),
                  λ (_, k, l).
                      let wrong : none ≡ some r = sym g ∙ iff.1 (k, l) in absurd (cc wrong),
                )
        ])
      ]

  read_refund_body_iff :
      (status : ℕ) (body : Body) (r : RefundResponse)
      → (read_refund_body wire status body ≡ refunded r)
        ↔ ((is_success status ≡ true) × (parse_refund_response wire body ≡ ok (inl r)))
  unfolding read_refund_body
  read_refund_body_iff status body r = elim (Bool-cases (nat_eq status 404)) [
    | inl e ↦ rw e (λ h. absurd (cc h), λ (h, _). absurd (ground (arith, e, h)))
    | inr e ↦ rw e (elim (Bool-cases (ltb status 200 || leb 300 status)) [
      | inl f ↦ rw f (λ h. absurd (cc h), λ (h, _). absurd (ground (arith, f, h)))
      | inr f ↦
          let iff = parsed_iff status (parse_refund_response wire body) r in
          let good : is_success status ≡ true = ground (arith, f) in
          rw f (λ h. (good, iff.0 h), λ (_, h). iff.1 h)
    ])
  ]

  read_refund_iff :
      (reply : HttpReply Body) (r : RefundResponse)
      → (read_refund wire reply ≡ refunded r) ↔ (
          (body : Body) × (reply.body ≡ ok body)
          × (read_refund_body wire reply.status_code body ≡ refunded r))
  unfolding read_refund
  read_refund_iff reply r = elim (Result-cases reply.body) [
    | inl (body, e) ↦
        rw (e, read_refund)
          (
            λ h. (body, refl, h),
            λ (b, f, h).
                let same : b ≡ body = cc f in
                subst (λ x. read_refund_body wire reply.status_code x ≡ refunded r) same h,
          )
    | inr (message, e) ↦ rw (e, read_refund) (λ h. absurd (cc h), λ (b, f, h). absurd (cc f))
  ]

  refund_shipment-refunded :
      (client : Option CanadaPostClient) (refund_url email : String) (r : RefundResponse)
      → (refund_shipment wire client refund_url email ≡ refunded r) ↔ (
          (reply : HttpReply Body) × (ask_refund wire client refund_url email ≡ ok reply)
          × (read_refund wire reply ≡ refunded r))
  unfolding refund_shipment
  refund_shipment-refunded client refund_url email r =
      elim (Result-cases (ask_refund wire client refund_url email)) [
        | inl (reply, e) ↦
            rw (e, refund_shipment)
              (
                λ h. (reply, refl, h),
                λ (b, f, h).
                    let same : b ≡ reply = cc f in
                    subst (λ x. read_refund wire x ≡ refunded r) same h,
              )
        | inr (_, e) ↦ rw (e, refund_shipment) (λ h. absurd (cc h), λ (b, f, h). absurd (cc f))
      ]

  -- The reply of Canada Post to the request counts as a refund.
  abbrev pub IsGranted : HttpReply Body → RefundResponse → Type 0
  IsGranted reply r =
      (body : Body) × (reply.body ≡ ok body)
      × (is_success reply.status_code ≡ true)
      × (wire.is_empty_body body ≡ false)
      × (wire.unmarshal_refund body ≡ ok r)
      × (has_ticket r ≡ true)

  -- The client reports a refund exactly if the one request for it was sent and answered with a status of 200 to 299 and a body
  -- that is not empty and reads as a ticket with an id or a date.
  pub refund_shipment_iff :
      (client : Option CanadaPostClient) (refund_url email : String) (r : RefundResponse)
      → (refund_shipment wire client refund_url email ≡ refunded r) ↔ (
          (reply : HttpReply Body) × (ask_refund wire client refund_url email ≡ ok reply)
          × IsGranted reply r)
  refund_shipment_iff client refund_url email r =
      let whole = refund_shipment-refunded client refund_url email r in
      (
        λ h.
            let (reply, asked, read) = whole.0 h in
            let (body, sent, good) = (read_refund_iff reply r).0 read in
            let (status, ticket) = (read_refund_body_iff reply.status_code body r).0 good in
            let (full, parse, has) = (parse_refund_response_iff body r).0 ticket in
            (reply, asked, (body, sent, status, full, parse, has)),
        λ (reply, asked, (body, sent, status, full, parse, has)).
            let ticket = (parse_refund_response_iff body r).1 (full, parse, has) in
            let good = (read_refund_body_iff reply.status_code body r).1 (status, ticket) in
            whole.1 (reply, asked, (read_refund_iff reply r).1 (body, sent, good)),
      )
