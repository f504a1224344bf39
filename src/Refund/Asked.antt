-- ===== src/Refund/Asked.antt =====
-- Whom `fetchCustomerEmailFromOrders` asks for the customer's address.
use canada_post.Prelude.{
  ℕ, ◌≤◌, ℤ, String, [], ◌&&◌, ok, err, length, ◌≡◌, refl, ap, ◌∙◌, arith, Bool-cases, Result-cases,
  inl, inr,
}
use mathlib.Core.List.{Memᴰ}
use canada_post.Text.{◌⧺◌, trim, is_empty, blank}
use canada_post.Uninstall.{raw_token}
use canada_post.Refund.{
  Incoming, unauthenticated, other_status, no_status, Called, found, broken, first_trimmed,
  RefundWorld, Caller, bearer_form, call_orders, called_result, Fetched, retry_bearer, and_before,
  fetch_with_incoming, after_token, fetch_with_token, fetch_customer_email_from_orders,
  orders_headers, caller_id,
}

module _ (w : RefundWorld) (c : Caller) where
  -- at most so many calls were made, and an address that was found is the answer to one of them
  abbrev pub IsAnswered : ℕ → Fetched → Type 0
  IsAnswered most (r, tried) =
      (length tried ≤ most)
      × ((email : String)
          → r ≡ ok email
          → (auth : String) × Memᴰ auth tried × (call_orders w c auth ≡ found email))

  called-found : (x : Called) (email : String) → called_result x ≡ ok email → x ≡ found email
  called-found (found e) email h = cc h
  called-found (broken e) email h = absurd (cc h)

  retry_bearer-IsAnswered :
      (auth first : String) (x : Called)
      → call_orders w c first ≡ x
      → IsAnswered 2 (and_before first (retry_bearer w c auth x))
  unfolding retry_bearer
  retry_bearer-IsAnswered auth first (found e) h =
      (omega arith, λ email k. (first, Memᴰ.head refl, h ∙ ap found (cc k)))
  retry_bearer-IsAnswered auth first (broken (unauthenticated e)) h = (
    omega arith,
    λ email k. (
      bearer_form auth,
      Memᴰ.tail (Memᴰ.head refl),
      called-found (call_orders w c (bearer_form auth)) email k,
    ),
  )
  retry_bearer-IsAnswered auth first (broken (other_status e)) h =
      (omega arith, λ email k. absurd (cc k))
  retry_bearer-IsAnswered auth first (broken (no_status e)) h =
      (omega arith, λ email k. absurd (cc k))

  fetch_with_incoming-IsAnswered : (auth : String) → IsAnswered 2 (fetch_with_incoming w c auth)
  unfolding fetch_with_incoming
  fetch_with_incoming-IsAnswered auth = elim (Bool-cases (is_empty auth)) [
    | inl e ↦ rw e (omega arith, λ email k. absurd (cc k))
    | inr e ↦ rw e (retry_bearer-IsAnswered auth (raw_token auth) _ refl)
  ]

  and_before-IsAnswered :
      (first : String) (run : Fetched) → IsAnswered 2 run → IsAnswered 3 (and_before first run)
  and_before-IsAnswered first (r, tried) (most, answered) = (
    omega (arith, most),
    λ email k. let (auth, m, h) = answered email k in (auth, Memᴰ.tail m, h),
  )

  after_token-IsAnswered :
      (auth first : String) (x : Called)
      → call_orders w c first ≡ x
      → IsAnswered 3 (and_before first (after_token w c auth x))
  unfolding after_token
  after_token-IsAnswered auth first (found e) h =
      (omega arith, λ email k. (first, Memᴰ.head refl, h ∙ ap found (cc k)))
  after_token-IsAnswered auth first (broken (unauthenticated e)) h =
      and_before-IsAnswered first _ (fetch_with_incoming-IsAnswered auth)
  after_token-IsAnswered auth first (broken (other_status e)) h =
      (omega arith, λ email k. absurd (cc k))
  after_token-IsAnswered auth first (broken (no_status e)) h =
      and_before-IsAnswered first _ (fetch_with_incoming-IsAnswered auth)

  more_allowed : (run : Fetched) → IsAnswered 2 run → IsAnswered 3 run
  more_allowed (r, tried) (most, answered) = (omega (arith, most), answered)

  fetch_with_token-IsAnswered :
      (auth token : String) → IsAnswered 3 (fetch_with_token w c auth token)
  unfolding fetch_with_token
  fetch_with_token-IsAnswered auth token = elim (Bool-cases (is_empty token)) [
    | inl e ↦ rw e (more_allowed _ (fetch_with_incoming-IsAnswered auth))
    | inr e ↦ rw e (after_token-IsAnswered auth ("Bearer " ⧺ token) _ refl)
  ]

abbrev caller_of : Incoming → String → ℤ → Caller
caller_of incoming invoice client = record {
  incoming = incoming;
  client_id = client;
  invoice_uuid = trim invoice;
}

fetch_customer_email_from_orders-IsAnswered :
    (w : RefundWorld) (incoming : Incoming) (invoice : String) (client : ℤ) (token : String)
    → IsAnswered w
        (caller_of incoming invoice client)
        3
        (fetch_customer_email_from_orders w incoming invoice client token)
unfolding fetch_customer_email_from_orders orders_headers caller_id
fetch_customer_email_from_orders-IsAnswered w incoming invoice client token =
    let auth = first_trimmed incoming.authorization in
    let c = caller_of incoming invoice client in
    let nothing = (e : String) → IsAnswered w c 3 (err e, []) in
    let none_tried : nothing = λ e. (omega arith, λ email k. absurd (cc k)) in
    elim (Bool-cases (blank w.orders_addr)) [
      | inl e ↦ rw e (none_tried _)
      | inr e ↦ rw e (elim (Bool-cases (blank invoice)) [
        | inl f ↦ rw f (none_tried _)
        | inr f ↦ rw f (elim (Result-cases w.dial) [
          | inr (_, g) ↦ rw (g, fetch_customer_email_from_orders) (none_tried _)
          | inl (_, g) ↦
              rw (g, fetch_customer_email_from_orders)
                (elim (Bool-cases (is_empty auth && blank token)) [
                  | inl h ↦ rw h (none_tried _)
                  | inr h ↦ rw h (fetch_with_token-IsAnswered w c auth (trim token))
                ])
        ])
      ])
    ]

-- by the result: an address is the answer to one of the calls; and there were at most three
abbrev pub IsFetched : RefundWorld → Caller → Fetched → Type 0
IsFetched w c (ok email, tried) =
    (length tried ≤ 3) × (auth : String) × Memᴰ auth tried × (call_orders w c auth ≡ found email)
IsFetched w c (err e, tried) = length tried ≤ 3

answered-IsFetched :
    (w : RefundWorld) (c : Caller) (run : Fetched) → IsAnswered w c 3 run → IsFetched w c run
answered-IsFetched w c (ok email, tried) (most, answered) =
    let (auth, m, h) = answered email refl in (most, auth, m, h)
answered-IsFetched w c (err e, tried) (most, answered) = most

-- Whatever the orders service answers: it is called at most three times for a customer's address, and an address that is found is
-- its answer to a call with one of the authorizations tried.
pub fetch_customer_email_from_orders-IsFetched :
    (w : RefundWorld) (incoming : Incoming) (invoice : String) (client : ℤ) (token : String)
    → IsFetched w
        (caller_of incoming invoice client)
        (fetch_customer_email_from_orders w incoming invoice client token)
fetch_customer_email_from_orders-IsFetched w incoming invoice client token =
    answered-IsFetched w _ _
      (fetch_customer_email_from_orders-IsAnswered w incoming invoice client token)
