-- ===== src/Admin/Ensure.antt =====
-- `EnsureCanadaPostAdminShippingMethods`, `ensureWithAttempt` and `ensureGenericCanadaPostName` of
-- service/admin_shipping_methods.go. The shippings and the plugins services are a parameter: what they answer in a state of
-- theirs to a store's call with an attempt's headers, and the state that the call leaves.
pub mod Listed
pub mod Idempotent
use canada_post.Prelude.{
  ℕ, zero, suc, ℤ, String, List, [], ◌∷◌, ◌++◌, Option, none, some, Bool, true, false, not, ◌||◌,
  ◌==◌, Result, ok, err, any, is_positive, if◌then◌else◌,
}
use canada_post.Text.{◌⧺◌, trim, is_empty, blank}
use canada_post.Uninstall.{Attempt, Response, bool_text, joined, no_attempts}
use canada_post.Admin.{
  ShippingItem, MethodsReply, AdminShippingMethod, canada_post_admin_shipping_methods,
  build_shipping_auth_attempts, normalize_shipping_method_name, is_plugin_not_available_message,
  is_already_exists_shipping_method_message, item_name, is_named, rename_id,
}
use canada_post.Admin.Codes.{PluginsReply, resolve_plugin_codes}

pub record Service (S : Type 0) : Type 0 where
  pub get_methods : ℤ → Attempt → S → Result (Option MethodsReply)
  pub get_all_plugins : ℤ → Attempt → S → Result (Option PluginsReply)
  -- the name and the plugin code
  pub create_method : ℤ → Attempt → String → String → S → Result (Option Response) × S
  -- the id and the name
  pub update_method : ℤ → Attempt → String → String → S → Result (Option Response) × S

abbrev rejected : String → Response → String
rejected what r =
    what
    ⧺ " rejected (success="
    ⧺ bool_text r.success
    ⧺ " failure="
    ⧺ bool_text r.failure
    ⧺ " code="
    ⧺ trim r.code
    ⧺ " message=\""
    ⧺ trim r.message
    ⧺ "\")"

-- the checks of the first reply: the items
unfoldable pub listed_items : Result (Option MethodsReply) → Result (List (Option ShippingItem))
listed_items (err e) = err ("GetAdminShippingMethods grpc error: " ⧺ e)
listed_items (ok none) = err "GetAdminShippingMethods empty response"
listed_items (ok (some reply)) =
    if reply.failure
    then err (
        "GetAdminShippingMethods rejected (code="
        ⧺ trim reply.code
        ⧺ " message=\""
        ⧺ trim reply.message
        ⧺ "\")")
    else ok reply.shipping_info

abbrev pub add_name : Option String → List String → List String
add_name none names = names
add_name (some n) names =
    let name = normalize_shipping_method_name n in if is_empty name then names else name ∷ names

-- the names that exist, normalized
unfoldable pub existing_names : List (Option ShippingItem) → List String
existing_names [] = []
existing_names (item ∷ items) = add_name (item_name item) (existing_names items)

abbrev pub default_codes : List String
default_codes =
    "shipstation" ∷ "canada_post" ∷ "canadapost" ∷ "Canada Post" ∷ "CANADA_POST_LIVE" ∷ []

abbrev pub or_default : List String → List String
or_default [] = default_codes
or_default (code ∷ codes) = code ∷ codes

-- what a reply to the renaming means
unfoldable pub update_answer : String → Result (Option Response) → Result Bool
update_answer id (err e) = err ("UpdateAdminShippingMethods(" ⧺ id ⧺ ") grpc error: " ⧺ e)
update_answer id (ok none) = err ("UpdateAdminShippingMethods(" ⧺ id ⧺ ") empty response")
update_answer id (ok (some r)) =
    if r.failure || not r.success
    then err (rejected ("UpdateAdminShippingMethods(" ⧺ id ⧺ ")") r)
    else ok true

pub data Created : Type 0 where
  refused : String → Created
  existed : Created
  made : Created

-- what a reply to a creation means
unfoldable pub create_answer : String → Result (Option Response) → Created
create_answer code (err e) = refused (code ⧺ " grpc error: " ⧺ e)
create_answer code (ok none) = refused (code ⧺ " empty response")
create_answer code (ok (some r)) =
    let message = trim r.message in
    if r.failure || not r.success
    then (if is_plugin_not_available_message message
        then refused (code ⧺ " plugin unavailable")
        else if is_already_exists_shipping_method_message message
        then existed
        else refused (rejected code r))
    else made

module _ {S : Type 0} (service : Service S) (store : ℤ) (a : Attempt) where
  -- the second loop of `ensureGenericCanadaPostName`: the first item to rename is renamed
  unfoldable pub rename_first : List String → List (Option ShippingItem) → S → Result Bool × S
  rename_first codes [] s = (ok false, s)
  rename_first codes (item ∷ items) s = elim (rename_id codes item) [
    | none ↦ rename_first codes items s
    | some id ↦
        let reply = service.update_method store a id "Canada Post" s in
        (update_answer id reply.0, reply.1)
  ]

  unfoldable pub ensure_generic_canada_post_name :
      List (Option ShippingItem) → List String → S → Result Bool × S
  ensure_generic_canada_post_name items codes s =
      if any (is_named (normalize_shipping_method_name "Canada Post")) items
      then (ok false, s)
      else rename_first codes items s

  -- the loop over the plugin codes: whether the method was made, or existed
  unfoldable pub create_with_codes :
      AdminShippingMethod → List String → List String → S → Result Bool × S
  create_with_codes method failures [] s = (
    err ("CreateAdminShippingMethods(" ⧺ method.service_code ⧺ ") failed: " ⧺ joined failures),
    s,
  )
  create_with_codes method failures (code ∷ codes) s = elim (blank code) [
    | true ↦ create_with_codes method failures codes s
    | false ↦
        let reply = service.create_method store a method.name (trim code) s in
        elim (create_answer (trim code) reply.0) [
          | refused f ↦ create_with_codes method (failures ++ (f ∷ [])) codes reply.1
          | existed ↦ (ok false, reply.1)
          | made ↦ (ok true, reply.1)
        ]
  ]

  abbrev pub one_more : Bool → ℕ → ℕ
  one_more true n = suc n
  one_more false n = n

  -- the loop over the methods, with the names and the number of those made; the caller reads no number with an error
  unfoldable pub ensure_methods :
      List AdminShippingMethod → List String → List String → ℕ → S → Result ℕ × S
  ensure_methods [] codes names created s = (ok created, s)
  ensure_methods (method ∷ methods) codes names created s =
      let name = normalize_shipping_method_name method.name in
      elim (is_empty name || any (λ n. n == name) names) [
        | true ↦ ensure_methods methods codes names created s
        | false ↦
            let done = create_with_codes method [] codes s in
            elim done.0 [
              | err e ↦ (err e, done.1)
              | ok new ↦ ensure_methods methods codes (name ∷ names) (one_more new created) done.1
            ]
      ]

  abbrev pub names_after : Bool → List String → List String
  names_after true names = normalize_shipping_method_name "Canada Post" ∷ names
  names_after false names = names

  -- behind the first reply
  unfoldable pub ensure_items : List (Option ShippingItem) → S → Result ℕ × S
  ensure_items items s =
      let codes = or_default (resolve_plugin_codes (service.get_all_plugins store a s)) in
      let renamed = ensure_generic_canada_post_name items codes s in
      elim renamed.0 [
        | err e ↦ (err e, renamed.1)
        | ok updated ↦
            ensure_methods canada_post_admin_shipping_methods codes
              (names_after updated (existing_names items)) 0 renamed.1
      ]

  unfoldable pub ensure_with_attempt : S → Result ℕ × S
  ensure_with_attempt s = elim (listed_items (service.get_methods store a s)) [
    | err e ↦ (err e, s)
    | ok items ↦ ensure_items items s
  ]

module _ {S : Type 0} (service : Service S) where
  -- the loop over the attempts: the first without an error ends it
  unfoldable pub ensure_attempts : ℤ → List String → List Attempt → S → Result ℕ × S
  ensure_attempts store failures [] s =
      (err ("failed to sync admin shipping methods: " ⧺ joined failures), s)
  ensure_attempts store failures (a ∷ attempts) s =
      let done = ensure_with_attempt service store a s in
      elim done.0 [
        | ok created ↦ (ok created, done.1)
        | err e ↦ ensure_attempts store (failures ++ ((a.label ⧺ ": " ⧺ e) ∷ [])) attempts done.1
      ]

  abbrev pub dialed_or : Result (Unit {0}) → S → Result ℕ × S → Result ℕ × S
  dialed_or (err e) s run = (err ("failed to connect to shipping grpc: " ⧺ e), s)
  dialed_or (ok _) s run = run

  unfoldable pub ensure_canada_post_admin_shipping_methods :
      Result (Unit {0}) → String → ℤ → String → S → Result ℕ × S
  ensure_canada_post_admin_shipping_methods dialed addr store token s =
      let attempts = build_shipping_auth_attempts (trim token) in
      if blank addr
      then (err "shipping grpc address is required", s)
      else if not (is_positive store)
      then (err "store id is required", s)
      else if blank token
      then (err "access token is required", s)
      else dialed_or dialed s (
          if no_attempts attempts
          then (err "no valid authorization attempts for shipping grpc", s)
          else ensure_attempts store [] attempts s)
