-- ===== src/Admin.antt =====
-- The texts and records of service/admin_shipping_methods.go: the attempts made of a token, the names of shipping methods
-- and the messages of the shippings service.
pub mod Codes
pub mod Ensure
use canada_post.Prelude.{
  String, List, [], ◌∷◌, Option, none, some, Bool, true, false, ◌&&◌, ◌||◌, ◌==◌, any,
  if◌then◌else◌,
}
use canada_post.Text.{trim, to_lower, has_prefix, contains, is_empty, blank}
use canada_post.Uninstall.{Attempt, raw_token, candidates, filter_seen}

-- `shippingpb.ShippingRequest`, the fields that are read; `none` for a wrapper that is nil
pub record ShippingItem : Type 0 where
  pub shipping_id : Option String
  pub shipping_name : Option String
  pub shipping_code : Option String

pub record MethodsReply : Type 0 where
  pub failure : Bool
  pub code : String
  pub message : String
  pub shipping_info : List (Option ShippingItem)

pub record AdminShippingMethod : Type 0 where
  pub name : String
  pub service_code : String

abbrev pub canada_post_admin_shipping_methods : List AdminShippingMethod
canada_post_admin_shipping_methods =
    record { name = "Canada Post"; service_code = "CANADA_POST_PLUGIN" } ∷ []

unfoldable pub build_shipping_auth_attempts : String → List Attempt
build_shipping_auth_attempts token =
    let t = trim token in
    let raw = raw_token t in
    if is_empty t then [] else if is_empty raw then [] else filter_seen [] (candidates raw)

unfoldable pub normalize_shipping_method_name : String → String
normalize_shipping_method_name value = let v = trim value in if is_empty v then "" else to_lower v

unfoldable pub is_plugin_not_available_message : String → Bool
is_plugin_not_available_message message =
    let m = to_lower (trim message) in
    if is_empty m then false else contains m "plugin not available"

unfoldable pub is_already_exists_shipping_method_message : String → Bool
is_already_exists_shipping_method_message message =
    let m = to_lower (trim message) in
    if is_empty m
    then false
    else contains m "already exists" || contains m "duplicate" || contains m "already exist"

-- the name of an item, as far as there is one
unfoldable pub item_name : Option ShippingItem → Option String
item_name none = none
item_name (some item) = item.shipping_name

abbrev trimmed : Option String → String
trimmed none = ""
trimmed (some s) = trim s

abbrev pub has_code : String → List String → Bool
has_code code codes =
    if is_empty code then false else any (λ plugin. code == to_lower (trim plugin)) codes

abbrev normalized : Option String → String
normalized none = ""
normalized (some name) = normalize_shipping_method_name name

unfoldable pub is_canada_post_like_method : ShippingItem → List String → Bool
is_canada_post_like_method item codes =
    has_prefix (normalized item.shipping_name) "canada post"
    || has_code (to_lower (trimmed item.shipping_code)) codes

-- the id under which an item is renamed, when it is one to rename
unfoldable pub rename_id : List String → Option ShippingItem → Option String
rename_id codes none = none
rename_id codes (some item) = elim item.shipping_name [
  | none ↦ none
  | some _ ↦
      let id = trimmed item.shipping_id in
      if is_canada_post_like_method item codes
      then (if is_empty id then none else some id)
      else none
]

abbrev pub bears : String → Option String → Bool
bears name none = false
bears name (some n) = normalize_shipping_method_name n == name

-- the item bears this name
unfoldable pub is_named : String → Option ShippingItem → Bool
is_named name item = bears name (item_name item)
