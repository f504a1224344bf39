-- ===== src/Tests/Admin.antt =====
-- The admin shipping methods of a store at concrete inputs.
use canada_post.Prelude.{
  pos, String, List, [], ◌∷◌, Option, none, some, Bool, true, false, ◌==◌, Result, ok, err,
  if◌then◌else◌, ◌≡◌, refl, Bool-cases, inl, inr, map, ap, length,
}
use canada_post.Text.{trim, to_lower, has_prefix, contains}
use canada_post.Uninstall.{Attempt, Response, raw_token, filter_seen}
use canada_post.Admin.{
  ShippingItem, MethodsReply, is_plugin_not_available_message, is_named, item_name,
  normalize_shipping_method_name, build_shipping_auth_attempts, rename_id,
  is_canada_post_like_method,
}
use canada_post.Admin.Codes.{
  Candidate, pick_codes, bring_best, best_after, exchange, resolve_plugin_codes,
}
use canada_post.Admin.Codes.Order.{IsOrdered, first_codes, pick_codes-IsOrdered}
use canada_post.Admin.Ensure.{
  Service, create_answer, listed_items, existing_names, rename_first, create_with_codes,
  ensure_methods, ensure_items, ensure_attempts, ensure_generic_canada_post_name,
  ensure_with_attempt, ensure_canada_post_admin_shipping_methods,
}
use canada_post.Admin.Ensure.Listed.{is_listed, is_refused, Keeps}
use canada_post.Admin.Ensure.Idempotent.{
  IsSettled, ensure_with_attempt-again, ensure_canada_post_admin_shipping_methods-IsSettled,
}
use mathlib.Core.List.{Permᴰ}

-- a service that keeps names, and makes methods of the plugin "shipstation" only
abbrev item_of : String → Option ShippingItem
item_of name =
    some (record { shipping_id = some "7"; shipping_name = some name; shipping_code = none })

abbrev accepted : Result (Option Response)
accepted = ok (some (record { success = true; failure = false; code = "200"; message = "" }))

abbrev unavailable : Result (Option Response)
unavailable = ok (
    some
      (record { success = false; failure = true; code = "400"; message = "Plugin not available" }))

abbrev made_of : Bool → String → List String → Result (Option Response) × List String
made_of false code names = (err "unauthenticated", names)
made_of true code names =
    if code == "shipstation" then (accepted, "Canada Post" ∷ names) else (unavailable, names)

abbrev listed : List String → MethodsReply
listed names = record {
  failure = false;
  code = "200";
  message = "";
  shipping_info = map item_of names;
}

abbrev keeper : Service (List String)
keeper = record {
  get_methods = λ _ _ names. ok (some (listed names));
  get_all_plugins = λ _ _ _. err "no plugins";
  create_method = λ _ a _ code names. made_of a.force_auth code names;
  update_method = λ _ _ _ name names. (accepted, name ∷ names);
}

made_of-listed :
    (force : Bool) (code : String) (names : List String)
    → is_refused (create_answer code (made_of force code names).0) ≡ false
    → is_listed (ok (some (listed (made_of force code names).1))) ≡ true
unfolding create_answer listed_items is_named item_name normalize_shipping_method_name trim to_lower
    is_plugin_not_available_message contains has_prefix
made_of-listed false code names = λ h. absurd (cc h)
made_of-listed true code names = elim (Bool-cases (code == "shipstation")) [
  | inl e ↦ rw e (λ _. refl)
  | inr e ↦ rw e (λ h. absurd (cc h))
]

abbrev keeper-Keeps : (a : Attempt) → Keeps keeper (pos 5) a
unfolding listed_items is_named item_name normalize_shipping_method_name trim to_lower
keeper-Keeps a = record {
  updated = λ id names h. refl;
  created = λ code names. made_of-listed a.force_auth code names;
}

abbrev forced : Attempt
forced = record { label = "raw+x-force-auth"; authorization = "t"; force_auth = true }

made_once :
    ensure_with_attempt keeper (pos 5) forced ("UPS" ∷ []) ≡ (ok 1, "Canada Post" ∷ "UPS" ∷ [])
unfolding ensure_with_attempt ensure_items ensure_generic_canada_post_name rename_first rename_id
    is_canada_post_like_method ensure_methods create_with_codes resolve_plugin_codes listed_items
    existing_names is_named item_name normalize_shipping_method_name trim to_lower create_answer
    has_prefix
made_once = refl

ensure_with_attempt-again_example :
    ensure_with_attempt keeper
      (pos 5)
      forced
      (ensure_with_attempt keeper (pos 5) forced ("UPS" ∷ [])).1
    ≡ (ok 0, (ensure_with_attempt keeper (pos 5) forced ("UPS" ∷ [])).1)
ensure_with_attempt-again_example =
    ensure_with_attempt-again keeper (pos 5) forced (keeper-Keeps forced) ("UPS" ∷ []) 1
      (ap (λ run. run.0) made_once)

ensured :
    ensure_canada_post_admin_shipping_methods keeper
      (ok tt)
      "shippings:50051"
      (pos 5)
      "t"
      ("UPS" ∷ [])
    ≡ (ok 1, "Canada Post" ∷ "UPS" ∷ [])
unfolding ensure_canada_post_admin_shipping_methods ensure_attempts build_shipping_auth_attempts
    raw_token filter_seen ensure_with_attempt ensure_items ensure_generic_canada_post_name
    rename_first rename_id is_canada_post_like_method ensure_methods create_with_codes
    resolve_plugin_codes listed_items existing_names is_named item_name
    normalize_shipping_method_name trim to_lower create_answer has_prefix
ensured = refl

ensure_canada_post_admin_shipping_methods-IsSettled_example :
    IsSettled keeper
      (pos 5)
      keeper-Keeps
      (build_shipping_auth_attempts (trim "t"))
      (ensure_canada_post_admin_shipping_methods keeper
        (ok tt)
        "shippings:50051"
        (pos 5)
        "t"
        ("UPS" ∷ [])).1
ensure_canada_post_admin_shipping_methods-IsSettled_example =
    ensure_canada_post_admin_shipping_methods-IsSettled keeper (pos 5) keeper-Keeps (ok tt)
      "shippings:50051" "t" ("UPS" ∷ []) 1 (ap (λ run. run.0) ensured)

abbrev found : List Candidate
found =
    record { code = "ups"; priority = 50 }
    ∷ record { code = "CanadaPost"; priority = 10 }
    ∷ record { code = "canadapost"; priority = 10 }
    ∷ record { code = "shipstation"; priority = 20 }
    ∷ []

picked : pick_codes 4 [] found ≡ "CanadaPost" ∷ "shipstation" ∷ "ups" ∷ []
unfolding pick_codes bring_best best_after exchange trim to_lower
picked = refl

pick_codes-IsOrdered_example :
    (order : List Candidate) × Permᴰ found order
    × IsOrdered order
    × (pick_codes (length found) [] found ≡ first_codes [] order)
pick_codes-IsOrdered_example = pick_codes-IsOrdered found
