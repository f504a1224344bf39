-- ===== src/Tests/Settings.antt =====
-- The settings page at concrete inputs.
use canada_post.Prelude.{
  ◌≤◌, ℤ, pos, String, List, [], ◌∷◌, Option, none, some, true, false, ◌==◌, Result, ok, err,
  is_positive, take, drop, if◌then◌else◌, ◌≡◌, refl,
}
use canada_post.Text.{trim, to_lower}
use canada_post.Dict.{find, put}
use canada_post.Float64.Sample.{Hundredths, num, sample}
use canada_post.Sessions.{Tokens, consume_session_token, is_refused}
use canada_post.Database.Labels.{
  LabelRow, LabelQuery, scan_label, label_clauses, cut_page, load_label_records_page,
}
use canada_post.SettingsPage.Values.{
  parse_client_id, parse_page, parse_page_size, normalize_postal_code, parse_client_id-bounds,
}
use canada_post.SettingsPage.{
  SettingsRequest, SettingsWorld, save_currency_rate, save_state, allow_embedded_from_admin,
  finish_post,
}
use canada_post.SettingsPage.Forms.{save_rate, save_form}
use canada_post.SettingsPage.Handler.{
  settings_handler, handle_post, handle_other, post_settings, redirect_to_oauth,
}
use canada_post.Tests.Offices.{sql, three}

abbrev read_seven : String → Option ℤ
read_seven s = if s == "7" then some (pos 7) else none

parse_client_id-bounds_example :
    (is_positive (parse_client_id read_seven "") ≡ true)
    × (1 ≤ parse_page read_seven "7")
    × (5 ≤ parse_page_size read_seven "7")
    × (parse_page_size read_seven "7" ≤ 200)
parse_client_id-bounds_example = parse_client_id-bounds read_seven "" "7" "7"

abbrev row : String → LabelRow Hundredths
row id = record {
  label = record {
    id = id;
    shipment_id = "s1";
    tracking_number = "t1";
    invoice_uuid = "inv-1";
    rate_id = "r1";
    carrier = "Canada Post";
    service_code = "DOM.EP";
    service_name = "Expedited Parcel";
    shipping_charges_cents = pos 1250;
    delivery_date = "";
    delivery_days = 3;
    refund_link = "";
    weight = num 100;
  };
  refund_link = none;
  created_at = "2030-01-03 10:00:00";
}

abbrev rows : List (LabelRow Hundredths)
rows = row "l1" ∷ (row "l2" ∷ (row "l3" ∷ (row "l4" ∷ (row "l5" ∷ []))))

abbrev query : LabelQuery → Result (List (LabelRow Hundredths))
query q = ok (take q.limit (drop q.offset rows))

abbrev world : SettingsWorld ⦃fl = sample⦄
world = record {
  parse_int = read_seven;
  host_of = λ _. err "no host";
  authorize_url = "";
  write = λ _. ok tt;
  stored_offices = none;
  oauth_configured = true;
  new_state = "state1";
  load_settings = λ _.
      ok (record { account_number = "1"; enabled_services = []; default_postal_code = "K1A0B1" });
  load_currency_rates = λ _. ok [];
  sql = sql;
  db = three;
  label_rows = query;
  new_token = ok "s2";
  now = 10;
}

abbrev form : String → String
form key =
    if key == "session_token"
    then "s1"
    else if key == "form_type"
    then "currency"
    else if key == "currency_code"
    then "usd"
    else if key == "rate_to_cad"
    then "2"
    else ""

abbrev request : SettingsRequest
request = record {
  method = "POST";
  host = "";
  referer = "";
  sec_fetch_dest = "";
  parse_form = ok tt;
  form_value = form;
  query_value = λ key. if key == "client_id" then "7" else "";
  services = [];
}

abbrev tokens : Tokens
tokens = ("s1", record { client_id = pos 7; expires = 60; used = false }) ∷ []

-- a GET without a token saves a state, and nothing else
abbrev stranger : SettingsRequest
stranger = record {
  method = "GET";
  host = "";
  referer = "";
  sec_fetch_dest = "iframe";
  parse_form = ok tt;
  form_value = λ _. "";
  query_value = λ key. if key == "client_id" then "7" else "";
  services = [];
}

authorized_first :
    (settings_handler ⦃fl = sample⦄ world stranger tokens).writes ≡ save_state (pos 7) "state1" ∷ []
unfolding settings_handler handle_other redirect_to_oauth trim to_lower parse_client_id
    allow_embedded_from_admin
authorized_first = refl

written :
    (settings_handler ⦃fl = sample⦄ world request tokens).writes
    ≡ save_currency_rate (pos 7) "usd" (num 200) ∷ []
unfolding settings_handler handle_post post_settings consume_session_token is_refused find put trim
    to_lower parse_client_id allow_embedded_from_admin save_form save_rate finish_post
    normalize_postal_code
written = refl

-- the pages of two labels each
first_two :
    load_label_records_page query "" "" (pos 2) (pos 0)
    ≡ ok (scan_label (row "l1") ∷ (scan_label (row "l2") ∷ []), true)
unfolding load_label_records_page cut_page label_clauses trim
first_two = refl
