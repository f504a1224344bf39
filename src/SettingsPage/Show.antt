-- ===== src/SettingsPage/Show.antt =====
-- The page of a GET of `settingsHandler` in protocol/http/handlers.go: its data.
use canada_post.Prelude.{
  ℤ, pos, String, List, [], none, some, Bool, true, false, ◌==◌, Result, ok, err, ltb,
  if◌then◌else◌,
}
use canada_post.Text.{trim}
use canada_post.Float64.{Float64}
use canada_post.Offices.Stored.{get_used_postal_codes_page}
use canada_post.Database.Labels.{ListedLabel, load_label_records_page}
use canada_post.SettingsPage.Values.{
  parse_page, parse_page_size, page_offset, parse_widgets, normalize_postal_code, active_tab,
}
use canada_post.SettingsPage.{
  SettingsRequest, ShippingSettings, CurrencyRate, SettingsPageData, SettingsPage, http_error,
  settings, SettingsWorld,
}

module _ ⦃fl : Float64⦄ where
  -- the codes that were used, and whether more follow; none if there is no service or its query fails
  abbrev pub codes_or_none : Result (List String × Bool) → List String × Bool
  codes_or_none (err _) = ([], false)
  codes_or_none (ok codes) = codes

  unfoldable pub used_codes : SettingsWorld → SettingsRequest → ℤ → List String × Bool
  used_codes w r client = elim w.stored_offices [
    | none ↦ ([], false)
    | some _ ↦ codes_or_none (
        get_used_postal_codes_page w.sql true client
          (pos (parse_page_size w.parse_int (r.query_value "postal_page_size")))
          (page_offset w.parse_int (r.query_value "postal_page") (r.query_value "postal_page_size"))
          w.db)
  ]

  abbrev if_saved : String → String → String
  if_saved value message = if value == "1" then message else ""

  unfoldable pub postal_message_of : (String → String) → String
  postal_message_of q =
      if q "saved_postoffice_default" == "1"
      then "Default postal code saved."
      else if q "deleted_postoffice" == "1"
      then "Postal code removed."
      else if_saved (q "saved_postoffice") "Default postal code updated."

  unfoldable pub page_data :
      SettingsWorld
      → SettingsRequest
      → ℤ
      → String
      → ShippingSettings
      → List (CurrencyRate fl.Value)
      → List (ListedLabel fl.Value) × Bool
      → SettingsPageData fl.Value
  page_data w r client token saved rates labels =
      let q = r.query_value in
      let widgets = parse_widgets w.parse_int (trim (q "widgets")) in
      let codes = used_codes w r client in
      record {
        client_id = client;
        account_number = saved.account_number;
        enabled = saved.enabled_services;
        currency_rates = rates;
        postal_codes = codes.0;
        default_postal = normalize_postal_code saved.default_postal_code;
        session_token = token;
        message = if_saved (q "saved") "Settings saved.";
        currency_message = if_saved (q "saved_currency") "Currency rate saved.";
        postal_message = postal_message_of q;
        postal_page = parse_page w.parse_int (q "postal_page");
        postal_page_size = parse_page_size w.parse_int (q "postal_page_size");
        postal_has_next = codes.1;
        postal_has_prev = ltb 1 (parse_page w.parse_int (q "postal_page"));
        from_date = trim (q "from");
        to_date = trim (q "to");
        labels = labels.0;
        active_tab = active_tab q widgets;
        page = parse_page w.parse_int (q "page");
        page_size = parse_page_size w.parse_int (q "page_size");
        has_next = labels.1;
        has_prev = ltb 1 (parse_page w.parse_int (q "page"));
        widgets = widgets;
      }

  unfoldable pub listed_labels :
      SettingsWorld → SettingsRequest → Result (List (ListedLabel fl.Value) × Bool)
  listed_labels w r =
      let q = r.query_value in
      load_label_records_page w.label_rows (trim (q "from")) (trim (q "to"))
        (pos (parse_page_size w.parse_int (q "page_size")))
        (page_offset w.parse_int (q "page") (q "page_size"))

  -- the page of a GET; without a list of offices it is shown all the same
  unfoldable pub show_settings :
      SettingsWorld → SettingsRequest → ℤ → String → SettingsPage fl.Value
  show_settings w r client token = elim (w.load_settings client) [
    | err _ ↦ http_error "failed to load settings" 500
    | ok saved ↦ elim (w.load_currency_rates client) [
      | err _ ↦ http_error "failed to load currency rates" 500
      | ok rates ↦ elim (listed_labels w r) [
        | err _ ↦ http_error "failed to load labels" 500
        | ok labels ↦ settings (page_data w r client token saved rates labels)
      ]
    ]
  ]
