-- ===== src/SettingsPage/Forms.antt =====
-- The forms of the settings page: the cases of a POST in `settingsHandler` of protocol/http/handlers.go.
use canada_post.Prelude.{
  ℕ, ℤ, String, List, none, some, Bool, true, false, not, ◌==◌, Result, ok, err, if◌then◌else◌,
}
use canada_post.Text.{trim, is_empty}
use canada_post.Float64.{Float64, at_most_zero}
use canada_post.SettingsPage.Values.{normalize_postal_code, is_valid_canadian_postal_code}
use canada_post.SettingsPage.{
  SettingsRequest, save_currency_rate, fetch_post_offices, save_default_postal_code,
  delete_postal_code, save_shipping_settings, SettingsWorld, Saved, refused, then_write, done,
}

module _ ⦃fl : Float64⦄ where
  unfoldable pub save_rate : SettingsWorld → ℤ → String → String → Saved
  save_rate w client code value =
      if is_empty code
      then refused "currency code is required" 400
      else if is_empty value
      then refused "rate_to_cad is required" 400
      else elim (fl.parse_float value) [
        | none ↦ refused "rate_to_cad must be a positive number" 400
        | some rate ↦
            if at_most_zero rate
            then refused "rate_to_cad must be a positive number" 400
            else then_write w (save_currency_rate client code rate) "failed to save currency rate"
                done
      ]

  abbrev pub save_default : SettingsWorld → ℤ → String → Saved
  save_default w client code =
      then_write w (save_default_postal_code client code) "failed to save default postal code" done

  abbrev pub is_nothing : ℕ → Bool
  is_nothing ℕ.zero = true
  is_nothing (ℕ.suc _) = false

  -- offices that are stored are not asked for again
  unfoldable pub search_offices : SettingsWorld → ℤ → String → (ℤ → String → Result ℕ) → Saved
  search_offices w client code stored = elim (stored client code) [
    | err _ ↦ refused "failed to fetch post offices" 500
    | ok n ↦
        if is_nothing n
        then then_write w (fetch_post_offices client code) "failed to fetch post offices"
            (save_default w client code)
        else save_default w client code
  ]

  unfoldable pub save_office_search : SettingsWorld → ℤ → String → Saved
  save_office_search w client code =
      if is_empty code
      then refused "postal code is required" 400
      else if not (is_valid_canadian_postal_code code)
      then refused "invalid Canadian postal code" 400
      else elim w.stored_offices [
        | none ↦ refused "post office service not configured" 500
        | some stored ↦ search_offices w client code stored
      ]

  unfoldable pub save_office_delete : SettingsWorld → ℤ → String → Saved
  save_office_delete w client code =
      if is_empty code then refused "postal code is required" 400 else elim w.stored_offices [
        | none ↦ refused "post office service not configured" 500
        | some _ ↦ then_write w (delete_postal_code client code) "failed to remove postal code" done
      ]

  unfoldable pub save_office_default : SettingsWorld → ℤ → String → Saved
  save_office_default w client code =
      if is_empty code
      then refused "postal code is required" 400
      else if not (is_valid_canadian_postal_code code)
      then refused "invalid Canadian postal code" 400
      else save_default w client code

  unfoldable pub save_settings : SettingsWorld → ℤ → String → List String → Saved
  save_settings w client account services =
      if is_empty account
      then refused "account number is required" 400
      else then_write w (save_shipping_settings client account services) "failed to save settings"
          done

  -- by the type of the form
  unfoldable pub save_form : SettingsWorld → SettingsRequest → ℤ → Saved
  save_form w r client =
      let kind = trim (r.form_value "form_type") in
      let code = normalize_postal_code (r.form_value "postal_code") in
      if kind == "currency"
      then save_rate w client (trim (r.form_value "currency_code"))
          (trim (r.form_value "rate_to_cad"))
      else if kind == "postoffice_search"
      then save_office_search w client code
      else if kind == "postoffice_delete"
      then save_office_delete w client code
      else if kind == "postoffice_default"
      then save_office_default w client code
      else save_settings w client (trim (r.form_value "account_number")) r.services
