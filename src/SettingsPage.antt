-- ===== src/SettingsPage.antt =====
-- `settingsHandler` and `allowEmbeddedFromAdmin` of protocol/http/handlers.go. The values of a request are functions; the
-- database, the post office service, `url.Parse` and the random token are in `SettingsWorld`. What the handler stores is a list
-- of events beside the page and the session tokens. The page is its data; the lists of all services and currencies, which are
-- constants of it, and its HTML are left out. An address of a redirect is its values; that of OAuth is its state.
pub mod Values
pub mod Forms
pub mod Show
pub mod Handler
use canada_post.Prelude.{
  ℕ, ℤ, pos, String, List, [], ◌∷◌, ◌++◌, Option, none, some, Bool, true, false, not, ◌&&◌, ◌||◌,
  ◌==◌, Result, ok, err, int_eq, ltb, if◌then◌else◌,
}
use canada_post.Text.{◌⧺◌, trim, to_lower, is_empty, equal_fold}
use canada_post.Float64.{Float64, at_most_zero}
use canada_post.Sessions.{Tokens, create_session_token, consume_session_token}
use canada_post.Dict.{Dict}
use canada_post.Offices.Stored.{OfficeSql, get_used_postal_codes_page}
use canada_post.Database.Labels.{LabelRow, ListedLabel, LabelQuery, load_label_records_page}
use canada_post.SettingsPage.Values.{
  parse_client_id, parse_page, parse_page_size, page_offset, parse_widgets, normalize_postal_code,
  is_valid_canadian_postal_code, active_tab,
}

pub record SettingsRequest : Type 0 where
  pub method : String
  pub host : String
  -- the headers Referer and Sec-Fetch-Dest
  pub referer : String
  pub sec_fetch_dest : String
  pub parse_form : Result (Unit {0})
  pub form_value : String → String
  pub query_value : String → String
  pub services : List String

-- a request to the database that changes it, or the search for offices, which may store them
pub data Write (V : Type 0) : Type 0 where
  save_currency_rate : ℤ → String → V → Write V
  fetch_post_offices : ℤ → String → Write V
  save_default_postal_code : ℤ → String → Write V
  delete_postal_code : ℤ → String → Write V
  save_shipping_settings : ℤ → String → List String → Write V
  -- the store and the state, which `SaveState` hashes
  save_state : ℤ → String → Write V

pub record ShippingSettings : Type 0 where
  pub account_number : String
  pub enabled_services : Dict Bool
  pub default_postal_code : String

pub record CurrencyRate (V : Type 0) : Type 0 where
  pub currency_code : String
  pub rate_to_cad : V
  pub updated_at : String

pub record SettingsPageData (V : Type 0) : Type 0 where
  pub client_id : ℤ
  pub account_number : String
  pub enabled : Dict Bool
  pub currency_rates : List (CurrencyRate V)
  pub postal_codes : List String
  pub default_postal : String
  pub session_token : String
  pub message : String
  pub currency_message : String
  pub postal_message : String
  pub postal_page : ℕ
  pub postal_page_size : ℕ
  pub postal_has_next : Bool
  pub postal_has_prev : Bool
  pub from_date : String
  pub to_date : String
  pub labels : List (ListedLabel V)
  pub active_tab : String
  pub page : ℕ
  pub page_size : ℕ
  pub has_next : Bool
  pub has_prev : Bool
  pub widgets : ℤ

pub data SettingsPage (V : Type 0) : Type 0 where
  http_error : String → ℕ → SettingsPage V
  -- the page that leads to the authorization, with its state
  oauth : String → SettingsPage V
  -- the client, the next session token, the parameter that says what was saved, and the widgets
  redirect : ℤ → String → String → String → SettingsPage V
  settings : SettingsPageData V → SettingsPage V

abbrev pub allowed_host : (String → Result String) → String → String
allowed_host host_of url = elim (host_of url) [ ok h ↦ if is_empty url then "" else h | err _ ↦ "" ]

abbrev from_host : String → String → String → Bool
from_host host own allowed =
    not (is_empty own) && equal_fold host own || not (is_empty allowed) && equal_fold host allowed

-- `allowEmbeddedFromAdmin`; `host_of` is the host of `url.Parse`
unfoldable pub allow_embedded_from_admin :
    (String → Result String) → String → SettingsRequest → Bool
allow_embedded_from_admin host_of authorize_url r =
    if is_empty (trim r.referer) then true else elim (host_of (trim r.referer)) [
      | err _ ↦ false
      | ok host ↦ from_host host (trim r.host) (allowed_host host_of (trim authorize_url))
    ]

module _ ⦃fl : Float64⦄ where
  pub record SettingsWorld : Type 1 where
    pub parse_int : String → Option ℤ
    pub host_of : String → Result String
    pub authorize_url : String
    -- OAuth and the store are there
    pub oauth_configured : Bool
    -- the random state of an authorization
    pub new_state : String
    -- what the database answers to a write
    pub write : Write fl.Value → Result (Unit {0})
    -- the number of offices stored for a code, when there is a post office service
    pub stored_offices : Option (ℤ → String → Result ℕ)
    pub load_settings : ℤ → Result ShippingSettings
    pub load_currency_rates : ℤ → Result (List (CurrencyRate fl.Value))
    pub sql : OfficeSql fl.Value
    pub db : sql.Db
    -- what the database answers to the query for label records
    pub label_rows : LabelQuery → Result (List (LabelRow fl.Value))
    pub new_token : Result String
    pub now : ℕ

  -- the writes that were asked for, and the page of a refusal
  abbrev pub Saved : Type 0
  Saved = List (Write fl.Value) × Option (SettingsPage fl.Value)

  abbrev pub refused : String → ℕ → Saved
  refused message status = ([], some (http_error message status))

  -- one write, with the message of its failure, and what follows when it succeeds
  abbrev pub then_write : SettingsWorld → Write fl.Value → String → Saved → Saved
  then_write w event message next = elim (w.write event) [
    | err _ ↦ (event ∷ [], some (http_error message 500))
    | ok _ ↦ (event ∷ next.0, next.1)
  ]

  abbrev pub done : Saved
  done = ([], none)

  unfoldable pub saved_param : String → String
  saved_param kind =
      if kind == "currency"
      then "saved_currency=1"
      else if kind == "postoffice_search"
      then "saved_postoffice=1"
      else if kind == "postoffice_delete"
      then "deleted_postoffice=1"
      else if kind == "postoffice_default"
      then "saved_postoffice_default=1"
      else "saved=1"

  -- of a POST
  abbrev pub widgets_param : SettingsRequest → String
  widgets_param r =
      let asked = trim (r.query_value "widgets") in
      if is_empty asked then trim (r.form_value "widgets") else asked

  pub record SettingsOutcome : Type 0 where
    pub page : SettingsPage fl.Value
    pub tokens : Tokens
    pub writes : List (Write fl.Value)

  abbrev pub answered : SettingsPage fl.Value → Tokens → SettingsOutcome
  answered page m = record { page = page; tokens = m; writes = [] }

  -- the end of a POST: the next token, for two minutes
  unfoldable pub finish_post :
      SettingsWorld → SettingsRequest → ℤ → Tokens → Saved → SettingsOutcome
  finish_post w r client m (writes, some page) = record { page = page; tokens = m; writes = writes }
  finish_post w r client m (writes, none) = elim w.new_token [
    | err _ ↦ record {
      page = http_error "failed to create session token" 500;
      tokens = m;
      writes = writes;
    }
    | ok token ↦ record {
      page =
          redirect client token (saved_param (trim (r.form_value "form_type"))) (widgets_param r);
      tokens = create_session_token client token w.now 120 m;
      writes = writes;
    }
  ]
