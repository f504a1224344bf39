-- ===== src/SettingsPage/Handler.antt =====
-- `settingsHandler` of protocol/http/handlers.go as a whole, and `redirectToOAuth`.
pub mod Saved
pub mod Guarded
use canada_post.Prelude.{
  ℕ, ℤ, pos, String, List, [], ◌∷◌, Option, none, some, Bool, true, false, not, ◌&&◌, ◌||◌, ◌==◌,
  Result, ok, err, int_eq, if◌then◌else◌,
}
use canada_post.Text.{trim, to_lower, is_empty}
use canada_post.Float64.{Float64}
use canada_post.Sessions.{Tokens, consume_session_token, validate_session_token}
use canada_post.SettingsPage.Values.{parse_client_id}
use canada_post.SettingsPage.{
  SettingsRequest, Write, save_state, SettingsPage, http_error, oauth, SettingsWorld,
  SettingsOutcome, answered, allow_embedded_from_admin, finish_post,
}
use canada_post.SettingsPage.Forms.{save_form}
use canada_post.SettingsPage.Show.{show_settings}

abbrev pub inside_only : String
inside_only = "settings must be opened inside the Lexmodo Plugin"

abbrev pub is_broken_form : Result (Unit {0}) → Bool
is_broken_form (ok _) = false
is_broken_form (err _) = true

-- a page that is not fetched for a frame
abbrev pub is_outside : SettingsRequest → Bool
is_outside r =
    let dest = to_lower (trim r.sec_fetch_dest) in not (is_empty dest) && not (dest == "iframe")

module _ ⦃fl : Float64⦄ where
  -- the state is saved for the client; an error of that goes to the log
  unfoldable pub redirect_to_oauth : SettingsWorld → ℤ → Tokens → SettingsOutcome
  redirect_to_oauth w client m =
      if int_eq client (pos 0) || not w.oauth_configured
      then answered (http_error "invalid session_token" 403) m
      else record {
        page = oauth w.new_state;
        tokens = m;
        writes = save_state client w.new_state ∷ [];
      }

  -- behind the checks, with a session token
  unfoldable pub post_settings :
      SettingsWorld → SettingsRequest → ℤ → String → Tokens → SettingsOutcome
  post_settings w r client token m =
      let used = consume_session_token client token w.now m in
      if not used.1
      then redirect_to_oauth w client used.0
      else finish_post w r client used.0 (save_form w r client)

  unfoldable pub get_settings :
      SettingsWorld → SettingsRequest → ℤ → String → Tokens → SettingsOutcome
  get_settings w r client token m =
      let checked = validate_session_token client token w.now m in
      if not checked.1
      then redirect_to_oauth w client checked.0
      else answered (show_settings w r client token) checked.0

  unfoldable pub handle_post : SettingsWorld → SettingsRequest → ℤ → Tokens → SettingsOutcome
  handle_post w r client m =
      let token = trim (r.form_value "session_token") in
      if is_broken_form r.parse_form
      then answered (http_error "invalid form" 400) m
      else if is_empty token
      then redirect_to_oauth w client m
      else post_settings w r client token m

  -- every method but POST
  unfoldable pub handle_other : SettingsWorld → SettingsRequest → ℤ → Tokens → SettingsOutcome
  handle_other w r client m =
      let token = trim (r.query_value "session_token") in
      if is_empty token then redirect_to_oauth w client m else get_settings w r client token m

  unfoldable pub settings_handler : SettingsWorld → SettingsRequest → Tokens → SettingsOutcome
  settings_handler w r m =
      let client = parse_client_id w.parse_int (r.query_value "client_id") in
      let embedded = allow_embedded_from_admin w.host_of w.authorize_url r in
      if r.method == "GET" && is_outside r
      then answered (http_error inside_only 403) m
      else if r.method == "GET" && not embedded
      then answered (http_error inside_only 403) m
      else if int_eq client (pos 0)
      then answered (http_error "client_id is required" 400) m
      else if r.method == "POST"
      then handle_post w r client m
      else handle_other w r client m
