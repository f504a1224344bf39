-- ===== src/UninstallPage.antt =====
-- `HandleUninstall`, `resolveUninstallClientID` and `isValidJWTSessionForClient` of protocol/http/uninstall_handler.go. `net/http`
-- is a parameter in the values of a request, `strconv.ParseInt` and the verification of JWT tokens are functions; the page that
-- is written is its status.
pub mod Authorized
use canada_post.Prelude.{
  ℕ, ℤ, pos, String, List, [], ◌∷◌, ◌++◌, Option, none, some, Bool, true, false, not, ◌&&◌, ◌||◌,
  ◌==◌, Result, ok, err, is_positive, int_eq, if◌then◌else◌,
}
use canada_post.Text.{◌⧺◌, trim, is_empty, blank}
use canada_post.Sessions.{Tokens, consume_session_token}
use canada_post.Uninstall.{Attempt, Response, uninstall_plugin}
use canada_post.Database.Cleanup.{Sql, cleanup_plugin_data}

abbrev uninstall_plugin_code : String
uninstall_plugin_code = "shipstation"

pub record PageRequest : Type 0 where
  pub method : String
  pub parse_form : Result (Unit {0})
  pub form_value : String → String
  pub query_value : String → String

pub data Page : Type 0 where
  success_page : Page
  http_error : String → ℕ → Page

pub record PageWorld : Type 0 where
  pub verify : String → Result ℤ
  pub parse_int : String → Option ℤ
  pub access_token : ℤ → String
  pub orders_grpc_addr : String
  pub grpc_addr : String
  pub dial : String → Result (Unit {0})
  -- an attempt for a store at an address
  pub uninstall : String → ℤ → Attempt → Result (Option Response)
  pub now : ℕ

abbrev or_else : String → String → String
or_else a b = if is_empty a then b else a

unfoldable pub session_token_of : PageRequest → String
session_token_of r =
    or_else (trim (r.form_value "session_token")) (trim (r.query_value "session_token"))

abbrev positive_id : Option ℤ → Result ℤ
positive_id none = err "invalid client_id"
positive_id (some id) = if is_positive id then ok id else err "invalid client_id"

abbrev claimed_id : Result ℤ → Result ℤ
claimed_id (err _) = err "missing client_id and invalid session token"
claimed_id (ok id) =
    if is_positive id then ok id else err "missing client_id and invalid session token"

unfoldable pub resolve_uninstall_client_id : PageWorld → PageRequest → String → Result ℤ
resolve_uninstall_client_id w r token =
    let value = or_else (trim (r.query_value "client_id")) (trim (r.form_value "client_id")) in
    if is_empty value then claimed_id (w.verify (trim token)) else positive_id (w.parse_int value)

abbrev pub is_store : ℤ → Result ℤ → Bool
is_store client (err _) = false
is_store client (ok id) = int_eq id client

unfoldable pub is_valid_jwt_session_for_client : PageWorld → ℤ → String → Bool
is_valid_jwt_session_for_client w client token = is_store client (w.verify (trim token))

-- the tokens tried, up to the first with success; its errors only go to the log
unfoldable pub uninstall_remotely : PageWorld → String → ℤ → List String → List String
uninstall_remotely w addr client [] = []
uninstall_remotely w addr client (token ∷ tokens) = elim (blank token) [
  | true ↦ uninstall_remotely w addr client tokens
  | false ↦
      elim (uninstall_plugin (w.uninstall addr client) (w.dial addr) addr client (trim token)
        uninstall_plugin_code) [
          | ok _ ↦ trim token ∷ []
          | err e ↦ trim token ∷ uninstall_remotely w addr client tokens
        ]
]

abbrev pub target_addr : PageWorld → String
target_addr w = or_else (trim w.orders_grpc_addr) (trim w.grpc_addr)

abbrev pub is_broken : Result (Unit {0}) → Bool
is_broken (ok _) = false
is_broken (err _) = true

module _ (sql : Sql) where
  -- the page, the tokens, the database, and the tokens tried at the plugins service
  pub record Outcome : Type 0 where
    pub page : Page
    pub tokens : Tokens
    pub db : sql.Db
    pub tried : List String

  abbrev pub left_as_is : String → ℕ → Tokens → sql.Db → Outcome
  left_as_is message status m db = record {
    page = http_error message status;
    tokens = m;
    db = db;
    tried = [];
  }

  abbrev pub cleaned : Tokens → List String → Result (Unit {0}) × sql.Db → Outcome
  cleaned m tried (ok _, db) = record { page = success_page; tokens = m; db = db; tried = tried }
  cleaned m tried (err e, db) = record {
    page = http_error ("cleanup failed: " ⧺ e) 500;
    tokens = m;
    db = db;
    tried = tried;
  }

  -- for an authorized client
  unfoldable pub uninstall_client : PageWorld → ℤ → String → Tokens → sql.Db → Outcome
  uninstall_client w client token m db =
      let tried =
        uninstall_remotely w (target_addr w) client (trim (w.access_token client) ∷ (token ∷ [])) in
      if is_empty (target_addr w)
      then left_as_is "grpc address not configured" 500 m db
      else cleaned m tried (cleanup_plugin_data sql true client db)

  unfoldable pub authorize_uninstall : PageWorld → ℤ → String → Tokens → sql.Db → Outcome
  authorize_uninstall w client token m db =
      let used = consume_session_token client token w.now m in
      if not used.1 && not (is_valid_jwt_session_for_client w client token)
      then left_as_is "invalid or expired session token" 401 used.0 db
      else uninstall_client w client token used.0 db

  abbrev pub with_client : PageWorld → Result ℤ → String → Tokens → sql.Db → Outcome
  with_client w (err _) token m db = left_as_is "invalid client_id" 400 m db
  with_client w (ok client) token m db =
      if not (is_positive client)
      then left_as_is "invalid client_id" 400 m db
      else authorize_uninstall w client token m db

  unfoldable pub handle_uninstall : PageWorld → PageRequest → Tokens → sql.Db → Outcome
  handle_uninstall w r m db =
      let token = session_token_of r in
      if not (r.method == "POST") && not (r.method == "GET")
      then left_as_is "method not allowed" 405 m db
      else if is_broken r.parse_form
      then left_as_is "invalid form" 400 m db
      else if is_empty token
      then left_as_is "session_token required" 400 m db
      else with_client w (resolve_uninstall_client_id w r token) token m db
