-- ===== src/Database/Cleanup.antt =====
-- `CleanupPluginData` and `isMissingTableError` of database/oauth.go. A transaction of MySQL is a parameter: what begins it, what
-- a statement answers and leaves in it, and what a commit or a rollback makes of it.
pub mod Atomic
use canada_post.Prelude.{
  ℤ, String, List, [], ◌∷◌, Bool, not, ◌||◌, Result, ok, err, is_positive, if◌then◌else◌,
}
use canada_post.Text.{◌⧺◌, to_lower, contains}

-- `DELETE FROM table WHERE column = ?`, and the name of the step
pub record DeleteStep : Type 0 where
  pub step_name : String
  pub table : String
  pub column : String

pub record Sql : Type 1 where
  pub Db : Type 0
  pub Tx : Type 0
  pub begin : Db → Result Tx
  pub delete : DeleteStep → ℤ → Tx → Result (Unit {0}) × Tx
  -- what it answers, and the database after it
  pub commit : Tx → Result (Unit {0}) × Db
  pub rollback : Tx → Db

abbrev step : String → String → DeleteStep
step table column = record { step_name = "delete " ⧺ table; table = table; column = column }

abbrev pub cleanup_steps : List DeleteStep
cleanup_steps =
    step "plugin_oauth" "client_id"
    ∷ step "oauth_tokens" "store_id"
    ∷ step "oauth_state" "store_id"
    ∷ step "shipping_settings" "client_id"
    ∷ step "currency_rates" "client_id"
    ∷ step "client_post_offices" "client_id"
    ∷ []

unfoldable pub is_missing_table_error : String → Bool
is_missing_table_error e =
    let text = to_lower e in
    contains text "doesn't exist" || contains text "no such table" || contains text "unknown table"

-- `deleteStep`: a table that is missing is passed over
abbrev pub step_result : String → Result (Unit {0}) → Result (Unit {0})
step_result name (ok _) = ok tt
step_result name (err e) = if is_missing_table_error e then ok tt else err (name ⧺ ": " ⧺ e)

module _ (sql : Sql) where
  -- the steps one after the other, up to the first error
  unfoldable pub delete_all : ℤ → List DeleteStep → sql.Tx → Result (Unit {0}) × sql.Tx
  delete_all store [] t = (ok tt, t)
  delete_all store (s ∷ steps) t =
      let done = sql.delete s store t in
      elim (step_result s.step_name done.0) [
        | err e ↦ (err e, done.1)
        | ok _ ↦ delete_all store steps done.1
      ]

  -- after a commit that fails, the transaction of `database/sql` is done, and its rollback has no effect
  abbrev pub committed : Result (Unit {0}) × sql.Db → Result (Unit {0}) × sql.Db
  committed (ok _, after) = (ok tt, after)
  committed (err e, after) = (err ("failed to commit cleanup transaction: " ⧺ e), after)

  abbrev pub finished : Result (Unit {0}) × sql.Tx → Result (Unit {0}) × sql.Db
  finished (err e, t) = (err e, sql.rollback t)
  finished (ok _, t) = committed (sql.commit t)

  abbrev pub in_transaction : ℤ → sql.Db → Result sql.Tx → Result (Unit {0}) × sql.Db
  in_transaction store db (err e) = (err ("failed to start cleanup transaction: " ⧺ e), db)
  in_transaction store db (ok t) = finished (delete_all store cleanup_steps t)

  unfoldable pub cleanup_plugin_data : Bool → ℤ → sql.Db → Result (Unit {0}) × sql.Db
  cleanup_plugin_data configured store db =
      if not configured
      then (err "store is not configured", db)
      else if not (is_positive store)
      then (err "store id is required", db)
      else in_transaction store db (sql.begin db)
