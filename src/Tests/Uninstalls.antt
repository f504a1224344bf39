-- ===== src/Tests/Uninstalls.antt =====
-- Uninstalls at concrete inputs.
use canada_post.Prelude.{
  ℤ, pos, String, List, [], ◌∷◌, none, some, Bool, true, false, ◌&&◌, ◌==◌, ok, err, any, int_eq,
  if◌then◌else◌, ◌≡◌, refl, subst, Result, ◌⊎◌, eq_iff, Bool-cases, inl, inr, arith,
}
use canada_post.Database.Cleanup.{
  DeleteStep, Sql, is_missing_table_error, delete_all, cleanup_plugin_data,
}
use canada_post.Text.{to_lower, contains, has_prefix}
use canada_post.Database.Cleanup.Atomic.{Transactional, IsAtomic, cleanup_plugin_data-IsAtomic}
use canada_post.Sessions.{Tokens, create_session_token}
use canada_post.UninstallPage.{
  PageRequest, PageWorld, session_token_of, resolve_uninstall_client_id, handle_uninstall,
}
use canada_post.UninstallPage.Authorized.{PageMeans, IsRemovedFor, IsKept, handle_uninstall-page}

-- the rows of all tables: the table and the store
abbrev Rows : Type 0
Rows = List (String × ℤ)

abbrev matches : DeleteStep → ℤ → String × ℤ → Bool
matches s store row = (row.0 == s.table) && int_eq row.1 store

unfoldable without : DeleteStep → ℤ → Rows → Rows
without s store [] = []
without s store (row ∷ rows) =
    let rest = without s store rows in if matches s store row then rest else row ∷ rest

abbrev missing : String
missing = "oauth_tokens"

abbrev answer : DeleteStep → ℤ → Rows → Result (Unit {0}) × Rows
answer s store rows =
    if s.table == missing
    then (err "Error 1146: Table 'plugin.oauth_tokens' doesn't exist", rows)
    else (ok tt, without s store rows)

-- the rows at the begin, and the rows now; one table is missing
abbrev sql : Sql
sql = record {
  Db = Rows;
  Tx = Rows × Rows;
  begin = λ db. ok (db, db);
  delete = λ s store t. ((answer s store t.1).0, (t.0, (answer s store t.1).1));
  commit = λ t. (ok tt, t.1);
  rollback = λ t. t.0;
}

without-any :
    (s : DeleteStep) (store : ℤ) (rows : Rows)
    → any (matches s store) (without s store rows) ≡ false
unfolding without
without-any s store [] = refl
without-any s store (row ∷ rows) = elim (Bool-cases (matches s store row)) [
  | inl e ↦ rw (e, without) (without-any s store rows)
  | inr e ↦ rw (e, without) (rw e (without-any s store rows))
]

without-keeps :
    (s other : DeleteStep) (store : ℤ) (rows : Rows)
    → any (matches s store) rows ≡ false
    → any (matches s store) (without other store rows) ≡ false
unfolding without
without-keeps s other store [] h = refl
without-keeps s other store (row ∷ rows) h = elim (Bool-cases (matches s store row)) [
  | inl f ↦ absurd (ground (arith, h, f))
  | inr f ↦
      let rest : any (matches s store) rows ≡ false = ground (arith, h, f) in
      elim (Bool-cases (matches other store row)) [
        | inl e ↦ rw (e, without) (without-keeps s other store rows rest)
        | inr e ↦ rw (e, without) (rw f (without-keeps s other store rows rest))
      ]
]

-- no row of the step's table, if there is one
abbrev IsClear : DeleteStep → ℤ → Rows → Type 0
IsClear s store rows = (s.table ≡ missing) ⊎ (any (matches s store) rows ≡ false)

answer-IsClear :
    (s : DeleteStep) (store : ℤ) (rows : Rows) → IsClear s store (answer s store rows).1
answer-IsClear s store rows = elim (Bool-cases (s.table == missing)) [
  | inl e ↦ inl ((eq_iff s.table missing).0 e)
  | inr e ↦ inr (rw e (without-any s store rows))
]

answer-keeps :
    (s other : DeleteStep) (store : ℤ) (rows : Rows)
    → IsClear s store rows
    → IsClear s store (answer other store rows).1
answer-keeps s other store rows (inl h) = inl h
answer-keeps s other store rows (inr h) = elim (Bool-cases (other.table == missing)) [
  | inl e ↦ inr (rw e h)
  | inr e ↦ inr (rw e (without-keeps s other store rows h))
]

mysql : Transactional sql
mysql = record {
  IsOpen = λ db t. t.0 ≡ db;
  IsClear = λ s store t. IsClear s store t.1;
  IsClearIn = λ s store db. IsClear s store db;
  IsMade = λ t db. t.1 ≡ db;
  begun = λ db t h. cc h;
  kept_open = λ db t s store h. h;
  rolled_back = λ db t h. h;
  deleted = λ s store t h. answer-IsClear s store t.1;
  no_table = λ s store t e h missing. answer-IsClear s store t.1;
  kept_clear = λ s other store t h. answer-keeps s other store t.1 h;
  made = λ t h. refl;
  broken_off = λ db t e opened h. inl (absurd (cc h));
  put_in_place = λ s store t db h clear. subst (IsClear s store) h clear;
}

abbrev rows : Rows
rows =
    ("plugin_oauth", pos 7)
    ∷ ("shipping_settings", pos 7)
    ∷ ("shipping_settings", pos 8)
    ∷ ("label_records", pos 7)
    ∷ []

cleaned_up :
    cleanup_plugin_data sql true (pos 7) rows
    ≡ (ok tt, ("shipping_settings", pos 8) ∷ (("label_records", pos 7) ∷ []))
unfolding cleanup_plugin_data delete_all without is_missing_table_error to_lower contains has_prefix
cleaned_up = refl

cleanup_plugin_data-IsAtomic_example :
    IsAtomic sql mysql (pos 7) rows (cleanup_plugin_data sql true (pos 7) rows)
cleanup_plugin_data-IsAtomic_example = cleanup_plugin_data-IsAtomic sql mysql (pos 7) true rows

abbrev world : PageWorld
world = record {
  verify = λ _. err "no JWT";
  parse_int = λ s. if s == "7" then some (pos 7) else none;
  access_token = λ _. "";
  orders_grpc_addr = "";
  grpc_addr = "plugins:50051";
  dial = λ _. err "refused";
  uninstall = λ _ _ _. ok none;
  now = 10;
}

abbrev form : String → String
form key = if key == "session_token" then "s1" else "7"

abbrev request : PageRequest
request = record { method = "POST"; parse_form = ok tt; form_value = form; query_value = λ _. "" }

abbrev tokens : Tokens
tokens = create_session_token (pos 7) "s1" 0 60 []

handle_uninstall-page_example :
    PageMeans sql mysql world
      (handle_uninstall sql world request tokens rows).page
      (IsRemovedFor sql mysql world
        (resolve_uninstall_client_id world request (session_token_of request))
        (session_token_of request)
        tokens
        (handle_uninstall sql world request tokens rows))
      (IsKept sql mysql world rows
        (IsRemovedFor sql mysql world
          (resolve_uninstall_client_id world request (session_token_of request))
          (session_token_of request)
          tokens)
        (handle_uninstall sql world request tokens rows))
handle_uninstall-page_example = handle_uninstall-page sql mysql world request tokens rows
