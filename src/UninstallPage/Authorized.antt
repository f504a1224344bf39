-- ===== src/UninstallPage/Authorized.antt =====
-- Who can uninstall, and what is left of the data.
use canada_post.Prelude.{
  ℕ, ℤ, String, List, Bool, true, false, not, ◌&&◌, ◌||◌, ◌==◌, Result, ok, err, is_positive, ◌≡◌,
  refl, ap, ◌⊎◌, arith, Bool-cases, inl, inr,
}
use canada_post.Text.{◌⧺◌, is_empty}
use canada_post.Sessions.{Tokens, consume_session_token}
use canada_post.Database.Cleanup.{Sql}
use canada_post.Database.Cleanup.Atomic.{
  Transactional, IsAtomic, IsGone, cleanup_plugin_data-IsAtomic,
}
use canada_post.UninstallPage.{
  PageRequest, Page, success_page, http_error, PageWorld, session_token_of,
  resolve_uninstall_client_id, is_valid_jwt_session_for_client, target_addr, Outcome, left_as_is,
  cleaned, uninstall_client, authorize_uninstall, with_client, is_broken, handle_uninstall,
}

abbrev pub is_success_page : Page → Bool
is_success_page success_page = true
is_success_page (http_error _ _) = false

module _ (sql : Sql) (mysql : Transactional sql) (w : PageWorld) where
  -- the token is one of the client's session, or a JWT of it
  abbrev pub is_authorized : ℤ → String → Tokens → Bool
  is_authorized client token m =
      (consume_session_token client token w.now m).1
      || is_valid_jwt_session_for_client w client token

  -- the page of a cleanup whose commit has failed
  abbrev pub IsCommitPage : Page → Type 0
  IsCommitPage page =
      (m : String) × (page
        ≡ http_error ("cleanup failed: " ⧺ ("failed to commit cleanup transaction: " ⧺ m)) 500)

  -- without the success page the database is as it was, unless the commit has failed
  abbrev pub IsKept : sql.Db → (Outcome sql → Type 0) → Outcome sql → Type 0
  IsKept db Done out = (out.db ≡ db) ⊎ (IsCommitPage out.page × Done out)

  abbrev IsCareful : sql.Db → (Outcome sql → Type 0) → Outcome sql → Type 0
  IsCareful db Done out =
      (is_success_page out.page ≡ true → Done out)
      × (is_success_page out.page ≡ false → IsKept db Done out)

  refused-IsCareful :
      (db : sql.Db) (Done : Outcome sql → Type 0) (message : String) (status : ℕ) (m : Tokens)
      → IsCareful db Done (left_as_is sql message status m db)
  refused-IsCareful db Done message status m = (λ h. absurd (cc h), λ _. inl refl)

  cleaned-IsCareful :
      (client : ℤ) (db : sql.Db) (m : Tokens) (tried : List String)
      (run : Result (Unit {0}) × sql.Db)
      → IsAtomic sql mysql client db run
      → IsCareful db (λ out. IsGone sql mysql client out.db) (cleaned sql m tried run)
  cleaned-IsCareful client db m tried (ok tt, after) gone = (λ _. gone, λ h. absurd (cc h))
  cleaned-IsCareful client db m tried (err e, after) (inl same) =
      (λ h. absurd (cc h), λ _. inl same)
  cleaned-IsCareful client db m tried (err e, after) (inr ((n, f), gone)) = (
    λ h. absurd (cc h),
    λ _. inr ((n, ap (λ x. http_error ("cleanup failed: " ⧺ x) 500) f), gone),
  )

  uninstall_client-IsCareful :
      (client : ℤ) (token : String) (m : Tokens) (db : sql.Db)
      → IsCareful db
          (λ out. IsGone sql mysql client out.db)
          (uninstall_client sql w client token m db)
  unfolding uninstall_client
  uninstall_client-IsCareful client token m db = elim (Bool-cases (is_empty (target_addr w))) [
    | inl e ↦ rw e (
        refused-IsCareful db (λ out. IsGone sql mysql client out.db) "grpc address not configured"
          500 m)
    | inr e ↦
        rw e (
          cleaned-IsCareful client db m _ _ (cleanup_plugin_data-IsAtomic sql mysql client true db))
  ]

  then_also : {A B C D : Type 0} → (C → D) → A ⊎ (B × C) → A ⊎ (B × D)
  then_also f (inl a) = inl a
  then_also f (inr (b, c)) = inr (b, f c)

  -- the outcome for a client: it was authorized, and its data are gone
  abbrev pub IsRemoved : ℤ → String → Tokens → Outcome sql → Type 0
  IsRemoved client token m out =
      (is_authorized client token m ≡ true) × IsGone sql mysql client out.db

  authorize_uninstall-IsCareful :
      (client : ℤ) (token : String) (m : Tokens) (db : sql.Db)
      → IsCareful db (IsRemoved client token m) (authorize_uninstall sql w client token m db)
  unfolding authorize_uninstall
  authorize_uninstall-IsCareful client token m db =
      let used = consume_session_token client token w.now m in
      let jwt = is_valid_jwt_session_for_client w client token in
      let (gone, same) = uninstall_client-IsCareful client token used.0 db in
      elim (Bool-cases (not used.1 && not jwt)) [
        | inl e ↦ rw e (
            refused-IsCareful db (IsRemoved client token m) "invalid or expired session token" 401
              used.0)
        | inr e ↦
            let authorized : is_authorized client token m ≡ true = ground (arith, e) in
            rw e (λ h. (authorized, gone h), λ h. then_also (λ g. (authorized, g)) (same h))
      ]

  -- the same, for the client that the request resolves to
  abbrev pub IsRemovedFor : Result ℤ → String → Tokens → Outcome sql → Type 0
  IsRemovedFor resolved token m out =
      (client : ℤ) × (resolved ≡ ok client) × IsRemoved client token m out

  with_client-IsCareful :
      (resolved : Result ℤ) (token : String) (m : Tokens) (db : sql.Db)
      → IsCareful db (IsRemovedFor resolved token m) (with_client sql w resolved token m db)
  with_client-IsCareful (err e) token m db =
      refused-IsCareful db (IsRemovedFor (err e) token m) "invalid client_id" 400 m
  with_client-IsCareful (ok client) token m db =
      let (removed, same) = authorize_uninstall-IsCareful client token m db in
      elim (Bool-cases (is_positive client)) [
        | inr e ↦
            rw e (refused-IsCareful db (IsRemovedFor (ok client) token m) "invalid client_id" 400 m)
        | inl e ↦
            rw e (λ h. (client, refl, removed h), λ h. then_also (λ d. (client, refl, d)) (same h))
      ]

  handle_uninstall-IsCareful :
      (r : PageRequest) (m : Tokens) (db : sql.Db)
      → IsCareful db
          (IsRemovedFor
            (resolve_uninstall_client_id w r (session_token_of r))
            (session_token_of r)
            m)
          (handle_uninstall sql w r m db)
  unfolding handle_uninstall
  handle_uninstall-IsCareful r m db =
      let token = session_token_of r in
      let resolved = resolve_uninstall_client_id w r token in
      let refusal = refused-IsCareful db (IsRemovedFor resolved token m) in
      elim (Bool-cases (not (r.method == "POST") && not (r.method == "GET"))) [
        | inl e ↦ rw e (refusal "method not allowed" 405 m)
        | inr e ↦ rw e (elim (Bool-cases (is_broken r.parse_form)) [
          | inl f ↦ rw f (refusal "invalid form" 400 m)
          | inr f ↦ rw f (elim (Bool-cases (is_empty token)) [
            | inl g ↦ rw g (refusal "session_token required" 400 m)
            | inr g ↦ rw g (with_client-IsCareful resolved token m db)
          ])
        ])
      ]

  -- what the page stands for: a success page for the one, any other for the other
  abbrev pub PageMeans : Page → Type 0 → Type 0 → Type 0
  PageMeans success_page Removed Kept = Removed
  PageMeans (http_error _ _) Removed Kept = Kept

  either_page :
      (page : Page) {Removed Kept : Type 0}
      → (is_success_page page ≡ true → Removed)
      → (is_success_page page ≡ false → Kept)
      → PageMeans page Removed Kept
  either_page success_page f g = f refl
  either_page (http_error _ _) f g = g refl

  -- On a database whose transactions and errors are what MySQL documents, the page says that the plugin is uninstalled only if
  -- the request resolves to a client whose session token it carries, or a JWT of that store, and then no row of the client is left in
  -- the tables of the cleanup, whatever the plugins service answered. With any other page the database is as it was; only if
  -- the page says that the commit of the cleanup has failed, the rows of such an authorized client may be gone instead.
  pub handle_uninstall-page :
      (r : PageRequest) (m : Tokens) (db : sql.Db)
      → PageMeans
          (handle_uninstall sql w r m db).page
          (IsRemovedFor
            (resolve_uninstall_client_id w r (session_token_of r))
            (session_token_of r)
            m
            (handle_uninstall sql w r m db))
          (IsKept db
            (IsRemovedFor
              (resolve_uninstall_client_id w r (session_token_of r))
              (session_token_of r)
              m)
            (handle_uninstall sql w r m db))
  handle_uninstall-page r m db =
      let (removed, kept) = handle_uninstall-IsCareful r m db in
      either_page (handle_uninstall sql w r m db).page removed kept
