-- ===== src/Database/Cleanup/Atomic.antt =====
-- A cleanup removes all data of the store, or nothing.
use canada_post.Prelude.{
  ℤ, String, List, [], ◌∷◌, Bool, true, Result, ok, err, is_positive, ◌≡◌, refl, sym, ap, ◌∙◌,
  subst, All, ◌⊎◌, arith, Bool-cases, Result-cases, inl, inr,
}
use canada_post.Text.{◌⧺◌, to_lower, contains}
use canada_post.Database.Cleanup.{
  DeleteStep, Sql, cleanup_steps, step_result, is_missing_table_error, delete_all, committed,
  finished, in_transaction, cleanup_plugin_data,
}

-- The words in which the errors of MySQL and of other databases say that a table is missing.
abbrev pub SaysMissing : String → Type 0
SaysMissing e =
    (contains (to_lower e) "doesn't exist" ≡ true)
    ⊎ (contains (to_lower e) "no such table" ≡ true)
    ⊎ (contains (to_lower e) "unknown table" ≡ true)

-- What MySQL documents of a transaction. `IsOpen db t`: `t` was begun on `db`. `IsClear t`, `IsClearIn`: no row of the step's table
-- has the store's id, or there is no such table. `IsMade t db`: `db` is what `t` makes of the database. A commit that fails,
-- as when the connection breaks, may have been carried out.
pub record Transactional (sql : Sql) : Type 1 where
  pub IsOpen : sql.Db → sql.Tx → Type 0
  pub IsClear : DeleteStep → ℤ → sql.Tx → Type 0
  pub IsClearIn : DeleteStep → ℤ → sql.Db → Type 0
  pub IsMade : sql.Tx → sql.Db → Type 0
  pub begun : (db : sql.Db) (t : sql.Tx) → sql.begin db ≡ ok t → IsOpen db t
  pub kept_open :
      (db : sql.Db) (t : sql.Tx) (s : DeleteStep) (store : ℤ)
      → IsOpen db t
      → IsOpen db (sql.delete s store t).1
  pub rolled_back : (db : sql.Db) (t : sql.Tx) → IsOpen db t → sql.rollback t ≡ db
  pub deleted :
      (s : DeleteStep) (store : ℤ) (t : sql.Tx)
      → (sql.delete s store t).0 ≡ ok tt
      → IsClear s store (sql.delete s store t).1
  pub no_table :
      (s : DeleteStep) (store : ℤ) (t : sql.Tx) (e : String)
      → (sql.delete s store t).0 ≡ err e
      → SaysMissing e
      → IsClear s store (sql.delete s store t).1
  pub kept_clear :
      (s other : DeleteStep) (store : ℤ) (t : sql.Tx)
      → IsClear s store t
      → IsClear s store (sql.delete other store t).1
  pub made : (t : sql.Tx) → (sql.commit t).0 ≡ ok tt → IsMade t (sql.commit t).1
  pub broken_off :
      (db : sql.Db) (t : sql.Tx) (e : String)
      → IsOpen db t
      → (sql.commit t).0 ≡ err e
      → ((sql.commit t).1 ≡ db) ⊎ IsMade t (sql.commit t).1
  pub put_in_place :
      (s : DeleteStep) (store : ℤ) (t : sql.Tx) (db : sql.Db)
      → IsMade t db
      → IsClear s store t
      → IsClearIn s store db

is_missing_table_error-SaysMissing : (e : String) → is_missing_table_error e ≡ true → SaysMissing e
unfolding is_missing_table_error
is_missing_table_error-SaysMissing e h = elim (Bool-cases (contains (to_lower e) "doesn't exist")) [
  | inl a ↦ inl a
  | inr a ↦ elim (Bool-cases (contains (to_lower e) "no such table")) [
    | inl b ↦ inr (inl b)
    | inr b ↦ inr (inr (ground (arith, h, a, b)))
  ]
]

step_result-ok :
    (name : String) (answer : Result (Unit {0}))
    → step_result name answer ≡ ok tt
    → (answer ≡ ok tt) ⊎ ((e : String) × (answer ≡ err e) × SaysMissing e)
step_result-ok name (ok tt) h = inl refl
step_result-ok name (err e) h = elim (Bool-cases (is_missing_table_error e)) [
  | inl m ↦ inr (e, refl, is_missing_table_error-SaysMissing e m)
  | inr m ↦ absurd (ground (arith, h, m))
]

module _ (sql : Sql) (mysql : Transactional sql) (store : ℤ) where
  delete_all-IsOpen :
      (db : sql.Db) (steps : List DeleteStep) (t : sql.Tx)
      → mysql.IsOpen db t
      → mysql.IsOpen db (delete_all sql store steps t).1
  unfolding delete_all
  delete_all-IsOpen db [] t opened = opened
  delete_all-IsOpen db (s ∷ steps) t opened =
      let done = sql.delete s store t in
      let still = mysql.kept_open db t s store opened in
      elim (Result-cases (step_result s.step_name done.0)) [
        | inr (_, e) ↦ rw (e, delete_all) still
        | inl (_, e) ↦ rw (e, delete_all) (delete_all-IsOpen db steps done.1 still)
      ]

  delete_all-keeps_IsClear :
      (kept : DeleteStep) (steps : List DeleteStep) (t : sql.Tx)
      → mysql.IsClear kept store t
      → mysql.IsClear kept store (delete_all sql store steps t).1
  unfolding delete_all
  delete_all-keeps_IsClear kept [] t clear = clear
  delete_all-keeps_IsClear kept (s ∷ steps) t clear =
      let done = sql.delete s store t in
      let still = mysql.kept_clear kept s store t clear in
      elim (Result-cases (step_result s.step_name done.0)) [
        | inr (_, e) ↦ rw (e, delete_all) still
        | inl (_, e) ↦ rw (e, delete_all) (delete_all-keeps_IsClear kept steps done.1 still)
      ]

  -- a step that is passed has cleared its table
  passed-IsClear :
      (s : DeleteStep) (t : sql.Tx)
      → step_result s.step_name (sql.delete s store t).0 ≡ ok tt
      → mysql.IsClear s store (sql.delete s store t).1
  passed-IsClear s t h = elim (step_result-ok s.step_name (sql.delete s store t).0 h) [
    | inl e ↦ mysql.deleted s store t e
    | inr (e, failed, missing) ↦ mysql.no_table s store t e failed missing
  ]

  delete_all-next :
      (s : DeleteStep) (steps : List DeleteStep) (t : sql.Tx)
      → step_result s.step_name (sql.delete s store t).0 ≡ ok tt
      → delete_all sql store (s ∷ steps) t ≡ delete_all sql store steps (sql.delete s store t).1
  unfolding delete_all
  delete_all-next s steps t e = rw (e, delete_all) refl

  delete_all-stops :
      (s : DeleteStep) (steps : List DeleteStep) (t : sql.Tx) (e : String)
      → step_result s.step_name (sql.delete s store t).0 ≡ err e
      → (delete_all sql store (s ∷ steps) t).0 ≡ err e
  unfolding delete_all
  delete_all-stops s steps t e h = rw (h, delete_all) refl

  -- the run has cleared all tables of the steps, if it succeeds
  abbrev IsCleared : List DeleteStep → Result (Unit {0}) × sql.Tx → Type 0
  IsCleared steps run = run.0 ≡ ok tt → All (λ s. mysql.IsClear s store run.1) steps

  delete_all-IsCleared :
      (steps : List DeleteStep) (t : sql.Tx) → IsCleared steps (delete_all sql store steps t)
  delete_all-IsCleared [] t = λ _. tt
  delete_all-IsCleared (s ∷ steps) t =
      let done = sql.delete s store t in
      elim (Result-cases (step_result s.step_name done.0)) [
        | inr (m, e) ↦ λ h. absurd (cc (h, delete_all-stops s steps t m e))
        | inl (_, e) ↦ subst (IsCleared (s ∷ steps)) (sym (delete_all-next s steps t e)) (λ h. (
          delete_all-keeps_IsClear s steps done.1 (passed-IsClear s t e),
          delete_all-IsCleared steps done.1 h,
        ))
      ]

  abbrev pub IsGone : sql.Db → Type 0
  IsGone after = All (λ s. mysql.IsClearIn s store after) cleanup_steps

  -- the error of a commit
  abbrev pub IsCommitError : String → Type 0
  IsCommitError e = (m : String) × (e ≡ "failed to commit cleanup transaction: " ⧺ m)

  -- by the result: nothing of the store is left in the tables; or the database is as it was, or the error is that of the commit
  -- and nothing is left
  abbrev pub IsAtomic : sql.Db → Result (Unit {0}) × sql.Db → Type 0
  IsAtomic db (ok _, after) = IsGone after
  IsAtomic db (err e, after) = (after ≡ db) ⊎ (IsCommitError e × IsGone after)

  clear_each :
      (steps : List DeleteStep) (t : sql.Tx) (after : sql.Db)
      → mysql.IsMade t after
      → All (λ s. mysql.IsClear s store t) steps
      → All (λ s. mysql.IsClearIn s store after) steps
  clear_each [] t after made _ = tt
  clear_each (s ∷ steps) t after made (clear, rest) =
      (mysql.put_in_place s store t after made clear, clear_each steps t after made rest)

  committed-IsAtomic :
      (db : sql.Db) (t : sql.Tx) (run : Result (Unit {0}) × sql.Db)
      → sql.commit t ≡ run
      → mysql.IsOpen db t
      → All (λ s. mysql.IsClear s store t) cleanup_steps
      → IsAtomic db (committed sql run)
  committed-IsAtomic db t (ok tt, after) h opened clear =
      clear_each cleanup_steps t after
        (subst (mysql.IsMade t) (ap (λ p. p.1) h) (mysql.made t (ap (λ p. p.0) h))) clear
  committed-IsAtomic db t (err e, after) h opened clear =
      elim (mysql.broken_off db t e opened (ap (λ p. p.0) h)) [
        | inl same ↦ inl (sym (ap (λ p. p.1) h) ∙ same)
        | inr made ↦ inr (
          (e, refl),
          clear_each cleanup_steps t after (subst (mysql.IsMade t) (ap (λ p. p.1) h) made) clear,
        )
      ]

  finished-IsAtomic :
      (db : sql.Db) (run : Result (Unit {0}) × sql.Tx)
      → mysql.IsOpen db run.1
      → IsCleared cleanup_steps run
      → IsAtomic db (finished sql run)
  finished-IsAtomic db (err e, t) opened clear = inl (mysql.rolled_back db t opened)
  finished-IsAtomic db (ok tt, t) opened clear =
      committed-IsAtomic db t (sql.commit t) refl opened (clear refl)

  begun-IsAtomic :
      (db : sql.Db) (b : Result sql.Tx)
      → sql.begin db ≡ b
      → IsAtomic db (in_transaction sql store db b)
  begun-IsAtomic db (err e) h = inl refl
  begun-IsAtomic db (ok t) h =
      finished-IsAtomic db (delete_all sql store cleanup_steps t)
        (delete_all-IsOpen db cleanup_steps t (mysql.begun db t h))
        (delete_all-IsCleared cleanup_steps t)

  -- On a database whose transactions and errors are what MySQL documents (`Transactional`: an error of a `DELETE` that says in one of
  -- three ways that a table is missing is true; a commit that fails is carried out as a whole or not at all), `CleanupPluginData`
  -- leaves no row of the store in the six tables, those that are missing aside, when it reports no error. When it reports one, the
  -- database is as it was; only if the error is that of the commit, all rows may be gone instead.
  pub cleanup_plugin_data-IsAtomic :
      (configured : Bool) (db : sql.Db) → IsAtomic db (cleanup_plugin_data sql configured store db)
  unfolding cleanup_plugin_data
  cleanup_plugin_data-IsAtomic configured db = elim (Bool-cases configured) [
    | inr e ↦ rw e (inl refl)
    | inl e ↦ rw e (elim (Bool-cases (is_positive store)) [
      | inr f ↦ rw f (inl refl)
      | inl f ↦ rw f (begun-IsAtomic db (sql.begin db) refl)
    ])
  ]
