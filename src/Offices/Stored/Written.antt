-- ===== src/Offices/Stored/Written.antt =====
-- What storing post offices leaves in the database.
use canada_post.Prelude.{
  ℤ, String, List, [], ◌∷◌, true, false, Result, ok, err, ◌≡◌, inl, inr, refl, sym, subst, All,
  Bool-cases, Result-cases, if◌then◌else◌,
}
use canada_post.Text.{trim, is_empty}
use canada_post.Float64.{Float64}
use canada_post.Offices.{PostOffice}
use canada_post.Client.Offices.{trim_office}
use canada_post.Offices.Stored.{
  OfficeSql, insert_offices, finished, prepared, in_transaction, store_in_database,
}

-- the offices that have an id
unfoldable pub identified : {V : Type 0} → List (PostOffice V) → List (PostOffice V)
identified [] = []
identified (office ∷ offices) =
    let rest = identified offices in
    if is_empty (trim office.office_id) then rest else office ∷ rest

-- What MySQL documents of a transaction and of `INSERT ... ON DUPLICATE KEY UPDATE`. `IsOpen db t`: `t` was begun on `db`.
-- `IsRow`, `IsRowIn`: there is a row with the client, the searched code and the office id.
pub record Transactional {V : Type 0} (sql : OfficeSql V) : Type 1 where
  pub IsOpen : sql.Db → sql.Tx → Type 0
  pub IsRow : ℤ → String → String → sql.Tx → Type 0
  pub IsRowIn : ℤ → String → String → sql.Db → Type 0
  pub begun : (db : sql.Db) (t : sql.Tx) → sql.begin db ≡ ok t → IsOpen db t
  pub kept_open :
      (db : sql.Db) (t : sql.Tx) (client : ℤ) (code : String) (office : PostOffice V)
      → IsOpen db t
      → IsOpen db (sql.insert client code office t).1
  pub rolled_back : (db : sql.Db) (t : sql.Tx) → IsOpen db t → sql.rollback t ≡ db
  pub inserted :
      (client : ℤ) (code : String) (office : PostOffice V) (t : sql.Tx)
      → (sql.insert client code office t).0 ≡ ok tt
      → IsRow client code office.office_id (sql.insert client code office t).1
  pub kept_row :
      (client : ℤ) (code id : String) (office : PostOffice V) (t : sql.Tx)
      → IsRow client code id t
      → IsRow client code id (sql.insert client code office t).1
  pub put_in_place :
      (client : ℤ) (code id : String) (t : sql.Tx) (db : sql.Db)
      → sql.commit t ≡ ok db
      → IsRow client code id t
      → IsRowIn client code id db

module _ ⦃fl : Float64⦄ (sql : OfficeSql fl.Value) (mysql : Transactional sql) (client : ℤ)
    (code : String) where
  abbrev Offices : Type 0
  Offices = List (PostOffice fl.Value)

  insert_offices-IsOpen :
      (db : sql.Db) (offices : Offices) (t : sql.Tx)
      → mysql.IsOpen db t
      → mysql.IsOpen db (insert_offices sql client code offices t).1
  unfolding insert_offices
  insert_offices-IsOpen db [] t opened = opened
  insert_offices-IsOpen db (o ∷ os) t opened =
      let done = sql.insert client code (trim_office o) t in
      let still = mysql.kept_open db t client code (trim_office o) opened in
      elim (Bool-cases (is_empty (trim o.office_id))) [
        | inl e ↦ rw (e, insert_offices) (insert_offices-IsOpen db os t opened)
        | inr e ↦ elim (Result-cases done.0) [
          | inr (_, f) ↦ rw (e, f, insert_offices) still
          | inl (_, f) ↦ rw (e, f, insert_offices) (insert_offices-IsOpen db os done.1 still)
        ]
      ]

  insert_offices-keeps :
      (id : String) (offices : Offices) (t : sql.Tx)
      → mysql.IsRow client code id t
      → mysql.IsRow client code id (insert_offices sql client code offices t).1
  unfolding insert_offices
  insert_offices-keeps id [] t row = row
  insert_offices-keeps id (o ∷ os) t row =
      let done = sql.insert client code (trim_office o) t in
      let still = mysql.kept_row client code id (trim_office o) t row in
      elim (Bool-cases (is_empty (trim o.office_id))) [
        | inl e ↦ rw (e, insert_offices) (insert_offices-keeps id os t row)
        | inr e ↦ elim (Result-cases done.0) [
          | inr (_, f) ↦ rw (e, f, insert_offices) still
          | inl (_, f) ↦ rw (e, f, insert_offices) (insert_offices-keeps id os done.1 still)
        ]
      ]

  abbrev AreRows : Offices → sql.Tx → Type 0
  AreRows offices t = All (λ o. mysql.IsRow client code (trim o.office_id) t) (identified offices)

  AreRows-skips :
      (o : PostOffice fl.Value) (os : Offices) (t : sql.Tx)
      → is_empty (trim o.office_id) ≡ true
      → AreRows os t
      → AreRows (o ∷ os) t
  unfolding identified
  AreRows-skips o os t e rows = rw (e, identified) rows

  AreRows-goes_on :
      (o : PostOffice fl.Value) (os : Offices) (t : sql.Tx)
      → is_empty (trim o.office_id) ≡ false
      → mysql.IsRow client code (trim o.office_id) t
      → AreRows os t
      → AreRows (o ∷ os) t
  unfolding identified
  AreRows-goes_on o os t e row rows = rw (e, identified) (row, rows)

  insert_offices-skips :
      (o : PostOffice fl.Value) (os : Offices) (t : sql.Tx)
      → is_empty (trim o.office_id) ≡ true
      → insert_offices sql client code (o ∷ os) t ≡ insert_offices sql client code os t
  unfolding insert_offices
  insert_offices-skips o os t e = rw (e, insert_offices) refl

  insert_offices-goes_on :
      (o : PostOffice fl.Value) (os : Offices) (t : sql.Tx)
      → is_empty (trim o.office_id) ≡ false
      → (sql.insert client code (trim_office o) t).0 ≡ ok tt
      → insert_offices sql client code (o ∷ os) t
        ≡ insert_offices sql client code os (sql.insert client code (trim_office o) t).1
  unfolding insert_offices
  insert_offices-goes_on o os t e f = rw (e, f, insert_offices) refl

  insert_offices-stops :
      (o : PostOffice fl.Value) (os : Offices) (t : sql.Tx) (m : String)
      → is_empty (trim o.office_id) ≡ false
      → (sql.insert client code (trim_office o) t).0 ≡ err m
      → (insert_offices sql client code (o ∷ os) t).0 ≡ err m
  unfolding insert_offices
  insert_offices-stops o os t m e f = rw (e, f, insert_offices) refl

  -- the rows of the offices are there if the run succeeds
  abbrev IsInserted : Offices → Result (Unit {0}) × sql.Tx → Type 0
  IsInserted offices run = run.0 ≡ ok tt → AreRows offices run.1

  insert_offices-IsInserted :
      (offices : Offices) (t : sql.Tx)
      → IsInserted offices (insert_offices sql client code offices t)
  unfolding identified trim_office insert_offices
  insert_offices-IsInserted [] t = λ _. tt
  insert_offices-IsInserted (o ∷ os) t =
      let done = sql.insert client code (trim_office o) t in
      elim (Bool-cases (is_empty (trim o.office_id))) [
        | inl e ↦
            subst (IsInserted (o ∷ os)) (sym (insert_offices-skips o os t e))
              (λ h. AreRows-skips o os _ e (insert_offices-IsInserted os t h))
        | inr e ↦ elim (Result-cases done.0) [
          | inr (m, f) ↦ λ h. absurd (cc (h, insert_offices-stops o os t m e f))
          | inl (_, f) ↦ subst (IsInserted (o ∷ os)) (sym (insert_offices-goes_on o os t e f)) (λ h.
              AreRows-goes_on o os _ e
                (insert_offices-keeps _ os done.1 (mysql.inserted client code (trim_office o) t f))
                (insert_offices-IsInserted os done.1 h))
        ]
      ]

  -- the rows of the offices that have an id are in the database
  abbrev pub AreStored : Offices → sql.Db → Type 0
  AreStored offices db =
      All (λ o. mysql.IsRowIn client code (trim o.office_id) db) (identified offices)

  -- by the result: the offices are stored, or the database is as it was
  abbrev pub IsStoredOrSame : sql.Db → Offices → Result (Unit {0}) × sql.Db → Type 0
  IsStoredOrSame db offices (ok _, after) = AreStored offices after
  IsStoredOrSame db offices (err _, after) = after ≡ db

  commit_each :
      (offices : Offices) (t : sql.Tx) (after : sql.Db)
      → sql.commit t ≡ ok after
      → All (λ o. mysql.IsRow client code (trim o.office_id) t) offices
      → All (λ o. mysql.IsRowIn client code (trim o.office_id) after) offices
  commit_each [] t after h _ = tt
  commit_each (o ∷ os) t after h (row, rest) =
      (mysql.put_in_place client code _ t after h row, commit_each os t after h rest)

  finished-IsStoredOrSame :
      (db : sql.Db) (offices : Offices) (run : Result (Unit {0}) × sql.Tx)
      → mysql.IsOpen db run.1
      → IsInserted offices run
      → IsStoredOrSame db offices (finished sql run)
  finished-IsStoredOrSame db offices (err e, t) opened rows = mysql.rolled_back db t opened
  finished-IsStoredOrSame db offices (ok tt, t) opened rows = elim (Result-cases (sql.commit t)) [
    | inl (after, e) ↦ rw e (commit_each (identified offices) t after e (rows refl))
    | inr (_, e) ↦ rw e (mysql.rolled_back db t opened)
  ]

  prepared-IsStoredOrSame :
      (db : sql.Db) (offices : Offices) (t : sql.Tx) (p : Result (Unit {0}))
      → mysql.IsOpen db t
      → IsStoredOrSame db offices (prepared sql client code offices t p)
  prepared-IsStoredOrSame db offices t (err e) opened = mysql.rolled_back db t opened
  prepared-IsStoredOrSame db offices t (ok tt) opened =
      finished-IsStoredOrSame db offices (insert_offices sql client code offices t)
        (insert_offices-IsOpen db offices t opened) (insert_offices-IsInserted offices t)

  begun-IsStoredOrSame :
      (db : sql.Db) (offices : Offices) (b : Result sql.Tx)
      → sql.begin db ≡ b
      → IsStoredOrSame db offices (in_transaction sql client code offices db b)
  begun-IsStoredOrSame db offices (err e) h = refl
  begun-IsStoredOrSame db offices (ok t) h =
      prepared-IsStoredOrSame db offices t (sql.prepare t) (mysql.begun db t h)

  pub store_in_database-IsStoredOrSame :
      (db : sql.Db) (offices : Offices)
      → IsStoredOrSame db offices (store_in_database sql client code offices db)
  unfolding store_in_database identified
  store_in_database-IsStoredOrSame db [] = tt
  store_in_database-IsStoredOrSame db (o ∷ os) =
      begun-IsStoredOrSame db (o ∷ os) (sql.begin db) refl
