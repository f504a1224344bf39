-- ===== src/Offices/Stored.antt =====
-- The post offices that are kept for a client: service/post_office_service.go. MySQL is a parameter, with its transactions. A
-- `sql.NullTime` that is read beside a postal code is not kept.
pub mod Written
pub mod Cached
pub mod Pages
use canada_post.Prelude.{
  ℕ, ℤ, pos, negsuc, suc, String, List, [], ◌∷◌, Option, none, some, Bool, true, false, not, Result,
  ok, err, is_positive, nat_eq, ltb, length, take, if◌then◌else◌,
}
use canada_post.Text.{◌⧺◌, trim, is_empty}
use canada_post.Float64.{Float64}
use canada_post.Offices.{PostOffice, normalize_canadian_postal_code}
use canada_post.Client.{CanadaPostClient, Wire}
use canada_post.Client.Offices.{trim_office, find_post_offices}

-- the queries of the service, the client first; the `INSERT` of an office has the postal code that was searched
pub record OfficeSql (V : Type 0) : Type 1 where
  pub Db : Type 0
  pub Tx : Type 0
  pub begin : Db → Result Tx
  pub prepare : Tx → Result (Unit {0})
  pub insert : ℤ → String → PostOffice V → Tx → Result (Unit {0}) × Tx
  pub commit : Tx → Result Db
  pub rollback : Tx → Db
  pub select_offices : ℤ → String → Db → Result (List (PostOffice V))
  pub select_each : ℤ → Db → Result (List (PostOffice V))
  pub select_codes : ℤ → Db → Result (List String)
  -- with the limit and the offset
  pub select_codes_page : ℤ → ℕ → ℕ → Db → Result (List String)
  pub delete_offices : ℤ → String → Db → Result (Unit {0}) × Db

-- `if s == nil || s.db == nil`, and the check of the client id
abbrev pub checked {ℓ} : {A : Type ℓ} → Bool → ℤ → Result A → Result A
checked configured client next =
    if not configured
    then err "post office store not configured"
    else if not (is_positive client)
    then err "client id required"
    else next

-- the codes of the rows that are not blank
unfoldable pub trimmed_codes : List String → List String
trimmed_codes [] = []
trimmed_codes (code ∷ codes) =
    let rest = trimmed_codes codes in if is_empty (trim code) then rest else trim code ∷ rest

-- the limit of a page: 20 if there is none, and at most 200
abbrev pub page_limit : ℤ → ℕ
page_limit (negsuc n) = 20
page_limit (pos n) = if nat_eq n 0 then 20 else if ltb 200 n then 200 else n

abbrev pub page_offset : ℤ → ℕ
page_offset (negsuc n) = 0
page_offset (pos n) = n

-- the codes of a page, and whether there is a next one
unfoldable pub page_of : ℕ → List String → List String × Bool
page_of limit codes = if ltb limit (length codes) then (take limit codes, true) else (codes, false)

abbrev pub codes_of : Result (List String) → Result (List String)
codes_of (err e) = err e
codes_of (ok rows) = ok (trimmed_codes rows)

abbrev pub page_of_rows : ℕ → Result (List String) → Result (List String × Bool)
page_of_rows limit (err e) = err e
page_of_rows limit (ok rows) = ok (page_of limit (trimmed_codes rows))

module _ {V : Type 0} (sql : OfficeSql V) where
  unfoldable pub get_used_postal_codes : Bool → ℤ → sql.Db → Result (List String)
  get_used_postal_codes configured client db =
      checked configured client (codes_of (sql.select_codes client db))

  unfoldable pub get_used_postal_codes_page :
      Bool → ℤ → ℤ → ℤ → sql.Db → Result (List String × Bool)
  get_used_postal_codes_page configured client limit offset db = checked configured client (
      page_of_rows (page_limit limit)
        (sql.select_codes_page client (suc (page_limit limit)) (page_offset offset) db))

  unfoldable pub get_all_stored_offices : Bool → ℤ → sql.Db → Result (List (PostOffice V))
  get_all_stored_offices configured client db =
      checked configured client (sql.select_each client db)

  unfoldable pub get_stored_offices_by_postal_code :
      Bool → ℤ → String → sql.Db → Result (List (PostOffice V))
  get_stored_offices_by_postal_code configured client postal_code db =
      let code = normalize_canadian_postal_code postal_code in
      checked configured client
        (if is_empty code then err "postal code required" else sql.select_offices client code db)

  unfoldable pub delete_postal_code : Bool → ℤ → String → sql.Db → Result (Unit {0}) × sql.Db
  delete_postal_code configured client postal_code db =
      let code = normalize_canadian_postal_code postal_code in
      if not configured
      then (err "post office store not configured", db)
      else if not (is_positive client)
      then (err "client id required", db)
      else if is_empty code
      then (err "postal code required", db)
      else sql.delete_offices client code db

module _ ⦃fl : Float64⦄ (sql : OfficeSql fl.Value) where
  -- the loop of the inserts, up to the first error; an office without an id is passed over
  unfoldable pub insert_offices :
      ℤ → String → List (PostOffice fl.Value) → sql.Tx → Result (Unit {0}) × sql.Tx
  insert_offices client code [] t = (ok tt, t)
  insert_offices client code (office ∷ offices) t = elim (is_empty (trim office.office_id)) [
    | true ↦ insert_offices client code offices t
    | false ↦
        let done = sql.insert client code (trim_office office) t in
        elim done.0 [ err e ↦ (err e, done.1) | ok _ ↦ insert_offices client code offices done.1 ]
  ]

  -- what the deferred rollback leaves
  abbrev pub committed : sql.Tx → Result sql.Db → Result (Unit {0}) × sql.Db
  committed t (ok after) = (ok tt, after)
  committed t (err e) = (err e, sql.rollback t)

  abbrev pub finished : Result (Unit {0}) × sql.Tx → Result (Unit {0}) × sql.Db
  finished (err e, t) = (err e, sql.rollback t)
  finished (ok _, t) = committed t (sql.commit t)

  abbrev pub prepared :
      ℤ
      → String
      → List (PostOffice fl.Value)
      → sql.Tx
      → Result (Unit {0})
      → Result (Unit {0}) × sql.Db
  prepared client code offices t (err e) = (err e, sql.rollback t)
  prepared client code offices t (ok _) = finished (insert_offices client code offices t)

  abbrev pub in_transaction :
      ℤ → String → List (PostOffice fl.Value) → sql.Db → Result sql.Tx → Result (Unit {0}) × sql.Db
  in_transaction client code offices db (err e) = (err e, db)
  in_transaction client code offices db (ok t) = prepared client code offices t (sql.prepare t)

  unfoldable pub store_in_database :
      ℤ → String → List (PostOffice fl.Value) → sql.Db → Result (Unit {0}) × sql.Db
  store_in_database client code [] db = (ok tt, db)
  store_in_database client code (office ∷ offices) db =
      in_transaction client code (office ∷ offices) db (sql.begin db)

  module _ {Body : Type 0} (wire : Wire Body) (query_escape : String → String)
      (unmarshal_offices : Body → Result (List (PostOffice fl.Value))) where
    -- the offices, whether they were stored before, and the database
    abbrev pub Served : Type 0
    Served = Result (List (PostOffice fl.Value) × Bool) × sql.Db

    -- an error of the store is a warning
    abbrev pub after_fetch : ℤ → String → sql.Db → Result (List (PostOffice fl.Value)) → Served
    after_fetch client code db (err e) = (err ("failed to fetch from Canada Post: " ⧺ e), db)
    after_fetch client code db (ok []) = (ok ([], false), db)
    after_fetch client code db (ok (office ∷ offices)) =
        (ok (office ∷ offices, false), (store_in_database client code (office ∷ offices) db).1)

    abbrev pub fetched : Option CanadaPostClient → ℤ → String → sql.Db → Served
    fetched none client code db = (err "canada post client not configured", db)
    fetched (some cp) client code db =
        after_fetch client code db
          (find_post_offices wire query_escape unmarshal_offices (some cp) code)

    abbrev pub after_select :
        Option CanadaPostClient → ℤ → String → sql.Db → Result (List (PostOffice fl.Value)) → Served
    after_select cp client code db (err e) = (err e, db)
    after_select cp client code db (ok []) = fetched cp client code db
    after_select cp client code db (ok (office ∷ offices)) = (ok (office ∷ offices, true), db)

    unfoldable pub get_or_fetch_post_offices :
        Option CanadaPostClient → Bool → ℤ → String → sql.Db → Served
    get_or_fetch_post_offices cp configured client postal_code db =
        let code = normalize_canadian_postal_code postal_code in
        if not configured
        then (err "post office store not configured", db)
        else if not (is_positive client)
        then (err "client id required", db)
        else if is_empty code
        then (err "postal code required", db)
        else after_select cp client code db (sql.select_offices client code db)
