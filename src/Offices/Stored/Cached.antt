-- ===== src/Offices/Stored/Cached.antt =====
-- What a request for post offices leaves in the database.
use canada_post.Prelude.{ℤ, String, List, [], Option, Bool, true, false, Result, ok, err, ◌≡◌}
use canada_post.Float64.{Float64}
use canada_post.Offices.{PostOffice}
use canada_post.Client.{CanadaPostClient, Wire}
use canada_post.Client.Offices.{find_post_offices}
use canada_post.Offices.Stored.{OfficeSql, store_in_database}
use canada_post.Offices.Stored.Written.{Transactional, IsStoredOrSame}

module _ ⦃fl : Float64⦄ (sql : OfficeSql fl.Value) (mysql : Transactional sql) {Body : Type 0}
    (wire : Wire Body) (query_escape : String → String)
    (unmarshal_offices : Body → Result (List (PostOffice fl.Value))) (cp : Option CanadaPostClient)
    (client : ℤ) (code : String) (db : sql.Db) where
  -- by the answer: the rows of the database, which is left as it was; or what Canada Post answers now, with what storing them leaves; or an error, and the database is as it was
  abbrev pub IsServed : Result (List (PostOffice fl.Value) × Bool) × sql.Db → Type 0
  IsServed (err _, after) = after ≡ db
  IsServed (ok (offices, true), after) =
      (sql.select_offices client code db ≡ ok offices) × (after ≡ db)
  IsServed (ok (offices, false), after) =
      (sql.select_offices client code db ≡ ok [])
      × (find_post_offices wire query_escape unmarshal_offices cp code ≡ ok offices)
      × (after ≡ (store_in_database sql client code offices db).1)
      × IsStoredOrSame sql mysql client code db offices
          (store_in_database sql client code offices db)
