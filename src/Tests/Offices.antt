-- ===== src/Tests/Offices.antt =====
-- Post offices that are kept, at concrete inputs.
use canada_post.Prelude.{
  ℤ, pos, String, List, [], ◌∷◌, some, Bool, true, false, ◌&&◌, ◌==◌, Result, ok, err, any, int_eq,
  map, take, if◌then◌else◌, ◌≡◌, refl,
}
use canada_post.Text.{trim, to_upper}
use canada_post.Float64.Sample.{Hundredths, num, sample}
use canada_post.Offices.{PostOffice, drop_spaces, normalize_canadian_postal_code}
use canada_post.Client.{CanadaPostClient, Wire}
use canada_post.Client.Offices.{trim_office, trim_slashes, read_offices, find_post_offices}
use canada_post.Offices.Stored.{
  OfficeSql, trimmed_codes, page_of, insert_offices, store_in_database, get_or_fetch_post_offices,
  get_used_postal_codes_page,
}
use canada_post.Offices.Stored.Pages.{IsPageOrError, get_used_postal_codes_page-bounds}

abbrev pub Office : Type 0
Office = PostOffice Hundredths

-- the client, the code and the office
abbrev pub Rows : Type 0
Rows = List (ℤ × String × Office)

abbrev pub matches : ℤ → String → String → ℤ × String × Office → Bool
matches client code id (c, k, office) = int_eq c client && (k == code && office.office_id == id)

unfoldable pub stored : ℤ → String → Rows → List Office
stored client code [] = []
stored client code ((c, k, office) ∷ rows) =
    let rest = stored client code rows in
    if int_eq c client && k == code then office ∷ rest else rest

abbrev pub inserted : ℤ → String → Office → Rows → Rows
inserted client code office rows =
    if any (matches client code office.office_id) rows then rows else (client, code, office) ∷ rows

-- the rows at the begin, and the rows now
abbrev pub sql : OfficeSql Hundredths
sql = record {
  Db = Rows;
  Tx = Rows × Rows;
  begin = λ db. ok (db, db);
  prepare = λ t. ok tt;
  insert = λ client code office t. (ok tt, (t.0, inserted client code office t.1));
  commit = λ t. ok t.1;
  rollback = λ t. t.0;
  select_offices = λ client code db. ok (stored client code db);
  select_each = λ client db. ok [];
  select_codes = λ client db. ok (map (λ row. row.1) db);
  select_codes_page = λ client limit offset db. ok (take limit (map (λ row. row.1) db));
  delete_offices = λ client code db. (ok tt, []);
}

abbrev pub office : String → Office
office id = record {
  office_id = id;
  name = "OTTAWA";
  location = "MAIN";
  office_address = "1 MAIN ST";
  city = "OTTAWA";
  province = "ON";
  postal_code = "K1A0B1";
  latitude = num 4542;
  longitude = num 7569;
  distance = num 120;
  bilingual_design = true;
}

-- every request is answered
abbrev wire : Wire ⦃fl = sample⦄ String
wire = record {
  marshal_rates = λ _ _. ok "";
  unmarshal_rates = λ _. ok [];
  marshal_shipment = λ _ _. ok "";
  unmarshal_shipment = λ _. err "no shipment";
  marshal_refund = λ _ email. ok email;
  unmarshal_refund = λ body. err "no ticket";
  unmarshal_messages = λ _. err "no messages";
  with_header = λ body. body;
  is_empty_body = λ _. false;
  body_text = λ body. body;
  code_text = λ _. "404";
  new_request = λ _ _. ok tt;
  send = λ request. ok (record { status_code = 200; body = ok "offices" });
}

abbrev client : CanadaPostClient
client = record { base_url = "https://cp/"; username = "u"; password = "p"; customer_number = "1" }

abbrev answer : String → Result (List Office)
answer body = ok (office "101" ∷ (office " " ∷ (office "102" ∷ [])))

abbrev served : Rows → Result (List Office × Bool) × Rows
served rows =
    get_or_fetch_post_offices ⦃fl = sample⦄ sql wire (λ s. s) answer (some client) true (pos 7)
      "k1a 0b1" rows

-- the second office has no id
fetched_first :
    (served []).1 ≡ (pos 7, "K1A0B1", office "102") ∷ ((pos 7, "K1A0B1", office "101") ∷ [])
unfolding get_or_fetch_post_offices find_post_offices read_offices trim_slashes trim_office
    store_in_database insert_offices stored trim to_upper drop_spaces normalize_canadian_postal_code
fetched_first = refl

stored_then : (served (served []).1).0 ≡ ok (office "102" ∷ (office "101" ∷ []), true)
unfolding get_or_fetch_post_offices find_post_offices read_offices trim_slashes trim_office
    store_in_database insert_offices stored trim to_upper drop_spaces normalize_canadian_postal_code
stored_then = refl

abbrev pub three : Rows
three =
    (pos 7, "K1A0B1", office "101")
    ∷ ((pos 7, "H2X1Y4", office "102") ∷ ((pos 7, "V6B1A1", office "103") ∷ []))

two_codes :
    get_used_postal_codes_page sql true (pos 7) (pos 2) (pos 0) three
    ≡ ok ("K1A0B1" ∷ ("H2X1Y4" ∷ []), true)
unfolding get_used_postal_codes_page page_of trimmed_codes trim
two_codes = refl

get_used_postal_codes_page-bounds_example :
    IsPageOrError (pos 2) (get_used_postal_codes_page sql true (pos 7) (pos 2) (pos 0) three)
get_used_postal_codes_page-bounds_example =
    get_used_postal_codes_page-bounds sql true (pos 7) (pos 2) (pos 0) three
