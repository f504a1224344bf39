-- ===== src/Client/Offices.antt =====
-- `FindPostOffices` of service/canada_post_client.go. `url.QueryEscape` is a parameter.
use Prim.Native.String.{[] as nil, ◌∷◌ as cons}
use Prim.Native.Char.{code}
use canada_post.Prelude.{
  String, List, [], ◌∷◌, Option, none, not, ◌&&◌, Result, ok, refuse, ◌>>=◌, ◌>>◌, nat_eq,
  if◌then◌else◌, map,
}
use canada_post.Text.{◌⧺◌, trim, is_empty}
use canada_post.Float64.{Float64}
use canada_post.Offices.{PostOffice, normalize_canadian_postal_code}
use canada_post.Client.{CanadaPostClient, HttpReply, Wire, labelled, there}

-- `strings.TrimRight(s, "/")`
unfoldable pub trim_slashes : String → String
trim_slashes nil = ""
trim_slashes (cons c s) =
    let rest = trim_slashes s in if nat_eq (code c) b'/' && is_empty rest then "" else cons c rest

unfoldable pub trim_office : {V : Type 0} → PostOffice V → PostOffice V
trim_office po = record {
  office_id = trim po.office_id;
  name = trim po.name;
  location = trim po.location;
  office_address = trim po.office_address;
  city = trim po.city;
  province = trim po.province;
  postal_code = trim po.postal_code;
  latitude = po.latitude;
  longitude = po.longitude;
  distance = po.distance;
  bilingual_design = po.bilingual_design;
}

module _ ⦃fl : Float64⦄ {Body : Type 0} (wire : Wire Body) (query_escape : String → String)
    (unmarshal_offices : Body → Result (List (PostOffice fl.Value))) where
  unfoldable pub read_offices : HttpReply Body → Result (List (PostOffice fl.Value))
  read_offices reply = do
    body ← labelled "failed to read response: " reply.body
    refuse (not (nat_eq reply.status_code 200))
        ("Canada Post API error " ⧺ wire.code_text reply.status_code ⧺ ": " ⧺ wire.body_text body)
    offices ← labelled "failed to parse XML: " (unmarshal_offices body)
    ok (map trim_office offices)

  abbrev offices_url : CanadaPostClient → String → String
  offices_url c code =
      trim_slashes (trim c.base_url) ⧺ "/rs/postoffice?d2po=true&postalCode=" ⧺ query_escape code

  unfoldable pub find_post_offices :
      Option CanadaPostClient → String → Result (List (PostOffice fl.Value))
  find_post_offices client postal_code = do
    c ← there client
    let code = normalize_canadian_postal_code postal_code
    refuse (is_empty code) "postal code is required"
    labelled "failed to create request: " (wire.new_request "GET" (offices_url c code))
    reply ← labelled "failed to call Canada Post: " (
        wire.send (record {
          method = "GET";
          url = offices_url c code;
          headers =
              ("Accept", "application/vnd.cpc.postoffice+xml")
              ∷ (("Accept-Language", "en-CA") ∷ []);
          username = c.username;
          password = c.password;
          body = none;
        }))
    read_offices reply
