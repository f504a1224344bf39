-- ===== src/Tests/Services.antt =====
-- Redis commands, session tokens and label requests at concrete inputs.

use canada_post.Prelude.{
  Option, Result, true, ◌↔◌, is_positive, if◌then◌else◌, any, pos, String, List, [], ◌∷◌, ◌++◌,
  none, some, false, not, ◌&&◌, ◌≡◌, refl, ok, ltb, int_eq, arith, ◌+◌,
}
use canada_post.Text.{blank, contains}
use canada_post.Float64.Sample.{Hundredths, num, sample}
use canada_post.Offices.{no_rows}
use canada_post.Redis.{Reply, write_command, read_reply, bulk_string, bulk_strings}
use canada_post.Redis.Decimal.{Bytes, decimal, emit_digits}
use canada_post.Redis.RoundTrip.{bulks, read_reply-write_command}
use canada_post.Sessions.{
  Tokens, create_session_token, consume_session_token, validate_session_token,
}
use canada_post.Sessions.Once.{
  Use, after_all, consume_session_token-once, consume_session_token-create,
}
use canada_post.Label.{ShipmentResponse, LabelRequest, World, is_valid_label_id}
use canada_post.Label.Handler.{prepare, create_label}
use canada_post.Label.Handler.Effects.{
  IsHonest, is_issued, purchases, create_label-IsHonest, create_label-bad_label_id,
}
use canada_post.Uninstall.{Attempt, Response, build_uninstall_auth_attempts, uninstall_plugin}
use canada_post.Uninstall.Accepted.{is_accepted, uninstall_plugin_iff}
use canada_post.Tests.Samples.{snapshot}

-- GET and a key with a line break
abbrev get_args : List Bytes
get_args = (71 ∷ (69 ∷ (84 ∷ []))) ∷ ((114 ∷ (13 ∷ (10 ∷ (49 ∷ [])))) ∷ [])

-- "*2\r\n$3\r\nGET\r\n$4\r\nr\r\n1\r\n"
abbrev get_bytes : Bytes
get_bytes =
    42
    ∷ (50
        ∷ (13
            ∷ (10
                ∷ (36
                    ∷ (51
                        ∷ (13
                            ∷ (10
                                ∷ (71
                                    ∷ (69
                                        ∷ (84
                                            ∷ (13
                                                ∷ (10
                                                    ∷ (36
                                                        ∷ (52
                                                            ∷ (13
                                                            ∷ (10
                                                            ∷ (114
                                                            ∷ (13
                                                            ∷ (10
                                                            ∷ (49
                                                            ∷ (13 ∷ (10 ∷ []))))))))))))))))))))))

written : write_command get_args ≡ ok get_bytes
unfolding write_command bulk_strings bulk_string decimal emit_digits
written = refl

read_reply-write_command_example :
    read_reply (get_bytes ++ (43 ∷ [])) ≡ ok (Reply.array (bulks get_args), 43 ∷ [])
read_reply-write_command_example =
    read_reply-write_command get_args (43 ∷ []) get_bytes (omega arith)
      (omega arith, (omega arith, tt)) written

abbrev tokens : Tokens
tokens = ("abc", record { client_id = pos 7; expires = 100; used = false }) ∷ []

abbrev uses : List Use
uses = Use.create (pos 7) "def" 20 50 ∷ (Use.validate (pos 7) "abc" 30 ∷ [])

consume_session_token-once_example :
    ((consume_session_token
        (pos 7)
        "abc"
        40
        (after_all uses (consume_session_token (pos 7) "abc" 10 tokens).0)).1
      ≡ false)
    × ((validate_session_token
          (pos 7)
          "abc"
          40
          (after_all uses (consume_session_token (pos 7) "abc" 10 tokens).0)).1
        ≡ false)
consume_session_token-once_example =
    consume_session_token-once (pos 7) (pos 7) "abc" 10 40 tokens uses (refl, (tt, tt))

consume_session_token-create_example :
    (consume_session_token (pos 7) "xyz" 60 (create_session_token (pos 7) "xyz" 20 50 tokens)).1
    ≡ (not (ltb (20 + 50) 60) && int_eq (pos 7) (pos 7))
consume_session_token-create_example =
    consume_session_token-create (pos 7) (pos 7) "xyz" 20 50 60 tokens

abbrev shipment : ShipmentResponse
shipment = record {
  shipment_id = "s1";
  tracking_pin = "t1";
  links = record { rel = "label"; href = "https://label" } ∷ [];
}

abbrev world : World ⦃fl = sample⦄
world = record {
  Pdf = Bytes;
  load_snapshot = some (λ id. ok snapshot);
  load_currency_rate = some (λ client currency. ok (some (num 100)));
  has_offices = false;
  find_office = λ client display. no_rows;
  create_shipment = some (λ request. ok shipment);
  get_artifact = λ url. ok (37 ∷ []);
  write_file = λ folder file pdf. ok tt;
  rate_metas = [];
  days_until = λ date. 3;
  storage_path = "";
  generated_id = "0123";
}

abbrev request : String → LabelRequest Hundredths
request id = record {
  shipping_rate_id = "r1";
  label_id = id;
  invoice_uuid = "inv-1";
  customs_info = none;
  money = record {
    parcel_insurance = none;
    parcel_items = [];
    insurance = none;
    customs_items = [];
  };
}

create_label-IsHonest_example :
    IsHonest ⦃fl = sample⦄ (create_label ⦃fl = sample⦄ world [] (pos 7) [] (some (request "l1")))
create_label-IsHonest_example =
    create_label-IsHonest ⦃fl = sample⦄ world [] (pos 7) [] (some (request "l1"))

create_label-bad_label_id_example :
    (is_issued (create_label ⦃fl = sample⦄ world [] (pos 7) [] (some (request "../l1"))).0 ≡ false)
    × ((create_label ⦃fl = sample⦄ world [] (pos 7) [] (some (request "../l1"))).1
        ≡ purchases ⦃fl = sample⦄ (prepare ⦃fl = sample⦄ world [] (pos 7) [] (request "../l1")))
unfolding is_valid_label_id contains
create_label-bad_label_id_example =
    create_label-bad_label_id ⦃fl = sample⦄ world [] (pos 7) [] (request "../l1") refl

-- a service that refuses the forced attempts and accepts the others
abbrev plugins : Attempt → Result (Option Response)
plugins a =
    if a.force_auth
    then ok none
    else ok (some (record { success = true; failure = false; code = "200"; message = "" }))

abbrev reached : Result (Unit {0})
reached = ok tt

uninstall_plugin_iff_example :
    (uninstall_plugin plugins reached "plugins:50051" (pos 7) "Bearer abc" "canada-post" ≡ ok tt)
    ↔ ((blank "plugins:50051" ≡ false)
        × (is_positive (pos 7) ≡ true)
        × (blank "Bearer abc" ≡ false)
        × (blank "canada-post" ≡ false)
        × (reached ≡ ok tt)
        × (any (λ a. is_accepted (plugins a)) (build_uninstall_auth_attempts "Bearer abc") ≡ true))
uninstall_plugin_iff_example =
    uninstall_plugin_iff plugins reached "plugins:50051" (pos 7) "Bearer abc" "canada-post"
