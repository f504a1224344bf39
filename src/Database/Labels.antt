-- ===== src/Database/Labels.antt =====
-- `LoadLabelRecordsPage` of database/store.go. What MySQL answers to the query is a parameter; times are texts.
pub mod Pages
use canada_post.Prelude.{
  ℕ, suc, ℤ, pos, negsuc, String, List, [], ◌∷◌, ◌++◌, Option, none, some, Bool, true, false,
  Result, ok, err, nat_eq, ltb, length, take, map, if◌then◌else◌,
}
use canada_post.Text.{◌⧺◌, blank}
use canada_post.Label.{LabelRecord}

-- a row, with a refund link that may be null; the one in `label` is not read
pub record LabelRow (V : Type 0) : Type 0 where
  pub label : LabelRecord V
  pub refund_link : Option String
  pub created_at : String

pub record ListedLabel (V : Type 0) : Type 0 where
  pub label : LabelRecord V
  pub created_at : String

-- the conditions, each with its argument; the rows come in descending order of `created_at`
pub record LabelQuery : Type 0 where
  pub clauses : List (String × String)
  pub limit : ℕ
  pub offset : ℕ

abbrev pub link_or_blank : Option String → String
link_or_blank none = ""
link_or_blank (some link) = link

unfoldable pub scan_label : {V : Type 0} → LabelRow V → ListedLabel V
scan_label row = record {
  label = record {
    id = row.label.id;
    shipment_id = row.label.shipment_id;
    tracking_number = row.label.tracking_number;
    invoice_uuid = row.label.invoice_uuid;
    rate_id = row.label.rate_id;
    carrier = row.label.carrier;
    service_code = row.label.service_code;
    service_name = row.label.service_name;
    shipping_charges_cents = row.label.shipping_charges_cents;
    delivery_date = row.label.delivery_date;
    delivery_days = row.label.delivery_days;
    refund_link = link_or_blank row.refund_link;
    weight = row.label.weight;
  };
  created_at = row.created_at;
}

abbrev date_clause : String → String → String → List (String × String)
date_clause condition date time = if blank date then [] else (condition, date ⧺ time) ∷ []

unfoldable pub label_clauses : String → String → List (String × String)
label_clauses from_date to_date =
    ("(carrier = ? OR carrier = '')", "Canada Post")
    ∷ (date_clause "created_at >= ?" from_date " 00:00:00"
        ++ date_clause "created_at <= ?" to_date " 23:59:59")

abbrev pub label_limit : ℤ → ℕ
label_limit (negsuc n) = 10
label_limit (pos n) = if nat_eq n 0 then 10 else n

abbrev pub label_offset : ℤ → ℕ
label_offset (negsuc n) = 0
label_offset (pos n) = n

unfoldable pub cut_page {ℓ} : {A : Type ℓ} → ℕ → List A → List A × Bool
cut_page limit records =
    if ltb limit (length records) then (take limit records, true) else (records, false)

abbrev pub labels_of_rows :
    {V : Type 0} → ℕ → Result (List (LabelRow V)) → Result (List (ListedLabel V) × Bool)
labels_of_rows limit (err e) = err e
labels_of_rows limit (ok rows) = ok (cut_page limit (map scan_label rows))

unfoldable pub load_label_records_page :
    {V : Type 0}
    → (LabelQuery → Result (List (LabelRow V)))
    → String
    → String
    → ℤ
    → ℤ
    → Result (List (ListedLabel V) × Bool)
load_label_records_page query from_date to_date limit offset = labels_of_rows (label_limit limit) (
    query (record {
      clauses = label_clauses from_date to_date;
      limit = suc (label_limit limit);
      offset = label_offset offset;
    }))
