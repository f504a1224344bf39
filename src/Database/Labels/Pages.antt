-- ===== src/Database/Labels/Pages.antt =====
-- The pages of label records, one after the other.
use canada_post.Prelude.{
  ℕ, zero, suc, ◌*◌, ◌≤◌, pos, String, List, [], ◌++◌, Bool, Result, ok, err, take, drop, map, ◌≡◌,
}
use canada_post.Database.Labels.{
  LabelRow, ListedLabel, LabelQuery, scan_label, label_clauses, load_label_records_page,
}

module _ {V : Type 0} (query : LabelQuery → Result (List (LabelRow V))) (from_date to_date : String)
    (size : ℕ) where
  -- the page of this number, counted from zero
  abbrev pub load_page : ℕ → Result (List (ListedLabel V) × Bool)
  load_page k = load_label_records_page query from_date to_date (pos size) (pos (k * size))

  abbrev shown : Result (List (ListedLabel V) × Bool) → List (ListedLabel V)
  shown (err e) = []
  shown (ok (labels, more)) = labels

  -- the labels of the pages before this one
  abbrev pub pages_before : ℕ → List (ListedLabel V)
  pages_before zero = []
  pages_before (suc k) = pages_before k ++ shown (load_page k)

  module _ (rows : List (LabelRow V)) (sized : 1 ≤ size)
      (answers : (limit offset : ℕ)
        → query
            (record { clauses = label_clauses from_date to_date; limit = limit; offset = offset })
          ≡ ok (take limit (drop offset rows))) where
    abbrev listed : List (ListedLabel V)
    listed = map scan_label rows
