-- ===== src/SettingsPage/Values.antt =====
-- The values of a request that the settings page of protocol/http/handlers.go reads: `parseClientID`, `parsePage`, `parsePageSize`,
-- `parseWidgets`, `normalizePostalCode`, `isValidCanadianPostalCode` and the choice of the tab. `strconv.ParseInt` of base 10 and
-- 64 bits, which is `strconv.Atoi` there, is a parameter.
use Prim.Native.Nat.{◌^◌}
use Prim.Native.Char.{Char, code}
use Prim.Native.String.{[] as nil, ◌∷◌ as cons}
use canada_post.Prelude.{
  ℕ, ◌-◌, ◌*◌, ◌%◌, ◌≤◌, ℤ, pos, negsuc, String, Option, none, some, Bool, true, false, not, ◌&&◌,
  ◌||◌, ◌==◌, leb, ltb, is_positive, int_eq, if◌then◌else◌, ◌≡◌, refl, arith, Bool-cases, inl, inr,
}
use canada_post.Text.{trim, is_empty}
use canada_post.Offices.{normalize_canadian_postal_code}

abbrev id_or_one : Option ℤ → ℤ
id_or_one none = pos 1
id_or_one (some id) = if is_positive id then id else pos 1

abbrev natural_or : ℕ → ℕ → ℕ → Option ℤ → ℕ
natural_or least most other none = other
natural_or least most other (some (negsuc n)) = other
natural_or least most other (some (pos n)) = if ltb n least || ltb most n then other else n

-- a number of at least one; `most` is the largest int64
abbrev page_or_one : Option ℤ → ℕ
page_or_one none = 1
page_or_one (some (negsuc n)) = 1
page_or_one (some (pos n)) = if ltb n 1 then 1 else n

abbrev int_or_zero : Option ℤ → ℤ
int_or_zero none = pos 0
int_or_zero (some n) = n

-- the product of two int64 numbers that are not negative
abbrev wrap_int64 : ℕ → ℤ
wrap_int64 n = let m = n % 2 ^ 64 in if ltb m (2 ^ 63) then pos m else negsuc (2 ^ 64 - 1 - m)

module _ (parse_int : String → Option ℤ) where
  unfoldable pub parse_client_id : String → ℤ
  parse_client_id value =
      if is_empty (trim value) then pos 1 else id_or_one (parse_int (trim value))

  unfoldable pub parse_page : String → ℕ
  parse_page value = if is_empty (trim value) then 1 else page_or_one (parse_int (trim value))

  unfoldable pub parse_page_size : String → ℕ
  parse_page_size value =
      if is_empty (trim value) then 15 else natural_or 5 200 15 (parse_int (trim value))

  unfoldable pub parse_widgets : String → ℤ
  parse_widgets value =
      if is_empty (trim value) then pos 0 else int_or_zero (parse_int (trim value))

  -- `(page - 1) * pageSize` of int64 numbers
  unfoldable pub page_offset : String → String → ℤ
  page_offset page size = wrap_int64 ((parse_page page - 1) * parse_page_size size)

  id_or_one-positive : (o : Option ℤ) → is_positive (id_or_one o) ≡ true
  id_or_one-positive none = refl
  id_or_one-positive (some id) = elim (Bool-cases (is_positive id)) [
    | inl e ↦ rw e e
    | inr e ↦ rw e refl
  ]

  page_or_one-least : (o : Option ℤ) → 1 ≤ page_or_one o
  page_or_one-least none = omega arith
  page_or_one-least (some (negsuc n)) = omega arith
  page_or_one-least (some (pos n)) = ground arith

  natural_or-within : (o : Option ℤ) → (5 ≤ natural_or 5 200 15 o) × (natural_or 5 200 15 o ≤ 200)
  natural_or-within none = (omega arith, omega arith)
  natural_or-within (some (negsuc n)) = (omega arith, omega arith)
  natural_or-within (some (pos n)) = (ground arith, ground arith)

  -- Whatever the texts of a request are: the client's id is above zero, so the check of the settings page for a missing id never
  -- refuses a request; pages count from one; and a page has 5 to 200 rows.
  pub parse_client_id-bounds :
      (client page size : String)
      → (is_positive (parse_client_id client) ≡ true)
        × (1 ≤ parse_page page)
        × (5 ≤ parse_page_size size)
        × (parse_page_size size ≤ 200)
  unfolding parse_client_id parse_page parse_page_size
  parse_client_id-bounds client page size = (
    elim (Bool-cases (is_empty (trim client))) [
      | inl e ↦ rw e refl
      | inr e ↦ rw e (id_or_one-positive (parse_int (trim client)))
    ],
    elim (Bool-cases (is_empty (trim page))) [
      | inl e ↦ rw e (omega arith)
      | inr e ↦ rw e (page_or_one-least (parse_int (trim page)))
    ],
    elim (Bool-cases (is_empty (trim size))) [
      | inl e ↦ rw e (omega arith)
      | inr e ↦ rw e (natural_or-within (parse_int (trim size))).0
    ],
    elim (Bool-cases (is_empty (trim size))) [
      | inl e ↦ rw e (omega arith)
      | inr e ↦ rw e (natural_or-within (parse_int (trim size))).1
    ],
  )

unfoldable pub normalize_postal_code : String → String
normalize_postal_code value = normalize_canadian_postal_code value

abbrev is_upper_letter : Char → Bool
is_upper_letter c = leb b'A' (code c) && leb (code c) b'Z'

abbrev is_decimal_digit : Char → Bool
is_decimal_digit c = leb b'0' (code c) && leb (code c) b'9'

-- `^[A-Z]\d[A-Z]\d[A-Z]\d$`, where `$` is the end of the text
unfoldable pub matches_postal_code : String → Bool
matches_postal_code (cons a (cons b (cons c (cons d (cons e (cons f nil)))))) =
    is_upper_letter a
    && is_decimal_digit b
    && is_upper_letter c
    && is_decimal_digit d
    && is_upper_letter e
    && is_decimal_digit f
matches_postal_code _ = false

unfoldable pub is_valid_canadian_postal_code : String → Bool
is_valid_canadian_postal_code value = matches_postal_code (normalize_postal_code value)

abbrev tab_if : Bool → String → String → String
tab_if b tab active = if is_empty active && b then tab else active

-- the tab, from the parameters of the query
unfoldable pub active_tab : (String → String) → ℤ → String
active_tab query widgets =
    let dated = not (is_empty (trim (query "from"))) || not (is_empty (trim (query "to"))) in
    let saved =
      query "saved_postoffice" == "1"
      || query "deleted_postoffice" == "1"
      || query "saved_postoffice_default" == "1" in
    let asked = tab_if saved "postoffice" (
      tab_if (not (is_empty (query "postal_page"))) "postoffice"
        (tab_if dated "labels" (trim (query "tab")))) in
    let chosen = if int_eq widgets (pos 2) then "postoffice" else asked in
    if is_empty chosen then "settings" else chosen
