-- ===== src/Currency.antt =====
-- Currencies and countries: `normalizeCurrencyCode`, `resolveRequestCurrency`, `resolveSnapshotCurrency`,
-- the conversions, `resolveDestinationCountry`, `customsNeedsConversion`, `conversionFromCAD`,
-- `formatRate` and `normalizeDecimal` of service/shipping_service.go, with `insuranceAmountCAD` and
-- `buildSnapshotOptions` of service/label_options.go.
use Prim.Native.Char.{code}
use Prim.Native.String.{[] as nil, ◌∷◌ as cons}
use canada_post.Prelude.{
  ℤ, pos, String, List, [], ◌∷◌, ◌++◌, Option, none, some, Bool, false, not, ◌&&◌, ◌||◌, ◌==◌,
  if◌then◌else◌, is_positive, leb, nat_eq,
}
use canada_post.Text.{trim, to_upper, is_empty, blank, code_of}
use canada_post.Float64.{Float64, zero_value, at_most_zero, above_zero}
use canada_post.Options.Values.{parse_amount}
use canada_post.Options.Build.{ShipmentOption, coded}
use canada_post.Snapshot.{RateSnapshot, CustomsSnapshot}
use canada_post.Snapshot.Customs.{Money, CustomItem, money_currency}

-- the first code that is not empty
abbrev pub first_code : List String → String
first_code [] = "CAD"
first_code (c ∷ cs) = let rest = first_code cs in if is_empty c then rest else c

-- `labels.ParcelItem`
pub record ParcelItem : Type 0 where
  pub price : Option Money
  pub total_price : Option Money

-- The money of a `ShipRequest`, as far as `resolveRequestCurrency` reads it.
pub record RequestMoney (V : Type 0) : Type 0 where
  pub parcel_insurance : Option Money
  pub parcel_items : List (Option ParcelItem)
  pub insurance : Option Money
  pub customs_items : List (Option (CustomItem V))

-- a nil message and a blank code are both passed over
abbrev money_code : Option Money → String
money_code m = code_of (money_currency m)

unfoldable pub parcel_item_codes : List (Option ParcelItem) → List String
parcel_item_codes [] = []
parcel_item_codes (none ∷ items) = parcel_item_codes items
parcel_item_codes (some item ∷ items) =
    money_code item.price ∷ (money_code item.total_price ∷ parcel_item_codes items)

unfoldable pub customs_item_codes : {V : Type 0} → List (Option (CustomItem V)) → List String
customs_item_codes [] = []
customs_item_codes (none ∷ items) = customs_item_codes items
customs_item_codes (some item ∷ items) = money_code item.total_value ∷ customs_item_codes items

-- the codes in the order in which the function looks at them
unfoldable pub request_codes : {V : Type 0} → RequestMoney V → List String
request_codes r =
    money_code r.parcel_insurance
    ∷ (parcel_item_codes r.parcel_items
        ++ (money_code r.insurance ∷ customs_item_codes r.customs_items))

abbrev head_or_empty : List String → String
head_or_empty [] = ""
head_or_empty (v ∷ _) = v

-- `resolveRequestCurrency`: the "x-currency-code" values of the metadata, and the ship request
unfoldable pub resolve_request_currency :
    {V : Type 0} → List String → Option (RequestMoney V) → String
resolve_request_currency metadata none = first_code (code_of (head_or_empty metadata) ∷ [])
resolve_request_currency metadata (some r) =
    first_code (code_of (head_or_empty metadata) ∷ request_codes r)

module _ ⦃fl : Float64⦄ where
  unfoldable pub customs_currency : Option (CustomsSnapshot fl.Value) → String
  customs_currency none = ""
  customs_currency (some info) = info.currency

  unfoldable pub resolve_snapshot_currency : RateSnapshot fl.Value → String
  resolve_snapshot_currency s = first_code (
      code_of (customs_currency s.customs_info)
      ∷ (code_of s.currency_code ∷ (code_of s.insurance.currency_code ∷ [])))

  unfoldable pub convert_cad_to_currency_cents : ℤ → fl.Value → ℤ
  convert_cad_to_currency_cents cents rate =
      if at_most_zero rate then cents else fl.to_int (fl.round (fl.div (fl.of_int cents) rate))

  unfoldable pub convert_currency_to_cad_cents : ℤ → fl.Value → ℤ
  convert_currency_to_cad_cents cents rate =
      if at_most_zero rate then cents else fl.to_int (fl.round (fl.mul (fl.of_int cents) rate))

  unfoldable pub resolve_destination_country : RateSnapshot fl.Value → String
  resolve_destination_country s =
      let code = trim s.customer.country_code in
      let country = trim s.customer.country in
      let dest = trim s.destination.country in
      if not (is_empty code)
      then to_upper code
      else if not (is_empty country)
      then to_upper country
      else if not (is_empty dest)
      then to_upper dest
      else ""

  unfoldable pub customs_needs_conversion : RateSnapshot fl.Value → Bool
  customs_needs_conversion s = elim s.customs_info [
    | none ↦ false
    | some info ↦
        let own = code_of info.currency in
        let currency = if is_empty own then resolve_snapshot_currency s else own in
        not (is_empty currency) && not (currency == "CAD")
  ]

-- the runes that `normalizeDecimal` keeps
unfoldable pub keep_decimal : Bool → String → String
keep_decimal dot_seen nil = ""
keep_decimal dot_seen (cons c s) =
    let n = code c in
    let digit = leb b'0' n && leb n b'9' in
    let dot = nat_eq n b'.' && not dot_seen in
    let rest = keep_decimal (dot_seen || dot) s in if digit || dot then cons c rest else rest

unfoldable pub normalize_decimal : String → String
normalize_decimal value =
    let clean = trim (keep_decimal false (trim value)) in
    if is_empty clean || clean == "." then "" else clean

-- `strings.TrimRight(s, c)` for one ASCII character
unfoldable pub trim_right_char : Prim.Native.Nat.ℕ → String → String
trim_right_char c nil = ""
trim_right_char c (cons d s) =
    let rest = trim_right_char c s in if is_empty rest && nat_eq (code d) c then "" else cons d rest

module _ ⦃fl : Float64⦄ where
  unfoldable pub format_rate : fl.Value → String
  format_rate value =
      if at_most_zero value
      then ""
      else trim_right_char b'.' (trim_right_char b'0' (fl.format_fixed 6 value))

  unfoldable pub conversion_from_cad : RateSnapshot fl.Value → String
  conversion_from_cad s =
      let decimal = normalize_decimal s.insurance.decimal in
      if not (customs_needs_conversion s)
      then ""
      else if above_zero s.rate_to_cad && not (code_of s.currency_code == "CAD")
      then format_rate (fl.div (fl.of_int (pos 1)) s.rate_to_cad)
      else if not (is_empty decimal)
      then decimal
      else if is_positive s.insurance.amount
      then fl.format_fixed 2 (fl.div (fl.of_int s.insurance.amount) (fl.of_int (pos 100)))
      else ""

  unfoldable pub insurance_amount_cad : RateSnapshot fl.Value → fl.Value
  insurance_amount_cad s =
      let rate = if at_most_zero s.rate_to_cad then fl.of_int (pos 1) else s.rate_to_cad in
      let (amount, amount_ok) = parse_amount s.insurance.decimal in
      if is_positive s.insurance.amount
      then fl.div (fl.of_int (convert_currency_to_cad_cents s.insurance.amount rate))
          (fl.of_int (pos 100))
      else if not (blank s.insurance.decimal) && amount_ok
      then fl.mul amount rate
      else zero_value

  unfoldable pub build_snapshot_options : RateSnapshot fl.Value → List (ShipmentOption fl.Value)
  build_snapshot_options s =
      let signature = code_of s.signature in
      let amount = insurance_amount_cad s in
      (if not (is_empty signature) && not (signature == "NO_SIGNATURE")
        then coded "SO" ∷ []
        else [])
      ++ (if above_zero amount then record (coded "COV") { option_amount = amount } ∷ [] else [])
