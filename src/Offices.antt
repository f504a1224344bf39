-- ===== src/Offices.antt =====
-- Post offices: service/post_office_types.go, service/post_office_helpers.go and the selection lookup of
-- service/post_office_service.go.
pub mod Stored
use Prim.Native.String.{[], ◌∷◌}
use Prim.Native.Char.{code}
use canada_post.Prelude.{
  String, Option, none, some, Bool, not, ℤ, Result, ok, err, is_positive, nat_eq, if◌then◌else◌,
}
use canada_post.Text.{◌⧺◌, trim, to_upper, is_empty, code_of, has_prefix}
use canada_post.Float64.{Float64, above_zero, zero_value}

pub record PostOffice (V : Type 0) : Type 0 where
  pub office_id : String
  pub name : String
  pub location : String
  pub office_address : String
  pub city : String
  pub province : String
  pub postal_code : String
  pub latitude : V
  pub longitude : V
  pub distance : V
  pub bilingual_design : Bool

-- The answer of a query for one row.
pub data Answer {ℓ} (A : Type ℓ) : Type ℓ where
  row : A → Answer A
  no_rows : Answer A
  failed : String → Answer A

-- `strings.ReplaceAll(s, " ", "")`
unfoldable pub drop_spaces : String → String
drop_spaces [] = []
drop_spaces (c ∷ s) = let rest = drop_spaces s in if nat_eq (code c) b' ' then rest else c ∷ rest

unfoldable pub normalize_canadian_postal_code : String → String
unfolding drop_spaces trim to_upper
normalize_canadian_postal_code postal = drop_spaces (code_of postal)

-- the text before the last " [", if there is one: `strings.LastIndex` and the slice
unfoldable pub before_last_bracket : String → Option String
unfolding has_prefix
before_last_bracket [] = none
before_last_bracket (c ∷ s) = elim (before_last_bracket s) [
  | some before ↦ some (c ∷ before)
  | none ↦ if has_prefix (c ∷ s) " [" then some [] else none
]

abbrev trimmed_or : Option String → String → String
trimmed_or none s = s
trimmed_or (some before) s = trim before

unfoldable pub base_post_office_display : String → String
unfolding before_last_bracket trim
base_post_office_display selection =
    let s = trim selection in if is_empty s then "" else trimmed_or (before_last_bracket s) s

-- `FindOfficeIDByDisplayText`: the query compares the display text that MySQL makes of each stored row,
-- and MySQL decides how texts compare, so its answer is a parameter.
unfoldable pub find_office_id_by_display_text :
    Bool → (ℤ → String → Answer String) → ℤ → String → Result String
unfolding base_post_office_display trim
find_office_id_by_display_text configured query client text =
    let base = base_post_office_display text in
    if not configured
    then err "post office store not configured"
    else if not (is_positive client)
    then err "client id required"
    else if is_empty base
    then err "office selection required"
    else elim (query client base) [
      | row office_id ↦ ok (trim office_id)
      | no_rows ↦ err "office not found"
      | failed e ↦ err e
    ]

-- `resolveOfficeIDFromSelection`
unfoldable pub resolve_office_id_from_selection :
    Bool → (ℤ → String → Answer String) → ℤ → String → Result String
unfolding find_office_id_by_display_text
resolve_office_id_from_selection configured query client selection =
    if not configured
    then err "post office service not configured"
    else if not (is_positive client)
    then err "client id required"
    else find_office_id_by_display_text configured query client selection

module _ ⦃fl : Float64⦄ where
  unfoldable pub format_distance_km : fl.Value → String
  format_distance_km d = fl.format_fixed 2 (if fl.lt d zero_value then zero_value else d)

  unfoldable pub format_post_office_display : PostOffice fl.Value → String
  unfolding format_distance_km trim
  format_post_office_display office =
      let base = trim (
        trim office.location
        ⧺ " - "
        ⧺ trim office.office_address
        ⧺ " ("
        ⧺ trim office.city
        ⧺ ")") in
      if above_zero office.distance
      then base ⧺ " [" ⧺ format_distance_km office.distance ⧺ "km]"
      else base
