-- ===== src/Offices/Stored/Pages.antt =====
-- The pages of the postal codes that were used.
use canada_post.Prelude.{
  ℕ, ℤ, pos, negsuc, zero, suc, ◌≤◌, String, List, [], ◌∷◌, Bool, true, false, Result, ok, err,
  is_positive, ltb, length, take, ◌≡◌, inl, inr, refl, arith, All, Bool-cases,
}
use canada_post.Text.{trim, is_empty}
use canada_post.Offices.Stored.{
  OfficeSql, trimmed_codes, page_limit, page_of, page_of_rows, get_used_postal_codes_page,
}

page_limit-bounds : (limit : ℤ) → (1 ≤ page_limit limit) × (page_limit limit ≤ 200)
page_limit-bounds (negsuc n) = (omega arith, omega arith)
page_limit-bounds (pos n) = (ground arith, ground arith)

abbrev IsFilled : String → Type 0
IsFilled code = is_empty code ≡ false

trimmed_codes-IsFilled : (rows : List String) → All IsFilled (trimmed_codes rows)
unfolding trimmed_codes
trimmed_codes-IsFilled [] = tt
trimmed_codes-IsFilled (row ∷ rows) = elim (Bool-cases (is_empty (trim row))) [
  | inl e ↦ rw (e, trimmed_codes) (trimmed_codes-IsFilled rows)
  | inr e ↦ rw (e, trimmed_codes) (e, trimmed_codes-IsFilled rows)
]

take-IsFilled : (n : ℕ) (codes : List String) → All IsFilled codes → All IsFilled (take n codes)
take-IsFilled zero codes h = tt
take-IsFilled (suc n) [] h = tt
take-IsFilled (suc n) (code ∷ codes) (f, h) = (f, take-IsFilled n codes h)

length-take : {A : Type 0} (n : ℕ) (xs : List A) → n ≤ length xs → length (take n xs) ≡ n
length-take zero xs h = refl
length-take (suc n) [] h = omega arith
length-take (suc n) (x ∷ xs) h = omega (arith, length-take n xs (omega arith))

-- a page, of a limit: it is full if there is a next one, and no longer than the limit if there is none
abbrev IsPage : ℕ → List String × Bool → Type 0
IsPage limit (codes, true) = All IsFilled codes × (length codes ≡ limit)
IsPage limit (codes, false) = All IsFilled codes × (length codes ≤ limit)

page_of-IsPage :
    (limit : ℕ) (codes : List String) → All IsFilled codes → IsPage limit (page_of limit codes)
unfolding page_of
page_of-IsPage limit codes filled = elim (Bool-cases (ltb limit (length codes))) [
  | inl e ↦ rw e (take-IsFilled limit codes filled, length-take limit codes (ground arith))
  | inr e ↦ rw e (filled, ground arith)
]

abbrev pub IsPageOrError : ℤ → Result (List String × Bool) → Type 0
IsPageOrError limit (err _) = Unit
IsPageOrError limit (ok page) =
    IsPage (page_limit limit) page × (1 ≤ page_limit limit) × (page_limit limit ≤ 200)

page_of_rows-IsPage :
    (limit : ℤ) (rows : Result (List String))
    → IsPageOrError limit (page_of_rows (page_limit limit) rows)
page_of_rows-IsPage limit (err e) = tt
page_of_rows-IsPage limit (ok rows) =
    let (least, most) = page_limit-bounds limit in
    let page =
      page_of-IsPage (page_limit limit) (trimmed_codes rows) (trimmed_codes-IsFilled rows) in
    (page, least, most)

-- Whatever limit and offset are asked for and whatever rows the query returns, a page of `GetUsedPostalCodesPage` has no blank code;
-- its limit is between 1 and 200; it has exactly that many codes if it says that there is a next page, and no more if it does not.
pub get_used_postal_codes_page-bounds :
    {V : Type 0} (sql : OfficeSql V) (configured : Bool) (client limit offset : ℤ) (db : sql.Db)
    → IsPageOrError limit (get_used_postal_codes_page sql configured client limit offset db)
unfolding get_used_postal_codes_page
get_used_postal_codes_page-bounds sql configured client limit offset db =
    elim (Bool-cases configured) [
      | inr e ↦ rw e tt
      | inl e ↦ rw e (elim (Bool-cases (is_positive client)) [
        | inr f ↦ rw f tt
        | inl f ↦ rw f (page_of_rows-IsPage limit _)
      ])
    ]
