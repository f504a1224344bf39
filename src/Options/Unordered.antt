-- ===== src/Options/Unordered.antt =====
-- A float that compares with nothing, as NaN does, is not positive, yet `parseAmount` of
-- service/label_options.go accepts it: it tests `parsed <= 0`.
use canada_post.Prelude.{pos, String, false, ◌≡◌, ok, some, arith}
use canada_post.Text.{trim, is_empty}
use canada_post.Text.Laws.{trim_idem}
use canada_post.Dict.{Dict, get}
use canada_post.Float64.{Float64, zero_value, above_zero}
use canada_post.Options.Values.{cod_amount_field, parse_amount, rate_or_one, delivery_of}
use canada_post.Options.Rules.{is_foreign, validate_cod_requirements}

module _ ⦃fl : Float64⦄ where
  -- `x` is false in every comparison with a number
  pub record IsUnordered (x : fl.Value) : Type 0 where
    pub below : (y : fl.Value) → fl.le x y ≡ false
    pub above : (y : fl.Value) → fl.lt y x ≡ false

  -- The COD rule accepts an amount that is read as an unordered value, at any rate whose product with it
  -- is unordered too: neither the test for a positive amount nor the limit of 1000 CAD stops it.
  pub unordered_cod_accepted :
      (values : Dict String) (country : String) (rate x : fl.Value)
      → is_empty (trim (get values cod_amount_field)) ≡ false
      → fl.parse_float (trim (get values cod_amount_field)) ≡ some x
      → IsUnordered x
      → IsUnordered (fl.mul x (rate_or_one rate))
      → is_foreign country ≡ false
      → delivery_of values ≡ "HFP"
      → (above_zero x ≡ false) × (validate_cod_requirements values country rate ≡ ok tt)
  unfolding validate_cod_requirements parse_amount
  unordered_cod_accepted values country rate x given reads u v home pickup = (
    u.above zero_value,
    rw (trim_idem, given, reads, u.below zero_value, home, v.above (fl.of_int (pos 1000)), pickup)
        (ground arith),
  )
