-- ===== src/Float64.antt =====
-- The float64 operations that the program uses, as an interface: the arithmetic of IEEE 754 and of Go's
-- `strconv` and `math` packages is not part of the program. Comparisons are Boolean functions, so a
-- value that compares with nothing, as NaN does, is a value like any other.
pub mod Sample
use canada_post.Prelude.{ℕ, String, Option, Bool, ℤ}

pub record Float64 : Type 1 where
  pub Value : Type 0
  pub le : Value → Value → Bool
  pub lt : Value → Value → Bool
  pub add : Value → Value → Value
  pub mul : Value → Value → Value
  pub div : Value → Value → Value
  -- `float64(n)` of an integer
  pub of_int : ℤ → Value
  -- the constant m / 10 ^ k
  pub decimal : ℕ → ℕ → Value
  -- `math.Round(x)` and the conversion `int64(x)`
  pub round : Value → Value
  pub to_int : Value → ℤ
  -- `strconv.ParseFloat(s, 64)`, with `none` for an error
  pub parse_float : String → Option Value
  -- `fmt.Sprintf("%.kf", x)`
  pub format_fixed : ℕ → Value → String

module _ ⦃fl : Float64⦄ where
  abbrev pub zero_value : fl.Value
  zero_value = fl.of_int (ℤ.pos 0)

  -- `x <= 0`
  abbrev pub at_most_zero : fl.Value → Bool
  at_most_zero x = fl.le x zero_value

  -- `x > 0`
  abbrev pub above_zero : fl.Value → Bool
  above_zero x = fl.lt zero_value x
