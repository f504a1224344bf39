-- ===== src/Float64/Sample.antt =====
-- A small number type for concrete runs: hundredths of a natural number, and a value that compares with
-- nothing. It reads decimal digits and "NaN".
use Prim.Native.Char.{code}
use Prim.Native.String.{[], ◌∷◌}
use canada_post.Prelude.{
  ℕ, ◌+◌, ◌-◌, ◌*◌, ◌/◌, String, Option, none, some, Bool, false, ℤ, pos, negsuc, ltb, leb,
  if◌then◌else◌, ◌==◌, ◌&&◌,
}
use canada_post.Float64.{Float64}

pub data Hundredths : Type 0 where
  nan : Hundredths
  num : ℕ → Hundredths

abbrev le : Hundredths → Hundredths → Bool
le (num a) (num b) = leb a b
le _ _ = false

abbrev lt : Hundredths → Hundredths → Bool
lt (num a) (num b) = ltb a b
lt _ _ = false

abbrev lift : (ℕ → ℕ → ℕ) → Hundredths → Hundredths → Hundredths
lift f (num a) (num b) = num (f a b)
lift f _ _ = nan

abbrev of_int : ℤ → Hundredths
of_int (pos n) = num (n * 100)
of_int (negsuc n) = nan

abbrev round : Hundredths → Hundredths
round nan = nan
round (num n) = num ((n + 50) / 100 * 100)

abbrev to_int : Hundredths → ℤ
to_int nan = pos 0
to_int (num n) = pos (n / 100)

abbrev digits : ℕ → String → Option ℕ
digits acc [] = some acc
digits acc (c ∷ s) =
    let n = code c in
    let rest = digits (acc * 10 + (n - b'0')) s in if leb b'0' n && leb n b'9' then rest else none

abbrev read : Option ℕ → Option Hundredths
read none = none
read (some n) = some (num (n * 100))

abbrev pub sample : Float64
sample = record {
  Value = Hundredths;
  le = le;
  lt = lt;
  add = lift (λ a b. a + b);
  mul = lift (λ a b. a * b / 100);
  div = lift (λ a b. a * 100 / b);
  of_int = of_int;
  decimal = λ m k. num (m * 100);
  round = round;
  to_int = to_int;
  parse_float = λ s. if s == "NaN" then some nan else read (digits 0 s);
  format_fixed = λ k x. "1";
}
