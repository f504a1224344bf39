-- ===== src/Redis/Decimal.antt =====
-- Go's `%d` of a length, and `strconv.Atoi` and `strconv.ParseInt(line, 10, 64)`, on bytes: an
-- optional sign, decimal digits, and the range of int64.
use canada_post.Prelude.{
  ℕ, zero, suc, ◌+◌, ◌-◌, ◌*◌, ◌/◌, ◌%◌, ◌≤◌, ◌<◌, ℤ, pos, negsuc, List, [], ◌∷◌, Option, none,
  some, Bool, true, ◌&&◌, leb, ltb, nat_eq, if◌then◌else◌, ◌≡◌, arith, All, Bool-cases, ltb→lt, inl,
  inr, length,
}
use Prim.Native.Nat.{◌^◌}

abbrev pub Bytes : Type 0
Bytes = List ℕ

-- the last digits of `n` before `out`
unfoldable pub emit_digits : ℕ → ℕ → Bytes → Bytes
emit_digits zero n out = out
emit_digits (suc fuel) n out =
    let more = emit_digits fuel (n / 10) ((b'0' + n % 10) ∷ out) in
    if ltb n 10 then (b'0' + n) ∷ out else more

-- a number has fewer digits than itself plus one
unfoldable pub decimal : ℕ → Bytes
decimal n = emit_digits (suc n) n []

abbrev pub is_digit : ℕ → Bool
is_digit c = leb b'0' c && leb c b'9'

unfoldable pub scan_digits : Bytes → ℕ → Option ℕ
scan_digits [] n = some n
scan_digits (c ∷ s) n = if is_digit c then scan_digits s (n * 10 + (c - b'0')) else none

abbrev bounded : ℕ → Option ℕ → Option ℕ
bounded most none = none
bounded most (some n) = if leb n most then some n else none

abbrev unsigned : Bytes → ℕ → Option ℕ
unsigned [] most = none
unsigned (c ∷ s) most = bounded most (scan_digits (c ∷ s) 0)

abbrev negated : Option ℕ → Option ℤ
negated none = none
negated (some zero) = some (pos 0)
negated (some (suc n)) = some (negsuc n)

abbrev plain : Option ℕ → Option ℤ
plain none = none
plain (some n) = some (pos n)

unfoldable pub parse_int : Bytes → Option ℤ
parse_int [] = none
parse_int (c ∷ s) =
    if nat_eq c b'-'
    then negated (unsigned s (2 ^ 63))
    else if nat_eq c b'+'
    then plain (unsigned s (2 ^ 63 - 1))
    else plain (unsigned (c ∷ s) (2 ^ 63 - 1))

abbrev pub IsDigit : ℕ → Type 0
IsDigit c = is_digit c ≡ true

digit_code : (d : ℕ) → d < 10 → is_digit (b'0' + d) ≡ true
digit_code d h = ground arith

emit_digits-digits :
    (fuel n : ℕ) (out : Bytes) → All IsDigit out → All IsDigit (emit_digits fuel n out)
unfolding emit_digits
emit_digits-digits zero n out h = h
emit_digits-digits (suc fuel) n out h = elim (Bool-cases (ltb n 10)) [
  | inl e ↦ rw e (digit_code n (ltb→lt n 10 e), h)
  | inr e ↦ rw e (emit_digits-digits fuel (n / 10) _ (digit_code (n % 10) (omega arith), h))
]

-- The print of a number has digits only.
pub decimal-digits : (n : ℕ) → All IsDigit (decimal n)
unfolding decimal
decimal-digits n = emit_digits-digits (suc n) n [] tt

scan_digits-emit_digits :
    (fuel n : ℕ) (out : Bytes)
    → n < fuel
    → scan_digits (emit_digits fuel n out) 0 ≡ scan_digits out n
unfolding emit_digits scan_digits
scan_digits-emit_digits zero n out h = absurd (omega arith)
scan_digits-emit_digits (suc fuel) n out h =
    ground (arith, scan_digits-emit_digits fuel (n / 10) ((b'0' + n % 10) ∷ out))

pub scan_digits-decimal : (n : ℕ) → scan_digits (decimal n) 0 ≡ some n
unfolding decimal scan_digits
scan_digits-decimal n = scan_digits-emit_digits (suc n) n [] (omega arith)

length-emit_digits : (fuel n : ℕ) (out : Bytes) → length out ≤ length (emit_digits fuel n out)
unfolding emit_digits
length-emit_digits zero n out = omega arith
length-emit_digits (suc fuel) n out =
    ground (arith, length-emit_digits fuel (n / 10) ((b'0' + n % 10) ∷ out))

pub decimal-some : (n : ℕ) → 1 ≤ length (decimal n)
unfolding decimal emit_digits
decimal-some n = ground (arith, length-emit_digits n (n / 10) ((b'0' + n % 10) ∷ []))

parse_int-scan_digits :
    (s : Bytes) (n : ℕ)
    → All IsDigit s
    → 1 ≤ length s
    → n < 2 ^ 63
    → scan_digits s 0 ≡ some n
    → parse_int s ≡ some (pos n)
unfolding parse_int
parse_int-scan_digits [] n h some_ fits e = absurd (omega arith)
parse_int-scan_digits (c ∷ s) n (d, h) some_ fits e = rw e (ground arith)

-- Every length below 2^63 is read back from its print.
pub parse_int-decimal : (n : ℕ) → n < 2 ^ 63 → parse_int (decimal n) ≡ some (pos n)
parse_int-decimal n fits =
    parse_int-scan_digits (decimal n) n (decimal-digits n) (decimal-some n) fits
      (scan_digits-decimal n)
