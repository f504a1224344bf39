-- ===== src/Prelude/Int.antt =====
-- Go's int64 values as integers.
use Prim.Native.Nat.{ℕ, zero, suc}
use mathlib.Core.Bool.{Bool, true, false}
use mathlib.Core.Path.{◌≡◌, refl}
use canada_post.Prelude.Tests.{nat_eq, nat_eq_iff}

-- `negsuc n` is -(n + 1).
pub data ℤ : Type 0 where
  pos : ℕ → ℤ
  negsuc : ℕ → ℤ

-- `x > 0`
abbrev pub is_positive : ℤ → Bool
is_positive (pos zero) = false
is_positive (pos (suc n)) = true
is_positive (negsuc n) = false

abbrev pub int_eq : ℤ → ℤ → Bool
int_eq (pos m) (pos n) = nat_eq m n
int_eq (pos m) (negsuc n) = false
int_eq (negsuc m) (pos n) = false
int_eq (negsuc m) (negsuc n) = nat_eq m n

pub int_eq-same : (x : ℤ) → int_eq x x ≡ true
int_eq-same (pos n) = (nat_eq_iff n n).1 refl
int_eq-same (negsuc n) = (nat_eq_iff n n).1 refl
