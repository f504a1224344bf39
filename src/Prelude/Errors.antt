-- ===== src/Prelude/Errors.antt =====
-- Go's `(value, error)` results: the error is its message.
use mathlib.Core.Path.{◌≡◌, refl}
use mathlib.Core.Logic.{◌⊎◌, ◌↔◌, inl, inr}
use mathlib.Core.Bool.{Bool, true, false, not}
use Prim.Native.String.{String}

pub data Result {ℓ} (Value : Type ℓ) : Type ℓ where
  err : String → Result Value
  ok : Value → Result Value

-- `if bad { return fmt.Errorf(message) }`
abbrev pub refuse : Bool → String → Result (Unit {0})
refuse false message = ok tt
refuse true message = err message

pub refuse-ok : (bad : Bool) (message : String) → refuse bad message ≡ ok tt → bad ≡ false
refuse-ok false message h = refl
refuse-ok true message h = absurd (cc h)

pub refuse-not-ok :
    (good : Bool) (message : String) → refuse (not good) message ≡ ok tt → good ≡ true
refuse-not-ok true message h = refl
refuse-not-ok false message h = absurd (cc h)

-- the call after `if err != nil { return err }`
module _ {ℓ} {Next : Type ℓ} where
  infixl 5 ◌>>=◌ ◌>>◌
  abbrev pub ◌>>=◌ {κ} : {Value : Type κ} → Result Value → (Value → Result Next) → Result Next
  err message >>= next = err message
  ok value >>= next = next value

  abbrev pub ◌>>◌ : Result (Unit {0}) → Result Next → Result Next
  check >> next = check >>= λ _. next

  -- A chain succeeds exactly if both its parts do.
  pub >>-eq-ok :
      (check : Result (Unit {0})) (next : Result Next) (value : Next)
      → ((check >> next) ≡ ok value) ↔ ((check ≡ ok tt) × (next ≡ ok value))
  >>-eq-ok (err message) next value = (λ h. absurd (cc h), λ p. absurd (cc p.0))
  >>-eq-ok (ok tt) next value = (λ h. (refl, h), λ p. p.1)

  pub >>=-eq-ok {κ} :
      {Value : Type κ} (call : Result Value) (next : Value → Result Next) {value : Next}
      → (call >>= next) ≡ ok value
      → (mid : Value) × (call ≡ ok mid) × (next mid ≡ ok value)
  >>=-eq-ok (err message) next h = absurd (cc h)
  >>=-eq-ok (ok mid) next h = (mid, refl, h)

pub Result-cases {ℓ} :
    {Value : Type ℓ} (r : Result Value)
    → ((value : Value) × (r ≡ ok value)) ⊎ ((message : String) × (r ≡ err message))
Result-cases (err message) = inr (message, refl)
Result-cases (ok value) = inl (value, refl)
