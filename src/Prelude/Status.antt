-- ===== src/Prelude/Status.antt =====
-- Errors as values. A `status.Error` keeps its code and the name that its message begins with; the
-- rest of the message is left out.
use Prim.Native.Nat.{ℕ}
use mathlib.Core.Bool.{Bool, true, false}
use mathlib.Core.List.{List}
use mathlib.Core.Path.{◌≡◌, refl}

pub data Code : Type 0 where
  invalid_argument failed_precondition unavailable internal not_found unimplemented : Code

-- The code, and the attribute, parameter or field the message names.
pub record Error : Type 0 where
  pub code : Code
  pub subject : List ℕ

-- What a Go function answers that returns a value and an error.
pub data Result {ℓ} (V : Type ℓ) : Type ℓ where
  err : (refused : Error) → Result V
  ok : (value : V) → Result V

-- `if !test { return err }`
abbrev pub guard : (test : Bool) (refusal : Error) → Result (Unit {0})
guard false refusal = err refusal
guard true refusal = ok tt

module _ {ℓ κ} {V : Type ℓ} {W : Type κ} where
  infixl 5 ◌>>=◌
  -- `if err != nil { return err }` between a call and what follows it.
  abbrev pub ◌>>=◌ : (call : Result V) (next : V → Result W) → Result W
  (err refused) >>= next = err refused
  (ok value) >>= next = next value

  pub >>=-eq-ok :
      (call : Result V) (next : V → Result W) {result : W}
      → (call >>= next) ≡ ok result
      → (value : V) × (call ≡ ok value) × (next value ≡ ok result)
  >>=-eq-ok (err refused) next e = cc
  >>=-eq-ok (ok value) next e = (value, refl, e)

infixl 5 ◌>>◌
-- A check, and what follows it.
abbrev pub ◌>>◌ {κ} : {W : Type κ} (check : Result (Unit {0})) (then_go : Result W) → Result W
check >> then_go = check >>= λ passed. then_go
