-- ===== src/Prelude/Optional.antt =====
-- Chains of calls that may answer nothing.
use mathlib.Core.Option.{Option, none, some}
use mathlib.Core.Path.{◌≡◌, refl}

module _ {ℓ κ} {A : Type ℓ} {B : Type κ} where
  infixl 5 ◌>>=◌
  -- What follows a call that answered something.
  abbrev pub ◌>>=◌ : (call : Option A) (next : A → Option B) → Option B
  none >>= next = none
  (some a) >>= next = next a

  pub >>=-eq-some :
      (call : Option A) (next : A → Option B) {b : B}
      → (call >>= next) ≡ some b
      → (a : A) × (call ≡ some a) × (next a ≡ some b)
  >>=-eq-some none next e = cc
  >>=-eq-some (some a) next e = (a, refl, e)
