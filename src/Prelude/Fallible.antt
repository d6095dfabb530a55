-- ===== src/Prelude/Fallible.antt =====
-- Chains of steps that may stop the program: `none` is a failed assertion, a null pointer that is
-- read, or a loop that ran out of fuel.
use mathlib.Core.Option.{Option, none, some}

module _ {ℓ κ} {A : Type ℓ} {B : Type κ} where
  infixl 5 ◌>>=◌
  abbrev pub ◌>>=◌ : Option A → (A → Option B) → Option B
  none >>= next = none
  some value >>= next = next value
