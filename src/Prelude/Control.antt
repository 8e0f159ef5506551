-- ===== src/Prelude/Control.antt =====
-- Outcomes of code that can panic or loop, and chains of fallible steps.
use mathlib.Core.Path.{◌≡◌}

-- `Result<A, E>`.
pub data Result {ℓ} (E A : Type ℓ) : Type ℓ where
  done : A → Result E A
  err : E → Result E A

-- `spin` is a loop that has used up its fuel, `panic` an unwinding panic.
pub data Run {ℓ} (A : Type ℓ) : Type ℓ where
  spin panic : Run A
  ok : (value : A) → Run A

-- The code returns normally, with a value that satisfies `P`.
abbrev pub Returns {ℓ κ} : {A : Type ℓ} (run : Run A) (P : A → Type κ) → Type (ℓ ⊔ κ)
Returns {A} run P = (value : A) × (run ≡ ok value) × P value

infixl 5 ◌>>=◌
abbrev pub ◌>>=◌ {ℓ κ} : {A : Type ℓ} → {B : Type κ} → (run : Run A) → (next : A → Run B) → Run B
spin >>= next = spin
panic >>= next = panic
ok value >>= next = next value
