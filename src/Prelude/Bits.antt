-- ===== src/Prelude/Bits.antt =====
-- A mask of k ones is a remainder modulo 2 ^ k, for every k.
use Prim.Native.Nat.{
  ℕ, zero, suc, ◌+◌, ◌-◌, ◌*◌, ◌/◌, ◌%◌, ◌^◌, ◌≤◌, ◌<◌, min, bit_and, digits, bit_and-bitwise,
}
use mathlib.Core.Path.{◌≡◌, sym, ap, ◌∙◌}
use native.Mathlib.Nat.{
  zero-mod, pow-suc, one-le-pow, mod-add-div', mod-lt, add-mul-mod_self_right, mod-eq_of_lt,
}
use native.Mathlib.Omega.{arith}

-- The remainder modulo twice `m`, from its lowest digit.
mod_double : (a m : ℕ) → 0 < m → a % (m * 2) ≡ (a / 2) % m * 2 + a % 2
mod_double a m h =
    let r = (a / 2) % m * 2 + a % 2 in
    let q = a / 2 / m in
    let whole : a ≡ r + q * (m * 2) = omega (arith, mod-add-div' (a / 2) m) in
    let small : r < m * 2 = omega (arith, mod-lt (a / 2) h) in
    let shape : a % (m * 2) ≡ (r + q * (m * 2)) % (m * 2) = ap (λ (t : ℕ). t % (m * 2)) whole in
    shape ∙ add-mul-mod_self_right r q (m * 2) ∙ mod-eq_of_lt small

-- The digits that the native operation stands for, on enough fuel.
masked_digits :
    (fuel k word : ℕ) → word ≤ fuel → digits (λ b. zero) min fuel word (2 ^ k - 1) ≡ word % 2 ^ k
masked_digits zero k zero h = sym (zero-mod (2 ^ k))
masked_digits (suc fuel) k zero h = sym (zero-mod (2 ^ k))
masked_digits zero k (suc word) h = absurd (omega arith)
masked_digits (suc fuel) zero (suc word) h =
    omega (arith, masked_digits fuel 0 (suc word / 2) (omega arith))
masked_digits (suc fuel) (suc k) (suc word) h =
    let some_bit : 1 ≤ 2 ^ k = one-le-pow k 2 (omega arith) in
    let shorter : (2 ^ k * 2 - 1) / 2 ≡ 2 ^ k - 1 = omega arith in
    let high = masked_digits fuel k (suc word / 2) (omega arith) in
    rw pow-suc (omega (arith, rw (← shorter) at high, mod_double (suc word) (2 ^ k) some_bit))

pub bit_and_mask : (k a : ℕ) → bit_and a (2 ^ k - 1) ≡ a % 2 ^ k
bit_and_mask k a = bit_and-bitwise a (2 ^ k - 1) ∙ masked_digits a k a (omega arith)
