-- ===== src/Prelude/Int.antt =====
-- Signed integers, and the conversions of 64-bit words.
use Prim.Native.Nat.{ℕ, ◌-◌, ◌^◌}
use simple_kv.Prelude.Tests.{ltb, if◌then◌else◌}

-- `negsuc n` is -(n + 1).
pub data ℤ : Type 0 where
  pos : ℕ → ℤ
  negsuc : ℕ → ℤ

-- `t as i64` of a `u64`: the same 64 bits, read in two's complement.
unfoldable pub as_i64 : ℕ → ℤ
as_i64 t = if ltb t (2 ^ 63) then pos t else negsuc (2 ^ 64 - 1 - t)
