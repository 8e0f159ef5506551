-- ===== src/KeyStore/Slot.antt =====
-- Bucket indices of key_store.rs: the mask is a remainder, and one more step is the next bucket
-- of a ring.
use Prim.Native.Nat.{bit_and}
use native.Mathlib.Nat.{
  mod-mod_of_dvd, mod-lt, mod-eq_of_lt, mod_self, mod-add-mod, dvd-mul_left, pow-suc, pow-zero,
}
use Prim.Native.Nat.{◌∣◌}
use simple_kv.Prelude.{
  ℕ, zero, suc, ◌+◌, ◌-◌, ◌*◌, ◌≤◌, ◌%◌, ◌^◌, ◌<◌, ◌≡◌, ◌∙◌, sym, ap, inl, inr, leb, Bool-cases,
  leb→le, leb→lt, if◌then◌else◌, arith,
}
use simple_kv.Prelude.Bits.{bit_and_mask}
use simple_kv.KeyStore.{get_bucket_index}

-- A capacity is a power of two that divides 2 ^ 64.
pub record IsCapacity (n : ℕ) : Type 0 where
  pub bits : ℕ
  pub power : n ≡ 2 ^ bits
  pub positive : 0 < n
  pub rest : ℕ
  pub total : 2 ^ rest * n ≡ 2 ^ 64

-- The bucket behind `i` on the ring of `n` buckets.
abbrev pub next : ℕ → ℕ → ℕ
next n i = if leb n (i + 1) then 0 else i + 1

-- Doubling stays a capacity, as long as it fits in 64 bits.
pub double-IsCapacity : {n : ℕ} → IsCapacity n → n * 2 ≤ 2 ^ 64 → IsCapacity (n * 2)
double-IsCapacity {n} c h = go c.rest c.total
  where
    go : (r : ℕ) → 2 ^ r * n ≡ 2 ^ 64 → IsCapacity (n * 2)
    go zero e = absurd (let p = c.positive in omega (arith, rw pow-zero at e))
    go (suc r) e = record {
      bits = suc c.bits;
      power = ap (λ (t : ℕ). t * 2) c.power ∙ sym (pow-suc 2 c.bits);
      positive = let p = c.positive in omega arith;
      rest = r;
      total = let t = rw pow-suc at e in omega arith;
    }

module _ {n : ℕ} (c : IsCapacity n) where
  divides : n ∣ 2 ^ 64
  divides = rw (← c.total) (dvd-mul_left n (2 ^ c.rest))

  pub mask_lem : (a : ℕ) → bit_and a (n - 1) ≡ a % n
  mask_lem a = rw c.power (bit_and_mask c.bits a)

  -- For a power of two of buckets, up to 2^64, the masked index of the wrapped sum is the sum
  -- modulo the number of buckets, so that the wrap-around never shows.
  pub index_lem : (hash psl : ℕ) → get_bucket_index n hash psl ≡ (hash + psl) % n
  unfolding get_bucket_index
  index_lem hash psl = mask_lem _ ∙ mod-mod_of_dvd n (hash + psl) divides

  pub index-lt : (hash psl : ℕ) → get_bucket_index n hash psl < n
  index-lt hash psl = rw (index_lem hash psl) (mod-lt (hash + psl) c.positive)

  -- One step on the ring.
  step_lem : (i : ℕ) → i < n → (i + 1) % n ≡ next n i
  step_lem i h = elim (Bool-cases (leb n (i + 1))) [
    | inl p ↦ let e : i + 1 ≡ n = omega (arith, leb→le n (i + 1) p) in rw (p, e) (mod_self n)
    | inr p ↦ rw p (mod-eq_of_lt (leb→lt n (i + 1) p))
  ]

  pub mask-next : (i : ℕ) → i < n → bit_and (i + 1) (n - 1) ≡ next n i
  mask-next i h = mask_lem (i + 1) ∙ step_lem i h

  pub index-next :
      (hash psl : ℕ) → get_bucket_index n hash (psl + 1) ≡ next n (get_bucket_index n hash psl)
  index-next hash psl =
      let e : (hash + (psl + 1)) % n ≡ ((hash + psl) % n + 1) % n =
        ap (λ (t : ℕ). t % n) (omega arith) ∙ sym (mod-add-mod (hash + psl) n 1) in
      rw (index_lem hash (psl + 1), index_lem hash psl)
        (e ∙ step_lem ((hash + psl) % n) (mod-lt (hash + psl) c.positive))

pub next-lt : (n i : ℕ) → i < n → next n i < n
next-lt n i h = ground arith

pub next-injective : (n i j : ℕ) → i < n → j < n → next n i ≡ next n j → i ≡ j
next-injective n i j h k e = ground arith

-- Every bucket is the next one of some bucket.
pub prev : (n i : ℕ) → i < n → (j : ℕ) × (j < n) × (next n j ≡ i)
prev n i h = elim (Bool-cases (leb i 0)) [
  | inl z ↦ (n - 1, (omega arith), ground arith)
  | inr p ↦ (i - 1, omega arith, ground arith)
]
