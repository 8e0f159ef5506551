-- ===== src/Util/Bounds.antt =====
-- The numbers that parsing accepts are within the limit of their type, and the length of those that
-- are written.
use simple_kv.Prelude.{
  ℕ, zero, suc, ◌+◌, ◌*◌, ◌-◌, ◌/◌, ◌%◌, ◌≤◌, ◌<◌, ◌≡◌, inl, inr, refl, Bool, true, false, ◌&&◌,
  Option, none, some, [], ◌∷◌, leb, leb→le, ◌==◌, if◌then◌else◌, Bool-cases, length, arith,
}
use simple_kv.Util.{Bytes, is_digit, parse_digits, parse_uint, digits, to_string, max_u64}

guarded :
    (a b : Bool) (o : Option ℕ) (n : ℕ)
    → (if a && b then o else none) ≡ some n
    → (b ≡ true) × (o ≡ some n)
guarded true true o n h = (refl, h)
guarded true false o n h = absurd (cc h)
guarded false b o n h = absurd (cc h)

parse_digits-le :
    (max acc : ℕ) (s : Bytes) (n : ℕ) → acc ≤ max → parse_digits max acc s ≡ some n → n ≤ max
unfolding parse_digits
parse_digits-le max acc [] n small h = let e : acc ≡ n = cc h in omega (arith, e)
parse_digits-le max acc (c ∷ s) n small h =
    let (p, q) = guarded (is_digit c) (leb (acc * 10 + (c - b'0')) max) _ n h in
    parse_digits-le max (acc * 10 + (c - b'0')) s n (leb→le _ _ p) q

pub parse_uint-le : (max : ℕ) (s : Bytes) (n : ℕ) → parse_uint max s ≡ some n → n ≤ max
unfolding parse_uint
parse_uint-le max [] n h = absurd (cc h)
parse_uint-le max (c ∷ []) n h = parse_digits-le max 0 (c ∷ []) n (omega arith) h
parse_uint-le max (c ∷ d ∷ s) n h = elim (Bool-cases (c == b'+')) [
  | inl p ↦ parse_digits-le max 0 (d ∷ s) n (omega arith) (rw (p, parse_uint) at h)
  | inr p ↦ parse_digits-le max 0 (c ∷ d ∷ s) n (omega arith) (rw (p, parse_uint) at h)
]

-- The least number with more than `j` digits.
abbrev ten_to : ℕ → ℕ
ten_to zero = 1
ten_to (suc j) = 10 * ten_to j

length-digits :
    (fuel j n : ℕ) (out : Bytes)
    → n < ten_to (suc j)
    → length (digits fuel n out) ≤ suc (j + length out)
unfolding digits
length-digits zero j n out h = omega arith
length-digits (suc fuel) zero n out h = elim (Bool-cases (n / 10 == 0)) [
  | inl e ↦ rw e (omega arith)
  | inr e ↦ absurd (ground arith)
]
length-digits (suc fuel) (suc j) n out h = elim (Bool-cases (n / 10 == 0)) [
  | inl e ↦ rw e (omega arith)
  | inr e ↦
      let ih = length-digits fuel j (n / 10) ((b'0' + n % 10) ∷ out) (omega (arith, h)) in
      rw e (omega (arith, ih))
]

pub length-to_string : (n : ℕ) → n ≤ max_u64 → length (to_string n) ≤ 20
unfolding to_string
length-to_string n h = length-digits (suc n) 19 n [] (omega (arith, h))
