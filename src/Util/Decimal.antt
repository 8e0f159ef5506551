-- ===== src/Util/Decimal.antt =====
-- Decimal numbers of the standard library: what `to_string` writes, `parse` reads back.
use simple_kv.Prelude.{
  ℕ, zero, suc, ◌+◌, ◌/◌, ◌%◌, ◌≤◌, ◌<◌, ◌≡◌, ◌≢◌, ◌∙◌, refl, some, [], ◌∷◌, All, Bool-cases, inl,
  inr, ◌==◌, ltb, true, false, arith,
}
use simple_kv.Util.{
  Bytes, is_digit, parse_digits, parse_uint, digits, to_string, is_utf8, utf8_from, lead,
}

abbrev pub IsDigit : ℕ → Type 0
IsDigit c = (b'0' ≤ c) × (c ≤ b'9')

-- The last digit read behind the others gives the number back.
last_digit :
    (max n : ℕ) (out : Bytes)
    → n ≤ max
    → parse_digits max (n / 10) ((b'0' + n % 10) ∷ out) ≡ parse_digits max n out
unfolding parse_digits is_digit
last_digit max n out h = ground arith

parse_digits-digits :
    (max fuel n : ℕ) (out : Bytes)
    → n < fuel
    → n ≤ max
    → parse_digits max 0 (digits fuel n out) ≡ parse_digits max n out
unfolding digits
parse_digits-digits max zero n out lt le = absurd (omega arith)
parse_digits-digits max (suc fuel) n out lt le = elim (Bool-cases (n / 10 == 0)) [
  | inl e ↦ let z : n / 10 ≡ 0 = ground arith in rw e (rw z at (last_digit max n out le))
  | inr e ↦ rw e (
      parse_digits-digits max fuel (n / 10) ((b'0' + n % 10) ∷ out) (ground arith) (omega arith)
      ∙ last_digit max n out le)
]

All-digits : (fuel n : ℕ) (out : Bytes) → All IsDigit out → All IsDigit (digits fuel n out)
unfolding digits
All-digits zero n out h = h
All-digits (suc fuel) n out h =
    let one : IsDigit (b'0' + n % 10) = (omega arith, omega arith) in
    elim (Bool-cases (n / 10 == 0)) [
      | inl e ↦ rw e (one, h)
      | inr e ↦ rw e (All-digits fuel (n / 10) ((b'0' + n % 10) ∷ out) (one, h))
    ]

pub All-to_string : (n : ℕ) → All IsDigit (to_string n)
unfolding to_string
All-to_string n = All-digits (suc n) n [] tt

digits-ne-nil : (fuel n : ℕ) (out : Bytes) → out ≢ [] → digits fuel n out ≢ []
unfolding digits
digits-ne-nil zero n out h = h
digits-ne-nil (suc fuel) n out h = elim (Bool-cases (n / 10 == 0)) [
  | inl e ↦ rw e (λ p. cc p)
  | inr e ↦ rw e (digits-ne-nil fuel (n / 10) ((b'0' + n % 10) ∷ out) (λ p. cc p))
]

pub to_string-ne-nil : (n : ℕ) → to_string n ≢ []
unfolding to_string digits
to_string-ne-nil n = elim (Bool-cases (n / 10 == 0)) [
  | inl e ↦ rw e (λ p. cc p)
  | inr e ↦ rw e (digits-ne-nil n (n / 10) ((b'0' + n % 10) ∷ []) (λ p. cc p))
]

pub parse_digits-to_string : (max n : ℕ) → n ≤ max → parse_digits max 0 (to_string n) ≡ some n
unfolding to_string parse_digits
parse_digits-to_string max n h = parse_digits-digits max (suc n) n [] (omega arith) h

-- Digits alone have no sign.
parse_uint-parse_digits :
    (max : ℕ) (s : Bytes) → s ≢ [] → All IsDigit s → parse_uint max s ≡ parse_digits max 0 s
unfolding parse_uint
parse_uint-parse_digits max [] h a = absurd (h refl)
parse_uint-parse_digits max (c ∷ []) h a = refl
parse_uint-parse_digits max (c ∷ d ∷ s) h ((lo, hi), a) =
    let e : (c == b'+') ≡ false = ground arith in rw e

-- Every number up to `max` is read back from its decimal print.
pub parse_uint-to_string : (max n : ℕ) → n ≤ max → parse_uint max (to_string n) ≡ some n
unfolding to_string parse_digits
parse_uint-to_string max n h =
    parse_uint-parse_digits max (to_string n) (to_string-ne-nil n) (All-to_string n)
    ∙ parse_digits-digits max (suc n) n [] (omega arith) h

utf8_digits : (s : Bytes) → All IsDigit s → utf8_from 0 0x80 0xBF s ≡ true
unfolding utf8_from lead
utf8_digits [] h = refl
utf8_digits (c ∷ s) ((lo, hi), h) =
    let e : ltb c 0x80 ≡ true = ground arith in rw (e, utf8_from, lead) (utf8_digits s h)

pub is_utf8-to_string : (n : ℕ) → is_utf8 (to_string n) ≡ true
unfolding is_utf8
is_utf8-to_string n = utf8_digits (to_string n) (All-to_string n)

-- A minus sign before the digits.
pub utf8_minus : (s : Bytes) → All IsDigit s → is_utf8 (b'-' ∷ s) ≡ true
unfolding is_utf8 utf8_from lead
utf8_minus s h = utf8_digits s h
