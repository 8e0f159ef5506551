-- ===== src/Util/Numerals.antt =====
-- `str::parse` of unsigned integers against the number that a text is in base ten.
use simple_kv.Prelude.{
  ℕ, ◌+◌, ◌-◌, ◌*◌, ◌≤◌, ◌≡◌, ◌≢◌, ◌⊎◌, ◌↔◌, ◌∙◌, inl, inr, refl, ap, Bool, true, false, ◌&&◌,
  Option, none, some, [], ◌∷◌, All, leb, leb→le, le→leb, ◌==◌, ==_iff, if◌then◌else◌, Bool-cases,
  arith,
}
use simple_kv.Util.{Bytes, is_digit, parse_digits, parse_uint}
use simple_kv.Util.Decimal.{IsDigit}

-- The number that the digits are, behind `acc`.
abbrev pub value_from : ℕ → Bytes → ℕ
value_from acc [] = acc
value_from acc (c ∷ s) = value_from (acc * 10 + (c - b'0')) s

-- The text is the number in base ten: one or more digits, behind an optional `+`.
pub record IsNumeral (text : Bytes) (n : ℕ) : Type 0 where
  pub numerals : Bytes
  pub written : (text ≡ numerals) ⊎ (text ≡ b'+' ∷ numerals)
  pub some_digit : numerals ≢ []
  pub all_digits : All IsDigit numerals
  pub value : value_from 0 numerals ≡ n

value_from-le : (acc : ℕ) (s : Bytes) → acc ≤ value_from acc s
value_from-le acc [] = omega arith
value_from-le acc (c ∷ s) = omega (arith, value_from-le (acc * 10 + (c - b'0')) s)

both :
    (a b : Bool) (o : Option ℕ) (n : ℕ)
    → (if a && b then o else none) ≡ some n
    → (a ≡ true) × (b ≡ true) × (o ≡ some n)
both true true o n h = (refl, refl, h)
both true false o n h = absurd (cc h)
both false b o n h = absurd (cc h)

is_digit-IsDigit : (c : ℕ) → (is_digit c ≡ true) ↔ IsDigit c
unfolding is_digit
is_digit-IsDigit c = ground arith

parse_digits-some :
    (max acc : ℕ) (s : Bytes) (n : ℕ)
    → acc ≤ max
    → parse_digits max acc s ≡ some n
    → All IsDigit s × (value_from acc s ≡ n) × (n ≤ max)
unfolding parse_digits
parse_digits-some max acc [] n le h = let e : acc ≡ n = cc h in (tt, e, omega (arith, e, le))
parse_digits-some max acc (c ∷ s) n le h =
    let (d, p, q) = both (is_digit c) (leb (acc * 10 + (c - b'0')) max) _ n h in
    let (ds, same, small) = parse_digits-some max (acc * 10 + (c - b'0')) s n (leb→le _ _ p) q in
    (((is_digit-IsDigit c).0 d, ds), same, small)

parse_digits-value :
    (max acc : ℕ) (s : Bytes)
    → All IsDigit s
    → value_from acc s ≤ max
    → parse_digits max acc s ≡ some (value_from acc s)
unfolding parse_digits
parse_digits-value max acc [] d le = refl
parse_digits-value max acc (c ∷ s) (d, ds) le =
    let n = acc * 10 + (c - b'0') in
    let small : leb n max ≡ true = le→leb n max (omega (arith, value_from-le n s, le)) in
    rw ((is_digit-IsDigit c).1 d, small) (parse_digits-value max n s ds le)

parse_uint-some :
    (max : ℕ) (text : Bytes) (n : ℕ) → parse_uint max text ≡ some n → IsNumeral text n × (n ≤ max)
unfolding parse_uint
parse_uint-some max [] n h = absurd (cc h)
parse_uint-some max (c ∷ []) n h =
    let (ds, same, small) = parse_digits-some max 0 (c ∷ []) n (omega arith) h in
    (
      record {
        numerals = c ∷ [];
        written = inl refl;
        some_digit = λ e. cc e;
        all_digits = ds;
        value = same;
      },
      small,
    )
parse_uint-some max (c ∷ d ∷ s) n h = elim (Bool-cases (c == b'+')) [
  | inl p ↦
      let (ds, same, small) =
        parse_digits-some max 0 (d ∷ s) n (omega arith) (rw (p, parse_uint) at h) in
      (
        record {
          numerals = d ∷ s;
          written = inr (ap (λ t. t ∷ d ∷ s) ((==_iff c b'+').0 p));
          some_digit = λ e. cc e;
          all_digits = ds;
          value = same;
        },
        small,
      )
  | inr p ↦
      let (ds, same, small) =
        parse_digits-some max 0 (c ∷ d ∷ s) n (omega arith) (rw (p, parse_uint) at h) in
      (
        record {
          numerals = c ∷ d ∷ s;
          written = inl refl;
          some_digit = λ e. cc e;
          all_digits = ds;
          value = same;
        },
        small,
      )
]

not_plus : (c : ℕ) → IsDigit c → (c == b'+') ≡ false
not_plus c (lo, hi) = ground arith

parse_uint-plain :
    (max : ℕ) (s : Bytes)
    → s ≢ []
    → All IsDigit s
    → value_from 0 s ≤ max
    → parse_uint max s ≡ some (value_from 0 s)
unfolding parse_uint
parse_uint-plain max [] ne ds le = absurd (ne refl)
parse_uint-plain max (c ∷ []) ne ds le = parse_digits-value max 0 (c ∷ []) ds le
parse_uint-plain max (c ∷ d ∷ s) ne ds le =
    rw (not_plus c ds.0, parse_uint) (parse_digits-value max 0 (c ∷ d ∷ s) ds le)

parse_uint-plus :
    (max : ℕ) (s : Bytes)
    → s ≢ []
    → All IsDigit s
    → value_from 0 s ≤ max
    → parse_uint max (b'+' ∷ s) ≡ some (value_from 0 s)
unfolding parse_uint
parse_uint-plus max [] ne ds le = absurd (ne refl)
parse_uint-plus max (c ∷ s) ne ds le = parse_digits-value max 0 (c ∷ s) ds le

parse_uint-numeral :
    (max : ℕ) (text : Bytes) (n : ℕ) → IsNumeral text n → n ≤ max → parse_uint max text ≡ some n
parse_uint-numeral max text n v le =
    let small : value_from 0 v.numerals ≤ max = omega (arith, v.value, le) in
    elim v.written [
      | inl p ↦
          ap (parse_uint max) p
          ∙ parse_uint-plain max v.numerals v.some_digit v.all_digits small
          ∙ ap some v.value
      | inr p ↦
          ap (parse_uint max) p
          ∙ parse_uint-plus max v.numerals v.some_digit v.all_digits small
          ∙ ap some v.value
    ]

-- `parse` accepts the numerals of the numbers that fit, with their numbers.
pub parse_uint_iff :
    (max : ℕ) (text : Bytes) (n : ℕ)
    → (parse_uint max text ≡ some n) ↔ (IsNumeral text n × (n ≤ max))
parse_uint_iff max text n = (parse_uint-some max text n, λ v. parse_uint-numeral max text n v.0 v.1)
