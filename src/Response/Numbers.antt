-- ===== src/Response/Numbers.antt =====
-- The integers of response.rs: what `to_string` of an `i64` writes is read back.
use simple_kv.Prelude.{
  ℕ, suc, ◌+◌, ◌-◌, ◌^◌, ◌≤◌, ◌≡◌, ◌≢◌, ◌∙◌, refl, some, false, [], ◌∷◌, All, ◌==◌, arith, Result,
}
use simple_kv.Prelude.Int.{ℤ, pos, negsuc}
use simple_kv.Util.{Bytes, parse_digits, parse_uint, to_string}
use simple_kv.Util.Decimal.{
  IsDigit, All-to_string, to_string-ne-nil, utf8_minus, is_utf8-to_string, parse_digits-to_string,
  parse_uint-to_string,
}
use simple_kv.Util.Line.{IsLine}
use simple_kv.Response.{int_to_string, parse_negative, parse_i64, line_i64}

-- The values of an `i64`.
abbrev pub IsI64 : ℤ → Type 0
IsI64 (pos n) = n ≤ 2 ^ 63 - 1
IsI64 (negsuc n) = n ≤ 2 ^ 63 - 1

IsLine-digits : (s : Bytes) → All IsDigit s → IsLine s
IsLine-digits [] h = tt
IsLine-digits (c ∷ s) ((lo, hi), h) = ((λ e. omega arith), IsLine-digits s h)

pub IsLine-to_string : (n : ℕ) → IsLine (to_string n)
IsLine-to_string n = IsLine-digits (to_string n) (All-to_string n)

pub IsLine-int_to_string : (n : ℤ) → IsLine (int_to_string n)
unfolding int_to_string
IsLine-int_to_string (pos n) = IsLine-to_string n
IsLine-int_to_string (negsuc n) = ((λ e. omega arith), IsLine-to_string (n + 1))

parse_negative-digits :
    (s : Bytes) (n : ℕ)
    → s ≢ []
    → parse_digits (2 ^ 63) 0 s ≡ some (suc n)
    → parse_negative s ≡ some (negsuc n)
unfolding parse_negative
parse_negative-digits [] n ne h = absurd (ne refl)
parse_negative-digits (c ∷ s) n ne h = rw (h, parse_negative)

parse_i64-digits :
    (s : Bytes) (n : ℕ)
    → s ≢ []
    → All IsDigit s
    → parse_uint (2 ^ 63 - 1) s ≡ some n
    → parse_i64 s ≡ some (pos n)
unfolding parse_i64
parse_i64-digits [] n ne a h = absurd (ne refl)
parse_i64-digits (c ∷ s) n ne ((lo, hi), a) h =
    let e : (c == b'-') ≡ false = ground arith in rw (e, parse_i64, h)

parse_i64-minus : (s : Bytes) → parse_i64 (b'-' ∷ s) ≡ parse_negative s
unfolding parse_i64
parse_i64-minus s = refl

-- An integer is read back from its line.
pub line_i64-int_to_string : (n : ℤ) → IsI64 n → line_i64 (int_to_string n) ≡ Result.done n
unfolding line_i64 int_to_string
line_i64-int_to_string (pos n) h =
    let e =
      parse_i64-digits (to_string n) n (to_string-ne-nil n) (All-to_string n)
        (parse_uint-to_string _ n h) in
    rw (is_utf8-to_string n, line_i64, e)
line_i64-int_to_string (negsuc n) h =
    let same : n + 1 ≡ suc n = omega arith in
    let e =
      parse_negative-digits (to_string (n + 1)) n (to_string-ne-nil (n + 1))
        (parse_digits-to_string (2 ^ 63) (n + 1) (omega (arith, h)) ∙ rw same) in
    rw (
      utf8_minus (to_string (n + 1)) (All-to_string (n + 1)),
      line_i64,
      parse_i64-minus (to_string (n + 1)),
      e,
    )

pub line_i64-to_string : (n : ℕ) → n ≤ 2 ^ 63 - 1 → line_i64 (to_string n) ≡ Result.done (pos n)
unfolding int_to_string
line_i64-to_string n h = line_i64-int_to_string (pos n) h
