-- ===== src/Util.antt =====
-- util.rs, with the parts of the standard library that the source reads bytes by: `windows`,
-- `str::from_utf8`, `parse`, `to_string`.
pub mod Bounds
pub mod Decimal
pub mod Line
pub mod Numerals
pub mod Texts
use simple_kv.Prelude.{
  ℕ, zero, suc, ◌+◌, ◌-◌, ◌*◌, ◌/◌, ◌%◌, ◌^◌, Bool, true, false, ◌&&◌, ◌||◌, not, Option, none,
  some, List, [], ◌∷◌, ltb, leb, ◌==◌, if◌then◌else◌, length, take, ◌≡◌, ◌↔◌, arith, refl,
}
use mathlib.Core.Option
use Prim.Native.Char.{code}
use Prim.Native.String.{String}

abbrev pub Bytes : Type 0
Bytes = List ℕ

-- The bytes of an ASCII literal.
abbrev pub codes : String → Bytes
codes String.[] = []
codes (String.◌∷◌ c s) = code c ∷ codes s

abbrev pub cr : ℕ
cr = 13

abbrev pub lf : ℕ
lf = 10

abbrev pub crlf : Bytes
crlf = cr ∷ lf ∷ []

abbrev pub cstring_byte : ℕ
cstring_byte = b'$'

abbrev pub max_complex_string_length : ℕ
max_complex_string_length = 512 * 1024 * 1024

-- `==` of byte strings
unfoldable pub bytes_eq : Bytes → Bytes → Bool
bytes_eq [] [] = true
bytes_eq [] (b ∷ bs) = false
bytes_eq (a ∷ as') [] = false
bytes_eq (a ∷ as') (b ∷ bs) = a == b && bytes_eq as' bs

pub bytes_eq_iff : (a b : Bytes) → (bytes_eq a b ≡ true) ↔ (a ≡ b)
unfolding bytes_eq
bytes_eq_iff [] [] = ground arith
bytes_eq_iff [] (b ∷ bs) = ground arith
bytes_eq_iff (a ∷ as') [] = ground arith
bytes_eq_iff (a ∷ as') (b ∷ bs) = ground (arith, bytes_eq_iff as' bs)

-- A parsed value, and how many bytes it took.
pub record Parsed {ℓ} (A : Type ℓ) : Type ℓ where
  pub value : A
  pub num_bytes_parsed : ℕ

-- `bytes.windows(2).position(|w| w == CRLF)`
unfoldable pub crlf_position : Bytes → Option ℕ
crlf_position [] = none
crlf_position (a ∷ []) = none
crlf_position (a ∷ b ∷ bytes) =
    let rest = Option.map suc (crlf_position (b ∷ bytes)) in
    if a == cr && b == lf then some 0 else rest

abbrev pub take_parsed : Bytes → ℕ → Parsed Bytes
take_parsed bytes pos = record { value = take pos bytes; num_bytes_parsed = pos + 2 }

unfoldable pub parse_line : Bytes → Option (Parsed Bytes)
unfolding crlf_position
parse_line bytes = elim (crlf_position bytes) [
  | none ↦ none
  | some pos ↦ some (take_parsed bytes pos)
]

-- After a lead byte of UTF-8: how many bytes follow, and the range of the first of them.
lead : ℕ → Option (ℕ × ℕ × ℕ)
lead b =
    if ltb b 0x80
    then some (0, 0x80, 0xBF)
    else if ltb b 0xC2
    then none
    else if ltb b 0xE0
    then some (1, 0x80, 0xBF)
    else if b == 0xE0
    then some (2, 0xA0, 0xBF)
    else if b == 0xED
    then some (2, 0x80, 0x9F)
    else if ltb b 0xF0
    then some (2, 0x80, 0xBF)
    else if b == 0xF0
    then some (3, 0x90, 0xBF)
    else if ltb b 0xF4
    then some (3, 0x80, 0xBF)
    else if b == 0xF4
    then some (3, 0x80, 0x8F)
    else none

utf8_from : ℕ → ℕ → ℕ → Bytes → Bool
utf8_from zero lo hi [] = true
utf8_from (suc n) lo hi [] = false
utf8_from zero lo hi (b ∷ s) = elim (lead b) [
  | none ↦ false
  | some (n, lo', hi') ↦ utf8_from n lo' hi' s
]
utf8_from (suc n) lo hi (b ∷ s) = let rest = utf8_from n 0x80 0xBF s in leb lo b && leb b hi && rest

-- `str::from_utf8(bytes).is_ok()`
unfoldable pub is_utf8 : Bytes → Bool
unfolding utf8_from lead
is_utf8 bytes = utf8_from 0 0x80 0xBF bytes

unfoldable pub is_digit : ℕ → Bool
is_digit c = leb b'0' c && leb c b'9'

-- The digits behind `acc`, refused above `max`.
unfoldable pub parse_digits : ℕ → ℕ → Bytes → Option ℕ
parse_digits max acc [] = some acc
parse_digits max acc (c ∷ s) =
    let n = acc * 10 + (c - b'0') in
    let rest = parse_digits max n s in if is_digit c && leb n max then rest else none

-- `str::parse` of an unsigned integer up to `max`: one or more digits behind an optional `+`.
unfoldable pub parse_uint : ℕ → Bytes → Option ℕ
unfolding parse_digits is_digit
parse_uint max [] = none
parse_uint max (c ∷ []) = parse_digits max 0 (c ∷ [])
parse_uint max (c ∷ d ∷ s) =
    if c == b'+' then parse_digits max 0 (d ∷ s) else parse_digits max 0 (c ∷ d ∷ s)

abbrev pub max_u64 : ℕ
max_u64 = 2 ^ 64 - 1

digits : ℕ → ℕ → Bytes → Bytes
digits zero n out = out
digits (suc fuel) n out =
    let out' = (b'0' + n % 10) ∷ out in
    let more = digits fuel (n / 10) out' in if n / 10 == 0 then out' else more

-- `n.to_string()` of an unsigned integer
unfoldable pub to_string : ℕ → Bytes
unfolding digits
to_string n = digits (suc n) n []

to_string_test : to_string 1024 ≡ codes "1024"
unfolding to_string
to_string_test = refl

parse_line_test :
    parse_line (codes "*12\r\n$") ≡ some (record { value = codes "*12"; num_bytes_parsed = 5 })
unfolding parse_line
parse_line_test = refl

parse_uint_test : parse_uint max_u64 (codes "+18446744073709551615") ≡ some (2 ^ 64 - 1)
unfolding parse_uint
parse_uint_test = refl
