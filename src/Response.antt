-- ===== src/Response.antt =====
-- response.rs: RESP responses as the server writes them and a client reads them.
-- `InvalidUtf8` and `InvalidInt` have no payload here, `UnexpectedSstr` has the bytes themselves, and
-- the capacity that `parse_array` reserves is left out; `String` is its UTF-8 bytes.
pub mod Display
pub mod Numbers
pub mod Reader
pub mod Reads
pub mod RoundTrip
use mathlib.Core.Option
use simple_kv.Prelude.{
  ℕ, zero, suc, ◌+◌, ◌-◌, ◌^◌, Bool, true, false, ◌&&◌, Option, none, some, List, [], ◌∷◌, ◌++◌,
  ltb, leb, ◌==◌, if◌then◌else◌, length, take, drop, ◌≡◌, refl, Result, done, err,
}
use simple_kv.Prelude.Int.{ℤ, pos, negsuc}
use simple_kv.Util.{
  Bytes, Parsed, codes, cr, lf, crlf, bytes_eq, cstring_byte, max_complex_string_length, parse_line,
  is_utf8, parse_uint, parse_digits, is_digit, to_string,
}

abbrev pub sstr_byte : ℕ
sstr_byte = b'+'

abbrev pub error_byte : ℕ
error_byte = b'-'

abbrev pub integer_byte : ℕ
integer_byte = b':'

abbrev pub array_byte : ℕ
array_byte = b'*'

mutual
  pub data Response : Type 0 where
    ok : Response
    error : Bytes → Response
    cstr : Bytes → Response
    null : Response
    integer : ℤ → Response
    array : Responses → Response

  -- `Vec<Response>`
  pub data Responses : Type 0 where
    nil : Responses
    cons : Response → Responses → Responses

pub data ParseError : Type 0 where
  missing_crlf invalid_utf8 invalid_int poisoned unexpected_eof io : ParseError
  unexpected_prefix cstring_too_long : ℕ → ParseError
  unexpected_sstr : Bytes → ParseError
  invalid_cstring_length invalid_array_length : ℤ → ParseError

pub record ResponseDecoder : Type 0 where
  pub buffer : Bytes
  pub poisoned : Bool

abbrev pub default_decoder : ResponseDecoder
default_decoder = record { buffer = []; poisoned = false }

abbrev pub prefix_byte : Response → ℕ
prefix_byte Response.ok = sstr_byte
prefix_byte (error msg) = error_byte
prefix_byte (cstr b) = cstring_byte
prefix_byte null = cstring_byte
prefix_byte (integer n) = integer_byte
prefix_byte (array rs) = array_byte

-- `n.to_string()` of an `i64`
unfoldable pub int_to_string : ℤ → Bytes
int_to_string (pos n) = to_string n
int_to_string (negsuc n) = b'-' ∷ to_string (n + 1)

abbrev pub count : Responses → ℕ
count nil = 0
count (cons r rs) = suc (count rs)

unfoldable mutual
  pub to_bytes : Response → Bytes
  to_bytes Response.ok = sstr_byte ∷ (codes "OK" ++ crlf)
  to_bytes (error msg) = error_byte ∷ (msg ++ crlf)
  to_bytes (cstr b) = cstring_byte ∷ (to_string (length b) ++ (crlf ++ (b ++ crlf)))
  to_bytes null = cstring_byte ∷ (codes "-1" ++ crlf)
  to_bytes (integer n) = integer_byte ∷ (int_to_string n ++ crlf)
  to_bytes (array rs) = array_byte ∷ (to_string (count rs) ++ (crlf ++ all_bytes rs))

  pub all_bytes : Responses → Bytes
  all_bytes nil = []
  all_bytes (cons r rs) = to_bytes r ++ all_bytes rs

-- The digits behind a minus sign.
unfoldable pub parse_negative : Bytes → Option ℤ
parse_negative [] = none
parse_negative (c ∷ s) = elim (parse_digits (2 ^ 63) 0 (c ∷ s)) [
  | none ↦ none
  | some zero ↦ some (pos 0)
  | some (suc n) ↦ some (negsuc n)
]

-- `str::parse::<i64>`
unfoldable pub parse_i64 : Bytes → Option ℤ
parse_i64 [] = none
parse_i64 (c ∷ s) =
    if c == b'-' then parse_negative s else Option.map pos (parse_uint (2 ^ 63 - 1) (c ∷ s))

abbrev pub Decoded : Type 0 → Type 0
Decoded A = Result ParseError (Option A)

-- `line.data[1..]` as an `i64`
unfoldable pub line_i64 : Bytes → Result ParseError ℤ
line_i64 text = elim (is_utf8 text) [
  | false ↦ err invalid_utf8
  | true ↦ elim (parse_i64 text) [ none ↦ err invalid_int | some n ↦ done n ]
]

abbrev pub found : Response → ℕ → Decoded (Parsed Response)
found r taken = done (some (record { value = r; num_bytes_parsed = taken }))

unfoldable pub parse_sstr : Parsed Bytes → Decoded (Parsed Response)
parse_sstr line =
    let body = drop 1 line.value in
    elim (bytes_eq body (codes "OK")) [
      | true ↦ found Response.ok line.num_bytes_parsed
      | false ↦ err (unexpected_sstr body)
    ]

unfoldable pub parse_error : Parsed Bytes → Decoded (Parsed Response)
parse_error line =
    let body = drop 1 line.value in
    elim (is_utf8 body) [
      | true ↦ found (error body) line.num_bytes_parsed
      | false ↦ err invalid_utf8
    ]

unfoldable pub parse_integer : Parsed Bytes → Decoded (Parsed Response)
parse_integer line = elim (line_i64 (drop 1 line.value)) [
  | err e ↦ err e
  | done n ↦ found (integer n) line.num_bytes_parsed
]

-- The payload of a string of length `len`, behind a header of `data_start` bytes.
unfoldable pub parse_payload : Bytes → ℕ → ℕ → Decoded (Parsed Response)
parse_payload bytes data_start len =
    let cstr_crlf_idx = data_start + len + 2 in
    if ltb (length bytes) cstr_crlf_idx
    then done none
    else (elim (bytes_eq (take 2 (drop (data_start + len) bytes)) crlf) [
      | false ↦ err missing_crlf
      | true ↦ found (cstr (take len (drop data_start bytes))) cstr_crlf_idx
    ])

unfoldable pub parse_cstr : Bytes → Parsed Bytes → Decoded (Parsed Response)
parse_cstr bytes header = elim (line_i64 (drop 1 header.value)) [
  | err e ↦ err e
  | done (negsuc zero) ↦ found null header.num_bytes_parsed
  | done (negsuc (suc n)) ↦ err (invalid_cstring_length (negsuc (suc n)))
  | done (pos len) ↦
      if ltb max_complex_string_length len
      then err (cstring_too_long len)
      else parse_payload bytes header.num_bytes_parsed len
]

abbrev pub push : Responses → Response → Responses
push nil r = cons r nil
push (cons x rs) r = cons x (push rs r)

-- The `for` loop of `parse_array`: `left` elements to come, `taken` bytes read.
unfoldable pub parse_elements :
    (Bytes → Decoded (Parsed Response)) → Bytes → ℕ → ℕ → Responses → Decoded (Parsed Response)
parse_elements parse bytes zero taken rs = found (array rs) taken
parse_elements parse bytes (suc left) taken rs = elim (parse (drop taken bytes)) [
  | err e ↦ err e
  | done none ↦ done none
  | done (some p) ↦ parse_elements parse bytes left (taken + p.num_bytes_parsed) (push rs p.value)
]

unfoldable pub parse_array :
    (Bytes → Decoded (Parsed Response)) → Bytes → Parsed Bytes → Decoded (Parsed Response)
parse_array parse bytes header = elim (line_i64 (drop 1 header.value)) [
  | err e ↦ err e
  | done (negsuc n) ↦ err (invalid_array_length (negsuc n))
  | done (pos len) ↦ parse_elements parse bytes len header.num_bytes_parsed nil
]

-- `f` on the first line of `bytes`, if it is there.
abbrev pub with_line :
    Bytes → (Parsed Bytes → Decoded (Parsed Response)) → Decoded (Parsed Response)
with_line bytes f = elim (parse_line bytes) [ none ↦ done none | some line ↦ f line ]

-- The fuel bounds the nesting; it is the number of bytes, so that it ends with them.
unfoldable pub parse_fuel : ℕ → Bytes → Decoded (Parsed Response)
parse_fuel fuel [] = done none
parse_fuel zero (first ∷ bytes) = done none
parse_fuel (suc fuel) (first ∷ bytes) =
    let all = first ∷ bytes in
    if first == sstr_byte
    then with_line all parse_sstr
    else if first == error_byte
    then with_line all parse_error
    else if first == cstring_byte
    then with_line all (parse_cstr all)
    else if first == integer_byte
    then with_line all parse_integer
    else if first == array_byte
    then with_line all (parse_array (parse_fuel fuel) all)
    else err (unexpected_prefix first)

unfoldable pub parse_response : Bytes → Decoded (Parsed Response)
parse_response bytes = parse_fuel (length bytes) bytes

unfoldable pub decode_buffered : ResponseDecoder → Decoded Response × ResponseDecoder
decode_buffered d = elim (parse_response d.buffer) [
  | err e ↦ (err e, d)
  | done none ↦ (done none, d)
  | done (some p) ↦ (done (some p.value), record d { buffer = drop p.num_bytes_parsed d.buffer })
]

abbrev pub poison : Decoded Response × ResponseDecoder → Decoded Response × ResponseDecoder
poison (err e, d) = (err e, record d { poisoned = true })
poison (done o, d) = (done o, d)

unfoldable pub decode_next : ResponseDecoder → Decoded Response × ResponseDecoder
decode_next d = if d.poisoned then (err poisoned, d) else poison (decode_buffered d)

unfoldable pub validate_eof : ResponseDecoder → Decoded Response
validate_eof d =
    if d.poisoned
    then err poisoned
    else elim d.buffer [ [] ↦ done none | _ ∷ _ ↦ err unexpected_eof ]

nested_test :
    parse_response (codes "*2\r\n$-1\r\n:-2\r\n")
    ≡ found (array (cons null (cons (integer (negsuc 1)) nil))) 14
unfolding parse_response parse_fuel parse_array parse_elements parse_cstr parse_integer line_i64
    parse_i64 parse_negative parse_digits is_digit parse_uint is_utf8 parse_line
nested_test = refl
