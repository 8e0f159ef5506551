-- ===== src/Response/Reads.antt =====
-- What the parser of response.rs says of the bytes of one response that is not an array.
use simple_kv.Prelude.{
  ℕ, suc, ◌+◌, ◌-◌, ◌^◌, ◌≤◌, ◌≡◌, ◌≢◌, ◌∙◌, sym, ap, true, false, Option, none, some, ◌∷◌, ◌++◌,
  append_assoc, length, length-append, take, drop, take_append, drop_append, ltb, le→ltb, arith,
  Result, done,
}
use simple_kv.Prelude.Int.{ℤ, negsuc}
use simple_kv.Util.{
  Bytes, Parsed, codes, cr, crlf, bytes_eq, cstring_byte, max_complex_string_length, parse_line,
  is_utf8, to_string,
}
use simple_kv.Util.Line.{IsLine, parse_line-line}
use simple_kv.Response.{
  Response, Responses, error, cstr, null, integer, array, nil, cons, Decoded, sstr_byte, error_byte,
  integer_byte, int_to_string, count, to_bytes, line_i64, found, parse_sstr, parse_error,
  parse_integer, parse_payload, parse_cstr, parse_fuel,
}
use simple_kv.Response.Numbers.{
  IsI64, IsLine-to_string, IsLine-int_to_string, line_i64-int_to_string, line_i64-to_string,
}

-- A response that can be written so that it is read back: messages are one line of UTF-8, lengths
-- and integers are within their types.
unfoldable mutual
  pub IsResponse : Response → Type 0
  IsResponse Response.ok = Unit
  IsResponse (error msg) = IsLine msg × (is_utf8 msg ≡ true)
  IsResponse (cstr b) = length b ≤ max_complex_string_length
  IsResponse null = Unit
  IsResponse (integer n) = IsI64 n
  IsResponse (array rs) = (count rs ≤ 2 ^ 63 - 1) × AreResponses rs

  pub AreResponses : Responses → Type 0
  AreResponses nil = Unit
  AreResponses (cons r rs) = IsResponse r × AreResponses rs

unfoldable mutual
  pub size : Response → ℕ
  size (array rs) = suc (sizes rs)
  size Response.ok = 1
  size (error msg) = 1
  size (cstr b) = 1
  size null = 1
  size (integer n) = 1

  pub sizes : Responses → ℕ
  sizes nil = 0
  sizes (cons r rs) = size r + sizes rs

abbrev pub line_of : ℕ → Bytes → Parsed Bytes
line_of first text = record { value = first ∷ text; num_bytes_parsed = length text + 3 }

first_line :
    (first : ℕ) (text rest : Bytes)
    → first ≢ cr
    → IsLine text
    → parse_line (first ∷ (text ++ (crlf ++ rest))) ≡ some (line_of first text)
first_line first text rest ne h =
    let width : suc (length text) + 2 ≡ length text + 3 = omega arith in
    parse_line-line (first ∷ text) rest (ne, h)
    ∙ ap (λ t. some (record { value = first ∷ text; num_bytes_parsed = t })) width

-- What the decoder says of the bytes of a response.
abbrev pub Reads : (Bytes → Decoded (Parsed Response)) → Response → Type 0
Reads parse r = (rest : Bytes) → parse (to_bytes r ++ rest) ≡ found r (length (to_bytes r))

abbrev on_line :
    (Parsed Bytes → Decoded (Parsed Response)) → Option (Parsed Bytes) → Decoded (Parsed Response)
on_line f o = elim o [ none ↦ done none | some line ↦ f line ]

line_step :
    (first : ℕ) (text rest : Bytes) (f : Parsed Bytes → Decoded (Parsed Response))
    → first ≢ cr
    → IsLine text
    → on_line f (parse_line (first ∷ (text ++ (crlf ++ rest)))) ≡ f (line_of first text)
line_step first text rest f ne h = ap (on_line f) (first_line first text rest ne h)

pub line_step_end :
    (first : ℕ) (text rest : Bytes) (f : Parsed Bytes → Decoded (Parsed Response))
    → first ≢ cr
    → IsLine text
    → on_line f (parse_line (first ∷ ((text ++ crlf) ++ rest))) ≡ f (line_of first text)
line_step_end first text rest f ne h =
    ap (λ t. on_line f (parse_line (first ∷ t))) (append_assoc text crlf rest)
    ∙ line_step first text rest f ne h

line_size : (text : Bytes) → length text + 3 ≡ suc (length (text ++ crlf))
line_size text = omega (arith, length-append text crlf)

pub Reads-ok : (fuel : ℕ) → Reads (parse_fuel (suc fuel)) Response.ok
unfolding parse_fuel to_bytes parse_sstr bytes_eq
Reads-ok fuel rest =
    line_step sstr_byte (codes "OK") rest parse_sstr (λ e. omega arith)
      ((λ e. omega arith), ((λ e. omega arith), tt))

minus_one : line_i64 (codes "-1") ≡ Result.done (negsuc 0)
unfolding int_to_string to_string
minus_one = line_i64-int_to_string (negsuc 0) (omega arith)

pub Reads-null : (fuel : ℕ) → Reads (parse_fuel (suc fuel)) null
unfolding parse_fuel to_bytes parse_cstr
Reads-null fuel rest =
    line_step cstring_byte (codes "-1") rest
      (parse_cstr (cstring_byte ∷ (codes "-1" ++ (crlf ++ rest)))) (λ e. omega arith)
      ((λ e. omega arith), ((λ e. omega arith), tt))
    ∙ rw (minus_one, parse_cstr)

pub Reads-error :
    (fuel : ℕ) (msg : Bytes)
    → IsLine msg
    → is_utf8 msg ≡ true
    → Reads (parse_fuel (suc fuel)) (error msg)
unfolding parse_fuel to_bytes parse_error
Reads-error fuel msg line text rest =
    line_step_end error_byte msg rest parse_error (λ e. omega arith) line
    ∙ rw (text, parse_error) (ap (found (error msg)) (line_size msg))

pub Reads-integer : (fuel : ℕ) (n : ℤ) → IsI64 n → Reads (parse_fuel (suc fuel)) (integer n)
unfolding parse_fuel to_bytes parse_integer
Reads-integer fuel n h rest =
    line_step_end integer_byte (int_to_string n) rest parse_integer (λ e. omega arith)
      (IsLine-int_to_string n)
    ∙ rw (line_i64-int_to_string n h, parse_integer)
        (ap (found (integer n)) (line_size (int_to_string n)))

-- The header of a string or an array.
abbrev pub header : ℕ → ℕ → Bytes
header first n = first ∷ (to_string n ++ crlf)

pub length-header : (first n : ℕ) → length (header first n) ≡ length (to_string n) + 3
length-header first n = omega (arith, length-append (to_string n) crlf)

parse_payload-cstr :
    (front b rest : Bytes)
    → length b ≤ max_complex_string_length
    → parse_payload (front ++ (b ++ (crlf ++ rest))) (length front) (length b)
      ≡ found (cstr b) (length front + length b + 2)
unfolding parse_payload bytes_eq
parse_payload-cstr front b rest h =
    let all : Bytes = front ++ (b ++ (crlf ++ rest)) in
    let fits : ltb (length all) (length front + length b + 2) ≡ false =
      le→ltb _ _ (
        omega (arith, length-append front (b ++ (crlf ++ rest)), length-append b (crlf ++ rest))) in
    let stop : length front + length b ≡ length (front ++ b) =
      omega (arith, length-append front b) in
    let regroup : all ≡ (front ++ b) ++ (crlf ++ rest) = simp append_assoc in
    let ending : drop (length front + length b) all ≡ crlf ++ rest =
      rw (stop, regroup, drop_append) in
    let value : take (length b) (drop (length front) all) ≡ b = rw (drop_append, take_append) in
    rw (fits, parse_payload, ending, value)

parse_cstr-line_of :
    (all : Bytes) (n : ℕ)
    → n ≤ max_complex_string_length
    → parse_cstr all (line_of cstring_byte (to_string n))
      ≡ parse_payload all (length (to_string n) + 3) n
unfolding parse_cstr
parse_cstr-line_of all n h =
    let fits : ltb max_complex_string_length n ≡ false = le→ltb _ _ h in
    rw (line_i64-to_string n (omega (arith, h)), parse_cstr, fits)

pub Reads-cstr :
    (fuel : ℕ) (b : Bytes)
    → length b ≤ max_complex_string_length
    → Reads (parse_fuel (suc fuel)) (cstr b)
unfolding parse_fuel to_bytes
Reads-cstr fuel b h rest =
    let n = length b in
    let front : Bytes = header cstring_byte n in
    let all : Bytes = front ++ (b ++ (crlf ++ rest)) in
    let shape : to_bytes (cstr b) ++ rest ≡ all = simp append_assoc in
    ap (parse_fuel (suc fuel)) shape
    ∙ line_step_end cstring_byte (to_string n) (b ++ (crlf ++ rest)) (parse_cstr all)
        (λ e. omega arith) (IsLine-to_string n)
    ∙ parse_cstr-line_of all n h
    ∙ ap (λ t. parse_payload all t n) (sym (length-header cstring_byte n))
    ∙ parse_payload-cstr front b rest h
    ∙ ap (found (cstr b)) (
        omega (
          arith,
          length-append (to_string n) (crlf ++ (b ++ crlf)),
          length-append (to_string n) crlf,
          length-append b crlf,
        ))
