-- ===== src/Request/RoundTrip.antt =====
-- What `to_bytes` of request.rs writes, `decode_next` reads back.
use simple_kv.Prelude.{
  ℕ, suc, ◌+◌, ◌-◌, ◌≤◌, ◌≡◌, ◌≢◌, ◌∙◌, refl, ap, Option, none, some, List, [], ◌∷◌, ◌++◌,
  append_assoc, append-nil, length, length-append, take, drop, take_append, drop_append, All, false,
  ltb, leb, le→ltb, lt→leb, ==_refl, if◌then◌else◌, arith, done, err,
}
use simple_kv.Util.{
  Bytes, Parsed, cr, crlf, cstring_byte, max_complex_string_length, max_u64, to_string,
}
use simple_kv.Util.Line.{IsLine, parse_line-line}
use simple_kv.Util.Decimal.{IsDigit, All-to_string, parse_uint-to_string, is_utf8-to_string}
use simple_kv.Request.{
  Request, RequestDecoder, RequestParseError, array_byte, max_array_length, bulk_bytes, to_bytes,
  header_number, header_line, parse_header, parse_payload, parse_cstr, is_crlf, take_request,
  fill_args, push_arg, poison, decode_buffered, decode_next, default_decoder, poisoned,
  expected_array, array_too_long, expected_cstring, cstring_too_long, feed,
}

-- The bytes of a header: its first byte and a number.
abbrev header : ℕ → ℕ → Bytes
header byte n = byte ∷ to_string n

IsLine-digits : (s : Bytes) → All IsDigit s → IsLine s
IsLine-digits [] h = tt
IsLine-digits (c ∷ s) ((lo, hi), h) = ((λ e. omega arith), IsLine-digits s h)

-- A header in range is read whole.
parse_header-header :
    (byte n max : ℕ) (rest : Bytes) (expected too_long : ℕ → RequestParseError)
    → byte ≢ cr
    → n ≤ max
    → max ≤ max_u64
    → parse_header (byte ∷ (to_string n ++ (crlf ++ rest))) byte max expected too_long
      ≡ done (some (record { value = n; num_bytes_parsed = length (to_string n) + 3 }))
unfolding parse_header header_line header_number
parse_header-header byte n max rest expected too_long plain small fits =
    let line =
      parse_line-line (byte ∷ to_string n) rest
        (plain, IsLine-digits (to_string n) (All-to_string n)) in
    let count : suc (length (to_string n)) + 2 ≡ length (to_string n) + 3 = omega arith in
    rw (
      line,
      parse_header,
      ==_refl byte,
      is_utf8-to_string n,
      header_number,
      parse_uint-to_string max_u64 n (omega arith),
      le→ltb max n small,
      count,
    )

-- A decoder with the buffer `buf`, read up to `k`.
abbrev pub at : ℕ → Option ℕ → Bytes → List Bytes → RequestDecoder
at k expected buf args = record {
  cursor = k;
  expected_arg_count = expected;
  buffer = buf;
  args = args;
  poisoned = false;
}

-- A bulk string as `to_bytes` writes it, and what follows.
abbrev item : Bytes → Bytes → Bytes
item c rest = cstring_byte ∷ (to_string (length c) ++ (crlf ++ (c ++ (crlf ++ rest))))

abbrev head_bytes : Bytes → Bytes
head_bytes c = cstring_byte ∷ (to_string (length c) ++ crlf)

abbrev whole : Bytes → Bytes
whole c = head_bytes c ++ (c ++ crlf)

item-whole : (c rest : Bytes) → item c rest ≡ whole c ++ rest
item-whole c rest = simp append_assoc

item_split :
    (front c rest : Bytes) → front ++ item c rest ≡ (front ++ head_bytes c) ++ (c ++ (crlf ++ rest))
item_split front c rest = simp append_assoc

item_split_end :
    (front c rest : Bytes) → front ++ item c rest ≡ ((front ++ head_bytes c) ++ c) ++ (crlf ++ rest)
item_split_end front c rest = simp append_assoc

length-head : (c : Bytes) → length (head_bytes c) ≡ length (to_string (length c)) + 3
length-head c = omega (arith, length-append (to_string (length c)) crlf)

-- A bulk string in the buffer is read whole, and the cursor moves behind it.
parse_cstr-item :
    (front c rest : Bytes) (expected : Option ℕ) (args : List Bytes)
    → length c ≤ max_complex_string_length
    → parse_cstr (at (length front) expected (front ++ item c rest) args)
      ≡ (done (some c), at (length (front ++ whole c)) expected (front ++ item c rest) args)
unfolding parse_cstr parse_payload is_crlf
parse_cstr-item front c rest expected args small =
    let n = length (to_string (length c)) + 3 in
    let more : leb (length (front ++ item c rest)) (length front) ≡ false =
      lt→leb _ _ (omega (arith, length-append front (item c rest))) in
    let hdr =
      parse_header-header cstring_byte (length c) max_complex_string_length (c ++ (crlf ++ rest))
        expected_cstring cstring_too_long (λ e. omega arith) small (omega arith) in
    let start : length front + n ≡ length (front ++ head_bytes c) =
      omega (arith, length-append front (head_bytes c), length-head c) in
    let stop : length (front ++ head_bytes c) + length c ≡ length ((front ++ head_bytes c) ++ c) =
      omega (arith, length-append (front ++ head_bytes c) c) in
    let end : length ((front ++ head_bytes c) ++ c) + 2 ≡ length (front ++ whole c) = omega (
      arith,
      length-append (front ++ head_bytes c) c,
      length-append front (head_bytes c),
      length-append front (whole c),
      length-append (head_bytes c) (c ++ crlf),
      length-append c crlf,
    ) in
    let value : take (length c) (drop (length front + n) (front ++ item c rest)) ≡ c =
      rw (start, item_split front c rest, drop_append, take_append) in
    let ending : drop (length front + n + length c) (front ++ item c rest) ≡ crlf ++ rest =
      rw (start, stop, item_split_end front c rest, drop_append) in
    let sum : length front + n + length c + 2 ≡ length (front ++ whole c) = rw (start, stop) end in
    let fits : ltb (length (front ++ item c rest)) (length front + n + length c + 2) ≡ false =
      le→ltb _ _ (
        rw (sum, item-whole)
          (omega (
            arith,
            length-append front (whole c ++ rest),
            length-append (whole c) rest,
            length-append front (whole c),
          ))) in
    rw
      (more, drop_append front (item c rest), hdr, parse_payload, fits, ending, is_crlf, value, sum)

-- One round of the loop of `decode_buffered`.
pub fill_args_step :
    (missing : ℕ) (d d' : RequestDecoder) (cstr : Bytes)
    → parse_cstr d ≡ (done (some cstr), d')
    → fill_args (suc missing) d ≡ fill_args missing (record d' { args = d'.args ++ cstr ∷ [] })
unfolding fill_args
fill_args_step missing d d' cstr p = ap (push_arg (fill_args missing)) p

-- The loop of `decode_buffered` over the bulk strings of a request.
fill_args-bulk :
    (cs : List Bytes) (front rest : Bytes) (expected : Option ℕ) (args : List Bytes)
    → All (λ c. length c ≤ max_complex_string_length) cs
    → fill_args (length cs) (at (length front) expected (front ++ (bulk_bytes cs ++ rest)) args)
      ≡ (done (some (record { cstrs = args ++ cs })), at 0 none rest [])
unfolding fill_args bulk_bytes take_request
fill_args-bulk [] front rest expected args h = rw (drop_append, append-nil)
fill_args-bulk (c ∷ cs) front rest expected args (small, h) =
    let tail : Bytes = bulk_bytes cs ++ rest in
    let e : bulk_bytes (c ∷ cs) ++ rest ≡ item c tail = simp append_assoc in
    let w : front ++ item c tail ≡ (front ++ whole c) ++ tail = simp append_assoc in
    let here : RequestDecoder = at (length front) expected (front ++ item c tail) args in
    let next : RequestDecoder =
      at (length (front ++ whole c)) expected (front ++ item c tail) args in
    ap (λ t. fill_args (suc (length cs)) (at (length front) expected (front ++ t) args)) e
    ∙ fill_args_step (length cs) here next c (parse_cstr-item front c tail expected args small)
    ∙ ap (λ t. fill_args (length cs) (at (length (front ++ whole c)) expected t (args ++ c ∷ []))) w
    ∙ fill_args-bulk cs (front ++ whole c) rest expected (args ++ c ∷ []) h
    ∙ ap (λ t. (done (some (record { cstrs = t })), at 0 none rest []))
        (append_assoc args (c ∷ []) cs)

-- A request whose sizes are within the limits, as the decoder meets it at the front of its buffer.
pub record IsRequest (r : Request) : Type 0 where
  pub count : length r.cstrs ≤ max_array_length
  pub sizes : All (λ c. length c ≤ max_complex_string_length) r.cstrs

header_step :
    (k : ℕ) (buf : Bytes) (args : List Bytes) (h : Parsed ℕ)
    → parse_header buf array_byte max_array_length expected_array array_too_long ≡ done (some h)
    → decode_buffered (at k none buf args)
      ≡ fill_args (h.value - length args) (at h.num_bytes_parsed (some h.value) buf args)
unfolding decode_buffered
header_step k buf args h p = rw (p, decode_buffered)

decode_buffered-to_bytes :
    (r : Request) (rest : Bytes)
    → IsRequest r
    → decode_buffered (feed default_decoder (to_bytes r ++ rest))
      ≡ (done (some r), feed default_decoder rest)
unfolding to_bytes
decode_buffered-to_bytes r rest v =
    let n = length r.cstrs in
    let tail : Bytes = bulk_bytes r.cstrs ++ rest in
    let front : Bytes = array_byte ∷ (to_string n ++ crlf) in
    let buf : Bytes = array_byte ∷ (to_string n ++ (crlf ++ tail)) in
    let e : to_bytes r ++ rest ≡ buf = simp append_assoc in
    let split : buf ≡ front ++ tail = simp append_assoc in
    let width : length (to_string n) + 3 ≡ length front =
      omega (arith, length-append (to_string n) crlf) in
    let all : n - 0 ≡ n = omega arith in
    let head : Parsed ℕ = record { value = n; num_bytes_parsed = length (to_string n) + 3 } in
    ap (λ t. decode_buffered (feed default_decoder t)) e
    ∙ header_step 0 buf [] head (
        parse_header-header array_byte n max_array_length tail expected_array array_too_long
          (λ e. omega arith) v.count (omega arith))
    ∙ ap (λ t. fill_args t (at (length (to_string n) + 3) (some n) buf [])) all
    ∙ ap (λ t. fill_args n (at t (some n) buf [])) width
    ∙ ap (λ t. fill_args n (at (length front) (some n) t [])) split
    ∙ fill_args-bulk r.cstrs front rest (some n) [] v.sizes

pub decode_next_step :
    (d d' : RequestDecoder) (o : Option Request)
    → d.poisoned ≡ false
    → decode_buffered d ≡ (done o, d')
    → decode_next d ≡ (done o, d')
unfolding decode_next
decode_next_step d d' o clean p =
    ap (λ t. if t then (err poisoned, d) else poison (decode_buffered d)) clean ∙ ap poison p

-- A request within the decoder's limits, at the front of an otherwise fresh decoder's buffer, is
-- decoded whole; what follows it is all that is left in the decoder.
pub decode_next-to_bytes :
    (r : Request) (rest : Bytes)
    → IsRequest r
    → decode_next (feed default_decoder (to_bytes r ++ rest))
      ≡ (done (some r), feed default_decoder rest)
decode_next-to_bytes r rest v =
    decode_next_step _ _ (some r) refl (decode_buffered-to_bytes r rest v)
