-- ===== src/Request.antt =====
-- request.rs: RESP requests, and the decoder that reads them from a byte stream.
-- The reader is the list of what its reads return. The payloads of `Utf8Error` and
-- `ParseIntError` are left out, and so is logging.
pub mod BulkString
pub mod Chunks
pub mod Cut
pub mod Display
pub mod Filling
pub mod Header
pub mod Pipeline
pub mod Poison
pub mod RoundTrip
pub mod Streaming
use simple_kv.Prelude.{
  ℕ, zero, suc, ◌+◌, ◌-◌, ◌*◌, Bool, true, false, ◌&&◌, Option, none, some, List, [], ◌∷◌, ◌++◌,
  ltb, leb, ◌==◌, if◌then◌else◌, length, take, drop, ◌≡◌, refl, Result, done, err,
}
use simple_kv.Util.{
  Bytes, Parsed, codes, cr, lf, crlf, cstring_byte, max_complex_string_length, parse_line, is_utf8,
  parse_uint, max_u64, to_string,
}

abbrev pub max_array_length : ℕ
max_array_length = 1024 * 1024

abbrev pub read_chunk_size : ℕ
read_chunk_size = 8192

abbrev pub array_byte : ℕ
array_byte = b'*'

pub record Request : Type 0 where
  pub cstrs : List Bytes

pub record RequestDecoder : Type 0 where
  pub cursor : ℕ
  pub expected_arg_count : Option ℕ
  pub buffer : Bytes
  pub args : List Bytes
  pub poisoned : Bool

-- `RequestDecoder::default()`
abbrev pub default_decoder : RequestDecoder
default_decoder = record {
  cursor = 0;
  expected_arg_count = none;
  buffer = [];
  args = [];
  poisoned = false;
}

pub data RequestParseError : Type 0 where
  missing_first_byte missing_crlf invalid_utf8 invalid_int io poisoned unexpected_eof :
      RequestParseError
  expected_array array_too_long expected_cstring cstring_too_long : ℕ → RequestParseError

abbrev pub Decoded : Type 0 → Type 0
Decoded A = Result RequestParseError (Option A)

-- `Request::to_bytes`
unfoldable pub bulk_bytes : List Bytes → Bytes
bulk_bytes [] = []
bulk_bytes (cstr ∷ cstrs) =
    cstring_byte ∷ (to_string (length cstr) ++ (crlf ++ (cstr ++ (crlf ++ bulk_bytes cstrs))))

unfoldable pub to_bytes : Request → Bytes
unfolding bulk_bytes
to_bytes r = array_byte ∷ (to_string (length r.cstrs) ++ (crlf ++ bulk_bytes r.cstrs))

-- The number of a header line behind its first byte.
unfoldable pub header_number : Bytes → ℕ → (ℕ → RequestParseError) → ℕ → Decoded (Parsed ℕ)
header_number text max too_long taken = elim (is_utf8 text) [
  | false ↦ err invalid_utf8
  | true ↦ elim (parse_uint max_u64 text) [
    | none ↦ err invalid_int
    | some n ↦
        if ltb max n
        then err (too_long n)
        else done (some (record { value = n; num_bytes_parsed = taken }))
  ]
]

unfoldable pub header_line :
    Parsed Bytes → ℕ → ℕ → (ℕ → RequestParseError) → (ℕ → RequestParseError) → Decoded (Parsed ℕ)
header_line header header_byte max expected too_long = elim header.value [
  | [] ↦ err missing_first_byte
  | first ∷ text ↦
      if first == header_byte
      then header_number text max too_long header.num_bytes_parsed
      else err (expected first)
]

unfoldable pub parse_header :
    Bytes → ℕ → ℕ → (ℕ → RequestParseError) → (ℕ → RequestParseError) → Decoded (Parsed ℕ)
parse_header bytes header_byte max expected too_long = elim (parse_line bytes) [
  | none ↦ done none
  | some header ↦ header_line header header_byte max expected too_long
]

unfoldable pub is_crlf : Bytes → Bool
is_crlf (a ∷ b ∷ []) = a == cr && b == lf
is_crlf _ = false

-- The payload of a bulk string behind its header, and its CRLF.
unfoldable pub parse_payload : RequestDecoder → Parsed ℕ → Decoded Bytes × RequestDecoder
parse_payload d header =
    let data_start = d.cursor + header.num_bytes_parsed in
    let cstr_crlf_idx = data_start + header.value + 2 in
    if ltb (length d.buffer) cstr_crlf_idx
    then (done none, d)
    else (elim (is_crlf (take 2 (drop (data_start + header.value) d.buffer))) [
      | false ↦ (err missing_crlf, d)
      | true ↦ (
        done (some (take header.value (drop data_start d.buffer))),
        record d { cursor = cstr_crlf_idx },
      )
    ])

unfoldable pub parse_cstr : RequestDecoder → Decoded Bytes × RequestDecoder
parse_cstr d =
    if leb (length d.buffer) d.cursor
    then (done none, d)
    else (elim (parse_header (drop d.cursor d.buffer) cstring_byte max_complex_string_length
        expected_cstring cstring_too_long) [
          | err e ↦ (err e, d)
          | done none ↦ (done none, d)
          | done (some header) ↦ parse_payload d header
        ])

-- `take_request`, with the request that `decode_buffered` makes of it
unfoldable pub take_request : RequestDecoder → Request × RequestDecoder
take_request d = (
  record { cstrs = d.args },
  record d { buffer = drop d.cursor d.buffer; cursor = 0; expected_arg_count = none; args = [] },
)

-- One round of the `while` loop of `decode_buffered`, with the rounds that follow.
abbrev pub push_arg :
    (RequestDecoder → Decoded Request × RequestDecoder)
    → Decoded Bytes × RequestDecoder
    → Decoded Request × RequestDecoder
push_arg rounds (err e, d) = (err e, d)
push_arg rounds (done none, d) = (done none, d)
push_arg rounds (done (some cstr), d) = rounds (record d { args = d.args ++ cstr ∷ [] })

-- The loop, with the number of arguments that are missing.
unfoldable pub fill_args : ℕ → RequestDecoder → Decoded Request × RequestDecoder
fill_args zero d = let (r, d') = take_request d in (done (some r), d')
fill_args (suc missing) d = push_arg (fill_args missing) (parse_cstr d)

unfoldable pub decode_buffered : RequestDecoder → Decoded Request × RequestDecoder
decode_buffered d = elim d.expected_arg_count [
  | some n ↦ fill_args (n - length d.args) d
  | none ↦ elim (parse_header d.buffer array_byte max_array_length expected_array array_too_long) [
    | err e ↦ (err e, d)
    | done none ↦ (done none, d)
    | done (some header) ↦
        fill_args (header.value - length d.args)
          (record d { expected_arg_count = some header.value; cursor = header.num_bytes_parsed })
  ]
]

abbrev pub poison : Decoded Request × RequestDecoder → Decoded Request × RequestDecoder
poison (err e, d) = (err e, record d { poisoned = true })
poison (done o, d) = (done o, d)

unfoldable pub decode_next : RequestDecoder → Decoded Request × RequestDecoder
decode_next d = if d.poisoned then (err poisoned, d) else poison (decode_buffered d)

unfoldable pub validate_eof : RequestDecoder → Decoded Request
validate_eof d =
    if d.poisoned
    then err poisoned
    else elim d.buffer [ [] ↦ done none | _ ∷ _ ↦ err unexpected_eof ]

-- What one call of `read` returns: an I/O error, or the bytes it read, none at the end of input.
pub data Chunk : Type 0 where
  failed : Chunk
  bytes : Bytes → Chunk

abbrev pub feed : RequestDecoder → Bytes → RequestDecoder
feed d more = record d { buffer = d.buffer ++ more }

-- What the loop of `read_next` does with the decoder's answer: an end, or one more read.
abbrev pub or_read :
    List Chunk
    → (RequestDecoder → Decoded Request × RequestDecoder × List Chunk)
    → Decoded Request × RequestDecoder
    → Decoded Request × RequestDecoder × List Chunk
or_read chunks read (err e, d) = (err e, d, chunks)
or_read chunks read (done none, d) = read d
or_read chunks read (done (some q), d) = (done (some q), d, chunks)

-- `read_next` and `read_next_async`, with what is left of the reader; its end is an empty read.
unfoldable pub read_next :
    List Chunk → RequestDecoder → Decoded Request × RequestDecoder × List Chunk
read_next [] d = or_read [] (λ d'. (validate_eof d', d', [])) (decode_next d)
read_next (failed ∷ chunks) d =
    or_read (failed ∷ chunks) (λ d'. (err io, d', chunks)) (decode_next d)
read_next (bytes [] ∷ chunks) d =
    or_read (bytes [] ∷ chunks) (λ d'. (validate_eof d', d', chunks)) (decode_next d)
read_next (bytes (b ∷ bs) ∷ chunks) d =
    or_read (bytes (b ∷ bs) ∷ chunks) (λ d'. read_next chunks (feed d' (b ∷ bs))) (decode_next d)

to_bytes_test :
    to_bytes (record { cstrs = codes "GET" ∷ codes "ab" ∷ [] })
    ≡ codes "*2\r\n$3\r\nGET\r\n$2\r\nab\r\n"
unfolding to_bytes to_string
to_bytes_test = refl
