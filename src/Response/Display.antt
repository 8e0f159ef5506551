-- ===== src/Response/Display.antt =====
-- `Display` of response.rs: responses, and the messages of errors. `String::from_utf8_lossy`, `Debug`
-- and the text of an I/O error are parameters.
use simple_kv.Prelude.{ℕ, [], ◌∷◌, ◌++◌}
use simple_kv.Util.{Bytes, codes, max_complex_string_length, cstring_byte, to_string}
use simple_kv.Response.{
  Response, Responses, ParseError, error, cstr, null, integer, array, nil, cons, sstr_byte,
  error_byte, integer_byte, array_byte, int_to_string, missing_crlf, invalid_utf8, invalid_int,
  poisoned, unexpected_eof, io, unexpected_prefix, cstring_too_long, unexpected_sstr,
  invalid_cstring_length, invalid_array_length,
}

module _ (from_utf8_lossy : Bytes → Bytes) where
  unfoldable mutual
    pub display : Response → Bytes
    display Response.ok = codes "OK"
    display (error msg) = msg
    display (cstr b) = from_utf8_lossy b
    display null = codes "(nil)"
    display (integer n) = int_to_string n
    display (array nil) = []
    display (array (cons r rs)) = display r ++ display_rest rs

    -- The elements behind the first one.
    pub display_rest : Responses → Bytes
    display_rest nil = []
    display_rest (cons r rs) = codes ", " ++ (display r ++ display_rest rs)

-- The constant `PREFIX_BYTES`.
abbrev pub prefix_bytes : Bytes
prefix_bytes = sstr_byte ∷ error_byte ∷ cstring_byte ∷ integer_byte ∷ array_byte ∷ []

module _ (debug_bytes : Bytes → Bytes) (debug_char : ℕ → Bytes) (debug_string : Bytes → Bytes)
    (io_text : Bytes) where
  unfoldable pub error_text : ParseError → Bytes
  error_text missing_crlf = codes "expected crlf"
  error_text invalid_utf8 = codes "invalid utf-8 in payload"
  error_text invalid_int = codes "invalid integer in payload"
  error_text (unexpected_prefix got) =
      codes "unexpected response prefix byte, expected one of "
      ++ (debug_bytes prefix_bytes ++ (codes ", but got: " ++ debug_char got))
  error_text (unexpected_sstr s) = codes "expected sstr OK, got " ++ debug_string s
  error_text (cstring_too_long n) =
      codes "complex string length "
      ++ (to_string n ++ (codes " exceeds maximum " ++ to_string max_complex_string_length))
  error_text (invalid_cstring_length n) = codes "invalid complex string length " ++ int_to_string n
  error_text (invalid_array_length n) = codes "invalid array length " ++ int_to_string n
  error_text io = codes "failed to read response: " ++ io_text
  error_text poisoned = codes "decoder was reused after a previous error"
  error_text unexpected_eof = codes "unexpected EOF during response parsing"
