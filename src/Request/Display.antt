-- ===== src/Request/Display.antt =====
-- `Display` of request.rs: requests, and the messages of errors. `String::from_utf8_lossy`, the `Debug`
-- of a character and the text of an I/O error are parameters.
use simple_kv.Prelude.{ℕ, List, [], ◌∷◌, ◌++◌}
use simple_kv.Util.{Bytes, codes, max_complex_string_length, to_string}
use simple_kv.Request.{
  Request, RequestParseError, max_array_length, missing_first_byte, missing_crlf, invalid_utf8,
  invalid_int, io, poisoned, unexpected_eof, expected_array, array_too_long, expected_cstring,
  cstring_too_long,
}

module _ (from_utf8_lossy : Bytes → Bytes) where
  -- The strings behind the first one.
  unfoldable pub display_rest : List Bytes → Bytes
  display_rest [] = []
  display_rest (cstr ∷ cstrs) = b' ' ∷ (from_utf8_lossy cstr ++ display_rest cstrs)

  unfoldable pub display_all : List Bytes → Bytes
  display_all [] = []
  display_all (cstr ∷ cstrs) = from_utf8_lossy cstr ++ display_rest cstrs

  unfoldable pub display : Request → Bytes
  display r = display_all r.cstrs

module _ (debug_char : ℕ → Bytes) (io_text : Bytes) where
  unfoldable pub error_text : RequestParseError → Bytes
  error_text missing_first_byte = codes "request was empty; no first byte present"
  error_text (expected_array ch) = codes "expected top-level array (*), got " ++ debug_char ch
  error_text missing_crlf = codes "expected crlf"
  error_text invalid_utf8 = codes "invalid utf-8 in payload"
  error_text invalid_int = codes "invalid integer in payload"
  error_text io = codes "failed to read request: " ++ io_text
  error_text (array_too_long n) =
      codes "array length "
      ++ (to_string n ++ (codes " exceeds maximum " ++ to_string max_array_length))
  error_text (expected_cstring ch) = codes "expected complex string ($), got " ++ debug_char ch
  error_text (cstring_too_long n) =
      codes "bulk string length "
      ++ (to_string n ++ (codes " exceeds maximum " ++ to_string max_complex_string_length))
  error_text poisoned = codes "decoder was reused after a previous error"
  error_text unexpected_eof = codes "unexpected EOF during request parsing"
