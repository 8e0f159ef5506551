-- ===== src/Server/Texts.antt =====
-- The error responses of server.rs, which carry the messages of request.rs and command.rs, as a client
-- reads them.
use simple_kv.Prelude.{ℕ, ◌≡◌, refl, some, List, [], ◌++◌, Result}
use simple_kv.Util.{Bytes, codes, is_utf8, max_complex_string_length, to_string}
use simple_kv.Util.Texts.{IsText, literal-IsText, append-IsText}
use simple_kv.Util.Decimal.{is_utf8-to_string}
use simple_kv.Request
use simple_kv.Request.{
  RequestParseError, max_array_length, missing_first_byte, missing_crlf, invalid_utf8, invalid_int,
  io, poisoned, unexpected_eof, expected_array, array_too_long, expected_cstring, cstring_too_long,
}
use simple_kv.Response.{Response, error}
use simple_kv.Response
use simple_kv.Response.Numbers.{IsLine-to_string}
use simple_kv.Response.Reads.{IsResponse}
use simple_kv.Response.RoundTrip.{buffered, decode_next-to_bytes_Response}
use simple_kv.Command.{CommandError}
use simple_kv.Command
use simple_kv.Command.Display.{command_names}

number-IsText : (n : ℕ) → IsText (to_string n)
number-IsText n = (IsLine-to_string n, is_utf8-to_string n)

-- A number between two literals.
too_long-IsText :
    (a b : Bytes) (n max : ℕ)
    → IsText a
    → IsText b
    → IsText (a ++ (to_string n ++ (b ++ to_string max)))
too_long-IsText a b n max p q = append-IsText a (to_string n ++ (b ++ to_string max)) p (
    append-IsText (to_string n) (b ++ to_string max) (number-IsText n)
      (append-IsText b (to_string max) q (number-IsText max)))

module _ (debug_char : ℕ → Bytes) (io_text : Bytes) where
  error_text-IsText :
      ((c : ℕ) → IsText (debug_char c))
      → IsText io_text
      → (e : RequestParseError) → IsText (Request.Display.error_text debug_char io_text e)
  unfolding Request.Display.error_text is_utf8
  error_text-IsText d i missing_first_byte =
      literal-IsText (codes "request was empty; no first byte present") refl refl
  error_text-IsText d i (expected_array ch) =
      append-IsText (codes "expected top-level array (*), got ") (debug_char ch)
        (literal-IsText (codes "expected top-level array (*), got ") refl refl) (d ch)
  error_text-IsText d i missing_crlf = literal-IsText (codes "expected crlf") refl refl
  error_text-IsText d i invalid_utf8 = literal-IsText (codes "invalid utf-8 in payload") refl refl
  error_text-IsText d i invalid_int = literal-IsText (codes "invalid integer in payload") refl refl
  error_text-IsText d i io =
      append-IsText (codes "failed to read request: ") io_text
        (literal-IsText (codes "failed to read request: ") refl refl) i
  error_text-IsText d i (array_too_long n) =
      too_long-IsText (codes "array length ") (codes " exceeds maximum ") n max_array_length
        (literal-IsText (codes "array length ") refl refl)
        (literal-IsText (codes " exceeds maximum ") refl refl)
  error_text-IsText d i (expected_cstring ch) =
      append-IsText (codes "expected complex string ($), got ") (debug_char ch)
        (literal-IsText (codes "expected complex string ($), got ") refl refl) (d ch)
  error_text-IsText d i (cstring_too_long n) =
      too_long-IsText (codes "bulk string length ") (codes " exceeds maximum ") n
        max_complex_string_length (literal-IsText (codes "bulk string length ") refl refl)
        (literal-IsText (codes " exceeds maximum ") refl refl)
  error_text-IsText d i poisoned =
      literal-IsText (codes "decoder was reused after a previous error") refl refl
  error_text-IsText d i unexpected_eof =
      literal-IsText (codes "unexpected EOF during request parsing") refl refl

  -- The error response to bytes that are not a request is decoded by a client as it was sent, and
  -- what follows it is all that is left, if the `Debug` of a character and the text of an I/O error
  -- are lines of UTF-8 without a CR.
  pub request_error_lem :
      ((c : ℕ) → IsText (debug_char c))
      → IsText io_text
      → (e : RequestParseError) (rest : Bytes)
      → Response.decode_next (
          buffered
            (Response.to_bytes (error (Request.Display.error_text debug_char io_text e)) ++ rest))
        ≡ (
          Result.done (some (error (Request.Display.error_text debug_char io_text e))),
          buffered rest,
        )
  unfolding IsResponse
  request_error_lem d i e rest =
      decode_next-to_bytes_Response (error (Request.Display.error_text debug_char io_text e)) rest
        (error_text-IsText d i e)

-- What a message repeats of the request.
abbrev pub quoted : CommandError → Bytes
quoted (Command.unrecognized_command command) = command
quoted (Command.invalid_expiration text) = text
quoted e = []

quoted-IsText :
    (debug : List Bytes → Bytes) (e : CommandError)
    → IsText (debug command_names)
    → IsText (quoted e)
    → IsText (Command.Display.error_text debug e)
unfolding Command.Display.error_text is_utf8
quoted-IsText debug Command.invalid_utf8 d q =
    literal-IsText (codes "command name was not valid utf-8") refl refl
quoted-IsText debug (Command.unrecognized_command command) d q =
    append-IsText (codes "unrecognized command name: ")
      (command ++ (codes ", expected one of: " ++ debug command_names))
      (literal-IsText (codes "unrecognized command name: ") refl refl)
      (append-IsText command (codes ", expected one of: " ++ debug command_names) q (
        append-IsText (codes ", expected one of: ") (debug command_names)
          (literal-IsText (codes ", expected one of: ") refl refl) d))
quoted-IsText debug (Command.too_few_arguments n) d q =
    append-IsText (codes "command has too few arguments; request had ")
      (to_string n ++ codes " elements")
      (literal-IsText (codes "command has too few arguments; request had ") refl refl)
      (append-IsText (to_string n) (codes " elements") (number-IsText n)
        (literal-IsText (codes " elements") refl refl))
quoted-IsText debug (Command.too_many_arguments n) d q =
    append-IsText (codes "request had too many elements: ") (to_string n)
      (literal-IsText (codes "request had too many elements: ") refl refl) (number-IsText n)
quoted-IsText debug (Command.uneven_argument_length n) d q =
    append-IsText (codes "expected even length, got len: ") (to_string n)
      (literal-IsText (codes "expected even length, got len: ") refl refl) (number-IsText n)
quoted-IsText debug (Command.invalid_expiration text) d q =
    append-IsText (codes "expiration must be a valid integer, got: ") text
      (literal-IsText (codes "expiration must be a valid integer, got: ") refl refl) q

-- The error response to a request that is not a command is decoded by a client as it was sent, and
-- what follows it is all that is left, if the `Debug` of the names of the commands and what the
-- message repeats of the request are lines of UTF-8 without a CR.
pub command_error_lem :
    (debug : List Bytes → Bytes) (e : CommandError) (rest : Bytes)
    → IsText (debug command_names)
    → IsText (quoted e)
    → Response.decode_next
        (buffered (Response.to_bytes (error (Command.Display.error_text debug e)) ++ rest))
      ≡ (Result.done (some (error (Command.Display.error_text debug e))), buffered rest)
unfolding IsResponse
command_error_lem debug e rest d q =
    decode_next-to_bytes_Response (error (Command.Display.error_text debug e)) rest
      (quoted-IsText debug e d q)
