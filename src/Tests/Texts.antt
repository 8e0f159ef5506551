-- ===== src/Tests/Texts.antt =====
-- The theorems on error responses at concrete inputs.
use simple_kv.Prelude.{done, ◌≡◌, refl, some, List, [], ◌∷◌, ◌++◌}
use simple_kv.Util.{Bytes, codes, is_utf8, to_string}
use simple_kv.Request.{
  Request, RequestParseError, Chunk, bytes, unexpected_eof, default_decoder, max_array_length, feed,
}
use simple_kv.Request
use simple_kv.Command.{Command, CommandError, is_write_op, name, parts, write_parts}
use simple_kv.Command
use simple_kv.Util.Texts.{literal-IsText}
use simple_kv.Util.Decimal.{is_utf8-to_string}
use simple_kv.Request.{expected_array}
use simple_kv.Response.{error}
use simple_kv.Response
use simple_kv.Response.Numbers.{IsLine-to_string}
use simple_kv.Response.RoundTrip.{buffered}
use simple_kv.Command.Display.{command_names}
use simple_kv.Server.Texts.{request_error_lem, command_error_lem}
use simple_kv.Tests.{bytes_key, a_key}

request_error_lem_example :
    Response.decode_next (
      buffered (
        Response.to_bytes (error (Request.Display.error_text to_string [] (expected_array 63)))
        ++ codes "+O"))
    ≡ (
      done (some (error (Request.Display.error_text to_string [] (expected_array 63)))),
      buffered (codes "+O"),
    )
unfolding is_utf8
request_error_lem_example =
    request_error_lem to_string [] (λ c. (IsLine-to_string c, is_utf8-to_string c)) (tt, refl)
      (expected_array 63) (codes "+O")

abbrev joined : List Bytes → Bytes
joined [] = []
joined (name ∷ names) = name ++ (b' ' ∷ joined names)

command_error_lem_example :
    Response.decode_next (
      buffered (
        Response.to_bytes
          (error (Command.Display.error_text joined (Command.unrecognized_command a_key)))
        ++ []))
    ≡ (
      done (some (error (Command.Display.error_text joined (Command.unrecognized_command a_key)))),
      buffered [],
    )
unfolding is_utf8
command_error_lem_example =
    command_error_lem joined (Command.unrecognized_command a_key) []
      (literal-IsText (joined command_names) refl refl) (literal-IsText a_key refl refl)
