-- ===== src/Tests/ResponseUnit.antt =====
-- The unit tests of response.rs, as statements on the model.
use simple_kv.Prelude.{◌≡◌, refl, false, none, some, [], ◌∷◌, done, err}
use simple_kv.Prelude.Int.{pos, negsuc}
use simple_kv.Util.{Bytes, codes, bytes_eq, parse_line, is_utf8, parse_uint, to_string}
use simple_kv.Request.{bytes}
use simple_kv.Response.{
  Response, ResponseDecoder, Decoded, error, cstr, null, integer, array, nil, cons, missing_crlf,
  invalid_utf8, poisoned, unexpected_eof, unexpected_prefix, unexpected_sstr,
  invalid_cstring_length, int_to_string, to_bytes, parse_negative, parse_i64, line_i64, parse_sstr,
  parse_error, parse_integer, parse_payload, parse_cstr, parse_elements, parse_array, parse_fuel,
  parse_response, decode_buffered, decode_next, validate_eof,
}
use simple_kv.Response.Reader.{feed, read_next}

abbrev default_decoder : ResponseDecoder
default_decoder = record { buffer = []; poisoned = false }

abbrev push_parse : ResponseDecoder → Bytes → Decoded Response × ResponseDecoder
push_parse parser input = decode_next (feed parser input)

-- The response is parsed, and the input consumed.
abbrev AssertParses : Bytes → Response → Type 0
AssertParses input expected =
    ((push_parse default_decoder input).0 ≡ done (some expected))
    × ((decode_next (push_parse default_decoder input).1).0 ≡ done none)

abbrev AssertIncomplete : Bytes → Type 0
AssertIncomplete input = (push_parse default_decoder input).0 ≡ done none

abbrev AssertRoundTrips : Response → Type 0
AssertRoundTrips response =
    (push_parse default_decoder (to_bytes response)).0 ≡ done (some response)

abbrev ParsesOk : Type 0
ParsesOk = AssertParses (codes "+OK\r\n") Response.ok

parses_ok : ParsesOk
unfolding int_to_string to_bytes parse_negative parse_i64 line_i64 parse_sstr parse_error
    parse_integer parse_payload parse_cstr parse_elements parse_array parse_fuel parse_response
    decode_buffered decode_next validate_eof read_next bytes_eq parse_line is_utf8 parse_uint
    to_string
parses_ok = (refl, refl)

abbrev ParsesError : Type 0
ParsesError =
    AssertParses (codes "-ERR unknown command 'MYKEY'\r\n")
      (error (codes "ERR unknown command 'MYKEY'"))

parses_error : ParsesError
unfolding int_to_string to_bytes parse_negative parse_i64 line_i64 parse_sstr parse_error
    parse_integer parse_payload parse_cstr parse_elements parse_array parse_fuel parse_response
    decode_buffered decode_next validate_eof read_next bytes_eq parse_line is_utf8 parse_uint
    to_string
parses_error = (refl, refl)

abbrev ParsesEmptyError : Type 0
ParsesEmptyError = AssertParses (codes "-\r\n") (error [])

parses_empty_error : ParsesEmptyError
unfolding int_to_string to_bytes parse_negative parse_i64 line_i64 parse_sstr parse_error
    parse_integer parse_payload parse_cstr parse_elements parse_array parse_fuel parse_response
    decode_buffered decode_next validate_eof read_next bytes_eq parse_line is_utf8 parse_uint
    to_string
parses_empty_error = (refl, refl)

abbrev ParsesCstr : Type 0
ParsesCstr = AssertParses (codes "$5\r\nhello\r\n") (cstr (codes "hello"))

parses_cstr : ParsesCstr
unfolding int_to_string to_bytes parse_negative parse_i64 line_i64 parse_sstr parse_error
    parse_integer parse_payload parse_cstr parse_elements parse_array parse_fuel parse_response
    decode_buffered decode_next validate_eof read_next bytes_eq parse_line is_utf8 parse_uint
    to_string
parses_cstr = (refl, refl)

abbrev ParsesEmptyCstr : Type 0
ParsesEmptyCstr = AssertParses (codes "$0\r\n\r\n") (cstr [])

parses_empty_cstr : ParsesEmptyCstr
unfolding int_to_string to_bytes parse_negative parse_i64 line_i64 parse_sstr parse_error
    parse_integer parse_payload parse_cstr parse_elements parse_array parse_fuel parse_response
    decode_buffered decode_next validate_eof read_next bytes_eq parse_line is_utf8 parse_uint
    to_string
parses_empty_cstr = (refl, refl)

abbrev ParsesNullCstr : Type 0
ParsesNullCstr = AssertParses (codes "$-1\r\n") null

parses_null_cstr : ParsesNullCstr
unfolding int_to_string to_bytes parse_negative parse_i64 line_i64 parse_sstr parse_error
    parse_integer parse_payload parse_cstr parse_elements parse_array parse_fuel parse_response
    decode_buffered decode_next validate_eof read_next bytes_eq parse_line is_utf8 parse_uint
    to_string
parses_null_cstr = (refl, refl)

abbrev ParsesInteger : Type 0
ParsesInteger = AssertParses (codes ":2\r\n") (integer (pos 2))

parses_integer : ParsesInteger
unfolding int_to_string to_bytes parse_negative parse_i64 line_i64 parse_sstr parse_error
    parse_integer parse_payload parse_cstr parse_elements parse_array parse_fuel parse_response
    decode_buffered decode_next validate_eof read_next bytes_eq parse_line is_utf8 parse_uint
    to_string
parses_integer = (refl, refl)

abbrev ParsesNegativeInteger : Type 0
ParsesNegativeInteger = AssertParses (codes ":-1\r\n") (integer (negsuc 0))

parses_negative_integer : ParsesNegativeInteger
unfolding int_to_string to_bytes parse_negative parse_i64 line_i64 parse_sstr parse_error
    parse_integer parse_payload parse_cstr parse_elements parse_array parse_fuel parse_response
    decode_buffered decode_next validate_eof read_next bytes_eq parse_line is_utf8 parse_uint
    to_string
parses_negative_integer = (refl, refl)

abbrev ParsesArray : Type 0
ParsesArray =
    AssertParses (codes "*3\r\n$5\r\nvalue\r\n$-1\r\n:2\r\n")
      (array (cons (cstr (codes "value")) (cons null (cons (integer (pos 2)) nil))))

parses_array : ParsesArray
unfolding int_to_string to_bytes parse_negative parse_i64 line_i64 parse_sstr parse_error
    parse_integer parse_payload parse_cstr parse_elements parse_array parse_fuel parse_response
    decode_buffered decode_next validate_eof read_next bytes_eq parse_line is_utf8 parse_uint
    to_string
parses_array = (refl, refl)

abbrev ParsesNestedArray : Type 0
ParsesNestedArray = AssertParses (codes "*2\r\n+OK\r\n*2\r\n$5\r\nvalue\r\n:2\r\n") (
    array (
      cons Response.ok
        (cons (array (cons (cstr (codes "value")) (cons (integer (pos 2)) nil))) nil)))

parses_nested_array : ParsesNestedArray
unfolding int_to_string to_bytes parse_negative parse_i64 line_i64 parse_sstr parse_error
    parse_integer parse_payload parse_cstr parse_elements parse_array parse_fuel parse_response
    decode_buffered decode_next validate_eof read_next bytes_eq parse_line is_utf8 parse_uint
    to_string
parses_nested_array = (refl, refl)

abbrev IncompleteArrayDoesNotConsumeBufferedElements : Type 0
IncompleteArrayDoesNotConsumeBufferedElements =
    ((push_parse default_decoder (codes "*2\r\n$3\r\none\r\n")).0 ≡ done none)
    × ((push_parse (push_parse default_decoder (codes "*2\r\n$3\r\none\r\n")).1
          (codes "$3\r\ntwo\r\n")).0
        ≡ done (some (array (cons (cstr (codes "one")) (cons (cstr (codes "two")) nil)))))

incomplete_array_does_not_consume_buffered_elements : IncompleteArrayDoesNotConsumeBufferedElements
unfolding int_to_string to_bytes parse_negative parse_i64 line_i64 parse_sstr parse_error
    parse_integer parse_payload parse_cstr parse_elements parse_array parse_fuel parse_response
    decode_buffered decode_next validate_eof read_next bytes_eq parse_line is_utf8 parse_uint
    to_string
incomplete_array_does_not_consume_buffered_elements = (refl, refl)

abbrev EmptyCstrIsNotNull : Type 0
EmptyCstrIsNotNull =
    ((push_parse default_decoder (codes "$0\r\n\r\n")).0 ≡ done (some (cstr [])))
    × ((push_parse (push_parse default_decoder (codes "$0\r\n\r\n")).1 (codes "$-1\r\n")).0
        ≡ done (some null))

empty_cstr_is_not_null : EmptyCstrIsNotNull
unfolding int_to_string to_bytes parse_negative parse_i64 line_i64 parse_sstr parse_error
    parse_integer parse_payload parse_cstr parse_elements parse_array parse_fuel parse_response
    decode_buffered decode_next validate_eof read_next bytes_eq parse_line is_utf8 parse_uint
    to_string
empty_cstr_is_not_null = (refl, refl)

abbrev OkWithoutCrlfIsIncomplete : Type 0
OkWithoutCrlfIsIncomplete = AssertIncomplete (codes "+OK")

ok_without_crlf_is_incomplete : OkWithoutCrlfIsIncomplete
unfolding int_to_string to_bytes parse_negative parse_i64 line_i64 parse_sstr parse_error
    parse_integer parse_payload parse_cstr parse_elements parse_array parse_fuel parse_response
    decode_buffered decode_next validate_eof read_next bytes_eq parse_line is_utf8 parse_uint
    to_string
ok_without_crlf_is_incomplete = refl

abbrev CstrHeaderWithoutCrlfIsIncomplete : Type 0
CstrHeaderWithoutCrlfIsIncomplete = AssertIncomplete (codes "$5")

cstr_header_without_crlf_is_incomplete : CstrHeaderWithoutCrlfIsIncomplete
unfolding int_to_string to_bytes parse_negative parse_i64 line_i64 parse_sstr parse_error
    parse_integer parse_payload parse_cstr parse_elements parse_array parse_fuel parse_response
    decode_buffered decode_next validate_eof read_next bytes_eq parse_line is_utf8 parse_uint
    to_string
cstr_header_without_crlf_is_incomplete = refl

abbrev CstrPayloadIncomplete : Type 0
CstrPayloadIncomplete = AssertIncomplete (codes "$5\r\nhel")

cstr_payload_incomplete : CstrPayloadIncomplete
unfolding int_to_string to_bytes parse_negative parse_i64 line_i64 parse_sstr parse_error
    parse_integer parse_payload parse_cstr parse_elements parse_array parse_fuel parse_response
    decode_buffered decode_next validate_eof read_next bytes_eq parse_line is_utf8 parse_uint
    to_string
cstr_payload_incomplete = refl

abbrev DeclaredNullDoesNotWaitForBody : Type 0
DeclaredNullDoesNotWaitForBody = AssertParses (codes "$-1\r\n") null

declared_null_does_not_wait_for_body : DeclaredNullDoesNotWaitForBody
unfolding int_to_string to_bytes parse_negative parse_i64 line_i64 parse_sstr parse_error
    parse_integer parse_payload parse_cstr parse_elements parse_array parse_fuel parse_response
    decode_buffered decode_next validate_eof read_next bytes_eq parse_line is_utf8 parse_uint
    to_string
declared_null_does_not_wait_for_body = (refl, refl)

abbrev CompletesCstrFedInChunks : Type 0
CompletesCstrFedInChunks =
    ((push_parse default_decoder (codes "$5\r\n")).0 ≡ done none)
    × ((push_parse (push_parse default_decoder (codes "$5\r\n")).1 (codes "hel")).0 ≡ done none)
    × ((push_parse (push_parse (push_parse default_decoder (codes "$5\r\n")).1 (codes "hel")).1
          (codes "lo\r\n")).0
        ≡ done (some (cstr (codes "hello"))))

completes_cstr_fed_in_chunks : CompletesCstrFedInChunks
unfolding int_to_string to_bytes parse_negative parse_i64 line_i64 parse_sstr parse_error
    parse_integer parse_payload parse_cstr parse_elements parse_array parse_fuel parse_response
    decode_buffered decode_next validate_eof read_next bytes_eq parse_line is_utf8 parse_uint
    to_string
completes_cstr_fed_in_chunks = (refl, refl, refl)

abbrev DecodeNextYieldsSecondResponseWithoutMoreBytes : Type 0
DecodeNextYieldsSecondResponseWithoutMoreBytes =
    ((push_parse default_decoder (codes "+OK\r\n:1\r\n")).0 ≡ done (some Response.ok))
    × ((decode_next (push_parse default_decoder (codes "+OK\r\n:1\r\n")).1).0
        ≡ done (some (integer (pos 1))))
    × ((decode_next (decode_next (push_parse default_decoder (codes "+OK\r\n:1\r\n")).1).1).0
        ≡ done none)

decode_next_yields_second_response_without_more_bytes :
    DecodeNextYieldsSecondResponseWithoutMoreBytes
unfolding int_to_string to_bytes parse_negative parse_i64 line_i64 parse_sstr parse_error
    parse_integer parse_payload parse_cstr parse_elements parse_array parse_fuel parse_response
    decode_buffered decode_next validate_eof read_next bytes_eq parse_line is_utf8 parse_uint
    to_string
decode_next_yields_second_response_without_more_bytes = (refl, refl, refl)

abbrev ErrorsOnUnexpectedPrefix : Type 0
ErrorsOnUnexpectedPrefix =
    (push_parse default_decoder (codes "?2\r\n")).0 ≡ err (unexpected_prefix b'?')

errors_on_unexpected_prefix : ErrorsOnUnexpectedPrefix
unfolding int_to_string to_bytes parse_negative parse_i64 line_i64 parse_sstr parse_error
    parse_integer parse_payload parse_cstr parse_elements parse_array parse_fuel parse_response
    decode_buffered decode_next validate_eof read_next bytes_eq parse_line is_utf8 parse_uint
    to_string
errors_on_unexpected_prefix = refl

abbrev ErrorsOnSstrThatIsNotOk : Type 0
ErrorsOnSstrThatIsNotOk =
    (push_parse default_decoder (codes "+PONG\r\n")).0 ≡ err (unexpected_sstr (codes "PONG"))

errors_on_sstr_that_is_not_ok : ErrorsOnSstrThatIsNotOk
unfolding int_to_string to_bytes parse_negative parse_i64 line_i64 parse_sstr parse_error
    parse_integer parse_payload parse_cstr parse_elements parse_array parse_fuel parse_response
    decode_buffered decode_next validate_eof read_next bytes_eq parse_line is_utf8 parse_uint
    to_string
errors_on_sstr_that_is_not_ok = refl

abbrev ErrorsOnMissingCrlfAfterCstrPayload : Type 0
ErrorsOnMissingCrlfAfterCstrPayload =
    (push_parse default_decoder (codes "$3\r\nGETXX")).0 ≡ err missing_crlf

errors_on_missing_crlf_after_cstr_payload : ErrorsOnMissingCrlfAfterCstrPayload
unfolding int_to_string to_bytes parse_negative parse_i64 line_i64 parse_sstr parse_error
    parse_integer parse_payload parse_cstr parse_elements parse_array parse_fuel parse_response
    decode_buffered decode_next validate_eof read_next bytes_eq parse_line is_utf8 parse_uint
    to_string
errors_on_missing_crlf_after_cstr_payload = refl

abbrev ErrorsOnInvalidCstrLength : Type 0
ErrorsOnInvalidCstrLength =
    (push_parse default_decoder (codes "$-2\r\n")).0 ≡ err (invalid_cstring_length (negsuc 1))

errors_on_invalid_cstr_length : ErrorsOnInvalidCstrLength
unfolding int_to_string to_bytes parse_negative parse_i64 line_i64 parse_sstr parse_error
    parse_integer parse_payload parse_cstr parse_elements parse_array parse_fuel parse_response
    decode_buffered decode_next validate_eof read_next bytes_eq parse_line is_utf8 parse_uint
    to_string
errors_on_invalid_cstr_length = refl

abbrev ErrorsOnNonUtf8ErrorMessage : Type 0
ErrorsOnNonUtf8ErrorMessage =
    (push_parse default_decoder (b'-' ∷ 0xFF ∷ 0xFE ∷ codes "\r\n")).0 ≡ err invalid_utf8

errors_on_non_utf8_error_message : ErrorsOnNonUtf8ErrorMessage
unfolding int_to_string to_bytes parse_negative parse_i64 line_i64 parse_sstr parse_error
    parse_integer parse_payload parse_cstr parse_elements parse_array parse_fuel parse_response
    decode_buffered decode_next validate_eof read_next bytes_eq parse_line is_utf8 parse_uint
    to_string
errors_on_non_utf8_error_message = refl

abbrev DecoderIsPoisonedAfterAnError : Type 0
DecoderIsPoisonedAfterAnError =
    ((push_parse default_decoder (codes "?1\r\n")).0 ≡ err (unexpected_prefix b'?'))
    × ((push_parse (push_parse default_decoder (codes "?1\r\n")).1 (codes "+OK\r\n")).0
        ≡ err poisoned)

decoder_is_poisoned_after_an_error : DecoderIsPoisonedAfterAnError
unfolding int_to_string to_bytes parse_negative parse_i64 line_i64 parse_sstr parse_error
    parse_integer parse_payload parse_cstr parse_elements parse_array parse_fuel parse_response
    decode_buffered decode_next validate_eof read_next bytes_eq parse_line is_utf8 parse_uint
    to_string
decoder_is_poisoned_after_an_error = (refl, refl)

abbrev ReaderReadsBufferedResponsesOneAtATime : Type 0
ReaderReadsBufferedResponsesOneAtATime =
    ((read_next (bytes (codes "+OK\r\n:1\r\n") ∷ []) default_decoder).0 ≡ done (some Response.ok))
    × ((read_next (read_next (bytes (codes "+OK\r\n:1\r\n") ∷ []) default_decoder).2
          (read_next (bytes (codes "+OK\r\n:1\r\n") ∷ []) default_decoder).1).0
        ≡ done (some (integer (pos 1))))
    × ((read_next
          (read_next (read_next (bytes (codes "+OK\r\n:1\r\n") ∷ []) default_decoder).2
            (read_next (bytes (codes "+OK\r\n:1\r\n") ∷ []) default_decoder).1).2
          (read_next (read_next (bytes (codes "+OK\r\n:1\r\n") ∷ []) default_decoder).2
            (read_next (bytes (codes "+OK\r\n:1\r\n") ∷ []) default_decoder).1).1).0
        ≡ done none)

reader_reads_buffered_responses_one_at_a_time : ReaderReadsBufferedResponsesOneAtATime
unfolding int_to_string to_bytes parse_negative parse_i64 line_i64 parse_sstr parse_error
    parse_integer parse_payload parse_cstr parse_elements parse_array parse_fuel parse_response
    decode_buffered decode_next validate_eof read_next bytes_eq parse_line is_utf8 parse_uint
    to_string
reader_reads_buffered_responses_one_at_a_time = (refl, refl, refl)

abbrev ReaderErrorsOnIncompleteResponseAtEof : Type 0
ReaderErrorsOnIncompleteResponseAtEof =
    (read_next (bytes (codes "$5\r\nhel") ∷ []) default_decoder).0 ≡ err unexpected_eof

reader_errors_on_incomplete_response_at_eof : ReaderErrorsOnIncompleteResponseAtEof
unfolding int_to_string to_bytes parse_negative parse_i64 line_i64 parse_sstr parse_error
    parse_integer parse_payload parse_cstr parse_elements parse_array parse_fuel parse_response
    decode_buffered decode_next validate_eof read_next bytes_eq parse_line is_utf8 parse_uint
    to_string
reader_errors_on_incomplete_response_at_eof = refl

abbrev RoundTripsOk : Type 0
RoundTripsOk = AssertRoundTrips Response.ok

round_trips_ok : RoundTripsOk
unfolding int_to_string to_bytes parse_negative parse_i64 line_i64 parse_sstr parse_error
    parse_integer parse_payload parse_cstr parse_elements parse_array parse_fuel parse_response
    decode_buffered decode_next validate_eof read_next bytes_eq parse_line is_utf8 parse_uint
    to_string
round_trips_ok = refl

abbrev RoundTripsError : Type 0
RoundTripsError = AssertRoundTrips (error (codes "ERR unknown command"))

round_trips_error : RoundTripsError
unfolding int_to_string to_bytes parse_negative parse_i64 line_i64 parse_sstr parse_error
    parse_integer parse_payload parse_cstr parse_elements parse_array parse_fuel parse_response
    decode_buffered decode_next validate_eof read_next bytes_eq parse_line is_utf8 parse_uint
    to_string
round_trips_error = refl

abbrev RoundTripsCstr : Type 0
RoundTripsCstr = AssertRoundTrips (cstr (codes "hello"))

round_trips_cstr : RoundTripsCstr
unfolding int_to_string to_bytes parse_negative parse_i64 line_i64 parse_sstr parse_error
    parse_integer parse_payload parse_cstr parse_elements parse_array parse_fuel parse_response
    decode_buffered decode_next validate_eof read_next bytes_eq parse_line is_utf8 parse_uint
    to_string
round_trips_cstr = refl

abbrev RoundTripsEmptyCstr : Type 0
RoundTripsEmptyCstr = AssertRoundTrips (cstr [])

round_trips_empty_cstr : RoundTripsEmptyCstr
unfolding int_to_string to_bytes parse_negative parse_i64 line_i64 parse_sstr parse_error
    parse_integer parse_payload parse_cstr parse_elements parse_array parse_fuel parse_response
    decode_buffered decode_next validate_eof read_next bytes_eq parse_line is_utf8 parse_uint
    to_string
round_trips_empty_cstr = refl

abbrev RoundTripsNull : Type 0
RoundTripsNull = AssertRoundTrips null

round_trips_null : RoundTripsNull
unfolding int_to_string to_bytes parse_negative parse_i64 line_i64 parse_sstr parse_error
    parse_integer parse_payload parse_cstr parse_elements parse_array parse_fuel parse_response
    decode_buffered decode_next validate_eof read_next bytes_eq parse_line is_utf8 parse_uint
    to_string
round_trips_null = refl

abbrev RoundTripsInteger : Type 0
RoundTripsInteger = AssertRoundTrips (integer (pos 2))

round_trips_integer : RoundTripsInteger
unfolding int_to_string to_bytes parse_negative parse_i64 line_i64 parse_sstr parse_error
    parse_integer parse_payload parse_cstr parse_elements parse_array parse_fuel parse_response
    decode_buffered decode_next validate_eof read_next bytes_eq parse_line is_utf8 parse_uint
    to_string
round_trips_integer = refl
