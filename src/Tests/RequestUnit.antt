-- ===== src/Tests/RequestUnit.antt =====
-- The unit tests of request.rs, as statements on the model.
use simple_kv.Prelude.{
  ℕ, zero, suc, ◌≡◌, refl, true, none, some, List, [], ◌∷◌, take, drop, length, done, err,
}
use simple_kv.Util.{Bytes, codes, parse_line, is_utf8, parse_uint, to_string}
use simple_kv.Request.{
  Request, RequestDecoder, Decoded, Chunk, bytes, default_decoder, missing_first_byte, missing_crlf,
  poisoned, unexpected_eof, expected_array, expected_cstring, to_bytes, header_number, header_line,
  parse_header, is_crlf, parse_payload, parse_cstr, take_request, fill_args, decode_buffered,
  decode_next, validate_eof, read_next,
}

-- The reader after its first request: a `Cursor` gives its bytes in one read.
abbrev read_all : Bytes → Decoded Request × RequestDecoder
read_all input = let (r, d, chunks) = read_next (bytes input ∷ []) default_decoder in (r, d)

abbrev read_bytes : Bytes → Decoded Request
read_bytes input = (read_all input).0

-- `BufReader::with_capacity`, for as many fills as there are bytes.
abbrev fills_from : ℕ → ℕ → Bytes → List Chunk
fills_from zero capacity input = []
fills_from (suc fuel) capacity [] = []
fills_from (suc fuel) capacity (c ∷ input) =
    bytes (take capacity (c ∷ input)) ∷ fills_from fuel capacity (drop capacity (c ∷ input))

abbrev fills : ℕ → Bytes → List Chunk
fills capacity input = fills_from (length input) capacity input

abbrev AssertParses : Bytes → List Bytes → Type 0
AssertParses input expected = read_bytes input ≡ done (some (record { cstrs = expected }))

abbrev AssertRoundTrips : Bytes → Type 0
AssertRoundTrips input = (r : Request) × (read_bytes input ≡ done (some r)) × (to_bytes r ≡ input)

abbrev AssertUnexpectedEof : Bytes → Type 0
AssertUnexpectedEof input = read_bytes input ≡ err unexpected_eof

abbrev ParsesDelOneKey : Type 0
ParsesDelOneKey =
    AssertParses (codes "*2\r\n$3\r\nDEL\r\n$5\r\nMyKey\r\n") (codes "DEL" ∷ codes "MyKey" ∷ [])

parses_del_one_key : ParsesDelOneKey
unfolding read_next decode_next decode_buffered fill_args take_request parse_cstr parse_payload
    parse_header header_line header_number is_crlf parse_line is_utf8 parse_uint validate_eof
    to_bytes to_string
parses_del_one_key = refl

abbrev ParsesGetOneKey : Type 0
ParsesGetOneKey =
    AssertParses (codes "*2\r\n$3\r\nGET\r\n$5\r\nMYKEY\r\n") (codes "GET" ∷ codes "MYKEY" ∷ [])

parses_get_one_key : ParsesGetOneKey
unfolding read_next decode_next decode_buffered fill_args take_request parse_cstr parse_payload
    parse_header header_line header_number is_crlf parse_line is_utf8 parse_uint validate_eof
    to_bytes to_string
parses_get_one_key = refl

abbrev ParsesSetKeyValue : Type 0
ParsesSetKeyValue =
    AssertParses (codes "*3\r\n$3\r\nSET\r\n$5\r\nMyKey\r\n$8\r\nMYValue2\r\n")
      (codes "SET" ∷ codes "MyKey" ∷ codes "MYValue2" ∷ [])

parses_set_key_value : ParsesSetKeyValue
unfolding read_next decode_next decode_buffered fill_args take_request parse_cstr parse_payload
    parse_header header_line header_number is_crlf parse_line is_utf8 parse_uint validate_eof
    to_bytes to_string
parses_set_key_value = refl

abbrev RoundTripsGet : Type 0
RoundTripsGet = AssertRoundTrips (codes "*2\r\n$3\r\nGET\r\n$5\r\nMYKEY\r\n")

round_trips_get : RoundTripsGet
unfolding read_next decode_next decode_buffered fill_args take_request parse_cstr parse_payload
    parse_header header_line header_number is_crlf parse_line is_utf8 parse_uint validate_eof
    to_bytes to_string
round_trips_get = (_, refl, refl)

abbrev RoundTripsSet : Type 0
RoundTripsSet = AssertRoundTrips (codes "*3\r\n$3\r\nSET\r\n$5\r\nMyKey\r\n$8\r\nMYValue2\r\n")

round_trips_set : RoundTripsSet
unfolding read_next decode_next decode_buffered fill_args take_request parse_cstr parse_payload
    parse_header header_line header_number is_crlf parse_line is_utf8 parse_uint validate_eof
    to_bytes to_string
round_trips_set = (_, refl, refl)

abbrev RoundTripsDel : Type 0
RoundTripsDel = AssertRoundTrips (codes "*2\r\n$3\r\nDEL\r\n$5\r\nMyKey\r\n")

round_trips_del : RoundTripsDel
unfolding read_next decode_next decode_buffered fill_args take_request parse_cstr parse_payload
    parse_header header_line header_number is_crlf parse_line is_utf8 parse_uint validate_eof
    to_bytes to_string
round_trips_del = (_, refl, refl)

abbrev ErrorsWhenArrayByteIsWrong : Type 0
ErrorsWhenArrayByteIsWrong =
    read_bytes (codes "&2\r\n$3\r\nGET\r\n$5\r\nMYKEY\r\n") ≡ err (expected_array b'&')

errors_when_array_byte_is_wrong : ErrorsWhenArrayByteIsWrong
unfolding read_next decode_next decode_buffered fill_args take_request parse_cstr parse_payload
    parse_header header_line header_number is_crlf parse_line is_utf8 parse_uint validate_eof
    to_bytes to_string
errors_when_array_byte_is_wrong = refl

abbrev ErrorsWhenArrayByteIsMissing : Type 0
ErrorsWhenArrayByteIsMissing =
    read_bytes (codes "\r\n$3\r\nGET\r\n$5\r\nMYKEY\r\n") ≡ err missing_first_byte

errors_when_array_byte_is_missing : ErrorsWhenArrayByteIsMissing
unfolding read_next decode_next decode_buffered fill_args take_request parse_cstr parse_payload
    parse_header header_line header_number is_crlf parse_line is_utf8 parse_uint validate_eof
    to_bytes to_string
errors_when_array_byte_is_missing = refl

abbrev ErrorsWhenCstrByteIsWrong : Type 0
ErrorsWhenCstrByteIsWrong =
    read_bytes (codes "*2\r\n&3\r\nGET\r\n$5\r\nMYKEY\r\n") ≡ err (expected_cstring b'&')

errors_when_cstr_byte_is_wrong : ErrorsWhenCstrByteIsWrong
unfolding read_next decode_next decode_buffered fill_args take_request parse_cstr parse_payload
    parse_header header_line header_number is_crlf parse_line is_utf8 parse_uint validate_eof
    to_bytes to_string
errors_when_cstr_byte_is_wrong = refl

abbrev ErrorsWhenCstrByteIsMissing : Type 0
ErrorsWhenCstrByteIsMissing =
    read_bytes (codes "*2\r\n\r\nGET\r\n$5\r\nMYKEY\r\n") ≡ err missing_first_byte

errors_when_cstr_byte_is_missing : ErrorsWhenCstrByteIsMissing
unfolding read_next decode_next decode_buffered fill_args take_request parse_cstr parse_payload
    parse_header header_line header_number is_crlf parse_line is_utf8 parse_uint validate_eof
    to_bytes to_string
errors_when_cstr_byte_is_missing = refl

abbrev ArrayHeaderWithoutCrlfIsUnexpectedEof : Type 0
ArrayHeaderWithoutCrlfIsUnexpectedEof = AssertUnexpectedEof (codes "*2")

array_header_without_crlf_is_unexpected_eof : ArrayHeaderWithoutCrlfIsUnexpectedEof
unfolding read_next decode_next decode_buffered fill_args take_request parse_cstr parse_payload
    parse_header header_line header_number is_crlf parse_line is_utf8 parse_uint validate_eof
    to_bytes to_string
array_header_without_crlf_is_unexpected_eof = refl

abbrev CstrHeaderWithoutCrlfIsUnexpectedEof : Type 0
CstrHeaderWithoutCrlfIsUnexpectedEof = AssertUnexpectedEof (codes "*2\r\n$3")

cstr_header_without_crlf_is_unexpected_eof : CstrHeaderWithoutCrlfIsUnexpectedEof
unfolding read_next decode_next decode_buffered fill_args take_request parse_cstr parse_payload
    parse_header header_line header_number is_crlf parse_line is_utf8 parse_uint validate_eof
    to_bytes to_string
cstr_header_without_crlf_is_unexpected_eof = refl

abbrev ErrorsOnMissingCrlfAfterCstrPayload : Type 0
ErrorsOnMissingCrlfAfterCstrPayload = read_bytes (codes "*1\r\n$3\r\nGETXX") ≡ err missing_crlf

errors_on_missing_crlf_after_cstr_payload : ErrorsOnMissingCrlfAfterCstrPayload
unfolding read_next decode_next decode_buffered fill_args take_request parse_cstr parse_payload
    parse_header header_line header_number is_crlf parse_line is_utf8 parse_uint validate_eof
    to_bytes to_string
errors_on_missing_crlf_after_cstr_payload = refl

abbrev ErrorsOnPartialCrlfAfterCstrPayload : Type 0
ErrorsOnPartialCrlfAfterCstrPayload = read_bytes (codes "*1\r\n$3\r\nGET\rX") ≡ err missing_crlf

errors_on_partial_crlf_after_cstr_payload : ErrorsOnPartialCrlfAfterCstrPayload
unfolding read_next decode_next decode_buffered fill_args take_request parse_cstr parse_payload
    parse_header header_line header_number is_crlf parse_line is_utf8 parse_uint validate_eof
    to_bytes to_string
errors_on_partial_crlf_after_cstr_payload = refl

abbrev ParsesArrayHeaderSplitAcrossBufferFills : Type 0
ParsesArrayHeaderSplitAcrossBufferFills =
    (read_next (fills 2 (codes "*1\r\n$4\r\nPING\r\n")) default_decoder).0
    ≡ done (some (record { cstrs = codes "PING" ∷ [] }))

parses_array_header_split_across_buffer_fills : ParsesArrayHeaderSplitAcrossBufferFills
unfolding read_next decode_next decode_buffered fill_args take_request parse_cstr parse_payload
    parse_header header_line header_number is_crlf parse_line is_utf8 parse_uint validate_eof
    to_bytes to_string
parses_array_header_split_across_buffer_fills = refl

abbrev CompletesRequestFedInChunks : Type 0
CompletesRequestFedInChunks =
    (read_next (fills 4 (codes "*2\r\n$3\r\nGET\r\n$5\r\nMYKEY\r\n")) default_decoder).0
    ≡ done (some (record { cstrs = codes "GET" ∷ codes "MYKEY" ∷ [] }))

completes_request_fed_in_chunks : CompletesRequestFedInChunks
unfolding read_next decode_next decode_buffered fill_args take_request parse_cstr parse_payload
    parse_header header_line header_number is_crlf parse_line is_utf8 parse_uint validate_eof
    to_bytes to_string
completes_request_fed_in_chunks = refl

abbrev DeclaredLengthTooShortErrors : Type 0
DeclaredLengthTooShortErrors = read_bytes (codes "*1\r\n$3\r\nHELLO\r\n") ≡ err missing_crlf

declared_length_too_short_errors : DeclaredLengthTooShortErrors
unfolding read_next decode_next decode_buffered fill_args take_request parse_cstr parse_payload
    parse_header header_line header_number is_crlf parse_line is_utf8 parse_uint validate_eof
    to_bytes to_string
declared_length_too_short_errors = refl

abbrev DeclaredLengthTooLongWithinBufferErrors : Type 0
DeclaredLengthTooLongWithinBufferErrors =
    read_bytes (codes "*1\r\n$5\r\nHI\r\nZZZ") ≡ err missing_crlf

declared_length_too_long_within_buffer_errors : DeclaredLengthTooLongWithinBufferErrors
unfolding read_next decode_next decode_buffered fill_args take_request parse_cstr parse_payload
    parse_header header_line header_number is_crlf parse_line is_utf8 parse_uint validate_eof
    to_bytes to_string
declared_length_too_long_within_buffer_errors = refl

abbrev DeclaredLengthTooLongPastBufferIsUnexpectedEof : Type 0
DeclaredLengthTooLongPastBufferIsUnexpectedEof = AssertUnexpectedEof (codes "*1\r\n$5\r\nHI\r\n")

declared_length_too_long_past_buffer_is_unexpected_eof :
    DeclaredLengthTooLongPastBufferIsUnexpectedEof
unfolding read_next decode_next decode_buffered fill_args take_request parse_cstr parse_payload
    parse_header header_line header_number is_crlf parse_line is_utf8 parse_uint validate_eof
    to_bytes to_string
declared_length_too_long_past_buffer_is_unexpected_eof = refl

abbrev PartialArrayHeaderLeavesStateUncommitted : Type 0
PartialArrayHeaderLeavesStateUncommitted =
    ((read_all (codes "*5\r")).0 ≡ err unexpected_eof)
    × ((read_all (codes "*5\r")).1.expected_arg_count ≡ none)
    × ((read_all (codes "*5\r")).1.cursor ≡ 0)
    × ((read_all (codes "*5\r")).1.buffer ≡ codes "*5\r")
    × ((read_all (codes "*5\r")).1.args ≡ [])

partial_array_header_leaves_state_uncommitted : PartialArrayHeaderLeavesStateUncommitted
unfolding read_next decode_next decode_buffered fill_args take_request parse_cstr parse_payload
    parse_header header_line header_number is_crlf parse_line is_utf8 parse_uint validate_eof
    to_bytes to_string
partial_array_header_leaves_state_uncommitted = (refl, refl, refl, refl, refl)

abbrev DecoderIsPoisonedAfterAnError : Type 0
DecoderIsPoisonedAfterAnError =
    ((read_all (codes "&2\r\n$3\r\nGET\r\n")).0 ≡ err (expected_array b'&'))
    × ((read_next [] (read_all (codes "&2\r\n$3\r\nGET\r\n")).1).0 ≡ err poisoned)

decoder_is_poisoned_after_an_error : DecoderIsPoisonedAfterAnError
unfolding read_next decode_next decode_buffered fill_args take_request parse_cstr parse_payload
    parse_header header_line header_number is_crlf parse_line is_utf8 parse_uint validate_eof
    to_bytes to_string
decoder_is_poisoned_after_an_error = (refl, refl)

abbrev ValidateEofSucceedsWhenDecoderIsEmpty : Type 0
ValidateEofSucceedsWhenDecoderIsEmpty = validate_eof default_decoder ≡ done none

validate_eof_succeeds_when_decoder_is_empty : ValidateEofSucceedsWhenDecoderIsEmpty
unfolding read_next decode_next decode_buffered fill_args take_request parse_cstr parse_payload
    parse_header header_line header_number is_crlf parse_line is_utf8 parse_uint validate_eof
    to_bytes to_string
validate_eof_succeeds_when_decoder_is_empty = refl

abbrev ValidateEofSucceedsAfterCompleteRequestIsConsumed : Type 0
ValidateEofSucceedsAfterCompleteRequestIsConsumed =
    ((read_all (codes "*1\r\n$4\r\nPING\r\n")).0
      ≡ done (some (record { cstrs = codes "PING" ∷ [] })))
    × (validate_eof (read_all (codes "*1\r\n$4\r\nPING\r\n")).1 ≡ done none)

validate_eof_succeeds_after_complete_request_is_consumed :
    ValidateEofSucceedsAfterCompleteRequestIsConsumed
unfolding read_next decode_next decode_buffered fill_args take_request parse_cstr parse_payload
    parse_header header_line header_number is_crlf parse_line is_utf8 parse_uint validate_eof
    to_bytes to_string
validate_eof_succeeds_after_complete_request_is_consumed = (refl, refl)

abbrev ReadNextErrorsWhenRequestEndsIncomplete : Type 0
ReadNextErrorsWhenRequestEndsIncomplete = AssertUnexpectedEof (codes "*2\r\n$3\r\nGET\r\n")

read_next_errors_when_request_ends_incomplete : ReadNextErrorsWhenRequestEndsIncomplete
unfolding read_next decode_next decode_buffered fill_args take_request parse_cstr parse_payload
    parse_header header_line header_number is_crlf parse_line is_utf8 parse_uint validate_eof
    to_bytes to_string
read_next_errors_when_request_ends_incomplete = refl

abbrev ValidateEofReportsPoisonedBeforeBufferedData : Type 0
ValidateEofReportsPoisonedBeforeBufferedData =
    validate_eof (read_all (codes "&1\r\n")).1 ≡ err poisoned

validate_eof_reports_poisoned_before_buffered_data : ValidateEofReportsPoisonedBeforeBufferedData
unfolding read_next decode_next decode_buffered fill_args take_request parse_cstr parse_payload
    parse_header header_line header_number is_crlf parse_line is_utf8 parse_uint validate_eof
    to_bytes to_string
validate_eof_reports_poisoned_before_buffered_data = refl

abbrev FullArrayHeaderCommitsState : Type 0
FullArrayHeaderCommitsState =
    ((read_all (codes "*5\r\n")).0 ≡ err unexpected_eof)
    × ((read_all (codes "*5\r\n")).1.expected_arg_count ≡ some 5)
    × ((read_all (codes "*5\r\n")).1.cursor ≡ 4)
    × ((read_all (codes "*5\r\n")).1.buffer ≡ codes "*5\r\n")
    × ((read_all (codes "*5\r\n")).1.args ≡ [])

full_array_header_commits_state : FullArrayHeaderCommitsState
unfolding read_next decode_next decode_buffered fill_args take_request parse_cstr parse_payload
    parse_header header_line header_number is_crlf parse_line is_utf8 parse_uint validate_eof
    to_bytes to_string
full_array_header_commits_state = (refl, refl, refl, refl, refl)

abbrev GoodArrayThenBadCstrHeaderState : Type 0
GoodArrayThenBadCstrHeaderState =
    ((read_all (codes "*2\r\n&3\r\nGET\r\n")).0 ≡ err (expected_cstring b'&'))
    × ((read_all (codes "*2\r\n&3\r\nGET\r\n")).1.poisoned ≡ true)
    × ((read_all (codes "*2\r\n&3\r\nGET\r\n")).1.expected_arg_count ≡ some 2)
    × ((read_all (codes "*2\r\n&3\r\nGET\r\n")).1.cursor ≡ 4)
    × ((read_all (codes "*2\r\n&3\r\nGET\r\n")).1.args ≡ [])

good_array_then_bad_cstr_header_state : GoodArrayThenBadCstrHeaderState
unfolding read_next decode_next decode_buffered fill_args take_request parse_cstr parse_payload
    parse_header header_line header_number is_crlf parse_line is_utf8 parse_uint validate_eof
    to_bytes to_string
good_array_then_bad_cstr_header_state = (refl, refl, refl, refl, refl)

abbrev GoodArrayGoodCstrHeaderBadBodyState : Type 0
GoodArrayGoodCstrHeaderBadBodyState =
    ((read_all (codes "*1\r\n$3\r\nGETXX")).0 ≡ err missing_crlf)
    × ((read_all (codes "*1\r\n$3\r\nGETXX")).1.poisoned ≡ true)
    × ((read_all (codes "*1\r\n$3\r\nGETXX")).1.expected_arg_count ≡ some 1)
    × ((read_all (codes "*1\r\n$3\r\nGETXX")).1.cursor ≡ 4)
    × ((read_all (codes "*1\r\n$3\r\nGETXX")).1.args ≡ [])

good_array_good_cstr_header_bad_body_state : GoodArrayGoodCstrHeaderBadBodyState
unfolding read_next decode_next decode_buffered fill_args take_request parse_cstr parse_payload
    parse_header header_line header_number is_crlf parse_line is_utf8 parse_uint validate_eof
    to_bytes to_string
good_array_good_cstr_header_bad_body_state = (refl, refl, refl, refl, refl)

abbrev GoodArrayOneCstrThenBadNextCstrState : Type 0
GoodArrayOneCstrThenBadNextCstrState =
    ((read_all (codes "*2\r\n$3\r\nGET\r\n&5\r\nMYKEY\r\n")).0 ≡ err (expected_cstring b'&'))
    × ((read_all (codes "*2\r\n$3\r\nGET\r\n&5\r\nMYKEY\r\n")).1.poisoned ≡ true)
    × ((read_all (codes "*2\r\n$3\r\nGET\r\n&5\r\nMYKEY\r\n")).1.expected_arg_count ≡ some 2)
    × ((read_all (codes "*2\r\n$3\r\nGET\r\n&5\r\nMYKEY\r\n")).1.cursor ≡ 13)
    × ((read_all (codes "*2\r\n$3\r\nGET\r\n&5\r\nMYKEY\r\n")).1.args ≡ codes "GET" ∷ [])

good_array_one_cstr_then_bad_next_cstr_state : GoodArrayOneCstrThenBadNextCstrState
unfolding read_next decode_next decode_buffered fill_args take_request parse_cstr parse_payload
    parse_header header_line header_number is_crlf parse_line is_utf8 parse_uint validate_eof
    to_bytes to_string
good_array_one_cstr_then_bad_next_cstr_state = (refl, refl, refl, refl, refl)

abbrev ReadNextYieldsSecondBufferedRequestWithoutMoreBytes : Type 0
ReadNextYieldsSecondBufferedRequestWithoutMoreBytes =
    ((read_all (codes "*2\r\n$3\r\nGET\r\n$1\r\na\r\n*2\r\n$3\r\nGET\r\n$1\r\nb\r\n")).0
      ≡ done (some (record { cstrs = codes "GET" ∷ codes "a" ∷ [] })))
    × ((read_next []
          (read_all (codes "*2\r\n$3\r\nGET\r\n$1\r\na\r\n*2\r\n$3\r\nGET\r\n$1\r\nb\r\n")).1).0
        ≡ done (some (record { cstrs = codes "GET" ∷ codes "b" ∷ [] })))
    × ((read_next []
          (read_next []
            (read_all
              (codes "*2\r\n$3\r\nGET\r\n$1\r\na\r\n*2\r\n$3\r\nGET\r\n$1\r\nb\r\n")).1).1).0
        ≡ done none)

read_next_yields_second_buffered_request_without_more_bytes :
    ReadNextYieldsSecondBufferedRequestWithoutMoreBytes
unfolding read_next decode_next decode_buffered fill_args take_request parse_cstr parse_payload
    parse_header header_line header_number is_crlf parse_line is_utf8 parse_uint validate_eof
    to_bytes to_string
read_next_yields_second_buffered_request_without_more_bytes = (refl, refl, refl)
