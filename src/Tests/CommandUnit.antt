-- ===== src/Tests/CommandUnit.antt =====
-- The unit tests of command.rs on parsing and round trips, as statements on the model.
use simple_kv.Prelude.{
  ℕ, ◌+◌, ◌≡◌, refl, true, false, some, List, [], ◌∷◌, Result, done, err, Run, ok,
}
use simple_kv.Util.{Bytes, codes, bytes_eq, parse_line, is_utf8, parse_uint, to_string}
use simple_kv.Request.{
  Request, bytes, default_decoder, header_number, header_line, parse_header, is_crlf, parse_payload,
  parse_cstr, take_request, fill_args, decode_buffered, decode_next, validate_eof, read_next,
}
use simple_kv.Command.{
  Command, CommandError, has_name, get_name, set_name, del_name, mget_name, mset_name,
  expireat_name, ttl_name, get, set, mget, mset, del, getall, expire_at, ttl, invalid_utf8,
  unrecognized_command, too_few_arguments, too_many_arguments, uneven_argument_length,
  invalid_expiration, is_write_op, name, parts, write_parts, to_bytes, try_from, dispatch,
  parse_get, parse_set, parse_mget, parse_mset, parse_del, parse_getall, parse_ttl, parse_expire,
  parse_expire_at, parse_expiration, saturating_add, take_entries,
}
use simple_kv.Command.Display.{error_text}

abbrev now : ℕ
now = 1700000000

abbrev parse : List Bytes → Run (Result CommandError Command)
parse parts = try_from now (record { cstrs = parts })

abbrev AssertRoundTrips : Command → Type 0
AssertRoundTrips command =
    (r : Request) × ((read_next (bytes (to_bytes command) ∷ []) default_decoder).0 ≡ done (some r))
    × (try_from now r ≡ ok (done command))

abbrev ParsesGet : Type 0
ParsesGet = parse (codes "GET" ∷ codes "mykey" ∷ []) ≡ ok (done (get (codes "mykey")))

parses_get : ParsesGet
unfolding try_from dispatch parse_get parse_set parse_mget parse_mset parse_del parse_getall
    parse_ttl parse_expire parse_expire_at parse_expiration saturating_add take_entries is_utf8
    parse_uint bytes_eq
parses_get = refl

abbrev ParsesSet : Type 0
ParsesSet =
    parse (codes "SET" ∷ codes "mykey" ∷ codes "myval" ∷ [])
    ≡ ok (done (set (codes "mykey") (codes "myval")))

parses_set : ParsesSet
unfolding try_from dispatch parse_get parse_set parse_mget parse_mset parse_del parse_getall
    parse_ttl parse_expire parse_expire_at parse_expiration saturating_add take_entries is_utf8
    parse_uint bytes_eq
parses_set = refl

abbrev ParsesMget : Type 0
ParsesMget =
    parse (codes "MGET" ∷ codes "k1" ∷ codes "k2" ∷ [])
    ≡ ok (done (mget (codes "k1" ∷ codes "k2" ∷ [])))

parses_mget : ParsesMget
unfolding try_from dispatch parse_get parse_set parse_mget parse_mset parse_del parse_getall
    parse_ttl parse_expire parse_expire_at parse_expiration saturating_add take_entries is_utf8
    parse_uint bytes_eq
parses_mget = refl

abbrev ParsesGetallWithoutArguments : Type 0
ParsesGetallWithoutArguments = parse (codes "GETALL" ∷ []) ≡ ok (done getall)

parses_getall_without_arguments : ParsesGetallWithoutArguments
unfolding try_from dispatch parse_get parse_set parse_mget parse_mset parse_del parse_getall
    parse_ttl parse_expire parse_expire_at parse_expiration saturating_add take_entries is_utf8
    parse_uint bytes_eq
parses_getall_without_arguments = refl

abbrev ParsesMset : Type 0
ParsesMset =
    parse (codes "MSET" ∷ codes "k1" ∷ codes "v1" ∷ codes "k2" ∷ codes "v2" ∷ [])
    ≡ ok (done (mset ((codes "k1", codes "v1") ∷ (codes "k2", codes "v2") ∷ [])))

parses_mset : ParsesMset
unfolding try_from dispatch parse_get parse_set parse_mget parse_mset parse_del parse_getall
    parse_ttl parse_expire parse_expire_at parse_expiration saturating_add take_entries is_utf8
    parse_uint bytes_eq
parses_mset = refl

abbrev ParsesDelMultipleKeys : Type 0
ParsesDelMultipleKeys =
    parse (codes "DEL" ∷ codes "k1" ∷ codes "k2" ∷ [])
    ≡ ok (done (del (codes "k1" ∷ codes "k2" ∷ [])))

parses_del_multiple_keys : ParsesDelMultipleKeys
unfolding try_from dispatch parse_get parse_set parse_mget parse_mset parse_del parse_getall
    parse_ttl parse_expire parse_expire_at parse_expiration saturating_add take_entries is_utf8
    parse_uint bytes_eq
parses_del_multiple_keys = refl

abbrev ParsesExpire : Type 0
ParsesExpire =
    parse (codes "EXPIRE" ∷ codes "mykey" ∷ codes "60" ∷ [])
    ≡ ok (done (expire_at (codes "mykey") (now + 60)))

parses_expire : ParsesExpire
unfolding try_from dispatch parse_get parse_set parse_mget parse_mset parse_del parse_getall
    parse_ttl parse_expire parse_expire_at parse_expiration saturating_add take_entries is_utf8
    parse_uint bytes_eq
parses_expire = refl

abbrev ParsesExpireAt : Type 0
ParsesExpireAt =
    parse (codes "EXPIREAT" ∷ codes "mykey" ∷ codes "2000000000" ∷ [])
    ≡ ok (done (expire_at (codes "mykey") 2000000000))

parses_expire_at : ParsesExpireAt
unfolding try_from dispatch parse_get parse_set parse_mget parse_mset parse_del parse_getall
    parse_ttl parse_expire parse_expire_at parse_expiration saturating_add take_entries is_utf8
    parse_uint bytes_eq
parses_expire_at = refl

abbrev ParsesTtl : Type 0
ParsesTtl = parse (codes "TTL" ∷ codes "mykey" ∷ []) ≡ ok (done (ttl (codes "mykey")))

parses_ttl : ParsesTtl
unfolding try_from dispatch parse_get parse_set parse_mget parse_mset parse_del parse_getall
    parse_ttl parse_expire parse_expire_at parse_expiration saturating_add take_entries is_utf8
    parse_uint bytes_eq
parses_ttl = refl

abbrev KeysAndValuesNeedNotBeUtf8 : Type 0
KeysAndValuesNeedNotBeUtf8 =
    parse (codes "GET" ∷ (0xFF ∷ 0xFE ∷ 0 ∷ []) ∷ []) ≡ ok (done (get (0xFF ∷ 0xFE ∷ 0 ∷ [])))

keys_and_values_need_not_be_utf8 : KeysAndValuesNeedNotBeUtf8
unfolding try_from dispatch parse_get parse_set parse_mget parse_mset parse_del parse_getall
    parse_ttl parse_expire parse_expire_at parse_expiration saturating_add take_entries is_utf8
    parse_uint bytes_eq
keys_and_values_need_not_be_utf8 = refl

abbrev TooFewArgsWhenUnderTwo : Type 0
TooFewArgsWhenUnderTwo = parse (codes "GET" ∷ []) ≡ ok (err (too_few_arguments 1))

too_few_args_when_under_two : TooFewArgsWhenUnderTwo
unfolding try_from dispatch parse_get parse_set parse_mget parse_mset parse_del parse_getall
    parse_ttl parse_expire parse_expire_at parse_expiration saturating_add take_entries is_utf8
    parse_uint bytes_eq
too_few_args_when_under_two = refl

abbrev NonUtf8CommandNameErrors : Type 0
NonUtf8CommandNameErrors = parse ((0xFF ∷ 0xFE ∷ []) ∷ codes "mykey" ∷ []) ≡ ok (err invalid_utf8)

non_utf8_command_name_errors : NonUtf8CommandNameErrors
unfolding try_from dispatch parse_get parse_set parse_mget parse_mset parse_del parse_getall
    parse_ttl parse_expire parse_expire_at parse_expiration saturating_add take_entries is_utf8
    parse_uint bytes_eq
non_utf8_command_name_errors = refl

abbrev GetWithTooManyArgsErrors : Type 0
GetWithTooManyArgsErrors =
    parse (codes "GET" ∷ codes "mykey" ∷ codes "extra" ∷ []) ≡ ok (err (too_many_arguments 3))

get_with_too_many_args_errors : GetWithTooManyArgsErrors
unfolding try_from dispatch parse_get parse_set parse_mget parse_mset parse_del parse_getall
    parse_ttl parse_expire parse_expire_at parse_expiration saturating_add take_entries is_utf8
    parse_uint bytes_eq
get_with_too_many_args_errors = refl

abbrev GetallWithArgumentsErrors : Type 0
GetallWithArgumentsErrors =
    parse (codes "GETALL" ∷ codes "extra" ∷ []) ≡ ok (err (too_many_arguments 2))

getall_with_arguments_errors : GetallWithArgumentsErrors
unfolding try_from dispatch parse_get parse_set parse_mget parse_mset parse_del parse_getall
    parse_ttl parse_expire parse_expire_at parse_expiration saturating_add take_entries is_utf8
    parse_uint bytes_eq
getall_with_arguments_errors = refl

abbrev SetWithTooFewArgsErrors : Type 0
SetWithTooFewArgsErrors = parse (codes "SET" ∷ codes "mykey" ∷ []) ≡ ok (err (too_few_arguments 2))

set_with_too_few_args_errors : SetWithTooFewArgsErrors
unfolding try_from dispatch parse_get parse_set parse_mget parse_mset parse_del parse_getall
    parse_ttl parse_expire parse_expire_at parse_expiration saturating_add take_entries is_utf8
    parse_uint bytes_eq
set_with_too_few_args_errors = refl

abbrev SetWithTooManyArgsErrors : Type 0
SetWithTooManyArgsErrors =
    parse (codes "SET" ∷ codes "mykey" ∷ codes "myval" ∷ codes "extra" ∷ [])
    ≡ ok (err (too_many_arguments 4))

set_with_too_many_args_errors : SetWithTooManyArgsErrors
unfolding try_from dispatch parse_get parse_set parse_mget parse_mset parse_del parse_getall
    parse_ttl parse_expire parse_expire_at parse_expiration saturating_add take_entries is_utf8
    parse_uint bytes_eq
set_with_too_many_args_errors = refl

abbrev ExpireValidatesArguments : Type 0
ExpireValidatesArguments =
    (parse (codes "EXPIRE" ∷ codes "mykey" ∷ []) ≡ ok (err (too_few_arguments 2)))
    × (parse (codes "EXPIRE" ∷ codes "mykey" ∷ codes "60" ∷ codes "extra" ∷ [])
        ≡ ok (err (too_many_arguments 4)))
    × (parse (codes "EXPIRE" ∷ codes "mykey" ∷ codes "soon" ∷ [])
        ≡ ok (err (invalid_expiration (codes "soon"))))
    × (parse (codes "EXPIRE" ∷ codes "mykey" ∷ codes "-1" ∷ [])
        ≡ ok (err (invalid_expiration (codes "-1"))))

expire_validates_arguments : ExpireValidatesArguments
unfolding try_from dispatch parse_get parse_set parse_mget parse_mset parse_del parse_getall
    parse_ttl parse_expire parse_expire_at parse_expiration saturating_add take_entries is_utf8
    parse_uint bytes_eq
expire_validates_arguments = (refl, refl, refl, refl)

abbrev TtlValidatesArguments : Type 0
TtlValidatesArguments =
    (parse (codes "TTL" ∷ []) ≡ ok (err (too_few_arguments 1)))
    × (parse (codes "TTL" ∷ codes "mykey" ∷ codes "extra" ∷ []) ≡ ok (err (too_many_arguments 3)))

ttl_validates_arguments : TtlValidatesArguments
unfolding try_from dispatch parse_get parse_set parse_mget parse_mset parse_del parse_getall
    parse_ttl parse_expire parse_expire_at parse_expiration saturating_add take_entries is_utf8
    parse_uint bytes_eq
ttl_validates_arguments = (refl, refl)

abbrev MsetRequiresCompleteKeyValuePairs : Type 0
MsetRequiresCompleteKeyValuePairs =
    (parse (codes "MSET" ∷ codes "k1" ∷ codes "v1" ∷ codes "k2" ∷ [])
      ≡ ok (err (uneven_argument_length 3)))
    × (error_text (λ names. []) (uneven_argument_length 3)
        ≡ codes "expected even length, got len: 3")

mset_requires_complete_key_value_pairs : MsetRequiresCompleteKeyValuePairs
unfolding try_from dispatch parse_get parse_set parse_mget parse_mset parse_del parse_getall
    parse_ttl parse_expire parse_expire_at parse_expiration saturating_add take_entries is_utf8
    parse_uint bytes_eq error_text to_string
mset_requires_complete_key_value_pairs = (refl, refl)

abbrev UnrecognizedCommandErrors : Type 0
UnrecognizedCommandErrors =
    parse (codes "FOO" ∷ codes "mykey" ∷ []) ≡ ok (err (unrecognized_command (codes "FOO")))

unrecognized_command_errors : UnrecognizedCommandErrors
unfolding try_from dispatch parse_get parse_set parse_mget parse_mset parse_del parse_getall
    parse_ttl parse_expire parse_expire_at parse_expiration saturating_add take_entries is_utf8
    parse_uint bytes_eq
unrecognized_command_errors = refl

abbrev RoundTripsGet : Type 0
RoundTripsGet = AssertRoundTrips (get (codes "mykey"))

round_trips_get : RoundTripsGet
unfolding try_from dispatch parse_get parse_set parse_mget parse_mset parse_del parse_getall
    parse_ttl parse_expire parse_expire_at parse_expiration saturating_add take_entries is_utf8
    parse_uint bytes_eq read_next decode_next decode_buffered fill_args take_request parse_cstr
    parse_payload parse_header header_line header_number is_crlf parse_line validate_eof to_bytes
    write_parts parts name to_string
round_trips_get = (_, refl, refl)

abbrev RoundTripsGetall : Type 0
RoundTripsGetall = AssertRoundTrips getall

round_trips_getall : RoundTripsGetall
unfolding try_from dispatch parse_get parse_set parse_mget parse_mset parse_del parse_getall
    parse_ttl parse_expire parse_expire_at parse_expiration saturating_add take_entries is_utf8
    parse_uint bytes_eq read_next decode_next decode_buffered fill_args take_request parse_cstr
    parse_payload parse_header header_line header_number is_crlf parse_line validate_eof to_bytes
    write_parts parts name to_string
round_trips_getall = (_, refl, refl)

abbrev RoundTripsSet : Type 0
RoundTripsSet = AssertRoundTrips (set (codes "mykey") (codes "myval"))

round_trips_set : RoundTripsSet
unfolding try_from dispatch parse_get parse_set parse_mget parse_mset parse_del parse_getall
    parse_ttl parse_expire parse_expire_at parse_expiration saturating_add take_entries is_utf8
    parse_uint bytes_eq read_next decode_next decode_buffered fill_args take_request parse_cstr
    parse_payload parse_header header_line header_number is_crlf parse_line validate_eof to_bytes
    write_parts parts name to_string
round_trips_set = (_, refl, refl)

abbrev RoundTripsMultiKeyCommands : Type 0
RoundTripsMultiKeyCommands =
    AssertRoundTrips (mget (codes "k1" ∷ codes "k2" ∷ []))
    × AssertRoundTrips (mset ((codes "k1", codes "v1") ∷ (codes "k2", codes "v2") ∷ []))

round_trips_multi_key_commands : RoundTripsMultiKeyCommands
unfolding try_from dispatch parse_get parse_set parse_mget parse_mset parse_del parse_getall
    parse_ttl parse_expire parse_expire_at parse_expiration saturating_add take_entries is_utf8
    parse_uint bytes_eq read_next decode_next decode_buffered fill_args take_request parse_cstr
    parse_payload parse_header header_line header_number is_crlf parse_line validate_eof to_bytes
    write_parts parts name to_string
round_trips_multi_key_commands = ((_, refl, refl), (_, refl, refl))

abbrev RoundTripsDel : Type 0
RoundTripsDel = AssertRoundTrips (del (codes "k1" ∷ codes "k2" ∷ []))

round_trips_del : RoundTripsDel
unfolding try_from dispatch parse_get parse_set parse_mget parse_mset parse_del parse_getall
    parse_ttl parse_expire parse_expire_at parse_expiration saturating_add take_entries is_utf8
    parse_uint bytes_eq read_next decode_next decode_buffered fill_args take_request parse_cstr
    parse_payload parse_header header_line header_number is_crlf parse_line validate_eof to_bytes
    write_parts parts name to_string
round_trips_del = (_, refl, refl)

abbrev RoundTripsExpire : Type 0
RoundTripsExpire = AssertRoundTrips (expire_at (codes "mykey") 2000000000)

round_trips_expire : RoundTripsExpire
unfolding try_from dispatch parse_get parse_set parse_mget parse_mset parse_del parse_getall
    parse_ttl parse_expire parse_expire_at parse_expiration saturating_add take_entries is_utf8
    parse_uint bytes_eq read_next decode_next decode_buffered fill_args take_request parse_cstr
    parse_payload parse_header header_line header_number is_crlf parse_line validate_eof to_bytes
    write_parts parts name to_string
round_trips_expire = (_, refl, refl)

abbrev RoundTripsTtl : Type 0
RoundTripsTtl = AssertRoundTrips (ttl (codes "mykey"))

round_trips_ttl : RoundTripsTtl
unfolding try_from dispatch parse_get parse_set parse_mget parse_mset parse_del parse_getall
    parse_ttl parse_expire parse_expire_at parse_expiration saturating_add take_entries is_utf8
    parse_uint bytes_eq read_next decode_next decode_buffered fill_args take_request parse_cstr
    parse_payload parse_header header_line header_number is_crlf parse_line validate_eof to_bytes
    write_parts parts name to_string
round_trips_ttl = (_, refl, refl)

abbrev ClassifiesReadAndWriteCommands : Type 0
ClassifiesReadAndWriteCommands =
    (has_name (get (codes "k")) get_name ≡ true)
    × (has_name (get (codes "k")) set_name ≡ false)
    × (has_name (get (codes "k")) del_name ≡ false)
    × (is_write_op (get (codes "k")) ≡ false)
    × (has_name (set (codes "k") (codes "v")) get_name ≡ false)
    × (is_write_op (set (codes "k") (codes "v")) ≡ true)
    × (has_name (del (codes "k" ∷ [])) get_name ≡ false)
    × (is_write_op (del (codes "k" ∷ [])) ≡ true)
    × (has_name (mget (codes "k" ∷ [])) mget_name ≡ true)
    × (has_name (mget (codes "k" ∷ [])) mset_name ≡ false)
    × (is_write_op (mget (codes "k" ∷ [])) ≡ false)
    × (has_name (mset ((codes "k", codes "v") ∷ [])) mset_name ≡ true)
    × (has_name (mset ((codes "k", codes "v") ∷ [])) mget_name ≡ false)
    × (is_write_op (mset ((codes "k", codes "v") ∷ [])) ≡ true)
    × (has_name (expire_at (codes "k") 2000000000) expireat_name ≡ true)
    × (is_write_op (expire_at (codes "k") 2000000000) ≡ true)
    × (has_name (ttl (codes "k")) ttl_name ≡ true)
    × (is_write_op (ttl (codes "k")) ≡ false)

classifies_read_and_write_commands : ClassifiesReadAndWriteCommands
unfolding try_from dispatch parse_get parse_set parse_mget parse_mset parse_del parse_getall
    parse_ttl parse_expire parse_expire_at parse_expiration saturating_add take_entries is_utf8
    parse_uint bytes_eq is_write_op name
classifies_read_and_write_commands = (
  refl, refl, refl, refl, refl, refl, refl, refl, refl, refl, refl, refl, refl, refl, refl, refl,
  refl, refl,
)
