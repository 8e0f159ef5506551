-- ===== src/Tests.antt =====
-- The theorems at concrete inputs: keys are byte strings, hashed by their bytes, so that some of
-- them collide.
mod AppendOnlyFileUnit
mod ApplyUnit
mod CommandUnit
mod KeyStoreUnit
mod RequestUnit
mod ResponseUnit
mod Server
mod ServerUnit
mod Streams
mod Texts
use simple_kv.Prelude.{
  ℕ, Option, suc, inl, inr, if◌then◌else◌, ◌+◌, ◌-◌, ◌*◌, ◌%◌, ◌^◌, ◌≤◌, ◌≡◌, ◌≢◌, ◌↔◌, refl, true,
  none, some, List, [], ◌∷◌, ◌++◌, length, replicate, All, arith, Result, ok, Returns,
}
use simple_kv.Util.{
  Bytes, codes, crlf, bytes_eq, bytes_eq_iff, crlf_position, parse_line, parse_uint, parse_digits,
  is_digit, is_utf8, max_u64, to_string,
}
use simple_kv.Util.Line.{parse_line-line, parse_line-append}
use simple_kv.Util.Decimal.{parse_uint-to_string}
use simple_kv.KeyStore.{
  HashKey, KeyStore, Buckets, Entry, with_hasher, insert, iter, get_bucket_index, index_of, resize,
}
use simple_kv.KeyStore
use simple_kv.KeyStore.Slot.{index_lem}
use simple_kv.KeyStore.Insert.{Placed}
use simple_kv.KeyStore.Lookup.{Outcome, index_of_lem}
use simple_kv.KeyStore.View.{update}
use simple_kv.KeyStore.Methods.{Models, Keeps, get_lem, get_mut_lem}
use simple_kv.KeyStore.Delete.{Deletes, del_lem}
use simple_kv.KeyStore.Iterate.{IsUnique, lookup, iter_lem}
use simple_kv.Command.Listing.{listing, getall_lem}
use simple_kv.KeyStore.Resize.{with_hasher-Models, resize_lem}
use simple_kv.KeyStore.Put.{Inserts, insert_lem}
use simple_kv.Request.{Request, decode_next, default_decoder, feed, bytes}
use simple_kv.Request
use simple_kv.Request.{poisoned, expected_array, decode_buffered, parse_header, header_line}
use simple_kv.Request.Poison.{decode_next-err}
use simple_kv.Request.RoundTrip.{decode_next-to_bytes}
use simple_kv.Command.{Command, StoredValue, new_value, is_write_op, name, parts, try_from}
use simple_kv.Command
use simple_kv.Command.RoundTrip.{
  is_set, is_mset, is_expire_at, is_del, to_bytes_lem, try_from-parts,
}
use simple_kv.Command.Apply.{apply_read, apply_write, eject_if_expired, fresh, expire}
use simple_kv.Command.Answers.{Answers, mget_lookup, apply_read_lem}
use simple_kv.Command.Effects.{
  HasRoom, Keyspace, effect, reply, apply_write_lem, eject_if_expired_lem,
}
use simple_kv.Server.{ServerState, restore_keystore, from_wal, handle_request, remove_expired}
use simple_kv.Server.Expiry.{remove_expired_lem}
use simple_kv.Prelude.Int.{negsuc}
use simple_kv.Response.{Response, array, cons, nil, cstr, null, integer, error}
use simple_kv.Response
use simple_kv.Response.Reads.{IsResponse}
use simple_kv.Response.RoundTrip.{buffered, decode_next-to_bytes_Response}
use simple_kv.AppendOnlyFile.{written}
use simple_kv.Server.Requests.{Follows, handle_request_lem}
use simple_kv.Command.Parse.{Makes, try_from_lem}
use simple_kv.Config.{
  Config, from_env, server_address_name, server_port_name, sync_interval_name,
  ttl_cleanup_interval_name,
}
use simple_kv.Util.Numerals.{IsNumeral, value_from}
use simple_kv.Util.Decimal.{IsDigit}
use simple_kv.Config.Limits.{IsConfig, from_env_lem}

abbrev hash : Bytes → ℕ
hash [] = 0
hash (b ∷ bs) = b + hash bs

instance bytes_key : HashKey Bytes
bytes_key = record {
  eq = bytes_eq;
  eq_iff = bytes_eq_iff;
  hash_one = λ a. hash a % 2 ^ 64;
  hash_one_lt = λ a. omega arith;
}

abbrev a_key : Bytes
a_key = codes "ab"

-- A key with the hash of `a_key`.
abbrev b_key : Bytes
b_key = codes "ba"

abbrev empty : KeyStore Bytes StoredValue
empty = record { len = 0; buckets = replicate 16 none }

abbrev empty-Models : Models (λ _. none) empty
unfolding with_hasher
empty-Models = with_hasher-Models

abbrev with_a :
    Returns
      (insert empty a_key (new_value b_key))
      (Inserts empty-Models a_key (new_value b_key) none)
with_a = insert_lem empty-Models a_key (new_value b_key) (omega arith)

abbrev store : KeyStore Bytes StoredValue
store = with_a.0.1

abbrev held : Keyspace
held = update (λ _. none) a_key (some (new_value b_key))

store-Models : Models held store
store-Models = with_a.2.1

store-small : length store.buckets * 2 ≤ 2 ^ 64
store-small = elim with_a.2.2.1 [
  | inl w ↦ omega (arith, w)
  | inr w ↦ omega (arith, w, with_a.2.2.0)
]

store-HasRoom : HasRoom 5 store
store-HasRoom = record { table = store-small; load = omega (arith, with_a.2.2.0) }

with_hasher-Models_example : Models {K = Bytes} {V = ℕ} (λ _. none) with_hasher
with_hasher-Models_example = with_hasher-Models

insert_lem_example :
    Returns
      (insert store b_key (new_value a_key))
      (Inserts store-Models b_key (new_value a_key) (held b_key))
insert_lem_example = insert_lem store-Models b_key (new_value a_key) store-small

del_lem_example : Returns (KeyStore.del store a_key) (Deletes store-Models a_key)
del_lem_example = del_lem store-Models a_key

get_lem_example : KeyStore.get store a_key ≡ ok (some (new_value b_key))
unfolding bytes_key bytes_eq
get_lem_example = get_lem store-Models a_key

get_mut_lem_example : Returns (KeyStore.get_mut (expire 7) store a_key) λ r.
    (r.0 ≡ true)
    × Models (update held a_key (some (expire 7 (new_value b_key)))) r.1
    × Keeps store r.1
unfolding bytes_key bytes_eq
get_mut_lem_example = get_mut_lem store-Models (expire 7) a_key

resize_lem_example :
    Returns
      (resize store)
      λ r. (r.len ≡ store.len) × Placed held (length store.buckets * 2) store.len r.buckets
resize_lem_example =
    resize_lem held store store-Models.robin store-Models.holds store-Models.counted
      (omega (arith, store-Models.load)) store-small

index_of_lem_example :
    Returns
      (index_of (record { len = 9; buckets = store.buckets }) b_key)
      (Outcome store.buckets b_key 0)
index_of_lem_example =
    index_of_lem store.buckets store-Models.robin 9 b_key
      (omega (arith, store-Models.counted, store-Models.load))

index_lem_example : get_bucket_index 16 (2 ^ 64 - 1) 3 ≡ 2
index_lem_example =
    index_lem (record { bits = 4; power = refl; positive = omega arith; rest = 60; total = refl })
      (2 ^ 64 - 1) 3

apply_read_lem_example :
    Returns
      (apply_read 5 (Command.mget (a_key ∷ b_key ∷ [])) store)
      (Answers 5 held (Command.mget (a_key ∷ b_key ∷ [])))
apply_read_lem_example =
    apply_read_lem store-Models 5 (Command.mget (a_key ∷ b_key ∷ [])) mget_lookup

apply_write_lem_example :
    Returns (apply_write 5 (Command.mset ((b_key, a_key) ∷ (a_key, a_key) ∷ [])) store) λ r.
      (r.0 ≡ reply 5 (Command.mset ((b_key, a_key) ∷ (a_key, a_key) ∷ [])) held)
      × Models (effect 5 (Command.mset ((b_key, a_key) ∷ (a_key, a_key) ∷ [])) held) r.1
      × HasRoom 3 r.1
unfolding is_write_op name bytes_eq
apply_write_lem_example =
    apply_write_lem store-Models 5 (Command.mset ((b_key, a_key) ∷ (a_key, a_key) ∷ [])) refl 3
      store-HasRoom

eject_if_expired_lem_example :
    Returns
      (eject_if_expired 5 store a_key)
      λ r. Models (update held a_key (fresh 5 (held a_key))) r × Keeps store r
eject_if_expired_lem_example = eject_if_expired_lem store-Models 5 a_key

abbrev request : Request
request = record { cstrs = codes "SET" ∷ a_key ∷ b_key ∷ [] }

decode_next-to_bytes_example :
    decode_next (feed default_decoder (Request.to_bytes request ++ codes "*1"))
    ≡ (Result.done (some request), feed default_decoder (codes "*1"))
decode_next-to_bytes_example =
    decode_next-to_bytes request (codes "*1")
      (record { count = omega arith; sizes = (omega arith, (omega arith, (omega arith, tt))) })

try_from-parts_example :
    try_from 3 (record { cstrs = parts (Command.expire_at a_key 99) })
    ≡ ok (Result.done (Command.expire_at a_key 99))
try_from-parts_example = try_from-parts 3 (Command.expire_at a_key 99) (is_expire_at (omega arith))

to_bytes_lem_example :
    Command.to_bytes (Command.del (a_key ∷ []))
    ≡ Request.to_bytes (record { cstrs = parts (Command.del (a_key ∷ [])) })
to_bytes_lem_example = to_bytes_lem (Command.del (a_key ∷ []))

parse_uint-to_string_example : parse_uint max_u64 (to_string (2 ^ 64 - 1)) ≡ some (2 ^ 64 - 1)
parse_uint-to_string_example = parse_uint-to_string max_u64 (2 ^ 64 - 1) (omega arith)

parse_line-line_example :
    parse_line (codes "*3" ++ (crlf ++ a_key))
    ≡ some (record { value = codes "*3"; num_bytes_parsed = 4 })
parse_line-line_example =
    parse_line-line (codes "*3") a_key ((λ e. omega arith), ((λ e. omega arith), tt))

parse_line-append_example :
    parse_line ((codes "*3" ++ crlf) ++ a_key)
    ≡ some (record { value = codes "*3"; num_bytes_parsed = 4 })
unfolding parse_line crlf_position
parse_line-append_example = parse_line-append (codes "*3" ++ crlf) a_key _ refl

try_from_lem_example :
    Returns
      (try_from 3 (record { cstrs = codes "MSET" ∷ a_key ∷ b_key ∷ a_key ∷ b_key ∷ [] }))
      (Makes (a_key ∷ b_key ∷ a_key ∷ b_key ∷ []))
try_from_lem_example = try_from_lem 3 (codes "MSET" ∷ a_key ∷ b_key ∷ a_key ∷ b_key ∷ [])

abbrev environment : Bytes → Option Bytes
environment name =
    if bytes_eq name server_address_name
    then some (codes "::1")
    else if bytes_eq name server_port_name
    then some (codes "6379")
    else if bytes_eq name sync_interval_name
    then some (codes "30")
    else if bytes_eq name ttl_cleanup_interval_name
    then some (codes "60")
    else none

abbrev config : Config
config = record {
  server_address = codes "::1";
  server_port = 6379;
  sync_interval = 30;
  ttl_cleanup_interval = 60;
  wal_path = none;
}

digits-IsNumeral : (s : Bytes) → s ≢ [] → All IsDigit s → IsNumeral s (value_from 0 s)
digits-IsNumeral s ne ds = record {
  numerals = s;
  written = inl refl;
  some_digit = ne;
  all_digits = ds;
  value = refl;
}

environment-IsConfig : IsConfig environment config
unfolding bytes_eq
environment-IsConfig = record {
  address = refl;
  port = (
    codes "6379",
    refl,
    digits-IsNumeral (codes "6379") (λ e. cc e)
        (
          (omega arith, omega arith),
          (
            (omega arith, omega arith),
            ((omega arith, omega arith), ((omega arith, omega arith), tt)),
          ),
        ),
    omega arith,
  );
  sync = (
    codes "30",
    refl,
    digits-IsNumeral (codes "30") (λ e. cc e)
        ((omega arith, omega arith), ((omega arith, omega arith), tt)),
    omega arith,
    omega arith,
  );
  cleanup = (
    codes "60",
    refl,
    digits-IsNumeral (codes "60") (λ e. cc e)
        ((omega arith, omega arith), ((omega arith, omega arith), tt)),
    omega arith,
    omega arith,
  );
  path = refl;
}

from_env_lem_example : (from_env environment ≡ ok config) ↔ IsConfig environment config
from_env_lem_example = from_env_lem environment config

-- The premises of both directions hold.
from_env-environment : from_env environment ≡ ok config
from_env-environment = (from_env_lem environment config).1 environment-IsConfig

abbrev response : Response
response = array (
    cons (cstr a_key) (
      cons null (
        cons (integer (negsuc 1))
          (cons (array (cons Response.ok (cons (error (codes "bad")) nil))) nil))))

decode_next-to_bytes_Response_example :
    Response.decode_next (buffered (Response.to_bytes response ++ codes "+O"))
    ≡ (Result.done (some response), buffered (codes "+O"))
unfolding IsResponse is_utf8
decode_next-to_bytes_Response_example = decode_next-to_bytes_Response response (codes "+O") (
  omega arith,
  (
    omega arith,
    (
      tt,
      (
        omega arith,
        (
          (
            omega arith,
            (
              tt,
              ((((λ e. omega arith), ((λ e. omega arith), ((λ e. omega arith), tt))), refl), tt),
            ),
          ),
          tt,
        ),
      ),
    ),
  ),
)

decode_next-err_example :
    decode_next (record (feed default_decoder (codes "?1\r\n")) { poisoned = true })
    ≡ (Result.err poisoned, record (feed default_decoder (codes "?1\r\n")) { poisoned = true })
unfolding decode_next decode_buffered parse_header header_line parse_line crlf_position
decode_next-err_example =
    decode_next-err (feed default_decoder (codes "?1\r\n"))
      (record (feed default_decoder (codes "?1\r\n")) { poisoned = true }) (expected_array b'?')
      refl

iter_lem_example :
    (length (iter store) ≡ store.len)
    × IsUnique (iter store)
    × ((k : Bytes) → lookup (iter store) k ≡ held k)
iter_lem_example = iter_lem store-Models

getall_lem_example :
    (ps : List (Bytes × StoredValue)) × (apply_read 5 Command.getall store
      ≡ ok (array (listing ps)))
    × IsUnique ps
    × ((k : Bytes) → lookup ps k ≡ fresh 5 (held k))
getall_lem_example = getall_lem store-Models 5
