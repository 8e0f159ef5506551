-- ===== src/Command.antt =====
-- command.rs: the commands, how requests are read as commands, and what they do to the key store.
-- `now` is the reading of `get_unix_timestamp`, one for each command. The payload of `Utf8Error`
-- is left out.
pub mod Answers
pub mod Apply
pub mod Display
pub mod Effects
pub mod Listing
pub mod Parse
pub mod RoundTrip
pub mod Sizes
use Prim.Native.Nat.{min}
use simple_kv.Prelude.{
  ℕ, zero, suc, ◌+◌, ◌-◌, ◌%◌, ◌^◌, Bool, true, false, ◌||◌, not, Option, none, some, List, [], ◌∷◌,
  ◌++◌, map, ltb, leb, ◌==◌, if◌then◌else◌, length, is_some, ◌≡◌, refl, Result, done, err, Run, ok,
  panic, spin, ◌>>=◌,
}
use simple_kv.Prelude.Int.{ℤ, pos, negsuc, as_i64}
use simple_kv.Util.{Bytes, Parsed, codes, crlf, bytes_eq, is_utf8, parse_uint, max_u64, to_string}
use simple_kv.Request.{Request}

abbrev pub get_name : Bytes
get_name = codes "GET"

abbrev pub set_name : Bytes
set_name = codes "SET"

abbrev pub mget_name : Bytes
mget_name = codes "MGET"

abbrev pub mset_name : Bytes
mset_name = codes "MSET"

abbrev pub del_name : Bytes
del_name = codes "DEL"

abbrev pub getall_name : Bytes
getall_name = codes "GETALL"

abbrev pub expire_name : Bytes
expire_name = codes "EXPIRE"

abbrev pub expireat_name : Bytes
expireat_name = codes "EXPIREAT"

abbrev pub ttl_name : Bytes
ttl_name = codes "TTL"

pub record StoredValue : Type 0 where
  pub bytes : Bytes
  pub expires_at : Option ℕ

abbrev pub new_value : Bytes → StoredValue
new_value b = record { bytes = b; expires_at = none }

unfoldable pub is_expired : ℕ → StoredValue → Bool
is_expired now v = elim v.expires_at [ none ↦ false | some expires_at ↦ leb expires_at now ]

pub data Command : Type 0 where
  get : Bytes → Command
  set : Bytes → Bytes → Command
  mget : List Bytes → Command
  mset : List (Bytes × Bytes) → Command
  del : List Bytes → Command
  getall : Command
  expire_at : Bytes → ℕ → Command
  ttl : Bytes → Command

pub data CommandError : Type 0 where
  invalid_utf8 : CommandError
  unrecognized_command invalid_expiration : Bytes → CommandError
  too_few_arguments too_many_arguments uneven_argument_length : ℕ → CommandError

unfoldable pub name : Command → Bytes
name (del keys) = del_name
name (set key value) = set_name
name (get key) = get_name
name (mget keys) = mget_name
name (mset entries) = mset_name
name getall = getall_name
name (expire_at key timestamp) = expireat_name
name (ttl key) = ttl_name

abbrev pub has_name : Command → Bytes → Bool
has_name c n = bytes_eq (name c) n

-- `is_del() || is_set() || is_mset() || is_expire_at()`
unfoldable pub is_write_op : Command → Bool
is_write_op c =
    has_name c del_name || has_name c set_name || has_name c mset_name || has_name c expireat_name

-- The tests on `args.len()` are the patterns.
unfoldable pub parse_get : List Bytes → ℕ → Result CommandError Command
parse_get [] total = err (too_few_arguments total)
parse_get (key ∷ []) total = done (get key)
parse_get (key ∷ _ ∷ _) total = err (too_many_arguments total)

unfoldable pub parse_set : List Bytes → ℕ → Result CommandError Command
parse_set [] total = err (too_few_arguments total)
parse_set (_ ∷ []) total = err (too_few_arguments total)
parse_set (key ∷ value ∷ []) total = done (set key value)
parse_set (_ ∷ _ ∷ _ ∷ _) total = err (too_many_arguments total)

unfoldable pub parse_mget : List Bytes → ℕ → Result CommandError Command
parse_mget [] total = err (too_few_arguments total)
parse_mget (key ∷ keys) total = done (mget (key ∷ keys))

-- The loop of `parse_mset`; `expect` panics on a key without a value.
unfoldable pub take_entries : List Bytes → Run (List (Bytes × Bytes))
take_entries [] = ok []
take_entries (key ∷ []) = panic
take_entries (key ∷ value ∷ args) = do entries ← take_entries args; ok ((key, value) ∷ entries)

unfoldable pub parse_mset : List Bytes → ℕ → Run (Result CommandError Command)
parse_mset args total =
    if ltb (length args) 2
    then ok (err (too_few_arguments total))
    else if not (length args % 2 == 0)
    then ok (err (uneven_argument_length (length args)))
    else (do entries ← take_entries args; ok (done (mset entries)))

unfoldable pub parse_del : List Bytes → ℕ → Result CommandError Command
parse_del [] total = err (too_few_arguments total)
parse_del (key ∷ keys) total = done (del (key ∷ keys))

unfoldable pub parse_getall : List Bytes → ℕ → Result CommandError Command
parse_getall [] total = done getall
parse_getall (_ ∷ _) total = err (too_many_arguments total)

unfoldable pub parse_ttl : List Bytes → ℕ → Result CommandError Command
parse_ttl [] total = err (too_few_arguments total)
parse_ttl (key ∷ []) total = done (ttl key)
parse_ttl (key ∷ _ ∷ _) total = err (too_many_arguments total)

-- The source keeps the seconds in `num_bytes_parsed`.
unfoldable pub parse_expiration : List Bytes → ℕ → Result CommandError (Parsed Bytes)
parse_expiration [] total = err (too_few_arguments total)
parse_expiration (_ ∷ []) total = err (too_few_arguments total)
parse_expiration (key ∷ expiration ∷ []) total = elim (is_utf8 expiration) [
  | false ↦ err invalid_utf8
  | true ↦ elim (parse_uint max_u64 expiration) [
    | none ↦ err (invalid_expiration expiration)
    | some seconds ↦ done (record { value = key; num_bytes_parsed = seconds })
  ]
]
parse_expiration (_ ∷ _ ∷ _ ∷ _) total = err (too_many_arguments total)

unfoldable pub saturating_add : ℕ → ℕ → ℕ
saturating_add a b = min (a + b) max_u64

unfoldable pub parse_expire : ℕ → List Bytes → ℕ → Result CommandError Command
parse_expire now args total = elim (parse_expiration args total) [
  | err e ↦ err e
  | done p ↦ done (expire_at p.value (saturating_add now p.num_bytes_parsed))
]

unfoldable pub parse_expire_at : List Bytes → ℕ → Result CommandError Command
parse_expire_at args total = elim (parse_expiration args total) [
  | err e ↦ err e
  | done p ↦ done (expire_at p.value p.num_bytes_parsed)
]

-- The `match` on the command's name.
unfoldable pub dispatch : ℕ → Bytes → List Bytes → ℕ → Run (Result CommandError Command)
dispatch now n args total =
    if bytes_eq n get_name
    then ok (parse_get args total)
    else if bytes_eq n set_name
    then ok (parse_set args total)
    else if bytes_eq n mget_name
    then ok (parse_mget args total)
    else if bytes_eq n mset_name
    then parse_mset args total
    else if bytes_eq n del_name
    then ok (parse_del args total)
    else if bytes_eq n getall_name
    then ok (parse_getall args total)
    else if bytes_eq n expire_name
    then ok (parse_expire now args total)
    else if bytes_eq n expireat_name
    then ok (parse_expire_at args total)
    else if bytes_eq n ttl_name
    then ok (parse_ttl args total)
    else ok (err (unrecognized_command n))

-- `Command::try_from`
unfoldable pub try_from : ℕ → Request → Run (Result CommandError Command)
try_from now r = elim r.cstrs [
  | [] ↦ ok (err (too_few_arguments 0))
  | n ∷ args ↦ elim (is_utf8 n) [
    | false ↦ ok (err invalid_utf8)
    | true ↦ dispatch now n args (suc (length args))
  ]
]

abbrev entry_parts : List (Bytes × Bytes) → List Bytes
entry_parts [] = []
entry_parts ((key, value) ∷ entries) = key ∷ value ∷ entry_parts entries

-- The vector `parts` of `to_bytes`.
unfoldable pub parts : Command → List Bytes
unfolding name
parts (get key) = name (get key) ∷ key ∷ []
parts (set key value) = name (set key value) ∷ key ∷ value ∷ []
parts (mget keys) = name (mget keys) ∷ keys
parts (mset entries) = name (mset entries) ∷ entry_parts entries
parts (del keys) = name (del keys) ∷ keys
parts getall = name getall ∷ []
parts (ttl key) = name (ttl key) ∷ key ∷ []
parts (expire_at key timestamp) = name (expire_at key timestamp) ∷ key ∷ to_string timestamp ∷ []

-- The loop of `to_bytes` that extends `buf`.
unfoldable pub write_parts : Bytes → List Bytes → Bytes
write_parts buf [] = buf
write_parts buf (part ∷ rest) =
    write_parts (((buf ++ ((b'$' ∷ to_string (length part)) ++ crlf)) ++ part) ++ crlf) rest

unfoldable pub to_bytes : Command → Bytes
to_bytes c = write_parts ((b'*' ∷ to_string (length (parts c))) ++ crlf) (parts c)
