-- ===== src/Command/RoundTrip.antt =====
-- A command that `Command::to_bytes` of command.rs writes, as the log keeps it, is read back by the
-- decoder of request.rs and `Command::try_from`.
use simple_kv.Prelude.{
  ℕ, suc, ◌*◌, ◌%◌, ◌≤◌, ◌≡◌, ◌∙◌, refl, sym, ap, some, false, List, [], ◌∷◌, ◌++◌, append_assoc,
  append-nil, length, ltb, le→ltb, arith, Result, done, ok,
}
use simple_kv.Util.{Bytes, bytes_eq, is_utf8, max_u64, to_string}
use simple_kv.Util.Decimal.{parse_uint-to_string, is_utf8-to_string}
use simple_kv.Request.{Request, bulk_bytes, default_decoder, feed, decode_next}
use simple_kv.Request
use simple_kv.Request.RoundTrip.{IsRequest, decode_next-to_bytes}
use simple_kv.Command.{
  Command, get, set, mget, mset, del, getall, expire_at, ttl, try_from, dispatch, parse_get,
  parse_set, parse_mget, parse_mset, parse_del, parse_getall, parse_ttl, parse_expiration,
  parse_expire_at, take_entries, entry_parts, parts, write_parts, to_bytes,
}

-- The commands that `try_from` makes.
pub data IsCommand : Command → Type 0 where
  is_get : {key : Bytes} → IsCommand (get key)
  is_set : {key value : Bytes} → IsCommand (set key value)
  is_mget : {key : Bytes} {keys : List Bytes} → IsCommand (mget (key ∷ keys))
  is_mset : {e : Bytes × Bytes} {es : List (Bytes × Bytes)} → IsCommand (mset (e ∷ es))
  is_del : {key : Bytes} {keys : List Bytes} → IsCommand (del (key ∷ keys))
  is_getall : IsCommand getall
  is_expire_at :
      {key : Bytes} {timestamp : ℕ} → timestamp ≤ max_u64 → IsCommand (expire_at key timestamp)
  is_ttl : {key : Bytes} → IsCommand (ttl key)

write_parts_lem : (ps : List Bytes) (buf : Bytes) → write_parts buf ps ≡ buf ++ bulk_bytes ps
unfolding write_parts bulk_bytes
write_parts_lem [] buf = sym (append-nil buf)
write_parts_lem (p ∷ ps) buf = write_parts_lem ps _ ∙ simp append_assoc

-- The bytes of a command are the bytes of the request that its parts make.
pub to_bytes_lem : (c : Command) → to_bytes c ≡ Request.to_bytes (record { cstrs = parts c })
unfolding to_bytes Request.to_bytes
to_bytes_lem c = write_parts_lem (parts c) _ ∙ simp append_assoc

length-entry_parts : (es : List (Bytes × Bytes)) → length (entry_parts es) ≡ 2 * length es
length-entry_parts [] = refl
length-entry_parts ((k, v) ∷ es) = omega (arith, length-entry_parts es)

take_entries-entry_parts : (es : List (Bytes × Bytes)) → take_entries (entry_parts es) ≡ ok es
unfolding take_entries
take_entries-entry_parts [] = refl
take_entries-entry_parts ((k, v) ∷ es) = rw (take_entries-entry_parts es) refl

parse_mset-entry_parts :
    (e : Bytes × Bytes) (es : List (Bytes × Bytes)) (total : ℕ)
    → parse_mset (entry_parts (e ∷ es)) total ≡ ok (done (mset (e ∷ es)))
unfolding parse_mset
parse_mset-entry_parts (k, v) es total =
    let even : suc (suc (length (entry_parts es))) % 2 ≡ 0 = omega (arith, length-entry_parts es) in
    let run : take_entries (k ∷ v ∷ entry_parts es) ≡ ok ((k, v) ∷ es) =
      take_entries-entry_parts ((k, v) ∷ es) in
    let enough : ltb (suc (suc (length (entry_parts es)))) 2 ≡ false = le→ltb _ 2 (omega arith) in
    rw (enough, even, run)

parse_expire_at-to_string :
    (key : Bytes) (timestamp total : ℕ)
    → timestamp ≤ max_u64
    → parse_expire_at (key ∷ to_string timestamp ∷ []) total ≡ done (expire_at key timestamp)
unfolding parse_expire_at parse_expiration
parse_expire_at-to_string key timestamp total small =
    rw (parse_expire_at, is_utf8-to_string timestamp, parse_uint-to_string max_u64 timestamp small)

-- The parts that a command is written as are read as that command, at any time: for MGET, MSET and
-- DEL with one key or more, and EXPIREAT with a timestamp of 64 bits.
pub try_from-parts :
    (now : ℕ) (c : Command) → IsCommand c → try_from now (record { cstrs = parts c }) ≡ ok (done c)
unfolding try_from dispatch parts bytes_eq is_utf8 parse_get parse_set parse_mget parse_del
    parse_getall parse_ttl
try_from-parts now (get key) is_get = refl
try_from-parts now (set key value) is_set = refl
try_from-parts now (mget (key ∷ keys)) is_mget = refl
try_from-parts now (mget []) v = elim v [ ]
try_from-parts now (mset []) v = elim v [ ]
try_from-parts now (del []) v = elim v [ ]
try_from-parts now (mset (e ∷ es)) is_mset = parse_mset-entry_parts e es _
try_from-parts now (del (key ∷ keys)) is_del = refl
try_from-parts now getall is_getall = refl
try_from-parts now (expire_at key t) (is_expire_at small) =
    ap ok (parse_expire_at-to_string key t _ small)
try_from-parts now (ttl key) is_ttl = refl

-- What a command is written as decodes to a request for that command, and nothing else is read.
pub decode_next-to_bytes_Command :
    (c : Command) (rest : Bytes)
    → IsRequest (record { cstrs = parts c })
    → decode_next (feed default_decoder (to_bytes c ++ rest))
      ≡ (Result.done (some (record { cstrs = parts c })), feed default_decoder rest)
decode_next-to_bytes_Command c rest v =
    ap (λ t. decode_next (feed default_decoder (t ++ rest))) (to_bytes_lem c)
    ∙ decode_next-to_bytes (record { cstrs = parts c }) rest v
