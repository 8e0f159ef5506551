-- ===== src/Tests/ServerUnit.antt =====
-- The unit tests of server.rs: the calls of each test, and what they give, with a hasher that makes
-- the keys collide.
use simple_kv.Prelude.{
  ℕ, ◌+◌, ◌^◌, ◌-◌, ◌≡◌, refl, true, Option, none, some, List, [], ◌∷◌, Result, done, err, Run, ok,
  panic, ◌>>=◌,
}
use simple_kv.Util.{Bytes, codes}
use simple_kv.Request.{Decoded, Chunk, Request, default_decoder, unexpected_eof}
use simple_kv.Response.{Response, cstr, integer}
use simple_kv.KeyStore.{KeyStore, HashKey, with_hasher}
use simple_kv.KeyStore
use simple_kv.Command.{
  Command, CommandError, StoredValue, new_value, set, del, expire_at, to_bytes,
  unrecognized_command,
}
use simple_kv.Command.Apply.{Store}
use simple_kv.AppendOnlyFile.{
  AppendOnlyFile, written, append, open_file, get_file_content_from_start,
}
use simple_kv.Server.{
  ServerState, KeyStoreRestoreError, request, command, restore_keystore, write, read,
  remove_expired,
}
use simple_kv.Tests.{bytes_key}
use simple_kv.Request.{
  read_next, decode_next, decode_buffered, fill_args, take_request, parse_cstr, parse_payload,
  parse_header, header_line, header_number, is_crlf, validate_eof,
}
use simple_kv.Util.{parse_line, is_utf8, parse_uint, bytes_eq, to_string}
use simple_kv.Command.Apply.{
  apply_read, apply_write, apply_set, apply_del, del_keys, tally, eject_if_expired, is_stale,
  apply_get, value_response, fresh, apply_expire_at, expire_response,
}
use simple_kv.Command.{
  write_parts, parts, name, try_from, dispatch, parse_set, parse_del, parse_expire_at, parse_expire,
  parse_expiration, saturating_add, is_expired,
}
use simple_kv.Server.{restore_loop, del_all, expired_keys}
use simple_kv.AppendOnlyFile.{reads}
use simple_kv.Prelude.Int.{pos, as_i64}

abbrev now : ℕ
now = 1700000000

-- A server on a new file, with some store.
abbrev server_with : Store → ServerState
server_with store = record { wal = open_file none; key_store = store }

abbrev fresh_server : ServerState
fresh_server = server_with with_hasher

abbrev append_all : List Command → AppendOnlyFile → AppendOnlyFile
append_all [] aof = aof
append_all (c ∷ cs) aof = append_all cs (append written aof (to_bytes c)).1

abbrev restore : AppendOnlyFile → Run (Result KeyStoreRestoreError Store)
restore aof = restore_keystore 9 (λ n. now) (get_file_content_from_start true aof)

-- `expect` on the restored store.
abbrev expect : Result KeyStoreRestoreError Store → Run Store
expect (err e) = panic
expect (done store) = ok store

abbrev apply_command_appends_writes_to_aof_run : Run (Response × Bytes × Option StoredValue)
apply_command_appends_writes_to_aof_run = do
  (r, ss) ← write now written fresh_server (set (codes "key") (codes "value"))
  found ← KeyStore.get ss.key_store (codes "key")
  ok (r, ss.wal.file, found)

abbrev apply_command_does_not_append_reads_to_aof_run : Run (Response × Bytes)
apply_command_does_not_append_reads_to_aof_run = do
  (old, store) ←
      KeyStore.insert (with_hasher {V = StoredValue}) (codes "key") (new_value (codes "value"))
  r ← read now (server_with store) (Command.get (codes "key"))
  ok (r, (server_with store).wal.file)

abbrev cleanup_removes_expired_entries_only_run :
    Run (ℕ × Option StoredValue × Option StoredValue × Option StoredValue)
cleanup_removes_expired_entries_only_run = do
  (a, store) ←
      KeyStore.insert (with_hasher {V = StoredValue}) (codes "expired")
        (record { bytes = (codes "old"); expires_at = some 0 })
  (b, store₁) ←
      KeyStore.insert store (codes "live-with-ttl")
        (record { bytes = (codes "current"); expires_at = some (2 ^ 64 - 1) })
  (d, store₂) ← KeyStore.insert store₁ (codes "live") (new_value (codes "value"))
  (removed, ss) ← remove_expired now (server_with store₂)
  x ← KeyStore.get ss.key_store (codes "expired")
  y ← KeyStore.get ss.key_store (codes "live-with-ttl")
  z ← KeyStore.get ss.key_store (codes "live")
  ok (removed, x, y, z)

abbrev restores_empty_key_store_from_empty_aof_run : Run (Option StoredValue)
restores_empty_key_store_from_empty_aof_run = do
  restored ← restore (open_file none)
  store ← expect restored
  KeyStore.get store (codes "missing")

abbrev replays_aof_commands_in_order_run : Run (Option StoredValue × Option StoredValue)
replays_aof_commands_in_order_run = do
  restored ← restore (
      append_all
        (set (codes "kept") (codes "old")
          ∷ set (codes "kept") (codes "new")
          ∷ set (codes "deleted") (codes "value")
          ∷ del ((codes "deleted") ∷ [])
          ∷ [])
        (open_file none))
  store ← expect restored
  a ← KeyStore.get store (codes "kept")
  b ← KeyStore.get store (codes "deleted")
  ok (a, b)

abbrev restores_absolute_expiration_from_aof_run : Run (Option StoredValue)
restores_absolute_expiration_from_aof_run = do
  restored ← restore (
      append_all (set (codes "key") (codes "value") ∷ expire_at (codes "key") (now + 60) ∷ [])
        (open_file none))
  store ← expect restored
  KeyStore.get store (codes "key")

abbrev errors_on_truncated_aof_request_run : Run (Result KeyStoreRestoreError Store)
errors_on_truncated_aof_request_run =
    restore (append written (open_file none) (codes "*3\r\n$3\r\nSET\r\n")).1

abbrev errors_on_invalid_aof_command_run : Run (Result KeyStoreRestoreError Store)
errors_on_invalid_aof_command_run =
    restore (append written (open_file none) (codes "*2\r\n$3\r\nFOO\r\n$3\r\nkey\r\n")).1

abbrev ApplyCommandAppendsWritesToAof : Type 0
ApplyCommandAppendsWritesToAof =
    apply_command_appends_writes_to_aof_run
    ≡ ok (
      Response.ok,
      to_bytes (set (codes "key") (codes "value")),
      some (new_value (codes "value")),
    )

apply_command_appends_writes_to_aof : ApplyCommandAppendsWritesToAof
unfolding bytes_key with_hasher KeyStore.get KeyStore.insert KeyStore.del KeyStore.get_mut
    KeyStore.iter KeyStore.get_bucket_index restore_keystore restore_loop write read remove_expired
    del_all expired_keys append get_file_content_from_start reads apply_read apply_write apply_set
    apply_del del_keys tally eject_if_expired is_stale apply_get value_response fresh
    apply_expire_at expire_response read_next decode_next decode_buffered fill_args take_request
    parse_cstr parse_payload parse_header header_line header_number is_crlf validate_eof to_bytes
    write_parts parts name try_from dispatch parse_set parse_del parse_expire_at parse_expiration
    is_expired parse_line is_utf8 parse_uint bytes_eq to_string as_i64
apply_command_appends_writes_to_aof = refl

abbrev ApplyCommandDoesNotAppendReadsToAof : Type 0
ApplyCommandDoesNotAppendReadsToAof =
    apply_command_does_not_append_reads_to_aof_run ≡ ok (cstr (codes "value"), [])

apply_command_does_not_append_reads_to_aof : ApplyCommandDoesNotAppendReadsToAof
unfolding bytes_key with_hasher KeyStore.get KeyStore.insert KeyStore.del KeyStore.get_mut
    KeyStore.iter KeyStore.get_bucket_index restore_keystore restore_loop write read remove_expired
    del_all expired_keys append get_file_content_from_start reads apply_read apply_write apply_set
    apply_del del_keys tally eject_if_expired is_stale apply_get value_response fresh
    apply_expire_at expire_response read_next decode_next decode_buffered fill_args take_request
    parse_cstr parse_payload parse_header header_line header_number is_crlf validate_eof to_bytes
    write_parts parts name try_from dispatch parse_set parse_del parse_expire_at parse_expiration
    is_expired parse_line is_utf8 parse_uint bytes_eq to_string as_i64
apply_command_does_not_append_reads_to_aof = refl

abbrev CleanupRemovesExpiredEntriesOnly : Type 0
CleanupRemovesExpiredEntriesOnly =
    cleanup_removes_expired_entries_only_run
    ≡ ok (
      1,
      none,
      some (record { bytes = (codes "current"); expires_at = some (2 ^ 64 - 1) }),
      some (new_value (codes "value")),
    )

cleanup_removes_expired_entries_only : CleanupRemovesExpiredEntriesOnly
unfolding bytes_key with_hasher KeyStore.get KeyStore.insert KeyStore.del KeyStore.get_mut
    KeyStore.iter KeyStore.get_bucket_index restore_keystore restore_loop write read remove_expired
    del_all expired_keys append get_file_content_from_start reads apply_read apply_write apply_set
    apply_del del_keys tally eject_if_expired is_stale apply_get value_response fresh
    apply_expire_at expire_response read_next decode_next decode_buffered fill_args take_request
    parse_cstr parse_payload parse_header header_line header_number is_crlf validate_eof to_bytes
    write_parts parts name try_from dispatch parse_set parse_del parse_expire_at parse_expiration
    is_expired parse_line is_utf8 parse_uint bytes_eq to_string as_i64
cleanup_removes_expired_entries_only = refl

abbrev RestoresEmptyKeyStoreFromEmptyAof : Type 0
RestoresEmptyKeyStoreFromEmptyAof = restores_empty_key_store_from_empty_aof_run ≡ ok none

restores_empty_key_store_from_empty_aof : RestoresEmptyKeyStoreFromEmptyAof
unfolding bytes_key with_hasher KeyStore.get KeyStore.insert KeyStore.del KeyStore.get_mut
    KeyStore.iter KeyStore.get_bucket_index restore_keystore restore_loop write read remove_expired
    del_all expired_keys append get_file_content_from_start reads apply_read apply_write apply_set
    apply_del del_keys tally eject_if_expired is_stale apply_get value_response fresh
    apply_expire_at expire_response read_next decode_next decode_buffered fill_args take_request
    parse_cstr parse_payload parse_header header_line header_number is_crlf validate_eof to_bytes
    write_parts parts name try_from dispatch parse_set parse_del parse_expire_at parse_expiration
    is_expired parse_line is_utf8 parse_uint bytes_eq to_string as_i64
restores_empty_key_store_from_empty_aof = refl

abbrev ReplaysAofCommandsInOrder : Type 0
ReplaysAofCommandsInOrder =
    replays_aof_commands_in_order_run ≡ ok (some (new_value (codes "new")), none)

replays_aof_commands_in_order : ReplaysAofCommandsInOrder
unfolding bytes_key with_hasher KeyStore.get KeyStore.insert KeyStore.del KeyStore.get_mut
    KeyStore.iter KeyStore.get_bucket_index restore_keystore restore_loop write read remove_expired
    del_all expired_keys append get_file_content_from_start reads apply_read apply_write apply_set
    apply_del del_keys tally eject_if_expired is_stale apply_get value_response fresh
    apply_expire_at expire_response read_next decode_next decode_buffered fill_args take_request
    parse_cstr parse_payload parse_header header_line header_number is_crlf validate_eof to_bytes
    write_parts parts name try_from dispatch parse_set parse_del parse_expire_at parse_expiration
    is_expired parse_line is_utf8 parse_uint bytes_eq to_string as_i64
replays_aof_commands_in_order = refl

abbrev RestoresAbsoluteExpirationFromAof : Type 0
RestoresAbsoluteExpirationFromAof =
    restores_absolute_expiration_from_aof_run
    ≡ ok (some (record { bytes = (codes "value"); expires_at = some (now + 60) }))

restores_absolute_expiration_from_aof : RestoresAbsoluteExpirationFromAof
unfolding bytes_key with_hasher KeyStore.get KeyStore.insert KeyStore.del KeyStore.get_mut
    KeyStore.iter KeyStore.get_bucket_index restore_keystore restore_loop write read remove_expired
    del_all expired_keys append get_file_content_from_start reads apply_read apply_write apply_set
    apply_del del_keys tally eject_if_expired is_stale apply_get value_response fresh
    apply_expire_at expire_response read_next decode_next decode_buffered fill_args take_request
    parse_cstr parse_payload parse_header header_line header_number is_crlf validate_eof to_bytes
    write_parts parts name try_from dispatch parse_set parse_del parse_expire_at parse_expiration
    is_expired parse_line is_utf8 parse_uint bytes_eq to_string as_i64
restores_absolute_expiration_from_aof = refl

abbrev ErrorsOnTruncatedAofRequest : Type 0
ErrorsOnTruncatedAofRequest =
    errors_on_truncated_aof_request_run ≡ ok (err (request unexpected_eof))

errors_on_truncated_aof_request : ErrorsOnTruncatedAofRequest
unfolding bytes_key with_hasher KeyStore.get KeyStore.insert KeyStore.del KeyStore.get_mut
    KeyStore.iter KeyStore.get_bucket_index restore_keystore restore_loop write read remove_expired
    del_all expired_keys append get_file_content_from_start reads apply_read apply_write apply_set
    apply_del del_keys tally eject_if_expired is_stale apply_get value_response fresh
    apply_expire_at expire_response read_next decode_next decode_buffered fill_args take_request
    parse_cstr parse_payload parse_header header_line header_number is_crlf validate_eof to_bytes
    write_parts parts name try_from dispatch parse_set parse_del parse_expire_at parse_expiration
    is_expired parse_line is_utf8 parse_uint bytes_eq to_string as_i64
errors_on_truncated_aof_request = refl

abbrev ErrorsOnInvalidAofCommand : Type 0
ErrorsOnInvalidAofCommand =
    errors_on_invalid_aof_command_run ≡ ok (err (command (unrecognized_command (codes "FOO"))))

errors_on_invalid_aof_command : ErrorsOnInvalidAofCommand
unfolding bytes_key with_hasher KeyStore.get KeyStore.insert KeyStore.del KeyStore.get_mut
    KeyStore.iter KeyStore.get_bucket_index restore_keystore restore_loop write read remove_expired
    del_all expired_keys append get_file_content_from_start reads apply_read apply_write apply_set
    apply_del del_keys tally eject_if_expired is_stale apply_get value_response fresh
    apply_expire_at expire_response read_next decode_next decode_buffered fill_args take_request
    parse_cstr parse_payload parse_header header_line header_number is_crlf validate_eof to_bytes
    write_parts parts name try_from dispatch parse_set parse_del parse_expire_at parse_expiration
    is_expired parse_line is_utf8 parse_uint bytes_eq to_string as_i64
errors_on_invalid_aof_command = refl

abbrev take_command : Result CommandError Command → Run Command
take_command (err e) = panic
take_command (done c) = ok c

abbrev first_request : Decoded Request → Run Request
first_request (err e) = panic
first_request (done none) = panic
first_request (done (some q)) = ok q

abbrev chunks_of : Option (List Chunk) → List Chunk
chunks_of none = []
chunks_of (some chunks) = chunks

abbrev apply_command_persists_expire_as_expire_at_run : Run (Response × Command)
apply_command_persists_expire_as_expire_at_run = do
  (old, store) ←
      KeyStore.insert (with_hasher {V = StoredValue}) (codes "key") (new_value (codes "value"))
  parsed ← try_from now (record { cstrs = codes "EXPIRE" ∷ codes "key" ∷ codes "60" ∷ [] })
  expire ← take_command parsed
  (r, ss) ← write now written (server_with store) expire
  q ←
      first_request
        (read_next (chunks_of (get_file_content_from_start true ss.wal)) default_decoder).0
  read_back ← try_from now q
  persisted ← take_command read_back
  ok (r, persisted)

abbrev ApplyCommandPersistsExpireAsExpireAt : Type 0
ApplyCommandPersistsExpireAsExpireAt =
    apply_command_persists_expire_as_expire_at_run
    ≡ ok (integer (pos 1), expire_at (codes "key") (now + 60))

apply_command_persists_expire_as_expire_at : ApplyCommandPersistsExpireAsExpireAt
unfolding bytes_key with_hasher KeyStore.get KeyStore.insert KeyStore.del KeyStore.get_mut
    KeyStore.iter KeyStore.get_bucket_index restore_keystore restore_loop write read remove_expired
    del_all expired_keys append get_file_content_from_start reads apply_read apply_write apply_set
    apply_del del_keys tally eject_if_expired is_stale apply_get value_response fresh
    apply_expire_at expire_response read_next decode_next decode_buffered fill_args take_request
    parse_cstr parse_payload parse_header header_line header_number is_crlf validate_eof to_bytes
    write_parts parts name try_from dispatch parse_set parse_del parse_expire_at parse_expiration
    is_expired parse_line is_utf8 parse_uint bytes_eq to_string as_i64 parse_expire saturating_add
apply_command_persists_expire_as_expire_at = refl
