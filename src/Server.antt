-- ===== src/Server.antt =====
-- server.rs: the server's state, its recovery from the write-ahead log, and what it does with the
-- requests of a connection. The texts of errors, which `thiserror` generates, are parameters;
-- the lock makes the handling of a command one step.
pub mod Expiry
pub mod Lasting
pub mod Recovery
pub mod Replay
pub mod Requests
pub mod System
pub mod Texts
use simple_kv.Prelude.{
  ℕ, zero, suc, ◌+◌, Bool, true, false, Option, none, some, List, [], ◌∷◌, length, Result, done,
  err, Run, ok, panic, spin, ◌>>=◌,
}
use simple_kv.Util.{Bytes}
use simple_kv.Request.{
  Request, RequestDecoder, RequestParseError, Decoded, default_decoder, Chunk, failed, bytes,
  read_next,
}
use simple_kv.Response.{Response, error}
use simple_kv.KeyStore.{KeyStore, HashKey, iter, del, with_hasher}
use simple_kv.Command.{
  Command, CommandError, StoredValue, is_expired, is_write_op, try_from, to_bytes,
}
use simple_kv.Command.Apply.{Store, apply_read, apply_write}
use simple_kv.AppendOnlyFile.{AppendOnlyFile, Writing, append}

pub record ServerState : Type 0 where
  pub wal : AppendOnlyFile
  pub key_store : Store

pub data KeyStoreRestoreError : Type 0 where
  io : KeyStoreRestoreError
  request : RequestParseError → KeyStoreRestoreError
  command : CommandError → KeyStoreRestoreError

abbrev pub Restored : Type 0
Restored = Run (Result KeyStoreRestoreError Store)

-- The keys of `remove_expired`.
unfoldable pub expired_keys : ℕ → List (Bytes × StoredValue) → List Bytes
expired_keys now [] = []
expired_keys now ((key, value) ∷ rest) = elim (is_expired now value) [
  | true ↦ key ∷ expired_keys now rest
  | false ↦ expired_keys now rest
]

-- What one turn of the loop of `handle_client_connection` ends with: the client has gone, the
-- response was the last one, or the loop goes on.
pub data Turn : Type 0 where
  disconnected : Turn
  closed replied : Response → Turn

module _ ⦃h : HashKey Bytes⦄ where
  -- One command of the log, with the rounds that follow.
  abbrev replay : ℕ → Store → (Store → Restored) → Result CommandError Command → Restored
  replay now ks rounds (err e) = ok (err (command e))
  replay now ks rounds (done c) = do (response, ks') ← apply_write now c ks; rounds ks'

  abbrev replay_request :
      ℕ
      → Store
      → (RequestDecoder → List Chunk → Store → Restored)
      → Decoded Request × RequestDecoder × List Chunk
      → Restored
  replay_request now ks rounds (err e, d, chunks) = ok (err (request e))
  replay_request now ks rounds (done none, d, chunks) = ok (done ks)
  replay_request now ks rounds (done (some q), d, chunks) = do
    c ← try_from now q
    replay now ks (rounds d chunks) c

  -- The loop of `restore_keystore`; `clock` reads the time for each round.
  unfoldable pub restore_loop : ℕ → (ℕ → ℕ) → RequestDecoder → List Chunk → Store → Restored
  restore_loop zero clock d chunks ks = spin
  restore_loop (suc fuel) clock d chunks ks =
      replay_request (clock fuel) ks (restore_loop fuel clock) (read_next chunks d)

  -- `restore_keystore`: `seek` fails, or the reader gives the chunks.
  unfoldable pub restore_keystore : ℕ → (ℕ → ℕ) → Option (List Chunk) → Restored
  restore_keystore fuel clock none = ok (err io)
  restore_keystore fuel clock (some chunks) =
      restore_loop fuel clock default_decoder chunks with_hasher

  abbrev or_fail : AppendOnlyFile → Result KeyStoreRestoreError Store → Run ServerState
  or_fail aof (err e) = panic
  or_fail aof (done ks) = ok (record { wal = aof; key_store = ks })

  -- `from_wal`, with the log that `open` gives; its `expect` panics.
  unfoldable pub from_wal : ℕ → (ℕ → ℕ) → AppendOnlyFile → Option (List Chunk) → Run ServerState
  from_wal fuel clock aof reader = do
    restored ← restore_keystore fuel clock reader
    or_fail aof restored

  abbrev write_applied :
      ℕ → Command → Store → Result Bytes Unit × AppendOnlyFile → Run (Response × ServerState)
  write_applied now c ks (err text, aof) = ok (error text, record { wal = aof; key_store = ks })
  write_applied now c ks (done t, aof) = do
    (response, ks') ← apply_write now c ks
    ok (response, record { wal = aof; key_store = ks' })

  unfoldable pub write : ℕ → Writing → ServerState → Command → Run (Response × ServerState)
  write now writing ss c = write_applied now c ss.key_store (append writing ss.wal (to_bytes c))

  unfoldable pub read : ℕ → ServerState → Command → Run Response
  read now ss c = apply_read now c ss.key_store

  unfoldable pub del_all : List Bytes → Store → Run Store
  del_all [] ks = ok ks
  del_all (key ∷ keys) ks = do (old, ks') ← del ks key; del_all keys ks'

  unfoldable pub remove_expired : ℕ → ServerState → Run (ℕ × ServerState)
  remove_expired now ss = do
    ks ← del_all (expired_keys now (iter ss.key_store)) ss.key_store
    ok (length (expired_keys now (iter ss.key_store)), record ss { key_store = ks })

  unfoldable pub execute : ℕ → Writing → ServerState → Command → Run (Response × ServerState)
  execute now writing ss c = elim (is_write_op c) [
    | true ↦ write now writing ss c
    | false ↦ do response ← read now ss c; ok (response, ss)
  ]

  module _ (command_error_text : CommandError → Bytes)
      (request_error_text : RequestParseError → Bytes) where
    abbrev pub run_command :
        ℕ → Writing → ServerState → Result CommandError Command → Run (Response × ServerState)
    run_command now writing ss (err e) = ok (error (command_error_text e), ss)
    run_command now writing ss (done c) = execute now writing ss c

    unfoldable pub handle_request :
        ℕ → Writing → ServerState → Request → Run (Response × ServerState)
    handle_request now writing ss q = do c ← try_from now q; run_command now writing ss c

    abbrev take_turn :
        ℕ
        → Writing
        → ServerState
        → Decoded Request × RequestDecoder × List Chunk
        → Run (Turn × ServerState × RequestDecoder × List Chunk)
    take_turn now writing ss (done none, d, chunks) = ok (disconnected, ss, d, chunks)
    take_turn now writing ss (err e, d, chunks) =
        ok (closed (error (request_error_text e)), ss, d, chunks)
    take_turn now writing ss (done (some q), d, chunks) = do
      (response, ss') ← handle_request now writing ss q
      ok (replied response, ss', d, chunks)

    unfoldable pub handle_client_connection :
        ℕ
        → Writing
        → ServerState
        → RequestDecoder
        → List Chunk
        → Run (Turn × ServerState × RequestDecoder × List Chunk)
    handle_client_connection now writing ss d chunks = take_turn now writing ss (read_next chunks d)
