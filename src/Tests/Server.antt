-- ===== src/Tests/Server.antt =====
-- The theorems on the server at concrete inputs.
mod System
use simple_kv.Prelude.{
  ℕ, ltb, if◌then◌else◌, ◌≤◌, suc, ◌+◌, ◌≡◌, refl, true, none, some, List, [], ◌∷◌, ◌++◌, length,
  take, drop, All, arith, err, ok, panic, Returns, ◌>>=◌,
}
use simple_kv.Util.{Bytes, codes, bytes_eq, is_utf8, to_string}
use simple_kv.KeyStore.{HashKey, with_hasher}
use simple_kv.KeyStore
use simple_kv.KeyStore.Methods
use simple_kv.KeyStore.Methods.{Models}
use simple_kv.KeyStore.Resize.{with_hasher-Models}
use simple_kv.Request.{
  Request, RequestParseError, Chunk, bytes, unexpected_eof, default_decoder, max_array_length, feed,
}
use simple_kv.Request
use simple_kv.Request.Chunks.{contents, IsStream}
use simple_kv.Request.Cut.{feed_default-IsDecoder}
use simple_kv.Request.Pipeline.{pipeline}
use simple_kv.Command.{Command, CommandError, is_write_op, name, parts, write_parts}
use simple_kv.Command
use simple_kv.Command.RoundTrip.{is_set, is_mset, is_del, is_expire_at}
use simple_kv.Command.Apply.{fresh}
use simple_kv.Command.Effects.{Keyspace}
use simple_kv.AppendOnlyFile.{written, write_failed, open_file, get_file_content_from_start}
use simple_kv.Server.{
  ServerState, request, restore_keystore, from_wal, handle_request, remove_expired,
}
use simple_kv.Server.Expiry.{remove_expired_lem}
use simple_kv.Server.Requests.{Follows, handle_request_lem}
use simple_kv.Server.Replay.{log_bytes, IsLogged, replayed, restore_keystore-split}
use simple_kv.Server.Recovery.{
  set_timeless, mset_timeless, del_timeless, start, write_all, Restores, restore_keystore_lem,
  write_all_lem, recovery_lem, from_wal-torn,
}
use simple_kv.Util.Texts.{literal-IsText}
use simple_kv.Util.Decimal.{is_utf8-to_string}
use simple_kv.Request.{expected_array}
use simple_kv.Response.{error}
use simple_kv.Response
use simple_kv.Response.Numbers.{IsLine-to_string}
use simple_kv.Response.RoundTrip.{buffered}
use simple_kv.Command.Display.{command_names}
use simple_kv.Server.Texts.{request_error_lem, command_error_lem}
use simple_kv.Server.Lasting.{set_lasting, expire_at_lasting, recovery-IsLasting}
use simple_kv.Server.System.{Event, accept, turn, cleanup, ended, serving, serve, run_events}
use simple_kv.Server.System.Serving.{IsServing, run_events_lem}
use simple_kv.Server.System.History.{History}
use simple_kv.Server.System.Restart.{IsLog, first, restart_lem}
use simple_kv.Server.System.Answers.{serve_client, answer_all, serve_client_lem}
use simple_kv.Tests.{bytes_key, a_key, b_key, store, held, store-Models, store-HasRoom}

abbrev commands : List Command
commands =
    Command.set a_key b_key ∷ Command.mset ((b_key, a_key) ∷ []) ∷ Command.del (a_key ∷ []) ∷ []

commands-IsLogged : All IsLogged commands
unfolding is_write_op name bytes_eq parts
commands-IsLogged = (
  record {
    op = refl;
    made = is_set;
    sizes = record { count = omega arith; sizes = (omega arith, (omega arith, (omega arith, tt))) };
  },
  (
    record {
      op = refl;
      made = is_mset;
      sizes = record {
        count = omega arith;
        sizes = (omega arith, (omega arith, (omega arith, tt)));
      };
    },
    (
      record {
        op = refl;
        made = is_del;
        sizes = record { count = omega arith; sizes = (omega arith, (omega arith, tt)) };
      },
      tt,
    ),
  ),
)

abbrev lasting_commands : List Command
lasting_commands = Command.set a_key b_key ∷ Command.expire_at a_key 900 ∷ []

lasting_commands-IsLogged : All IsLogged lasting_commands
unfolding is_write_op name bytes_eq parts to_string
lasting_commands-IsLogged = (
  commands-IsLogged.0,
  (
    record {
      op = refl;
      made = is_expire_at (omega arith);
      sizes = record {
        count = omega arith;
        sizes = (omega arith, (omega arith, (omega arith, tt)));
      };
    },
    tt,
  ),
)

-- The log of the commands in two reads.
abbrev two_reads : List Chunk
two_reads = bytes (take 7 (log_bytes commands)) ∷ bytes (drop 7 (log_bytes commands)) ∷ []

two_reads-IsStream : IsStream two_reads
unfolding Command.to_bytes write_parts parts name to_string
two_reads-IsStream = tt

contents-two_reads : contents two_reads ≡ log_bytes commands
unfolding Command.to_bytes write_parts parts name to_string
contents-two_reads = refl

abbrev clock : ℕ → ℕ
clock n = n + 100

recovery_lem_example : Returns (write_all 0 (λ n. n) commands start) λ ss.
    (ss.wal.file ≡ contents two_reads)
    × Returns
        (from_wal (suc (2 + length commands)) clock ss.wal (some two_reads))
        λ ss'. (ss'.wal ≡ ss.wal) × (f : Keyspace) × Models f ss.key_store × Models f ss'.key_store
recovery_lem_example =
    recovery_lem 0 2 (λ n. n) clock commands two_reads commands-IsLogged
      (set_timeless, (mset_timeless, (del_timeless, tt))) (omega arith) two_reads-IsStream
      contents-two_reads

write_all_lem_example : Returns (write_all 0 (λ n. n) commands start) λ r.
    (r.wal.file ≡ log_bytes commands)
    × Models (replayed 0 (λ n. n) commands (λ _. none)) r.key_store
unfolding with_hasher
write_all_lem_example =
    write_all_lem 0 (λ n. n) commands start with_hasher-Models commands-IsLogged
      (record { table = omega arith; load = omega arith })

restore_keystore_lem_example :
    Returns
      (restore_keystore (suc (2 + length commands)) clock (some two_reads))
      (Restores 2 clock (replayed 2 clock commands (λ _. none)))
restore_keystore_lem_example =
    restore_keystore_lem 2 clock commands two_reads two_reads-IsStream contents-two_reads
      commands-IsLogged (omega arith)

abbrev one_read : List Chunk
one_read = bytes (log_bytes commands) ∷ []

one_read-IsStream : IsStream one_read
unfolding Command.to_bytes write_parts parts name to_string
one_read-IsStream = tt

contents-one_read : contents two_reads ≡ contents one_read
unfolding Command.to_bytes write_parts parts name to_string
contents-one_read = refl

restore_keystore-split_example :
    restore_keystore 9 clock (some two_reads) ≡ restore_keystore 9 clock (some one_read)
restore_keystore-split_example =
    restore_keystore-split 9 clock two_reads one_read two_reads-IsStream one_read-IsStream
      contents-one_read

-- A log that ends within a DEL command.
abbrev torn_log : Bytes
torn_log = codes "*2\r\n$3\r\nDE"

abbrev torn_rest : Bytes
torn_rest = codes "L\r\n$2\r\nab\r\n"

torn_log-same : torn_log ++ torn_rest ≡ Command.to_bytes (Command.del (a_key ∷ []))
unfolding Command.to_bytes write_parts parts name to_string
torn_log-same = refl

from_wal-torn_example :
    (restore_keystore 1 clock (some (bytes torn_log ∷ [])) ≡ ok (err (request unexpected_eof)))
    × (from_wal 1 clock (open_file (some torn_log)) (some (bytes torn_log ∷ [])) ≡ panic)
from_wal-torn_example =
    from_wal-torn 0 clock [] (Command.del (a_key ∷ [])) torn_log torn_rest
      (open_file (some torn_log)) (bytes torn_log ∷ []) tt refl torn_log-same (omega arith)
      (omega arith) tt commands-IsLogged.1.1.0 (omega arith)

abbrev set_request : Request
set_request = record { cstrs = codes "SET" ∷ a_key ∷ b_key ∷ [] }

abbrev get_request : Request
get_request = record { cstrs = codes "GET" ∷ a_key ∷ [] }

abbrev incoming : List Chunk
incoming = bytes (pipeline (set_request ∷ get_request ∷ [])) ∷ []

abbrev state : ServerState
state = record { wal = record { file = codes "*0" }; key_store = store }

handle_request_lem_example :
    Returns
      (handle_request
        (λ e. codes "bad command")
        (λ e. codes "bad request")
        5
        written
        state
        set_request)
      λ r. Follows 5 2 (a_key ∷ b_key ∷ []) held (codes "*0") written r.1
handle_request_lem_example =
    handle_request_lem held state store-Models 5 2 (λ e. codes "bad command")
      (λ e. codes "bad request") written set_request store-HasRoom

remove_expired_lem_example : Returns (remove_expired 5 state) λ r.
    (r.1.wal ≡ state.wal)
    × Models (λ k. fresh 5 (held k)) r.1.key_store
    × KeyStore.Methods.Keeps state.key_store r.1.key_store
remove_expired_lem_example = remove_expired_lem state store-Models 5

abbrev at_most : ℕ → ℕ → ℕ
at_most t n = if ltb n t then n else t

at_most-le : (t n : ℕ) → at_most t n ≤ t
at_most-le t n = ground arith

recovery-IsLasting_example : Returns (write_all 0 (at_most 800) lasting_commands start) λ ss.
    (ss.wal.file ≡ contents (bytes (log_bytes lasting_commands) ∷ []))
    × Returns
        (from_wal
          (suc (2 + length lasting_commands))
          (at_most 700)
          ss.wal
          (some (bytes (log_bytes lasting_commands) ∷ [])))
        λ ss'. (ss'.wal ≡ ss.wal) × (f : Keyspace) × Models f ss.key_store × Models f ss'.key_store
unfolding Command.to_bytes write_parts parts name to_string
recovery-IsLasting_example =
    recovery-IsLasting 0 2 800 (at_most 800) (at_most 700) lasting_commands
      (bytes (log_bytes lasting_commands) ∷ []) (at_most-le 800)
      (λ i. omega (arith, at_most-le 700 i)) lasting_commands-IsLogged
      (set_lasting, (expire_at_lasting (omega arith), tt)) (omega arith) tt refl
