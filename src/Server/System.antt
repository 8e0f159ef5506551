-- ===== src/Server/System.antt =====
-- `serve` of server.rs: the connections and the cleanup task, in any order of their turns. What
-- the sockets give and take is part of an event. A turn takes the lock once, so that turns do not
-- overlap on the store; the sync thread does not change the state.

pub mod Answers
pub mod History
pub mod Restart
pub mod Serving
pub mod Turns
use simple_kv.Prelude.{
  ℕ, zero, suc, ◌+◌, Bool, true, false, if◌then◌else◌, Option, none, some, List, [], ◌∷◌, ◌++◌,
  take, Run, ok, ◌>>=◌,
}
use simple_kv.Util.{Bytes}
use simple_kv.Request.{RequestDecoder, RequestParseError, default_decoder, Chunk}
use simple_kv.Response.{Response}
use simple_kv.Response
use simple_kv.KeyStore.{HashKey}
use simple_kv.Command.{CommandError}
use simple_kv.AppendOnlyFile.{AppendOnlyFile, Writing, written, write_failed}
use simple_kv.Server.{
  ServerState, Turn, disconnected, closed, replied, from_wal, remove_expired,
  handle_client_connection,
}

-- The task of a connection, with what its reads will return.
pub data Task : Type 0 where
  ended : Task
  serving : RequestDecoder → List Chunk → Task

pub record Client : Type 0 where
  pub task : Task
  pub sent : Bytes

pub record System : Type 0 where
  pub server : ServerState
  pub clients : List Client
  pub running : Bool

-- The listener accepts a connection or fails; the task of a client has its turn, at a time, with
-- what the log and the socket answer; the cleanup task wakes up.
pub data Event : Type 0 where
  accept : Option (List Chunk) → Event
  turn : ℕ → ℕ → Writing → Writing → Event
  cleanup : ℕ → Event

-- `send_response`, with what the socket takes; a failure is only logged.
unfoldable pub send_response : Writing → Bytes → Response → Bytes
send_response written sent r = sent ++ Response.to_bytes r
send_response (write_failed n text) sent r = sent ++ take n (Response.to_bytes r)

-- The connection after its turn.
abbrev pub end_turn : Writing → Client → Turn → RequestDecoder → List Chunk → Client
end_turn sending client disconnected d chunks = record client { task = ended }
end_turn sending client (closed r) d chunks = record {
  task = ended;
  sent = send_response sending client.sent r;
}
end_turn sending client (replied r) d chunks = record {
  task = serving d chunks;
  sent = send_response sending client.sent r;
}

module _ ⦃h : HashKey Bytes⦄ where
  -- `serve` up to its loop.
  unfoldable pub serve : ℕ → (ℕ → ℕ) → AppendOnlyFile → Option (List Chunk) → Run System
  serve fuel clock aof reader = do
    ss ← from_wal fuel clock aof reader
    ok (record { server = ss; clients = []; running = true })

  module _ (command_error_text : CommandError → Bytes)
      (request_error_text : RequestParseError → Bytes) where
    abbrev pub take_task :
        ℕ → Writing → Writing → ServerState → Client → Task → Run (ServerState × Client)
    take_task now writing sending ss client ended = ok (ss, client)
    take_task now writing sending ss client (serving d chunks) = do
      (t, ss', d', chunks') ←
          handle_client_connection command_error_text request_error_text now writing ss d chunks
      ok (ss', end_turn sending client t d' chunks')

    -- The turn of the client with the number given.
    unfoldable pub take_turns :
        ℕ → ℕ → Writing → Writing → ServerState → List Client → Run (ServerState × List Client)
    take_turns i now writing sending ss [] = ok (ss, [])
    take_turns zero now writing sending ss (client ∷ clients) = do
      (ss', client') ← take_task now writing sending ss client client.task
      ok (ss', client' ∷ clients)
    take_turns (suc i) now writing sending ss (client ∷ clients) = do
      (ss', clients') ← take_turns i now writing sending ss clients
      ok (ss', client ∷ clients')

    -- An accepted connection is served by a task of its own; `serve` returns when `accept` fails,
    -- and the program ends with it.
    unfoldable pub handle_event : Event → System → Run System
    handle_event (accept none) s = ok (record s { running = false })
    handle_event (accept (some chunks)) s = ok (record s {
      clients = s.clients ++ record { task = serving default_decoder chunks; sent = [] } ∷ [];
    })
    handle_event (turn i now writing sending) s = do
      (ss, clients) ← take_turns i now writing sending s.server s.clients
      ok (record s { server = ss; clients = clients })
    handle_event (cleanup now) s = do
      (removed, ss) ← remove_expired now s.server
      ok (record s { server = ss })

    unfoldable pub run_events : List Event → System → Run System
    run_events [] s = ok s
    run_events (event ∷ events) s =
        if s.running then handle_event event s >>= run_events events else ok s
