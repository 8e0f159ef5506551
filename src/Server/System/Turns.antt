-- ===== src/Server/System/Turns.antt =====
-- The turn of a connection of server.rs: no panic, and a step by a request of the client.
use simple_kv.Prelude.{
  ℕ, zero, suc, ◌+◌, refl, none, some, List, [], ◌∷◌, All, arith, done, err, Returns,
}
use simple_kv.Util.{Bytes}
use simple_kv.Request.{
  Request, RequestDecoder, RequestParseError, Decoded, max_array_length, Chunk, read_next,
}
use simple_kv.Request.Chunks.{Accepts, read_next-Accepts}
use simple_kv.KeyStore.{HashKey}
use simple_kv.Command.{CommandError}
use simple_kv.Command.Effects.{Keyspace}
use simple_kv.AppendOnlyFile.{Writing}
use simple_kv.Server.{ServerState, Turn, replied, take_turn, handle_client_connection}
use simple_kv.Server.Requests.{handle_request_lem}
use simple_kv.Server.System.{Task, ended, serving, Client, end_turn, take_task, take_turns}
use simple_kv.Server.System.History.{IsTask, IsClient, request, Serves, Serves-le}

module _ ⦃h : HashKey Bytes⦄ (W : Writing → Type 0) where
  module _ (command_error_text : CommandError → Bytes)
      (request_error_text : RequestParseError → Bytes) (f : Keyspace) (log : Bytes) where
    -- The server and one of the connections behind a turn.
    abbrev Turned : ℕ → ℕ → ServerState × Client → Type 0
    Turned m n r = Serves W f log m n r.0 × IsClient r.1

    abbrev Ends : ℕ → ℕ → Turn × ServerState × RequestDecoder × List Chunk → Type 0
    Ends m n (t, ss, d, chunks) =
        Serves W f log m n ss
        × ((sending : Writing) (client : Client) → IsClient (end_turn sending client t d chunks))

    take_turn_lem :
        (now m n : ℕ) (writing : Writing) (ss : ServerState)
        (x : Decoded Request × RequestDecoder × List Chunk)
        → Serves W f log m (max_array_length + n) ss
        → W writing
        → Accepts x
        → Returns
            (take_turn command_error_text request_error_text now writing ss x)
            (Ends (suc m) n)
    take_turn_lem now m n writing ss (err e, d, chunks) s w v = (
      _,
      refl,
      (
        Serves-le W m (suc m) (max_array_length + n) n (omega arith) (omega arith) s,
        λ sending client. tt,
      ),
    )
    take_turn_lem now m n writing ss (done none, d, chunks) s w v = (
      _,
      refl,
      (
        Serves-le W m (suc m) (max_array_length + n) n (omega arith) (omega arith) s,
        λ sending client. tt,
      ),
    )
    take_turn_lem now m n writing ss (done (some q), d, chunks) s w (made, v) =
        let (r, run, after) =
          handle_request_lem s.after ss s.models now n command_error_text request_error_text writing
            q (record { table = s.room.table; load = omega (arith, s.room.load, made.count) }) in
        (
          (replied r.0, r.1, d, chunks),
          rw run,
          (
            record {
              after = after.after;
              count = suc s.count;
              few = omega (arith, s.few);
              history = request now q writing s.history made w after.step;
              models = after.models;
              room = after.room;
            },
            λ sending client. v,
          ),
        )

    take_task_lem :
        (now m n : ℕ) (writing sending : Writing) (ss : ServerState) (client : Client) (task : Task)
        → Serves W f log m (max_array_length + n) ss
        → W writing
        → IsTask task
        → IsClient client
        → Returns
            (take_task command_error_text request_error_text now writing sending ss client task)
            (Turned (suc m) n)
    unfolding handle_client_connection
    take_task_lem now m n writing sending ss client ended s w v c = (
      (ss, client),
      refl,
      (Serves-le W m (suc m) (max_array_length + n) n (omega arith) (omega arith) s, c),
    )
    take_task_lem now m n writing sending ss client (serving d chunks) s w v c =
        let ((t, ss', d', chunks'), run, (after, ends)) =
          take_turn_lem now m n writing ss (read_next chunks d) s w
            (read_next-Accepts chunks d v) in
        ((ss', end_turn sending client t d' chunks'), rw run, (after, ends sending client))

    pub take_turns_lem :
        (i now m n : ℕ) (writing sending : Writing) (ss : ServerState) (clients : List Client)
        → Serves W f log m (max_array_length + n) ss
        → W writing
        → All IsClient clients
        → Returns
            (take_turns command_error_text request_error_text i now writing sending ss clients)
            λ r. Serves W f log (suc m) n r.0 × All IsClient r.1
    unfolding take_turns
    take_turns_lem i now m n writing sending ss [] s w v = (
      (ss, []),
      refl,
      (Serves-le W m (suc m) (max_array_length + n) n (omega arith) (omega arith) s, tt),
    )
    take_turns_lem zero now m n writing sending ss (client ∷ clients) s w (v, vs) =
        let ((ss', client'), run, (after, v')) =
          take_task_lem now m n writing sending ss client client.task s w v v in
        ((ss', client' ∷ clients), rw run, (after, (v', vs)))
    take_turns_lem (suc i) now m n writing sending ss (client ∷ clients) s w (v, vs) =
        let ((ss', clients'), run, (after, vs')) =
          take_turns_lem i now m n writing sending ss clients s w vs in
        ((ss', client ∷ clients'), rw run, (after, (v, vs')))
