-- ===== src/Server/System/Answers.antt =====
-- The loop of `handle_client_connection` of server.rs on a client that sends requests without waiting.
use simple_kv.Prelude.{
  ℕ, zero, suc, ◌*◌, ◌≡◌, refl, some, none, List, [], ◌∷◌, ◌++◌, length, All, arith, done, err, Run,
  ok, Returns, ◌>>=◌,
}
use simple_kv.Util.{Bytes}
use simple_kv.Request.{
  Request, RequestDecoder, RequestParseError, Decoded, Chunk, max_array_length, read_next,
}
use simple_kv.Request.RoundTrip.{IsRequest}
use simple_kv.Request.Pipeline.{pipeline, IsPending, read_next-IsPending, read_next-last}
use simple_kv.Response
use simple_kv.KeyStore.{HashKey}
use simple_kv.KeyStore.Methods.{Models}
use simple_kv.Command.{CommandError}
use simple_kv.Command.Effects.{Keyspace, HasRoom}
use simple_kv.AppendOnlyFile.{Writing, written}
use simple_kv.Server.{ServerState, take_turn, handle_request, handle_client_connection}
use simple_kv.Server.Requests.{handle_request_lem}
use simple_kv.Server.System.{Client, ended, serving, send_response, take_task}

module _ ⦃h : HashKey Bytes⦄ (command_error_text : CommandError → Bytes)
    (request_error_text : RequestParseError → Bytes) where
  -- Turns of one client, with what the clock shows and the log answers at each.
  unfoldable pub serve_client :
      ℕ → (ℕ → ℕ) → (ℕ → Writing) → ServerState → Client → Run (ServerState × Client)
  serve_client zero clock writing ss client = ok (ss, client)
  serve_client (suc n) clock writing ss client = do
    (ss', client') ←
        take_task command_error_text request_error_text (clock n) (writing n) written ss client
          client.task
    serve_client n clock writing ss' client'

  -- The requests handled in their order, and the bytes of their responses behind `sent`.
  unfoldable pub answer_all :
      (ℕ → ℕ) → (ℕ → Writing) → List Request → ServerState → Bytes → Run (ServerState × Bytes)
  answer_all clock writing [] ss sent = ok (ss, sent)
  answer_all clock writing (q ∷ qs) ss sent = do
    (r, ss') ←
        handle_request command_error_text request_error_text (clock (length (q ∷ qs)))
          (writing (length (q ∷ qs))) ss q
    answer_all clock writing qs ss' (sent ++ Response.to_bytes r)

  take_task-last :
      (now : ℕ) (writing : Writing) (ss : ServerState) (sent : Bytes) (d : RequestDecoder)
      (chunks : List Chunk) (x : Decoded Request × RequestDecoder × List Chunk)
      → read_next chunks d ≡ x
      → x.0 ≡ done none
      → take_task command_error_text request_error_text now writing written ss
          (record { task = serving d chunks; sent = sent })
          (serving d chunks)
        ≡ ok (ss, record { task = ended; sent = sent })
  unfolding handle_client_connection
  take_task-last now writing ss sent d chunks (err e, _, _) p q = absurd (cc q)
  take_task-last now writing ss sent d chunks (done (some r), _, _) p q = absurd (cc q)
  take_task-last now writing ss sent d chunks (done none, d', chunks') p q = rw (p, take_turn)

  take_task-next :
      (now : ℕ) (writing : Writing) (ss ss' : ServerState) (sent : Bytes) (d d' : RequestDecoder)
      (chunks chunks' : List Chunk) (q : Request) (r : Response.Response)
      → read_next chunks d ≡ (done (some q), d', chunks')
      → handle_request command_error_text request_error_text now writing ss q ≡ ok (r, ss')
      → take_task command_error_text request_error_text now writing written ss
          (record { task = serving d chunks; sent = sent })
          (serving d chunks)
        ≡ ok (ss', record { task = serving d' chunks'; sent = sent ++ Response.to_bytes r })
  unfolding handle_client_connection send_response
  take_task-next now writing ss ss' sent d d' chunks chunks' q r p run = rw (p, take_turn, run)

  -- A client that sends requests within the decoder's limits, one behind the other and split into
  -- reads in any way, and takes what is sent, has an answer to each of them after as many turns, in
  -- their order, and its task ends with the next turn; the server is left as if the requests had
  -- been handled one by one, if its store is in order with room for the longest request for each of
  -- them, whatever the log answers.
  pub serve_client_lem :
      (clock : ℕ → ℕ) (writing : ℕ → Writing) (qs : List Request) {f : Keyspace} (ss : ServerState)
      (sent : Bytes) (d : RequestDecoder) (chunks : List Chunk)
      → All IsRequest qs
      → IsPending (pipeline qs) d chunks
      → Models f ss.key_store
      → HasRoom (max_array_length * length qs) ss.key_store
      → Returns
          (serve_client
            (suc (length qs))
            clock
            writing
            ss
            (record { task = serving d chunks; sent = sent }))
          λ r. (r.1.task ≡ ended) × (answer_all clock writing qs ss sent ≡ ok (r.0, r.1.sent))
  unfolding serve_client answer_all
  serve_client_lem clock writing [] ss sent d chunks v p m room = (
    (ss, record { task = ended; sent = sent }),
    rw (
        take_task-last (clock 0) (writing 0) ss sent d chunks (read_next chunks d) refl
          (read_next-last d chunks p)),
    (refl, refl),
  )
  serve_client_lem clock writing (q ∷ qs) {f} ss sent d chunks (v, vs) p m room =
      let (d', chunks', e, p') = read_next-IsPending q (pipeline qs) d chunks v p in
      let now = clock (length (q ∷ qs)) in
      let w = writing (length (q ∷ qs)) in
      let ((r, ss'), run, after) =
        handle_request_lem f ss m now (max_array_length * length qs) command_error_text
          request_error_text w q
          (record { table = room.table; load = omega (arith, room.load, v.count) }) in
      let (x, run', ends) =
        serve_client_lem clock writing qs ss' (sent ++ Response.to_bytes r) d' chunks' vs p'
          after.models after.room in
      (x, rw (take_task-next now w ss ss' sent d d' chunks chunks' q r e run) run', rw run ends)
