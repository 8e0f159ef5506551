-- ===== src/Tests/Server/System.antt =====
-- The theorems on connections at concrete inputs.
use simple_kv.Prelude.{
  suc, ◌+◌, ◌≡◌, refl, true, none, some, List, [], ◌∷◌, length, arith, ok, Returns, ◌>>=◌,
}
use simple_kv.Util.{Bytes, codes, to_string}
use simple_kv.KeyStore.{with_hasher}
use simple_kv.KeyStore.Methods.{Models}
use simple_kv.KeyStore.Resize.{with_hasher-Models}
use simple_kv.Request.{
  Request, RequestParseError, Chunk, bytes, unexpected_eof, default_decoder, max_array_length, feed,
}
use simple_kv.Request
use simple_kv.Request.Cut.{feed_default-IsDecoder}
use simple_kv.Command.{CommandError}
use simple_kv.AppendOnlyFile.{written, write_failed, open_file, get_file_content_from_start}
use simple_kv.Server.Replay.{replayed}
use simple_kv.Server.Recovery.{start}
use simple_kv.Request.{expected_array}
use simple_kv.Server.System.{Event, accept, turn, cleanup, ended, serving, serve, run_events}
use simple_kv.Server.System.Serving.{IsServing, run_events_lem}
use simple_kv.Server.System.History.{History}
use simple_kv.Server.System.Restart.{IsLog, first, restart_lem}
use simple_kv.Server.System.Answers.{serve_client, answer_all, serve_client_lem}
use simple_kv.Tests.{bytes_key}
use simple_kv.Tests.Server.{clock, set_request, get_request, incoming}

abbrev text : CommandError → Bytes
text e = codes "bad command"

abbrev request_text : RequestParseError → Bytes
request_text e = codes "bad request"

-- Two clients and the cleanup task; a write of the log fails.
abbrev events : List Event
events =
    accept (some incoming)
    ∷ accept (some incoming)
    ∷ turn 1 5 written written
    ∷ cleanup 6
    ∷ turn 0 7 (write_failed 3 (codes "disk full")) written
    ∷ turn 1 8 written (write_failed 2 (codes "reset"))
    ∷ []

run_events_lem_example :
    Returns
      (run_events text request_text events first)
      (IsServing (λ w. Unit) text request_text (λ _. none) [] 3 2)
unfolding with_hasher
run_events_lem_example =
    run_events_lem (λ w. Unit) text request_text (λ _. none) [] events 0 2 first
      (
        record {
          after = λ _. none;
          count = 0;
          few = omega arith;
          history = History.start;
          models = with_hasher-Models;
          room = record { table = omega arith; load = omega arith };
        },
        tt,
      )
      (tt, (tt, (tt, (tt, (tt, (tt, tt))))))

abbrev logged_events : List Event
logged_events =
    accept (some incoming) ∷ turn 0 5 written written ∷ cleanup 6 ∷ turn 0 7 written written ∷ []

restart_lem_example :
    Returns
      (serve 1 clock (open_file none) (get_file_content_from_start true (open_file none))
        >>= run_events text request_text logged_events)
      λ s.
        (l : IsLog 2 s.server.wal.file) × Returns
          (serve
            (suc (3 + length l.commands))
            clock
            s.server.wal
            (get_file_content_from_start true s.server.wal))
          λ s'.
            (s'.server.wal ≡ s.server.wal)
            × Models (replayed 3 clock l.commands (λ _. none)) s'.server.key_store
restart_lem_example =
    restart_lem text request_text 0 3 clock clock logged_events (tt, (refl, (tt, (refl, tt))))
      (omega arith)

serve_client_lem_example :
    Returns
      (serve_client text request_text 3 clock
        (λ n. written)
        start
        (record { task = serving default_decoder incoming; sent = [] }))
      λ r.
        (r.1.task ≡ ended)
        × (answer_all text request_text clock
              (λ n. written)
              (set_request ∷ get_request ∷ [])
              start
              []
            ≡ ok (r.0, r.1.sent))
unfolding with_hasher Request.to_bytes to_string
serve_client_lem_example =
    serve_client_lem text request_text clock (λ n. written) (set_request ∷ get_request ∷ []) start
      [] default_decoder incoming
      (
        record { count = omega arith; sizes = (omega arith, (omega arith, (omega arith, tt))) },
        (record { count = omega arith; sizes = (omega arith, (omega arith, tt)) }, tt),
      )
      (record { same = refl; decoder = feed_default-IsDecoder []; stream = tt }) with_hasher-Models
      (record { table = omega arith; load = omega arith })
