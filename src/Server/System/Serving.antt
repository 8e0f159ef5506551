-- ===== src/Server/System/Serving.antt =====
-- The server of server.rs with any connections and the cleanup task, in any order: no panic, the
-- store stays in order, and the map and the log change by the requests alone.
use simple_kv.Prelude.{
  ℕ, suc, ◌+◌, ◌*◌, ◌≡◌, ◌∙◌, refl, sym, ap, subst, Bool, true, false, if◌then◌else◌, Bool-cases,
  inl, inr, none, some, List, [], ◌∷◌, ◌++◌, All, All-append, arith, ok, Returns, ◌>>=◌,
}
use simple_kv.Util.{Bytes}
use simple_kv.Request.{RequestParseError, default_decoder, max_array_length}
use simple_kv.Request.Cut.{feed_default-IsDecoder}
use simple_kv.KeyStore.{HashKey}
use simple_kv.Command.{CommandError}
use simple_kv.Command.Apply.{fresh}
use simple_kv.Command.Effects.{Keyspace, Keeps-HasRoom}
use simple_kv.AppendOnlyFile.{Writing}
use simple_kv.Server.Expiry.{remove_expired_lem}
use simple_kv.Server.System.{
  serving, System, Event, accept, turn, cleanup, handle_event, run_events,
}
use simple_kv.Server.System.History.{
  IsClient, turns, Writes, History, expiry, Serves, Serves-le, turns-cons,
}
use simple_kv.Server.System.Turns.{take_turns_lem}

module _ ⦃h : HashKey Bytes⦄ (W : Writing → Type 0) where
  module _ (command_error_text : CommandError → Bytes)
      (request_error_text : RequestParseError → Bytes) (f : Keyspace) (log : Bytes) where
    -- A system after at most `m` requests, with room for `n` more entries.
    abbrev pub IsServing : ℕ → ℕ → System → Type 0
    IsServing m n s = Serves W f log m n s.server × All IsClient s.clients

    handle_event_lem :
        (event : Event) (m n : ℕ) (s : System)
        → IsServing m (max_array_length * turns (event ∷ []) + n) s
        → Writes W event
        → Returns
            (handle_event command_error_text request_error_text event s)
            (IsServing (m + turns (event ∷ [])) n)
    unfolding handle_event
    handle_event_lem (accept none) m n s (v, c) w = (
      record s { running = false },
      refl,
      (Serves-le W m (m + 0) (max_array_length * 0 + n) n (omega arith) (omega arith) v, c),
    )
    handle_event_lem (accept (some chunks)) m n s (v, c) w = (
      record s {
        clients = s.clients ++ record { task = serving default_decoder chunks; sent = [] } ∷ [];
      },
      refl,
      (
        Serves-le W m (m + 0) (max_array_length * 0 + n) n (omega arith) (omega arith) v,
        All-append IsClient s.clients
            (record { task = serving default_decoder chunks; sent = [] } ∷ []) c
            (feed_default-IsDecoder [], tt),
      ),
    )
    handle_event_lem (turn i now writing sending) m n s (v, c) w =
        let ((ss, clients), run, (after, c')) =
          take_turns_lem W command_error_text request_error_text f log i now m n writing sending
            s.server s.clients
            (Serves-le W m m (max_array_length * 1 + n) (max_array_length + n) (omega arith)
              (omega arith) v)
            w c in
        (
          record s { server = ss; clients = clients },
          rw run,
          (Serves-le W (suc m) (m + 1) n n (omega arith) (omega arith) after, c'),
        )
    handle_event_lem (cleanup now) m n s (v, c) w =
        let (r, run, (log', models, kept)) = remove_expired_lem s.server v.models now in
        (
          record s { server = r.1 },
          rw run,
          (
            record {
              after = λ k. fresh now (v.after k);
              count = v.count;
              few = omega (arith, v.few);
              history =
                  expiry now
                    (subst (λ t. History W f log v.count v.after t.file) (sym log') v.history)
                    (λ k. refl);
              models = models;
              room =
                  Keeps-HasRoom
                    (Serves-le W m m (max_array_length * 0 + n) n (omega arith) (omega arith)
                      v).room
                    kept;
            },
            c,
          ),
        )

    run_events-if :
        (event : Event) (events : List Event) (s : System) (b : Bool)
        → s.running ≡ b
        → run_events command_error_text request_error_text (event ∷ events) s ≡ (
            if b
            then handle_event command_error_text request_error_text event s
              >>= run_events command_error_text request_error_text events
            else ok s)
    unfolding run_events
    run_events-if event events s b p =
        ap
          (λ t.
            if t
            then handle_event command_error_text request_error_text event s
              >>= run_events command_error_text request_error_text events
            else ok s)
          p

    -- Any connections and the cleanup task, interleaved in any way, from a server whose store is in
    -- order with room for the longest request at each turn, end without a panic, whatever the
    -- reads, the log and the sockets answer: the decoders of all connections and the store are in
    -- order again, with room for `n` more entries, and the map and the log have come to be as they
    -- are by the steps of at most as many requests as there were turns, each within the limits, and
    -- the removal of expired values; `W` holds of what the log answered.
    pub run_events_lem :
        (events : List Event) (m n : ℕ) (s : System)
        → IsServing m (max_array_length * turns events + n) s
        → All (Writes W) events
        → Returns
            (run_events command_error_text request_error_text events s)
            (IsServing (m + turns events) n)
    unfolding run_events
    run_events_lem [] m n s (v, c) w = (
      s,
      refl,
      (Serves-le W m (m + 0) (max_array_length * 0 + n) n (omega arith) (omega arith) v, c),
    )
    run_events_lem (event ∷ events) m n s v (w, ws) = elim (Bool-cases s.running) [
      | inl p ↦
          let (s', run, v') =
            handle_event_lem event m (max_array_length * turns events + n) s (more v) w in
          let (s'', run', (a, c)) = run_events_lem events (m + turns (event ∷ [])) n s' v' ws in
          (
            s'',
            run_events-if event events s true p ∙ rw (run, run'),
            (
              Serves-le W (m + turns (event ∷ []) + turns events) (m + turns (event ∷ events)) n n
                  (omega (arith, turns-cons event events)) (omega arith) a,
              c,
            ),
          )
      | inr p ↦ (
        s,
        run_events-if event events s false p,
        (
          Serves-le W m (m + turns (event ∷ events)) (max_array_length * turns (event ∷ events) + n)
              n (omega arith) (omega arith) v.0,
          v.1,
        ),
      )
    ]
      where
        more :
            IsServing m (max_array_length * turns (event ∷ events) + n) s
            → IsServing m
                (max_array_length * turns (event ∷ []) + (max_array_length * turns events + n))
                s
        more (a, c) = (
          Serves-le W m m (max_array_length * turns (event ∷ events) + n)
              (max_array_length * turns (event ∷ []) + (max_array_length * turns events + n))
              (omega arith) (omega (arith, turns-cons event events)) a,
          c,
        )
