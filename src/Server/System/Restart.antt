-- ===== src/Server/System/Restart.antt =====
-- The server of server.rs, started again from the log that its requests have left.
use simple_kv.Prelude.{
  ℕ, zero, suc, ◌+◌, ◌*◌, ◌^◌, ◌≤◌, ◌≡◌, ◌∙◌, refl, sym, ap, true, none, List, [], ◌∷◌, ◌++◌,
  append_assoc, append-nil, take, drop, take-drop, length, length-drop, All, All-append, arith, ok,
  Returns, ◌>>=◌,
}
use simple_kv.Util.{Bytes}
use simple_kv.Request.{RequestParseError, max_array_length, read_chunk_size}
use simple_kv.Request.RoundTrip.{IsRequest}
use simple_kv.Request.Chunks.{contents, IsStream}
use simple_kv.KeyStore.{HashKey, with_hasher}
use simple_kv.KeyStore.Methods.{Models}
use simple_kv.KeyStore.Resize.{with_hasher-Models}
use simple_kv.Command.{Command, CommandError, is_write_op, to_bytes}
use simple_kv.Command.RoundTrip.{IsCommand}
use simple_kv.Command.Parse.{Keeps}
use simple_kv.Command.Sizes.{parts-IsRequest}
use simple_kv.Command.Effects.{Keyspace, added}
use simple_kv.AppendOnlyFile.{
  AppendOnlyFile, Writing, written, reads, open_file, get_file_content_from_start,
}
use simple_kv.Server.{from_wal}
use simple_kv.Server.Replay.{
  log_bytes, needed, IsLogged, replayed, restore_stop, restore_keystore-contents,
}
use simple_kv.Server.Recovery
use simple_kv.Server.Recovery.{restore_keystore_lem}
use simple_kv.Server.Requests.{Step, keep, torn, change}
use simple_kv.Server.System.{System, Event, serve, run_events}
use simple_kv.Server.System.Serving.{run_events_lem}
use simple_kv.Server.System.History.{turns, Writes, History, start, request, expiry}

reads-IsStream : (fuel : ℕ) (b : Bytes) → IsStream (reads fuel b)
unfolding reads
reads-IsStream zero b = tt
reads-IsStream (suc fuel) [] = tt
reads-IsStream (suc fuel) (c ∷ b) = reads-IsStream fuel (drop read_chunk_size (c ∷ b))

contents-reads : (fuel : ℕ) (b : Bytes) → length b ≤ fuel → contents (reads fuel b) ≡ b
unfolding reads
contents-reads zero [] h = refl
contents-reads zero (c ∷ b) h = absurd (omega (arith, h))
contents-reads (suc fuel) [] h = refl
contents-reads (suc fuel) (c ∷ b) h =
    ap (λ t. take read_chunk_size (c ∷ b) ++ t)
      (contents-reads fuel (drop read_chunk_size (c ∷ b))
        (omega (arith, h, length-drop read_chunk_size (c ∷ b))))
    ∙ take-drop read_chunk_size (c ∷ b)

log_bytes-append :
    (cs : List Command) (c : Command) → log_bytes (cs ++ c ∷ []) ≡ log_bytes cs ++ to_bytes c
log_bytes-append [] c = append-nil (to_bytes c)
log_bytes-append (x ∷ cs) c =
    ap (λ t. to_bytes x ++ t) (log_bytes-append cs c)
    ∙ sym (append_assoc (to_bytes x) (log_bytes cs) (to_bytes c))

needed-append : (cs : List Command) (c : Command) → needed (cs ++ c ∷ []) ≡ needed cs + added c
needed-append [] c = omega arith
needed-append (x ∷ cs) c = omega (arith, needed-append cs c)

-- The commands of the log, at most `n` times the strings of a request.
pub record IsLog (n : ℕ) (log : Bytes) : Type 0 where
  pub commands : List Command
  pub bytes : log ≡ log_bytes commands
  pub logged : All IsLogged commands
  pub small : needed commands ≤ max_array_length * n

module _ ⦃h : HashKey Bytes⦄ where
  IsLog-suc :
      (n : ℕ) (cstrs : List Bytes) (log : Bytes) (c : Command)
      → IsRequest (record { cstrs = cstrs })
      → IsCommand c
      → is_write_op c ≡ true
      → Keeps (drop 1 cstrs) c
      → added c ≤ length (drop 1 cstrs)
      → IsLog n log
      → IsLog (suc n) (log ++ to_bytes c)
  IsLog-suc n cstrs log c v made op kept few l = record {
    commands = l.commands ++ c ∷ [];
    bytes = ap (λ t. t ++ to_bytes c) l.bytes ∙ sym (log_bytes-append l.commands c);
    logged =
        All-append IsLogged l.commands (c ∷ []) l.logged
          (record { op = op; made = made; sizes = parts-IsRequest cstrs c v made kept }, tt);
    small = omega (arith, needed-append l.commands c, l.small, few, v.count, length-drop 1 cstrs);
  }

  Step-IsLog :
      {now n : ℕ} {f g : Keyspace} {log log' : Bytes} {writing : Writing} (cstrs : List Bytes)
      → IsRequest (record { cstrs = cstrs })
      → writing ≡ written
      → IsLog n log
      → Step now (drop 1 cstrs) f log writing g log'
      → IsLog (suc n) log'
  Step-IsLog cstrs v w l keep = record {
    commands = l.commands;
    bytes = l.bytes;
    logged = l.logged;
    small = omega (arith, l.small);
  }
  Step-IsLog cstrs v w l (torn c k text made op kept) = absurd (cc w)
  Step-IsLog {n = n} {log = log} cstrs v w l (change c made op kept few) =
      IsLog-suc n cstrs log c v made op kept few l

  -- Where the log has taken all writes, it is the log of commands.
  History-IsLog :
      {f g : Keyspace} {log : Bytes} {n : ℕ} → History (λ w. w ≡ written) f [] n g log → IsLog n log
  History-IsLog start = record { commands = []; bytes = refl; logged = tt; small = omega arith }
  History-IsLog (request now q writing past v w step) =
      Step-IsLog q.cstrs v w (History-IsLog past) step
  History-IsLog (expiry now past same) = History-IsLog past

  -- A server that starts with an empty file.
  abbrev pub first : System
  first = record { server = Recovery.start; clients = []; running = true }

  serve-first :
      (fuel : ℕ) (clock : ℕ → ℕ)
      → serve (suc fuel) clock (open_file none) (get_file_content_from_start true (open_file none))
        ≡ ok first
  unfolding serve from_wal get_file_content_from_start reads
  serve-first fuel clock =
      rw (restore_keystore-contents (suc fuel) clock [] tt ∙ restore_stop fuel clock with_hasher)

  IsLog-le : (m n : ℕ) (log : Bytes) → m ≤ n → IsLog m log → IsLog n log
  IsLog-le m n log h l = record {
    commands = l.commands;
    bytes = l.bytes;
    logged = l.logged;
    small = omega (arith, l.small, h);
  }

  -- A second start from the log.
  serve-again :
      (extra n : ℕ) (clock : ℕ → ℕ) (wal : AppendOnlyFile) (l : IsLog n wal.file)
      → max_array_length * n ≤ 2 ^ 60
      → Returns
          (serve (suc (extra + length l.commands)) clock wal (get_file_content_from_start true wal))
          λ s.
            (s.server.wal ≡ wal)
            × Models (replayed extra clock l.commands (λ _. none)) s.server.key_store
  unfolding serve from_wal get_file_content_from_start
  serve-again extra n clock wal l small =
      let (r, run, (ks, e, back)) =
        restore_keystore_lem extra clock l.commands (reads (length wal.file) wal.file)
          (reads-IsStream (length wal.file) wal.file)
          (contents-reads (length wal.file) wal.file (omega arith) ∙ l.bytes) l.logged
          (omega (arith, small, l.small)) in
      (
        record { server = record { wal = wal; key_store = ks }; clients = []; running = true },
        rw (run, ◌>>=◌, e),
        (refl, back),
      )

  module _ (command_error_text : CommandError → Bytes)
      (request_error_text : RequestParseError → Bytes) where
    -- A server that starts on a new file and serves any connections, interleaved in any way with
    -- the cleanup task, ends no turn with a panic, if every write of the log succeeds and the turns
    -- are at most 2^60 over the longest request. Its log is that of write commands within the
    -- decoder's limits; a server that starts from that log does so without an error or a panic,
    -- keeps the log, and has a store in order with the map of the commands at the times of the
    -- replay.
    pub restart_lem :
        (fuel extra : ℕ) (clock clock' : ℕ → ℕ) (events : List Event)
        → All (Writes (λ w. w ≡ written)) events
        → max_array_length * turns events ≤ 2 ^ 60
        → Returns
            (serve
                (suc fuel)
                clock
                (open_file none)
                (get_file_content_from_start true (open_file none))
              >>= run_events command_error_text request_error_text events)
            λ s.
              (l : IsLog (turns events) s.server.wal.file) × Returns
                (serve
                  (suc (extra + length l.commands))
                  clock'
                  s.server.wal
                  (get_file_content_from_start true s.server.wal))
                λ s'.
                  (s'.server.wal ≡ s.server.wal)
                  × Models (replayed extra clock' l.commands (λ _. none)) s'.server.key_store
    unfolding with_hasher
    restart_lem fuel extra clock clock' events ws small =
        let (s, run, (live, c)) =
          run_events_lem (λ w. w ≡ written) command_error_text request_error_text (λ _. none) []
            events 0 0 first
            (
              record {
                after = λ _. none;
                count = 0;
                few = omega arith;
                history = start;
                models = with_hasher-Models;
                room = record { table = omega arith; load = omega (arith, small) };
              },
              tt,
            )
            ws in
        let l =
          IsLog-le live.count (turns events) s.server.wal.file (omega (arith, live.few))
            (History-IsLog live.history) in
        (
          s,
          rw (serve-first fuel clock) run,
          (l, serve-again extra (turns events) clock' s.server.wal l small),
        )
