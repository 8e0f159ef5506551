-- ===== src/Server/System/History.antt =====
-- How the map and the log of server.rs come to be as they are, by requests and the removal of expired
-- values.
use simple_kv.Prelude.{ℕ, suc, ◌+◌, ◌≤◌, ◌≡◌, List, [], ◌∷◌, drop, arith}
use simple_kv.Util.{Bytes}
use simple_kv.Request.{Request}
use simple_kv.Request.RoundTrip.{IsRequest}
use simple_kv.Request.Streaming.{IsDecoder}
use simple_kv.KeyStore.{HashKey}
use simple_kv.KeyStore.Methods.{Models}
use simple_kv.Command.Apply.{fresh}
use simple_kv.Command.Effects.{Keyspace, HasRoom}
use simple_kv.AppendOnlyFile.{Writing}
use simple_kv.Server.{ServerState}
use simple_kv.Server.Requests.{Step}
use simple_kv.Server.System.{Task, ended, serving, Client, Event, accept, turn, cleanup}

abbrev pub IsTask : Task → Type 0
IsTask ended = Unit
IsTask (serving d chunks) = IsDecoder d

abbrev pub IsClient : Client → Type 0
IsClient client = IsTask client.task

-- The turns of clients.
abbrev pub turns : List Event → ℕ
turns [] = 0
turns (accept incoming ∷ events) = turns events
turns (turn i now writing sending ∷ events) = suc (turns events)
turns (cleanup now ∷ events) = turns events

-- The log answers as `W` says.
abbrev pub Writes : (Writing → Type 0) → Event → Type 0
Writes W (accept incoming) = Unit
Writes W (turn i now writing sending) = W writing
Writes W (cleanup now) = Unit

pub turns-cons :
    (event : Event) (events : List Event)
    → turns (event ∷ events) ≡ turns (event ∷ []) + turns events
turns-cons (accept incoming) events = omega arith
turns-cons (turn i now writing sending) events = omega arith
turns-cons (cleanup now) events = omega arith

module _ ⦃h : HashKey Bytes⦄ (W : Writing → Type 0) where
  -- How the map and the log come to be from `f` and `log`, by `n` requests and the removal of
  -- expired values.
  pub data History (f : Keyspace) (log : Bytes) : ℕ → Keyspace → Bytes → Type 0 where
    start : History f log 0 f log
    request :
        {n : ℕ} {g g' : Keyspace} {l l' : Bytes} (now : ℕ) (q : Request) (writing : Writing)
        → History f log n g l
        → IsRequest q
        → W writing
        → Step now (drop 1 q.cstrs) g l writing g' l'
        → History f log (suc n) g' l'
    expiry :
        {n : ℕ} {g g' : Keyspace} {l : Bytes} (now : ℕ)
        → History f log n g l
        → ((k : Bytes) → g' k ≡ fresh now (g k))
        → History f log n g' l

  -- The server after at most `m` requests, with room for `n` more entries.
  pub record Serves (f : Keyspace) (log : Bytes) (m n : ℕ) (ss : ServerState) : Type 0 where
    pub after : Keyspace
    pub count : ℕ
    pub few : count ≤ m
    pub history : History f log count after ss.wal.file
    pub models : Models after ss.key_store
    pub room : HasRoom n ss.key_store

  pub Serves-le :
      {f : Keyspace} {log : Bytes} {ss : ServerState} (m m' n n' : ℕ)
      → m ≤ m'
      → n' ≤ n
      → Serves f log m n ss
      → Serves f log m' n' ss
  Serves-le m m' n n' a b s = record {
    after = s.after;
    count = s.count;
    few = omega (arith, s.few, a);
    history = s.history;
    models = s.models;
    room = record { table = s.room.table; load = omega (arith, s.room.load, b) };
  }
