-- ===== src/Lib.antt =====
-- simple-kv: a key-value server with a write-ahead log, over the RESP protocol. The library
-- models the crate in src/, whose files are named here from the repository's root.
--
-- A client's bytes go through the request decoder (src/request.rs), become a command
-- (src/command.rs) and are carried out by the server (src/server.rs) on the key store
-- (src/key_store.rs). Writes are first appended to the log (src/append_only_file.rs), from which
-- the store is restored at the start. Answers are RESP responses (src/response.rs).
--
-- KeyStore: the Robin Hood table of src/key_store.rs, one function for each method and loop. Its
--   submodules: Slot (bucket indices), Invariant and View (the order of the buckets, and the map
--   they hold), Gap (empty buckets), Lookup, Place, Insert and Replace (the loops of `insert`),
--   Shift and Remove (the loops of `del`), Drain and Resize, and Methods, Put and Delete (the
--   methods against the map). `Models f ks` says that a store is in order and holds the map `f`.
-- Util: src/util.rs and what the standard library does with text. Decimal, Numerals, Line,
--   Texts and Bounds are about both.
-- Request, Response: src/request.rs and src/response.rs; Response.Reader, and in
--   Request.RoundTrip, Response.RoundTrip, Response.Reads and Response.Numbers what is read back
--   of what is written, in Request.Poison what follows an error. Request.Header,
--   Request.BulkString, Request.Filling and Request.Streaming are about an answer of the decoder
--   when more bytes come, Request.Chunks about reads, Request.Cut about a request without its end,
--   Request.Pipeline about requests one behind the other.
-- Command: src/command.rs up to the serialiser; Command.Apply has the `apply_*` functions,
--   Command.Effects what writes do to the map, Command.Answers has the answers of reads as rules on
--   the map and the clock, Command.RoundTrip is about the way through the log,
--   Command.Display, Request.Display and Response.Display the texts of log messages and errors,
--   Command.Parse and Command.Sizes what the parsers can give, Command.Listing GETALL;
--   KeyStore.Iterate is about `iter`.
-- AppendOnlyFile, Server, Config: src/append_only_file.rs, src/server.rs and src/config.rs;
--   Server.Replay, Server.Recovery and Server.Lasting are about the log, Server.Texts about error
--   responses, Server.Expiry about the removal of expired keys, Server.Requests about any request.
--   Server.System is `serve`, the connections and the cleanup task as sequences of events in any
--   order; Server.System.History, Server.System.Turns and Server.System.Serving are about all of
--   these, Server.System.Answers about one client, Server.System.Restart about a second start.
--   Config.Limits is about accepted environments. Tests and its children have the theorems at
--   concrete inputs, and in its children named Unit the unit tests of the crate, but for those
--   that sort or insert in loops, as statements and runs of the model.
--
-- Code that can panic or loop returns a `Run`. The loops of the table run on fuel, the number of
-- buckets, which is enough while a bucket is empty; the replay of the log on a fuel that is
-- enough if it is more than the number of commands; the response parser on the number of bytes,
-- which bounds the nesting. `usize` and `u64` have 64 bits, and the sum in `get_bucket_index`
-- wraps, as in a release build. The `f32` of the load test is taken as exact, which it is below
-- 2^24 entries. A command reads the clock once. The hasher, `Debug`, `from_utf8_lossy` and the
-- answers of the operating system are parameters, and where the server is modelled the texts of
-- errors too; a reader is the list of what its reads return.
--
-- A turn of a connection is one step: it touches the shared state only while it holds the lock.
--
-- Not modelled: logging, sockets beyond the bytes they give and take, the scheduler (events come
-- in any order), the sync thread, allocation (`Vec::with_capacity` included).
mod Prelude
pub mod KeyStore
pub mod Util
pub mod Request
pub mod Response
pub mod Command
pub mod AppendOnlyFile
pub mod Server
pub mod Config
mod Tests
