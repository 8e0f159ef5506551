-- ===== src/Server/Requests.antt =====
-- What the server of server.rs does with any request: it never panics, and the map changes only by
-- a write that is in the log.
use simple_kv.Prelude.{
  ℕ, ◌+◌, ◌≤◌, ◌≡◌, inl, inr, refl, true, false, Bool-cases, ◌++◌, length, List, drop, length-drop,
  take, arith, done, err, ok, Returns,
}
use simple_kv.Util.{Bytes, bytes_eq}
use simple_kv.Request.{Request, RequestParseError}
use simple_kv.Response.{Response, error}
use simple_kv.KeyStore.{HashKey}
use simple_kv.KeyStore.Methods.{Models}
use simple_kv.Command.{
  Command, CommandError, get, set, mget, mset, del, getall, expire_at, ttl, is_write_op, name,
  to_bytes, try_from,
}
use simple_kv.Command.RoundTrip.{IsCommand}
use simple_kv.Command.Parse.{Keeps, Makes, try_from_lem}
use simple_kv.Command.Apply.{Store, apply_read}
use simple_kv.Command.Answers.{get_lookup, mget_lookup, ttl_lookup, apply_read_lem}
use simple_kv.Command.Effects.{Keyspace, HasRoom, added, effect, apply_write_lem}
use simple_kv.AppendOnlyFile.{Writing, written, write_failed, append}
use simple_kv.Server.{ServerState, write, read, execute, handle_request}

module _ ⦃h : HashKey Bytes⦄ where
  -- One step of the map and the log, for a request with the arguments `args`: both stay; or the
  -- write fails, with a part of its record in the log; or it is in the log and changes the map.
  pub data Step (now : ℕ) (args : List Bytes) (f : Keyspace) (log : Bytes)
      : Writing → Keyspace → Bytes → Type 0 where
    keep : {writing : Writing} → Step now args f log writing f log
    torn :
        (c : Command) (k : ℕ) (text : Bytes)
        → IsCommand c
        → is_write_op c ≡ true
        → Keeps args c
        → Step now args f log (write_failed k text) f (log ++ take k (to_bytes c))
    change :
        (c : Command)
        → IsCommand c
        → is_write_op c ≡ true
        → Keeps args c
        → added c ≤ length args
        → Step now args f log written (effect now c f) (log ++ to_bytes c)

  -- The state after a step from the map `f` and the log `log`, with room for `n` more entries.
  pub record Follows (now n : ℕ) (args : List Bytes) (f : Keyspace) (log : Bytes)
      (writing : Writing) (ss : ServerState) : Type 0 where
    pub after : Keyspace
    pub step : Step now args f log writing after ss.wal.file
    pub models : Models after ss.key_store
    pub room : HasRoom n ss.key_store

  HasRoom-le : {ks : Store} (m n : ℕ) → n ≤ m → HasRoom m ks → HasRoom n ks
  HasRoom-le m n h room = record { table = room.table; load = omega (arith, room.load, h) }

  module _ (f : Keyspace) (ss : ServerState) (m : Models f ss.key_store) (now n : ℕ) where
    abbrev Goes : List Bytes → Writing → Response × ServerState → Type 0
    Goes args writing r = Follows now n args f ss.wal.file writing r.1

    stays :
        {args : List Bytes} {writing : Writing}
        → HasRoom n ss.key_store
        → Follows now n args f ss.wal.file writing ss
    stays room = record { after = f; step = keep; models = m; room = room }

    apply_read_total :
        (c : Command)
        → is_write_op c ≡ false
        → (r : Response) × (apply_read now c ss.key_store ≡ ok r)
    unfolding apply_read is_write_op name bytes_eq
    apply_read_total (get key) w =
        let (r, run, _) = apply_read_lem m now (get key) get_lookup in (r, run)
    apply_read_total (mget keys) w =
        let (r, run, _) = apply_read_lem m now (mget keys) mget_lookup in (r, run)
    apply_read_total (ttl key) w =
        let (r, run, _) = apply_read_lem m now (ttl key) ttl_lookup in (r, run)
    apply_read_total getall w = (_, refl)
    apply_read_total (set key value) w = absurd (cc w)
    apply_read_total (mset entries) w = absurd (cc w)
    apply_read_total (del keys) w = absurd (cc w)
    apply_read_total (expire_at key timestamp) w = absurd (cc w)

    write_total :
        (c : Command) (writing : Writing) (args : List Bytes)
        → IsCommand c
        → Keeps args c
        → added c ≤ length args
        → is_write_op c ≡ true
        → HasRoom (added c + n) ss.key_store
        → Returns (write now writing ss c) (Goes args writing)
    unfolding write append
    write_total c written args made kept few w room =
        let (r, run, (a, b, left)) = apply_write_lem m now c w n room in
        (
          (r.0, record { wal = record { file = ss.wal.file ++ to_bytes c }; key_store = r.1 }),
          rw run,
          record {
            after = effect now c f;
            step = change c made w kept few;
            models = b;
            room = left;
          },
        )
    write_total c (write_failed k text) args made kept few w room = (
      (
        error text,
        record {
          wal = record { file = ss.wal.file ++ take k (to_bytes c) };
          key_store = ss.key_store;
        },
      ),
      refl,
      record {
        after = f;
        step = torn c k text made w kept;
        models = m;
        room = HasRoom-le (added c + n) n (omega arith) room;
      },
    )

    execute_total :
        (c : Command) (writing : Writing) (args : List Bytes)
        → IsCommand c
        → Keeps args c
        → added c ≤ length args
        → HasRoom (added c + n) ss.key_store
        → Returns (execute now writing ss c) (Goes args writing)
    unfolding execute read
    execute_total c writing args made kept few room = elim (Bool-cases (is_write_op c)) [
      | inl w ↦
          let (r, run, g) = write_total c writing args made kept few w room in
          (r, rw (w, execute) run, g)
      | inr w ↦
          let (r, run) = apply_read_total c w in
          (
            (r, ss),
            rw (w, execute, read, run),
            stays (HasRoom-le (added c + n) n (omega arith) room),
          )
    ]

    module _ (command_error_text : CommandError → Bytes)
        (request_error_text : RequestParseError → Bytes) where
      -- The server answers any request without a panic, if its store is in order and has room for
      -- an entry for each string of the request, whatever the log file answers: either map and log
      -- stay; or the write fails, the map stays and the log grows by a part of the record; or a
      -- write that keeps the request's arguments is in the log whole and changes the map by its
      -- effect. The store is in order again, with room for `n` more entries.
      pub handle_request_lem :
          (writing : Writing) (q : Request)
          → HasRoom (length q.cstrs + n) ss.key_store
          → Returns
              (handle_request command_error_text request_error_text now writing ss q)
              (Goes (drop 1 q.cstrs) writing)
      unfolding handle_request
      handle_request_lem writing q room = go (try_from_lem now q.cstrs)
        where
          go :
              Returns (try_from now q) (Makes (drop 1 q.cstrs))
              → Returns
                  (handle_request command_error_text request_error_text now writing ss q)
                  (Goes (drop 1 q.cstrs) writing)
          go (err e, run, made) = (
            (error (command_error_text e), ss),
            rw run,
            stays (HasRoom-le (length q.cstrs + n) n (omega arith) room),
          )
          go (done c, run, (made, small, kept)) =
              let (r, run', g) = execute_total c writing (drop 1 q.cstrs) made kept small (
                HasRoom-le (length q.cstrs + n) (added c + n)
                  (omega (arith, small, length-drop 1 q.cstrs)) room) in
              (r, rw run run', g)
