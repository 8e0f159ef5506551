-- ===== src/Server/Recovery.antt =====
-- The write-ahead log of server.rs: what `write` leaves in it, `restore_keystore` reads back.
use simple_kv.Prelude.{
  ℕ, suc, ◌+◌, ◌^◌, ◌≤◌, ◌<◌, ◌≡◌, ◌∙◌, refl, sym, ap, subst, none, some, List, [], ◌∷◌, ◌++◌,
  append_assoc, append-nil, length, All, arith, Result, done, err, Run, ok, panic, Returns, ◌>>=◌,
}
use simple_kv.Util.{Bytes}
use simple_kv.Request.{default_decoder, feed, Chunk, unexpected_eof}
use simple_kv.Request.Chunks.{contents, IsStream}
use simple_kv.Request.Cut.{read_next-cut}
use simple_kv.Response.{Response}
use simple_kv.KeyStore.{HashKey, with_hasher}
use simple_kv.KeyStore.Methods.{Models}
use simple_kv.KeyStore.Resize.{with_hasher-Models}
use simple_kv.Command.{Command, mset, parts, to_bytes}
use simple_kv.Command.RoundTrip.{to_bytes_lem}
use simple_kv.Command.Apply.{Store, apply_write}
use simple_kv.Command.Effects.{Keyspace, HasRoom, effect, apply_write_lem}
use simple_kv.AppendOnlyFile.{AppendOnlyFile, written, append, open_file}
use simple_kv.Server.{
  ServerState, KeyStoreRestoreError, request, replay_request, restore_loop, restore_keystore,
  or_fail, from_wal, write,
}
use simple_kv.Server.Replay.{
  log_bytes, needed, IsLogged, replayed, restore_loop_lem, restore_stop, restore_keystore-contents,
}

-- A write whose effect does not depend on the time.
pub data IsTimeless : Command → Type 0 where
  set_timeless : {key value : Bytes} → IsTimeless (Command.set key value)
  mset_timeless : {entries : List (Bytes × Bytes)} → IsTimeless (mset entries)
  del_timeless : {keys : List Bytes} → IsTimeless (Command.del keys)

-- A server with an empty log.
abbrev pub start : ServerState
start = record { wal = open_file none; key_store = with_hasher }

module _ ⦃h : HashKey Bytes⦄ where
  -- The writes of some commands, in their order, with a log that can be written.
  unfoldable pub write_all : ℕ → (ℕ → ℕ) → List Command → ServerState → Run ServerState
  write_all extra clock [] ss = ok ss
  write_all extra clock (c ∷ cs) ss = do
    r ← write (clock (extra + length (c ∷ cs))) written ss c
    write_all extra clock cs r.1

  write_lem :
      (now : ℕ) (ss : ServerState) (c : Command) (r : Response × Store)
      → apply_write now c ss.key_store ≡ ok r
      → write now written ss c
        ≡ ok (r.0, record { wal = record { file = ss.wal.file ++ to_bytes c }; key_store = r.1 })
  unfolding write append
  write_lem now ss c r run = rw run

  module _ (extra : ℕ) (clock : ℕ → ℕ) where
    abbrev pub Restores : Keyspace → Result KeyStoreRestoreError Store → Type 0
    Restores f r = (ks : Store) × (r ≡ Result.done ks) × Models f ks

    -- The replay of a log that starts with some commands, as far as what follows them.
    restore_keystore-prefix :
        (cs : List Command) (tail : Bytes) (chunks : List Chunk)
        → IsStream chunks
        → contents chunks ≡ log_bytes cs ++ tail
        → All IsLogged cs
        → needed cs ≤ 2 ^ 60
        → (ks : Store) × Models (replayed extra clock cs (λ _. none)) ks
          × (restore_keystore (suc (extra + length cs)) clock (some chunks)
              ≡ restore_loop (suc extra) clock (feed default_decoder tail) [] ks)
    unfolding with_hasher
    restore_keystore-prefix cs tail chunks s same ls small =
        let (ks, m, run) =
          restore_loop_lem extra clock cs tail with_hasher-Models ls
            (record { table = omega arith; load = omega (arith, small) }) in
        (
          ks,
          m,
          restore_keystore-contents (suc (extra + length cs)) clock chunks s
              ∙ ap
                  (λ t.
                    restore_loop (suc (extra + length cs)) clock (feed default_decoder t) []
                      with_hasher)
                  same
              ∙ run,
        )

    -- The log that some write commands leave, within the decoder's limits and with at most 2^60
    -- entries in all, is restored however it is split into reads: the loop ends, without an error
    -- or a panic, and the store is in order with the map of the writes at the times of the replay.
    pub restore_keystore_lem :
        (cs : List Command) (chunks : List Chunk)
        → IsStream chunks
        → contents chunks ≡ log_bytes cs
        → All IsLogged cs
        → needed cs ≤ 2 ^ 60
        → Returns
            (restore_keystore (suc (extra + length cs)) clock (some chunks))
            (Restores (replayed extra clock cs (λ _. none)))
    restore_keystore_lem cs chunks s same ls small =
        let (ks, m, run) =
          restore_keystore-prefix cs [] chunks s (same ∙ sym (append-nil (log_bytes cs))) ls
            small in
        (done ks, run ∙ restore_stop extra clock ks, (ks, refl, m))

    -- A log of write commands within the decoder's limits, at most 2^60 entries in all, whose last
    -- command is cut off behind its first byte, makes `restore_keystore` return the error for an
    -- unexpected end of the input, and `from_wal` panic, however the log is split into reads.
    pub from_wal-torn :
        (cs : List Command) (c : Command) (part rest : Bytes) (wal : AppendOnlyFile)
        (chunks : List Chunk)
        → IsStream chunks
        → contents chunks ≡ log_bytes cs ++ part
        → part ++ rest ≡ to_bytes c
        → 0 < length part
        → 0 < length rest
        → All IsLogged cs
        → IsLogged c
        → needed cs ≤ 2 ^ 60
        → (restore_keystore (suc (extra + length cs)) clock (some chunks)
            ≡ ok (err (request unexpected_eof)))
          × (from_wal (suc (extra + length cs)) clock wal (some chunks) ≡ panic)
    unfolding from_wal restore_loop
    from_wal-torn cs c part rest wal chunks s same cut some_part more ls l small =
        let (ks, m, run) = restore_keystore-prefix cs part chunks s same ls small in
        let (d, e) =
          read_next-cut (record { cstrs = parts c }) part rest l.sizes (cut ∙ to_bytes_lem c)
            some_part more in
        let stop : restore_keystore (suc (extra + length cs)) clock (some chunks)
            ≡ ok (err (request unexpected_eof)) =
          run ∙ ap (replay_request (clock extra) ks (restore_loop extra clock)) e in
        (stop, ap (λ t. t >>= or_fail wal) stop)

    -- Write commands one after the other, on a server whose store is in order and has room for
    -- their entries, with a log that can be written, all end without a panic; the log has grown by
    -- their bytes in their order, and the store is in order with the map of the writes at their
    -- times.
    pub write_all_lem :
        (cs : List Command) {f : Keyspace} (ss : ServerState)
        → Models f ss.key_store
        → All IsLogged cs
        → HasRoom (needed cs) ss.key_store
        → Returns (write_all extra clock cs ss) λ r.
          (r.wal.file ≡ ss.wal.file ++ log_bytes cs)
          × Models (replayed extra clock cs f) r.key_store
    unfolding write_all replayed
    write_all_lem [] {f} ss m l room = (ss, refl, (sym (append-nil ss.wal.file), m))
    write_all_lem (c ∷ cs) {f} ss m (l, ls) room =
        let now = clock (extra + length (c ∷ cs)) in
        let (r, run, (a, m', room')) = apply_write_lem m now c l.op (needed cs) room in
        let next : ServerState = record {
          wal = record { file = ss.wal.file ++ to_bytes c };
          key_store = r.1;
        } in
        let (r', run', (log, m'')) = write_all_lem cs next m' ls room' in
        (
          r',
          rw (write_lem now ss c r run) run',
          (log ∙ append_assoc ss.wal.file (to_bytes c) (log_bytes cs), m''),
        )

  effect-IsTimeless :
      (a b : ℕ) (c : Command) (f : Keyspace) → IsTimeless c → effect a c f ≡ effect b c f
  unfolding effect
  effect-IsTimeless a b _ f set_timeless = refl
  effect-IsTimeless a b _ f mset_timeless = refl
  effect-IsTimeless a b _ f del_timeless = refl

  replayed-IsTimeless :
      (m n : ℕ) (clock clock' : ℕ → ℕ) (cs : List Command) (f : Keyspace)
      → All IsTimeless cs
      → replayed m clock cs f ≡ replayed n clock' cs f
  unfolding replayed
  replayed-IsTimeless m n clock clock' [] f t = refl
  replayed-IsTimeless m n clock clock' (c ∷ cs) f (t, ts) =
      ap (replayed m clock cs) (effect-IsTimeless _ (clock' (n + length (c ∷ cs))) c f t)
      ∙ replayed-IsTimeless m n clock clock' cs _ ts

  -- A server and its recovery, where the times make no difference to the map.
  pub recovery-replayed :
      (m n : ℕ) (clock clock' : ℕ → ℕ) (cs : List Command) (chunks : List Chunk)
      → All IsLogged cs
      → replayed m clock cs (λ _. none) ≡ replayed n clock' cs (λ _. none)
      → needed cs ≤ 2 ^ 60
      → IsStream chunks
      → contents chunks ≡ log_bytes cs
      → Returns (write_all m clock cs start) λ ss.
        (ss.wal.file ≡ contents chunks)
        × Returns (from_wal (suc (n + length cs)) clock' ss.wal (some chunks)) λ ss'.
          (ss'.wal ≡ ss.wal) × (f : Keyspace) × Models f ss.key_store × Models f ss'.key_store
  unfolding from_wal with_hasher
  recovery-replayed m n clock clock' cs chunks ls alike small s same =
      let f = replayed n clock' cs (λ _. none) in
      let (ss, run, (log, live)) =
        write_all_lem m clock cs start with_hasher-Models ls
          (record { table = omega arith; load = omega (arith, small) }) in
      let (r, run', (ks, e, back)) = restore_keystore_lem n clock' cs chunks s same ls small in
      (
        ss,
        run,
        (
          log ∙ sym same,
          (
            record { wal = ss.wal; key_store = ks },
            rw (run', ◌>>=◌, e),
            (refl, f, subst (λ t. Models t ss.key_store) alike live, back),
          ),
        ),
      )

  -- A server that starts with an empty log takes any SET, MSET and DEL commands within the
  -- decoder's limits, at most 2^60 entries in all; a server that starts later from the log they
  -- left, however it is split into reads, ends its recovery without a panic, keeps the log, and has
  -- a store in order with the same map, whatever the times of the writes and of the recovery are.
  pub recovery_lem :
      (m n : ℕ) (clock clock' : ℕ → ℕ) (cs : List Command) (chunks : List Chunk)
      → All IsLogged cs
      → All IsTimeless cs
      → needed cs ≤ 2 ^ 60
      → IsStream chunks
      → contents chunks ≡ log_bytes cs
      → Returns (write_all m clock cs start) λ ss.
        (ss.wal.file ≡ contents chunks)
        × Returns (from_wal (suc (n + length cs)) clock' ss.wal (some chunks)) λ ss'.
          (ss'.wal ≡ ss.wal) × (f : Keyspace) × Models f ss.key_store × Models f ss'.key_store
  recovery_lem m n clock clock' cs chunks ls ts small s same =
      recovery-replayed m n clock clock' cs chunks ls (replayed-IsTimeless m n clock clock' cs _ ts)
        small s same
