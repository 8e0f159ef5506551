-- ===== src/Server/Replay.antt =====
-- The replay of the log in server.rs: `restore_loop` does not depend on how the log is split into
-- reads, and it goes through the commands that `write` has logged, whatever follows them.
use simple_kv.Prelude.{
  ℕ, zero, suc, ◌+◌, ◌≡◌, ◌∙◌, refl, sym, ap, subst, fun_ext, true, none, some, List, [], ◌∷◌, ◌++◌,
  append_assoc, append-nil, length, All, arith, Result, err, done, ok, ◌>>=◌,
}
use simple_kv.Util.{Bytes, parse_line}
use simple_kv.Request.{
  Request, RequestDecoder, Decoded, default_decoder, feed, Chunk, bytes, read_next, or_read,
  decode_next, decode_buffered, validate_eof, parse_header,
}
use simple_kv.Request.RoundTrip.{IsRequest}
use simple_kv.Request.Streaming.{IsDecoder}
use simple_kv.Request.Chunks.{contents, IsStream, answer, Ready, read_next_lem}
use simple_kv.Request.Cut.{feed_default-IsDecoder}
use simple_kv.KeyStore.{HashKey, with_hasher}
use simple_kv.KeyStore.Methods.{Models}
use simple_kv.Command.{Command, is_write_op, try_from, parts, to_bytes}
use simple_kv.Command.RoundTrip.{IsCommand, try_from-parts, decode_next-to_bytes_Command}
use simple_kv.Command.Apply.{Store}
use simple_kv.Command.Effects.{Keyspace, HasRoom, added, effect, apply_write_lem}
use simple_kv.Server.{Restored, replay, replay_request, restore_loop, restore_keystore}

abbrev pub log_bytes : List Command → Bytes
log_bytes [] = []
log_bytes (c ∷ cs) = to_bytes c ++ log_bytes cs

-- The entries that some commands can add.
abbrev pub needed : List Command → ℕ
needed [] = 0
needed (c ∷ cs) = added c + needed cs

-- A write within the limits of the decoder, as `try_from` makes it.
pub record IsLogged (c : Command) : Type 0 where
  pub op : is_write_op c ≡ true
  pub made : IsCommand c
  pub sizes : IsRequest (record { cstrs = parts c })

-- A request in the buffer is returned before anything is read.
read_next-buffered :
    (chunks : List Chunk) (d d' : RequestDecoder) (q : Request)
    → decode_next d ≡ (Result.done (some q), d')
    → read_next chunks d ≡ (Result.done (some q), d', chunks)
unfolding read_next
read_next-buffered [] d d' q p = ap (or_read [] _) p
read_next-buffered (Chunk.failed ∷ chunks) d d' q p = ap (or_read (Chunk.failed ∷ chunks) _) p
read_next-buffered (bytes [] ∷ chunks) d d' q p = ap (or_read (bytes [] ∷ chunks) _) p
read_next-buffered (bytes (b ∷ bs) ∷ chunks) d d' q p = ap (or_read (bytes (b ∷ bs) ∷ chunks) _) p

read_next-end : read_next [] (feed default_decoder []) ≡ (Result.done none, default_decoder, [])
unfolding read_next decode_next decode_buffered parse_header parse_line validate_eof
read_next-end = refl

module _ ⦃h : HashKey Bytes⦄ where
  -- The map after some writes, each at the time that the clock shows for those that follow.
  unfoldable pub replayed : ℕ → (ℕ → ℕ) → List Command → Keyspace → Keyspace
  replayed extra clock [] f = f
  replayed extra clock (c ∷ cs) f =
      replayed extra clock cs (effect (clock (extra + length (c ∷ cs))) c f)

  abbrev IsSame : (RequestDecoder → List Chunk → Store → Restored) → Type 0
  IsSame rounds =
      (d d' : RequestDecoder) (chunks chunks' : List Chunk) (ks : Store)
      → IsDecoder d
      → IsDecoder d'
      → IsStream chunks
      → IsStream chunks'
      → feed d (contents chunks) ≡ feed d' (contents chunks')
      → rounds d chunks ks ≡ rounds d' chunks' ks

  -- The same answer, with the same bytes left, is replayed alike.
  replay_request-same :
      (now : ℕ) (rounds : RequestDecoder → List Chunk → Store → Restored)
      → IsSame rounds
      → (r : Decoded Request) (d d' : RequestDecoder) (chunks chunks' : List Chunk) (ks : Store)
      → feed d (contents chunks) ≡ feed d' (contents chunks')
      → Ready r d chunks
      → Ready r d' chunks'
      → replay_request now ks rounds (r, d, chunks) ≡ replay_request now ks rounds (r, d', chunks')
  replay_request-same now rounds ih (err e) d d' chunks chunks' ks p v w = refl
  replay_request-same now rounds ih (done none) d d' chunks chunks' ks p v w = refl
  replay_request-same now rounds ih (done (some q)) d d' chunks chunks' ks p (_, v, s) (_, w, s') =
      let e : rounds d chunks ≡ rounds d' chunks' =
        fun_ext λ t. ih d d' chunks chunks' t v w s s' p in
      ap (λ t. try_from now q >>= replay now ks t) e

  -- The replay depends on the bytes of the log alone, not on how they are split into reads.
  pub restore_loop-split : (fuel : ℕ) (clock : ℕ → ℕ) → IsSame (restore_loop fuel clock)
  unfolding restore_loop
  restore_loop-split zero clock d d' chunks chunks' ks v w s s' p = refl
  restore_loop-split (suc fuel) clock d d' chunks chunks' ks v w s s' p =
      let (a, b, ready) = read_next_lem chunks d s v in
      let (a', b', ready') = read_next_lem chunks' d' s' w in
      let x = ap decode_next p in
      let (r, d₁, rest) = read_next chunks d in
      let (r', d₂, rest') = read_next chunks' d' in
      let e : r' ≡ r = a' ∙ sym (ap answer x) ∙ sym a in
      replay_request-same (clock fuel) (restore_loop fuel clock) (restore_loop-split fuel clock) r
        d₁ d₂ rest rest' ks (b ∙ ap (λ t. t.1) x ∙ sym b') ready
        (subst (λ t. Ready t d₂ rest') e ready')
      ∙ ap (λ t. replay_request (clock fuel) ks (restore_loop fuel clock) (t, d₂, rest')) (sym e)

  restore_step :
      (fuel : ℕ) (clock : ℕ → ℕ) (c : Command) (rest : Bytes) (ks : Store)
      → IsLogged c
      → restore_loop (suc fuel) clock (feed default_decoder (to_bytes c ++ rest)) [] ks
        ≡ replay
            (clock fuel)
            ks
            (restore_loop fuel clock (feed default_decoder rest) [])
            (Result.done c)
  unfolding restore_loop
  restore_step fuel clock c rest ks l =
      ap (replay_request (clock fuel) ks (restore_loop fuel clock))
        (read_next-buffered [] _ _ _ (decode_next-to_bytes_Command c rest l.sizes))
      ∙ ap
          (λ t.
            t >>= replay (clock fuel) ks (restore_loop fuel clock (feed default_decoder rest) []))
          (try_from-parts (clock fuel) c l.made)

  pub restore_stop :
      (fuel : ℕ) (clock : ℕ → ℕ) (ks : Store)
      → restore_loop (suc fuel) clock (feed default_decoder []) [] ks ≡ ok (Result.done ks)
  unfolding restore_loop
  restore_stop fuel clock ks =
      ap (replay_request (clock fuel) ks (restore_loop fuel clock)) read_next-end

  module _ (extra : ℕ) (clock : ℕ → ℕ) where
    -- Where the log starts with some commands, these are replayed, and what follows them is next.
    pub restore_loop_lem :
        (cs : List Command) (tail : Bytes) {f : Keyspace} {ks : Store}
        → Models f ks
        → All IsLogged cs
        → HasRoom (needed cs) ks
        → (ks' : Store) × Models (replayed extra clock cs f) ks'
          × (restore_loop
                (suc (extra + length cs))
                clock
                (feed default_decoder (log_bytes cs ++ tail))
                []
                ks
              ≡ restore_loop (suc extra) clock (feed default_decoder tail) [] ks')
    unfolding replayed
    restore_loop_lem [] tail {f} {ks} m l room = (
      ks,
      m,
      ap (λ n. restore_loop (suc n) clock (feed default_decoder tail) [] ks) (omega arith),
    )
    restore_loop_lem (c ∷ cs) tail {f} {ks} m (l, ls) room =
        let now = clock (extra + length (c ∷ cs)) in
        let (r, run, (a, m', room')) = apply_write_lem m now c l.op (needed cs) room in
        let (ks', m'', rest) = restore_loop_lem cs tail m' ls room' in
        let count : extra + suc (length cs) ≡ suc (extra + length cs) = omega arith in
        (
          ks',
          m'',
          ap
                (λ t.
                  restore_loop (suc (extra + suc (length cs))) clock (feed default_decoder t) [] ks)
                (append_assoc (to_bytes c) (log_bytes cs) tail)
              ∙ restore_step (extra + suc (length cs)) clock c (log_bytes cs ++ tail) ks l
              ∙ ap
                  (λ t.
                    replay now ks
                      (restore_loop t clock (feed default_decoder (log_bytes cs ++ tail)) [])
                      (Result.done c))
                  count
              ∙ rw run rest,
        )

  -- `restore_keystore` is the loop on all the bytes of the log.
  pub restore_keystore-contents :
      (fuel : ℕ) (clock : ℕ → ℕ) (chunks : List Chunk)
      → IsStream chunks
      → restore_keystore fuel clock (some chunks)
        ≡ restore_loop fuel clock (feed default_decoder (contents chunks)) [] with_hasher
  unfolding restore_keystore
  restore_keystore-contents fuel clock chunks s =
      restore_loop-split fuel clock default_decoder (feed default_decoder (contents chunks)) chunks
        [] with_hasher (feed_default-IsDecoder []) (feed_default-IsDecoder (contents chunks)) s tt
        (ap (feed default_decoder) (sym (append-nil (contents chunks))))

  -- `restore_keystore` ends alike for any two ways to split the log into non-empty reads, whatever
  -- is in the log.
  pub restore_keystore-split :
      (fuel : ℕ) (clock : ℕ → ℕ) (chunks chunks' : List Chunk)
      → IsStream chunks
      → IsStream chunks'
      → contents chunks ≡ contents chunks'
      → restore_keystore fuel clock (some chunks) ≡ restore_keystore fuel clock (some chunks')
  restore_keystore-split fuel clock chunks chunks' s s' p =
      restore_keystore-contents fuel clock chunks s
      ∙ ap (λ t. restore_loop fuel clock (feed default_decoder t) [] with_hasher) p
      ∙ sym (restore_keystore-contents fuel clock chunks' s')
