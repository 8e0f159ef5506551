-- ===== src/Request/Chunks.antt =====
-- `read_next` of request.rs: its answers do not depend on how the input is split into reads.
use simple_kv.Prelude.{
  ◌≡◌, ◌∙◌, refl, sym, ap, subst, Bool, true, false, if◌then◌else◌, none, some, List, [], ◌∷◌, ◌++◌,
  append_assoc, append-nil, length-append, arith, done, err,
}
use simple_kv.Util.{Bytes}
use simple_kv.Request.{
  Request, RequestDecoder, Decoded, decode_next, poisoned, unexpected_eof, validate_eof, Chunk,
  failed, bytes, feed, or_read, read_next,
}
use simple_kv.Request.RoundTrip.{IsRequest}
use simple_kv.Request.Streaming.{IsDecoder, Streams, decode_next-feed}

-- The bytes of a reader.
abbrev pub contents : List Chunk → Bytes
contents [] = []
contents (failed ∷ chunks) = contents chunks
contents (bytes b ∷ chunks) = b ++ contents chunks

-- A reader whose reads all return some bytes, until its end.
abbrev pub IsStream : List Chunk → Type 0
IsStream [] = Unit
IsStream (failed ∷ chunks) = ⊥
IsStream (bytes [] ∷ chunks) = ⊥
IsStream (bytes (b ∷ bs) ∷ chunks) = IsStream chunks

-- The answer of `read_next`, by that of the decoder that has all bytes in its buffer.
abbrev pub answer : Decoded Request × RequestDecoder → Decoded Request
answer (err e, d) = err e
answer (done none, d) = validate_eof d
answer (done (some q), d) = done (some q)

-- What is left behind a request can be read on.
abbrev pub Ready : Decoded Request → RequestDecoder → List Chunk → Type 0
Ready (err e) d chunks = Unit
Ready (done none) d chunks = Unit
Ready (done (some q)) d chunks = IsRequest q × IsDecoder d × IsStream chunks

abbrev pub Reads :
    Decoded Request × RequestDecoder → Decoded Request × RequestDecoder × List Chunk → Type 0
Reads x (r, d, chunks) = (r ≡ answer x) × (feed d (contents chunks) ≡ x.1) × Ready r d chunks

feed-IsDecoder : (d : RequestDecoder) (b : Bytes) → IsDecoder d → IsDecoder (feed d b)
feed-IsDecoder d b v = record {
  inside = omega (arith, v.inside, length-append d.buffer b);
  expects = v.expects;
  short = v.short;
}

feed-nil : (d : RequestDecoder) → feed d [] ≡ d
feed-nil d = ap (λ t. record d { buffer = t }) (append-nil d.buffer)

feed-feed : (d : RequestDecoder) (b c : Bytes) → feed (feed d b) c ≡ feed d (b ++ c)
feed-feed d b c = ap (λ t. record d { buffer = t }) (append_assoc d.buffer b c)

Ready-eof : (d : RequestDecoder) → Ready (validate_eof d) d []
unfolding validate_eof
Ready-eof d = go d.poisoned d.buffer
  where
    go :
        (flag : Bool) (b : Bytes)
        → Ready
            (if flag
              then err poisoned
              else (elim b [ [] ↦ done none | _ ∷ _ ↦ err unexpected_eof ]))
            d
            []
    go true b = tt
    go false [] = tt
    go false (c ∷ b) = tt

-- `read_next` at the decoder's answer `x` to its buffer.
Reads-or_read :
    (chunks : List Chunk) (d : RequestDecoder)
    (read : RequestDecoder → Decoded Request × RequestDecoder × List Chunk)
    → IsStream chunks
    → ((d' : RequestDecoder)
        → decode_next d ≡ (done none, d')
        → IsDecoder d'
        → decode_next (feed d' (contents chunks)) ≡ decode_next (feed d (contents chunks))
        → Reads (decode_next (feed d (contents chunks))) (read d'))
    → (x : Decoded Request × RequestDecoder) → decode_next d ≡ x
    → Streams d (contents chunks) x
    → Reads (decode_next (feed d (contents chunks))) (or_read chunks read x)
Reads-or_read chunks d read s more (err e, d') p f =
    subst (λ t. Reads t (err e, d', chunks)) (sym f) (refl, refl, tt)
Reads-or_read chunks d read s more (done (some q), d') p (f, made, v, _, _) =
    subst (λ t. Reads t (done (some q), d', chunks)) (sym f) (refl, refl, (made, v, s))
Reads-or_read chunks d read s more (done none, d') p (f, v, _, _) = more d' p v f

-- The answer is the decoder's to all the bytes, and what is left is what that decoder leaves.
pub read_next_lem :
    (chunks : List Chunk) (d : RequestDecoder)
    → IsStream chunks
    → IsDecoder d
    → Reads (decode_next (feed d (contents chunks))) (read_next chunks d)
unfolding read_next
read_next_lem [] d s v =
    Reads-or_read [] d (λ d'. (validate_eof d', d', [])) tt
      (λ d' p w same.
        subst (λ t. Reads t (validate_eof d', d', [])) (sym (ap decode_next (feed-nil d) ∙ p))
          (refl, feed-nil d', Ready-eof d'))
      (decode_next d) refl (decode_next-feed d [] v)
read_next_lem (failed ∷ chunks) d s v = absurd s
read_next_lem (bytes [] ∷ chunks) d s v = absurd s
read_next_lem (bytes (b ∷ bs) ∷ chunks) d s v =
    Reads-or_read (bytes (b ∷ bs) ∷ chunks) d (λ d'. read_next chunks (feed d' (b ∷ bs))) s
      (λ d' p w same.
        subst (λ t. Reads t (read_next chunks (feed d' (b ∷ bs))))
          (ap decode_next (feed-feed d' (b ∷ bs) (contents chunks)) ∙ same)
          (read_next_lem chunks (feed d' (b ∷ bs)) s (feed-IsDecoder d' (b ∷ bs) w)))
      (decode_next d) refl (decode_next-feed d (contents (bytes (b ∷ bs) ∷ chunks)) v)

-- `read_next` gives the same answer for any two ways in which the bytes to come are split between
-- the buffer of a decoder in order and non-empty reads, and leaves the same bytes.
pub read_next-split :
    (d d' : RequestDecoder) (chunks chunks' : List Chunk)
    → IsDecoder d
    → IsDecoder d'
    → IsStream chunks
    → IsStream chunks'
    → feed d (contents chunks) ≡ feed d' (contents chunks')
    → ((read_next chunks d).0 ≡ (read_next chunks' d').0)
      × (feed (read_next chunks d).1 (contents (read_next chunks d).2)
          ≡ feed (read_next chunks' d').1 (contents (read_next chunks' d').2))
read_next-split d d' chunks chunks' v v' s s' same =
    let (a, b, _) = read_next_lem chunks d s v in
    let (a', b', _) = read_next_lem chunks' d' s' v' in
    let x = ap decode_next same in (a ∙ ap answer x ∙ sym a', b ∙ ap (λ t. t.1) x ∙ sym b')

-- Whatever the reader gives, a request it ends with is within the limits, and is followed by a
-- decoder in order.
abbrev pub Accepts : Decoded Request × RequestDecoder × List Chunk → Type 0
Accepts (err e, d, chunks) = Unit
Accepts (done none, d, chunks) = Unit
Accepts (done (some q), d, chunks) = IsRequest q × IsDecoder d

Accepts-or_read :
    (chunks : List Chunk) (d : RequestDecoder)
    (read : RequestDecoder → Decoded Request × RequestDecoder × List Chunk)
    → ((d' : RequestDecoder) → IsDecoder d' → Accepts (read d'))
    → (x : Decoded Request × RequestDecoder) → Streams d [] x
    → Accepts (or_read chunks read x)
Accepts-or_read chunks d read more (err e, d') f = tt
Accepts-or_read chunks d read more (done (some q), d') (f, made, v, _, _) = (made, v)
Accepts-or_read chunks d read more (done none, d') (f, v, _, _) = more d' v

Accepts-eof : (d : RequestDecoder) (chunks : List Chunk) → Accepts (validate_eof d, d, chunks)
unfolding validate_eof
Accepts-eof d chunks = go d.poisoned d.buffer
  where
    go :
        (flag : Bool) (b : Bytes)
        → Accepts (
          if flag then err poisoned else (elim b [ [] ↦ done none | _ ∷ _ ↦ err unexpected_eof ]),
          d,
          chunks,
        )
    go true b = tt
    go false [] = tt
    go false (c ∷ b) = tt

pub read_next-Accepts :
    (chunks : List Chunk) (d : RequestDecoder) → IsDecoder d → Accepts (read_next chunks d)
unfolding read_next
read_next-Accepts [] d v =
    Accepts-or_read [] d _ (λ d' w. Accepts-eof d' []) (decode_next d) (decode_next-feed d [] v)
read_next-Accepts (failed ∷ chunks) d v =
    Accepts-or_read (failed ∷ chunks) d _ (λ d' w. tt) (decode_next d) (decode_next-feed d [] v)
read_next-Accepts (bytes [] ∷ chunks) d v =
    Accepts-or_read (bytes [] ∷ chunks) d _ (λ d' w. Accepts-eof d' chunks) (decode_next d)
      (decode_next-feed d [] v)
read_next-Accepts (bytes (b ∷ bs) ∷ chunks) d v =
    Accepts-or_read (bytes (b ∷ bs) ∷ chunks) d _
      (λ d' w. read_next-Accepts chunks (feed d' (b ∷ bs)) (feed-IsDecoder d' (b ∷ bs) w))
      (decode_next d) (decode_next-feed d [] v)
