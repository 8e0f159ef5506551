-- ===== src/Request/Cut.antt =====
-- A request that is cut off: the decoder of request.rs waits, and the end of the input is an error.
use simple_kv.Prelude.{
  ◌≡◌, ◌∙◌, ◌<◌, refl, sym, ap, subst, Bool, true, false, if◌then◌else◌, none, some, [], ◌∷◌, ◌++◌,
  append-nil, length, length-append, arith, done, err,
}
use simple_kv.Util.{Bytes}
use simple_kv.Request.{
  Request, RequestDecoder, Decoded, default_decoder, poisoned, unexpected_eof, decode_next,
  validate_eof, to_bytes, feed, or_read, read_next,
}
use simple_kv.Request.RoundTrip.{IsRequest, decode_next-to_bytes}
use simple_kv.Request.Streaming.{IsDecoder, Streams, decode_next-feed}

pub feed_default-IsDecoder : (b : Bytes) → IsDecoder (feed default_decoder b)
feed_default-IsDecoder b = record { inside = omega arith; expects = refl; short = tt }

validate_eof-unexpected :
    (d : RequestDecoder)
    → d.poisoned ≡ false
    → 0 < length d.buffer
    → validate_eof d ≡ err unexpected_eof
unfolding validate_eof
validate_eof-unexpected d p h = go d.poisoned d.buffer p h
  where
    go :
        (flag : Bool) (b : Bytes)
        → flag ≡ false
        → 0 < length b
        → if◌then◌else◌ {A = Decoded Request} flag
            (err poisoned)
            (elim b [ [] ↦ done none | _ ∷ _ ↦ err unexpected_eof ])
          ≡ err unexpected_eof
    go true b p h = absurd (cc p)
    go false [] p h = absurd (omega arith)
    go false (c ∷ b) p h = refl

-- A request within the decoder's limits that is cut off makes `decode_next` on a fresh decoder
-- wait, not poisoned and with all bytes in its buffer.
pub decode_next-cut :
    (q : Request) (part rest : Bytes)
    → IsRequest q
    → part ++ rest ≡ to_bytes q
    → 0 < length rest
    → (d : RequestDecoder) × (decode_next (feed default_decoder part) ≡ (done none, d))
      × (d.poisoned ≡ false)
      × (d.buffer ≡ part)
decode_next-cut q part rest v same more =
    go (decode_next (feed default_decoder part)) refl
      (decode_next-feed (feed default_decoder part) rest (feed_default-IsDecoder part))
  where
    whole :
        decode_next (feed (feed default_decoder part) rest)
        ≡ (done (some q), feed default_decoder [])
    whole =
        ap (λ t. decode_next (feed default_decoder t)) (same ∙ sym (append-nil (to_bytes q)))
        ∙ decode_next-to_bytes q [] v

    go :
        (x : Decoded Request × RequestDecoder)
        → decode_next (feed default_decoder part) ≡ x
        → Streams (feed default_decoder part) rest x
        → (d : RequestDecoder) × (decode_next (feed default_decoder part) ≡ (done none, d))
          × (d.poisoned ≡ false)
          × (d.buffer ≡ part)
    go (err e, d) p f = absurd (cc (ap (λ t. t.0) (sym f ∙ whole)))
    go (done (some r), d) p (f, _, _, _, _) = absurd (
        omega
          (arith, ap (λ t. length t.1.buffer) (sym f ∙ whole), length-append d.buffer rest, more))
    go (done none, d) p (f, w, flag, buf) = (d, p, flag, buf)

-- At the end of the input, a request of which a part has been read is an error.
pub read_next-cut :
    (q : Request) (part rest : Bytes)
    → IsRequest q
    → part ++ rest ≡ to_bytes q
    → 0 < length part
    → 0 < length rest
    → (d : RequestDecoder) × (read_next [] (feed default_decoder part)
        ≡ (err unexpected_eof, d, []))
unfolding read_next
read_next-cut q part rest v same some_part more =
    let (d, run, p, b) = decode_next-cut q part rest v same more in
    (
      d,
      ap (or_read [] (λ d'. (validate_eof d', d', []))) run
          ∙ ap (λ t. (t, d, []))
              (validate_eof-unexpected d p (subst (λ t. 0 < length t) (sym b) some_part)),
    )
