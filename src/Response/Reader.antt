-- ===== src/Response/Reader.antt =====
-- `ResponseReader` of response.rs: responses from a byte stream, the list of what its reads return.
use simple_kv.Prelude.{List, [], ◌∷◌, ◌++◌, none, some, done, err}
use simple_kv.Util.{Bytes}
use simple_kv.Request.{Chunk, failed, bytes}
use simple_kv.Response.{Response, ResponseDecoder, Decoded, ParseError, decode_next, validate_eof}

abbrev pub feed : ResponseDecoder → Bytes → ResponseDecoder
feed d more = record d { buffer = d.buffer ++ more }

-- What the loop of `read_next` does with the decoder's answer: an end, or one more read.
abbrev pub or_read :
    List Chunk
    → (ResponseDecoder → Decoded Response × ResponseDecoder × List Chunk)
    → Decoded Response × ResponseDecoder
    → Decoded Response × ResponseDecoder × List Chunk
or_read chunks read (err e, d) = (err e, d, chunks)
or_read chunks read (done none, d) = read d
or_read chunks read (done (some r), d) = (done (some r), d, chunks)

-- `read_next` and `read_next_async`, with what is left of the reader; its end is an empty read.
unfoldable pub read_next :
    List Chunk → ResponseDecoder → Decoded Response × ResponseDecoder × List Chunk
read_next [] d = or_read [] (λ d'. (validate_eof d', d', [])) (decode_next d)
read_next (failed ∷ chunks) d =
    or_read (failed ∷ chunks) (λ d'. (err ParseError.io, d', chunks)) (decode_next d)
read_next (bytes [] ∷ chunks) d =
    or_read (bytes [] ∷ chunks) (λ d'. (validate_eof d', d', chunks)) (decode_next d)
read_next (bytes (b ∷ bs) ∷ chunks) d =
    or_read (bytes (b ∷ bs) ∷ chunks) (λ d'. read_next chunks (feed d' (b ∷ bs))) (decode_next d)
