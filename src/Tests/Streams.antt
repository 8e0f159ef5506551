-- ===== src/Tests/Streams.antt =====
-- The theorems on split input at concrete inputs.
use simple_kv.Prelude.{◌≡◌, refl, false, none, List, [], ◌∷◌, ◌++◌, arith, done}
use simple_kv.Util.{Bytes, codes, to_string}
use simple_kv.Request.{
  Request, RequestDecoder, Chunk, bytes, default_decoder, decode_next, feed, read_next,
}
use simple_kv.Request
use simple_kv.Request.RoundTrip.{IsRequest}
use simple_kv.Request.Chunks.{contents, read_next-split}
use simple_kv.Request.Cut.{feed_default-IsDecoder, decode_next-cut}
use simple_kv.Request.Streaming.{Streams, decode_next-feed}

abbrev request : Request
request = record { cstrs = codes "GET" ∷ codes "ab" ∷ [] }

request-IsRequest : IsRequest request
request-IsRequest = record { count = omega arith; sizes = (omega arith, (omega arith, tt)) }

abbrev part : Bytes
part = codes "*2\r\n$3\r\nGE"

abbrev rest : Bytes
rest = codes "T\r\n$2\r\nab\r\n"

part-rest : part ++ rest ≡ Request.to_bytes request
unfolding Request.to_bytes to_string
part-rest = refl

decode_next-cut_example :
    (d : RequestDecoder) × (decode_next (feed default_decoder part) ≡ (done none, d))
    × (d.poisoned ≡ false)
    × (d.buffer ≡ part)
decode_next-cut_example =
    decode_next-cut request part rest request-IsRequest part-rest (omega arith)

abbrev two_reads : List Chunk
two_reads = bytes part ∷ bytes rest ∷ []

abbrev one_read : List Chunk
one_read = bytes (part ++ rest) ∷ []

read_next-split_example :
    ((read_next two_reads default_decoder).0 ≡ (read_next one_read default_decoder).0)
    × (feed
          (read_next two_reads default_decoder).1
          (contents (read_next two_reads default_decoder).2)
        ≡ feed
            (read_next one_read default_decoder).1
            (contents (read_next one_read default_decoder).2))
read_next-split_example =
    read_next-split default_decoder default_decoder two_reads one_read (feed_default-IsDecoder [])
      (feed_default-IsDecoder []) tt tt refl

decode_next-feed_example :
    Streams (feed default_decoder part) rest (decode_next (feed default_decoder part))
decode_next-feed_example =
    decode_next-feed (feed default_decoder part) rest (feed_default-IsDecoder part)
