-- ===== src/Request/Pipeline.antt =====
-- Requests one after the other on a connection: what `read_next` of request.rs makes of the bytes that
-- are still to come.
use simple_kv.Prelude.{◌≡◌, ◌∙◌, refl, ap, subst, none, some, List, [], ◌∷◌, ◌++◌, done}
use simple_kv.Util.{Bytes, parse_line}
use simple_kv.Request.{
  Request, RequestDecoder, default_decoder, parse_header, decode_buffered, decode_next,
  validate_eof, to_bytes, feed, Chunk, read_next,
}
use simple_kv.Request.RoundTrip.{IsRequest, decode_next-to_bytes}
use simple_kv.Request.Streaming.{IsDecoder}
use simple_kv.Request.Chunks.{contents, IsStream, answer, Ready, read_next_lem}

abbrev pub pipeline : List Request → Bytes
pipeline [] = []
pipeline (q ∷ qs) = to_bytes q ++ pipeline qs

-- The decoder and the reader have these bytes to come.
pub record IsPending (b : Bytes) (d : RequestDecoder) (chunks : List Chunk) : Type 0 where
  pub same : feed d (contents chunks) ≡ feed default_decoder b
  pub decoder : IsDecoder d
  pub stream : IsStream chunks

-- The request at the front is read, and the others are left.
pub read_next-IsPending :
    (q : Request) (rest : Bytes) (d : RequestDecoder) (chunks : List Chunk)
    → IsRequest q
    → IsPending (to_bytes q ++ rest) d chunks
    → (d' : RequestDecoder) × (chunks' : List Chunk) × (read_next chunks d
        ≡ (done (some q), d', chunks'))
      × IsPending rest d' chunks'
read_next-IsPending q rest d chunks v p =
    let (a, b, ready) = read_next_lem chunks d p.stream p.decoder in
    let (r, d', chunks') = read_next chunks d in
    let x = ap decode_next p.same ∙ decode_next-to_bytes q rest v in
    let e : r ≡ done (some q) = a ∙ ap answer x in
    let (made, w, s) = subst (λ t. Ready t d' chunks') e ready in
    (
      d',
      chunks',
      ap (λ t. (t, d', chunks')) e,
      record { same = b ∙ ap (λ t. t.1) x; decoder = w; stream = s },
    )

decode_next-nothing : decode_next (feed default_decoder []) ≡ (done none, default_decoder)
unfolding decode_next decode_buffered parse_header parse_line
decode_next-nothing = refl

validate_eof-nothing : validate_eof default_decoder ≡ done none
unfolding validate_eof
validate_eof-nothing = refl

-- Behind the last request the reader ends, without an error.
pub read_next-last :
    (d : RequestDecoder) (chunks : List Chunk)
    → IsPending [] d chunks
    → (read_next chunks d).0 ≡ done none
read_next-last d chunks p =
    let (a, _, _) = read_next_lem chunks d p.stream p.decoder in
    a
    ∙ ap (λ t. answer (decode_next t)) p.same
    ∙ ap answer decode_next-nothing
    ∙ validate_eof-nothing
