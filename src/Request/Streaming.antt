-- ===== src/Request/Streaming.antt =====
-- The decoder of request.rs on a stream: an answer stands when more bytes come, an answer that
-- waits for more loses nothing, and what is decoded is within the limits.
use simple_kv.Prelude.{
  ℕ, ◌-◌, ◌≤◌, ◌≡◌, ◌∙◌, inl, inr, refl, sym, ap, subst, Bool, false, Bool-cases, Option, none,
  some, Option-cases, List, [], if◌then◌else◌, length, All, arith, done, err,
}
use simple_kv.Util.{Bytes, Parsed}
use simple_kv.Request.{
  Request, RequestDecoder, Decoded, poisoned, array_byte, max_array_length, expected_array,
  array_too_long, parse_header, fill_args, decode_buffered, poison, decode_next, feed,
}
use simple_kv.Request.Header.{parse_header-append, parse_header-some}
use simple_kv.Request.BulkString.{IsInside}
use simple_kv.Request.RoundTrip.{IsRequest}
use simple_kv.Request.Poison.{decode_next-poisoned}
use simple_kv.Request.Filling.{IsShort, IsFresh, Fills, fill_args_lem}

abbrev Expects : Option ℕ → List Bytes → Type 0
Expects none args = args ≡ []
Expects (some n) args = (n ≤ max_array_length) × (length args ≤ n)

-- The invariant of the decoder.
pub record IsDecoder (d : RequestDecoder) : Type 0 where
  pub inside : IsInside d
  pub expects : Expects d.expected_arg_count d.args
  pub short : All IsShort d.args

-- What an answer of the decoder says, where `target` is the answer to the buffer and `more`.
abbrev Answers :
    Decoded Request × RequestDecoder
    → Bytes
    → Bool
    → Bytes
    → Decoded Request × RequestDecoder
    → Type 0
Answers target more flag buf (err e, d') = target ≡ (err e, feed d' more)
Answers target more flag buf (done (some q), d') =
    (target ≡ (done (some q), feed d' more))
    × IsRequest q
    × IsDecoder d'
    × IsFresh d'
    × (d'.poisoned ≡ flag)
Answers target more flag buf (done none, d') =
    (decode_buffered (feed d' more) ≡ target)
    × IsDecoder d'
    × (d'.poisoned ≡ flag)
    × (d'.buffer ≡ buf)

abbrev start_fill : RequestDecoder → Parsed ℕ → RequestDecoder
start_fill d header = record d {
  expected_arg_count = some header.value;
  cursor = header.num_bytes_parsed;
}

abbrev after_array : RequestDecoder → Decoded (Parsed ℕ) → Decoded Request × RequestDecoder
after_array d r = elim r [
  | err e ↦ (err e, d)
  | done none ↦ (done none, d)
  | done (some header) ↦ fill_args (header.value - length d.args) (start_fill d header)
]

abbrev array_of : Bytes → Decoded (Parsed ℕ)
array_of b = parse_header b array_byte max_array_length expected_array array_too_long

-- `decode_buffered`, by the count that is expected.
abbrev by_count : RequestDecoder → Option ℕ → Decoded Request × RequestDecoder
by_count d o = elim o [
  | some n ↦ fill_args (n - length d.args) d
  | none ↦ elim (array_of d.buffer) [
    | err e ↦ (err e, d)
    | done none ↦ (done none, d)
    | done (some header) ↦ fill_args (header.value - length d.args) (start_fill d header)
  ]
]

decode_buffered-eq : (d : RequestDecoder) → decode_buffered d ≡ by_count d d.expected_arg_count
unfolding decode_buffered
decode_buffered-eq d = refl

decode_buffered-some :
    (d : RequestDecoder) (n : ℕ)
    → d.expected_arg_count ≡ some n
    → decode_buffered d ≡ fill_args (n - length d.args) d
decode_buffered-some d n p = decode_buffered-eq d ∙ ap (by_count d) p

decode_buffered-none :
    (d : RequestDecoder)
    → d.expected_arg_count ≡ none
    → decode_buffered d ≡ after_array d (array_of d.buffer)
decode_buffered-none d p = decode_buffered-eq d ∙ ap (by_count d) p

IsFresh-IsDecoder : (d : RequestDecoder) → IsFresh d → IsDecoder d
IsFresh-IsDecoder d (c, e, a) = record {
  inside = omega (arith, c);
  expects = subst (λ t. Expects t d.args) (sym e) a;
  short = subst (All IsShort) (sym a) tt;
}

-- Where `n` strings are expected.
Fills-Answers :
    (d : RequestDecoder) (more : Bytes) (n : ℕ)
    → d.expected_arg_count ≡ some n
    → n ≤ max_array_length
    → length d.args ≤ n
    → (x : Decoded Request × RequestDecoder) → Fills (n - length d.args) d more x
    → Answers (fill_args (n - length d.args) (feed d more)) more d.poisoned d.buffer x
Fills-Answers d more n e few le (err x, d') f = f
Fills-Answers d more n e few le (done (some q), d') (f, count, short, fresh, flag) = (
  f,
  record { count = omega (arith, count, few, le); sizes = short },
  IsFresh-IsDecoder d' fresh,
  fresh,
  flag,
)
Fills-Answers d more n e few le (done none, d') (k, count, f, inside, same, short, flag, buf) =
    let left : n - length d'.args ≡ k = omega (arith, count, le) in
    (
      decode_buffered-some (feed d' more) n (same ∙ e)
          ∙ ap (λ t. fill_args t (feed d' more)) left
          ∙ f,
      record {
        inside = inside;
        expects = subst (λ t. Expects t d'.args) (sym (same ∙ e)) (few, omega (arith, count, le));
        short = short;
      },
      flag,
      buf,
    )

decode_buffered_lem :
    (d : RequestDecoder) (more : Bytes)
    → IsDecoder d
    → Answers (decode_buffered (feed d more)) more d.poisoned d.buffer (decode_buffered d)
decode_buffered_lem d more v = elim (Option-cases d.expected_arg_count) [
  | inr (n, e) ↦
      let (few, le) : Expects (some n) d.args = subst (λ t. Expects t d.args) e v.expects in
      subst (λ t. Answers t more d.poisoned d.buffer (decode_buffered d))
        (sym (decode_buffered-some (feed d more) n e))
        (subst (Answers (fill_args (n - length d.args) (feed d more)) more d.poisoned d.buffer)
          (sym (decode_buffered-some d n e))
          (Fills-Answers d more n e few le (fill_args (n - length d.args) d)
            (fill_args_lem (n - length d.args) d more v.inside v.short)))
  | inl e ↦
      elim (parse_header-append array_byte max_array_length expected_array array_too_long d.buffer
        more) [
          | inl q ↦ waits (decode_buffered-none d e ∙ ap (after_array d) q)
          | inr q ↦
              split (array_of d.buffer) refl (subst (λ t. Expects t d.args) e v.expects)
                (decode_buffered-none d e)
                (decode_buffered-none (feed d more) e ∙ ap (after_array (feed d more)) q)
        ]
]
  where
    waits :
        decode_buffered d ≡ (done none, d)
        → Answers (decode_buffered (feed d more)) more d.poisoned d.buffer (decode_buffered d)
    waits p =
        subst (Answers (decode_buffered (feed d more)) more d.poisoned d.buffer) (sym p)
          (refl, v, refl, refl)

    split :
        (r : Decoded (Parsed ℕ))
        → array_of d.buffer ≡ r
        → d.args ≡ []
        → decode_buffered d ≡ after_array d r
        → decode_buffered (feed d more) ≡ after_array (feed d more) r
        → Answers (decode_buffered (feed d more)) more d.poisoned d.buffer (decode_buffered d)
    split (err x) p empty a b =
        subst (Answers (decode_buffered (feed d more)) more d.poisoned d.buffer) (sym a) b
    split (done none) p empty a b = waits a
    split (done (some header)) p empty a b =
        let (le, few) =
          parse_header-some array_byte max_array_length expected_array array_too_long d.buffer
            header p in
        let m = header.value - length d.args in
        subst (λ t. Answers t more d.poisoned d.buffer (decode_buffered d)) (sym b)
          (subst (Answers (fill_args m (feed (start_fill d header) more)) more d.poisoned d.buffer)
            (sym a)
            (Fills-Answers (start_fill d header) more header.value refl few
              (omega (arith, ap length empty)) (fill_args m (start_fill d header))
              (fill_args_lem m (start_fill d header) more le v.short)))

-- The same for `decode_next`.
abbrev pub Streams : RequestDecoder → Bytes → Decoded Request × RequestDecoder → Type 0
Streams d more (err e, d') = decode_next (feed d more) ≡ (err e, feed d' more)
Streams d more (done (some q), d') =
    (decode_next (feed d more) ≡ (done (some q), feed d' more))
    × IsRequest q
    × IsDecoder d'
    × IsFresh d'
    × (d'.poisoned ≡ d.poisoned)
Streams d more (done none, d') =
    (decode_next (feed d' more) ≡ decode_next (feed d more))
    × IsDecoder d'
    × (d'.poisoned ≡ d.poisoned)
    × (d'.buffer ≡ d.buffer)

decode_next-clean :
    (d : RequestDecoder) → d.poisoned ≡ false → decode_next d ≡ poison (decode_buffered d)
unfolding decode_next
decode_next-clean d p = ap (λ t. if t then (err poisoned, d) else poison (decode_buffered d)) p

-- On a decoder in order, an error or a request that `decode_next` returns is also what it returns
-- when more bytes follow, which are then left behind it; where it waits, it can go on from its new
-- state as from the old one. A request is within the decoder's limits, and the decoder is in order
-- again.
pub decode_next-feed :
    (d : RequestDecoder) (more : Bytes) → IsDecoder d → Streams d more (decode_next d)
decode_next-feed d more v = elim (Bool-cases d.poisoned) [
  | inl p ↦
      subst (Streams d more) (sym (decode_next-poisoned d p)) (decode_next-poisoned (feed d more) p)
  | inr p ↦
      subst (Streams d more) (sym (decode_next-clean d p))
        (poisons p (decode_buffered d) (decode_buffered_lem d more v))
]
  where
    poisons :
        d.poisoned ≡ false
        → (x : Decoded Request × RequestDecoder)
        → Answers (decode_buffered (feed d more)) more d.poisoned d.buffer x
        → Streams d more (poison x)
    poisons p (err e, d') a = decode_next-clean (feed d more) p ∙ ap poison a
    poisons p (done (some q), d') (a, made, w, fresh, flag) =
        (decode_next-clean (feed d more) p ∙ ap poison a, made, w, fresh, flag)
    poisons p (done none, d') (a, w, flag, buf) = (
      decode_next-clean (feed d' more) (flag ∙ p)
          ∙ ap poison a
          ∙ sym (decode_next-clean (feed d more) p),
      w,
      flag,
      buf,
    )
