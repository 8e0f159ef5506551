-- ===== src/Request/BulkString.antt =====
-- Bulk strings in the buffer of the decoder of request.rs: when more bytes come, and what is read.
use simple_kv.Prelude.{
  ℕ, ◌+◌, ◌≤◌, ◌≡◌, ◌⊎◌, ◌∙◌, inl, inr, refl, sym, ap, subst, Bool, true, false, Bool-cases, none,
  some, ◌++◌, ltb, leb, ltb→le, leb→lt, lt→leb, le→ltb, length, length-append, length-drop,
  length-take, take, drop, slice-append, drop-append_le, arith, done, err,
}
use simple_kv.Util.{Bytes, Parsed, cstring_byte, max_complex_string_length}
use simple_kv.Request.{
  RequestDecoder, Decoded, missing_crlf, expected_cstring, cstring_too_long, parse_header, is_crlf,
  parse_payload, parse_cstr, feed,
}
use simple_kv.Request.Header.{parse_header-append, parse_header-some}

-- The answer of a decoder to which more bytes come afterwards.
abbrev pub fed : {A : Type 0} → Bytes → Decoded A × RequestDecoder → Decoded A × RequestDecoder
fed more (r, d) = (r, feed d more)

abbrev pub IsInside : RequestDecoder → Type 0
IsInside d = d.cursor ≤ length d.buffer

-- What `parse_cstr` does with the header at the cursor.
abbrev after_header : RequestDecoder → Decoded (Parsed ℕ) → Decoded Bytes × RequestDecoder
after_header d r = elim r [
  | err e ↦ (err e, d)
  | done none ↦ (done none, d)
  | done (some header) ↦ parse_payload d header
]

abbrev header_at : Bytes → Decoded (Parsed ℕ)
header_at b =
    parse_header b cstring_byte max_complex_string_length expected_cstring cstring_too_long

parse_cstr_empty :
    (d : RequestDecoder) → leb (length d.buffer) d.cursor ≡ true → parse_cstr d ≡ (done none, d)
unfolding parse_cstr
parse_cstr_empty d p = rw (p, parse_cstr)

parse_cstr_step :
    (d : RequestDecoder)
    → leb (length d.buffer) d.cursor ≡ false
    → parse_cstr d ≡ after_header d (header_at (drop d.cursor d.buffer))
unfolding parse_cstr
parse_cstr_step d p = rw (p, parse_cstr)

abbrev payload : RequestDecoder → Parsed ℕ → Bool → Decoded Bytes × RequestDecoder
payload d header b = elim b [
  | false ↦ (err missing_crlf, d)
  | true ↦ (
    done (some (take header.value (drop (d.cursor + header.num_bytes_parsed) d.buffer))),
    record d { cursor = d.cursor + header.num_bytes_parsed + header.value + 2 },
  )
]

abbrev payload_end : RequestDecoder → Parsed ℕ → ℕ
payload_end d header = d.cursor + header.num_bytes_parsed + header.value + 2

abbrev ending : RequestDecoder → Parsed ℕ → Bool
ending d header =
    is_crlf (take 2 (drop (d.cursor + header.num_bytes_parsed + header.value) d.buffer))

parse_payload_short :
    (d : RequestDecoder) (header : Parsed ℕ)
    → ltb (length d.buffer) (payload_end d header) ≡ true
    → parse_payload d header ≡ (done none, d)
unfolding parse_payload
parse_payload_short d header p = rw (p, parse_payload)

parse_payload_step :
    (d : RequestDecoder) (header : Parsed ℕ)
    → ltb (length d.buffer) (payload_end d header) ≡ false
    → parse_payload d header ≡ payload d header (ending d header)
unfolding parse_payload
parse_payload_step d header p = rw (p, parse_payload)

payload-fed :
    (d : RequestDecoder) (header : Parsed ℕ) (more : Bytes) (b : Bool)
    → d.cursor + header.num_bytes_parsed + header.value ≤ length d.buffer
    → payload (feed d more) header b ≡ fed more (payload d header b)
payload-fed d header more false h = refl
payload-fed d header more true h =
    ap (λ t. (done (some t), record (feed d more) { cursor = payload_end d header }))
      (slice-append (d.cursor + header.num_bytes_parsed) header.value d.buffer more h)

parse_payload-fed :
    (d : RequestDecoder) (header : Parsed ℕ) (more : Bytes)
    → (parse_payload d header ≡ (done none, d))
      ⊎ (parse_payload (feed d more) header ≡ fed more (parse_payload d header))
parse_payload-fed d header more = elim (Bool-cases (ltb (length d.buffer) (payload_end d header))) [
  | inl p ↦ inl (parse_payload_short d header p)
  | inr p ↦
      let fits = ltb→le _ _ p in
      let fits' : ltb (length (d.buffer ++ more)) (payload_end d header) ≡ false =
        le→ltb _ _ (omega (arith, length-append d.buffer more, fits)) in
      let same : ending (feed d more) header ≡ ending d header = ap is_crlf (
        slice-append (d.cursor + header.num_bytes_parsed + header.value) 2 d.buffer more
          (omega (arith, fits))) in
      inr (
        parse_payload_step (feed d more) header fits'
        ∙ ap (payload (feed d more) header) same
        ∙ payload-fed d header more (ending d header) (omega (arith, fits))
        ∙ ap (fed more) (sym (parse_payload_step d header p)))
]

-- A string that is not there yet leaves the decoder as it was; any other answer stands when more
-- bytes come.
pub parse_cstr-fed :
    (d : RequestDecoder) (more : Bytes)
    → IsInside d
    → (parse_cstr d ≡ (done none, d)) ⊎ (parse_cstr (feed d more) ≡ fed more (parse_cstr d))
parse_cstr-fed d more inside = elim (Bool-cases (leb (length d.buffer) d.cursor)) [
  | inl p ↦ inl (parse_cstr_empty d p)
  | inr p ↦
      let p' : leb (length (d.buffer ++ more)) d.cursor ≡ false =
        lt→leb _ _ (omega (arith, length-append d.buffer more, leb→lt _ _ p)) in
      let here = parse_cstr_step d p in
      let there : parse_cstr (feed d more)
          ≡ after_header (feed d more) (header_at (drop d.cursor d.buffer ++ more)) =
        parse_cstr_step (feed d more) p'
        ∙ ap (λ t. after_header (feed d more) (header_at t))
            (drop-append_le d.cursor d.buffer more inside) in
      elim (parse_header-append cstring_byte max_complex_string_length expected_cstring
        cstring_too_long (drop d.cursor d.buffer) more) [
          | inl q ↦ inl (here ∙ ap (after_header d) q)
          | inr q ↦
              split (header_at (drop d.cursor d.buffer)) here
                (there ∙ ap (after_header (feed d more)) q)
        ]
]
  where
    split :
        (r : Decoded (Parsed ℕ))
        → parse_cstr d ≡ after_header d r
        → parse_cstr (feed d more) ≡ after_header (feed d more) r
        → (parse_cstr d ≡ (done none, d)) ⊎ (parse_cstr (feed d more) ≡ fed more (parse_cstr d))
    split (err e) a b = inr (b ∙ ap (fed more) (sym a))
    split (done none) a b = inl a
    split (done (some header)) a b = elim (parse_payload-fed d header more) [
      | inl p ↦ inl (a ∙ p)
      | inr p ↦ inr (b ∙ p ∙ ap (fed more) (sym a))
    ]

-- What an answer of `parse_cstr` says of the decoder.
abbrev pub Leaves : RequestDecoder → Decoded Bytes × RequestDecoder → Type 0
Leaves d (err e, d') = d' ≡ d
Leaves d (done none, d') = d' ≡ d
Leaves d (done (some c), d') =
    (d' ≡ record d { cursor = d'.cursor })
    × (d'.cursor ≤ length d.buffer)
    × (length c ≤ max_complex_string_length)

payload-Leaves :
    (d : RequestDecoder) (header : Parsed ℕ) (b : Bool)
    → payload_end d header ≤ length d.buffer
    → header.value ≤ max_complex_string_length
    → Leaves d (payload d header b)
payload-Leaves d header false h small = refl
payload-Leaves d header true h small =
    let start = d.cursor + header.num_bytes_parsed in
    (
      refl,
      h,
      omega (
        arith,
        length-take header.value (drop start d.buffer)
            (omega (arith, h, length-drop start d.buffer)),
        small,
      ),
    )

parse_payload-Leaves :
    (d : RequestDecoder) (header : Parsed ℕ)
    → header.value ≤ max_complex_string_length
    → Leaves d (parse_payload d header)
parse_payload-Leaves d header small =
    elim (Bool-cases (ltb (length d.buffer) (payload_end d header))) [
      | inl p ↦ subst (Leaves d) (sym (parse_payload_short d header p)) refl
      | inr p ↦
          subst (Leaves d) (sym (parse_payload_step d header p))
            (payload-Leaves d header (ending d header) (ltb→le _ _ p) small)
    ]

pub parse_cstr-Leaves : (d : RequestDecoder) → Leaves d (parse_cstr d)
parse_cstr-Leaves d = elim (Bool-cases (leb (length d.buffer) d.cursor)) [
  | inl p ↦ subst (Leaves d) (sym (parse_cstr_empty d p)) refl
  | inr p ↦
      subst (Leaves d) (sym (parse_cstr_step d p)) (split (header_at (drop d.cursor d.buffer)) refl)
]
  where
    split :
        (r : Decoded (Parsed ℕ))
        → header_at (drop d.cursor d.buffer) ≡ r
        → Leaves d (after_header d r)
    split (err e) q = refl
    split (done none) q = refl
    split (done (some header)) q =
        parse_payload-Leaves d header
          (parse_header-some cstring_byte max_complex_string_length expected_cstring
            cstring_too_long _ header q).1
