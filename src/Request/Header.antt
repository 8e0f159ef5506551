-- ===== src/Request/Header.antt =====
-- Header lines of request.rs: more input behind a line that is there changes nothing, and what is
-- read lies within the bytes and the limit.
use simple_kv.Prelude.{
  ℕ, ◌≤◌, ◌≡◌, ◌⊎◌, ◌∙◌, inl, inr, refl, sym, subst, Bool-cases, none, some, Option-cases, [], ◌∷◌,
  ◌++◌, ltb, ltb→le, ◌==◌, length, arith, done, err,
}
use simple_kv.Util.{Bytes, Parsed, parse_line, is_utf8, parse_uint, max_u64}
use simple_kv.Util.Line.{parse_line-append, parse_line-le}
use simple_kv.Request.{RequestParseError, Decoded, header_number, header_line, parse_header}

-- The header that a line gives is the line's, and within the limit.
abbrev HasHeader : ℕ → ℕ → Decoded (Parsed ℕ) → Type 0
HasHeader taken max (err e) = Unit
HasHeader taken max (done none) = ⊥
HasHeader taken max (done (some h)) = (h.num_bytes_parsed ≡ taken) × (h.value ≤ max)

header_number-HasHeader :
    (text : Bytes) (max : ℕ) (too_long : ℕ → RequestParseError) (taken : ℕ)
    → HasHeader taken max (header_number text max too_long taken)
unfolding header_number
header_number-HasHeader text max too_long taken = elim (Bool-cases (is_utf8 text)) [
  | inl p ↦ elim (Option-cases (parse_uint max_u64 text)) [
    | inl q ↦ rw (p, header_number, q) tt
    | inr (n, q) ↦ elim (Bool-cases (ltb max n)) [
      | inl long ↦ rw (p, header_number, q, long) tt
      | inr fits ↦ rw (p, header_number, q, fits) (refl, ltb→le max n fits)
    ]
  ]
  | inr p ↦ rw (p, header_number) tt
]

header_line-HasHeader :
    (line : Parsed Bytes) (byte max : ℕ) (expected too_long : ℕ → RequestParseError)
    → HasHeader line.num_bytes_parsed max (header_line line byte max expected too_long)
unfolding header_line
header_line-HasHeader line byte max expected too_long = go line.value refl
  where
    go :
        (text : Bytes)
        → line.value ≡ text
        → HasHeader line.num_bytes_parsed max (header_line line byte max expected too_long)
    go [] p = rw (p, header_line) tt
    go (first ∷ text) p = elim (Bool-cases (first == byte)) [
      | inl q ↦
          rw (p, header_line, q) (header_number-HasHeader text max too_long line.num_bytes_parsed)
      | inr q ↦ rw (p, header_line, q) tt
    ]

module _ (byte max : ℕ) (expected too_long : ℕ → RequestParseError) where
  abbrev header_of : Bytes → Decoded (Parsed ℕ)
  header_of b = parse_header b byte max expected too_long

  -- With the line that stands in front, if there is one.
  pub parse_header-cases :
      (b : Bytes)
      → (header_of b ≡ done none)
        ⊎ ((line : Parsed Bytes) × (parse_line b ≡ some line)
            × (header_of b ≡ header_line line byte max expected too_long))
  unfolding parse_header
  parse_header-cases b = elim (Option-cases (parse_line b)) [
    | inl p ↦ inl (rw (p, parse_header))
    | inr (line, p) ↦ inr (line, p, rw (p, parse_header))
  ]

  parse_header-line :
      (b : Bytes) (line : Parsed Bytes)
      → parse_line b ≡ some line
      → header_of b ≡ header_line line byte max expected too_long
  unfolding parse_header
  parse_header-line b line p = rw (p, parse_header)

  -- More input does not change a header that is settled.
  pub parse_header-append :
      (b more : Bytes) → (header_of b ≡ done none) ⊎ (header_of (b ++ more) ≡ header_of b)
  parse_header-append b more = elim (parse_header-cases b) [
    | inl p ↦ inl p
    | inr (line, p, q) ↦
        inr (parse_header-line (b ++ more) line (parse_line-append b more line p) ∙ sym q)
  ]

  -- A header that is read lies within the bytes, and its number within the limit.
  pub parse_header-some :
      (b : Bytes) (h : Parsed ℕ)
      → header_of b ≡ done (some h)
      → (h.num_bytes_parsed ≤ length b) × (h.value ≤ max)
  parse_header-some b h e = elim (parse_header-cases b) [
    | inl p ↦ absurd (cc (sym p ∙ e))
    | inr (line, p, q) ↦
        let has : HasHeader line.num_bytes_parsed max (done (some h)) =
          subst (HasHeader line.num_bytes_parsed max) (sym q ∙ e)
            (header_line-HasHeader line byte max expected too_long) in
        (omega (arith, has.0, parse_line-le b line p), has.1)
  ]
