-- ===== src/Util/Line.antt =====
-- `parse_line` of util.rs finds the first CRLF, and more input behind it changes nothing.
use simple_kv.Prelude.{
  ℕ, suc, ◌+◌, ◌≤◌, ◌≡◌, ◌≢◌, refl, ap, Option, none, some, Option-cases, [], ◌∷◌, ◌++◌, length,
  take, All, Bool-cases, inl, inr, ◌&&◌, ◌==◌, arith, take_append,
}
use mathlib.Core.Option
use simple_kv.Util.{Bytes, Parsed, cr, lf, crlf, crlf_position, take_parsed, parse_line}

-- No byte of the line is a CR.
abbrev pub IsLine : Bytes → Type 0
IsLine = All (λ c. c ≢ cr)

crlf_position-line :
    (line rest : Bytes) → IsLine line → crlf_position (line ++ cr ∷ lf ∷ rest) ≡ some (length line)
unfolding crlf_position
crlf_position-line [] rest h = refl
crlf_position-line (c ∷ []) rest (h, _) = ground (arith, crlf_position-line [] rest tt)
crlf_position-line (c ∷ d ∷ line) rest (h, t) = ground (arith, crlf_position-line (d ∷ line) rest t)

-- A line without a CR, ended by CRLF, is read whole, and its length and the two bytes of CRLF are
-- counted.
pub parse_line-line :
    (line rest : Bytes)
    → IsLine line
    → parse_line (line ++ (crlf ++ rest))
      ≡ some (record { value = line; num_bytes_parsed = length line + 2 })
unfolding parse_line
parse_line-line line rest h =
    rw (crlf_position-line line rest h, parse_line, take_append line (cr ∷ lf ∷ rest))

some_of_map :
    (o : Option ℕ) (i : ℕ) → Option.map suc o ≡ some i → (j : ℕ) × (o ≡ some j) × (i ≡ suc j)
some_of_map none i h = absurd (cc h)
some_of_map (some j) i h = (j, refl, cc h)

crlf_position-append :
    (bytes more : Bytes) (i : ℕ)
    → crlf_position bytes ≡ some i
    → (crlf_position (bytes ++ more) ≡ some i) × (take i (bytes ++ more) ≡ take i bytes)
unfolding crlf_position
crlf_position-append [] more i h = absurd (cc h)
crlf_position-append (a ∷ []) more i h = absurd (cc h)
crlf_position-append (a ∷ b ∷ bytes) more i h = elim (Bool-cases (a == cr && b == lf)) [
  | inl e ↦ let z : i ≡ 0 = cc (rw e at h) in rw (e, z) (refl, refl)
  | inr e ↦
      let (j, p, q) = some_of_map (crlf_position (b ∷ bytes)) i (rw e at h) in
      let (u, v) = crlf_position-append (b ∷ bytes) more j p in
      rw (e, u, q) (refl, ap (λ t. a ∷ t) v)
]

-- A line that is complete in the buffer is read the same when more bytes follow.
pub parse_line-append :
    (bytes more : Bytes) (p : Parsed Bytes)
    → parse_line bytes ≡ some p
    → parse_line (bytes ++ more) ≡ some p
unfolding parse_line
parse_line-append bytes more p h = elim (Option-cases (crlf_position bytes)) [
  | inl e ↦ absurd (cc (rw (e, parse_line) at h))
  | inr (i, e) ↦
      let (u, v) = crlf_position-append bytes more i e in
      rw (u, parse_line, v) (rw (e, parse_line) at h)
]

crlf_position-lt : (bytes : Bytes) (i : ℕ) → crlf_position bytes ≡ some i → i + 2 ≤ length bytes
unfolding crlf_position
crlf_position-lt [] i h = absurd (cc h)
crlf_position-lt (a ∷ []) i h = absurd (cc h)
crlf_position-lt (a ∷ b ∷ bytes) i h = elim (Bool-cases (a == cr && b == lf)) [
  | inl e ↦ let z : 0 ≡ i = cc (rw e at h) in omega (arith, z)
  | inr e ↦
      let (j, p, q) = some_of_map (crlf_position (b ∷ bytes)) i (rw e at h) in
      omega (arith, crlf_position-lt (b ∷ bytes) j p, q)
]

-- A line with its CRLF lies within the bytes.
pub parse_line-le :
    (bytes : Bytes) (p : Parsed Bytes)
    → parse_line bytes ≡ some p
    → p.num_bytes_parsed ≤ length bytes
unfolding parse_line
parse_line-le bytes p h = elim (Option-cases (crlf_position bytes)) [
  | inl e ↦ absurd (cc (rw (e, parse_line) at h))
  | inr (i, e) ↦
      let w : some (take_parsed bytes i) ≡ some p = rw (e, parse_line) at h in
      let z : take_parsed bytes i ≡ p = cc w in
      let n : i + 2 ≡ p.num_bytes_parsed = ap (λ t. t.num_bytes_parsed) z in
      omega (arith, crlf_position-lt bytes i e, n)
]
