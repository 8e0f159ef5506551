-- ===== src/Request/Poison.antt =====
-- An error of the decoder of request.rs is final.
use simple_kv.Prelude.{◌≡◌, sym, ap, ◌∙◌, inl, inr, true, Bool-cases, if◌then◌else◌, done, err}
use simple_kv.Request.{
  Request, RequestDecoder, RequestParseError, Decoded, poisoned, poison, decode_buffered,
  decode_next,
}

poison-err :
    (x : Decoded Request × RequestDecoder) (e : RequestParseError) (d : RequestDecoder)
    → poison x ≡ (err e, d)
    → d.poisoned ≡ true
poison-err (err e', d') e d h = sym (ap (λ t. t.1.poisoned) h)
poison-err (done o, d') e d h = absurd (cc (ap (λ t. t.0) h))

pub decode_next-poisoned :
    (d : RequestDecoder) → d.poisoned ≡ true → decode_next d ≡ (err poisoned, d)
unfolding decode_next
decode_next-poisoned d p = rw (p, decode_next)

-- When `decode_next` has returned an error, the next call returns the error for a reused decoder
-- and leaves the decoder as it is.
pub decode_next-err :
    (d d' : RequestDecoder) (e : RequestParseError)
    → decode_next d ≡ (err e, d')
    → decode_next d' ≡ (err poisoned, d')
unfolding decode_next
decode_next-err d d' e h = elim (Bool-cases d.poisoned) [
  | inl p ↦
      let same : d ≡ d' = ap (λ t. t.1) (sym (decode_next-poisoned d p) ∙ h) in
      decode_next-poisoned d' (sym (ap (λ t. t.poisoned) same) ∙ p)
  | inr p ↦ decode_next-poisoned d' (
      poison-err (decode_buffered d) e d'
        (sym (ap (λ t. if t then (err poisoned, d) else poison (decode_buffered d)) p) ∙ h))
]
