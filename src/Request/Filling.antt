-- ===== src/Request/Filling.antt =====
-- The loop of `decode_buffered` in request.rs: its answer when more bytes come, and what it reads.
use simple_kv.Prelude.{
  ℕ, zero, suc, ◌+◌, ◌≤◌, ◌≡◌, ◌∙◌, inl, inr, refl, sym, ap, subst, none, some, [], ◌∷◌, ◌++◌,
  length, length-append, drop-append_le, All, All-append, arith, done, err,
}
use simple_kv.Util.{Bytes, max_complex_string_length}
use simple_kv.Request.{
  Request, RequestDecoder, Decoded, parse_cstr, take_request, push_arg, fill_args, feed,
}
use simple_kv.Request.BulkString.{fed, IsInside, Leaves, parse_cstr-fed, parse_cstr-Leaves}

abbrev pub IsShort : Bytes → Type 0
IsShort c = length c ≤ max_complex_string_length

abbrev pub push : RequestDecoder → Bytes → RequestDecoder
push d c = record d { args = d.args ++ c ∷ [] }

-- A decoder between two requests.
abbrev pub IsFresh : RequestDecoder → Type 0
IsFresh d = (d.cursor ≡ 0) × (d.expected_arg_count ≡ none) × (d.args ≡ [])

-- What the loop says of the strings that are missing, `m` of them, and of the stream.
abbrev pub Fills : ℕ → RequestDecoder → Bytes → Decoded Request × RequestDecoder → Type 0
Fills m d more (err e, d') = fill_args m (feed d more) ≡ (err e, feed d' more)
Fills m d more (done (some q), d') =
    (fill_args m (feed d more) ≡ (done (some q), feed d' more))
    × (length q.cstrs ≡ length d.args + m)
    × All IsShort q.cstrs
    × IsFresh d'
    × (d'.poisoned ≡ d.poisoned)
Fills m d more (done none, d') =
    (k : ℕ) × (length d'.args + k ≡ length d.args + m)
    × (fill_args k (feed d' more) ≡ fill_args m (feed d more))
    × IsInside d'
    × (d'.expected_arg_count ≡ d.expected_arg_count)
    × All IsShort d'.args
    × (d'.poisoned ≡ d.poisoned)
    × (d'.buffer ≡ d.buffer)

-- A round that reads the string `c`.
Fills-push :
    (m : ℕ) (d d' : RequestDecoder) (c more : Bytes)
    → d' ≡ record d { cursor = d'.cursor }
    → fill_args (suc m) (feed d more) ≡ fill_args m (feed (push d' c) more)
    → (x : Decoded Request × RequestDecoder) → Fills m (push d' c) more x
    → Fills (suc m) d more x
Fills-push m d d' c more e step (err x, d'') f = step ∙ f
Fills-push m d d' c more e step (done (some q), d'') (f, n, s, fresh, p) =
    let args : d'.args ≡ d.args = ap (λ t. t.args) e in
    let flag : d'.poisoned ≡ d.poisoned = ap (λ t. t.poisoned) e in
    (step ∙ f, omega (arith, n, length-append d'.args (c ∷ []), ap length args), s, fresh, p ∙ flag)
Fills-push m d d' c more e step (done none, d'') (k, n, f, inside, x, s, p, b) =
    let args : d'.args ≡ d.args = ap (λ t. t.args) e in
    let flag : d'.poisoned ≡ d.poisoned = ap (λ t. t.poisoned) e in
    (
      k,
      omega (arith, n, length-append d'.args (c ∷ []), ap length args),
      f ∙ sym step,
      inside,
      x ∙ ap (λ t. t.expected_arg_count) e,
      s,
      p ∙ flag,
      b ∙ ap (λ t. t.buffer) e,
    )

Fills-wait :
    (m : ℕ) (d : RequestDecoder) (more : Bytes)
    → IsInside d
    → All IsShort d.args
    → Fills m d more (done none, d)
Fills-wait m d more inside s = (m, refl, refl, inside, refl, s, refl, refl)

pub fill_args_lem :
    (m : ℕ) (d : RequestDecoder) (more : Bytes)
    → IsInside d
    → All IsShort d.args
    → Fills m d more (fill_args m d)
unfolding fill_args take_request
fill_args_lem zero d more inside s = (
  ap
      (λ t. (
        done (some (record { cstrs = d.args })),
        record (feed d more) { buffer = t; cursor = 0; expected_arg_count = none; args = [] },
      ))
      (drop-append_le d.cursor d.buffer more inside),
  omega arith,
  s,
  (refl, refl, refl),
  refl,
)
fill_args_lem (suc m) d more inside s = elim (parse_cstr-fed d more inside) [
  | inl p ↦
      subst (Fills (suc m) d more) (sym (ap (push_arg (fill_args m)) p))
        (Fills-wait (suc m) d more inside s)
  | inr p ↦ split (fill_args_lem m) (parse_cstr d) refl p (parse_cstr-Leaves d)
]
  where
    split :
        ((e : RequestDecoder) (b : Bytes)
          → IsInside e
          → All IsShort e.args
          → Fills m e b (fill_args m e))
        → (x : Decoded Bytes × RequestDecoder) → parse_cstr d ≡ x
        → parse_cstr (feed d more) ≡ fed more (parse_cstr d)
        → Leaves d x
        → Fills (suc m) d more (push_arg (fill_args m) (parse_cstr d))
    split ih (err e, d') p q l =
        subst (λ t. Fills (suc m) d more (push_arg (fill_args m) t)) (sym p)
          (ap (push_arg (fill_args m)) (q ∙ ap (fed more) p))
    split ih (done none, d') p q l =
        subst (λ t. Fills (suc m) d more (push_arg (fill_args m) t)) (sym p)
          (subst (λ t. Fills (suc m) d more (done none, t)) (sym l)
            (Fills-wait (suc m) d more inside s))
    split ih (done (some c), d') p q (same, le, short) =
        subst (λ t. Fills (suc m) d more (push_arg (fill_args m) t)) (sym p)
          (Fills-push m d d' c more same (ap (push_arg (fill_args m)) (q ∙ ap (fed more) p))
            (fill_args m (push d' c))
            (ih (push d' c) more (omega (arith, le, ap (λ t. length t.buffer) same)) (
              All-append IsShort d'.args (c ∷ []) (subst (λ t. All IsShort t.args) (sym same) s)
                (short, tt))))
