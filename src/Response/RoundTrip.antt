-- ===== src/Response/RoundTrip.antt =====
-- What `to_bytes` of response.rs writes, `decode_next` reads back, nested arrays included.
use simple_kv.Prelude.{
  ℕ, zero, suc, ◌+◌, ◌-◌, ◌^◌, ◌≤◌, ◌<◌, ◌≡◌, ◌∙◌, refl, sym, ap, false, some, ◌++◌, append_assoc,
  append-nil, length, length-append, drop, drop_append, arith, Result,
}
use simple_kv.Util.{Bytes, Parsed, crlf, to_string}
use simple_kv.Response.{
  Response, Responses, error, cstr, null, integer, array, nil, cons, ResponseDecoder, Decoded,
  array_byte, count, to_bytes, all_bytes, found, push, parse_elements, parse_array, parse_fuel,
  parse_response, decode_buffered, decode_next,
}
use simple_kv.Response.Numbers.{IsLine-to_string, line_i64-to_string}
use simple_kv.Response.Reads.{
  IsResponse, AreResponses, size, sizes, line_of, Reads, line_step_end, Reads-ok, Reads-null,
  Reads-error, Reads-integer, Reads-cstr, header, length-header,
}

-- Responses behind others.
abbrev join : Responses → Responses → Responses
join nil ss = ss
join (cons r rs) ss = cons r (join rs ss)

join-push :
    (rs : Responses) (r : Response) (ss : Responses) → join (push rs r) ss ≡ join rs (cons r ss)
join-push nil r ss = refl
join-push (cons x rs) r ss = ap (cons x) (join-push rs r ss)

join-nil : (rs : Responses) → join rs nil ≡ rs
join-nil nil = refl
join-nil (cons x rs) = ap (cons x) (join-nil rs)

elements_step :
    (parse : Bytes → Decoded (Parsed Response)) (bytes : Bytes) (left taken used : ℕ)
    (rs : Responses) (r : Response)
    → parse (drop taken bytes) ≡ found r used
    → parse_elements parse bytes (suc left) taken rs
      ≡ parse_elements parse bytes left (taken + used) (push rs r)
unfolding parse_elements
elements_step parse bytes left taken used rs r h = rw (h, parse_elements)

-- The loop of `parse_array`, where the parser reads each element.
parse_elements-all_bytes :
    (parse : Bytes → Decoded (Parsed Response)) (fuel : ℕ)
    → ((r : Response) → IsResponse r → size r ≤ fuel → Reads parse r)
    → (rs before : Responses) (front rest : Bytes) → AreResponses rs
    → sizes rs ≤ fuel
    → parse_elements parse (front ++ (all_bytes rs ++ rest)) (count rs) (length front) before
      ≡ found (array (join before rs)) (length (front ++ all_bytes rs))
unfolding parse_elements all_bytes AreResponses sizes
parse_elements-all_bytes parse fuel reads nil before front rest h small =
    ap (λ t. found (array t) (length front)) (sym (join-nil before))
    ∙ ap (λ t. found (array (join before nil)) (length t)) (sym (append-nil front))
parse_elements-all_bytes parse fuel reads (cons r rs) before front rest (one, h) small =
    let tail : Bytes = all_bytes rs ++ rest in
    let bytes : Bytes = front ++ ((to_bytes r ++ all_bytes rs) ++ rest) in
    let here : drop (length front) bytes ≡ to_bytes r ++ tail =
      drop_append front _ ∙ append_assoc (to_bytes r) (all_bytes rs) rest in
    let width : length front + length (to_bytes r) ≡ length (front ++ to_bytes r) =
      omega (arith, length-append front (to_bytes r)) in
    let regroup : bytes ≡ (front ++ to_bytes r) ++ tail = simp append_assoc in
    elements_step parse bytes (count rs) (length front) (length (to_bytes r)) before r
      (ap parse here ∙ reads r one (omega (arith, small)) tail)
    ∙ ap (λ t. parse_elements parse bytes (count rs) t (push before r)) width
    ∙ ap (λ t. parse_elements parse t (count rs) (length (front ++ to_bytes r)) (push before r))
        regroup
    ∙ parse_elements-all_bytes parse fuel reads rs (push before r) (front ++ to_bytes r) rest h
        (omega (arith, small))
    ∙ ap (λ t. found (array t) (length ((front ++ to_bytes r) ++ all_bytes rs)))
        (join-push before r rs)
    ∙ ap (λ t. found (array (join before (cons r rs))) (length t))
        (append_assoc front (to_bytes r) (all_bytes rs))

parse_array-line_of :
    (parse : Bytes → Decoded (Parsed Response)) (all : Bytes) (n : ℕ)
    → n ≤ 2 ^ 63 - 1
    → parse_array parse all (line_of array_byte (to_string n))
      ≡ parse_elements parse all n (length (to_string n) + 3) nil
unfolding parse_array
parse_array-line_of parse all n h = rw (line_i64-to_string n h, parse_array)

Reads-array :
    (fuel : ℕ) (rs : Responses)
    → ((r : Response) → IsResponse r → size r ≤ fuel → Reads (parse_fuel fuel) r)
    → count rs ≤ 2 ^ 63 - 1
    → AreResponses rs
    → sizes rs ≤ fuel
    → Reads (parse_fuel (suc fuel)) (array rs)
unfolding parse_fuel to_bytes
Reads-array fuel rs reads few h small rest =
    let n = count rs in
    let front : Bytes = header array_byte n in
    let all : Bytes = front ++ (all_bytes rs ++ rest) in
    let shape : to_bytes (array rs) ++ rest ≡ all = simp append_assoc in
    ap (parse_fuel (suc fuel)) shape
    ∙ line_step_end array_byte (to_string n) (all_bytes rs ++ rest)
        (parse_array (parse_fuel fuel) all) (λ e. omega arith) (IsLine-to_string n)
    ∙ parse_array-line_of (parse_fuel fuel) all n few
    ∙ ap (λ t. parse_elements (parse_fuel fuel) all n t nil) (sym (length-header array_byte n))
    ∙ parse_elements-all_bytes (parse_fuel fuel) fuel reads rs nil front rest h small
    ∙ ap (λ t. found (array rs) (suc (length t))) (append_assoc (to_string n) crlf (all_bytes rs))

size-positive : (r : Response) → 0 < size r
unfolding size
size-positive Response.ok = omega arith
size-positive (error msg) = omega arith
size-positive (cstr b) = omega arith
size-positive null = omega arith
size-positive (integer n) = omega arith
size-positive (array rs) = omega arith

-- With the fuel that its size asks for, a response is read back.
parse_fuel-to_bytes :
    (fuel : ℕ) (r : Response) → IsResponse r → size r ≤ fuel → Reads (parse_fuel fuel) r
unfolding IsResponse size
parse_fuel-to_bytes zero r h small = absurd (omega (arith, small, size-positive r))
parse_fuel-to_bytes (suc fuel) Response.ok h small = Reads-ok fuel
parse_fuel-to_bytes (suc fuel) null h small = Reads-null fuel
parse_fuel-to_bytes (suc fuel) (error msg) (line, text) small = Reads-error fuel msg line text
parse_fuel-to_bytes (suc fuel) (cstr b) h small = Reads-cstr fuel b h
parse_fuel-to_bytes (suc fuel) (integer n) h small = Reads-integer fuel n h
parse_fuel-to_bytes (suc fuel) (array rs) (few, h) small =
    Reads-array fuel rs (parse_fuel-to_bytes fuel) few h (omega (arith, small))

sizes-le :
    (n : ℕ)
    → ((r : Response) → size r ≤ n → size r ≤ length (to_bytes r))
    → (rs : Responses) → sizes rs ≤ n
    → sizes rs ≤ length (all_bytes rs)
unfolding sizes all_bytes
sizes-le n one nil h = omega arith
sizes-le n one (cons r rs) h = omega (
  arith,
  one r (omega (arith, h)),
  sizes-le n one rs (omega (arith, h)),
  length-append (to_bytes r) (all_bytes rs),
)

-- There are enough bytes for the size.
size-le : (n : ℕ) (r : Response) → size r ≤ n → size r ≤ length (to_bytes r)
unfolding size to_bytes
size-le zero r h = absurd (omega (arith, h, size-positive r))
size-le (suc n) Response.ok h = omega arith
size-le (suc n) null h = omega arith
size-le (suc n) (error msg) h = omega arith
size-le (suc n) (cstr b) h = omega arith
size-le (suc n) (integer k) h = omega arith
size-le (suc n) (array rs) h = omega (
  arith,
  sizes-le n (size-le n) rs (omega (arith, h)),
  length-append (to_string (count rs)) (crlf ++ all_bytes rs),
  length-append crlf (all_bytes rs),
)

parse_response-to_bytes :
    (r : Response) (rest : Bytes)
    → IsResponse r
    → parse_response (to_bytes r ++ rest) ≡ found r (length (to_bytes r))
unfolding parse_response
parse_response-to_bytes r rest h =
    parse_fuel-to_bytes (length (to_bytes r ++ rest)) r h
      (omega (arith, size-le (size r) r (omega arith), length-append (to_bytes r) rest)) rest

abbrev pub buffered : Bytes → ResponseDecoder
buffered b = record { buffer = b; poisoned = false }

-- A response, nested arrays included, at the front of a decoder's buffer is decoded whole, and what
-- follows it is all that is left: where error messages are UTF-8 without a CR, strings at most 512
-- MB long, integers within 64 bits, and arrays at most 2^63 - 1 long.
pub decode_next-to_bytes_Response :
    (r : Response) (rest : Bytes)
    → IsResponse r
    → decode_next (buffered (to_bytes r ++ rest)) ≡ (Result.done (some r), buffered rest)
unfolding decode_next decode_buffered
decode_next-to_bytes_Response r rest h =
    rw (parse_response-to_bytes r rest h, decode_next, decode_buffered, drop_append)
