-- ===== src/Command/Parse.antt =====
-- `Command::try_from` of command.rs on every request.
use simple_kv.Prelude.{
  ℕ, suc, ◌*◌, ◌%◌, ◌≤◌, ◌≡◌, inl, inr, refl, ap, subst, Bool, true, false, Option-cases, List, [],
  ◌∷◌, length, drop, ◌⊎◌, ltb, ltb→le, ◌==◌, ==_iff, if◌then◌else◌, Bool-cases, arith, Result, done,
  err, Run, Returns,
}
use simple_kv.Util.{Bytes, Parsed, is_utf8, parse_uint, max_u64}
use simple_kv.Util.Bounds.{parse_uint-le}
use simple_kv.Command.{
  Command, CommandError, too_few_arguments, uneven_argument_length, invalid_utf8, mset, try_from,
  dispatch, parse_get, parse_set, parse_mget, parse_mset, parse_del, parse_getall, parse_ttl,
  parse_expiration, parse_expire, parse_expire_at, saturating_add, take_entries, entry_parts, parts,
  name, expire_at,
}
use simple_kv.Command.RoundTrip.{
  IsCommand, is_get, is_set, is_mget, is_mset, is_del, is_getall, is_expire_at, is_ttl,
}
use simple_kv.Command.Effects.{added}

-- A command keeps the arguments as they are, or is an EXPIREAT with their key.
abbrev pub Keeps : List Bytes → Command → Type 0
Keeps args c =
    (parts c ≡ name c ∷ args)
    ⊎ ((key : Bytes) × (seconds : Bytes) × (timestamp : ℕ) × (args ≡ key ∷ seconds ∷ [])
        × (c ≡ expire_at key timestamp))

-- An error, or a command that can be written, made of the arguments, with at most as many entries
-- to add.
abbrev pub Makes : List Bytes → Result CommandError Command → Type 0
Makes args (err e) = Unit
Makes args (done c) = IsCommand c × (added c ≤ length args) × Keeps args c

if_case : {A : Type 0} (P : A → Type 0) (b : Bool) {x y : A} → P x → P y → P (if b then x else y)
if_case P true p q = p
if_case P false p q = q

take_entries_lem :
    (args : List Bytes)
    → length args % 2 ≡ 0
    → Returns (take_entries args) λ es. (2 * length es ≡ length args) × (entry_parts es ≡ args)
unfolding take_entries
take_entries_lem [] h = ([], refl, (refl, refl))
take_entries_lem (key ∷ []) h = absurd (omega (arith, h))
take_entries_lem (key ∷ value ∷ args) h =
    let (es, run, (n, same)) = take_entries_lem args (omega (arith, h)) in
    ((key, value) ∷ es, rw run, (omega (arith, n), ap (λ t. key ∷ value ∷ t) same))

parse_get_lem : (args : List Bytes) (total : ℕ) → Makes args (parse_get args total)
unfolding parse_get parts
parse_get_lem [] total = tt
parse_get_lem (key ∷ []) total = (is_get, omega arith, inl refl)
parse_get_lem (key ∷ _ ∷ _) total = tt

parse_set_lem : (args : List Bytes) (total : ℕ) → Makes args (parse_set args total)
unfolding parse_set parts
parse_set_lem [] total = tt
parse_set_lem (_ ∷ []) total = tt
parse_set_lem (key ∷ value ∷ []) total = (is_set, omega arith, inl refl)
parse_set_lem (_ ∷ _ ∷ _ ∷ _) total = tt

parse_mget_lem : (args : List Bytes) (total : ℕ) → Makes args (parse_mget args total)
unfolding parse_mget parts
parse_mget_lem [] total = tt
parse_mget_lem (key ∷ keys) total = (is_mget, omega arith, inl refl)

parse_del_lem : (args : List Bytes) (total : ℕ) → Makes args (parse_del args total)
unfolding parse_del parts
parse_del_lem [] total = tt
parse_del_lem (key ∷ keys) total = (is_del, omega arith, inl refl)

parse_getall_lem : (args : List Bytes) (total : ℕ) → Makes args (parse_getall args total)
unfolding parse_getall parts
parse_getall_lem [] total = (is_getall, omega arith, inl refl)
parse_getall_lem (_ ∷ _) total = tt

parse_ttl_lem : (args : List Bytes) (total : ℕ) → Makes args (parse_ttl args total)
unfolding parse_ttl parts
parse_ttl_lem [] total = tt
parse_ttl_lem (key ∷ []) total = (is_ttl, omega arith, inl refl)
parse_ttl_lem (key ∷ _ ∷ _) total = tt

-- The seconds fit in 64 bits, and come behind the key.
abbrev Fits : List Bytes → Result CommandError (Parsed Bytes) → Type 0
Fits args (err e) = Unit
Fits args (done p) =
    (p.num_bytes_parsed ≤ max_u64) × (seconds : Bytes) × (args ≡ p.value ∷ seconds ∷ [])

parse_expiration_lem : (args : List Bytes) (total : ℕ) → Fits args (parse_expiration args total)
unfolding parse_expiration
parse_expiration_lem [] total = tt
parse_expiration_lem (_ ∷ []) total = tt
parse_expiration_lem (key ∷ expiration ∷ []) total = elim (Bool-cases (is_utf8 expiration)) [
  | inl p ↦ elim (Option-cases (parse_uint max_u64 expiration)) [
    | inl q ↦ rw (p, parse_expiration, q) tt
    | inr (n, q) ↦
        rw (p, parse_expiration, q) (parse_uint-le max_u64 expiration n q, expiration, refl)
  ]
  | inr p ↦ rw (p, parse_expiration) tt
]
parse_expiration_lem (_ ∷ _ ∷ _ ∷ _) total = tt

saturating_add-le : (a b : ℕ) → saturating_add a b ≤ max_u64
unfolding saturating_add
saturating_add-le a b = omega arith

parse_expire_lem :
    (now : ℕ) (args : List Bytes) (total : ℕ) → Makes args (parse_expire now args total)
unfolding parse_expire
parse_expire_lem now args total = go (parse_expiration args total) refl
  where
    go :
        (r : Result CommandError (Parsed Bytes))
        → parse_expiration args total ≡ r
        → Makes args (parse_expire now args total)
    go (err e) p = rw (p, Makes) tt
    go (done q) p =
        let (small, seconds, same) = subst (Fits args) p (parse_expiration_lem args total) in
        rw (p, Makes)
          (
            is_expire_at (saturating_add-le now q.num_bytes_parsed),
            omega arith,
            inr (q.value, seconds, _, same, refl),
          )

parse_expire_at_lem : (args : List Bytes) (total : ℕ) → Makes args (parse_expire_at args total)
unfolding parse_expire_at
parse_expire_at_lem args total = go (parse_expiration args total) refl
  where
    go :
        (r : Result CommandError (Parsed Bytes))
        → parse_expiration args total ≡ r
        → Makes args (parse_expire_at args total)
    go (err e) p = rw (p, Makes) tt
    go (done q) p =
        let (small, seconds, same) = subst (Fits args) p (parse_expiration_lem args total) in
        rw (p, Makes) (is_expire_at small, omega arith, inr (q.value, seconds, _, same, refl))

mset_lem :
    (es : List (Bytes × Bytes)) (args : List Bytes)
    → 2 * length es ≡ length args
    → 2 ≤ length args
    → entry_parts es ≡ args
    → Makes args (done (mset es))
unfolding parts
mset_lem [] args e h same = absurd (omega (arith, e, h))
mset_lem (x ∷ es) args e h same =
    (is_mset, omega (arith, e), inl (ap (λ t. name (mset (x ∷ es)) ∷ t) same))

parse_mset_lem : (args : List Bytes) (total : ℕ) → Returns (parse_mset args total) (Makes args)
unfolding parse_mset
parse_mset_lem args total = elim (Bool-cases (ltb (length args) 2)) [
  | inl p ↦ (err (too_few_arguments total), rw (p, parse_mset), tt)
  | inr p ↦ elim (Bool-cases (length args % 2 == 0)) [
    | inl q ↦
        let (es, run, (n, same)) = take_entries_lem args ((==_iff _ _).0 q) in
        (done (mset es), rw (p, parse_mset, q, run), mset_lem es args n (ltb→le _ _ p) same)
    | inr q ↦ (err (uneven_argument_length (length args)), rw (p, parse_mset, q), tt)
  ]
]

-- What the parsers of the commands give.
dispatch_lem :
    (now : ℕ) (name : Bytes) (args : List Bytes) (total : ℕ)
    → Returns (dispatch now name args total) (Makes args)
unfolding dispatch
dispatch_lem now name args total =
    let P : Run (Result CommandError Command) → Type 0 = λ run. Returns run (Makes args) in
    if_case P _ (_, refl, parse_get_lem args total)
      (if_case P _ (_, refl, parse_set_lem args total)
        (if_case P _ (_, refl, parse_mget_lem args total)
          (if_case P _ (parse_mset_lem args total) (
            if_case P _ (_, refl, parse_del_lem args total)
              (if_case P _ (_, refl, parse_getall_lem args total)
                (if_case P _ (_, refl, parse_expire_lem now args total)
                  (if_case P _ (_, refl, parse_expire_at_lem args total)
                    (if_case P _ (_, refl, parse_ttl_lem args total) (_, refl, tt)))))))))

-- `try_from` ends without a panic on every request: with an error, or with a command that
-- `to_bytes` can write, that adds no more entries than the request has arguments, and whose parts
-- are its name and the arguments, or that is an EXPIREAT with the key of two arguments.
pub try_from_lem :
    (now : ℕ) (cstrs : List Bytes)
    → Returns (try_from now (record { cstrs = cstrs })) (Makes (drop 1 cstrs))
unfolding try_from
try_from_lem now [] = (err (too_few_arguments 0), refl, tt)
try_from_lem now (name ∷ args) = elim (Bool-cases (is_utf8 name)) [
  | inl p ↦
      let (r, run, makes) = dispatch_lem now name args (suc (length args)) in
      (r, rw (p, try_from) run, makes)
  | inr p ↦ (err invalid_utf8, rw (p, try_from), tt)
]
