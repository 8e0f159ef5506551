-- ===== src/Command/Answers.antt =====
-- What GET, MGET and TTL of command.rs answer, as rules on the map and the clock.
use simple_kv.Prelude.{
  ℕ, ◌-◌, ◌^◌, ◌≤◌, ◌<◌, ◌≡◌, ◌⊎◌, ◌∙◌, inl, inr, refl, sym, ap, subst, Bool, true, false,
  Bool-cases, Option, none, some, Option-cases, List, [], ◌∷◌, leb, ltb, ltb→le, arith, Returns,
}
use simple_kv.Prelude.Int.{pos, negsuc, as_i64}
use simple_kv.Util.{Bytes}
use simple_kv.Response.{Response, Responses, cstr, null, integer, array, nil, cons}
use simple_kv.KeyStore.{HashKey}
use simple_kv.KeyStore.Methods.{Models, get_lem}
use simple_kv.Command.{
  StoredValue, Command, get, set, mget, mset, del, getall, expire_at, ttl, is_expired,
}
use simple_kv.Command.Apply.{
  Store, fresh, value_response, ttl_response, apply_get, get_responses, apply_mget, apply_ttl,
  apply_read,
}
use simple_kv.Command.Effects.{Keyspace, fresh-is_expired, fresh-alive}

pub data IsLookup : Command → Type 0 where
  get_lookup : {key : Bytes} → IsLookup (get key)
  mget_lookup : {keys : List Bytes} → IsLookup (mget keys)
  ttl_lookup : {key : Bytes} → IsLookup (ttl key)

-- The value has no expiration, or one that is to come.
abbrev pub Lives : ℕ → StoredValue → Type 0
Lives now v = (v.expires_at ≡ none) ⊎ ((t : ℕ) × (v.expires_at ≡ some t) × (now < t))

-- There is no value, or one whose expiration has come.
abbrev pub IsGone : ℕ → Option StoredValue → Type 0
IsGone now o =
    (o ≡ none) ⊎ ((v : StoredValue) × (t : ℕ) × (o ≡ some v) × (v.expires_at ≡ some t) × (t ≤ now))

-- The response to GET, for what the map has at the key.
pub data AnswersGet (now : ℕ) (o : Option StoredValue) : Response → Type 0 where
  found : {v : StoredValue} → o ≡ some v → Lives now v → AnswersGet now o (cstr v.bytes)
  gone : IsGone now o → AnswersGet now o null

-- The response to TTL: -2, -1, or the expiration, less 2^64 where it does not fit in an `i64`.
pub data AnswersTtl (now : ℕ) (o : Option StoredValue) : Response → Type 0 where
  missing : IsGone now o → AnswersTtl now o (integer (negsuc 1))
  forever :
      {v : StoredValue} → o ≡ some v → v.expires_at ≡ none → AnswersTtl now o (integer (negsuc 0))
  expires :
      {v : StoredValue} {t : ℕ}
      → o ≡ some v
      → v.expires_at ≡ some t
      → now < t
      → t < 2 ^ 63
      → AnswersTtl now o (integer (pos t))
  wraps :
      {v : StoredValue} {t : ℕ}
      → o ≡ some v
      → v.expires_at ≡ some t
      → now < t
      → 2 ^ 63 ≤ t
      → AnswersTtl now o (integer (negsuc (2 ^ 64 - 1 - t)))

-- One response for each key, in their order.
pub data AnswersAll (now : ℕ) (f : Keyspace) : List Bytes → Responses → Type 0 where
  no_keys : AnswersAll now f [] nil
  one_more :
      {key : Bytes} {keys : List Bytes} {r : Response} {rs : Responses}
      → AnswersGet now (f key) r
      → AnswersAll now f keys rs
      → AnswersAll now f (key ∷ keys) (cons r rs)

pub data Answers (now : ℕ) (f : Keyspace) : Command → Response → Type 0 where
  get_answer : {key : Bytes} {r : Response} → AnswersGet now (f key) r → Answers now f (get key) r
  mget_answer :
      {keys : List Bytes} {rs : Responses}
      → AnswersAll now f keys rs
      → Answers now f (mget keys) (array rs)
  ttl_answer : {key : Bytes} {r : Response} → AnswersTtl now (f key) r → Answers now f (ttl key) r

-- `is_expired`, by the expiration.
abbrev due : ℕ → Option ℕ → Bool
due now o = elim o [ none ↦ false | some expires_at ↦ leb expires_at now ]

leb-cases : (t now : ℕ) → ((leb t now ≡ true) × (t ≤ now)) ⊎ ((leb t now ≡ false) × (now < t))
leb-cases t now = elim (Bool-cases (leb t now)) [
  | inl p ↦ inl (p, ground arith)
  | inr p ↦ inr (p, ground arith)
]

is_expired-due : (now : ℕ) (v : StoredValue) → is_expired now v ≡ due now v.expires_at
unfolding is_expired
is_expired-due now v = refl

module _ (now : ℕ) where
  get_answers : (o : Option StoredValue) → AnswersGet now o (value_response (fresh now o))
  unfolding value_response fresh
  get_answers none = gone (inl refl)
  get_answers (some v) = elim (Option-cases v.expires_at) [
    | inl p ↦
        subst (λ t. AnswersGet now (some v) (value_response t))
          (sym (fresh-alive now v (is_expired-due now v ∙ ap (due now) p))) (found refl (inl p))
    | inr (t, p) ↦ elim (leb-cases t now) [
      | inl (q, le) ↦
          subst (λ t. AnswersGet now (some v) (value_response t))
            (sym (fresh-is_expired now v (is_expired-due now v ∙ ap (due now) p ∙ q)))
            (gone (inr (v, t, refl, p, le)))
      | inr (q, lt) ↦
          subst (λ t. AnswersGet now (some v) (value_response t))
            (sym (fresh-alive now v (is_expired-due now v ∙ ap (due now) p ∙ q)))
            (found refl (inr (t, p, lt)))
    ]
  ]

  -- The response to TTL, by the expiration.
  abbrev ttl_by : Option ℕ → Response
  ttl_by o = elim o [ none ↦ integer (negsuc 0) | some t ↦ integer (as_i64 t) ]

  ttl_response-by : (v : StoredValue) → ttl_response (some v) ≡ ttl_by v.expires_at
  unfolding ttl_response
  ttl_response-by v = refl

  ttl_expires :
      (v : StoredValue) (t : ℕ)
      → v.expires_at ≡ some t
      → now < t
      → AnswersTtl now (some v) (integer (as_i64 t))
  unfolding as_i64
  ttl_expires v t p lt = elim (Bool-cases (ltb t (2 ^ 63))) [
    | inl q ↦ rw (q, as_i64) (expires refl p lt (ground arith))
    | inr q ↦ rw (q, as_i64) (wraps refl p lt (ltb→le t (2 ^ 63) q))
  ]

  ttl_answers : (o : Option StoredValue) → AnswersTtl now o (ttl_response (fresh now o))
  unfolding ttl_response fresh
  ttl_answers none = missing (inl refl)
  ttl_answers (some v) = elim (Option-cases v.expires_at) [
    | inl p ↦
        subst (AnswersTtl now (some v))
          (sym (
            ap ttl_response (fresh-alive now v (is_expired-due now v ∙ ap (due now) p))
            ∙ ttl_response-by v
            ∙ ap ttl_by p))
          (forever refl p)
    | inr (t, p) ↦ elim (leb-cases t now) [
      | inl (q, le) ↦
          subst (λ t. AnswersTtl now (some v) (ttl_response t))
            (sym (fresh-is_expired now v (is_expired-due now v ∙ ap (due now) p ∙ q)))
            (missing (inr (v, t, refl, p, le)))
      | inr (q, lt) ↦
          subst (AnswersTtl now (some v))
            (sym (
              ap ttl_response (fresh-alive now v (is_expired-due now v ∙ ap (due now) p ∙ q))
              ∙ ttl_response-by v
              ∙ ap ttl_by p))
            (ttl_expires v t p lt)
    ]
  ]

module _ ⦃h : HashKey Bytes⦄ {f : Keyspace} {ks : Store} (m : Models f ks) (now : ℕ) where
  apply_get_lem : (key : Bytes) → Returns (apply_get now key ks) (AnswersGet now (f key))
  unfolding apply_get
  apply_get_lem key =
      (value_response (fresh now (f key)), rw (get_lem m key), get_answers now (f key))

  get_responses_lem :
      (keys : List Bytes) → Returns (get_responses now keys ks) (AnswersAll now f keys)
  unfolding get_responses
  get_responses_lem [] = (nil, refl, no_keys)
  get_responses_lem (key ∷ keys) =
      let (r, run, a) = apply_get_lem key in
      let (rs, run', b) = get_responses_lem keys in (cons r rs, rw (run, run'), one_more a b)

  -- GET, MGET and TTL on a store in order end without a panic, and answer by the map and the clock.
  -- GET, and MGET for each of its keys in their order, answers the bytes of the value that the map
  -- has at the key, if the value has no expiration or one that is to come; null, if the map has no
  -- value there or its expiration has come. TTL answers -2 where GET answers null, -1 if the value
  -- has no expiration, and otherwise the expiration, less 2^64 where it is 2^63 or more.
  pub apply_read_lem : (c : Command) → IsLookup c → Returns (apply_read now c ks) (Answers now f c)
  unfolding apply_read apply_mget apply_ttl
  apply_read_lem (get key) get_lookup =
      let (r, run, a) = apply_get_lem key in (r, run, get_answer a)
  apply_read_lem (mget keys) mget_lookup =
      let (rs, run, a) = get_responses_lem keys in (array rs, rw run, mget_answer a)
  apply_read_lem (ttl key) ttl_lookup =
      (ttl_response (fresh now (f key)), rw (get_lem m key), ttl_answer (ttl_answers now (f key)))
  apply_read_lem (set key value) l = elim l [ ]
  apply_read_lem (mset entries) l = elim l [ ]
  apply_read_lem (del keys) l = elim l [ ]
  apply_read_lem getall l = elim l [ ]
  apply_read_lem (expire_at key timestamp) l = elim l [ ]
