-- ===== src/Command/Apply.antt =====
-- The `apply_*` functions of command.rs: what a command does to the key store, and its response.
use simple_kv.Prelude.{
  ℕ, ◌+◌, Bool, true, false, Option, none, some, List, [], ◌∷◌, Run, ok, panic, ◌>>=◌,
}
use simple_kv.Prelude.Int.{ℤ, pos, negsuc, as_i64}
use simple_kv.Util.{Bytes}
use simple_kv.Response.{Response, Responses, cstr, null, integer, array, nil, cons}
use simple_kv.KeyStore.{KeyStore, HashKey, iter, insert}
use simple_kv.KeyStore
use simple_kv.Command.{StoredValue, new_value, is_expired, Command, mget, mset, getall, ttl}

abbrev pub Store : Type 0
Store = KeyStore Bytes StoredValue

abbrev pub ttl_key_missing_response : ℤ
ttl_key_missing_response = negsuc 1

abbrev pub ttl_key_no_expire_response : ℤ
ttl_key_no_expire_response = negsuc 0

-- `filter(|value| !value.is_expired())`
unfoldable pub fresh : ℕ → Option StoredValue → Option StoredValue
fresh now none = none
fresh now (some v) = elim (is_expired now v) [ true ↦ none | false ↦ some v ]

unfoldable pub value_response : Option StoredValue → Response
value_response none = null
value_response (some v) = cstr v.bytes

unfoldable pub ttl_response : Option StoredValue → Response
ttl_response none = integer ttl_key_missing_response
ttl_response (some v) = elim v.expires_at [
  | none ↦ integer ttl_key_no_expire_response
  | some expires_at ↦ integer (as_i64 expires_at)
]

-- The iterator chain of `apply_getall`.
unfoldable pub pair_responses : ℕ → List (Bytes × StoredValue) → Responses
pair_responses now [] = nil
pair_responses now ((key, value) ∷ rest) = elim (is_expired now value) [
  | true ↦ pair_responses now rest
  | false ↦ cons (array (cons (cstr key) (cons (cstr value.bytes) nil))) (pair_responses now rest)
]

unfoldable pub apply_getall : ℕ → Store → Response
apply_getall now ks = array (pair_responses now (iter ks))

unfoldable pub is_stale : ℕ → Option StoredValue → Bool
is_stale now none = false
is_stale now (some v) = is_expired now v

module _ ⦃h : HashKey Bytes⦄ where
  unfoldable pub eject_if_expired : ℕ → Store → Bytes → Run Store
  eject_if_expired now ks key = do
    found ← KeyStore.get ks key
    elim (is_stale now found) [ false ↦ ok ks | true ↦ do r ← KeyStore.del ks key; ok r.1 ]

  unfoldable pub apply_get : ℕ → Bytes → Store → Run Response
  apply_get now key ks = do found ← KeyStore.get ks key; ok (value_response (fresh now found))

  unfoldable pub get_responses : ℕ → List Bytes → Store → Run Responses
  get_responses now [] ks = ok nil
  get_responses now (key ∷ keys) ks = do
    r ← apply_get now key ks
    rs ← get_responses now keys ks
    ok (cons r rs)

  unfoldable pub apply_mget : ℕ → List Bytes → Store → Run Response
  apply_mget now keys ks = do rs ← get_responses now keys ks; ok (array rs)

  unfoldable pub apply_ttl : ℕ → Bytes → Store → Run Response
  apply_ttl now key ks = do found ← KeyStore.get ks key; ok (ttl_response (fresh now found))

  abbrev pub tally : Option StoredValue → ℕ
  tally none = 0
  tally (some v) = 1

  -- The filter of `apply_del`, with the number of keys that it keeps.
  unfoldable pub del_keys : ℕ → List Bytes → Store → Run (ℕ × Store)
  del_keys now [] ks = ok (0, ks)
  del_keys now (key ∷ keys) ks = do
    ks₁ ← eject_if_expired now ks key
    (old, ks₂) ← KeyStore.del ks₁ key
    (count, ks₃) ← del_keys now keys ks₂
    ok (tally old + count, ks₃)

  unfoldable pub apply_del : ℕ → List Bytes → Store → Run (Response × Store)
  apply_del now keys ks = do (count, ks') ← del_keys now keys ks; ok (integer (as_i64 count), ks')

  unfoldable pub apply_set : Bytes → Bytes → Store → Run (Response × Store)
  apply_set key value ks = do (old, ks') ← insert ks key (new_value value); ok (Response.ok, ks')

  unfoldable pub set_entries : List (Bytes × Bytes) → Store → Run Store
  set_entries [] ks = ok ks
  set_entries ((key, value) ∷ entries) ks = do
    (old, ks') ← insert ks key (new_value value)
    set_entries entries ks'

  unfoldable pub apply_mset : List (Bytes × Bytes) → Store → Run (Response × Store)
  apply_mset entries ks = do ks' ← set_entries entries ks; ok (Response.ok, ks')

  abbrev pub expire_response : Bool → Response
  expire_response false = integer (pos 0)
  expire_response true = integer (pos 1)

  abbrev pub expire : ℕ → StoredValue → StoredValue
  expire timestamp v = record v { expires_at = some timestamp }

  unfoldable pub apply_expire_at : ℕ → Bytes → ℕ → Store → Run (Response × Store)
  apply_expire_at now key timestamp ks = do
    ks₁ ← eject_if_expired now ks key
    (there, ks₂) ← KeyStore.get_mut (expire timestamp) ks₁ key
    ok (expire_response there, ks₂)

  -- `unreachable!` panics.
  unfoldable pub apply_read : ℕ → Command → Store → Run Response
  apply_read now (Command.get key) ks = apply_get now key ks
  apply_read now (mget keys) ks = apply_mget now keys ks
  apply_read now getall ks = ok (apply_getall now ks)
  apply_read now (ttl key) ks = apply_ttl now key ks
  apply_read now (Command.del keys) ks = panic
  apply_read now (Command.set key value) ks = panic
  apply_read now (mset entries) ks = panic
  apply_read now (Command.expire_at key timestamp) ks = panic

  unfoldable pub apply_write : ℕ → Command → Store → Run (Response × Store)
  apply_write now (Command.del keys) ks = apply_del now keys ks
  apply_write now (Command.set key value) ks = apply_set key value ks
  apply_write now (mset entries) ks = apply_mset entries ks
  apply_write now (Command.expire_at key timestamp) ks = apply_expire_at now key timestamp ks
  apply_write now (Command.get key) ks = panic
  apply_write now (mget keys) ks = panic
  apply_write now getall ks = panic
  apply_write now (ttl key) ks = panic
