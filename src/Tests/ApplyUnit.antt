-- ===== src/Tests/ApplyUnit.antt =====
-- The unit tests of command.rs on the store: the commands of each test, and what they give, with a
-- hasher that makes the keys collide.
use simple_kv.Prelude.{
  ℕ, ◌+◌, ◌≡◌, ◌⊎◌, inl, inr, refl, Option, some, List, [], ◌∷◌, Run, ok, ◌>>=◌,
}
use simple_kv.Prelude.Int.{pos, as_i64}
use simple_kv.Util.{Bytes, codes, bytes_eq}
use simple_kv.Response.{Responses, count, Response, cstr, null, integer, array, nil, cons}
use simple_kv.KeyStore.{KeyStore, HashKey, with_hasher, insert, get, iter, get_bucket_index}
use simple_kv.KeyStore
use simple_kv.Command.{
  Command, StoredValue, new_value, mget, mset, getall, expire_at, ttl, is_expired,
}
use simple_kv.Command.Apply.{
  Store, apply_read, apply_write, apply_getall, apply_mset, set_entries, apply_mget, get_responses,
  apply_get, value_response, fresh, pair_responses, apply_expire_at, expire_response,
  eject_if_expired, is_stale, apply_ttl, ttl_response, ttl_key_missing_response,
  ttl_key_no_expire_response,
}
use simple_kv.Tests.{bytes_key}

abbrev now : ℕ
now = 1700000000

abbrev inserts : List (Bytes × StoredValue) → Store → Run Store
inserts [] store = ok store
inserts ((key, value) ∷ rest) store = do (old, store') ← insert store key value; inserts rest store'

abbrev applies_multi_key_commands_run : Run (Response × Response)
applies_multi_key_commands_run = do
  (a, store) ←
      apply_write now (mset (((codes "k1"), (codes "v1")) ∷ ((codes "k2"), (codes "v2")) ∷ []))
        with_hasher
  b ← apply_read now (mget ((codes "k2") ∷ (codes "missing") ∷ (codes "k1") ∷ [])) store
  ok (a, b)

abbrev get_hides_expired_keys_without_ejecting_run :
    Run (Response × Option StoredValue × Option StoredValue × Option StoredValue)
get_hides_expired_keys_without_ejecting_run = do
  store ←
      inserts
        (((codes "expired"), record { bytes = (codes "old"); expires_at = some 0 })
          ∷ ((codes "untouched"), record { bytes = (codes "old"); expires_at = some 0 })
          ∷ ((codes "live"), new_value (codes "value"))
          ∷ [])
        with_hasher
  r ← apply_read now (Command.get (codes "expired")) store
  a ← get store (codes "expired")
  b ← get store (codes "untouched")
  d ← get store (codes "live")
  ok (r, a, b, d)

abbrev getall_skips_expired_keys_without_ejecting_run : Run (Response × Option StoredValue)
getall_skips_expired_keys_without_ejecting_run = do
  store ←
      inserts
        (((codes "expired"), record { bytes = (codes "old"); expires_at = some 0 })
          ∷ ((codes "live"), new_value (codes "value"))
          ∷ [])
        with_hasher
  r ← apply_read now getall store
  a ← get store (codes "expired")
  ok (r, a)

abbrev expire_sets_ttl_for_existing_key_run : Run (Response × Option StoredValue)
expire_sets_ttl_for_existing_key_run = do
  store ← inserts (((codes "key"), new_value (codes "value")) ∷ []) with_hasher
  (r, store₁) ← apply_write now (expire_at (codes "key") (now + 60)) store
  a ← get store₁ (codes "key")
  ok (r, a)

abbrev expire_at_sets_absolute_expiration_run : Run (Response × Option StoredValue)
expire_at_sets_absolute_expiration_run = do
  store ← inserts (((codes "key"), new_value (codes "value")) ∷ []) with_hasher
  (r, store₁) ← apply_write now (expire_at (codes "key") 2000000000) store
  a ← get store₁ (codes "key")
  ok (r, a)

abbrev expire_returns_zero_for_missing_key_run : Run Response
expire_returns_zero_for_missing_key_run = do
  (r, store) ← apply_write now (expire_at (codes "missing") (now + 60)) with_hasher
  ok r

abbrev ttl_returns_stored_unix_timestamp_for_expiring_key_run : Run (Response × Response)
ttl_returns_stored_unix_timestamp_for_expiring_key_run = do
  store ← inserts (((codes "key"), new_value (codes "value")) ∷ []) with_hasher
  (r, store₁) ← apply_write now (expire_at (codes "key") 2000000000) store
  a ← apply_read now (ttl (codes "key")) store₁
  ok (r, a)

abbrev ttl_returns_minus_one_when_key_has_no_expiration_run : Run Response
ttl_returns_minus_one_when_key_has_no_expiration_run = do
  store ← inserts (((codes "key"), new_value (codes "value")) ∷ []) with_hasher
  apply_read now (ttl (codes "key")) store

abbrev ttl_returns_minus_two_for_missing_key_run : Run Response
ttl_returns_minus_two_for_missing_key_run = apply_read now (ttl (codes "missing")) with_hasher

abbrev ttl_treats_expired_keys_as_missing_without_ejecting_run : Run (Response × Option StoredValue)
ttl_treats_expired_keys_as_missing_without_ejecting_run = do
  store ←
      inserts (((codes "expired"), record { bytes = (codes "old"); expires_at = some 0 }) ∷ [])
        with_hasher
  r ← apply_read now (ttl (codes "expired")) store
  a ← get store (codes "expired")
  ok (r, a)

abbrev expire_with_zero_seconds_makes_key_unavailable_run : Run (Response × Response)
expire_with_zero_seconds_makes_key_unavailable_run = do
  store ← inserts (((codes "key"), new_value (codes "value")) ∷ []) with_hasher
  (r, store₁) ← apply_write now (expire_at (codes "key") now) store
  a ← apply_read now (Command.get (codes "key")) store₁
  ok (r, a)

abbrev AppliesMultiKeyCommands : Type 0
AppliesMultiKeyCommands =
    applies_multi_key_commands_run
    ≡ ok (Response.ok, array (cons (cstr (codes "v2")) (cons null (cons (cstr (codes "v1")) nil))))

applies_multi_key_commands : AppliesMultiKeyCommands
unfolding with_hasher insert get get_bucket_index bytes_eq bytes_key apply_read apply_write
    apply_getall is_expired as_i64 KeyStore.get_mut KeyStore.del KeyStore.iter apply_mset
    set_entries apply_mget get_responses apply_get value_response fresh pair_responses
    apply_expire_at expire_response eject_if_expired is_stale apply_ttl ttl_response
applies_multi_key_commands = refl

abbrev GetHidesExpiredKeysWithoutEjecting : Type 0
GetHidesExpiredKeysWithoutEjecting =
    get_hides_expired_keys_without_ejecting_run
    ≡ ok (
      null,
      some (record { bytes = (codes "old"); expires_at = some 0 }),
      some (record { bytes = (codes "old"); expires_at = some 0 }),
      some (new_value (codes "value")),
    )

get_hides_expired_keys_without_ejecting : GetHidesExpiredKeysWithoutEjecting
unfolding with_hasher insert get get_bucket_index bytes_eq bytes_key apply_read apply_write
    apply_getall is_expired as_i64 KeyStore.get_mut KeyStore.del KeyStore.iter apply_mset
    set_entries apply_mget get_responses apply_get value_response fresh pair_responses
    apply_expire_at expire_response eject_if_expired is_stale apply_ttl ttl_response
get_hides_expired_keys_without_ejecting = refl

abbrev GetallSkipsExpiredKeysWithoutEjecting : Type 0
GetallSkipsExpiredKeysWithoutEjecting =
    getall_skips_expired_keys_without_ejecting_run
    ≡ ok (
      array (cons (array (cons (cstr (codes "live")) (cons (cstr (codes "value")) nil))) nil),
      some (record { bytes = (codes "old"); expires_at = some 0 }),
    )

getall_skips_expired_keys_without_ejecting : GetallSkipsExpiredKeysWithoutEjecting
unfolding with_hasher insert get get_bucket_index bytes_eq bytes_key apply_read apply_write
    apply_getall is_expired as_i64 KeyStore.get_mut KeyStore.del KeyStore.iter apply_mset
    set_entries apply_mget get_responses apply_get value_response fresh pair_responses
    apply_expire_at expire_response eject_if_expired is_stale apply_ttl ttl_response
getall_skips_expired_keys_without_ejecting = refl

abbrev ExpireSetsTtlForExistingKey : Type 0
ExpireSetsTtlForExistingKey =
    expire_sets_ttl_for_existing_key_run
    ≡ ok (integer (pos 1), some (record { bytes = (codes "value"); expires_at = some (now + 60) }))

expire_sets_ttl_for_existing_key : ExpireSetsTtlForExistingKey
unfolding with_hasher insert get get_bucket_index bytes_eq bytes_key apply_read apply_write
    apply_getall is_expired as_i64 KeyStore.get_mut KeyStore.del KeyStore.iter apply_mset
    set_entries apply_mget get_responses apply_get value_response fresh pair_responses
    apply_expire_at expire_response eject_if_expired is_stale apply_ttl ttl_response
expire_sets_ttl_for_existing_key = refl

abbrev ExpireAtSetsAbsoluteExpiration : Type 0
ExpireAtSetsAbsoluteExpiration =
    expire_at_sets_absolute_expiration_run
    ≡ ok (integer (pos 1), some (record { bytes = (codes "value"); expires_at = some 2000000000 }))

expire_at_sets_absolute_expiration : ExpireAtSetsAbsoluteExpiration
unfolding with_hasher insert get get_bucket_index bytes_eq bytes_key apply_read apply_write
    apply_getall is_expired as_i64 KeyStore.get_mut KeyStore.del KeyStore.iter apply_mset
    set_entries apply_mget get_responses apply_get value_response fresh pair_responses
    apply_expire_at expire_response eject_if_expired is_stale apply_ttl ttl_response
expire_at_sets_absolute_expiration = refl

abbrev ExpireReturnsZeroForMissingKey : Type 0
ExpireReturnsZeroForMissingKey = expire_returns_zero_for_missing_key_run ≡ ok (integer (pos 0))

expire_returns_zero_for_missing_key : ExpireReturnsZeroForMissingKey
unfolding with_hasher insert get get_bucket_index bytes_eq bytes_key apply_read apply_write
    apply_getall is_expired as_i64 KeyStore.get_mut KeyStore.del KeyStore.iter apply_mset
    set_entries apply_mget get_responses apply_get value_response fresh pair_responses
    apply_expire_at expire_response eject_if_expired is_stale apply_ttl ttl_response
expire_returns_zero_for_missing_key = refl

abbrev TtlReturnsStoredUnixTimestampForExpiringKey : Type 0
TtlReturnsStoredUnixTimestampForExpiringKey =
    ttl_returns_stored_unix_timestamp_for_expiring_key_run
    ≡ ok (integer (pos 1), integer (pos 2000000000))

ttl_returns_stored_unix_timestamp_for_expiring_key : TtlReturnsStoredUnixTimestampForExpiringKey
unfolding with_hasher insert get get_bucket_index bytes_eq bytes_key apply_read apply_write
    apply_getall is_expired as_i64 KeyStore.get_mut KeyStore.del KeyStore.iter apply_mset
    set_entries apply_mget get_responses apply_get value_response fresh pair_responses
    apply_expire_at expire_response eject_if_expired is_stale apply_ttl ttl_response
ttl_returns_stored_unix_timestamp_for_expiring_key = refl

abbrev TtlReturnsMinusOneWhenKeyHasNoExpiration : Type 0
TtlReturnsMinusOneWhenKeyHasNoExpiration =
    ttl_returns_minus_one_when_key_has_no_expiration_run ≡ ok (integer ttl_key_no_expire_response)

ttl_returns_minus_one_when_key_has_no_expiration : TtlReturnsMinusOneWhenKeyHasNoExpiration
unfolding with_hasher insert get get_bucket_index bytes_eq bytes_key apply_read apply_write
    apply_getall is_expired as_i64 KeyStore.get_mut KeyStore.del KeyStore.iter apply_mset
    set_entries apply_mget get_responses apply_get value_response fresh pair_responses
    apply_expire_at expire_response eject_if_expired is_stale apply_ttl ttl_response
ttl_returns_minus_one_when_key_has_no_expiration = refl

abbrev TtlReturnsMinusTwoForMissingKey : Type 0
TtlReturnsMinusTwoForMissingKey =
    ttl_returns_minus_two_for_missing_key_run ≡ ok (integer ttl_key_missing_response)

ttl_returns_minus_two_for_missing_key : TtlReturnsMinusTwoForMissingKey
unfolding with_hasher insert get get_bucket_index bytes_eq bytes_key apply_read apply_write
    apply_getall is_expired as_i64 KeyStore.get_mut KeyStore.del KeyStore.iter apply_mset
    set_entries apply_mget get_responses apply_get value_response fresh pair_responses
    apply_expire_at expire_response eject_if_expired is_stale apply_ttl ttl_response
ttl_returns_minus_two_for_missing_key = refl

abbrev TtlTreatsExpiredKeysAsMissingWithoutEjecting : Type 0
TtlTreatsExpiredKeysAsMissingWithoutEjecting =
    ttl_treats_expired_keys_as_missing_without_ejecting_run
    ≡ ok (
      integer ttl_key_missing_response,
      some (record { bytes = (codes "old"); expires_at = some 0 }),
    )

ttl_treats_expired_keys_as_missing_without_ejecting : TtlTreatsExpiredKeysAsMissingWithoutEjecting
unfolding with_hasher insert get get_bucket_index bytes_eq bytes_key apply_read apply_write
    apply_getall is_expired as_i64 KeyStore.get_mut KeyStore.del KeyStore.iter apply_mset
    set_entries apply_mget get_responses apply_get value_response fresh pair_responses
    apply_expire_at expire_response eject_if_expired is_stale apply_ttl ttl_response
ttl_treats_expired_keys_as_missing_without_ejecting = refl

abbrev ExpireWithZeroSecondsMakesKeyUnavailable : Type 0
ExpireWithZeroSecondsMakesKeyUnavailable =
    expire_with_zero_seconds_makes_key_unavailable_run ≡ ok (integer (pos 1), null)

expire_with_zero_seconds_makes_key_unavailable : ExpireWithZeroSecondsMakesKeyUnavailable
unfolding with_hasher insert get get_bucket_index bytes_eq bytes_key apply_read apply_write
    apply_getall is_expired as_i64 KeyStore.get_mut KeyStore.del KeyStore.iter apply_mset
    set_entries apply_mget get_responses apply_get value_response fresh pair_responses
    apply_expire_at expire_response eject_if_expired is_stale apply_ttl ttl_response
expire_with_zero_seconds_makes_key_unavailable = refl

abbrev getall_returns_nested_key_value_pairs_run : Run Response
getall_returns_nested_key_value_pairs_run = do
  store ←
      inserts ((codes "k1", new_value (codes "v1")) ∷ (codes "k2", new_value (codes "v2")) ∷ [])
        with_hasher
  apply_read now getall store

abbrev Contains : Response → Responses → Type 0
Contains r nil = ⊥
Contains r (cons r' rs) = (r ≡ r') ⊎ Contains r rs

abbrev pair : Bytes → Bytes → Response
pair key value = array (cons (cstr key) (cons (cstr value) nil))

abbrev GetallReturnsNestedKeyValuePairs : Type 0
GetallReturnsNestedKeyValuePairs =
    (pairs : Responses) × (getall_returns_nested_key_value_pairs_run ≡ ok (array pairs))
    × (count pairs ≡ 2)
    × Contains (pair (codes "k1") (codes "v1")) pairs
    × Contains (pair (codes "k2") (codes "v2")) pairs

getall_returns_nested_key_value_pairs : GetallReturnsNestedKeyValuePairs
unfolding with_hasher insert get get_bucket_index bytes_eq bytes_key apply_read apply_write
    apply_getall is_expired as_i64 KeyStore.get_mut KeyStore.del KeyStore.iter apply_mset
    set_entries apply_mget get_responses apply_get value_response fresh pair_responses
    apply_expire_at expire_response eject_if_expired is_stale apply_ttl ttl_response
getall_returns_nested_key_value_pairs = (_, refl, refl, inl refl, inr (inl refl))
