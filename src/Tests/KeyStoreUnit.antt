-- ===== src/Tests/KeyStoreUnit.antt =====
-- The unit tests of key_store.rs: the operations of each test on a hasher, and what they give.
use simple_kv.Prelude.{
  ℕ, ◌%◌, ◌^◌, ◌≡◌, refl, true, false, Bool, Option, none, some, List, [], ◌∷◌, ◌==◌, ==_iff,
  get_elem?, Run, ok, arith, ◌>>=◌,
}
use simple_kv.Util.{Bytes, codes, bytes_eq, bytes_eq_iff}
use simple_kv.KeyStore.{KeyStore, Entry, HashKey, with_hasher, iter, insert, get, get_mut, del}
use simple_kv.KeyStore

-- `ConstantHasher`, `WraparoundHasher` and `IdentityHasher`.
abbrev constant_hasher : HashKey Bytes
constant_hasher = record {
  eq = bytes_eq;
  eq_iff = bytes_eq_iff;
  hash_one = λ a. 0;
  hash_one_lt = λ a. omega arith;
}

abbrev wraparound_hasher : HashKey Bytes
wraparound_hasher = record {
  eq = bytes_eq;
  eq_iff = bytes_eq_iff;
  hash_one = λ a. 14;
  hash_one_lt = λ a. omega arith;
}

abbrev identity_hasher : HashKey ℕ
identity_hasher = record {
  eq = λ a b. a == b;
  eq_iff = ==_iff;
  hash_one = λ a. a % 2 ^ 64;
  hash_one_lt = λ a. omega arith;
}

-- The key and the probe length of a bucket.
abbrev at_bucket : {K V : Type 0} → KeyStore K V → ℕ → Option (K × ℕ)
at_bucket store index = elim (get_elem? store.buckets index) [
  | none ↦ none
  | some none ↦ none
  | some (some e) ↦ some (e.key, e.psl)
]

module _ {K V : Type 0} ⦃h : HashKey K⦄ where
  abbrev inserts : List (K × V) → KeyStore K V → Run (KeyStore K V)
  inserts [] store = ok store
  inserts ((key, value) ∷ rest) store = do
    (old, store') ← insert store key value
    inserts rest store'

abbrev three : List (Bytes × ℕ)
three = (codes "first", 1) ∷ (codes "middle", 2) ∷ (codes "last", 3) ∷ []

module _ ⦃h : HashKey Bytes⦄ where
  abbrev insert_makes_value_retrievable_run : Run (Option Bytes × Option Bytes × ℕ)
  insert_makes_value_retrievable_run = do
    (old, store) ← insert with_hasher (codes "key") (codes "value")
    found ← get store (codes "key")
    ok (old, found, store.len)

abbrev InsertMakesValueRetrievable : Type 0
InsertMakesValueRetrievable =
    insert_makes_value_retrievable_run ⦃h = wraparound_hasher⦄ ≡ ok (none, some (codes "value"), 1)

insert_makes_value_retrievable : InsertMakesValueRetrievable
unfolding with_hasher insert get get_mut del bytes_eq KeyStore.get_bucket_index
insert_makes_value_retrievable = refl

module _ ⦃h : HashKey Bytes⦄ where
  abbrev insert_replaces_existing_value_run : Run (Option Bytes × Option Bytes × Option Bytes × ℕ)
  insert_replaces_existing_value_run = do
    (a, store) ← insert with_hasher (codes "key") (codes "old")
    (b, store₁) ← insert store (codes "key") (codes "new")
    found ← get store₁ (codes "key")
    ok (a, b, found, store₁.len)

abbrev InsertReplacesExistingValue : Type 0
InsertReplacesExistingValue =
    insert_replaces_existing_value_run ⦃h = wraparound_hasher⦄
    ≡ ok (none, some (codes "old"), some (codes "new"), 1)

insert_replaces_existing_value : InsertReplacesExistingValue
unfolding with_hasher insert get get_mut del bytes_eq KeyStore.get_bucket_index
insert_replaces_existing_value = refl

module _ ⦃h : HashKey Bytes⦄ where
  abbrev get_returns_none_for_missing_key_run : Run (Option Bytes)
  get_returns_none_for_missing_key_run = get {V = Bytes} with_hasher (codes "missing")

abbrev GetReturnsNoneForMissingKey : Type 0
GetReturnsNoneForMissingKey = get_returns_none_for_missing_key_run ⦃h = wraparound_hasher⦄ ≡ ok none

get_returns_none_for_missing_key : GetReturnsNoneForMissingKey
unfolding with_hasher insert get get_mut del bytes_eq KeyStore.get_bucket_index
get_returns_none_for_missing_key = refl

module _ ⦃h : HashKey Bytes⦄ where
  abbrev get_mut_updates_existing_value_run : Run (Bool × Option ℕ × Bool)
  get_mut_updates_existing_value_run = do
    (old, store) ← insert with_hasher (codes "key") 1
    (there, store₁) ← get_mut (λ v. 2) store (codes "key")
    found ← get store₁ (codes "key")
    (missing, store₂) ← get_mut (λ v. v) store₁ (codes "missing")
    ok (there, found, missing)

abbrev GetMutUpdatesExistingValue : Type 0
GetMutUpdatesExistingValue =
    get_mut_updates_existing_value_run ⦃h = wraparound_hasher⦄ ≡ ok (true, some 2, false)

get_mut_updates_existing_value : GetMutUpdatesExistingValue
unfolding with_hasher insert get get_mut del bytes_eq KeyStore.get_bucket_index
get_mut_updates_existing_value = refl

module _ ⦃h : HashKey Bytes⦄ where
  abbrev del_removes_value_and_preserves_probe_cluster_run :
      Run (Option ℕ × Option ℕ × Option ℕ × Option ℕ × Option ℕ × ℕ)
  del_removes_value_and_preserves_probe_cluster_run = do
    store ← inserts three with_hasher
    (old, store₁) ← del store (codes "middle")
    a ← get store₁ (codes "middle")
    b ← get store₁ (codes "first")
    c ← get store₁ (codes "last")
    (again, store₂) ← del store₁ (codes "middle")
    ok (old, a, b, c, again, store₂.len)

abbrev DelRemovesValueAndPreservesProbeCluster : Type 0
DelRemovesValueAndPreservesProbeCluster =
    del_removes_value_and_preserves_probe_cluster_run ⦃h = constant_hasher⦄
    ≡ ok (some 2, none, some 1, some 3, none, 2)

del_removes_value_and_preserves_probe_cluster : DelRemovesValueAndPreservesProbeCluster
unfolding with_hasher insert get get_mut del bytes_eq KeyStore.get_bucket_index
del_removes_value_and_preserves_probe_cluster = refl

module _ ⦃h : HashKey Bytes⦄ where
  abbrev del_removes_head_of_probe_cluster_run :
      Run (Option ℕ × Option ℕ × Option ℕ × Option ℕ × Option (Bytes × ℕ) × Option (Bytes × ℕ))
  del_removes_head_of_probe_cluster_run = do
    store ← inserts three with_hasher
    (old, store₁) ← del store (codes "first")
    a ← get store₁ (codes "first")
    b ← get store₁ (codes "middle")
    c ← get store₁ (codes "last")
    ok (old, a, b, c, at_bucket store₁ 0, at_bucket store₁ 1)

abbrev DelRemovesHeadOfProbeCluster : Type 0
DelRemovesHeadOfProbeCluster =
    del_removes_head_of_probe_cluster_run ⦃h = constant_hasher⦄
    ≡ ok (some 1, none, some 2, some 3, some ((codes "middle"), 0), some ((codes "last"), 1))

del_removes_head_of_probe_cluster : DelRemovesHeadOfProbeCluster
unfolding with_hasher insert get get_mut del bytes_eq KeyStore.get_bucket_index
del_removes_head_of_probe_cluster = refl

module _ ⦃h : HashKey Bytes⦄ where
  abbrev del_removes_tail_of_probe_cluster_run :
      Run (Option ℕ × Option ℕ × Option ℕ × Option ℕ × Option (Bytes × ℕ))
  del_removes_tail_of_probe_cluster_run = do
    store ← inserts three with_hasher
    (old, store₁) ← del store (codes "last")
    a ← get store₁ (codes "first")
    b ← get store₁ (codes "middle")
    c ← get store₁ (codes "last")
    ok (old, a, b, c, at_bucket store₁ 2)

abbrev DelRemovesTailOfProbeCluster : Type 0
DelRemovesTailOfProbeCluster =
    del_removes_tail_of_probe_cluster_run ⦃h = constant_hasher⦄
    ≡ ok (some 3, some 1, some 2, none, none)

del_removes_tail_of_probe_cluster : DelRemovesTailOfProbeCluster
unfolding with_hasher insert get get_mut del bytes_eq KeyStore.get_bucket_index
del_removes_tail_of_probe_cluster = refl

module _ ⦃h : HashKey ℕ⦄ where
  abbrev deletion_stops_at_entry_in_its_ideal_bucket_run :
      Run (Option Bytes × Option (ℕ × ℕ) × Option (ℕ × ℕ) × Option Bytes × Option Bytes)
  deletion_stops_at_entry_in_its_ideal_bucket_run = do
    store ←
        inserts ((0, (codes "before")) ∷ (1, (codes "start")) ∷ (17, (codes "displaced")) ∷ [])
          with_hasher
    (old, store₁) ← del store 0
    a ← get store₁ 1
    b ← get store₁ 17
    ok (old, at_bucket store₁ 0, at_bucket store₁ 1, a, b)

abbrev DeletionStopsAtEntryInItsIdealBucket : Type 0
DeletionStopsAtEntryInItsIdealBucket =
    deletion_stops_at_entry_in_its_ideal_bucket_run ⦃h = identity_hasher⦄
    ≡ ok (some (codes "before"), none, some (1, 0), some (codes "start"), some (codes "displaced"))

deletion_stops_at_entry_in_its_ideal_bucket : DeletionStopsAtEntryInItsIdealBucket
unfolding with_hasher insert get get_mut del bytes_eq KeyStore.get_bucket_index
deletion_stops_at_entry_in_its_ideal_bucket = refl

module _ ⦃h : HashKey Bytes⦄ where
  abbrev insertion_reuses_space_after_deletion_run :
      Run (ℕ × Option ℕ × Option ℕ × Option ℕ × Option ℕ)
  insertion_reuses_space_after_deletion_run = do
    store ←
        inserts (((codes "first"), 1) ∷ ((codes "removed"), 2) ∷ ((codes "last"), 3) ∷ [])
          with_hasher
    (old, store₁) ← del store (codes "removed")
    (none_there, store₂) ← insert store₁ (codes "new") 4
    a ← get store₂ (codes "first")
    b ← get store₂ (codes "removed")
    c ← get store₂ (codes "last")
    d ← get store₂ (codes "new")
    ok (store₂.len, a, b, c, d)

abbrev InsertionReusesSpaceAfterDeletion : Type 0
InsertionReusesSpaceAfterDeletion =
    insertion_reuses_space_after_deletion_run ⦃h = constant_hasher⦄
    ≡ ok (3, some 1, none, some 3, some 4)

insertion_reuses_space_after_deletion : InsertionReusesSpaceAfterDeletion
unfolding with_hasher insert get get_mut del bytes_eq KeyStore.get_bucket_index
insertion_reuses_space_after_deletion = refl

module _ ⦃h : HashKey ℕ⦄ where
  abbrev insertion_uses_robin_hood_swapping_for_mixed_hashes_run : Run (
      Option (ℕ × ℕ) × Option (ℕ × ℕ) × Option (ℕ × ℕ) × Option Bytes × Option Bytes × Option Bytes)
  insertion_uses_robin_hood_swapping_for_mixed_hashes_run = do
    store ←
        inserts ((1, (codes "first")) ∷ (2, (codes "second")) ∷ (17, (codes "displaced")) ∷ [])
          with_hasher
    a ← get store 1
    b ← get store 2
    c ← get store 17
    ok (at_bucket store 1, at_bucket store 2, at_bucket store 3, a, b, c)

abbrev InsertionUsesRobinHoodSwappingForMixedHashes : Type 0
InsertionUsesRobinHoodSwappingForMixedHashes =
    insertion_uses_robin_hood_swapping_for_mixed_hashes_run ⦃h = identity_hasher⦄
    ≡ ok (
      some (1, 0),
      some (17, 1),
      some (2, 1),
      some (codes "first"),
      some (codes "second"),
      some (codes "displaced"),
    )

insertion_uses_robin_hood_swapping_for_mixed_hashes : InsertionUsesRobinHoodSwappingForMixedHashes
unfolding with_hasher insert get get_mut del bytes_eq KeyStore.get_bucket_index
insertion_uses_robin_hood_swapping_for_mixed_hashes = refl

module _ ⦃h : HashKey Bytes⦄ where
  abbrev deletion_preserves_a_cluster_that_wraps_around_run :
      Run (Option (Bytes × ℕ) × Option ℕ × Option ℕ × Option ℕ × Option ℕ × Option (Bytes × ℕ))
  deletion_preserves_a_cluster_that_wraps_around_run = do
    store ← inserts three with_hasher
    (old, store₁) ← del store (codes "middle")
    a ← get store₁ (codes "first")
    b ← get store₁ (codes "middle")
    c ← get store₁ (codes "last")
    ok (at_bucket store 0, old, a, b, c, at_bucket store₁ 0)

abbrev DeletionPreservesAClusterThatWrapsAround : Type 0
DeletionPreservesAClusterThatWrapsAround =
    deletion_preserves_a_cluster_that_wraps_around_run ⦃h = wraparound_hasher⦄
    ≡ ok (some ((codes "last"), 2), some 2, some 1, none, some 3, none)

deletion_preserves_a_cluster_that_wraps_around : DeletionPreservesAClusterThatWrapsAround
unfolding with_hasher insert get get_mut del bytes_eq KeyStore.get_bucket_index
deletion_preserves_a_cluster_that_wraps_around = refl
