-- ===== src/KeyStore/Invariant.antt =====
-- The invariant of the buckets of key_store.rs.
use simple_kv.Prelude.{
  ℕ, suc, ◌+◌, ◌≤◌, ◌<◌, ◌≡◌, ◌≢◌, ◌⊎◌, Option, none, some, length, get_elem?, set, get_elem?-set,
  get_elem?-lt, ◌==◌, if◌then◌else◌, arith,
}
use simple_kv.KeyStore.{Entry, Buckets, HashKey, get_bucket_index}
use simple_kv.KeyStore.Slot.{IsCapacity, next}

module _ {K V : Type 0} where
  -- The entry `e` stands in bucket `i`.
  abbrev pub In : Buckets K V → ℕ → Entry K V → Type 0
  In bs i e = get_elem? bs i ≡ some (some e)

  -- How deep a bucket's entry sits in its probe sequence: 0 for none, else `psl + 1`.
  abbrev pub depth_of : Option (Option (Entry K V)) → ℕ
  depth_of none = 0
  depth_of (some none) = 0
  depth_of (some (some e)) = suc e.psl

  abbrev pub depth : Buckets K V → ℕ → ℕ
  depth bs i = depth_of (get_elem? bs i)

  -- Each entry stands at its `psl` from the bucket of its hash.
  abbrev pub IsHome : Buckets K V → Type 0
  IsHome bs = (i : ℕ) (e : Entry K V) → In bs i e → get_bucket_index (length bs) e.hash e.psl ≡ i

  -- No entry is deeper by more than one than the bucket before it.
  abbrev pub IsChained : Buckets K V → Type 0
  IsChained bs = (i : ℕ) → i < length bs → depth bs (next (length bs) i) ≤ depth bs i + 1

  -- A key stands in one bucket at most.
  abbrev pub IsDistinct : Buckets K V → Type 0
  IsDistinct bs = (i j : ℕ) (e f : Entry K V) → In bs i e → In bs j f → e.key ≡ f.key → i ≡ j

  pub depth-In : (bs : Buckets K V) (i : ℕ) (e : Entry K V) → In bs i e → depth bs i ≡ suc e.psl
  depth-In bs i e h = rw h

  pub In-unique : (bs : Buckets K V) (i : ℕ) (e f : Entry K V) → In bs i e → In bs i f → e ≡ f
  In-unique bs i e f p q = ground arith

  pub In-lt : (bs : Buckets K V) (i : ℕ) (e : Entry K V) → In bs i e → i < length bs
  In-lt bs i e h = get_elem?-lt bs i (some e) h

  -- What stands in a bucket after a write.
  pub In-set :
      (bs : Buckets K V) (i j : ℕ) (x f : Entry K V)
      → i < length bs
      → In (set bs i (some x)) j f
      → ((i ≡ j) × (x ≡ f)) ⊎ ((i ≢ j) × In bs j f)
  In-set bs i j x f lt h = ground (arith, get_elem?-set bs i j (some x) lt)

  pub In-set-none :
      (bs : Buckets K V) (i j : ℕ) (f : Entry K V)
      → i < length bs
      → In (set bs i none) j f
      → (i ≢ j) × In bs j f
  In-set-none bs i j f lt h = ground (arith, get_elem?-set bs i j none lt)

  pub set-In_self :
      (bs : Buckets K V) (i : ℕ) (x : Entry K V) → i < length bs → In (set bs i (some x)) i x
  set-In_self bs i x lt = ground (arith, get_elem?-set bs i i (some x) lt)

  pub set-In_ne :
      (bs : Buckets K V) (i j : ℕ) (o : Option (Entry K V)) (f : Entry K V)
      → i < length bs
      → i ≢ j
      → In bs j f
      → In (set bs i o) j f
  set-In_ne bs i j o f lt ne h = ground (arith, get_elem?-set bs i j o lt)

  pub depth-set :
      (bs : Buckets K V) (i j : ℕ) (o : Option (Entry K V))
      → i < length bs
      → depth (set bs i o) j ≡ (if i == j then depth_of (some o) else depth bs j)
  depth-set bs i j o lt = rw (get_elem?-set bs i j o lt) (ground arith)

module _ {K V : Type 0} ⦃h : HashKey K⦄ where
  abbrev pub IsHashed : Buckets K V → Type 0
  IsHashed bs = (i : ℕ) (e : Entry K V) → In bs i e → e.hash ≡ h.hash_one e.key

  -- The invariant of the buckets, between any two operations.
  pub record IsRobinHood (bs : Buckets K V) : Type 0 where
    pub capacity : IsCapacity (length bs)
    pub home : IsHome bs
    pub chained : IsChained bs
    pub distinct : IsDistinct bs
    pub hashed : IsHashed bs
