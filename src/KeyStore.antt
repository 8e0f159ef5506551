-- ===== src/KeyStore.antt =====
-- key_store.rs: a Robin Hood hash table with linear probing and backward-shift deletion.
-- The loops of the source run on fuel, the number of buckets; `spin` says that it was too little.
-- The hasher is a parameter. `usize` is 64 bits wide.
pub mod Slot
pub mod Invariant
mod Gap
pub mod Iterate
pub mod Lookup
pub mod View
mod Place
pub mod Insert
mod Replace
mod Shift
mod Remove
pub mod Methods
pub mod Delete
pub mod Drain
pub mod Resize
pub mod Put
use Prim.Native.Nat.{bit_and}
use simple_kv.Prelude.{
  ℕ, zero, suc, ◌+◌, ◌-◌, ◌*◌, ◌%◌, ◌^◌, ◌<◌, ◌≡◌, ◌↔◌, Bool, true, false, ◌&&◌, Option, none, some,
  List, [], ◌∷◌, ltb, leb, ◌==◌, if◌then◌else◌, length, get_elem?, set, replicate, Run, ok, panic,
  spin, ◌>>=◌,
}

-- What the source asks of keys, `K: Eq + Hash` and `S: BuildHasher`: a lawful equality, and a
-- 64-bit hash that is a function of the key.
pub record HashKey {ℓ} (K : Type ℓ) : Type ℓ where
  pub eq : K → K → Bool
  pub eq_iff : (a b : K) → (eq a b ≡ true) ↔ (a ≡ b)
  pub hash_one : K → ℕ
  pub hash_one_lt : (a : K) → hash_one a < 2 ^ 64

pub record Entry {ℓ} (K V : Type ℓ) : Type ℓ where
  pub key : K
  pub value : V
  pub psl : ℕ
  pub hash : ℕ

abbrev pub Buckets {ℓ} : Type ℓ → Type ℓ → Type ℓ
Buckets K V = List (Option (Entry K V))

pub record KeyStore {ℓ} (K V : Type ℓ) : Type ℓ where
  pub len : ℕ
  pub buckets : Buckets K V

abbrev pub start_capacity : ℕ
start_capacity = 16

unfoldable pub get_bucket_index : ℕ → ℕ → ℕ → ℕ
get_bucket_index capacity hash psl = bit_and ((hash + psl) % 2 ^ 64) (capacity - 1)

module _ {ℓ} {K V : Type ℓ} where
  abbrev pub new_entry : K → V → ℕ → Entry K V
  new_entry key value hash = record { key = key; value = value; psl = 0; hash = hash }

  unfoldable pub with_hasher : KeyStore K V
  with_hasher = record { len = 0; buckets = replicate start_capacity none }

  -- `self.buckets.iter().flatten()`
  unfoldable pub entries : Buckets K V → List (Entry K V)
  entries [] = []
  entries (none ∷ bs) = entries bs
  entries (some e ∷ bs) = e ∷ entries bs

  unfoldable pub pairs : List (Entry K V) → List (K × V)
  pairs [] = []
  pairs (e ∷ es) = (e.key, e.value) ∷ pairs es

  unfoldable pub iter : KeyStore K V → List (K × V)
  unfolding entries pairs
  iter ks = pairs (entries ks.buckets)

  -- `len as f32 / capacity as f32 >= 0.75`; below 2 ^ 24 entries the `f32` division is exact
  unfoldable pub should_resize : KeyStore K V → Bool
  should_resize ks = leb (3 * length ks.buckets) (4 * ks.len)

  abbrev pub bump : Entry K V → Entry K V
  bump e = record e { psl = e.psl + 1 }

  -- one round of the loop of `insert_entry` in an occupied bucket: the swap if `e` is richer
  abbrev pub rob : Buckets K V → ℕ → Entry K V → Entry K V → Buckets K V × Entry K V
  rob bs index e entry = if ltb e.psl entry.psl then (set bs index (some entry), e) else (bs, entry)

  unfoldable pub place : ℕ → Buckets K V → Entry K V → Run (Buckets K V)
  place zero bs entry = spin
  place (suc fuel) bs entry =
      let index = get_bucket_index (length bs) entry.hash entry.psl in
      elim (get_elem? bs index) [
        | none ↦ panic
        | some none ↦ ok (set bs index (some entry))
        | some (some e) ↦ let next = rob bs index e entry in place fuel next.0 (bump next.1)
      ]

  unfoldable pub insert_entry : Buckets K V → Entry K V → Run (Buckets K V)
  unfolding place
  insert_entry bs entry = place (length bs) bs (record entry { psl = 0 })

  unfoldable pub insert_all : List (Entry K V) → Buckets K V → Run (Buckets K V)
  unfolding insert_entry
  insert_all [] bs = ok bs
  insert_all (e ∷ es) bs = do bs' ← insert_entry bs e; insert_all es bs'

  unfoldable pub resize : KeyStore K V → Run (KeyStore K V)
  unfolding insert_all entries
  resize ks = do
    bs ← insert_all (entries ks.buckets) (replicate (length ks.buckets * 2) none)
    ok (record ks { buckets = bs })

  -- the inner loop of `del`: `idx` is the hole that moves on
  unfoldable pub shift_back : ℕ → Buckets K V → ℕ → Run (Buckets K V)
  shift_back zero bs idx = spin
  shift_back (suc fuel) bs idx =
      let next = bit_and (idx + 1) (length bs - 1) in
      elim (get_elem? bs next) [
        | none ↦ panic
        | some none ↦ ok bs
        | some (some e) ↦ elim (ltb 0 e.psl) [
          | true ↦
              shift_back fuel (set (set bs idx (some (record e { psl = e.psl - 1 }))) next none)
                next
          | false ↦ ok bs
        ]
      ]

  abbrev pub value_at : Buckets K V → ℕ → Run (Option V)
  value_at bs index = elim (get_elem? bs index) [
    | none ↦ panic
    | some none ↦ ok none
    | some (some e) ↦ ok (some e.value)
  ]

  abbrev pub update_at : (V → V) → KeyStore K V → ℕ → Run (Bool × KeyStore K V)
  update_at f ks index = elim (get_elem? ks.buckets index) [
    | none ↦ panic
    | some none ↦ ok (false, ks)
    | some (some e) ↦
        ok (
          true,
          record ks { buckets = set ks.buckets index (some (record e { value = f e.value })) },
        )
  ]

  -- what `del` does in the bucket that its search found
  unfoldable pub remove_at : KeyStore K V → ℕ → Run (Option V × KeyStore K V)
  unfolding shift_back
  remove_at ks index = elim (get_elem? ks.buckets index) [
    | none ↦ panic
    | some none ↦ panic
    | some (some e) ↦ do
      bs ← shift_back (length ks.buckets) (set ks.buckets index none) index
      ok (some e.value, record { len = ks.len - 1; buckets = bs })
  ]

  -- the end of `insert`, when the entry has reached an empty bucket
  unfoldable pub grow : KeyStore K V → Run (KeyStore K V)
  unfolding should_resize resize
  grow ks = elim (should_resize ks) [ true ↦ resize ks | false ↦ ok ks ]

module _ {ℓ} {K V : Type ℓ} ⦃h : HashKey K⦄ where
  -- the loop of `index_of`, and the search of `del`
  unfoldable pub probe : ℕ → Buckets K V → K → ℕ → ℕ → Run (Option ℕ)
  probe zero bs key hash psl = spin
  probe (suc fuel) bs key hash psl =
      let index = get_bucket_index (length bs) hash psl in
      elim (get_elem? bs index) [
        | none ↦ panic
        | some none ↦ ok none
        | some (some e) ↦ elim (ltb e.psl psl) [
          | true ↦ ok none
          | false ↦ elim (e.hash == hash && h.eq e.key key) [
            | true ↦ ok (some index)
            | false ↦ probe fuel bs key hash (psl + 1)
          ]
        ]
      ]

  unfoldable pub index_of : KeyStore K V → K → Run (Option ℕ)
  unfolding probe
  index_of ks key = probe (length ks.buckets) ks.buckets key (h.hash_one key) 0

  unfoldable pub get : KeyStore K V → K → Run (Option V)
  unfolding index_of
  get ks key = do
    found ← index_of ks key
    elim found [ none ↦ ok none | some index ↦ value_at ks.buckets index ]

  -- `get_mut`, with the write `f` that the caller makes through the reference it returns
  unfoldable pub get_mut : (V → V) → KeyStore K V → K → Run (Bool × KeyStore K V)
  unfolding index_of
  get_mut f ks key = do
    found ← index_of ks key
    elim found [ none ↦ ok (false, ks) | some index ↦ update_at f ks index ]

  unfoldable pub del : KeyStore K V → K → Run (Option V × KeyStore K V)
  unfolding index_of remove_at
  del ks key = do
    found ← index_of ks key
    elim found [ none ↦ ok (none, ks) | some index ↦ remove_at ks index ]

  -- the loop of `insert`: the old value under the key, or the buckets with the new entry
  unfoldable pub insert_loop : ℕ → Buckets K V → Entry K V → Run (Option V × Buckets K V)
  insert_loop zero bs entry = spin
  insert_loop (suc fuel) bs entry =
      let index = get_bucket_index (length bs) entry.hash entry.psl in
      elim (get_elem? bs index) [
        | none ↦ panic
        | some none ↦ ok (none, set bs index (some entry))
        | some (some e) ↦ elim (e.hash == entry.hash && h.eq e.key entry.key) [
          | true ↦ ok (some e.value, set bs index (some (record e { value = entry.value })))
          | false ↦ let next = rob bs index e entry in insert_loop fuel next.0 (bump next.1)
        ]
      ]

  unfoldable pub insert : KeyStore K V → K → V → Run (Option V × KeyStore K V)
  unfolding insert_loop grow
  insert ks key value = do
    (old, bs) ← insert_loop (length ks.buckets) ks.buckets (new_entry key value (h.hash_one key))
    elim old [
      | some v ↦ ok (some v, record ks { buckets = bs })
      | none ↦ do ks' ← grow (record { len = ks.len + 1; buckets = bs }); ok (none, ks')
    ]
