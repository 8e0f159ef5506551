-- ===== src/Server/Expiry.antt =====
-- What `remove_expired` of server.rs leaves of the map.
use simple_kv.Prelude.{
  ℕ, ◌≡◌, ◌≢◌, ◌⊎◌, ◌∙◌, inl, inr, refl, sym, ap, false, Bool-cases, none, some, Option-cases, List,
  [], ◌∷◌, length, All, arith, Returns,
}
use simple_kv.Util.{Bytes}
use simple_kv.KeyStore.{HashKey, Entry, entries, pairs, iter}
use simple_kv.KeyStore.View.{update, update_self, update_ne, key_cases}
use simple_kv.KeyStore.Drain.{All-entries, In-entries}
use simple_kv.KeyStore.Methods.{Models, Models_congr, Keeps}
use simple_kv.KeyStore.Delete.{del_lem}
use simple_kv.Command.{StoredValue, is_expired}
use simple_kv.Command.Apply.{Store, fresh}
use simple_kv.Command.Effects.{fresh-is_expired, fresh-alive}
use simple_kv.Command.Effects.{Keyspace, removed, Keeps-trans}
use simple_kv.Server.{ServerState, expired_keys, del_all, remove_expired}

expired_keys-fresh :
    (now : ℕ) (f : Keyspace) (es : List (Entry Bytes StoredValue))
    → All (λ e. f e.key ≡ some e.value) es
    → All (λ j. fresh now (f j) ≡ none) (expired_keys now (pairs es))
unfolding expired_keys pairs
expired_keys-fresh now f [] a = tt
expired_keys-fresh now f (e ∷ es) (p, a) = elim (Bool-cases (is_expired now e.value)) [
  | inl x ↦
      rw (x, expired_keys)
        (ap (fresh now) p ∙ fresh-is_expired now e.value x, expired_keys-fresh now f es a)
  | inr x ↦ rw (x, expired_keys) (expired_keys-fresh now f es a)
]

expired_keys-absent :
    (now : ℕ) (k : Bytes) (es : List (Entry Bytes StoredValue))
    → All (λ j. j ≢ k) (expired_keys now (pairs es))
    → All (λ e. e.key ≡ k → is_expired now e.value ≡ false) es
unfolding expired_keys pairs
expired_keys-absent now k [] a = tt
expired_keys-absent now k (e ∷ es) a = elim (Bool-cases (is_expired now e.value)) [
  | inl x ↦
      let (ne, rest) = rw (x, expired_keys) at a in
      ((λ q. absurd (ne q)), expired_keys-absent now k es rest)
  | inr x ↦ ((λ q. x), expired_keys-absent now k es (rw (x, expired_keys) at a))
]

module _ ⦃h : HashKey Bytes⦄ where
  del_all_lem :
      (keys : List Bytes) {f : Keyspace} {ks : Store}
      → Models f ks
      → Returns (del_all keys ks) λ r. Models (removed keys f) r × Keeps ks r
  unfolding del_all removed
  del_all_lem [] {f} {ks} m = (ks, refl, (m, (omega arith, refl)))
  del_all_lem (key ∷ keys) {f} {ks} m =
      let (r, run, (a, b, kept)) = del_lem m key in
      let (q, run', (c, kept')) = del_all_lem keys b in
      (q, rw (run, run'), (c, Keeps-trans ks r.1 q kept kept'))

  removed-cases :
      (keys : List Bytes) (f : Keyspace) (k : Bytes)
      → (removed keys f k ≡ none) ⊎ (All (λ j. j ≢ k) keys × (removed keys f k ≡ f k))
  unfolding removed
  removed-cases [] f k = inr (tt, refl)
  removed-cases (j ∷ keys) f k = elim (removed-cases keys (update f j none) k) [
    | inl p ↦ inl p
    | inr (a, p) ↦ elim (key_cases j k) [
      | inl e ↦ inl (p ∙ ap (update f j none) (sym e) ∙ update_self f j none)
      | inr ne ↦ inr ((ne, a), p ∙ update_ne f j k none ne)
    ]
  ]

  fresh-update :
      (now : ℕ) (f : Keyspace) (j k : Bytes)
      → fresh now (f j) ≡ none
      → fresh now (update f j none k) ≡ fresh now (f k)
  unfolding fresh
  fresh-update now f j k p = elim (key_cases j k) [
    | inl e ↦
        ap (λ t. fresh now (update f j none t)) (sym e)
        ∙ ap (fresh now) (update_self f j none)
        ∙ sym p
        ∙ ap (λ t. fresh now (f t)) e
    | inr ne ↦ ap (fresh now) (update_ne f j k none ne)
  ]

  All_fresh-update :
      (now : ℕ) (f : Keyspace) (j : Bytes) (keys : List Bytes)
      → fresh now (f j) ≡ none
      → All (λ i. fresh now (f i) ≡ none) keys
      → All (λ i. fresh now (update f j none i) ≡ none) keys
  All_fresh-update now f j [] p a = tt
  All_fresh-update now f j (i ∷ keys) p (q, a) =
      (fresh-update now f j i p ∙ q, All_fresh-update now f j keys p a)

  fresh-removed :
      (now : ℕ) (keys : List Bytes) (f : Keyspace) (k : Bytes)
      → All (λ j. fresh now (f j) ≡ none) keys
      → fresh now (removed keys f k) ≡ fresh now (f k)
  unfolding removed
  fresh-removed now [] f k a = refl
  fresh-removed now (j ∷ keys) f k (p, a) =
      fresh-removed now keys (update f j none) k (All_fresh-update now f j keys p a)
      ∙ fresh-update now f j k p

  module _ {f : Keyspace} {ks : Store} (m : Models f ks) (now : ℕ) where
    alive : (k : Bytes) → All (λ j. j ≢ k) (expired_keys now (iter ks)) → f k ≡ fresh now (f k)
    unfolding iter fresh
    alive k a = elim (Option-cases (f k)) [
      | inl p ↦ p ∙ ap (fresh now) (sym p)
      | inr (v, p) ↦
          let (i, e, q, same, value) = m.holds.complete k v p in
          let x =
            In-entries (λ e. e.key ≡ k → is_expired now e.value ≡ false) ks.buckets i e
              (expired_keys-absent now k (entries ks.buckets) a) q same in
          let y : is_expired now v ≡ false = ap (is_expired now) (sym value) ∙ x in
          p ∙ sym (fresh-alive now v y) ∙ ap (fresh now) (sym p)
    ]

    stale : All (λ j. fresh now (f j) ≡ none) (expired_keys now (iter ks))
    unfolding iter
    stale =
        expired_keys-fresh now f (entries ks.buckets)
          (All-entries (λ e. f e.key ≡ some e.value) ks.buckets m.holds.sound)

    left : (k : Bytes) → removed (expired_keys now (iter ks)) f k ≡ fresh now (f k)
    unfolding fresh
    left k = elim (removed-cases (expired_keys now (iter ks)) f k) [
      | inl p ↦
          p ∙ ap (fresh now) (sym p) ∙ fresh-removed now (expired_keys now (iter ks)) f k stale
      | inr (a, p) ↦ p ∙ alive k a
    ]

  -- On a server whose store is in order, `remove_expired` ends without a panic and leaves the log
  -- alone; the store is in order again, the map has lost exactly the values that are expired, and
  -- there is no entry more and the same number of buckets.
  pub remove_expired_lem :
      {f : Keyspace} (ss : ServerState)
      → Models f ss.key_store
      → (now : ℕ)
      → Returns (remove_expired now ss) λ r.
        (r.1.wal ≡ ss.wal)
        × Models (λ k. fresh now (f k)) r.1.key_store
        × Keeps ss.key_store r.1.key_store
  unfolding remove_expired
  remove_expired_lem {f} ss m now =
      let (ks, run, (a, kept)) = del_all_lem (expired_keys now (iter ss.key_store)) m in
      (
        (length (expired_keys now (iter ss.key_store)), record ss { key_store = ks }),
        rw run,
        (refl, Models_congr (λ k. fresh now (f k)) (left m now) a, kept),
      )
