-- ===== src/KeyStore/Place.antt =====
-- One round of the insertion loops of key_store.rs: what they keep while an entry is in hand.
use simple_kv.Prelude.{
  ℕ, suc, ◌+◌, ◌≤◌, ◌<◌, ◌==◌, ◌≡◌, ◌≢◌, ◌⊎◌, ◌∙◌, inl, inr, sym, ap, Option, some, length,
  length-set, set, if◌then◌else◌, arith, subst,
}
use simple_kv.KeyStore.{Entry, Buckets, HashKey, get_bucket_index, bump}
use simple_kv.KeyStore.Slot.{next, next-injective, index-lt, index-next}
use simple_kv.KeyStore.Invariant.{In, depth, depth-In, depth-set, In-set, set-In_self, IsRobinHood}

-- The chain condition around a bucket `i` that is written at depth `p + 1`; `m` is next to `j`.
chain_step :
    (i j m p a b : ℕ)
    → (m ≡ i → p ≤ b)
    → a ≤ b + 1
    → (i ≡ j → b ≤ p)
    → (if i == m then suc p else a) ≤ (if i == j then suc p else b) + 1
chain_step i j m p a b f g k = ground arith

module _ {K V : Type 0} ⦃h : HashKey K⦄ where
  abbrev pub spot : Buckets K V → Entry K V → ℕ
  spot bs x = get_bucket_index (length bs) x.hash x.psl

  -- The entry `x` in hand may go into its bucket: its hash is right, its key is in no bucket, and
  -- the bucket before is deep enough.
  pub record IsInHand (bs : Buckets K V) (x : Entry K V) : Type 0 where
    pub hashed : x.hash ≡ h.hash_one x.key
    pub fresh : (i : ℕ) (e : Entry K V) → In bs i e → e.key ≢ x.key
    pub backed : (j : ℕ) → j < length bs → next (length bs) j ≡ spot bs x → x.psl ≤ depth bs j

  -- The pairs in the buckets and the pair in hand, together, are those of the map `f`.
  pub record Carries (f : K → Option V) (bs : Buckets K V) (x : Entry K V) : Type 0 where
    pub sound : (i : ℕ) (e : Entry K V) → In bs i e → f e.key ≡ some e.value
    pub in_hand : f x.key ≡ some x.value
    pub complete :
        (k : K) (v : V)
        → f k ≡ some v
        → ((x.key ≡ k) × (x.value ≡ v))
          ⊎ ((i : ℕ) × (e : Entry K V) × In bs i e × (e.key ≡ k) × (e.value ≡ v))

  module _ (bs : Buckets K V) (x : Entry K V) (r : IsRobinHood bs) (w : IsInHand bs x) where
    spot-lt : spot bs x < length bs
    spot-lt = index-lt r.capacity x.hash x.psl

    -- Writing the entry in hand keeps the invariant, if the bucket is empty or its entry is richer.
    pub write-IsRobinHood : depth bs (spot bs x) ≤ x.psl → IsRobinHood (set bs (spot bs x) (some x))
    write-IsRobinHood shallow =
        let i = spot bs x in
        let n = length-set bs i (some x) in
        record {
          capacity = rw n r.capacity;
          home = λ j e p. rw n (home j e (In-set bs i j x e spot-lt p));
          chained = λ j lt. rw n (chained j (rw n at lt));
          distinct = λ j k e f p q same.
              distinct j k e f same (In-set bs i j x e spot-lt p) (In-set bs i k x f spot-lt q);
          hashed = λ j e p. hashed j e (In-set bs i j x e spot-lt p);
        }
      where
        home :
            (j : ℕ) (e : Entry K V)
            → ((spot bs x ≡ j) × (x ≡ e)) ⊎ ((spot bs x ≢ j) × In bs j e)
            → get_bucket_index (length bs) e.hash e.psl ≡ j
        home j e (inl (p, q)) = rw (← q) p
        home j e (inr (p, q)) = r.home j e q

        chained :
            (j : ℕ)
            → j < length bs
            → depth (set bs (spot bs x) (some x)) (next (length bs) j)
              ≤ depth (set bs (spot bs x) (some x)) j + 1
        chained j lt =
            let i = spot bs x in
            rw
              (
                depth-set bs i (next (length bs) j) (some x) spot-lt,
                depth-set bs i j (some x) spot-lt,
              )
              (chain_step i j (next (length bs) j) x.psl (depth bs (next (length bs) j))
                (depth bs j) (w.backed j lt) (r.chained j lt)
                (λ e. subst (λ t. depth bs t ≤ x.psl) e shallow))

        distinct :
            (j k : ℕ) (e f : Entry K V)
            → e.key ≡ f.key
            → ((spot bs x ≡ j) × (x ≡ e)) ⊎ ((spot bs x ≢ j) × In bs j e)
            → ((spot bs x ≡ k) × (x ≡ f)) ⊎ ((spot bs x ≢ k) × In bs k f)
            → j ≡ k
        distinct j k e f same (inl (p, q)) (inl (p', q')) = sym p ∙ p'
        distinct j k e f same (inl (p, q)) (inr (p', q')) =
            absurd (w.fresh k f q' (sym same ∙ ap (λ (t : Entry K V). t.key) (sym q)))
        distinct j k e f same (inr (p, q)) (inl (p', q')) =
            absurd (w.fresh j e q (same ∙ ap (λ (t : Entry K V). t.key) (sym q')))
        distinct j k e f same (inr (p, q)) (inr (p', q')) = r.distinct j k e f q q' same

        hashed :
            (j : ℕ) (e : Entry K V)
            → ((spot bs x ≡ j) × (x ≡ e)) ⊎ ((spot bs x ≢ j) × In bs j e)
            → e.hash ≡ h.hash_one e.key
        hashed j e (inl (p, q)) = subst (λ (t : Entry K V). t.hash ≡ h.hash_one t.key) q w.hashed
        hashed j e (inr (p, q)) = r.hashed j e q

    -- With the swap of a richer entry, that entry is in hand for the next bucket.
    module _ (e : Entry K V) (p : In bs (spot bs x) e) where
      at_spot : get_bucket_index (length bs) e.hash e.psl ≡ spot bs x
      at_spot = r.home (spot bs x) e p

      pub swap-IsInHand : e.psl < x.psl → IsInHand (set bs (spot bs x) (some x)) (bump e)
      swap-IsInHand richer =
          let n = length-set bs (spot bs x) (some x) in
          record {
            hashed = r.hashed (spot bs x) e p;
            fresh = λ j f q same. fresh j f same (In-set bs (spot bs x) j x f spot-lt q);
            backed = λ j lt q. backed j (rw n at lt) (rw n at q);
          }
        where
          fresh :
              (j : ℕ) (f : Entry K V)
              → f.key ≡ e.key
              → ((spot bs x ≡ j) × (x ≡ f)) ⊎ ((spot bs x ≢ j) × In bs j f)
              → ⊥
          fresh j f same (inl (a, b)) =
              w.fresh (spot bs x) e p (sym same ∙ ap (λ (t : Entry K V). t.key) (sym b))
          fresh j f same (inr (a, b)) = a (r.distinct (spot bs x) j e f p b (sym same))

          backed :
              (j : ℕ)
              → j < length bs
              → next (length bs) j ≡ get_bucket_index (length bs) e.hash (e.psl + 1)
              → e.psl + 1 ≤ depth (set bs (spot bs x) (some x)) j
          backed j lt q =
              let one : j ≡ spot bs x =
                next-injective (length bs) j (spot bs x) lt spot-lt
                  (q ∙ index-next r.capacity e.hash e.psl ∙ ap (next (length bs)) at_spot) in
              let d =
                depth-In (set bs (spot bs x) (some x)) (spot bs x) x
                  (set-In_self bs (spot bs x) x spot-lt) in
              rw one (omega (arith, d))

      -- Without it, the entry in hand goes on.
      pub keep-IsInHand : x.psl ≤ e.psl → IsInHand bs (bump x)
      keep-IsInHand poorer = record {
        hashed = w.hashed;
        fresh = w.fresh;
        backed = λ j lt q.
            let one : j ≡ spot bs x =
              next-injective (length bs) j (spot bs x) lt spot-lt
                (q ∙ index-next r.capacity x.hash x.psl) in
            rw one (omega (arith, depth-In bs (spot bs x) e p));
      }
