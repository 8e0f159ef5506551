-- ===== src/KeyStore/Insert.antt =====
-- The insertion loops of key_store.rs with an entry whose key is in no bucket.
use simple_kv.Prelude.{
  ℕ, zero, suc, ◌+◌, ◌<◌, ◌≡◌, ◌≢◌, ◌⊎◌, ◌∙◌, inl, inr, ap, Option, none, some, length, length-set,
  get_elem?-set, set, ltb, ltb→lt, ltb→le, false, ◌&&◌, ◌==◌, Bool-cases, nat_cases, arith, subst,
  ok, ◌>>=◌, Returns,
}
use simple_kv.KeyStore.{Entry, Buckets, HashKey, get_bucket_index, bump, rob, place, insert_loop}
use simple_kv.KeyStore.Slot.{next, index-lt, index-next}
use simple_kv.KeyStore.Invariant.{
  In, depth-In, In-unique, In-lt, In-set, set-In_self, set-In_ne, IsRobinHood,
}
use simple_kv.KeyStore.Gap.{Ahead, Ahead-map, Empty, occupied, occupied-fill, occupied-rewrite}
use simple_kv.KeyStore.Lookup.{bucket_cases}
use simple_kv.KeyStore.View.{Holds}
use simple_kv.KeyStore.Place.{
  spot, IsInHand, Carries, write-IsRobinHood, swap-IsInHand, keep-IsInHand,
}

module _ {K V : Type 0} where
  Empty-set :
      (bs : Buckets K V) (i j : ℕ) (e x : Entry K V)
      → In bs i e
      → Empty bs j
      → Empty (set bs i (some x)) j
  Empty-set bs i j e x p q = rw (get_elem?-set bs i j (some x) (In-lt bs i e p)) (ground arith)

  module _ ⦃h : HashKey K⦄ (f : K → Option V) (bs : Buckets K V) (x : Entry K V)
      (c : Carries f bs x) where
    fill-Holds : (i : ℕ) → i < length bs → Empty bs i → Holds f (set bs i (some x))
    fill-Holds i lt p = record {
      sound = λ j e q. sound j e (In-set bs i j x e lt q);
      complete = λ k v q. complete k v (c.complete k v q);
    }
      where
        sound :
            (j : ℕ) (e : Entry K V)
            → ((i ≡ j) × (x ≡ e)) ⊎ ((i ≢ j) × In bs j e)
            → f e.key ≡ some e.value
        sound j e (inl (a, b)) = subst (λ (t : Entry K V). f t.key ≡ some t.value) b c.in_hand
        sound j e (inr (a, b)) = c.sound j e b

        complete :
            (k : K) (v : V)
            → ((x.key ≡ k) × (x.value ≡ v))
              ⊎ ((j : ℕ) × (e : Entry K V) × In bs j e × (e.key ≡ k) × (e.value ≡ v))
            → (j : ℕ) × (e : Entry K V) × In (set bs i (some x)) j e × (e.key ≡ k) × (e.value ≡ v)
        complete k v (inl (a, b)) = (i, x, set-In_self bs i x lt, a, b)
        complete k v (inr (j, e, q, a, b)) =
            (j, e, set-In_ne bs i j (some x) e lt (λ same. cc (same, p, q)) q, a, b)

    swap-Carries : (i : ℕ) (y : Entry K V) → In bs i y → Carries f (set bs i (some x)) (bump y)
    swap-Carries i y p = record {
      sound = λ j e q. sound j e (In-set bs i j x e (In-lt bs i y p) q);
      in_hand = c.sound i y p;
      complete = λ k v q. complete k v (c.complete k v q);
    }
      where
        sound :
            (j : ℕ) (e : Entry K V)
            → ((i ≡ j) × (x ≡ e)) ⊎ ((i ≢ j) × In bs j e)
            → f e.key ≡ some e.value
        sound j e (inl (a, b)) = subst (λ (t : Entry K V). f t.key ≡ some t.value) b c.in_hand
        sound j e (inr (a, b)) = c.sound j e b

        other :
            (k : K) (v : V) (j : ℕ) (e : Entry K V)
            → In bs j e
            → e.key ≡ k
            → e.value ≡ v
            → (i ≡ j) ⊎ (i ≢ j)
            → ((y.key ≡ k) × (y.value ≡ v))
              ⊎ ((j : ℕ) × (e : Entry K V) × In (set bs i (some x)) j e
                  × (e.key ≡ k)
                  × (e.value ≡ v))
        other k v j e q a b (inl same) =
            let one : y ≡ e = In-unique bs j y e (rw same at p) q in
            inl (ap (λ (t : Entry K V). t.key) one ∙ a, ap (λ (t : Entry K V). t.value) one ∙ b)
        other k v j e q a b (inr ne) =
            inr (j, e, set-In_ne bs i j (some x) e (In-lt bs i y p) ne q, a, b)

        complete :
            (k : K) (v : V)
            → ((x.key ≡ k) × (x.value ≡ v))
              ⊎ ((j : ℕ) × (e : Entry K V) × In bs j e × (e.key ≡ k) × (e.value ≡ v))
            → ((y.key ≡ k) × (y.value ≡ v))
              ⊎ ((j : ℕ) × (e : Entry K V) × In (set bs i (some x)) j e
                  × (e.key ≡ k)
                  × (e.value ≡ v))
        complete k v (inl (a, b)) = inr (i, x, set-In_self bs i x (In-lt bs i y p), a, b)
        complete k v (inr (j, e, q, a, b)) = other k v j e q a b (nat_cases i j)

    keep-Carries : Carries f bs (bump x)
    keep-Carries = record { sound = c.sound; in_hand = c.in_hand; complete = c.complete }

module _ {K V : Type 0} ⦃h : HashKey K⦄ where
  -- All that the loops keep: with `x` in hand, the pairs are those of `f`, and an empty bucket
  -- lies `d` buckets ahead.
  pub record Going (f : K → Option V) (n m d : ℕ) (bs : Buckets K V) (x : Entry K V) : Type 0 where
    pub robin : IsRobinHood bs
    pub hand : IsInHand bs x
    pub carries : Carries f bs x
    pub ahead : Ahead (length bs) (Empty bs) (spot bs x) d
    pub width : length bs ≡ n
    pub counted : occupied bs ≡ m

  module _ (f : K → Option V) (n m d : ℕ) (bs : Buckets K V) (x : Entry K V) where
    -- One round in an occupied bucket.
    rob-Going :
        (e : Entry K V)
        → Going f n m (suc d) bs x
        → In bs (spot bs x) e
        → let s = rob bs (spot bs x) e x in Going f n m d s.0 (bump s.1)
    rob-Going e g p = elim (Bool-cases (ltb e.psl x.psl)) [
      | inl lt ↦
          let s = set bs i (some x) in
          let to : get_bucket_index (length bs) e.hash (e.psl + 1) ≡ next (length bs) i =
            index-next g.robin.capacity e.hash e.psl ∙ ap (next (length bs)) (g.robin.home i e p) in
          let less = ltb→lt e.psl x.psl lt in
          rw lt (record {
            robin = write-IsRobinHood bs x g.robin g.hand (rw (depth-In bs i e p) less);
            hand = swap-IsInHand bs x g.robin g.hand e p less;
            carries = swap-Carries f bs x g.carries i e p;
            ahead =
                rw (length-set bs i (some x), to)
                  (Ahead-map (length bs) (Empty bs) (Empty s) (next (length bs) i) d
                    (λ j q. Empty-set bs i j e x p q) g.ahead);
            width = length-set bs i (some x) ∙ g.width;
            counted = occupied-rewrite bs i e x p ∙ g.counted;
          })
      | inr ge ↦ rw ge (record {
        robin = g.robin;
        hand = keep-IsInHand bs x g.robin g.hand e p (ltb→le e.psl x.psl ge);
        carries = keep-Carries f bs x g.carries;
        ahead = rw (index-next g.robin.capacity x.hash x.psl) g.ahead;
        width = g.width;
        counted = g.counted;
      })
    ]
      where
        i : ℕ
        i = spot bs x

    -- The last round, in an empty bucket.
    fill-Placed :
        Going f n m d bs x
        → Empty bs (spot bs x)
        → let bs' = set bs (spot bs x) (some x) in
          IsRobinHood bs' × Holds f bs' × (length bs' ≡ n) × (occupied bs' ≡ m + 1)
    fill-Placed g p =
        let i = spot bs x in
        let inside = index-lt g.robin.capacity x.hash x.psl in
        (
          write-IsRobinHood bs x g.robin g.hand (rw p (omega arith)),
          fill-Holds f bs x g.carries i inside p,
          length-set bs i (some x) ∙ g.width,
          occupied-fill bs i x p ∙ ap (λ (t : ℕ). t + 1) g.counted,
        )

  -- A table of `n` buckets and `m` entries that holds the map `f`.
  pub record Placed (f : K → Option V) (n m : ℕ) (bs : Buckets K V) : Type 0 where
    pub robin : IsRobinHood bs
    pub holds : Holds f bs
    pub width : length bs ≡ n
    pub counted : occupied bs ≡ m

  -- `insert_entry` of the source ends within the distance to an empty bucket.
  pub place_lem :
      (f : K → Option V) (n m fuel d : ℕ) (bs : Buckets K V) (x : Entry K V)
      → d < fuel
      → Going f n m d bs x
      → Returns (place fuel bs x) (Placed f n (m + 1))
  unfolding place
  place_lem f n m zero d bs x lt g = absurd (omega arith)
  place_lem f n m (suc fuel) zero bs x lt g =
      let (a, b, c, e) = fill-Placed f n m zero bs x g g.ahead in
      (_, rw (g.ahead, place), record { robin = a; holds = b; width = c; counted = e })
  place_lem f n m (suc fuel) (suc d) bs x lt g =
      let i = spot bs x in
      elim (bucket_cases bs i (index-lt g.robin.capacity x.hash x.psl)) [
        | inl p ↦
            let (a, b, c, e) = fill-Placed f n m (suc d) bs x g p in
            (_, rw (p, place), record { robin = a; holds = b; width = c; counted = e })
        | inr (e, p) ↦
            let s = rob bs i e x in
            let (bs', run, q) =
              place_lem f n m fuel d s.0 (bump s.1) (omega arith) (rob-Going f n m d bs x e g p) in
            (bs', rw (p, place) run, q)
      ]

  mismatch :
      (bs : Buckets K V) (x e : Entry K V) (i : ℕ)
      → IsInHand bs x
      → In bs i e
      → (e.hash == x.hash && h.eq e.key x.key) ≡ false
  mismatch bs x e i w p = elim (Bool-cases (h.eq e.key x.key)) [
    | inl same ↦ absurd (w.fresh i e p ((h.eq_iff e.key x.key).0 same))
    | inr other ↦ ground arith
  ]

  -- `insert` of a fresh key runs as `insert_entry` does.
  pub insert_loop-place :
      (f : K → Option V) (n m fuel d : ℕ) (bs : Buckets K V) (x : Entry K V)
      → d < fuel
      → Going f n m d bs x
      → insert_loop fuel bs x ≡ (place fuel bs x >>= λ bs'. ok (none, bs'))
  unfolding place insert_loop
  insert_loop-place f n m zero d bs x lt g = absurd (omega arith)
  insert_loop-place f n m (suc fuel) zero bs x lt g = rw (g.ahead, place, insert_loop)
  insert_loop-place f n m (suc fuel) (suc d) bs x lt g =
      let i = spot bs x in
      elim (bucket_cases bs i (index-lt g.robin.capacity x.hash x.psl)) [
        | inl p ↦ rw (p, place, insert_loop)
        | inr (e, p) ↦
            let s = rob bs i e x in
            let ih =
              insert_loop-place f n m fuel d s.0 (bump s.1) (omega arith)
                (rob-Going f n m d bs x e g p) in
            rw (p, place, insert_loop, mismatch bs x e i g.hand p) ih
      ]
