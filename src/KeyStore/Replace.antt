-- ===== src/KeyStore/Replace.antt =====
-- The insertion loop of key_store.rs with an entry whose key stands in a bucket, and a write to a
-- value in place.
use simple_kv.Prelude.{
  ℕ, zero, suc, ◌+◌, ◌-◌, ◌≤◌, ◌<◌, ◌≡◌, ◌≢◌, ◌⊎◌, ◌∙◌, inl, inr, refl, sym, ap, Option, some,
  length, length-set, set, ltb, ltb→lt, ltb→le, le→ltb, true, ◌&&◌, ◌==◌, ==_refl, Bool-cases,
  nat_cases, arith, subst, ok,
}
use simple_kv.KeyStore.{Entry, Buckets, HashKey, get_bucket_index, bump, insert_loop}
use simple_kv.KeyStore.Slot.{next, index-lt, index-next}
use simple_kv.KeyStore.Invariant.{
  In, depth, depth-In, depth-set, In-unique, In-lt, In-set, set-In_self, set-In_ne, IsRobinHood,
}
use simple_kv.KeyStore.Gap.{Ahead, Empty, occupied, occupied-rewrite, gap}
use simple_kv.KeyStore.Lookup.{bucket_cases, deep_of, and_true}
use simple_kv.KeyStore.View.{Holds, update, update_self, update_ne, key_cases}
use simple_kv.KeyStore.Insert.{Placed}

module _ {K V : Type 0} ⦃h : HashKey K⦄ where
  -- The entry with another value.
  abbrev pub with_value : Entry K V → V → Entry K V
  with_value e v = record e { value = v }

  module _ (f : K → Option V) (bs : Buckets K V) (r : IsRobinHood bs) (g : Holds f bs) (i : ℕ)
      (e : Entry K V) (p : In bs i e) (v : V) where
    keyed :
        (j : ℕ) (x : Entry K V)
        → In (set bs i (some (with_value e v))) j x
        → (y : Entry K V) × In bs j y × (x.key ≡ y.key) × (x.hash ≡ y.hash) × (x.psl ≡ y.psl)
    keyed j x q = elim (In-set bs i j (with_value e v) x (In-lt bs i e p) q) [
      | inl (a, b) ↦ (
        e,
        subst (λ t. In bs t e) a p,
        sym (ap (λ (t : Entry K V). t.key) b),
        sym (ap (λ (t : Entry K V). t.hash) b),
        sym (ap (λ (t : Entry K V). t.psl) b),
      )
      | inr (a, b) ↦ (x, b, refl, refl, refl)
    ]

    same_depth : (j : ℕ) → depth (set bs i (some (with_value e v))) j ≡ depth bs j
    same_depth j =
        rw (depth-set bs i j (some (with_value e v)) (In-lt bs i e p)) (elim (nat_cases i j) [
          | inl same ↦
              let d = depth-In bs j e (subst (λ t. In bs t e) same p) in rw d (ground arith)
          | inr ne ↦ ground arith
        ])

    rewrite-IsRobinHood : IsRobinHood (set bs i (some (with_value e v)))
    rewrite-IsRobinHood =
        let n = length-set bs i (some (with_value e v)) in
        record {
          capacity = rw n r.capacity;
          home = λ j x q. let (y, a, b, c, d) = keyed j x q in rw (n, c, d) (r.home j y a);
          chained = λ j lt.
              rw (n, same_depth (next (length bs) j), same_depth j) (r.chained j (rw n at lt));
          distinct = λ j k x z q s same.
              let (y, a, b, _, _) = keyed j x q in
              let (y', a', b', _, _) = keyed k z s in r.distinct j k y y' a a' (sym b ∙ same ∙ b');
          hashed = λ j x q. let (y, a, b, c, d) = keyed j x q in rw (c, b) (r.hashed j y a);
        }

    rewrite-Holds : Holds (update f e.key (some v)) (set bs i (some (with_value e v)))
    rewrite-Holds = record {
      sound = λ j x q. sound j x (In-set bs i j (with_value e v) x (In-lt bs i e p) q);
      complete = λ k u q. complete k u (key_cases e.key k) q;
    }
      where
        sound :
            (j : ℕ) (x : Entry K V)
            → ((i ≡ j) × (with_value e v ≡ x)) ⊎ ((i ≢ j) × In bs j x)
            → update f e.key (some v) x.key ≡ some x.value
        sound j x (inl (a, b)) =
            subst (λ (t : Entry K V). update f e.key (some v) t.key ≡ some t.value) b
              (update_self f e.key (some v))
        sound j x (inr (a, b)) =
            update_ne f e.key x.key (some v) (λ same. a (r.distinct i j e x p b same))
            ∙ g.sound j x b

        complete :
            (k : K) (u : V)
            → (e.key ≡ k) ⊎ (e.key ≢ k)
            → update f e.key (some v) k ≡ some u
            → (j : ℕ) × (x : Entry K V) × In (set bs i (some (with_value e v))) j x
              × (x.key ≡ k)
              × (x.value ≡ u)
        complete k u (inl same) q =
            let val : some v ≡ some u =
              sym (update_self f e.key (some v)) ∙ ap (update f e.key (some v)) same ∙ q in
            (i, with_value e v, set-In_self bs i (with_value e v) (In-lt bs i e p), same, cc val)
        complete k u (inr ne) q =
            let (j, x, a, b, c) = g.complete k u (sym (update_ne f e.key k (some v) ne) ∙ q) in
            let apart : i ≢ j = λ s. ne (
              ap (λ (t : Entry K V). t.key) (In-unique bs j e x (subst (λ t. In bs t e) s p) a)
              ∙ b) in
            (j, x, set-In_ne bs i j _ x (In-lt bs i e p) apart a, b, c)

    -- A value rewritten in place: the map changes at its key, and nothing else does.
    pub rewrite-Placed :
        Placed
          (update f e.key (some v))
          (length bs)
          (occupied bs)
          (set bs i (some (with_value e v)))
    rewrite-Placed = record {
      robin = rewrite-IsRobinHood;
      holds = rewrite-Holds;
      width = length-set bs i (some (with_value e v));
      counted = occupied-rewrite bs i e (with_value e v) p;
    }

  -- A probe that passes `q + d` is `d` steps ahead of one that passes `q`.
  Ahead_index :
      (bs : Buckets K V) (r : IsRobinHood bs) (hash d q : ℕ)
      → Ahead (length bs) (Empty bs) (get_bucket_index (length bs) hash q) d
      → Empty bs (get_bucket_index (length bs) hash (q + d))
  Ahead_index bs r hash zero q a = let e : q + 0 ≡ q = omega arith in rw e a
  Ahead_index bs r hash (suc d) q a =
      let e : q + suc d ≡ (q + 1) + d = omega arith in
      rw e (Ahead_index bs r hash d (q + 1) (rw (index-next r.capacity hash q) a))

  module _ (bs : Buckets K V) (r : IsRobinHood bs) (j : ℕ) (e : Entry K V) (p : In bs j e) where
    -- An entry is nearer to its first bucket than the next empty one.
    pub psl-lt : occupied bs < length bs → e.psl < length bs
    psl-lt spare =
        let hash = h.hash_one e.key in
        let (d, lt, a) =
          gap bs (get_bucket_index (length bs) hash 0) spare (index-lt r.capacity _ _) in
        let z : 0 + d ≡ d = omega arith in
        let free = rw z at (Ahead_index bs r hash d 0 a) in
        elim (Bool-cases (ltb e.psl d)) [
          | inl less ↦ omega (arith, ltb→lt e.psl d less)
          | inr ge ↦
              let deep = deep_of bs r e.key j e d p refl (ltb→le e.psl d ge) in
              absurd (let t = rw free at deep in omega arith)
        ]

    -- The source's test for the key accepts the entry of the key.
    accepts :
        (i : ℕ) (x y : Entry K V)
        → x.key ≡ e.key
        → x.hash ≡ h.hash_one e.key
        → In bs i y
        → i ≡ j
        → (y.hash == x.hash && h.eq y.key x.key) ≡ true
    accepts i x y k hh q one =
        let same : y ≡ e = In-unique bs j y e (subst (λ t. In bs t y) one q) p in
        let hashed : e.hash ≡ x.hash = r.hashed j e p ∙ sym hh in
        rw (same, hashed, ==_refl x.hash) ((h.eq_iff e.key x.key).1 (sym k))

    -- `insert` of a key that is there reaches its entry, swapping nothing, and rewrites the value.
    pub insert_loop-rewrite :
        (fuel m : ℕ) (x : Entry K V)
        → m < fuel
        → x.key ≡ e.key
        → x.hash ≡ h.hash_one e.key
        → x.psl + m ≡ e.psl
        → insert_loop fuel bs x ≡ ok (some e.value, set bs j (some (with_value e x.value)))
    unfolding insert_loop
    insert_loop-rewrite zero m x lt k hh s = absurd (omega arith)
    insert_loop-rewrite (suc fuel) m x lt k hh s =
        let i = get_bucket_index (length bs) x.hash x.psl in
        let deep : x.psl < depth bs i = rw hh (deep_of bs r e.key j e x.psl p refl (omega arith)) in
        elim (bucket_cases bs i (index-lt r.capacity x.hash x.psl)) [
          | inl q ↦ absurd (let t = rw q at deep in omega arith)
          | inr (y, q) ↦ elim (Bool-cases (y.hash == x.hash && h.eq y.key x.key)) [
            | inl match ↦
                let key : y.key ≡ e.key = (h.eq_iff y.key x.key).0 (and_true _ _ match).1 ∙ k in
                let one : i ≡ j = r.distinct i j y e q p key in
                let same : y ≡ e = In-unique bs j y e (subst (λ t. In bs t y) one q) p in
                rw (q, match, insert_loop)
                  (λ t.
                    ok (some (same t).value, set bs (one t) (some (with_value (same t) x.value))))
            | inr other ↦
                let poorer : x.psl ≤ y.psl = omega (arith, depth-In bs i y q) in
                let more : m ≢ 0 = λ z.
                  let home : get_bucket_index (length bs) e.hash e.psl ≡ j = r.home j e p in
                  let psl : x.psl ≡ e.psl = omega arith in
                  let hash : x.hash ≡ e.hash = hh ∙ sym (r.hashed j e p) in
                  let one : i ≡ j = rw (hash, psl) home in cc (other, accepts i x y k hh q one) in
                let ih =
                  insert_loop-rewrite fuel (m - 1) (bump x) (omega arith) k hh (omega arith) in
                rw (q, other, insert_loop, le→ltb y.psl x.psl poorer) ih
          ]
        ]
