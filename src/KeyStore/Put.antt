-- ===== src/KeyStore/Put.antt =====
-- What `insert` of key_store.rs does to the map from keys to values.
use simple_kv.Prelude.{
  ℕ, ◌+◌, ◌*◌, ◌^◌, ◌≤◌, ◌<◌, ◌≡◌, ◌⊎◌, ◌∙◌, inl, inr, refl, sym, ap, subst, Option, none, some,
  length, set, leb, leb→lt, leb→le, Bool-cases, Option-cases, arith, Returns,
}
use simple_kv.KeyStore.{Entry, KeyStore, HashKey, insert, grow, should_resize, new_entry}
use simple_kv.KeyStore.Invariant.{In}
use simple_kv.KeyStore.Gap.{occupied}
use simple_kv.KeyStore.View.{Holds, update}
use simple_kv.KeyStore.Insert.{Placed, place_lem, insert_loop-place}
use simple_kv.KeyStore.Replace.{rewrite-Placed, insert_loop-rewrite, psl-lt}
use simple_kv.KeyStore.Drain.{start-Going}
use simple_kv.KeyStore.Resize.{resize_lem}
use simple_kv.KeyStore.Methods.{Models, spare}

module _ {K V : Type 0} ⦃h : HashKey K⦄ where
  -- At most one entry more than `n`; the table keeps its `m` buckets, or has fewer than three for
  -- each of its entries.
  abbrev pub Grows : ℕ → ℕ → KeyStore K V → Type 0
  Grows n m r = (r.len ≤ n + 1) × ((length r.buckets ≡ m) ⊎ (3 * length r.buckets ≤ 8 * r.len))

  -- The end of `insert`: the load is below three quarters again.
  grow_lem :
      (f : K → Option V) (ks : KeyStore K V)
      → Placed f (length ks.buckets) ks.len ks.buckets
      → 4 * ks.len < 3 * length ks.buckets + 4
      → ks.len ≤ length ks.buckets
      → length ks.buckets * 2 ≤ 2 ^ 64
      → Returns (grow ks) λ r.
        Models f r
        × (r.len ≡ ks.len)
        × ((length r.buckets ≡ length ks.buckets) ⊎ (3 * length r.buckets ≤ 8 * r.len))
  unfolding grow should_resize
  grow_lem f ks t load fits small = elim (Bool-cases (leb (3 * length ks.buckets) (4 * ks.len))) [
    | inl full ↦
        let (r, run, (same, q)) = resize_lem f ks t.robin t.holds t.counted fits small in
        let pos = t.robin.capacity.positive in
        (
          r,
          rw (full, grow) run,
          (
            record {
              robin = q.robin;
              holds = q.holds;
              counted = q.counted ∙ sym same;
              load = rw (same, q.width) (omega arith);
            },
            same,
            inr (omega (arith, same, q.width, leb→le _ _ full)),
          ),
        )
    | inr free ↦ (
      ks,
      rw (free, grow),
      (
        record {
          robin = t.robin;
          holds = t.holds;
          counted = t.counted;
          load = leb→lt (3 * length ks.buckets) (4 * ks.len) free;
        },
        refl,
        inl refl,
      ),
    )
  ]

  module _ {f : K → Option V} {ks : KeyStore K V} (m : Models f ks) (key : K) (value : V) where
    abbrev pub Inserts : Option V → Option V × KeyStore K V → Type 0
    Inserts old r =
        (r.0 ≡ old) × Models (update f key (some value)) r.1 × Grows ks.len (length ks.buckets) r.1

    over :
        (i : ℕ) (e : Entry K V)
        → In ks.buckets i e
        → e.key ≡ key
        → Returns (insert ks key value) (Inserts (some e.value))
    unfolding insert
    over i e p k =
        let q = rewrite-Placed f ks.buckets m.robin m.holds i e p value in
        let run =
          insert_loop-rewrite ks.buckets m.robin i e p (length ks.buckets) e.psl
            (new_entry key value (h.hash_one key)) (psl-lt ks.buckets m.robin i e p (spare m))
            (sym k) (ap h.hash_one (sym k)) (omega arith) in
        (
          (some e.value, record { len = ks.len; buckets = _ }),
          rw run,
          (
            refl,
            record {
              robin = q.robin;
              holds =
                  subst
                    (λ t.
                      Holds (update f t (some value))
                        (set ks.buckets i (some (record e { value = value }))))
                    k q.holds;
              counted = q.counted ∙ m.counted;
              load = rw q.width m.load;
            },
            (omega arith, inl q.width),
          ),
        )

    fresh :
        f key ≡ none → length ks.buckets * 2 ≤ 2 ^ 64 → Returns (insert ks key value) (Inserts none)
    unfolding insert
    fresh absent small =
        let e : Entry K V = new_entry key value (h.hash_one key) in
        let (d, near, go) = start-Going f ks.buckets e m.robin m.holds (spare m) refl refl absent in
        let g = update f key (some value) in
        let (bs, run, q) =
          place_lem g (length ks.buckets) (occupied ks.buckets) (length ks.buckets) d ks.buckets e
            near go in
        let same =
          insert_loop-place g (length ks.buckets) (occupied ks.buckets) (length ks.buckets) d
            ks.buckets e near go in
        let grown =
          grow_lem g (record { len = ks.len + 1; buckets = bs })
            (record {
              robin = q.robin;
              holds = q.holds;
              width = refl;
              counted = omega (arith, q.counted, m.counted);
            })
            (omega (arith, m.load, q.width)) (omega (arith, m.counted, spare m, q.width))
            (omega (arith, q.width)) in
        let (store, done, (mo, count, size)) = grown in
        (
          (none, store),
          rw (same, run, done),
          (
            refl,
            mo,
            (omega (arith, count), elim size [ inl w ↦ inl (w ∙ q.width) | inr w ↦ inr w ]),
          ),
        )

    -- On a store in order whose doubled table fits in a `usize`, `insert` ends without a panic and
    -- returns what the map had at the key; the store is in order again, with the map changed at
    -- that key alone; it has at most one entry more, and the table keeps its size or has fewer than
    -- three buckets for each entry.
    pub insert_lem :
        length ks.buckets * 2 ≤ 2 ^ 64 → Returns (insert ks key value) (Inserts (f key))
    insert_lem small = elim (Option-cases (f key)) [
      | inl absent ↦
          let (r, run, (a, b, g)) = fresh absent small in (r, run, (a ∙ sym absent, b, g))
      | inr (v, there) ↦
          let (i, e, p, k, u) = m.holds.complete key v there in
          let (r, run, (a, b, g)) = over i e p k in (r, run, (a ∙ ap some u ∙ sym there, b, g))
    ]
