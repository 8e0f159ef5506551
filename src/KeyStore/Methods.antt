-- ===== src/KeyStore/Methods.antt =====
-- What the public methods of key_store.rs do to the map from keys to values: `get`, `get_mut`,
-- `insert`, `del`.
use simple_kv.Prelude.{
  ℕ, ◌*◌, ◌≤◌, ◌<◌, ◌≡◌, ◌∙◌, inl, inr, refl, sym, ap, Option, none, some, is_some, set, length,
  Option-cases, true, false, arith, subst, ok, Returns,
}
use simple_kv.KeyStore.{Entry, KeyStore, HashKey, index_of, value_at, update_at, get, get_mut}
use simple_kv.KeyStore.Invariant.{In, IsRobinHood}
use simple_kv.KeyStore.Gap.{occupied}
use simple_kv.KeyStore.Lookup.{Outcome, index_of_lem}
use simple_kv.KeyStore.View.{Holds, update}
use simple_kv.KeyStore.Replace.{rewrite-Placed}

module _ {K V : Type 0} ⦃h : HashKey K⦄ where
  -- The store is in order and holds exactly the pairs of the map `f`: `len` counts the entries,
  -- and the load is below three quarters.
  pub record Models (f : K → Option V) (ks : KeyStore K V) : Type 0 where
    pub robin : IsRobinHood ks.buckets
    pub holds : Holds f ks.buckets
    pub counted : occupied ks.buckets ≡ ks.len
    pub load : 4 * ks.len < 3 * length ks.buckets

  -- No entry more, and the same number of buckets.
  abbrev pub Keeps : KeyStore K V → KeyStore K V → Type 0
  Keeps ks r = (r.len ≤ ks.len) × (length r.buckets ≡ length ks.buckets)

  -- The map matters only pointwise.
  pub Models_congr :
      {f : K → Option V} (g : K → Option V) {ks : KeyStore K V}
      → ((k : K) → f k ≡ g k)
      → Models f ks
      → Models g ks
  Models_congr g e m = record {
    robin = m.robin;
    holds = record {
      sound = λ i x p. sym (e x.key) ∙ m.holds.sound i x p;
      complete = λ k v p. m.holds.complete k v (e k ∙ p);
    };
    counted = m.counted;
    load = m.load;
  }

  module _ {f : K → Option V} {ks : KeyStore K V} (m : Models f ks) where
    pub spare : occupied ks.buckets < length ks.buckets
    spare = omega (arith, m.counted, m.load)

    pub found : (key : K) → Returns (index_of ks key) (Outcome ks.buckets key 0)
    found key = index_of_lem ks.buckets m.robin ks.len key spare

    -- A key in no bucket is not in the map.
    pub absent : (key : K) → Outcome ks.buckets key 0 none → f key ≡ none
    absent key out = elim (Option-cases (f key)) [
      | inl p ↦ p
      | inr (v, p) ↦
          let (i, e, a, b, c) = m.holds.complete key v p in
          absurd (let t = out i e a b in omega arith)
    ]

    pub there :
        (key : K) (i : ℕ) (e : Entry K V) → In ks.buckets i e → e.key ≡ key → f key ≡ some e.value
    there key i e p k = ap f (sym k) ∙ m.holds.sound i e p

    -- On a store in order, `get` ends without a panic and returns what the map has at the key.
    pub get_lem : (key : K) → get ks key ≡ ok (f key)
    unfolding get
    get_lem key = go (found key)
      where
        go : Returns (index_of ks key) (Outcome ks.buckets key 0) → get ks key ≡ ok (f key)
        go (none, run, out) = rw (run, absent key out)
        go (some i, run, (e, p, k)) = rw (run, there key i e p k, p, value_at)

    -- On a store in order, `get_mut` with a write through its reference ends without a panic and
    -- finds the key exactly if the map has it; the store is in order again, with the value at that
    -- key alone rewritten, no entry more and the same number of buckets.
    pub get_mut_lem :
        (w : V → V) (key : K)
        → Returns (get_mut w ks key) λ r.
          (r.0 ≡ is_some (f key))
          × Models (elim (f key) [ none ↦ f | some v ↦ update f key (some (w v)) ]) r.1
          × Keeps ks r.1
    unfolding get_mut
    get_mut_lem w key = go (found key)
      where
        go :
            Returns (index_of ks key) (Outcome ks.buckets key 0)
            → Returns (get_mut w ks key) λ r.
              (r.0 ≡ is_some (f key))
              × Models (elim (f key) [ none ↦ f | some v ↦ update f key (some (w v)) ]) r.1
              × Keeps ks r.1
        go (none, run, out) =
            ((false, ks), rw run, rw (absent key out) (refl, m, (omega arith, refl)))
        go (some i, run, (e, p, k)) =
            let q = rewrite-Placed f ks.buckets m.robin m.holds i e p (w e.value) in
            (
              (
                true,
                record {
                  len = ks.len;
                  buckets = set ks.buckets i (some (record e { value = w e.value }));
                },
              ),
              rw (run, p, update_at),
              rw (there key i e p k) (
                refl,
                record {
                  robin = q.robin;
                  holds =
                      subst
                        (λ t.
                          Holds (update f t (some (w e.value)))
                            (set ks.buckets i (some (record e { value = w e.value }))))
                        k q.holds;
                  counted = q.counted ∙ m.counted;
                  load = rw q.width m.load;
                },
                (omega arith, q.width),
              ),
            )
