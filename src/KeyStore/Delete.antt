-- ===== src/KeyStore/Delete.antt =====
-- What `del` of key_store.rs does to the map from keys to values.
use simple_kv.Prelude.{
  ℕ, zero, suc, ◌-◌, ◌<◌, ◌≡◌, ◌∙◌, refl, sym, subst, Option, none, some, length, set, arith,
  Returns,
}
use simple_kv.KeyStore.{Entry, KeyStore, HashKey, index_of, del, remove_at, shift_back}
use simple_kv.KeyStore.Invariant.{In, In-lt}
use simple_kv.KeyStore.Gap.{Ahead, Empty, occupied, occupied-clear, gap}
use simple_kv.KeyStore.Lookup.{Outcome}
use simple_kv.KeyStore.View.{update, update_absent}
use simple_kv.KeyStore.Insert.{Placed}
use simple_kv.KeyStore.Remove.{start-Hole, shift_back_lem}
use simple_kv.KeyStore.Methods.{Models, Models_congr, Keeps, spare, found, absent, there}

module _ {K V : Type 0} ⦃h : HashKey K⦄ where
  module _ {f : K → Option V} {ks : KeyStore K V} (m : Models f ks) where
    abbrev pub Deletes : K → Option V × KeyStore K V → Type 0
    Deletes key r = (r.0 ≡ f key) × Models (update f key none) r.1 × Keeps ks r.1

    module _ (i : ℕ) (e : Entry K V) (p : In ks.buckets i e) where
      shift :
          (d : ℕ)
          → d < length ks.buckets
          → Ahead (length ks.buckets) (Empty ks.buckets) i d
          → Returns
              (shift_back (length ks.buckets) (set ks.buckets i none) i)
              (Placed (update f e.key none) (length ks.buckets) (occupied (set ks.buckets i none)))
      shift zero lt a = absurd (cc (a, p))
      shift (suc d) lt a =
          shift_back_lem (update f e.key none) (length ks.buckets)
            (occupied (set ks.buckets i none)) (length ks.buckets) d e.psl (set ks.buckets i none) i
            (omega arith)
            (start-Hole f (occupied (set ks.buckets i none)) ks.buckets m.robin m.holds i e p
              (sym (occupied-clear ks.buckets i e p)) d a)

      remove_at_lem :
          Returns
            (remove_at ks i)
            λ r. (r.0 ≡ some e.value) × Models (update f e.key none) r.1 × Keeps ks r.1
      unfolding remove_at
      remove_at_lem =
          let (d, lt, a) = gap ks.buckets i (spare m) (In-lt ks.buckets i e p) in
          let (bs, run, q) = shift d lt a in
          (
            (some e.value, record { len = ks.len - 1; buckets = bs }),
            rw (p, run, remove_at),
            (
              refl,
              record {
                robin = q.robin;
                holds = q.holds;
                counted = omega (arith, q.counted, occupied-clear ks.buckets i e p, m.counted);
                load = rw q.width (omega (arith, m.load));
              },
              (omega arith, q.width),
            ),
          )

    -- On a store in order, `del` ends without a panic and returns what the map had at the key; the
    -- store is in order again, with that key alone removed from the map, no entry more and the same
    -- number of buckets.
    pub del_lem : (key : K) → Returns (del ks key) (Deletes key)
    unfolding del
    del_lem key = go (found m key)
      where
        go :
            Returns (index_of ks key) (Outcome ks.buckets key 0)
            → Returns (del ks key) (Deletes key)
        go (none, run, out) =
            let a = absent m key out in
            (
              (none, ks),
              rw run,
              (
                sym a,
                Models_congr (update f key none) (λ k. update_absent f key k a) m,
                (omega arith, refl),
              ),
            )
        go (some i, run, (e, p, k)) =
            let (r, run', (a, b, kept)) = remove_at_lem i e p in
            (
              r,
              rw run run',
              (a ∙ sym (there m key i e p k), subst (λ t. Models (update f t none) r.1) k b, kept),
            )
