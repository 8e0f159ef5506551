-- ===== src/KeyStore/Resize.antt =====
-- `resize` of key_store.rs: twice the buckets, the same map.
use simple_kv.Prelude.{
  ℕ, zero, suc, ◌*◌, ◌^◌, ◌≤◌, ◌≡◌, ◌∙◌, refl, sym, Option, none, some, length, length-replicate,
  replicate, get_elem?-replicate, arith, Returns,
}
use simple_kv.KeyStore.{Entry, KeyStore, HashKey, entries, resize, with_hasher}
use simple_kv.KeyStore.Slot.{IsCapacity, double-IsCapacity}
use simple_kv.KeyStore.Invariant.{In, depth, IsRobinHood}
use simple_kv.KeyStore.Gap.{occupied, occupied-replicate}
use simple_kv.KeyStore.View.{Holds}
use simple_kv.KeyStore.Insert.{Placed}
use simple_kv.KeyStore.Drain.{
  All-entries, Distinct-entries, length-entries, overlay-entries, insert_all_lem,
}
use simple_kv.KeyStore.Methods.{Models}

depth-replicate : (K V : Type 0) (n i : ℕ) → depth {K = K} {V = V} (replicate n none) i ≡ 0
depth-replicate K V zero i = refl
depth-replicate K V (suc n) zero = refl
depth-replicate K V (suc n) (suc i) = depth-replicate K V n i

module _ {K V : Type 0} ⦃h : HashKey K⦄ where
  nothing : (n i : ℕ) (e : Entry K V) → ¬ (In (replicate n none) i e)
  nothing n i e p = absurd (cc (get_elem?-replicate n i none (some e) p))

  -- Empty buckets hold the empty map.
  pub replicate-Placed :
      (n : ℕ) → IsCapacity n → Placed {K = K} {V = V} (λ _. none) n 0 (replicate n none)
  replicate-Placed n c = record {
    robin = record {
      capacity = rw (length-replicate {A = Option (Entry K V)} n none) c;
      home = λ i e p. absurd (nothing n i e p);
      chained = λ i lt. rw (depth-replicate K V n _) (omega arith);
      distinct = λ i j e f p q k. absurd (nothing n i e p);
      hashed = λ i e p. absurd (nothing n i e p);
    };
    holds = record { sound = λ i e p. absurd (nothing n i e p); complete = λ k v p. absurd (cc p) };
    width = length-replicate n none;
    counted = occupied-replicate K V n;
  }

  -- A new store is in order and empty.
  pub with_hasher-Models : Models {K = K} {V = V} (λ _. none) with_hasher
  unfolding with_hasher
  with_hasher-Models =
      let t =
        replicate-Placed 16
          (record { bits = 4; power = refl; positive = omega arith; rest = 60; total = refl }) in
      record { robin = t.robin; holds = t.holds; counted = t.counted; load = omega arith }

  -- On buckets in order that hold a map, also where the load is too high, `resize` ends without a
  -- panic if twice the buckets fit in a `usize`: there are twice as many buckets, in order, `len`
  -- still counts the entries, and the map is the same.
  pub resize_lem :
      (f : K → Option V) (ks : KeyStore K V)
      → IsRobinHood ks.buckets
      → Holds f ks.buckets
      → occupied ks.buckets ≡ ks.len
      → ks.len ≤ length ks.buckets
      → length ks.buckets * 2 ≤ 2 ^ 64
      → Returns
          (resize ks)
          λ r. (r.len ≡ ks.len) × Placed f (length ks.buckets * 2) ks.len r.buckets
  unfolding resize
  resize_lem f ks r holds counted fits small =
      let n = length ks.buckets * 2 in
      let start = replicate-Placed n (double-IsCapacity r.capacity small) in
      let pos = r.capacity.positive in
      let count = length-entries ks.buckets in
      let (bs, run, t) =
        insert_all_lem (λ _. none) n 0 (entries ks.buckets) (replicate n none) start (omega arith)
          (Distinct-entries ks.buckets r.distinct)
          (All-entries _ ks.buckets (λ i e p. (r.hashed i e p, refl))) in
      (
        record ks { buckets = bs },
        rw run,
        (
          refl,
          record {
            robin = t.robin;
            holds = record {
              sound = λ i e p. sym (overlay-entries f ks.buckets e.key holds) ∙ t.holds.sound i e p;
              complete = λ k v p. t.holds.complete k v (overlay-entries f ks.buckets k holds ∙ p);
            };
            width = t.width;
            counted = omega (arith, t.counted);
          },
        ),
      )
