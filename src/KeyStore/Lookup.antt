-- ===== src/KeyStore/Lookup.antt =====
-- `index_of` and `get` of key_store.rs: the probe ends, and it finds a key exactly if it is there.
use simple_kv.Prelude.{
  ℕ, zero, suc, ◌+◌, ◌-◌, ◌≤◌, ◌<◌, ◌≡◌, ◌⊎◌, ◌∙◌, inl, inr, ap, Option, none, some, length,
  get_elem?_of_lt, ltb, ltb→lt, ltb→le, ◌==◌, ==_refl, Bool, true, false, ◌&&◌, Bool-cases,
  Option-cases, Returns, arith,
}
use simple_kv.KeyStore.{Entry, Buckets, HashKey, get_bucket_index, probe, index_of}
use simple_kv.KeyStore.Slot.{index-lt, index-next}
use simple_kv.KeyStore.Invariant.{In, depth, depth-In, In-unique, IsRobinHood}
use simple_kv.KeyStore.Gap.{Ahead, Empty, occupied, gap}

pub and_true : (a b : Bool) → (a && b) ≡ true → (a ≡ true) × (b ≡ true)
and_true a b p = ground arith

-- The three things that can stand in a bucket of the table.
pub bucket_cases :
    {K V : Type 0} (bs : Buckets K V) (i : ℕ)
    → i < length bs
    → Empty bs i ⊎ ((e : Entry K V) × In bs i e)
bucket_cases bs i lt =
    let (o, p) = get_elem?_of_lt bs i lt in
    elim (Option-cases o) [ inl q ↦ inl (p ∙ ap some q) | inr (e, q) ↦ inr (e, p ∙ ap some q) ]

module _ {K V : Type 0} ⦃h : HashKey K⦄ where
  -- What a search for `key` from probe `psl` on may return.
  abbrev pub Outcome : Buckets K V → K → ℕ → Option ℕ → Type 0
  Outcome bs key psl none = (j : ℕ) (e : Entry K V) → In bs j e → e.key ≡ key → e.psl < psl
  Outcome bs key psl (some i) = (e : Entry K V) × In bs i e × (e.key ≡ key)

  module _ (bs : Buckets K V) (r : IsRobinHood bs) where
    -- From an entry back to its first bucket no bucket is shallower than its probe.
    deep :
        (hash m q : ℕ)
        → q + m < depth bs (get_bucket_index (length bs) hash (q + m))
        → q < depth bs (get_bucket_index (length bs) hash q)
    deep hash zero q d = let e : q + 0 ≡ q = omega arith in rw e at d
    deep hash (suc m) q d =
        let e : q + suc m ≡ (q + m) + 1 = omega arith in
        let d' = rw (e, index-next r.capacity hash (q + m)) at d in
        let c = r.chained (get_bucket_index (length bs) hash (q + m)) (index-lt r.capacity _ _) in
        deep hash m q (omega arith)

    -- A key that stands at a depth of `psl` or more shows in the bucket of probe `psl`.
    pub deep_of :
        (key : K) (j : ℕ) (e : Entry K V) (psl : ℕ)
        → In bs j e
        → e.key ≡ key
        → psl ≤ e.psl
        → psl < depth bs (get_bucket_index (length bs) (h.hash_one key) psl)
    deep_of key j e psl p k le =
        let hashed : e.hash ≡ h.hash_one key = r.hashed j e p ∙ ap h.hash_one k in
        let at_home : get_bucket_index (length bs) (h.hash_one key) e.psl ≡ j =
          rw (← hashed) (r.home j e p) in
        let split : psl + (e.psl - psl) ≡ e.psl = omega arith in
        deep (h.hash_one key) (e.psl - psl) psl
          (rw (split, at_home) (omega (arith, depth-In bs j e p)))

    absent :
        (key : K) (psl : ℕ)
        → depth bs (get_bucket_index (length bs) (h.hash_one key) psl) ≤ psl
        → Outcome bs key psl none
    absent key psl shallow j e p k = elim (Bool-cases (ltb e.psl psl)) [
      | inl lt ↦ ltb→lt e.psl psl lt
      | inr ge ↦ absurd (omega (arith, deep_of key j e psl p k (ltb→le e.psl psl ge)))
    ]

    -- An entry that the source's test refuses is not the entry of the key.
    refused :
        (key : K) (psl : ℕ) (f : Entry K V)
        → In bs (get_bucket_index (length bs) (h.hash_one key) psl) f
        → (f.hash == h.hash_one key && h.eq f.key key) ≡ false
        → Outcome bs key (psl + 1) none
        → Outcome bs key psl none
    refused key psl f p no_match out j e q k = elim (Bool-cases (ltb e.psl psl)) [
      | inl lt ↦ ltb→lt e.psl psl lt
      | inr ge ↦
          let same : e.psl ≡ psl = omega (arith, ltb→le e.psl psl ge, out j e q k) in
          let hashed : e.hash ≡ h.hash_one key = r.hashed j e q ∙ ap h.hash_one k in
          let at_home : get_bucket_index (length bs) (h.hash_one key) psl ≡ j =
            rw (← hashed, ← same) (r.home j e q) in
          let one : f ≡ e = In-unique bs j f e (rw at_home at p) q in
          let match : (f.hash == h.hash_one key && h.eq f.key key) ≡ true =
            rw (one, hashed, ==_refl (h.hash_one key)) ((h.eq_iff e.key key).1 k) in
          absurd (cc (no_match, match))
    ]

    weaken :
        (key : K) (psl : ℕ) (e : Entry K V)
        → In bs (get_bucket_index (length bs) (h.hash_one key) psl) e
        → (e.hash == h.hash_one key && h.eq e.key key) ≡ false
        → (o : Option ℕ) → Outcome bs key (psl + 1) o
        → Outcome bs key psl o
    weaken key psl e p m none out = refused key psl e p m out
    weaken key psl e p m (some i) out = out

    -- The probe ends within the distance to an empty bucket, with a right answer.
    probe_lem :
        (key : K) (fuel d psl : ℕ)
        → d < fuel
        → Ahead (length bs) (Empty bs) (get_bucket_index (length bs) (h.hash_one key) psl) d
        → Returns (probe fuel bs key (h.hash_one key) psl) (Outcome bs key psl)
    unfolding probe
    probe_lem key zero d psl lt a = absurd (omega arith)
    probe_lem key (suc fuel) zero psl lt a =
        (none, rw (a, probe), absent key psl (rw a (omega arith)))
    probe_lem key (suc fuel) (suc d) psl lt a =
        let index = get_bucket_index (length bs) (h.hash_one key) psl in
        elim (bucket_cases bs index (index-lt r.capacity _ _)) [
          | inl p ↦ (none, rw (p, probe), absent key psl (rw p (omega arith)))
          | inr (e, p) ↦ elim (Bool-cases (ltb e.psl psl)) [
            | inl lt ↦ (none, rw (p, lt, probe), absent key psl (rw p (ltb→lt e.psl psl lt)))
            | inr ge ↦ elim (Bool-cases (e.hash == h.hash_one key && h.eq e.key key)) [
              | inl m ↦ (
                some index,
                rw (p, ge, m, probe),
                (e, p, (h.eq_iff e.key key).0 (and_true _ _ m).1),
              )
              | inr m ↦
                  let (o, run, out) =
                    probe_lem key fuel d (psl + 1) (omega arith)
                      (rw (index-next r.capacity (h.hash_one key) psl) a) in
                  (o, rw (p, ge, m, probe) run, weaken key psl e p m o out)
            ]
          ]
        ]

    -- On buckets in order that are not all occupied, `index_of` ends without a panic within as many
    -- probes as there are buckets, and returns a bucket of the key, or none if no bucket has it.
    pub index_of_lem :
        (len : ℕ) (key : K)
        → occupied bs < length bs
        → Returns (index_of (record { len = len; buckets = bs }) key) (Outcome bs key 0)
    unfolding index_of
    index_of_lem len key spare =
        let (d, lt, a) =
          gap bs (get_bucket_index (length bs) (h.hash_one key) 0) spare
            (index-lt r.capacity _ _) in
        probe_lem key (length bs) d 0 lt a
