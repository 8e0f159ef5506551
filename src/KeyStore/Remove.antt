-- ===== src/KeyStore/Remove.antt =====
-- The inner loop of `del` in key_store.rs: from a bucket that is cleared to a table in order.
use Prim.Native.Nat.{bit_and}
use simple_kv.Prelude.{
  ℕ, zero, suc, ◌+◌, ◌-◌, ◌≤◌, ◌<◌, ◌≡◌, ◌≢◌, ◌∙◌, inl, inr, refl, sym, ap, Option, none, length,
  length-set, get_elem?-set, set, ltb, ltb→lt, ltb→le, Bool-cases, ◌==◌, if◌then◌else◌, arith,
  subst, Returns,
}
use simple_kv.KeyStore.{Entry, Buckets, HashKey, shift_back}
use simple_kv.KeyStore.Slot.{next, next-lt, mask-next}
use simple_kv.KeyStore.Invariant.{
  In, depth, depth-In, depth-set, In-unique, In-lt, In-set-none, set-In_ne, IsRobinHood,
}
use simple_kv.KeyStore.Gap.{Ahead, Ahead-map, Empty, occupied, occupied-clear}
use simple_kv.KeyStore.Lookup.{bucket_cases}
use simple_kv.KeyStore.View.{Holds, update, update_self, update_ne, key_cases}
use simple_kv.KeyStore.Insert.{Placed}
use simple_kv.KeyStore.Shift.{Hole, Spare, filled, shifted, shift-Hole}

finish_step :
    (idx k m r a b : ℕ)
    → (if idx == m then suc r else b) ≤ (if idx == k then suc r else a) + 1
    → (idx ≡ m → b ≡ 0)
    → (idx ≡ k → b ≤ 1)
    → b ≤ a + 1
finish_step idx k m r a b f g l = ground arith

start_step :
    (i j p a : ℕ) → (i ≡ j → a ≡ suc p) → (if i == j then suc p else if i == j then 0 else a) ≡ a
start_step i j p a f = ground arith

module _ {K V : Type 0} ⦃h : HashKey K⦄ where
  -- The loop stops where the next bucket is empty or at home.
  finish-Placed :
      (f : K → Option V) (n m d r : ℕ) (bs : Buckets K V) (idx : ℕ)
      → Hole f n m d r bs idx
      → depth bs (next (length bs) idx) ≤ 1
      → Placed f n m bs
  finish-Placed f n m d r bs idx g shallow = record {
    robin = record {
      capacity = g.capacity;
      home = g.home;
      chained = λ k lt.
          finish_step idx k (next (length bs) k) r (depth bs k) (depth bs (next (length bs) k))
            (g.chained k lt) (λ same. subst (λ t. depth bs t ≡ 0) same (rw g.empty refl))
            (λ same. subst (λ t. depth bs (next (length bs) t) ≤ 1) same shallow);
      distinct = g.distinct;
      hashed = g.hashed;
    };
    holds = g.holds;
    width = g.width;
    counted = g.counted;
  }

  -- The loop ends within the distance to another empty bucket, in a table in order.
  pub shift_back_lem :
      (f : K → Option V) (n m fuel d r : ℕ) (bs : Buckets K V) (idx : ℕ)
      → d < fuel
      → Hole f n m d r bs idx
      → Returns (shift_back fuel bs idx) (Placed f n m)
  unfolding shift_back
  shift_back_lem f n m zero d r bs idx lt g = absurd (omega arith)
  shift_back_lem f n m (suc fuel) zero r bs idx lt g =
      let e = mask-next g.capacity idx g.inside in
      let free : Empty bs (next (length bs) idx) = g.ahead.0 in
      (bs, rw (e, free, shift_back), finish-Placed f n m zero r bs idx g (rw free (omega arith)))
  shift_back_lem f n m (suc fuel) (suc d) r bs idx lt g =
      let to = next (length bs) idx in
      let mask = mask-next g.capacity idx g.inside in
      elim (bucket_cases bs to (next-lt (length bs) idx g.inside)) [
        | inl p ↦ (
          bs,
          rw (mask, p, shift_back),
          finish-Placed f n m (suc d) r bs idx g (rw p (omega arith)),
        )
        | inr (e, p) ↦ elim (Bool-cases (ltb 0 e.psl)) [
          | inr here ↦ (
            bs,
            rw (mask, p, here, shift_back),
            finish-Placed f n m (suc d) r bs idx g
                (rw (depth-In bs to e p) (omega (arith, ltb→le 0 e.psl here))),
          )
          | inl far ↦
              let (bs', run, q) =
                shift_back_lem f n m fuel d e.psl (shifted bs idx to e) to (omega arith)
                  (shift-Hole f n m d r bs idx e g p (ltb→lt 0 e.psl far)) in
              let there : In bs (bit_and (idx + 1) (length bs - 1)) e = rw mask p in
              (bs', rw (there, far, shift_back, mask) run, q)
        ]
      ]

  module _ (f : K → Option V) (m : ℕ) (bs : Buckets K V) (r : IsRobinHood bs) (g : Holds f bs)
      (i : ℕ) (e : Entry K V) (p : In bs i e) (counted : occupied bs ≡ m + 1) where
    inside : i < length bs
    inside = In-lt bs i e p

    width : length (set bs i none) ≡ length bs
    width = length-set bs i none

    Holds-clear : Holds (update f e.key none) (set bs i none)
    Holds-clear = record {
      sound = λ j x q.
          let (a, b) = In-set-none bs i j x inside q in
          update_ne f e.key x.key none (λ same. a (r.distinct i j e x p b same)) ∙ g.sound j x b;
      complete = λ k v q. elim (key_cases e.key k) [
        | inl same ↦ absurd (cc (update_self f e.key none, ap (update f e.key none) same, q))
        | inr ne ↦
            let (j, x, a, b, c) = g.complete k v (sym (update_ne f e.key k none ne) ∙ q) in
            let apart : i ≢ j = λ s. ne (
              ap (λ (t : Entry K V). t.key) (In-unique bs j e x (subst (λ t. In bs t e) s p) a)
              ∙ b) in
            (j, x, set-In_ne bs i j none x inside apart a, b, c)
      ];
    }

    filled_start : (j : ℕ) → filled (set bs i none) i e.psl j ≡ depth bs j
    filled_start j = rw (depth-set bs i j none inside) (
        start_step i j e.psl (depth bs j) (λ same. depth-In bs j e (subst (λ t. In bs t e) same p)))

    -- The table just after `take` has emptied the bucket of the key.
    pub start-Hole :
        (d : ℕ)
        → Ahead (length bs) (Empty bs) (next (length bs) i) d
        → Hole (update f e.key none) (length bs) m d e.psl (set bs i none) i
    start-Hole d a = record {
      capacity = rw width r.capacity;
      home = λ j x q. rw width (r.home j x (In-set-none bs i j x inside q).1);
      distinct = λ j k x y q s same.
          r.distinct j k x y (In-set-none bs i j x inside q).1 (In-set-none bs i k y inside s).1
            same;
      hashed = λ j x q. r.hashed j x (In-set-none bs i j x inside q).1;
      holds = Holds-clear;
      inside = rw width inside;
      empty = rw (get_elem?-set bs i i none inside) (ground arith);
      chained = λ j lt.
          rw (width, filled_start (next (length bs) j), filled_start j)
            (r.chained j (rw width at lt));
      ahead = rw width (Ahead-map (length bs) (Empty bs) _ (next (length bs) i) d spare a);
      width = width;
      counted = omega (arith, occupied-clear bs i e p, counted);
    }
      where
        spare : (k : ℕ) → Empty bs k → Spare (set bs i none) i k
        spare k q = (
          rw (get_elem?-set bs i k none inside) (ground arith),
          λ same. cc (subst (λ t. Empty bs t) same q, p),
        )
