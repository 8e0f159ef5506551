-- ===== src/KeyStore/Shift.antt =====
-- One round of the backward shift of key_store.rs: the hole moves on to the next bucket.
use simple_kv.Prelude.{
  ℕ, suc, ◌+◌, ◌-◌, ◌≤◌, ◌<◌, ◌≡◌, ◌≢◌, ◌⊎◌, ◌∙◌, inl, inr, sym, ap, Option, none, some, length,
  length-set, get_elem?-set, set, ◌==◌, nat_cases, if◌then◌else◌, arith, subst,
}
use simple_kv.KeyStore.{Entry, Buckets, HashKey, get_bucket_index}
use simple_kv.KeyStore.Slot.{IsCapacity, next, next-lt, next-injective, index-lt, index-next}
use simple_kv.KeyStore.Invariant.{
  In, depth, depth-In, depth-set, In-unique, In-set, In-set-none, set-In_self, set-In_ne, IsHome,
  IsDistinct, IsHashed,
}
use simple_kv.KeyStore.Gap.{Ahead, Ahead-map, Empty, occupied, occupied-fill, occupied-clear}
use simple_kv.KeyStore.View.{Holds}

-- The chain condition when the entry behind the hole moves into it.
shift_step :
    (idx k m p r a b : ℕ)
    → b ≤ a + 1
    → (idx ≡ m → b ≡ suc r)
    → p ≤ suc r
    → (idx ≡ k → b ≡ suc p)
    → (if idx == m then p else b) ≤ (if idx == k then p else a) + 1
shift_step idx k m p r a b f g l q = ground arith

merge_step :
    (idx j k p r a : ℕ)
    → j ≢ idx
    → 0 < p
    → (j ≡ k → a ≡ suc p)
    → (if j == k then suc p else if j == k then 0 else if idx == k then suc (p - 1) else a)
      ≡ (if idx == k then p else if idx == k then suc r else a)
merge_step idx j k p r a ne pos f = ground arith

module _ {K V : Type 0} where
  -- The depths, with the hole counted as deep as an entry of psl `r`.
  abbrev pub filled : Buckets K V → ℕ → ℕ → ℕ → ℕ
  filled bs idx r j = if idx == j then suc r else depth bs j

  abbrev pub Spare : Buckets K V → ℕ → ℕ → Type 0
  Spare bs idx j = Empty bs j × (j ≢ idx)

module _ {K V : Type 0} ⦃h : HashKey K⦄ where
  -- The table in the inner loop of `del`, with the hole `idx`; `d` is the distance to another
  -- empty bucket.
  pub record Hole (f : K → Option V) (n m d r : ℕ) (bs : Buckets K V) (idx : ℕ) : Type 0 where
    pub capacity : IsCapacity (length bs)
    pub home : IsHome bs
    pub distinct : IsDistinct bs
    pub hashed : IsHashed bs
    pub holds : Holds f bs
    pub inside : idx < length bs
    pub empty : Empty bs idx
    pub chained :
        (j : ℕ) → j < length bs → filled bs idx r (next (length bs) j) ≤ filled bs idx r j + 1
    pub ahead : Ahead (length bs) (Spare bs idx) (next (length bs) idx) d
    pub width : length bs ≡ n
    pub counted : occupied bs ≡ m

  -- `e` without one unit of its psl.
  abbrev pub nearer : Entry K V → Entry K V
  nearer e = record e { psl = e.psl - 1 }

  abbrev pub shifted : Buckets K V → ℕ → ℕ → Entry K V → Buckets K V
  shifted bs idx j e = set (set bs idx (some (nearer e))) j none

  module _ (f : K → Option V) (n m d r : ℕ) (bs : Buckets K V) (idx : ℕ) (e : Entry K V)
      (g : Hole f n m (suc d) r bs idx) (p : In bs (next (length bs) idx) e) (far : 0 < e.psl) where
    j : ℕ
    j = next (length bs) idx

    j-lt : j < length bs
    unfolding j
    j-lt = next-lt (length bs) idx g.inside

    apart : j ≢ idx
    unfolding j
    apart same = cc (subst (λ t. In bs t e) same p, g.empty)

    mid : Buckets K V
    mid = set bs idx (some (nearer e))

    width_mid : length mid ≡ length bs
    unfolding mid
    width_mid = length-set bs idx (some (nearer e))

    width_new : length (shifted bs idx j e) ≡ length bs
    unfolding mid
    width_new = length-set mid j none ∙ width_mid

    -- Where an entry of the new table stood before.
    origin :
        (k : ℕ) (x : Entry K V)
        → In (shifted bs idx j e) k x
        → ((idx ≡ k) × (nearer e ≡ x)) ⊎ ((idx ≢ k) × (j ≢ k) × In bs k x)
    unfolding mid
    origin k x q =
        let (a, b) = In-set-none mid j k x (rw width_mid j-lt) q in
        elim (In-set bs idx k (nearer e) x g.inside b) [
          | inl (c, y) ↦ inl (c, y)
          | inr (c, y) ↦ inr (c, a, y)
        ]

    moved : In (shifted bs idx j e) idx (nearer e)
    unfolding mid
    moved =
        set-In_ne mid j idx none (nearer e) (rw width_mid j-lt) apart
          (set-In_self bs idx (nearer e) g.inside)

    stays : (k : ℕ) (x : Entry K V) → idx ≢ k → j ≢ k → In bs k x → In (shifted bs idx j e) k x
    unfolding mid
    stays k x a b q =
        set-In_ne mid j k none x (rw width_mid j-lt) b
          (set-In_ne bs idx k (some (nearer e)) x g.inside a q)

    psl_lem : (e.psl - 1) + 1 ≡ e.psl
    psl_lem = omega arith

    IsHome-new : IsHome (shifted bs idx j e)
    unfolding j
    IsHome-new k x q = rw width_new (elim (origin k x q) [
      | inl (a, b) ↦
          let at : next (length bs) (get_bucket_index (length bs) e.hash (e.psl - 1))
              ≡ next (length bs) idx =
            sym (index-next g.capacity e.hash (e.psl - 1))
            ∙ ap (get_bucket_index (length bs) e.hash) psl_lem
            ∙ g.home j e p in
          let back : get_bucket_index (length bs) e.hash (e.psl - 1) ≡ idx =
            next-injective (length bs) _ idx (index-lt g.capacity _ _) g.inside at in
          subst (λ (t : Entry K V). get_bucket_index (length bs) t.hash t.psl ≡ k) b (back ∙ a)
      | inr (a, b, c) ↦ g.home k x c
    ])

    IsHashed-new : IsHashed (shifted bs idx j e)
    unfolding j
    IsHashed-new k x q = elim (origin k x q) [
      | inl (a, b) ↦ subst (λ (t : Entry K V). t.hash ≡ h.hash_one t.key) b (g.hashed j e p)
      | inr (a, b, c) ↦ g.hashed k x c
    ]

    IsDistinct-new : IsDistinct (shifted bs idx j e)
    unfolding j
    IsDistinct-new k l x y q s same = elim (origin k x q) [
      | inl (a, b) ↦ elim (origin l y s) [
        | inl (a', b') ↦ sym a ∙ a'
        | inr (a', b', c') ↦
            absurd (b' (g.distinct j l e y p c' (ap (λ (t : Entry K V). t.key) b ∙ same)))
      ]
      | inr (a, b, c) ↦ elim (origin l y s) [
        | inl (a', b') ↦
            absurd (b (g.distinct j k e x p c (ap (λ (t : Entry K V). t.key) b' ∙ sym same)))
        | inr (a', b', c') ↦ g.distinct k l x y c c' same
      ]
    ]

    Holds-new : Holds f (shifted bs idx j e)
    unfolding j
    Holds-new = record {
      sound = λ k x q. elim (origin k x q) [
        | inl (a, b) ↦ subst (λ (t : Entry K V). f t.key ≡ some t.value) b (g.holds.sound j e p)
        | inr (a, b, c) ↦ g.holds.sound k x c
      ];
      complete = λ k v q.
          let (i, x, a, b, c) = g.holds.complete k v q in
          elim (nat_cases j i) [
            | inl same ↦
                let one : e ≡ x = In-unique bs i e x (subst (λ t. In bs t e) same p) a in
                (
                  idx,
                  nearer e,
                  moved,
                  ap (λ (t : Entry K V). t.key) one ∙ b,
                  ap (λ (t : Entry K V). t.value) one ∙ c,
                )
            | inr ne ↦
                let off : idx ≢ i = λ s. cc (s, a, g.empty) in (i, x, stays i x off ne a, b, c)
          ];
    }

    -- Only the old hole has another depth.
    filled_new :
        (k : ℕ)
        → filled (shifted bs idx j e) j e.psl k ≡ (if idx == k then e.psl else filled bs idx r k)
    unfolding mid
    filled_new k =
        rw
          (
            depth-set mid j k none (rw width_mid j-lt),
            depth-set bs idx k (some (nearer e)) g.inside,
          )
          (merge_step idx j k e.psl r (depth bs k) apart far
            (λ same. depth-In bs k e (subst (λ t. In bs t e) same p')))
      where
        p' : In bs j e
        p' = unfold j in p

    -- The depth of the bucket behind the hole.
    behind : filled bs idx r j ≡ suc e.psl
    unfolding j
    behind = let a = apart in let b = depth-In bs j e p in rw b (ground arith)

    chained_new :
        (k : ℕ)
        → k < length bs
        → filled (shifted bs idx j e) j e.psl (next (length bs) k)
          ≤ filled (shifted bs idx j e) j e.psl k + 1
    chained_new k lt =
        rw (filled_new (next (length bs) k), filled_new k)
          (shift_step idx k (next (length bs) k) e.psl r (filled bs idx r k)
            (filled bs idx r (next (length bs) k)) (g.chained k lt)
            (λ same. subst (λ t. filled bs idx r t ≡ suc r) same self) near
            (λ same. subst (λ t. filled bs idx r (next (length bs) t) ≡ suc e.psl) same behind'))
      where
        self : filled bs idx r idx ≡ suc r
        self = ground arith

        behind' : filled bs idx r (next (length bs) idx) ≡ suc e.psl
        behind' = unfold j in behind

        near : e.psl ≤ suc r
        near = let c = g.chained idx g.inside in omega (arith, self, behind')

    pub shift-Hole : let j' = next (length bs) idx in Hole f n m d e.psl (shifted bs idx j' e) j'
    unfolding j mid
    shift-Hole = record {
      capacity = rw width_new g.capacity;
      home = IsHome-new;
      distinct = IsDistinct-new;
      hashed = IsHashed-new;
      holds = Holds-new;
      inside = rw width_new j-lt;
      empty = rw (get_elem?-set mid j j none (rw width_mid j-lt)) (ground arith);
      chained = λ k lt. rw width_new (chained_new k (rw width_new at lt));
      ahead =
          rw width_new
            (Ahead-map (length bs) (Spare bs idx) _ (next (length bs) j) d spare g.ahead);
      width = width_new ∙ g.width;
      counted = omega (
        arith,
        occupied-clear mid j e (set-In_ne bs idx j _ e g.inside (λ same. apart (sym same)) p),
        occupied-fill bs idx (nearer e) g.empty,
        g.counted,
      );
    }
      where
        spare : (k : ℕ) → Spare bs idx k → Spare (shifted bs idx j e) j k
        spare k (a, b) = (
          rw
              (
                get_elem?-set mid j k none (rw width_mid j-lt),
                get_elem?-set bs idx k (some (nearer e)) g.inside,
              )
              (ground (arith, b)),
          λ same. cc (subst (λ t. In bs t e) (sym same) p, a),
        )
