-- ===== src/KeyStore/Drain.antt =====
-- The loop of `resize` in key_store.rs over the old entries: it leaves the map as it was.
use simple_kv.Prelude.{
  ℕ, zero, suc, ◌+◌, ◌<◌, ◌≡◌, ◌≢◌, ◌⊎◌, ◌∙◌, inl, inr, refl, sym, ap, Option, none, some, List, [],
  ◌∷◌, length, Option-cases, All, arith, Returns,
}
use simple_kv.KeyStore.{Entry, Buckets, HashKey, insert_entry, insert_all, entries}
use simple_kv.KeyStore.Slot.{index-lt}
use simple_kv.KeyStore.Invariant.{In, IsDistinct, IsRobinHood}
use simple_kv.KeyStore.Gap.{occupied, gap}
use simple_kv.KeyStore.View.{Holds, update, update_self, update_ne, key_cases}
use simple_kv.KeyStore.Place.{spot}
use simple_kv.KeyStore.Insert.{Placed, Going, place_lem}

module _ {K V : Type 0} where
  -- What holds of every bucket's entry holds of every entry that `iter` meets.
  pub All-entries :
      (P : Entry K V → Type 0) (bs : Buckets K V)
      → ((i : ℕ) (e : Entry K V) → In bs i e → P e)
      → All P (entries bs)
  unfolding entries
  All-entries P [] f = tt
  All-entries P (none ∷ bs) f = All-entries P bs (λ i e p. f (suc i) e p)
  All-entries P (some e ∷ bs) f = (f 0 e refl, All-entries P bs (λ i e p. f (suc i) e p))

  -- And the other way round.
  pub In-entries :
      (P : Entry K V → Type 0) (bs : Buckets K V) (i : ℕ) (e : Entry K V)
      → All P (entries bs)
      → In bs i e
      → P e
  unfolding entries
  In-entries P [] i e a p = absurd (cc p)
  In-entries P (none ∷ bs) zero e a p = absurd (cc p)
  In-entries P (none ∷ bs) (suc i) e a p = In-entries P bs i e a p
  In-entries P (some x ∷ bs) zero e (a, _) p = let q : x ≡ e = cc p in rw (← q) a
  In-entries P (some x ∷ bs) (suc i) e (_, a) p = In-entries P bs i e a p

  pub length-entries : (bs : Buckets K V) → length (entries bs) ≡ occupied bs
  unfolding entries occupied
  length-entries [] = refl
  length-entries (none ∷ bs) = length-entries bs
  length-entries (some e ∷ bs) = ap suc (length-entries bs)

  -- No two entries of the list have the same key.
  abbrev pub Distinct : List (Entry K V) → Type 0
  Distinct [] = Unit
  Distinct (e ∷ es) = All (λ x. e.key ≢ x.key) es × Distinct es

  pub Distinct-entries : (bs : Buckets K V) → IsDistinct bs → Distinct (entries bs)
  unfolding entries
  Distinct-entries [] d = tt
  Distinct-entries (none ∷ bs) d =
      Distinct-entries bs (λ i j e f p q k. let t = d (suc i) (suc j) e f p q k in omega arith)
  Distinct-entries (some e ∷ bs) d = (
    All-entries (λ x. e.key ≢ x.key) bs
        (λ i x p k. let t = d 0 (suc i) e x refl p k in omega arith),
    Distinct-entries bs (λ i j e f p q k. let t = d (suc i) (suc j) e f p q k in omega arith),
  )

module _ {K V : Type 0} ⦃h : HashKey K⦄ where
  -- The map `g` with the pairs of the entries on top.
  abbrev pub overlay : List (Entry K V) → (K → Option V) → K → Option V
  overlay [] g = g
  overlay (e ∷ es) g = overlay es (update g e.key (some e.value))

  -- An entry with psl 0 whose key is not in the table may start from its first bucket.
  pub start-Going :
      (g : K → Option V) (bs : Buckets K V) (x : Entry K V)
      → IsRobinHood bs
      → Holds g bs
      → occupied bs < length bs
      → x.hash ≡ h.hash_one x.key
      → x.psl ≡ 0
      → g x.key ≡ none
      → (d : ℕ) × (d < length bs)
        × Going (update g x.key (some x.value)) (length bs) (occupied bs) d bs x
  start-Going g bs x r holds spare hashed zero_psl absent =
      let (d, lt, a) = gap bs (spot bs x) spare (index-lt r.capacity _ _) in
      (
        d,
        lt,
        record {
          robin = r;
          hand = record {
            hashed = hashed;
            fresh = fresh;
            backed = λ j _ _. rw zero_psl (omega arith);
          };
          carries = record {
            sound = λ i e p.
                update_ne g x.key e.key (some x.value) (λ k. fresh i e p (sym k))
                ∙ holds.sound i e p;
            in_hand = update_self g x.key (some x.value);
            complete = λ k v p. complete k v p (key_cases x.key k);
          };
          ahead = a;
          width = refl;
          counted = refl;
        },
      )
    where
      fresh : (i : ℕ) (e : Entry K V) → In bs i e → e.key ≢ x.key
      fresh i e p k = cc (holds.sound i e p, ap g k, absent)

      complete :
          (k : K) (v : V)
          → update g x.key (some x.value) k ≡ some v
          → (x.key ≡ k) ⊎ (x.key ≢ k)
          → ((x.key ≡ k) × (x.value ≡ v))
            ⊎ ((i : ℕ) × (e : Entry K V) × In bs i e × (e.key ≡ k) × (e.value ≡ v))
      complete k v p (inl same) =
          let q : some x.value ≡ some v =
            sym (update_self g x.key (some x.value))
            ∙ ap (update g x.key (some x.value)) same
            ∙ p in
          inl (same, cc q)
      complete k v p (inr ne) =
          inr (holds.complete k v (sym (update_ne g x.key k (some x.value) ne) ∙ p))

  abbrev Fresh : (K → Option V) → Entry K V → Type 0
  Fresh g x = (x.hash ≡ h.hash_one x.key) × (g x.key ≡ none)

  Fresh-on :
      (g : K → Option V) (k : K) (v : V) (es : List (Entry K V))
      → All (λ x. k ≢ x.key) es
      → All (Fresh g) es
      → All (Fresh (update g k (some v))) es
  Fresh-on g k v [] a b = tt
  Fresh-on g k v (e ∷ es) (ne, a) ((p, q), b) =
      ((p, update_ne g k e.key (some v) ne ∙ q), Fresh-on g k v es a b)

  pub insert_all_lem :
      (g : K → Option V) (n m : ℕ) (es : List (Entry K V)) (bs : Buckets K V)
      → Placed g n m bs
      → m + length es < n
      → Distinct es
      → All (Fresh g) es
      → Returns (insert_all es bs) (Placed (overlay es g) n (m + length es))
  unfolding insert_all insert_entry
  insert_all_lem g n m [] bs t lt d a = let e : m + 0 ≡ m = omega arith in (bs, refl, rw e t)
  insert_all_lem g n m (e ∷ es) bs t lt (apart, d) ((hashed, absent), a) =
      let x : Entry K V = record e { psl = 0 } in
      let (dist, near, go) =
        start-Going g bs x t.robin t.holds (omega (arith, t.width, t.counted)) hashed refl absent in
      let (bs', run, q) =
        place_lem (update g e.key (some e.value)) (length bs) (occupied bs) (length bs) dist bs x
          near go in
      let one : m + length (e ∷ es) ≡ (m + 1) + length es = omega arith in
      let q' : Placed (update g e.key (some e.value)) n (m + 1) bs' = record {
        robin = q.robin;
        holds = q.holds;
        width = q.width ∙ t.width;
        counted = omega (arith, q.counted, t.counted);
      } in
      let (bs'', run', s) =
        insert_all_lem (update g e.key (some e.value)) n (m + 1) es bs' q' (omega arith) d
          (Fresh-on g e.key e.value es apart a) in
      (bs'', rw run run', rw one s)

  -- The overlay has the value of the map at every key of the list, and changes no other.
  overlay_cases :
      (f g : K → Option V) (es : List (Entry K V)) (k : K)
      → All (λ e. f e.key ≡ some e.value) es
      → (overlay es g k ≡ f k) ⊎ ((overlay es g k ≡ g k) × All (λ e. e.key ≢ k) es)
  overlay_cases f g [] k a = inr (refl, tt)
  overlay_cases f g (e ∷ es) k (p, a) =
      elim (overlay_cases f (update g e.key (some e.value)) es k a) [
        | inl q ↦ inl q
        | inr (q, b) ↦ elim (key_cases e.key k) [
          | inl same ↦ inl (
              q
              ∙ sym (ap (update g e.key (some e.value)) same)
              ∙ update_self g e.key (some e.value)
              ∙ sym p
              ∙ ap f same)
          | inr ne ↦ inr (q ∙ update_ne g e.key k (some e.value) ne, (ne, b))
        ]
      ]

  -- The entries of a table, on top of nothing, are its map.
  pub overlay-entries :
      (f : K → Option V) (bs : Buckets K V) (k : K)
      → Holds f bs
      → overlay (entries bs) (λ _. none) k ≡ f k
  overlay-entries f bs k holds =
      elim (overlay_cases f (λ _. none) (entries bs) k
        (All-entries (λ e. f e.key ≡ some e.value) bs holds.sound)) [
          | inl q ↦ q
          | inr (q, b) ↦ elim (Option-cases (f k)) [
            | inl z ↦ q ∙ sym z
            | inr (v, z) ↦
                let (i, e, p, s, _) = holds.complete k v z in
                absurd (In-entries (λ e. e.key ≢ k) bs i e b p s)
          ]
        ]
