-- ===== src/KeyStore/Gap.antt =====
-- Empty buckets of key_store.rs, and how far ahead on the ring the next one is: the measure that
-- ends every probe loop.
use simple_kv.Prelude.{
  ℕ, zero, suc, ◌+◌, ◌-◌, ◌<◌, ◌≡◌, inl, inr, refl, sym, ap, subst, none, some, [], ◌∷◌, length,
  get_elem?, set, replicate, leb, Bool-cases, leb→le, leb→lt, arith,
}
use simple_kv.KeyStore.{Entry, Buckets}
use simple_kv.KeyStore.Slot.{next}

-- `P` holds `d` steps ahead of bucket `i`.
abbrev pub Ahead : ℕ → (ℕ → Type 0) → ℕ → ℕ → Type 0
Ahead n P i zero = P i
Ahead n P i (suc d) = Ahead n P (next n i) d

pub Ahead-map :
    (n : ℕ) (P Q : ℕ → Type 0) (i d : ℕ) → ((j : ℕ) → P j → Q j) → Ahead n P i d → Ahead n Q i d
Ahead-map n P Q i zero f a = f i a
Ahead-map n P Q i (suc d) f a = Ahead-map n P Q (next n i) d f a

Ahead-up : (n : ℕ) (P : ℕ → Type 0) (d i : ℕ) → i + d < n → P (i + d) → Ahead n P i d
Ahead-up n P zero i lt p = let e : i + 0 ≡ i = omega arith in rw e at p
Ahead-up n P (suc d) i lt p =
    let e : i + suc d ≡ (i + 1) + d = omega arith in
    let s : next n i ≡ i + 1 = ground arith in
    rw s (Ahead-up n P d (i + 1) (omega arith) (rw e at p))

Ahead-wrap :
    (n : ℕ) (P : ℕ → Type 0) (d i k : ℕ) → i + suc d ≡ n → Ahead n P 0 k → Ahead n P i (suc (d + k))
Ahead-wrap n P zero i k e a =
    let s : next n i ≡ 0 = ground arith in let t : 0 + k ≡ k = omega arith in rw (t, s) a
Ahead-wrap n P (suc d) i k e a =
    let s : next n i ≡ i + 1 = ground arith in
    let t : suc d + k ≡ suc (d + k) = omega arith in
    rw t
      (subst (λ j. Ahead n P j (suc (d + k))) (sym s) (Ahead-wrap n P d (i + 1) k (omega arith) a))

-- Every bucket lies less than a round ahead of every other.
pub Ahead-any :
    (n : ℕ) (P : ℕ → Type 0) (i j : ℕ) → i < n → j < n → P j → (d : ℕ) × (d < n) × Ahead n P i d
Ahead-any n P i j lt lt' p = elim (Bool-cases (leb i j)) [
  | inl q ↦
      let le = leb→le i j q in
      let e : j ≡ i + (j - i) = omega arith in
      (j - i, omega arith, Ahead-up n P (j - i) i (omega arith) (subst P e p))
  | inr q ↦
      let le = leb→lt i j q in
      let e : j ≡ 0 + j = omega arith in
      (
        suc ((n - i - 1) + j),
        omega arith,
        Ahead-wrap n P (n - i - 1) i j (omega arith) (Ahead-up n P j 0 (omega arith) (subst P e p)),
      )
]

module _ {K V : Type 0} where
  abbrev pub Empty : Buckets K V → ℕ → Type 0
  Empty bs i = get_elem? bs i ≡ some none

  -- The number of entries in the buckets.
  unfoldable pub occupied : Buckets K V → ℕ
  occupied [] = 0
  occupied (none ∷ bs) = occupied bs
  occupied (some e ∷ bs) = suc (occupied bs)

  pub occupied-fill :
      (bs : Buckets K V) (i : ℕ) (e : Entry K V)
      → Empty bs i
      → occupied (set bs i (some e)) ≡ occupied bs + 1
  unfolding occupied
  occupied-fill [] i e h = ground arith
  occupied-fill (none ∷ bs) zero e h = omega arith
  occupied-fill (some x ∷ bs) zero e h = ground arith
  occupied-fill (none ∷ bs) (suc i) e h = occupied-fill bs i e h
  occupied-fill (some x ∷ bs) (suc i) e h = omega (arith, occupied-fill bs i e h)

  pub occupied-clear :
      (bs : Buckets K V) (i : ℕ) (e : Entry K V)
      → get_elem? bs i ≡ some (some e)
      → occupied (set bs i none) + 1 ≡ occupied bs
  unfolding occupied
  occupied-clear [] i e h = ground arith
  occupied-clear (none ∷ bs) zero e h = ground arith
  occupied-clear (some x ∷ bs) zero e h = omega arith
  occupied-clear (none ∷ bs) (suc i) e h = occupied-clear bs i e h
  occupied-clear (some x ∷ bs) (suc i) e h = omega (arith, occupied-clear bs i e h)

  pub occupied-rewrite :
      (bs : Buckets K V) (i : ℕ) (e x : Entry K V)
      → get_elem? bs i ≡ some (some e)
      → occupied (set bs i (some x)) ≡ occupied bs
  unfolding occupied
  occupied-rewrite [] i e x h = ground arith
  occupied-rewrite (none ∷ bs) zero e x h = ground arith
  occupied-rewrite (some y ∷ bs) zero e x h = refl
  occupied-rewrite (none ∷ bs) (suc i) e x h = occupied-rewrite bs i e x h
  occupied-rewrite (some y ∷ bs) (suc i) e x h = ap suc (occupied-rewrite bs i e x h)

  pub Empty_of_lt :
      (bs : Buckets K V) → occupied bs < length bs → (j : ℕ) × (j < length bs) × Empty bs j
  unfolding occupied
  Empty_of_lt [] h = absurd (omega arith)
  Empty_of_lt (none ∷ bs) h = (0, omega arith, refl)
  Empty_of_lt (some e ∷ bs) h =
      let (j, lt, p) = Empty_of_lt bs (omega arith) in (suc j, omega arith, p)

  -- With a bucket to spare, each bucket has an empty one less than a round ahead.
  pub gap :
      (bs : Buckets K V) (i : ℕ)
      → occupied bs < length bs
      → i < length bs
      → (d : ℕ) × (d < length bs) × Ahead (length bs) (Empty bs) i d
  gap bs i h lt =
      let (j, lt', p) = Empty_of_lt bs h in Ahead-any (length bs) (Empty bs) i j lt lt' p

pub occupied-replicate : (K V : Type 0) (n : ℕ) → occupied {K = K} {V = V} (replicate n none) ≡ 0
unfolding occupied
occupied-replicate K V zero = refl
occupied-replicate K V (suc n) = occupied-replicate K V n
