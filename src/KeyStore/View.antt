-- ===== src/KeyStore/View.antt =====
-- The map from keys to values that the buckets of key_store.rs stand for.
use simple_kv.Prelude.{
  ℕ, ◌≡◌, ◌≢◌, refl, Option, none, sym, ◌∙◌, ap, some, if◌then◌else◌, Bool-cases, ◌⊎◌, inl, inr,
}
use simple_kv.KeyStore.{Entry, Buckets, HashKey}
use simple_kv.KeyStore.Invariant.{In}

module _ {K V : Type 0} where
  -- The buckets hold exactly the pairs of the map `f`.
  pub record Holds (f : K → Option V) (bs : Buckets K V) : Type 0 where
    pub sound : (i : ℕ) (e : Entry K V) → In bs i e → f e.key ≡ some e.value
    pub complete :
        (k : K) (v : V)
        → f k ≡ some v
        → (i : ℕ) × (e : Entry K V) × In bs i e × (e.key ≡ k) × (e.value ≡ v)

module _ {K V : Type 0} ⦃h : HashKey K⦄ where
  -- The map `f` with `o` at the key `k`.
  abbrev pub update : (K → Option V) → K → Option V → K → Option V
  update f k o j = if h.eq k j then o else f j

  pub update_self : (f : K → Option V) (k : K) (o : Option V) → update f k o k ≡ o
  update_self f k o = rw ((h.eq_iff k k).1 refl)

  pub update_ne : (f : K → Option V) (k j : K) (o : Option V) → k ≢ j → update f k o j ≡ f j
  update_ne f k j o ne = elim (Bool-cases (h.eq k j)) [
    | inl p ↦ absurd (ne ((h.eq_iff k j).0 p))
    | inr p ↦ rw p
  ]

module _ {K : Type 0} ⦃h : HashKey K⦄ where
  pub key_cases : (k j : K) → (k ≡ j) ⊎ (k ≢ j)
  key_cases k j = elim (Bool-cases (h.eq k j)) [
    | inl p ↦ inl ((h.eq_iff k j).0 p)
    | inr p ↦ inr (λ e. cc (p, (h.eq_iff k j).1 e))
  ]

module _ {K V : Type 0} ⦃h : HashKey K⦄ where
  -- To clear a key that is not there changes nothing.
  pub update_absent : (f : K → Option V) (k j : K) → f k ≡ none → f j ≡ update f k none j
  update_absent f k j p = elim (key_cases k j) [
    | inl e ↦ sym (ap f e) ∙ p ∙ sym (update_self f k none) ∙ ap (update f k none) e
    | inr ne ↦ sym (update_ne f k j none ne)
  ]
