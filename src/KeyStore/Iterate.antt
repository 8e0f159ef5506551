-- ===== src/KeyStore/Iterate.antt =====
-- `iter` of key_store.rs against the map.
use simple_kv.Prelude.{
  suc, ◌≡◌, ◌≢◌, ◌∙◌, inl, inr, refl, sym, ap, Option, none, some, List, [], ◌∷◌, length,
  if◌then◌else◌, Option-cases, All,
}
use simple_kv.KeyStore.{Entry, HashKey, KeyStore, entries, pairs, iter}
use simple_kv.KeyStore.View.{update_self, update_ne, key_cases}
use simple_kv.KeyStore.Drain.{All-entries, In-entries, length-entries, Distinct, Distinct-entries}
use simple_kv.KeyStore.Methods.{Models}

module _ {K V : Type 0} where
  -- No key twice.
  abbrev pub IsUnique : List (K × V) → Type 0
  IsUnique [] = Unit
  IsUnique ((k, v) ∷ ps) = All (λ p. k ≢ p.0) ps × IsUnique ps

  length-pairs : (es : List (Entry K V)) → length (pairs es) ≡ length es
  unfolding pairs
  length-pairs [] = refl
  length-pairs (e ∷ es) = ap suc (length-pairs es)

  All-pairs :
      (P : K → Type 0) (es : List (Entry K V)) → All (λ e. P e.key) es → All (λ p. P p.0) (pairs es)
  unfolding pairs
  All-pairs P [] a = tt
  All-pairs P (e ∷ es) (p, a) = (p, All-pairs P es a)

  pairs-IsUnique : (es : List (Entry K V)) → Distinct es → IsUnique (pairs es)
  unfolding pairs
  pairs-IsUnique [] d = tt
  pairs-IsUnique (e ∷ es) (a, d) = (All-pairs (λ k. e.key ≢ k) es a, pairs-IsUnique es d)

module _ {K V : Type 0} ⦃h : HashKey K⦄ where
  -- The value of the first pair with the key.
  abbrev pub lookup : List (K × V) → K → Option V
  lookup [] k = none
  lookup ((j, v) ∷ ps) k = if h.eq j k then some v else lookup ps k

  pub lookup_self :
      (j : K) (v : V) (ps : List (K × V)) (k : K) → j ≡ k → lookup ((j, v) ∷ ps) k ≡ some v
  lookup_self j v ps k e = ap (lookup ((j, v) ∷ ps)) (sym e) ∙ update_self (lookup ps) j (some v)

  pub lookup_ne :
      (j : K) (v : V) (ps : List (K × V)) (k : K) → j ≢ k → lookup ((j, v) ∷ ps) k ≡ lookup ps k
  lookup_ne j v ps k ne = update_ne (lookup ps) j k (some v) ne

  pub lookup_absent : (ps : List (K × V)) (k : K) → All (λ p. k ≢ p.0) ps → lookup ps k ≡ none
  lookup_absent [] k a = refl
  lookup_absent ((j, v) ∷ ps) k (ne, a) =
      lookup_ne j v ps k (λ e. ne (sym e)) ∙ lookup_absent ps k a

  lookup_sound :
      (f : K → Option V) (es : List (Entry K V)) (k : K) (v : V)
      → All (λ e. f e.key ≡ some e.value) es
      → lookup (pairs es) k ≡ some v
      → f k ≡ some v
  unfolding pairs
  lookup_sound f [] k v a p = absurd (cc p)
  lookup_sound f (e ∷ es) k v (x, a) p = elim (key_cases e.key k) [
    | inl same ↦ ap f (sym same) ∙ x ∙ sym (lookup_self e.key e.value (pairs es) k same) ∙ p
    | inr ne ↦ lookup_sound f es k v a (sym (lookup_ne e.key e.value (pairs es) k ne) ∙ p)
  ]

  lookup-none :
      (es : List (Entry K V)) (k : K) → lookup (pairs es) k ≡ none → All (λ e. e.key ≢ k) es
  unfolding pairs
  lookup-none [] k p = tt
  lookup-none (e ∷ es) k p = elim (key_cases e.key k) [
    | inl same ↦ absurd (cc (sym p ∙ lookup_self e.key e.value (pairs es) k same))
    | inr ne ↦ (ne, lookup-none es k (sym (lookup_ne e.key e.value (pairs es) k ne) ∙ p))
  ]

  module _ {f : K → Option V} {ks : KeyStore K V} (m : Models f ks) where
    lookup-entries : (k : K) → lookup (pairs (entries ks.buckets)) k ≡ f k
    lookup-entries k = elim (Option-cases (lookup (pairs (entries ks.buckets)) k)) [
      | inr (v, p) ↦
          p
          ∙ sym (
              lookup_sound f (entries ks.buckets) k v
                (All-entries (λ e. f e.key ≡ some e.value) ks.buckets m.holds.sound) p)
      | inl p ↦ elim (Option-cases (f k)) [
        | inl q ↦ p ∙ sym q
        | inr (v, q) ↦
            let (i, e, at, same, value) = m.holds.complete k v q in
            absurd (
              In-entries (λ e. e.key ≢ k) ks.buckets i e (lookup-none (entries ks.buckets) k p) at
                same)
      ]
    ]

    -- On a store in order, `iter` gives as many pairs as `len` counts, no key twice, and exactly
    -- those of the map.
    pub iter_lem :
        (length (iter ks) ≡ ks.len) × IsUnique (iter ks) × ((k : K) → lookup (iter ks) k ≡ f k)
    unfolding iter
    iter_lem = (
      length-pairs (entries ks.buckets) ∙ length-entries ks.buckets ∙ m.counted,
      pairs-IsUnique (entries ks.buckets) (Distinct-entries ks.buckets m.robin.distinct),
      lookup-entries,
    )
