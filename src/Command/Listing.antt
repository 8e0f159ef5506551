-- ===== src/Command/Listing.antt =====
-- GETALL of command.rs against the map.
use simple_kv.Prelude.{
  ℕ, ◌≡◌, ◌≢◌, ◌⊎◌, ◌∙◌, inl, inr, refl, sym, ap, true, false, Bool-cases, List, [], ◌∷◌, All, ok,
}
use simple_kv.Util.{Bytes}
use simple_kv.Response.{Responses, array, nil, cons, cstr}
use simple_kv.KeyStore.{HashKey, iter}
use simple_kv.KeyStore.View.{key_cases}
use simple_kv.KeyStore.Methods.{Models}
use simple_kv.KeyStore.Iterate.{IsUnique, lookup, lookup_self, lookup_ne, lookup_absent, iter_lem}
use simple_kv.Command.{StoredValue, getall, is_expired}
use simple_kv.Command.Apply.{Store, fresh, pair_responses, apply_getall, apply_read}
use simple_kv.Command.Effects.{Keyspace, fresh-is_expired, fresh-alive}

-- The pairs as responses.
abbrev pub listing : List (Bytes × StoredValue) → Responses
listing [] = nil
listing ((key, value) ∷ ps) =
    cons (array (cons (cstr key) (cons (cstr value.bytes) nil))) (listing ps)

-- The pairs that are not expired.
unfoldable alive : ℕ → List (Bytes × StoredValue) → List (Bytes × StoredValue)
alive now [] = []
alive now ((key, value) ∷ ps) = elim (is_expired now value) [
  | true ↦ alive now ps
  | false ↦ (key, value) ∷ alive now ps
]

pair_responses_lem :
    (now : ℕ) (ps : List (Bytes × StoredValue)) → pair_responses now ps ≡ listing (alive now ps)
unfolding pair_responses alive
pair_responses_lem now [] = refl
pair_responses_lem now ((key, value) ∷ ps) = elim (Bool-cases (is_expired now value)) [
  | inl p ↦ rw (p, pair_responses, alive) (pair_responses_lem now ps)
  | inr p ↦
      rw (p, pair_responses, alive)
        (ap (cons (array (cons (cstr key) (cons (cstr value.bytes) nil))))
          (pair_responses_lem now ps))
]

All-alive :
    (now : ℕ) (P : Bytes → Type 0) (ps : List (Bytes × StoredValue))
    → All (λ p. P p.0) ps
    → All (λ p. P p.0) (alive now ps)
unfolding alive
All-alive now P [] a = tt
All-alive now P ((key, value) ∷ ps) (x, a) = elim (Bool-cases (is_expired now value)) [
  | inl p ↦ rw (p, alive) (All-alive now P ps a)
  | inr p ↦ rw (p, alive) (x, All-alive now P ps a)
]

alive-IsUnique : (now : ℕ) (ps : List (Bytes × StoredValue)) → IsUnique ps → IsUnique (alive now ps)
unfolding alive
alive-IsUnique now [] u = tt
alive-IsUnique now ((key, value) ∷ ps) (a, u) = elim (Bool-cases (is_expired now value)) [
  | inl p ↦ rw (p, alive) (alive-IsUnique now ps u)
  | inr p ↦ rw (p, alive) (All-alive now (λ k. key ≢ k) ps a, alive-IsUnique now ps u)
]

module _ ⦃h : HashKey Bytes⦄ where
  lookup-alive :
      (now : ℕ) (ps : List (Bytes × StoredValue)) (k : Bytes)
      → IsUnique ps
      → lookup (alive now ps) k ≡ fresh now (lookup ps k)
  unfolding alive fresh
  lookup-alive now [] k u = refl
  lookup-alive now ((key, value) ∷ ps) k (a, u) = elim (key_cases key k) [
    | inl same ↦ elim (Bool-cases (is_expired now value)) [
      | inl p ↦
          ap (λ t. lookup t k) (expired p)
          ∙ lookup-alive now ps k u
          ∙ ap (fresh now) (ap (lookup ps) (sym same) ∙ lookup_absent ps key a)
          ∙ sym (fresh-is_expired now value p)
          ∙ sym (ap (fresh now) (lookup_self key value ps k same))
      | inr p ↦
          ap (λ t. lookup t k) (kept p)
          ∙ lookup_self key value (alive now ps) k same
          ∙ sym (fresh-alive now value p)
          ∙ sym (ap (fresh now) (lookup_self key value ps k same))
    ]
    | inr ne ↦
        other ne (Bool-cases (is_expired now value))
        ∙ lookup-alive now ps k u
        ∙ sym (ap (fresh now) (lookup_ne key value ps k ne))
  ]
    where
      expired : is_expired now value ≡ true → alive now ((key, value) ∷ ps) ≡ alive now ps
      expired p = rw (p, alive)

      kept :
          is_expired now value ≡ false → alive now ((key, value) ∷ ps) ≡ (key, value) ∷ alive now ps
      kept p = rw (p, alive)

      other :
          key ≢ k
          → (is_expired now value ≡ true) ⊎ (is_expired now value ≡ false)
          → lookup (alive now ((key, value) ∷ ps)) k ≡ lookup (alive now ps) k
      other ne (inl p) = ap (λ t. lookup t k) (expired p)
      other ne (inr p) = ap (λ t. lookup t k) (kept p) ∙ lookup_ne key value (alive now ps) k ne

  -- GETALL on a store in order ends without a panic, and its response lists pairs of keys and
  -- values, no key twice, that are exactly those of the map that are not expired.
  pub getall_lem :
      {f : Keyspace} {ks : Store}
      → Models f ks
      → (now : ℕ)
      → (ps : List (Bytes × StoredValue)) × (apply_read now getall ks ≡ ok (array (listing ps)))
        × IsUnique ps
        × ((k : Bytes) → lookup ps k ≡ fresh now (f k))
  unfolding apply_read apply_getall
  getall_lem {f} {ks} m now =
      let (_, unique, same) = iter_lem m in
      (
        alive now (iter ks),
        ap (λ t. ok (array t)) (pair_responses_lem now (iter ks)),
        alive-IsUnique now (iter ks) unique,
        λ k. lookup-alive now (iter ks) k unique ∙ ap (fresh now) (same k),
      )
