-- ===== src/Command/Effects.antt =====
-- What the commands of command.rs do to the map from keys to stored values, and their responses.
use mathlib.Core.Option
use simple_kv.Prelude.{
  ℕ, suc, ◌+◌, ◌*◌, ◌^◌, ◌≤◌, ◌≡◌, ◌∙◌, inl, inr, refl, sym, ap, subst, true, false, Option, none,
  some, is_some, List, [], ◌∷◌, length, Bool-cases, arith, Returns, ◌>>=◌,
}
use simple_kv.Prelude.Int.{as_i64}
use simple_kv.Util.{Bytes, bytes_eq}
use simple_kv.Response.{Response, integer}
use simple_kv.KeyStore.{HashKey}
use simple_kv.KeyStore.View.{update, update_self, update_ne, key_cases}
use simple_kv.KeyStore.Methods.{Models, Models_congr, Keeps, get_lem, get_mut_lem}
use simple_kv.KeyStore.Delete.{del_lem}
use simple_kv.KeyStore.Put.{Grows, insert_lem}
use simple_kv.Command.{
  StoredValue, is_expired, new_value, Command, mget, mset, getall, ttl, is_write_op, name,
}
use simple_kv.Command.Apply.{
  Store, fresh, is_stale, eject_if_expired, tally, del_keys, apply_del, apply_set, set_entries,
  apply_mset, expire, expire_response, apply_expire_at, apply_write,
}

abbrev pub Keyspace : Type 0
Keyspace = Bytes → Option StoredValue

-- Room for `n` new entries: the table, twice as large, stays within a `usize`.
pub record HasRoom (n : ℕ) (ks : Store) : Type 0 where
  pub table : length ks.buckets * 2 ≤ 2 ^ 64
  pub load : 16 * (ks.len + n) ≤ 3 * 2 ^ 64

-- The entries that a command can add.
abbrev pub added : Command → ℕ
added (Command.set key value) = 1
added (mset entries) = length entries
added c = 0

pub fresh-is_expired :
    (now : ℕ) (v : StoredValue) → is_expired now v ≡ true → fresh now (some v) ≡ none
unfolding fresh
fresh-is_expired now v p = rw (p, fresh)

pub fresh-alive :
    (now : ℕ) (v : StoredValue) → is_expired now v ≡ false → fresh now (some v) ≡ some v
unfolding fresh
fresh-alive now v p = rw (p, fresh)

module _ ⦃h : HashKey Bytes⦄ where
  unfoldable pub removed : List Bytes → Keyspace → Keyspace
  removed [] f = f
  removed (key ∷ keys) f = removed keys (update f key none)

  -- The keys that were there, and not expired, when their turn came.
  unfoldable pub live : ℕ → List Bytes → Keyspace → ℕ
  live now [] f = 0
  live now (key ∷ keys) f = tally (fresh now (f key)) + live now keys (update f key none)

  unfoldable pub stored : List (Bytes × Bytes) → Keyspace → Keyspace
  stored [] f = f
  stored ((key, value) ∷ entries) f = stored entries (update f key (some (new_value value)))

  -- The map after a write.
  unfoldable pub effect : ℕ → Command → Keyspace → Keyspace
  effect now (Command.del keys) f = removed keys f
  effect now (Command.set key value) f = update f key (some (new_value value))
  effect now (mset entries) f = stored entries f
  effect now (Command.expire_at key timestamp) f =
      update f key (Option.map (expire timestamp) (fresh now (f key)))
  effect now c f = f

  -- The response of a write.
  unfoldable pub reply : ℕ → Command → Keyspace → Response
  reply now (Command.del keys) f = integer (as_i64 (live now keys f))
  reply now (Command.expire_at key timestamp) f = expire_response (is_some (fresh now (f key)))
  reply now c f = Response.ok

  update_twice :
      (f : Keyspace) (key : Bytes) (a b : Option StoredValue) (k : Bytes)
      → update (update f key a) key b k ≡ update f key b k
  update_twice f key a b k = elim (Bool-cases (h.eq key k)) [ inl p ↦ rw p | inr p ↦ rw p ]

  update_same :
      (f : Keyspace) (key : Bytes) (o : Option StoredValue)
      → o ≡ f key
      → (k : Bytes) → f k ≡ update f key o k
  update_same f key o p k = elim (key_cases key k) [
    | inl e ↦ sym (ap f e) ∙ sym p ∙ sym (update_self f key o) ∙ ap (update f key o) e
    | inr ne ↦ sym (update_ne f key k o ne)
  ]

  module _ {f : Keyspace} {ks : Store} (m : Models f ks) (now : ℕ) where
    fresh_not-stale : (o : Option StoredValue) → is_stale now o ≡ false → fresh now o ≡ o
    unfolding fresh is_stale
    fresh_not-stale none p = refl
    fresh_not-stale (some v) p = rw (p, fresh)

    fresh_stale : (o : Option StoredValue) → is_stale now o ≡ true → fresh now o ≡ none
    unfolding fresh is_stale
    fresh_stale none p = absurd (cc p)
    fresh_stale (some v) p = rw (p, fresh)

    -- On a store in order, `eject_if_expired` ends without a panic and removes the key if its value
    -- is expired; the rest of the map stays, with no entry more and the same number of buckets.
    pub eject_if_expired_lem :
        (key : Bytes)
        → Returns
            (eject_if_expired now ks key)
            λ r. Models (update f key (fresh now (f key))) r × Keeps ks r
    unfolding eject_if_expired
    eject_if_expired_lem key = elim (Bool-cases (is_stale now (f key))) [
      | inl p ↦
          let (r, run, (a, b, kept)) = del_lem m key in
          (
            r.1,
            rw (get_lem m key, ◌>>=◌, p, run),
            (subst (λ t. Models (update f key t) r.1) (sym (fresh_stale (f key) p)) b, kept),
          )
      | inr p ↦ (
        ks,
        rw (get_lem m key, ◌>>=◌, p),
        (
          Models_congr (update f key (fresh now (f key)))
              (update_same f key _ (fresh_not-stale (f key) p)) m,
          (omega arith, refl),
        ),
      )
    ]

  pub Keeps-trans : (a b c : Store) → Keeps a b → Keeps b c → Keeps a c
  Keeps-trans a b c (count, w) (count', w') = (omega (arith, count, count'), w' ∙ w)

  HasRoom-eq : {ks : Store} (a b : ℕ) → a ≡ b → HasRoom a ks → HasRoom b ks
  HasRoom-eq {ks} a b e room = subst (λ t. HasRoom t ks) e room

  pub Keeps-HasRoom : {n : ℕ} {ks r : Store} → HasRoom n ks → Keeps ks r → HasRoom n r
  Keeps-HasRoom room (count, w) = record {
    table = rw w room.table;
    load = omega (arith, room.load, count);
  }

  del_keys_lem :
      (keys : List Bytes) {f : Keyspace} {ks : Store}
      → Models f ks
      → (now : ℕ)
      → Returns
          (del_keys now keys ks)
          λ r. (r.0 ≡ live now keys f) × Models (removed keys f) r.1 × Keeps ks r.1
  unfolding del_keys live removed
  del_keys_lem [] {f} {ks} m now = ((0, ks), refl, (refl, m, (omega arith, refl)))
  del_keys_lem (key ∷ keys) {f} {ks} m now =
      let (ks₁, run, (m₁, kept)) = eject_if_expired_lem m now key in
      let (r, run', (a, b, kept')) = del_lem m₁ key in
      let m₂ = Models_congr (update f key none) (update_twice f key _ none) b in
      let (q, run'', (c, d, kept'')) = del_keys_lem keys m₂ now in
      (
        (tally r.0 + q.0, q.1),
        rw (run, run', run''),
        (
          rw (a ∙ update_self f key (fresh now (f key)), c) refl,
          d,
          Keeps-trans _ _ _ kept (Keeps-trans _ _ _ kept' kept''),
        ),
      )

  room_step :
      {n : ℕ} {ks r : Store} → HasRoom (suc n) ks → Grows ks.len (length ks.buckets) r → HasRoom n r
  room_step room (count, inl w) = record {
    table = rw w room.table;
    load = omega (arith, room.load, count);
  }
  room_step room (count, inr w) = record {
    table = omega (arith, room.load, count, w);
    load = omega (arith, room.load, count);
  }

  set_entries_lem :
      (entries : List (Bytes × Bytes)) {f : Keyspace} {ks : Store}
      → Models f ks
      → (n : ℕ) → HasRoom (length entries + n) ks
      → Returns (set_entries entries ks) λ r. Models (stored entries f) r × HasRoom n r
  unfolding set_entries stored
  set_entries_lem [] {f} {ks} m n room = (ks, refl, (m, HasRoom-eq (0 + n) n (omega arith) room))
  set_entries_lem ((key, value) ∷ entries) {f} {ks} m n room =
      let (r, run, (a, b, g)) = insert_lem m key (new_value value) room.table in
      let (q, run', c) = set_entries_lem entries b n (
        room_step
          (HasRoom-eq (suc (length entries) + n) (suc (length entries + n)) (omega arith) room)
          g) in
      (q, rw (run, run'), c)

  expired_map :
      (f : Keyspace) (key : Bytes) (w : StoredValue → StoredValue) (x o : Option StoredValue)
      {r : Store}
      → o ≡ x
      → Models
          (elim o [ none ↦ update f key x | some v ↦ update (update f key x) key (some (w v)) ])
          r
      → Models (update f key (Option.map w x)) r
  expired_map f key w x none {r} p m =
      subst (λ t. Models (update f key (Option.map w t)) r) p
        (subst (λ t. Models (update f key t) r) (sym p) m)
  expired_map f key w x (some v) {r} p m =
      subst (λ t. Models (update f key (Option.map w t)) r) p
        (Models_congr (update f key (some (w v))) (update_twice f key x (some (w v))) m)

  apply_expire_at_lem :
      {f : Keyspace} {ks : Store}
      → Models f ks
      → (now : ℕ) (key : Bytes) (timestamp : ℕ)
      → Returns (apply_expire_at now key timestamp ks) λ r.
        (r.0 ≡ expire_response (is_some (fresh now (f key))))
        × Models (update f key (Option.map (expire timestamp) (fresh now (f key)))) r.1
        × Keeps ks r.1
  unfolding apply_expire_at
  apply_expire_at_lem {f} {ks} m now key timestamp =
      let x = fresh now (f key) in
      let (ks₁, run, (m₁, kept)) = eject_if_expired_lem m now key in
      let (r, run', (a, b, kept')) = get_mut_lem m₁ (expire timestamp) key in
      (
        (expire_response r.0, r.1),
        rw (run, run'),
        (
          ap expire_response (a ∙ ap is_some (update_self f key x)),
          expired_map f key (expire timestamp) x (update f key x key) (update_self f key x) b,
          Keeps-trans _ _ _ kept kept',
        ),
      )

  -- A write command on a store that is in order, with room for its entries, ends without a panic;
  -- its response and the map it leaves are those of `reply` and `effect`, the store is in order
  -- again, and room for `n` more entries is kept.
  pub apply_write_lem :
      {f : Keyspace} {ks : Store}
      → Models f ks
      → (now : ℕ) (c : Command) → is_write_op c ≡ true
      → (n : ℕ) → HasRoom (added c + n) ks
      → Returns
          (apply_write now c ks)
          λ r. (r.0 ≡ reply now c f) × Models (effect now c f) r.1 × HasRoom n r.1
  unfolding apply_write reply effect apply_del apply_set apply_mset is_write_op name bytes_eq
  apply_write_lem m now (Command.del keys) w n room =
      let (r, run, (a, b, kept)) = del_keys_lem keys m now in
      (
        (integer (as_i64 r.0), r.1),
        rw run,
        (
          ap (λ t. integer (as_i64 t)) a,
          b,
          Keeps-HasRoom (HasRoom-eq (0 + n) n (omega arith) room) kept,
        ),
      )
  apply_write_lem m now (Command.set key value) w n room =
      let (r, run, (a, b, g)) = insert_lem m key (new_value value) room.table in
      (
        (Response.ok, r.1),
        rw run,
        (refl, b, room_step (HasRoom-eq (1 + n) (suc n) (omega arith) room) g),
      )
  apply_write_lem m now (mset entries) w n room =
      let (r, run, (a, room')) = set_entries_lem entries m n room in
      ((Response.ok, r), rw run, (refl, a, room'))
  apply_write_lem m now (Command.expire_at key timestamp) w n room =
      let (r, run, (a, b, kept)) = apply_expire_at_lem m now key timestamp in
      (r, run, (a, b, Keeps-HasRoom (HasRoom-eq (0 + n) n (omega arith) room) kept))
  apply_write_lem m now (Command.get key) w n room = absurd (cc w)
  apply_write_lem m now (mget keys) w n room = absurd (cc w)
  apply_write_lem m now getall w n room = absurd (cc w)
  apply_write_lem m now (ttl key) w n room = absurd (cc w)
