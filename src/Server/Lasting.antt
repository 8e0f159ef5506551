-- ===== src/Server/Lasting.antt =====
-- The write-ahead log of server.rs with expirations, before the first of them is due.
use simple_kv.Prelude.{
  ℕ, suc, ◌+◌, ◌^◌, ◌≤◌, ◌<◌, ◌≡◌, ◌∙◌, inl, inr, refl, sym, ap, Bool, false, Bool-cases, leb,
  Option, none, some, List, [], ◌∷◌, length, All, arith, Returns,
}
use mathlib.Core.Option
use simple_kv.Util.{Bytes}
use simple_kv.Request.{Chunk}
use simple_kv.Request.Chunks.{contents, IsStream}
use simple_kv.KeyStore.{HashKey}
use simple_kv.KeyStore.View.{update, update_self, update_ne, key_cases}
use simple_kv.KeyStore.Methods.{Models}
use simple_kv.Command.{Command, StoredValue, new_value, mset, is_expired}
use simple_kv.Command.Apply.{fresh, expire}
use simple_kv.Command.Effects.{Keyspace, removed, stored, effect, fresh-is_expired, fresh-alive}
use simple_kv.Server.{from_wal}
use simple_kv.Server.Replay.{log_bytes, needed, IsLogged, replayed}
use simple_kv.Server.Recovery.{start, write_all, recovery-replayed}

-- A write that sets no expiration up to the time `t`.
pub data IsLasting (t : ℕ) : Command → Type 0 where
  set_lasting : {key value : Bytes} → IsLasting t (Command.set key value)
  mset_lasting : {entries : List (Bytes × Bytes)} → IsLasting t (mset entries)
  del_lasting : {keys : List Bytes} → IsLasting t (Command.del keys)
  expire_at_lasting :
      {key : Bytes} {timestamp : ℕ} → t < timestamp → IsLasting t (Command.expire_at key timestamp)

-- Nothing in the map is expired at `t`.
abbrev Lasts : ℕ → Keyspace → Type 0
Lasts t f = (k : Bytes) → fresh t (f k) ≡ f k

abbrev due : ℕ → Option ℕ → Bool
due now o = elim o [ none ↦ false | some expires_at ↦ leb expires_at now ]

due_le : (a t : ℕ) (o : Option ℕ) → a ≤ t → due t o ≡ false → due a o ≡ false
due_le a t none h p = refl
due_le a t (some e) h p = ground arith

is_expired_le :
    (a t : ℕ) (v : StoredValue) → a ≤ t → is_expired t v ≡ false → is_expired a v ≡ false
unfolding is_expired
is_expired_le a t v h p = due_le a t v.expires_at h p

fresh_le : (a t : ℕ) (o : Option StoredValue) → a ≤ t → fresh t o ≡ o → fresh a o ≡ o
unfolding fresh
fresh_le a t none h p = refl
fresh_le a t (some v) h p = elim (Bool-cases (is_expired t v)) [
  | inl q ↦ absurd (cc (sym (fresh-is_expired t v q) ∙ p))
  | inr q ↦ fresh-alive a v (is_expired_le a t v h q)
]

fresh-new_value : (t : ℕ) (b : Bytes) → fresh t (some (new_value b)) ≡ some (new_value b)
unfolding fresh is_expired
fresh-new_value t b = refl

leb_gt : (t timestamp : ℕ) → t < timestamp → leb timestamp t ≡ false
leb_gt t timestamp h = ground arith

module _ ⦃h : HashKey Bytes⦄ where
  fresh-expire :
      (t timestamp : ℕ) (o : Option StoredValue)
      → t < timestamp
      → fresh t (Option.map (expire timestamp) o) ≡ Option.map (expire timestamp) o
  unfolding fresh is_expired
  fresh-expire t timestamp none h = refl
  fresh-expire t timestamp (some v) h = rw (leb_gt t timestamp h, fresh)

  update-Lasts :
      (t : ℕ) (f : Keyspace) (key : Bytes) (o : Option StoredValue)
      → fresh t o ≡ o
      → Lasts t f
      → Lasts t (update f key o)
  update-Lasts t f key o p l k = elim (key_cases key k) [
    | inl e ↦
        let q : update f key o k ≡ o = ap (update f key o) (sym e) ∙ update_self f key o in
        ap (fresh t) q ∙ p ∙ sym q
    | inr ne ↦ let q = update_ne f key k o ne in ap (fresh t) q ∙ l k ∙ sym q
  ]

  removed-Lasts : (t : ℕ) (keys : List Bytes) (f : Keyspace) → Lasts t f → Lasts t (removed keys f)
  unfolding removed fresh
  removed-Lasts t [] f l = l
  removed-Lasts t (key ∷ keys) f l =
      removed-Lasts t keys (update f key none) (update-Lasts t f key none refl l)

  stored-Lasts :
      (t : ℕ) (es : List (Bytes × Bytes)) (f : Keyspace) → Lasts t f → Lasts t (stored es f)
  unfolding stored
  stored-Lasts t [] f l = l
  stored-Lasts t ((key, value) ∷ es) f l =
      stored-Lasts t es (update f key (some (new_value value)))
        (update-Lasts t f key (some (new_value value)) (fresh-new_value t value) l)

  effect-Lasts :
      (a t : ℕ) (c : Command) (f : Keyspace)
      → IsLasting t c
      → a ≤ t
      → Lasts t f
      → Lasts t (effect a c f)
  unfolding effect
  effect-Lasts a t _ f (set_lasting {key = key} {value = value}) le l =
      update-Lasts t f key (some (new_value value)) (fresh-new_value t value) l
  effect-Lasts a t _ f (mset_lasting {entries = entries}) le l = stored-Lasts t entries f l
  effect-Lasts a t _ f (del_lasting {keys = keys}) le l = removed-Lasts t keys f l
  effect-Lasts a t _ f (expire_at_lasting {key = key} {timestamp = timestamp} lt) le l =
      update-Lasts t f key (Option.map (expire timestamp) (fresh a (f key)))
        (fresh-expire t timestamp (fresh a (f key)) lt) l

  effect-IsLasting :
      (a b t : ℕ) (c : Command) (f : Keyspace)
      → IsLasting t c
      → a ≤ t
      → b ≤ t
      → Lasts t f
      → effect a c f ≡ effect b c f
  unfolding effect
  effect-IsLasting a b t _ f set_lasting la lb l = refl
  effect-IsLasting a b t _ f mset_lasting la lb l = refl
  effect-IsLasting a b t _ f del_lasting la lb l = refl
  effect-IsLasting a b t _ f (expire_at_lasting {key = key} {timestamp = timestamp} lt) la lb l =
      ap (λ o. update f key (Option.map (expire timestamp) o))
        (fresh_le a t (f key) la (l key) ∙ sym (fresh_le b t (f key) lb (l key)))

  replayed-IsLasting :
      (m n t : ℕ) (clock clock' : ℕ → ℕ) (cs : List Command) (f : Keyspace)
      → ((i : ℕ) → clock i ≤ t)
      → ((i : ℕ) → clock' i ≤ t)
      → All (IsLasting t) cs
      → Lasts t f
      → replayed m clock cs f ≡ replayed n clock' cs f
  unfolding replayed
  replayed-IsLasting m n t clock clock' [] f la lb ls l = refl
  replayed-IsLasting m n t clock clock' (c ∷ cs) f la lb (x, ls) l =
      let i = m + length (c ∷ cs) in
      let j = n + length (c ∷ cs) in
      replayed-IsLasting m n t clock clock' cs (effect (clock i) c f) la lb ls
        (effect-Lasts (clock i) t c f x (la i) l)
      ∙ ap (replayed n clock' cs) (effect-IsLasting (clock i) (clock' j) t c f x (la i) (lb j) l)

  -- A server that starts with an empty log takes any write commands within the decoder's limits, at
  -- most 2^60 entries in all, up to the time `t`, where every EXPIREAT sets a time after `t`; a
  -- server that starts up to the time `t` from the log they left, however it is split into reads,
  -- ends its recovery without a panic, keeps the log, and has a store in order with the same map.
  pub recovery-IsLasting :
      (m n t : ℕ) (clock clock' : ℕ → ℕ) (cs : List Command) (chunks : List Chunk)
      → ((i : ℕ) → clock i ≤ t)
      → ((i : ℕ) → clock' i ≤ t)
      → All IsLogged cs
      → All (IsLasting t) cs
      → needed cs ≤ 2 ^ 60
      → IsStream chunks
      → contents chunks ≡ log_bytes cs
      → Returns (write_all m clock cs start) λ ss.
        (ss.wal.file ≡ contents chunks)
        × Returns (from_wal (suc (n + length cs)) clock' ss.wal (some chunks)) λ ss'.
          (ss'.wal ≡ ss.wal) × (f : Keyspace) × Models f ss.key_store × Models f ss'.key_store
  unfolding fresh
  recovery-IsLasting m n t clock clock' cs chunks la lb ls ts small s same =
      recovery-replayed m n clock clock' cs chunks ls
        (replayed-IsLasting m n t clock clock' cs (λ _. none) la lb ts (λ k. refl)) small s same
