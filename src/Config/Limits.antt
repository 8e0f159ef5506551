-- ===== src/Config/Limits.antt =====
-- The environments that config.rs accepts, and the configurations that it makes of them.
use simple_kv.Prelude.{
  ℕ, ◌-◌, ◌^◌, ◌≤◌, ◌<◌, ◌≡◌, ◌↔◌, inl, inr, refl, sym, ap, subst, Bool-cases, ltb, ltb→le, le→ltb,
  if◌then◌else◌, Option, none, some, arith, Run, ok, panic, spin, ◌>>=◌,
}
use simple_kv.Util.{Bytes, codes, parse_uint, max_u64}
use simple_kv.Util.Numerals.{IsNumeral, parse_uint_iff}
use simple_kv.Config.{
  Config, from_env, or_panic, at_least, min_sync_interval_secs, min_ttl_cleanup_interval_secs,
  server_address_name, server_port_name, sync_interval_name, ttl_cleanup_interval_name,
  wal_path_name,
}

bind_ok :
    {A B : Type 0} (r : Run A) (k : A → Run B) (b : B)
    → (r >>= k) ≡ ok b
    → (a : A) × (r ≡ ok a) × (k a ≡ ok b)
bind_ok (ok a) k b h = (a, refl, h)
bind_ok panic k b h = absurd (cc h)
bind_ok spin k b h = absurd (cc h)

or_panic-some : {A : Type 0} (o : Option A) (a : A) → or_panic o ≡ ok a → o ≡ some a
or_panic-some none a h = absurd (cc h)
or_panic-some (some x) a h = let e : x ≡ a = cc h in cc e

at_least-le : (min secs n : ℕ) → at_least min secs ≡ ok n → (min ≤ n) × (n ≡ secs)
at_least-le min secs n h = elim (Bool-cases (ltb secs min)) [
  | inl p ↦ absurd (cc (rw p at h))
  | inr p ↦ let e : secs ≡ n = cc (rw p at h) in (omega (arith, ltb→le secs min p, e), cc e)
]

-- The variable is a number of seconds, at least 30 and within 64 bits.
abbrev pub IsInterval : Option Bytes → ℕ → Type 0
IsInterval var secs =
    (text : Bytes) × (var ≡ some text) × IsNumeral text secs × (30 ≤ secs) × (secs < 2 ^ 64)

-- What the environment has to be for a configuration.
pub record IsConfig (var : Bytes → Option Bytes) (c : Config) : Type 0 where
  pub address : var (codes "SERVER_ADDRESS") ≡ some c.server_address
  pub port :
      (text : Bytes) × (var (codes "SERVER_PORT") ≡ some text)
      × IsNumeral text c.server_port
      × (c.server_port < 65536)
  pub sync : IsInterval (var (codes "SYNC_INTERVAL")) c.sync_interval
  pub cleanup : IsInterval (var (codes "TTL_CLEANUP_INTERVAL")) c.ttl_cleanup_interval
  pub path : var (codes "WAL_PATH") ≡ c.wal_path

-- One number of the environment, as `from_env` reads it.
abbrev read_number : ℕ → Option Bytes → Run ℕ
read_number max var = do text ← or_panic var; or_panic (parse_uint max text)

number_ok :
    (max : ℕ) (o : Option Bytes) (text : Bytes) (n : ℕ)
    → or_panic o ≡ ok text
    → or_panic (parse_uint max text) ≡ ok n
    → (text : Bytes) × (o ≡ some text) × IsNumeral text n × (n ≤ max)
number_ok max o text n p q =
    let (v, le) = (parse_uint_iff max text n).0 (or_panic-some (parse_uint max text) n q) in
    (text, or_panic-some o text p, v, le)

interval_ok :
    (min : ℕ) (o : Option Bytes) (text : Bytes) (secs n : ℕ)
    → min ≡ 30
    → or_panic o ≡ ok text
    → or_panic (parse_uint max_u64 text) ≡ ok secs
    → at_least min secs ≡ ok n
    → IsInterval o n
interval_ok min o text secs n e p q r =
    let (t, a, v, le) = number_ok max_u64 o text secs p q in
    let (big, same) = at_least-le min secs n r in
    (t, a, subst (IsNumeral t) (sym same) v, omega (arith, e, big), omega (arith, le, same))

accepts : (var : Bytes → Option Bytes) (c : Config) → from_env var ≡ ok c → IsConfig var c
unfolding from_env
accepts var c h =
    let (address, a, h₁) = bind_ok (or_panic (var server_address_name)) _ c h in
    let (port_text, p, h₂) = bind_ok (or_panic (var server_port_name)) _ c h₁ in
    let (port, q, h₃) = bind_ok (or_panic (parse_uint (2 ^ 16 - 1) port_text)) _ c h₂ in
    let (sync_text, s, h₄) = bind_ok (or_panic (var sync_interval_name)) _ c h₃ in
    let (sync_number, s', h₅) = bind_ok (or_panic (parse_uint max_u64 sync_text)) _ c h₄ in
    let (sync, s'', h₆) = bind_ok (at_least min_sync_interval_secs sync_number) _ c h₅ in
    let (ttl_text, t, h₇) = bind_ok (or_panic (var ttl_cleanup_interval_name)) _ c h₆ in
    let (ttl_number, t', h₈) = bind_ok (or_panic (parse_uint max_u64 ttl_text)) _ c h₇ in
    let (ttl, t'', h₉) = bind_ok (at_least min_ttl_cleanup_interval_secs ttl_number) _ c h₈ in
    let (text, x, v, le) = number_ok (2 ^ 16 - 1) (var server_port_name) port_text port p q in
    let made : record {
      server_address = address;
      server_port = port;
      sync_interval = sync;
      ttl_cleanup_interval = ttl;
      wal_path = var wal_path_name;
    }
        ≡ c =
      cc h₉ in
    subst (IsConfig var) made (record {
      address = or_panic-some _ address a;
      port = (text, x, v, omega (arith, le));
      sync =
          interval_ok min_sync_interval_secs (var sync_interval_name) sync_text sync_number sync
            refl s s' s'';
      cleanup =
          interval_ok min_ttl_cleanup_interval_secs (var ttl_cleanup_interval_name) ttl_text
            ttl_number ttl refl t t' t'';
      path = refl;
    })

parsed :
    (max : ℕ) (text : Bytes) (n : ℕ)
    → IsNumeral text n
    → n ≤ max
    → or_panic (parse_uint max text) ≡ ok n
parsed max text n v le = ap or_panic ((parse_uint_iff max text n).1 (v, le))

not_below : (secs : ℕ) → 30 ≤ secs → at_least 30 secs ≡ ok secs
not_below secs h = ap (λ t. if t then panic else ok secs) (le→ltb secs 30 h)

makes : (var : Bytes → Option Bytes) (c : Config) → IsConfig var c → from_env var ≡ ok c
unfolding from_env
makes var c v =
    let (port_text, p, a, le) = v.port in
    let (sync_text, q, b, min, max) = v.sync in
    let (ttl_text, r, d, min', max') = v.cleanup in
    rw (
      v.address,
      p,
      q,
      r,
      v.path,
      parsed (2 ^ 16 - 1) port_text c.server_port a (omega (arith, le)),
      parsed max_u64 sync_text c.sync_interval b (omega (arith, max)),
      parsed max_u64 ttl_text c.ttl_cleanup_interval d (omega (arith, max')),
      not_below c.sync_interval min,
      not_below c.ttl_cleanup_interval min',
    )

-- `from_env` makes a configuration of an environment exactly if SERVER_ADDRESS is its address,
-- WAL_PATH its log path or neither is there, SERVER_PORT is its port in base ten (one or more
-- digits, behind an optional `+`) and below 65536, and SYNC_INTERVAL and TTL_CLEANUP_INTERVAL are
-- its two intervals in base ten, each at least 30 seconds and below 2^64.
pub from_env_lem :
    (var : Bytes → Option Bytes) (c : Config) → (from_env var ≡ ok c) ↔ IsConfig var c
from_env_lem var c = (accepts var c, makes var c)
