-- ===== src/Config.antt =====
-- config.rs: the server's configuration, from environment variables. What `env::var` returns, the
-- variables of a `.env` file included, is the argument; a `Duration` is its seconds.
pub mod Limits
use simple_kv.Prelude.{ℕ, ◌-◌, ◌^◌, Option, none, some, ltb, if◌then◌else◌, Run, ok, panic, ◌>>=◌}
use simple_kv.Util.{Bytes, codes, parse_uint, max_u64}

abbrev pub server_address_name : Bytes
server_address_name = codes "SERVER_ADDRESS"

abbrev pub server_port_name : Bytes
server_port_name = codes "SERVER_PORT"

abbrev pub sync_interval_name : Bytes
sync_interval_name = codes "SYNC_INTERVAL"

abbrev pub ttl_cleanup_interval_name : Bytes
ttl_cleanup_interval_name = codes "TTL_CLEANUP_INTERVAL"

abbrev pub wal_path_name : Bytes
wal_path_name = codes "WAL_PATH"

abbrev pub min_sync_interval_secs : ℕ
min_sync_interval_secs = 30

abbrev pub min_ttl_cleanup_interval_secs : ℕ
min_ttl_cleanup_interval_secs = 30

pub record Config : Type 0 where
  pub server_address : Bytes
  pub server_port : ℕ
  pub sync_interval : ℕ
  pub ttl_cleanup_interval : ℕ
  pub wal_path : Option Bytes

-- `unwrap_or_else(|_| panic!(...))`
abbrev pub or_panic : {A : Type 0} → Option A → Run A
or_panic none = panic
or_panic (some a) = ok a

abbrev pub at_least : ℕ → ℕ → Run ℕ
at_least min secs = if ltb secs min then panic else ok secs

unfoldable pub from_env : (Bytes → Option Bytes) → Run Config
from_env var = do
  address ← or_panic (var server_address_name)
  port_text ← or_panic (var server_port_name)
  port ← or_panic (parse_uint (2 ^ 16 - 1) port_text)
  sync_text ← or_panic (var sync_interval_name)
  sync_number ← or_panic (parse_uint max_u64 sync_text)
  sync ← at_least min_sync_interval_secs sync_number
  ttl_text ← or_panic (var ttl_cleanup_interval_name)
  ttl_number ← or_panic (parse_uint max_u64 ttl_text)
  ttl ← at_least min_ttl_cleanup_interval_secs ttl_number
  ok (record {
    server_address = address;
    server_port = port;
    sync_interval = sync;
    ttl_cleanup_interval = ttl;
    wal_path = var wal_path_name;
  })
