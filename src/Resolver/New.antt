-- ===== src/Resolver/New.antt =====
-- pkg/master_resolver/master_resolver.go: `NewRedisMasterResolver` and the options of its clients.
use redis_sentinel_proxy.Base.{ℕ, Bool, true, false, [], Option, none, some, Bytes}
use redis_sentinel_proxy.Base.Results.{Try, value, ◌>>=◌, or_error}
use redis_sentinel_proxy.Io.Integer.{ℤ, negsuc}
use redis_sentinel_proxy.Config.{Config, TlsConfig, str_set}
use redis_sentinel_proxy.Resolver.PtrCache.{second}
use redis_sentinel_proxy.Resolver.Addresses.{Resolver}

-- `redis.Options`, as far as `clientOptions` sets them.
pub record ClientOptions : Type 0 where
  pub addr : Bytes
  pub username : Bytes
  pub password : Bytes
  pub tls_conf : Option TlsConfig
  pub dial_timeout : ℕ
  pub read_timeout : ℕ
  pub write_timeout : ℕ
  pub max_retries : ℤ
  pub pool_size : ℕ
  pub disable_identity : Bool

abbrev pub client_options : Bytes → Bytes → Bytes → Option TlsConfig → ClientOptions
client_options addr username password tls_conf = record {
  addr = addr;
  username = username;
  password = password;
  tls_conf = tls_conf;
  dial_timeout = second;
  read_timeout = second;
  write_timeout = second;
  max_retries = negsuc 0;
  pool_size = 1;
  disable_identity = true;
}

-- A resolver that was made: what it keeps to itself, and the state that its operations change.
pub record NewResolver : Type 0 where
  pub sentinel_options : ClientOptions
  pub master_username : Bytes
  pub master_password : Bytes
  pub master_tls_conf : Option TlsConfig
  pub retries : ℤ
  pub start : Resolver

-- `x := y; if p != nil { x = *p }`
abbrev pub or_default : Bytes → Option Bytes → Bytes
or_default d none = d
or_default d (some s) = s

abbrev pub user_of : Config → Bytes
user_of cfg = or_default [] cfg.username

abbrev pub secret_of : Config → Bytes
secret_of cfg = or_default [] cfg.password

pub data SetupError : Type 0 where
  nil_setting : SetupError

-- Go panics at a nil pointer: `nil_setting`.
unfoldable pub new_redis_master_resolver : Config → Try SetupError NewResolver
new_redis_master_resolver cfg = do
  master_name ← or_error nil_setting cfg.master
  sentinel ← or_error nil_setting cfg.sentinel
  retries ← or_error nil_setting cfg.resolve_retries
  value (record {
    sentinel_options = client_options sentinel (user_of cfg) (secret_of cfg) cfg.tls.sentinel_side;
    master_username = or_default (user_of cfg) cfg.master_username;
    master_password = or_default (secret_of cfg) cfg.master_password;
    master_tls_conf = cfg.tls.master_probe;
    retries = retries;
    start = record {
      master_name = master_name;
      track_replicas = str_set cfg.replica_listen;
      ready = false;
      last_refresh = none;
      master_addr = [];
      master_display = [];
      replica_addrs = [];
      replica_names = [];
      replica_idx = 0;
      ptr_cache = [];
    };
  })

-- The options of the client with which `checkRole` asks the node at `addr` for its role.
unfoldable pub probe_options : NewResolver → Bytes → ClientOptions
probe_options r addr = client_options addr r.master_username r.master_password r.master_tls_conf
