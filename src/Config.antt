-- ===== src/Config.antt =====
-- pkg/config/config.go: the settings, their defaults, and how two sources of settings are merged.
--
-- A pointer is an `Option`: `none` is nil, a setting that was not made. A duration is its number of
-- nanoseconds.
pub mod Env
pub mod Flags
pub mod Tls
pub mod Load
pub mod Print
pub mod Settings
pub mod Complete
pub mod Sources
pub mod NoPanic
pub mod Tests
use redis_sentinel_proxy.Base.{ℕ, ◌*◌, Bool, true, false, ◌∷◌, Option, none, some, Bytes, codes}
use redis_sentinel_proxy.Io.Integer.{ℤ, pos}

pub record BackendTls : Type 0 where
  pub enabled : Option Bool
  pub ca_file : Option Bytes
  pub cert_file : Option Bytes
  pub key_file : Option Bytes
  pub server_name : Option Bytes
  pub skip_verify : Option Bool
  pub passthrough : Option Bool

pub record ListenTls : Type 0 where
  pub enabled : Option Bool
  pub cert_file : Option Bytes
  pub key_file : Option Bytes
  pub client_ca_file : Option Bytes

-- A `*tls.Config` that is not nil; certificates and pools are what their files hold. Clients must
-- present a certificate just where there are `client_cas`.
pub record TlsConfig : Type 0 where
  pub tls_server_name : Bytes
  pub insecure : Bool
  pub root_cas : Option Bytes
  pub certificate : Option Bytes
  pub client_cas : Option Bytes

-- The private `tls` of a `Config`.
pub record LoadedTls : Type 0 where
  pub master_dial : Option TlsConfig
  pub master_probe : Option TlsConfig
  pub sentinel_side : Option TlsConfig
  pub listen_side : Option TlsConfig

pub record Config : Type 0 where
  pub listen : Option Bytes
  pub replica_listen : Option Bytes
  pub replica_fallback : Option Bytes
  pub sentinel : Option Bytes
  pub master : Option Bytes
  pub username : Option Bytes
  pub password : Option Bytes
  pub master_username : Option Bytes
  pub master_password : Option Bytes
  pub router : Option Bool
  pub resolve_retries : Option ℤ
  pub max_connections : Option ℤ
  pub idle_timeout : Option ℤ
  pub debug : Option Bool
  pub sentinel_tls : Option BackendTls
  pub listen_tls : Option ListenTls
  pub master_tls : Option BackendTls
  pub tls : LoadedTls

abbrev pub no_tls : LoadedTls
no_tls = record {
  master_dial = none;
  master_probe = none;
  sentinel_side = none;
  listen_side = none;
}

-- `&BackendTLS{}`, `&ListenTLS{}`, `&Config{}`
abbrev pub empty_backend_tls : BackendTls
empty_backend_tls = record {
  enabled = none;
  ca_file = none;
  cert_file = none;
  key_file = none;
  server_name = none;
  skip_verify = none;
  passthrough = none;
}

abbrev pub empty_listen_tls : ListenTls
empty_listen_tls = record {
  enabled = none;
  cert_file = none;
  key_file = none;
  client_ca_file = none;
}

abbrev pub empty_config : Config
empty_config = record {
  listen = none;
  replica_listen = none;
  replica_fallback = none;
  sentinel = none;
  master = none;
  username = none;
  password = none;
  master_username = none;
  master_password = none;
  router = none;
  resolve_retries = none;
  max_connections = none;
  idle_timeout = none;
  debug = none;
  sentinel_tls = none;
  listen_tls = none;
  master_tls = none;
  tls = no_tls;
}

abbrev pub replica_fallback_master : Bytes
replica_fallback_master = codes "master"

abbrev pub replica_fallback_reject : Bytes
replica_fallback_reject = codes "reject"

-- `Default`
abbrev pub default : Config
default = record {
  listen = some (codes "");
  replica_listen = some (codes "");
  replica_fallback = some replica_fallback_master;
  sentinel = some (codes ":26379");
  master = some (codes "mymaster");
  username = none;
  password = none;
  master_username = none;
  master_password = none;
  router = some false;
  resolve_retries = some (pos 3);
  max_connections = some (pos 100);
  idle_timeout = some (pos (30 * 1000000000));
  debug = some false;
  sentinel_tls = some (record {
    enabled = some false;
    ca_file = some (codes "");
    cert_file = some (codes "");
    key_file = some (codes "");
    server_name = some (codes "");
    skip_verify = some false;
    passthrough = none;
  });
  listen_tls = some (record {
    enabled = some false;
    cert_file = some (codes "");
    key_file = some (codes "");
    client_ca_file = some (codes "");
  });
  master_tls = some (record {
    enabled = some false;
    ca_file = some (codes "");
    cert_file = some (codes "");
    key_file = some (codes "");
    server_name = some (codes "");
    skip_verify = some false;
    passthrough = some false;
  });
  tls = no_tls;
}

abbrev pub fill {ℓ} : {A : Type ℓ} → Option A → Option A → Option A
fill none src = src
fill (some x) src = some x

-- `ensureSentinelTLS` and `ensureMasterTLS`, and `ensureListenTLS`.
abbrev pub ensure_backend_tls : Option BackendTls → BackendTls
ensure_backend_tls none = empty_backend_tls
ensure_backend_tls (some t) = t

abbrev pub ensure_listen_tls : Option ListenTls → ListenTls
ensure_listen_tls none = empty_listen_tls
ensure_listen_tls (some t) = t

-- The branch for `SentinelTLS`, which leaves out `Passthrough`.
unfoldable pub merge_sentinel_tls : Option BackendTls → Option BackendTls → Option BackendTls
merge_sentinel_tls c none = c
merge_sentinel_tls c (some o) =
    let s = ensure_backend_tls c in
    some (record s {
      enabled = fill s.enabled o.enabled;
      ca_file = fill s.ca_file o.ca_file;
      cert_file = fill s.cert_file o.cert_file;
      key_file = fill s.key_file o.key_file;
      server_name = fill s.server_name o.server_name;
      skip_verify = fill s.skip_verify o.skip_verify;
    })

unfoldable pub merge_listen_tls : Option ListenTls → Option ListenTls → Option ListenTls
merge_listen_tls c none = c
merge_listen_tls c (some o) =
    let l = ensure_listen_tls c in
    some (record {
      enabled = fill l.enabled o.enabled;
      cert_file = fill l.cert_file o.cert_file;
      key_file = fill l.key_file o.key_file;
      client_ca_file = fill l.client_ca_file o.client_ca_file;
    })

unfoldable pub merge_master_tls : Option BackendTls → Option BackendTls → Option BackendTls
merge_master_tls c none = c
merge_master_tls c (some o) =
    let m = ensure_backend_tls c in
    some (record {
      enabled = fill m.enabled o.enabled;
      ca_file = fill m.ca_file o.ca_file;
      cert_file = fill m.cert_file o.cert_file;
      key_file = fill m.key_file o.key_file;
      server_name = fill m.server_name o.server_name;
      skip_verify = fill m.skip_verify o.skip_verify;
      passthrough = fill m.passthrough o.passthrough;
    })

-- `c.Merge(other)` for an `other` that is not nil.
unfoldable pub merge : Config → Config → Config
unfolding merge_sentinel_tls merge_listen_tls merge_master_tls
merge c o = record {
  listen = fill c.listen o.listen;
  replica_listen = fill c.replica_listen o.replica_listen;
  replica_fallback = fill c.replica_fallback o.replica_fallback;
  sentinel = fill c.sentinel o.sentinel;
  master = fill c.master o.master;
  username = fill c.username o.username;
  password = fill c.password o.password;
  master_username = fill c.master_username o.master_username;
  master_password = fill c.master_password o.master_password;
  router = fill c.router o.router;
  resolve_retries = fill c.resolve_retries o.resolve_retries;
  max_connections = fill c.max_connections o.max_connections;
  idle_timeout = fill c.idle_timeout o.idle_timeout;
  debug = fill c.debug o.debug;
  sentinel_tls = merge_sentinel_tls c.sentinel_tls o.sentinel_tls;
  listen_tls = merge_listen_tls c.listen_tls o.listen_tls;
  master_tls = merge_master_tls c.master_tls o.master_tls;
  tls = c.tls;
}

-- `strSet` and `boolSet` of pkg/config/tls.go.
abbrev pub str_set : Option Bytes → Bool
str_set (some (c ∷ s)) = true
str_set _ = false

abbrev pub bool_set : Option Bool → Bool
bool_set none = false
bool_set (some b) = b
