-- ===== src/Config/Load.antt =====
-- pkg/config/config.go: `Load`.
--
-- The YAML decoder is outside: `load_file` gives the settings of a file, or nothing if the file cannot
-- be read or parsed.
use redis_sentinel_proxy.Base.{
  Bool, false, not, ◌||◌, ◌&&◌, [], ◌∷◌, Option, none, some, Bytes, bytes_eq, codes, if◌then◌else◌,
}
use redis_sentinel_proxy.Base.Results.{Try, caught, value, ◌>>=◌, ◌>>◌, require, or_error}
use redis_sentinel_proxy.Io.Integer.{ℤ}
use redis_sentinel_proxy.Config.{
  Config, empty_config, default, merge, replica_fallback_master, replica_fallback_reject, str_set,
  bool_set, BackendTls, TlsConfig,
}
use redis_sentinel_proxy.Config.Env.{from_env}
use redis_sentinel_proxy.Config.Tls.{
  Files, bad_config_file, bad_replica_fallback, router_with_passthrough, bad_variable, Checked,
  deref, sentinel_tls_config, listen_tls_config, master_tls_config,
}

abbrev pub or_empty_config : Option Config → Config
or_empty_config none = empty_config
or_empty_config (some c) = c

abbrev pub env_error {ℓ} : {A : Type ℓ} → Try Bytes A → Checked A
env_error (caught name) = caught (bad_variable name)
env_error (value x) = value x

-- `cfg.MasterTLS != nil && boolSet(cfg.MasterTLS.Passthrough)`
abbrev pub passes_through : Option BackendTls → Bool
passes_through none = false
passes_through (some t) = bool_set t.passthrough

unfoldable pub check_replica_fallback : Config → Checked (Unit {0})
unfolding bytes_eq
check_replica_fallback c = do
  wanted ← deref c.replica_fallback
  require (bytes_eq wanted replica_fallback_master || bytes_eq wanted replica_fallback_reject)
      bad_replica_fallback

unfoldable pub check_router : Config → Checked (Unit {0})
check_router c = do
  on ← deref c.router
  require (not (on && passes_through c.master_tls)) router_with_passthrough

-- With no endpoint at all the proxy listens on port 10000; the replica endpoint is nil if it is off.
abbrev somewhere : Option Bytes → Option Bytes → Option Bytes
somewhere listen replica =
    if str_set listen || str_set replica then listen else some (codes ":10000")

abbrev unless_empty : Option Bytes → Option Bytes
unless_empty none = none
unless_empty (some []) = none
unless_empty (some (b ∷ s)) = some (b ∷ s)

abbrev fallback_of : Option Bytes → Option Bytes → Option Bytes
fallback_of none fallback = fallback
fallback_of (some []) fallback = none
fallback_of (some (b ∷ s)) fallback = fallback

unfoldable pub settle : Config → Config
settle c = record c {
  listen = somewhere c.listen c.replica_listen;
  replica_listen = unless_empty c.replica_listen;
  replica_fallback = fallback_of c.replica_listen c.replica_fallback;
}

-- The private `tls` is set, then the endpoints are settled.
unfoldable pub with_tls :
    Option TlsConfig → Option TlsConfig → Option TlsConfig × Option TlsConfig → Config → Config
unfolding settle
with_tls sentinel_side listen_side (probe, dial) c = settle (record c {
  tls = record {
    master_dial = dial;
    master_probe = probe;
    sentinel_side = sentinel_side;
    listen_side = listen_side;
  };
})

module _ (files : Files) (load_file : Bytes → Option Config) where
  -- A path that is not given is "".
  unfoldable pub with_file : Bytes → Config → Checked Config
  with_file [] c = value c
  with_file (b ∷ path) c =
      or_error bad_config_file (load_file (b ∷ path)) >>= (λ file. value (merge c file))

  -- What `Load` does behind the merging.
  unfoldable pub finish_load : Config → Checked Config
  unfolding check_replica_fallback check_router sentinel_tls_config listen_tls_config
      master_tls_config with_tls
  finish_load c = do
    check_replica_fallback c
    check_router c
    sentinel_side ← sentinel_tls_config files c.sentinel_tls
    listen_side ← listen_tls_config files c.listen_tls
    master_sides ← master_tls_config files c.master_tls
    value (with_tls sentinel_side listen_side master_sides c)

  module _ (parse_duration : Bytes → Option ℤ) (env : Bytes → Option Bytes) where
    unfoldable pub load : Option Config → Bytes → Checked Config
    unfolding from_env with_file merge finish_load
    load flags path = do
      from ← env_error (from_env parse_duration env)
      c ← with_file path (merge (or_empty_config flags) from)
      finish_load (merge c default)
