-- ===== src/Config/Env.antt =====
-- pkg/config/env.go: the settings that environment variables make.
--
-- The environment is the function of `os.LookupEnv`. `time.ParseDuration` goes through floating-point
-- numbers and is the parameter `parse_duration`.
use redis_sentinel_proxy.Base.{
  Bool, true, false, ◌||◌, Option, none, some, Bytes, bytes_eq, codes, if◌then◌else◌,
}
use redis_sentinel_proxy.Base.Results.{Try, caught, value, ◌>>=◌}
use redis_sentinel_proxy.Io.Integer.{ℤ, parse_int}
use redis_sentinel_proxy.Config.{Config, no_tls}

-- `strconv.ParseBool`
unfoldable pub parse_bool : Bytes → Option Bool
unfolding bytes_eq
parse_bool s =
    if bytes_eq s (codes "1")
      || bytes_eq s (codes "t")
      || bytes_eq s (codes "T")
      || bytes_eq s (codes "TRUE")
      || bytes_eq s (codes "true")
      || bytes_eq s (codes "True")
    then some true
    else if bytes_eq s (codes "0")
        || bytes_eq s (codes "f")
        || bytes_eq s (codes "F")
        || bytes_eq s (codes "FALSE")
        || bytes_eq s (codes "false")
        || bytes_eq s (codes "False")
    then some false
    else none

-- A variable that is set, and that `parse` makes a value of; the error names the variable.
unfoldable pub parsed_env {ℓ} :
    {A : Type ℓ} → (Bytes → Option A) → Bytes → Option Bytes → Try Bytes (Option A)
parsed_env parse name none = value none
parsed_env parse name (some text) = elim (parse text) [
  | none ↦ caught name
  | some x ↦ value (some x)
]

module _ (parse_duration : Bytes → Option ℤ) (env : Bytes → Option Bytes) where
  unfoldable pub bool_env : Bytes → Try Bytes (Option Bool)
  unfolding parsed_env parse_bool
  bool_env name = parsed_env parse_bool name (env name)

  unfoldable pub int_env : Bytes → Try Bytes (Option ℤ)
  unfolding parsed_env parse_int
  int_env name = parsed_env parse_int name (env name)

  unfoldable pub dur_env : Bytes → Try Bytes (Option ℤ)
  unfolding parsed_env
  dur_env name = parsed_env parse_duration name (env name)

  -- The variables are looked up in this order: the first that does not parse is the error.
  unfoldable pub from_env : Try Bytes Config
  unfolding bool_env int_env dur_env
  from_env = do
    router ← bool_env (codes "RSP_ROUTER")
    resolve_retries ← int_env (codes "RSP_RESOLVE_RETRIES")
    max_connections ← int_env (codes "RSP_MAX_CONNECTIONS")
    idle_timeout ← dur_env (codes "RSP_IDLE_TIMEOUT")
    debug ← bool_env (codes "RSP_DEBUG")
    sentinel_on ← bool_env (codes "RSP_SENTINEL_TLS")
    sentinel_skip ← bool_env (codes "RSP_SENTINEL_TLS_SKIP_VERIFY")
    listen_on ← bool_env (codes "RSP_LISTEN_TLS")
    master_on ← bool_env (codes "RSP_MASTER_TLS")
    master_skip ← bool_env (codes "RSP_MASTER_TLS_SKIP_VERIFY")
    master_pass ← bool_env (codes "RSP_MASTER_TLS_PASSTHROUGH")
    value (record {
      listen = env (codes "RSP_LISTEN");
      replica_listen = env (codes "RSP_REPLICA_LISTEN");
      replica_fallback = env (codes "RSP_REPLICA_FALLBACK");
      sentinel = env (codes "RSP_SENTINEL");
      master = env (codes "RSP_MASTER");
      username = env (codes "SENTINEL_USERNAME");
      password = env (codes "SENTINEL_PASSWORD");
      master_username = env (codes "RSP_MASTER_USERNAME");
      master_password = env (codes "RSP_MASTER_PASSWORD");
      router = router;
      resolve_retries = resolve_retries;
      max_connections = max_connections;
      idle_timeout = idle_timeout;
      debug = debug;
      sentinel_tls = some (record {
        enabled = sentinel_on;
        ca_file = env (codes "RSP_SENTINEL_TLS_CA_FILE");
        cert_file = env (codes "RSP_SENTINEL_TLS_CERT_FILE");
        key_file = env (codes "RSP_SENTINEL_TLS_KEY_FILE");
        server_name = env (codes "RSP_SENTINEL_TLS_SERVER_NAME");
        skip_verify = sentinel_skip;
        passthrough = none;
      });
      listen_tls = some (record {
        enabled = listen_on;
        cert_file = env (codes "RSP_LISTEN_TLS_CERT_FILE");
        key_file = env (codes "RSP_LISTEN_TLS_KEY_FILE");
        client_ca_file = env (codes "RSP_LISTEN_TLS_CLIENT_CA_FILE");
      });
      master_tls = some (record {
        enabled = master_on;
        ca_file = env (codes "RSP_MASTER_TLS_CA_FILE");
        cert_file = env (codes "RSP_MASTER_TLS_CERT_FILE");
        key_file = env (codes "RSP_MASTER_TLS_KEY_FILE");
        server_name = env (codes "RSP_MASTER_TLS_SERVER_NAME");
        skip_verify = master_skip;
        passthrough = master_pass;
      });
      tls = no_tls;
    })
