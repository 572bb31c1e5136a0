-- ===== src/Config/Tls.antt =====
-- pkg/config/tls.go: the TLS settings of each side, from the options and the files that they name.
--
-- The files are outside: what a file holds, whether there is a certificate among PEM data
-- (`AppendCertsFromPEM`), and `tls.LoadX509KeyPair`.
use redis_sentinel_proxy.Base.{
  Bool, false, not, ◌||◌, ◌&&◌, [], Option, none, some, Bytes, if◌then◌else◌,
}
use redis_sentinel_proxy.Base.Results.{Try, value, ◌>>=◌, ◌>>◌, require, or_error}
use redis_sentinel_proxy.Config.{BackendTls, ListenTls, TlsConfig, str_set, bool_set}

pub record Files : Type 0 where
  pub read_file : Bytes → Option Bytes
  pub has_certificates : Bytes → Bool
  pub load_key_pair : Bytes → Bytes → Option Bytes

-- `nil_pointer` is no error of the program: it is the panic where a nil pointer is followed.
pub data ConfigError : Type 0 where
  nil_pointer bad_config_file bad_replica_fallback router_with_passthrough : ConfigError
  bad_variable : Bytes → ConfigError
  passthrough_for_sentinel sentinel_tls_off listen_tls_off listen_pair_missing : ConfigError
  passthrough_and_tls unpaired_certificate bad_certificate bad_ca_file : ConfigError

abbrev pub Checked {ℓ} : Type ℓ → Type ℓ
Checked A = Try ConfigError A

-- `*p`
abbrev pub deref {ℓ} : {A : Type ℓ} → Option A → Checked A
deref p = or_error nil_pointer p

-- `(cert == nil || *cert == "") == (key == nil || *key == "")`
abbrev pub paired : Option Bytes → Option Bytes → Bool
paired cert key = if str_set cert then str_set key else not (str_set key)

abbrev pub or_empty : Option Bytes → Bytes
or_empty none = []
or_empty (some s) = s

-- Whether one of the options of a side is set that say how, not whether, to use TLS.
abbrev pub any_option : BackendTls → Bool
any_option t =
    str_set t.ca_file
    || str_set t.cert_file
    || str_set t.key_file
    || str_set t.server_name
    || bool_set t.skip_verify

module _ (files : Files) where
  unfoldable pub load_cert_pool : Bytes → Checked Bytes
  load_cert_pool ca_file = do
    pem ← or_error bad_ca_file (files.read_file ca_file)
    require (files.has_certificates pem) bad_ca_file
    value pem

  -- A pool, if its file is given.
  unfoldable pub optional_pool : Option Bytes → Checked (Option Bytes)
  unfolding load_cert_pool
  optional_pool ca_file =
      if str_set ca_file
      then load_cert_pool (or_empty ca_file) >>= (λ pool. value (some pool))
      else value none

  unfoldable pub key_pair : Option Bytes → Option Bytes → Checked Bytes
  key_pair cert key = do
    cert_file ← deref cert
    key_file ← deref key
    or_error bad_certificate (files.load_key_pair cert_file key_file)

  unfoldable pub optional_pair : Option Bytes → Option Bytes → Checked (Option Bytes)
  unfolding key_pair
  optional_pair cert key =
      if str_set cert then key_pair cert key >>= (λ pair. value (some pair)) else value none

  -- The part that the sentinel and the master side have in common.
  unfoldable pub backend_tls_config : BackendTls → Checked TlsConfig
  unfolding optional_pool optional_pair
  backend_tls_config t = do
    server_name ← deref t.server_name
    skip_verify ← deref t.skip_verify
    pool ← optional_pool t.ca_file
    require (paired t.cert_file t.key_file) unpaired_certificate
    pair ← optional_pair t.cert_file t.key_file
    value (record {
      tls_server_name = server_name;
      insecure = skip_verify;
      root_cas = pool;
      certificate = pair;
      client_cas = none;
    })

  unfoldable pub sentinel_tls_config : Option BackendTls → Checked (Option TlsConfig)
  unfolding backend_tls_config
  sentinel_tls_config none = value none
  sentinel_tls_config (some t) =
      require (not (bool_set t.passthrough)) passthrough_for_sentinel
      >> (if bool_set t.enabled
          then backend_tls_config t >>= (λ conf. value (some conf))
          else require (not (any_option t)) sentinel_tls_off >> value none)

  unfoldable pub serve_tls_config : ListenTls → Checked TlsConfig
  unfolding key_pair optional_pool
  serve_tls_config t = do
    require (str_set t.cert_file && str_set t.key_file) listen_pair_missing
    pair ← key_pair t.cert_file t.key_file
    pool ← optional_pool t.client_ca_file
    value (record {
      tls_server_name = [];
      insecure = false;
      root_cas = none;
      certificate = some pair;
      client_cas = pool;
    })

  unfoldable pub listen_tls_config : Option ListenTls → Checked (Option TlsConfig)
  unfolding serve_tls_config
  listen_tls_config none = value none
  listen_tls_config (some t) =
      if bool_set t.enabled
      then serve_tls_config t >>= (λ conf. value (some conf))
      else require (not (str_set t.cert_file || str_set t.key_file || str_set t.client_ca_file))
          listen_tls_off
        >> value none

  -- The settings of the role probe, and those of the connections that are proxied.
  unfoldable pub master_tls_config :
      Option BackendTls → Checked (Option TlsConfig × Option TlsConfig)
  unfolding backend_tls_config
  master_tls_config none = value (none, none)
  master_tls_config (some t) =
      require (not (bool_set t.passthrough && bool_set t.enabled)) passthrough_and_tls
      >> (if bool_set t.passthrough
          then backend_tls_config t >>= (λ conf. value (some conf, none))
          else if bool_set t.enabled || any_option t
          then backend_tls_config t >>= (λ conf. value (some conf, some conf))
          else value (none, none))
