-- ===== src/Config/Flags.antt =====
-- pkg/config/flags.go: the settings that command-line flags make.
--
-- The package flag parses the command line: what it hands over are the flags that were set, in
-- lexical order, each with its last value, which has the flag's type.
use redis_sentinel_proxy.Base.{Bool, List, [], ◌∷◌, some, Bytes, bytes_eq, codes, if◌then◌else◌}
use redis_sentinel_proxy.Io.Integer.{ℤ}
use redis_sentinel_proxy.Config.{
  Config, BackendTls, ListenTls, empty_config, ensure_backend_tls, ensure_listen_tls,
}

pub data FlagValue : Type 0 where
  text : Bytes → FlagValue
  truth : Bool → FlagValue
  number : ℤ → FlagValue
  span : ℤ → FlagValue

-- The map `assign`, for the flags of each type.
abbrev pub Assign {ℓ} : Type ℓ → Type ℓ
Assign A = List (Bytes × (A → Config → Config))

abbrev on_sentinel : (BackendTls → BackendTls) → Config → Config
on_sentinel set c = record c { sentinel_tls = some (set (ensure_backend_tls c.sentinel_tls)) }

abbrev on_listen : (ListenTls → ListenTls) → Config → Config
on_listen set c = record c { listen_tls = some (set (ensure_listen_tls c.listen_tls)) }

abbrev on_master : (BackendTls → BackendTls) → Config → Config
on_master set c = record c { master_tls = some (set (ensure_backend_tls c.master_tls)) }

abbrev pub string_flags : Assign Bytes
string_flags =
    (codes "listen", λ v c. record c { listen = some v })
    ∷ (codes "replica-listen", λ v c. record c { replica_listen = some v })
    ∷ (codes "replica-fallback", λ v c. record c { replica_fallback = some v })
    ∷ (codes "sentinel", λ v c. record c { sentinel = some v })
    ∷ (codes "master", λ v c. record c { master = some v })
    ∷ (codes "username", λ v c. record c { username = some v })
    ∷ (codes "password", λ v c. record c { password = some v })
    ∷ (codes "master-username", λ v c. record c { master_username = some v })
    ∷ (codes "master-password", λ v c. record c { master_password = some v })
    ∷ (codes "sentinel-tls-ca-file", λ v. on_sentinel (λ t. record t { ca_file = some v }))
    ∷ (codes "sentinel-tls-cert-file", λ v. on_sentinel (λ t. record t { cert_file = some v }))
    ∷ (codes "sentinel-tls-key-file", λ v. on_sentinel (λ t. record t { key_file = some v }))
    ∷ (codes "sentinel-tls-server-name", λ v. on_sentinel (λ t. record t { server_name = some v }))
    ∷ (codes "listen-tls-cert-file", λ v. on_listen (λ t. record t { cert_file = some v }))
    ∷ (codes "listen-tls-key-file", λ v. on_listen (λ t. record t { key_file = some v }))
    ∷ (
      codes "listen-tls-client-ca-file",
      λ v. on_listen (λ t. record t { client_ca_file = some v }),
    )
    ∷ (codes "master-tls-ca-file", λ v. on_master (λ t. record t { ca_file = some v }))
    ∷ (codes "master-tls-cert-file", λ v. on_master (λ t. record t { cert_file = some v }))
    ∷ (codes "master-tls-key-file", λ v. on_master (λ t. record t { key_file = some v }))
    ∷ (codes "master-tls-server-name", λ v. on_master (λ t. record t { server_name = some v }))
    ∷ []

abbrev pub bool_flags : Assign Bool
bool_flags =
    (codes "router", λ v c. record c { router = some v })
    ∷ (codes "debug", λ v c. record c { debug = some v })
    ∷ (codes "sentinel-tls", λ v. on_sentinel (λ t. record t { enabled = some v }))
    ∷ (codes "sentinel-tls-skip-verify", λ v. on_sentinel (λ t. record t { skip_verify = some v }))
    ∷ (codes "listen-tls", λ v. on_listen (λ t. record t { enabled = some v }))
    ∷ (codes "master-tls", λ v. on_master (λ t. record t { enabled = some v }))
    ∷ (codes "master-tls-skip-verify", λ v. on_master (λ t. record t { skip_verify = some v }))
    ∷ (codes "master-tls-passthrough", λ v. on_master (λ t. record t { passthrough = some v }))
    ∷ []

abbrev pub int_flags : Assign ℤ
int_flags =
    (codes "resolve-retries", λ v c. record c { resolve_retries = some v })
    ∷ (codes "max-connections", λ v c. record c { max_connections = some v })
    ∷ []

abbrev pub duration_flags : Assign ℤ
duration_flags = (codes "idle-timeout", λ v c. record c { idle_timeout = some v }) ∷ []

-- `if set, ok := assign[f.Name]; ok { set(c) }`
unfoldable pub assigned {ℓ} : {A : Type ℓ} → Bytes → Assign A → A → Config → Config
unfolding bytes_eq
assigned name [] v c = c
assigned name ((known, set) ∷ more) v c =
    let later = assigned name more v c in if bytes_eq name known then set v c else later

unfoldable pub set_flag : Bytes → FlagValue → Config → Config
unfolding assigned
set_flag name (text v) c = assigned name string_flags v c
set_flag name (truth v) c = assigned name bool_flags v c
set_flag name (number v) c = assigned name int_flags v c
set_flag name (span v) c = assigned name duration_flags v c

unfoldable pub visit : List (Bytes × FlagValue) → Config → Config
visit [] c = c
visit ((name, v) ∷ more) c = visit more (set_flag name v c)

-- The function that `BindFlags` returns.
unfoldable pub from_flags : List (Bytes × FlagValue) → Config
unfolding visit set_flag
from_flags visited = visit visited empty_config
