-- ===== src/Proxy.antt =====
-- pkg/proxy/proxy.go: the endpoints of a proxy, and which backend a client gets; and the dialing of
-- a routed session's replica in pkg/proxy/routing.go.
--
-- The resolver is an interface of the program, `Backends`, as is the network below it. What a proxy
-- keeps of the TLS settings, the timeout and the debug flag has no part in the choice.
pub mod Endpoints
pub mod Refusals
pub mod Choice
pub mod Serving
pub mod Tests
use redis_sentinel_proxy.Base.{
  Bool, true, false, List, [], ◌∷◌, Option, none, some, Bytes, codes, bytes_eq, ℕ, zero, suc,
  if◌then◌else◌,
}
use redis_sentinel_proxy.Base.Results.{Try, caught, value, ◌>>=◌, ◌>>◌, require, or_error}
use redis_sentinel_proxy.Config.{
  Config, TlsConfig, bool_set, replica_fallback_master as config_fallback_master,
}
use redis_sentinel_proxy.Io.Integer.{ℤ, pos, negsuc}

-- What the proxy asks of its resolver, and `dialRedis`, which gives a connection or fails.
pub record Backends (W : Type 0) : Type 0 where
  pub master_address : W → Bytes × W
  pub replica_address : W → Option Bytes × W
  pub refresh_addresses : W → W
  pub dial_redis : Bytes → W → Bool × W

-- `has_refresher` and `has_replicas` are `r.refresher != nil` and `r.replicaResolver != nil`; `limit`
-- is the capacity of `r.sem`, if there is one.
pub record RedisSentinelProxy : Type 0 where
  pub local_addr : Option Bytes
  pub replica_addr : Option Bytes
  pub limit : Option ℕ
  pub has_refresher : Bool
  pub has_replicas : Bool
  pub replica_fallback_master : Bool
  pub router : Bool
  pub tls_conf : Option TlsConfig
  pub master_tls_conf : Option TlsConfig
  pub idle_timeout : ℤ
  pub debug : Bool

-- `nil_setting` is the panic where `NewRedisSentinelProxy` follows a nil pointer of the settings.
pub data NewError : Type 0 where
  bad_listen bad_replica_listen no_replica_tracking no_endpoint router_without_listen nil_setting :
      NewError

abbrev pub New {ℓ} : Type ℓ → Type ℓ
New A = Try NewError A

abbrev capacity : ℤ → Option ℕ
capacity (pos zero) = none
capacity (pos (suc n)) = some (suc n)
capacity (negsuc n) = none

abbrev pub is_some {ℓ} : {A : Type ℓ} → Option A → Bool
is_some none = false
is_some (some _) = true

-- `net.ResolveTCPAddr` is the parameter `resolve`; what the resolver implements are two more.
module _ (resolve : Bytes → Option Bytes) (tracks_replicas refreshes : Bool) where
  -- An endpoint: not configured, or resolved.
  unfoldable pub endpoint : NewError → Option Bytes → New (Option Bytes)
  endpoint e none = value none
  endpoint e (some []) = value none
  endpoint e (some (c ∷ s)) = elim (resolve (c ∷ s)) [ none ↦ caught e | some a ↦ value (some a) ]

  -- The replica endpoint needs a resolver that tracks replicas: `p.replicaResolver` is what the type
  -- assertion gives, nil if it fails.
  unfoldable pub with_replicas :
      Option Bytes → RedisSentinelProxy → Option Bytes → New RedisSentinelProxy
  unfolding bytes_eq
  with_replicas none p fallback = value p
  with_replicas (some a) p fallback = do
    require tracks_replicas no_replica_tracking
    wanted ← or_error nil_setting fallback
    value (record p {
      replica_addr = some a;
      has_replicas = tracks_replicas;
      replica_fallback_master = bytes_eq wanted config_fallback_master;
    })

  unfoldable pub require_endpoint : RedisSentinelProxy → New RedisSentinelProxy
  require_endpoint p =
      if is_some p.local_addr
      then value p
      else if is_some p.replica_addr
      then value p
      else caught no_endpoint

  unfoldable pub with_router : Bool → RedisSentinelProxy → New RedisSentinelProxy
  with_router false p = value p
  with_router true p = require (is_some p.local_addr) router_without_listen >>= λ _.
      require tracks_replicas no_replica_tracking >>= λ _.
      value (record p { has_replicas = tracks_replicas; router = true })

  unfoldable pub finish : Config → RedisSentinelProxy → New RedisSentinelProxy
  finish cfg p = require_endpoint p >>= with_router (bool_set cfg.router)

  abbrev pub bare : Config → ℤ → ℤ → Bool → Option Bytes → RedisSentinelProxy
  bare cfg connections idle debug local = record {
    local_addr = local;
    replica_addr = none;
    limit = capacity connections;
    has_refresher = refreshes;
    has_replicas = false;
    replica_fallback_master = false;
    router = false;
    tls_conf = cfg.tls.listen_side;
    master_tls_conf = cfg.tls.master_dial;
    idle_timeout = idle;
    debug = debug;
  }

  -- What follows the making of the proxy, with its local address.
  unfoldable pub assemble : Config → RedisSentinelProxy → Option Bytes → New RedisSentinelProxy
  unfolding finish
  assemble cfg p replica = with_replicas replica p cfg.replica_fallback >>= finish cfg

  -- `NewRedisSentinelProxy`
  unfoldable pub new_redis_sentinel_proxy : Config → New RedisSentinelProxy
  unfolding endpoint with_replicas require_endpoint with_router bytes_eq assemble
  new_redis_sentinel_proxy cfg = do
    connections ← or_error nil_setting cfg.max_connections
    idle ← or_error nil_setting cfg.idle_timeout
    debug ← or_error nil_setting cfg.debug
    local ← endpoint bad_listen cfg.listen
    replica ← endpoint bad_replica_listen cfg.replica_listen
    assemble cfg (bare cfg connections idle debug local) replica

pub data Label : Type 0 where
  master replica fallback : Label

-- The `error` of `pickReplica` and of `dialRedis` are told apart by `connectBackend`'s callers only
-- in the log.
pub data Connection : Type 0 where
  connected : Bytes → Label → Connection
  no_backend : Connection

module _ {W : Type 0} (b : Backends W) where
  unfoldable pub pick_master : RedisSentinelProxy → W → Option (Bytes × Label) × W
  pick_master r w = let (addr, w1) = b.master_address w in (some (addr, master), w1)

  unfoldable pub pick_replica : RedisSentinelProxy → W → Option (Bytes × Label) × W
  pick_replica r w =
      let (found, w1) = b.replica_address w in
      let (addr, w2) = b.master_address w1 in
      elim found [
        | some a ↦ (some (a, replica), w1)
        | none ↦ if r.replica_fallback_master then (some (addr, fallback), w2) else (none, w1)
      ]

  unfoldable pub dial : Option (Bytes × Label) → W → Connection × W
  dial none w = (no_backend, w)
  dial (some (addr, label)) w =
      let (fine, w1) = b.dial_redis addr w in
      ((if fine then connected addr label else no_backend), w1)

  unfoldable pub pick_and_dial : (W → Option (Bytes × Label) × W) → W → Connection × W
  unfolding dial
  pick_and_dial pick w = let (picked, w1) = pick w in dial picked w1

  unfoldable pub connect_backend :
      RedisSentinelProxy → (W → Option (Bytes × Label) × W) → W → Connection × W
  unfolding pick_and_dial
  connect_backend r pick w =
      let (c, w1) = pick_and_dial pick w in
      elim c [
        | connected addr label ↦ (connected addr label, w1)
        | no_backend ↦
            if r.has_refresher
            then pick_and_dial pick (b.refresh_addresses w1)
            else (no_backend, w1)
      ]

  unfoldable pub dial_known : Bytes → W → Option Bytes × W
  dial_known a w = let (fine, w1) = b.dial_redis a w in ((if fine then some a else none), w1)

  unfoldable pub dial_found : Option Bytes → W → Option Bytes × W
  unfolding dial_known
  dial_found none w = (none, w)
  dial_found (some a) w = dial_known a w

  -- `dialReplicaForRouting`
  unfoldable pub dial_replica_for_routing : RedisSentinelProxy → W → Option Bytes × W
  unfolding dial_found
  dial_replica_for_routing r w =
      let (first, w1) = b.replica_address w in
      let (again, w2) = b.replica_address (b.refresh_addresses w1) in
      elim first [
        | some a ↦ dial_known a w1
        | none ↦ if r.has_refresher then dial_found again w2 else (none, w1)
      ]
