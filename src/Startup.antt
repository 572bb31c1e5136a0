-- ===== src/Startup.antt =====
-- main.go: from the settings to a resolver and a proxy that asks it.
--
-- The arguments of the command line, the environment, the files, the resolution of an address and the
-- dialing are outside. What other goroutines do to the resolver between two operations of a connection
-- is `meanwhile`; an operation itself runs under a lock.
pub mod Outcomes
pub mod Started
pub mod Wiring
pub mod Sessions
pub mod Tests
use redis_sentinel_proxy.Base.{Bool, true, false, List, Option, none, some, Bytes}
use redis_sentinel_proxy.Base.Results.{Try, caught, value, ◌>>=◌}
use redis_sentinel_proxy.Io.Integer.{ℤ}
use redis_sentinel_proxy.Config.{Config}
use redis_sentinel_proxy.Config.Tls.{Files, ConfigError}
use redis_sentinel_proxy.Config.Flags.{FlagValue, from_flags}
use redis_sentinel_proxy.Config.Load.{load}
use redis_sentinel_proxy.Resolver.Network.{Network}
use redis_sentinel_proxy.Resolver.Addresses.{Resolver, replica_address, refresh_addresses}
use redis_sentinel_proxy.Resolver.New.{NewResolver, SetupError, new_redis_master_resolver}
use redis_sentinel_proxy.Proxy.{Backends, RedisSentinelProxy, NewError, new_redis_sentinel_proxy}

-- `resolver_failed` is a panic: `NewRedisMasterResolver` returns no error.
pub data StartError : Type 0 where
  load_failed : ConfigError → StartError
  resolver_failed : SetupError → StartError
  proxy_failed : NewError → StartError

-- An error of one part as an error of the whole.
abbrev pub stopped_by {ℓ} :
    {A : Type ℓ} {E : Type 0} → (E → StartError) → Try E A → Try StartError A
stopped_by wrap (caught e) = caught (wrap e)
stopped_by wrap (value x) = value x

module _ (resolve : Bytes → Option Bytes) where
  -- `runProxying`, up to the goroutines: a `RedisMasterResolver` tracks replicas and refreshes, as far as
  -- its methods go.
  unfoldable pub run_proxying : Config → Try StartError (NewResolver × RedisSentinelProxy)
  unfolding new_redis_master_resolver new_redis_sentinel_proxy
  run_proxying cfg = do
    resolver ← stopped_by resolver_failed (new_redis_master_resolver cfg)
    rsp ← stopped_by proxy_failed (new_redis_sentinel_proxy resolve true true cfg)
    value (resolver, rsp)

  module _ (files : Files) (load_file : Bytes → Option Config) (parse_duration : Bytes → Option ℤ)
      (env : Bytes → Option Bytes) where
    -- `main`: the flags that were set, and the path after `-config`.
    unfoldable pub start_up :
        List (Bytes × FlagValue) → Bytes → Try StartError (NewResolver × RedisSentinelProxy)
    unfolding load from_flags run_proxying
    start_up visited config_file = do
      cfg ←
          stopped_by load_failed
            (load files load_file parse_duration env (some (from_flags visited)) config_file)
      run_proxying cfg

-- A replica that was taken: `ok == false`, or its address.
abbrev pub address_or_none : Option (Option Bytes) → Option Bytes
address_or_none none = none
address_or_none (some a) = a

-- A resolver as its proxy sees it. `MasterAddress` and `ReplicaAddress` wait until the initial resolve is over: what happens
-- until then is `until_ready`.
module _ (parse_ip : Bytes → Option Bool) {W : Type 0} (net : Network W)
    (dial_redis : Bytes → W → Bool × W) (meanwhile until_ready : Resolver → W → Resolver × W) where
  unfoldable pub await_ready : Resolver → W → Resolver × W
  await_ready s w = elim s.ready [ true ↦ (s, w) | false ↦ until_ready s w ]

  unfoldable pub ask_master : Resolver × W → Bytes × (Resolver × W)
  unfolding await_ready
  ask_master (s, w) =
      let (s1, w1) = meanwhile s w in let (s2, w2) = await_ready s1 w1 in (s2.master_addr, (s2, w2))

  unfoldable pub ask_replica : Resolver × W → Option Bytes × (Resolver × W)
  unfolding await_ready replica_address
  ask_replica (s, w) =
      let (s1, w1) = meanwhile s w in
      let (s2, w2) = await_ready s1 w1 in
      let (answer, s3) = replica_address s2 in (address_or_none answer, (s3, w2))

  unfoldable pub ask_refresh : Resolver × W → Resolver × W
  unfolding refresh_addresses
  ask_refresh (s, w) = let (s1, w1) = meanwhile s w in refresh_addresses parse_ip net s1 w1

  unfoldable pub dial_backend : Bytes → Resolver × W → Bool × (Resolver × W)
  dial_backend addr (s, w) =
      let (s1, w1) = meanwhile s w in let (fine, w2) = dial_redis addr w1 in (fine, (s1, w2))

  abbrev pub resolver_backends : Backends (Resolver × W)
  resolver_backends = record {
    master_address = ask_master;
    replica_address = ask_replica;
    refresh_addresses = ask_refresh;
    dial_redis = dial_backend;
  }
