-- ===== src/Startup/Sessions.antt =====
-- main.go with all that it starts: the backends of the sessions of a program that runs.
use redis_sentinel_proxy.Base.{◌≡◌, ℕ, Bool, List, Option, Bytes, All}
use redis_sentinel_proxy.Base.Results.{value}
use redis_sentinel_proxy.Config.{Config, TlsConfig}
use redis_sentinel_proxy.Resolver.Network.{Network}
use redis_sentinel_proxy.Resolver.Addresses.{Resolver}
use redis_sentinel_proxy.Resolver.New.{NewResolver, new_redis_master_resolver}
use redis_sentinel_proxy.Resolver.Reach.{Reach as ResolverReach, here, KnownReplica, KnownMaster}
use redis_sentinel_proxy.Proxy.{RedisSentinelProxy}
use redis_sentinel_proxy.Server.{Server, dial_redis, Reach}
use redis_sentinel_proxy.Server.Backing.{BackedJob, Reach-Backed}
use redis_sentinel_proxy.Startup.{resolver_backends}
use redis_sentinel_proxy.Startup.Wiring.{
  Reach-trans, resolver_backends-Contract, new_redis_master_resolver-blank,
}

module _ (parse_ip : Bytes → Option Bool) {W : Type 0} (net : Network W)
    (tcp_connect : Bytes → W → Bool × W) (tls_connect : TlsConfig → Bytes → W → Bool × W)
    (meanwhile until_ready : Resolver → W → Resolver × W)
    (meanwhile-Reach : (s : Resolver) (w : W) → ResolverReach parse_ip net s (meanwhile s w).0)
    (until_ready-Reach : (s : Resolver) (w : W)
      → ResolverReach parse_ip net s (until_ready s w).0) where
  -- Other goroutines go on: the resolver may be updated, and the outside may change in any way.
  abbrev pub Evolves : Resolver × W → Resolver × W → Type 0
  Evolves p q = ResolverReach parse_ip net p.0 q.0

  -- For a resolver made from any settings and any proxy that asks it, where other goroutines change the
  -- resolver by its own operations only: whatever the outside answers and however the goroutines
  -- interleave, each session has the backends of its endpoint. On the master endpoint that is the
  -- master, together with a replica or without only if the proxy routes; on the replica endpoint a
  -- replica, or the master in its place only if that is configured. And each backend is at an address
  -- at which a node answered that it has this role: for a replica one that sentinel once listed as a
  -- healthy replica of the resolver's master, for the master the one that sentinel once named as this
  -- master, unless the address is the empty one, as it is at the start.
  pub sessions-Backed :
      (cfg : Config) (made : NewResolver) (r : RedisSentinelProxy) (w0 : W) {ids : List ℕ}
      {s : Server} {p : Resolver × W}
      → new_redis_master_resolver cfg ≡ value made
      → Reach
          (resolver_backends parse_ip net
            (dial_redis tcp_connect tls_connect r)
            meanwhile
            until_ready)
          r
          Evolves
          (made.start, w0)
          ids
          s
          p
      → All
          (BackedJob r
            (KnownMaster parse_ip net made.start.master_name)
            (KnownReplica parse_ip net made.start.master_name))
          s.running
  sessions-Backed cfg made r w0 is t =
      let (no_master, no_replicas) = new_redis_master_resolver-blank cfg made is in
      (Reach-Backed _ r
        (resolver_backends-Contract parse_ip net (dial_redis tcp_connect tls_connect r) meanwhile
          until_ready meanwhile-Reach until_ready-Reach made.start no_master no_replicas)
        Evolves (λ v u change reached. Reach-trans parse_ip net reached change) here t).0
