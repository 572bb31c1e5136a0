-- ===== src/Startup/Wiring.antt =====
-- main.go with pkg/proxy and pkg/master_resolver: where the clients of the whole program are connected.
use redis_sentinel_proxy.Base.{
  some_inj, ◌≡◌, sym, ap, subst, Bool, Bool-cases, inl, inr, ◌⊎◌, [], Option, none, some, Bytes,
}
use redis_sentinel_proxy.Base.Results.{value, value_of_bind, or_error, value_inj}
use redis_sentinel_proxy.Config.{Config}
use redis_sentinel_proxy.Resolver.Network.{Network}
use redis_sentinel_proxy.Resolver.Addresses.{Resolver, replica_address}
use redis_sentinel_proxy.Resolver.New.{NewResolver, new_redis_master_resolver}
use redis_sentinel_proxy.Resolver.Reach.{
  takes, refreshes, Reach, here, later, KnownReplica, KnownMaster, replica_address-known,
  Reach-KnownMaster,
}
use redis_sentinel_proxy.Proxy.{
  RedisSentinelProxy, Label, master, replica, fallback, connected, pick_master, pick_replica,
  connect_backend, dial_replica_for_routing,
}
use redis_sentinel_proxy.Proxy.Serving.{
  Contract, connect_backend-serves, dial_replica_for_routing-serves,
}
use redis_sentinel_proxy.Startup.{
  await_ready, ask_master, ask_replica, ask_refresh, dial_backend, address_or_none,
  resolver_backends,
}

-- A resolver starts without any address.
pub new_redis_master_resolver-blank :
    (cfg : Config) (r : NewResolver)
    → new_redis_master_resolver cfg ≡ value r
    → (r.start.master_addr ≡ []) × (r.start.replica_addrs ≡ [])
unfolding new_redis_master_resolver
new_redis_master_resolver-blank cfg r h =
    let (name, _, h1) = value_of_bind (or_error _ cfg.master) _ h in
    let (sentinel, _, h2) = value_of_bind (or_error _ cfg.sentinel) _ h1 in
    let (retries, _, h3) = value_of_bind (or_error _ cfg.resolve_retries) _ h2 in
    let e = sym (value_inj h3) in
    (
      ap (λ (n : NewResolver). n.start.master_addr) e,
      ap (λ (n : NewResolver). n.start.replica_addrs) e,
    )

some_of_address :
    (o : Option (Option Bytes)) (a : Bytes) → address_or_none o ≡ some a → o ≡ some (some a)
some_of_address none a h = cc
some_of_address (some x) a h = ap some h

module _ (parse_ip : Bytes → Option Bool) {W : Type 0} (net : Network W) where
  pub Reach-trans :
      {a b c : Resolver} → Reach parse_ip net a b → Reach parse_ip net b c → Reach parse_ip net a c
  Reach-trans p here = p
  Reach-trans p (later q st) = later (Reach-trans p q) st

  -- What is known of the node at an address, by the role for which it was picked.
  abbrev KnownFor : Bytes → Label → Bytes → Type 0
  KnownFor name master addr = KnownMaster parse_ip net name addr
  KnownFor name replica addr = KnownReplica parse_ip net name addr
  KnownFor name fallback addr = KnownMaster parse_ip net name addr

  module _ (dial_redis : Bytes → W → Bool × W) (meanwhile until_ready : Resolver → W → Resolver × W)
      (meanwhile-Reach : (s : Resolver) (w : W) → Reach parse_ip net s (meanwhile s w).0)
      (until_ready-Reach : (s : Resolver) (w : W) → Reach parse_ip net s (until_ready s w).0) where
    await_ready-Reach :
        (s : Resolver) (w : W)
        → Reach parse_ip net s (await_ready parse_ip net dial_redis meanwhile until_ready s w).0
    unfolding await_ready
    await_ready-Reach s w = elim (Bool-cases s.ready) [
      | inl e ↦ simp (e, await_ready) here
      | inr e ↦ simp (e, await_ready) (until_ready-Reach s w)
    ]

    module _ (start : Resolver) (no_master : start.master_addr ≡ [])
        (no_replicas : start.replica_addrs ≡ []) where
      -- What the proxy asks for leaves the resolver in a state that it can reach.
      abbrev pub Reached : Resolver × W → Type 0
      Reached p = Reach parse_ip net start p.0

      pub resolver_backends-Contract :
          Contract
            (resolver_backends parse_ip net dial_redis meanwhile until_ready)
            Reached
            (KnownMaster parse_ip net start.master_name)
            (KnownReplica parse_ip net start.master_name)
      unfolding ask_master ask_replica ask_refresh dial_backend
      resolver_backends-Contract =
          let after =
            λ (p : Resolver × W) (r : Reached p). Reach-trans r (meanwhile-Reach p.0 p.1) in
          record {
            master_keeps = λ p r. Reach-trans (after p r) (await_ready-Reach _ _);
            replica_keeps = λ p r. later (Reach-trans (after p r) (await_ready-Reach _ _)) takes;
            refresh_keeps = λ p r. later (after p r) (refreshes (meanwhile p.0 p.1).1);
            dial_keeps = λ addr p r. after p r;
            master_good = λ p r.
                Reach-KnownMaster parse_ip net start _ no_master no_replicas
                  (Reach-trans (after p r) (await_ready-Reach _ _));
            replica_good = λ p addr r h.
                let p1 = meanwhile p.0 p.1 in
                let s = (await_ready parse_ip net dial_redis meanwhile until_ready p1.0 p1.1).0 in
                let (x, is, good) =
                  replica_address-known parse_ip net start s (some addr) no_master no_replicas
                    (Reach-trans (after p r) (await_ready-Reach p1.0 p1.1))
                    (some_of_address (replica_address s).0 addr h) in
                subst (KnownReplica parse_ip net start.master_name) (sym (some_inj is)) good;
          }

      connected_known :
          (r : RedisSentinelProxy) (s : Resolver) (w : W) (addr : Bytes) (label : Label)
          → Reach parse_ip net start s
          → ((connect_backend
                (resolver_backends parse_ip net dial_redis meanwhile until_ready)
                r
                (pick_master (resolver_backends parse_ip net dial_redis meanwhile until_ready) r)
                (s, w)).0
              ≡ connected addr label)
            ⊎ ((connect_backend
                  (resolver_backends parse_ip net dial_redis meanwhile until_ready)
                  r
                  (pick_replica (resolver_backends parse_ip net dial_redis meanwhile until_ready) r)
                  (s, w)).0
                ≡ connected addr label)
          → KnownFor start.master_name label addr
      connected_known r s w addr master reached h =
          connect_backend-serves _ resolver_backends-Contract r (s, w) addr master reached h
      connected_known r s w addr replica reached h =
          connect_backend-serves _ resolver_backends-Contract r (s, w) addr replica reached h
      connected_known r s w addr fallback reached h =
          connect_backend-serves _ resolver_backends-Contract r (s, w) addr fallback reached h

    -- Whatever other goroutines do to the resolver that the settings make, and whatever the outside
    -- answers: a client of one of the two plain endpoints that is connected at any time is connected to
    -- an address at which a node answered that it has the role for which it was picked. For a replica the
    -- node is one that sentinel once listed as a healthy replica of the resolver's master, for the master
    -- and the fallback it is the one that sentinel once named as this master, unless none was found yet
    -- and the address is the empty one.
    pub connect_backend-known :
        (cfg : Config) (made : NewResolver) (r : RedisSentinelProxy) (s : Resolver) (w : W)
        (addr : Bytes) (label : Label)
        → new_redis_master_resolver cfg ≡ value made
        → Reach parse_ip net made.start s
        → ((connect_backend
              (resolver_backends parse_ip net dial_redis meanwhile until_ready)
              r
              (pick_master (resolver_backends parse_ip net dial_redis meanwhile until_ready) r)
              (s, w)).0
            ≡ connected addr label)
          ⊎ ((connect_backend
                (resolver_backends parse_ip net dial_redis meanwhile until_ready)
                r
                (pick_replica (resolver_backends parse_ip net dial_redis meanwhile until_ready) r)
                (s, w)).0
              ≡ connected addr label)
        → KnownFor made.start.master_name label addr
    connect_backend-known cfg made r s w addr label is reached h =
        let (no_master, no_replicas) = new_redis_master_resolver-blank cfg made is in
        connected_known made.start no_master no_replicas r s w addr label reached h

    -- Likewise, the replica connection of a routed session goes to an address at which a node that
    -- sentinel once listed as a healthy replica of the resolver's master answered that it is a replica.
    pub dial_replica_for_routing-known :
        (cfg : Config) (made : NewResolver) (r : RedisSentinelProxy) (s : Resolver) (w : W)
        (addr : Bytes)
        → new_redis_master_resolver cfg ≡ value made
        → Reach parse_ip net made.start s
        → (dial_replica_for_routing
            (resolver_backends parse_ip net dial_redis meanwhile until_ready)
            r
            (s, w)).0
          ≡ some addr
        → KnownReplica parse_ip net made.start.master_name addr
    dial_replica_for_routing-known cfg made r s w addr is reached h =
        let (no_master, no_replicas) = new_redis_master_resolver-blank cfg made is in
        dial_replica_for_routing-serves _
          (resolver_backends-Contract made.start no_master no_replicas) r (s, w) addr reached h
