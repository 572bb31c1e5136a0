-- ===== src/Proxy/Endpoints.antt =====
-- pkg/proxy/proxy.go: what `NewRedisSentinelProxy` makes sure of.
use redis_sentinel_proxy.Base.{
  ◌≡◌, refl, subst, Bool, true, false, Bool-cases, inl, inr, ◌||◌, ◌⊎◌, Option, none, some, Bytes,
}
use redis_sentinel_proxy.Base.Results.{
  value, require, or_error, value_of_bind, value_of_require, value_inj,
}
use redis_sentinel_proxy.Config.{Config, bool_set}
use redis_sentinel_proxy.Proxy.{
  RedisSentinelProxy, nil_setting, no_replica_tracking, is_some, endpoint, with_replicas,
  require_endpoint, with_router, finish, assemble, bad_listen, bad_replica_listen,
  new_redis_sentinel_proxy,
}

-- What the rest of the program relies on: there is an endpoint; where the replica endpoint or the
-- router is on, `p.replicaResolver` is not nil; the router has the master endpoint.
pub record WellFormed (p : RedisSentinelProxy) : Type 0 where
  pub some_endpoint : (is_some p.local_addr || is_some p.replica_addr) ≡ true
  pub replica_endpoint : (is_some p.replica_addr ≡ false) ⊎ (p.has_replicas ≡ true)
  pub routed : (p.router ≡ false) ⊎ ((is_some p.local_addr ≡ true) × (p.has_replicas ≡ true))

-- What is so of a proxy before the router is added.
Unrouted : RedisSentinelProxy → Type 0
Unrouted p = ((is_some p.replica_addr ≡ false) ⊎ (p.has_replicas ≡ true)) × (p.router ≡ false)

module _ (resolve : Bytes → Option Bytes) (tracks_replicas refreshes : Bool) where
  with_replicas-Unrouted :
      (a : Option Bytes) (p q : RedisSentinelProxy) (fallback : Option Bytes)
      → p.router ≡ false
      → is_some p.replica_addr ≡ false
      → with_replicas resolve tracks_replicas refreshes a p fallback ≡ value q
      → Unrouted q
  unfolding with_replicas Unrouted
  with_replicas-Unrouted none p q fallback off no_addr h =
      subst Unrouted (value_inj h) (inl no_addr, off)
  with_replicas-Unrouted (some a) p q fallback off no_addr h =
      let (_, tracks, h1) = value_of_bind (require tracks_replicas no_replica_tracking) _ h in
      let (_, _, h2) = value_of_bind (or_error nil_setting fallback) _ h1 in
      subst Unrouted (value_inj h2)
        (inr (value_of_require tracks_replicas no_replica_tracking tracks), off)

  require_endpoint_lem :
      (p q : RedisSentinelProxy)
      → require_endpoint resolve tracks_replicas refreshes p ≡ value q
      → (p ≡ q) × ((is_some p.local_addr || is_some p.replica_addr) ≡ true)
  unfolding require_endpoint
  require_endpoint_lem p q h = elim (Bool-cases (is_some p.local_addr)) [
    | inl e ↦ (value_inj (rw e at h), rw e refl)
    | inr e ↦ elim (Bool-cases (is_some p.replica_addr)) [
      | inl f ↦ (value_inj (rw (e, f) at h), rw (e, f) refl)
      | inr f ↦ cc (rw (e, f) at h)
    ]
  ]

  with_router-WellFormed :
      (on : Bool) (p q : RedisSentinelProxy)
      → Unrouted p
      → (is_some p.local_addr || is_some p.replica_addr) ≡ true
      → with_router resolve tracks_replicas refreshes on p ≡ value q
      → WellFormed q
  unfolding with_router Unrouted
  with_router-WellFormed false p q (r, off) some_one h =
      subst WellFormed (value_inj h)
        (record { some_endpoint = some_one; replica_endpoint = r; routed = inl off })
  with_router-WellFormed true p q (r, off) some_one h = elim (Bool-cases (is_some p.local_addr)) [
    | inl e ↦ elim (Bool-cases tracks_replicas) [
      | inl f ↦
          subst WellFormed (value_inj (rw (e, f) at h)) (record {
            some_endpoint = some_one;
            replica_endpoint = inr refl;
            routed = inr (e, refl);
          })
      | inr f ↦ cc (rw (e, f) at h)
    ]
    | inr e ↦ cc (rw e at h)
  ]

  finish-WellFormed :
      (cfg : Config) (p q : RedisSentinelProxy)
      → Unrouted p
      → finish resolve tracks_replicas refreshes cfg p ≡ value q
      → WellFormed q
  unfolding finish
  finish-WellFormed cfg p q u h =
      let (p2, e, k) =
        value_of_bind (require_endpoint resolve tracks_replicas refreshes p)
          (with_router resolve tracks_replicas refreshes (bool_set cfg.router)) h in
      let (same, some_one) = require_endpoint_lem p p2 e in
      with_router-WellFormed (bool_set cfg.router) p2 q (subst Unrouted same u)
        (subst (λ x. (is_some x.local_addr || is_some x.replica_addr) ≡ true) same some_one) k

  assemble-WellFormed :
      (cfg : Config) (first : RedisSentinelProxy) (replica : Option Bytes) (p : RedisSentinelProxy)
      → first.router ≡ false
      → is_some first.replica_addr ≡ false
      → assemble resolve tracks_replicas refreshes cfg first replica ≡ value p
      → WellFormed p
  unfolding assemble
  assemble-WellFormed cfg first replica p off no_addr h =
      let (p1, e, k) =
        value_of_bind
          (with_replicas resolve tracks_replicas refreshes replica first cfg.replica_fallback)
          (finish resolve tracks_replicas refreshes cfg) h in
      finish-WellFormed cfg p1 p
        (with_replicas-Unrouted replica first p1 cfg.replica_fallback off no_addr e) k

  -- Every proxy that `NewRedisSentinelProxy` returns is well formed: it has an endpoint, it has a resolver
  -- with `ReplicaAddress` if it has the replica endpoint or routes, and it has the master endpoint if it
  -- routes.
  pub new_redis_sentinel_proxy-WellFormed :
      (cfg : Config) (p : RedisSentinelProxy)
      → new_redis_sentinel_proxy resolve tracks_replicas refreshes cfg ≡ value p
      → WellFormed p
  unfolding new_redis_sentinel_proxy
  new_redis_sentinel_proxy-WellFormed cfg p h =
      let (_, _, h1) = value_of_bind (or_error nil_setting cfg.max_connections) _ h in
      let (_, _, h2) = value_of_bind (or_error nil_setting cfg.idle_timeout) _ h1 in
      let (_, _, h3) = value_of_bind (or_error nil_setting cfg.debug) _ h2 in
      let new_endpoint = endpoint resolve tracks_replicas refreshes in
      let (local, _, h4) = value_of_bind (new_endpoint bad_listen cfg.listen) _ h3 in
      let (replica, _, h5) =
        value_of_bind (new_endpoint bad_replica_listen cfg.replica_listen) _ h4 in
      assemble-WellFormed cfg _ replica p refl refl h5
