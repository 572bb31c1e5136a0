-- ===== src/Startup/Started.antt =====
-- main.go: what a program that has started serves.
use mathlib.Core.Bool.{or-true}
use redis_sentinel_proxy.Base.{
  ◌≡◌, refl, sym, ap, ap₂, subst, ◌∙◌, Bool, true, false, not, ◌||◌, Bool-cases, inl, inr, List,
  Option, none, some, Bytes,
}
use redis_sentinel_proxy.Base.Results.{
  value, require, or_error, value_of_bind, value_of_require, value_inj,
}
use redis_sentinel_proxy.Io.Integer.{ℤ}
use redis_sentinel_proxy.Config.{Config, str_set, bool_set}
use redis_sentinel_proxy.Config.Tls.{Files}
use redis_sentinel_proxy.Config.Flags.{FlagValue, from_flags}
use redis_sentinel_proxy.Config.Load.{load}
use redis_sentinel_proxy.Resolver.New.{NewResolver, new_redis_master_resolver}
use redis_sentinel_proxy.Proxy.{
  RedisSentinelProxy, bad_listen, bad_replica_listen, nil_setting, router_without_listen, is_some,
  endpoint, with_replicas, require_endpoint, with_router, finish, bare, assemble,
  new_redis_sentinel_proxy,
}
use redis_sentinel_proxy.Proxy.Refusals.{endpoint_value}
use redis_sentinel_proxy.Startup.{
  load_failed, resolver_failed, proxy_failed, stopped_by, run_proxying, start_up,
}
use redis_sentinel_proxy.Startup.Outcomes.{stopped_by_value}

-- The endpoints of a proxy are `local` and `replica`, its router is `on`.
record Serves (p : RedisSentinelProxy) (local replica : Option Bytes) (on : Bool) : Type 0 where
  pub local_side : p.local_addr ≡ local
  pub replica_side : p.replica_addr ≡ replica
  pub routes : p.router ≡ on
  pub resolves_replicas : p.has_replicas ≡ (is_some replica || on)

module _ (resolve : Bytes → Option Bytes) where
  with_replicas-Serves :
      (r : Option Bytes) (p q : RedisSentinelProxy) (wanted local : Option Bytes)
      → Serves p local none false
      → with_replicas resolve true true r p wanted ≡ value q
      → Serves q local r false
  unfolding with_replicas
  with_replicas-Serves none p q wanted local s h =
      subst (λ x. Serves x local none false) (value_inj h) s
  with_replicas-Serves (some a) p q wanted local s h =
      let (w, _, h1) = value_of_bind (or_error nil_setting wanted) _ h in
      subst (λ x. Serves x local (some a) false) (value_inj h1)
        (record {
          local_side = s.local_side;
          replica_side = refl;
          routes = s.routes;
          resolves_replicas = refl;
        })

  require_endpoint_value :
      (p q : RedisSentinelProxy)
      → require_endpoint resolve true true p ≡ value q
      → (p ≡ q) × ((is_some p.local_addr || is_some p.replica_addr) ≡ true)
  unfolding require_endpoint
  require_endpoint_value p q h = elim (Bool-cases (is_some p.local_addr)) [
    | inl e ↦ (value_inj (simp (e, require_endpoint) at h), rw (e) refl)
    | inr e ↦ elim (Bool-cases (is_some p.replica_addr)) [
      | inl f ↦ (value_inj (simp (e, require_endpoint, f) at h), rw (e, f) refl)
      | inr f ↦ cc (rw (e, require_endpoint, f) at h)
    ]
  ]

  with_router-Serves :
      (on : Bool) (p q : RedisSentinelProxy) (local replica : Option Bytes)
      → Serves p local replica false
      → with_router resolve true true on p ≡ value q
      → Serves q local replica on × ((not on || is_some local) ≡ true)
  unfolding with_router
  with_router-Serves false p q local replica s h =
      (subst (λ x. Serves x local replica false) (value_inj h) s, refl)
  with_router-Serves true p q local replica s h =
      let (_, e, h1) = value_of_bind (require (is_some p.local_addr) router_without_listen) _ h in
      (
        subst (λ x. Serves x local replica true) (value_inj h1)
            (record {
              local_side = s.local_side;
              replica_side = s.replica_side;
              routes = refl;
              resolves_replicas = sym (or-true (is_some replica));
            }),
        ap is_some (sym s.local_side)
            ∙ value_of_require (is_some p.local_addr) router_without_listen e,
      )

  assemble-Serves :
      (cfg : Config) (p q : RedisSentinelProxy) (local replica : Option Bytes)
      → Serves p local none false
      → assemble resolve true true cfg p replica ≡ value q
      → Serves q local replica (bool_set cfg.router)
        × ((is_some local || is_some replica) ≡ true)
        × ((not (bool_set cfg.router) || is_some local) ≡ true)
  unfolding assemble finish
  assemble-Serves cfg p q local replica s h =
      let (p1, e1, h1) =
        value_of_bind (with_replicas resolve true true replica p cfg.replica_fallback) _ h in
      let (p2, e2, h2) = value_of_bind (require_endpoint resolve true true p1) _ h1 in
      let s1 = with_replicas-Serves replica p p1 cfg.replica_fallback local s e1 in
      let (same, some_endpoint) = require_endpoint_value p1 p2 e2 in
      let (s2, routed) =
        with_router-Serves (bool_set cfg.router) p2 q local replica
          (subst (λ x. Serves x local replica false) same s1) h2 in
      (
        s2,
        ap₂ (λ a b. is_some a || is_some b) (sym s1.local_side) (sym s1.replica_side)
            ∙ some_endpoint,
        routed,
      )

  -- What the settings have to do with the endpoints.
  abbrev Follows : Config → RedisSentinelProxy → Type 0
  Follows cfg p =
      (is_some p.local_addr ≡ str_set cfg.listen)
      × (is_some p.replica_addr ≡ str_set cfg.replica_listen)
      × ((is_some p.local_addr || is_some p.replica_addr) ≡ true)
      × (p.router ≡ bool_set cfg.router)
      × ((not p.router || is_some p.local_addr) ≡ true)
      × (p.has_replicas ≡ (is_some p.replica_addr || p.router))

  new_redis_sentinel_proxy-Follows :
      (cfg : Config) (p : RedisSentinelProxy)
      → new_redis_sentinel_proxy resolve true true cfg ≡ value p
      → Follows cfg p
  unfolding new_redis_sentinel_proxy
  new_redis_sentinel_proxy-Follows cfg p h =
      let (connections, _, h1) = value_of_bind (or_error nil_setting cfg.max_connections) _ h in
      let (idle, _, h2) = value_of_bind (or_error nil_setting cfg.idle_timeout) _ h1 in
      let (debug, _, h3) = value_of_bind (or_error nil_setting cfg.debug) _ h2 in
      let (local, e, h4) = value_of_bind (endpoint resolve true true bad_listen cfg.listen) _ h3 in
      let (replica, f, h5) =
        value_of_bind (endpoint resolve true true bad_replica_listen cfg.replica_listen) _ h4 in
      let (s, listens, routed) =
        assemble-Serves cfg (bare resolve true true cfg connections idle debug local) p local
          replica
          (record {
            local_side = refl;
            replica_side = refl;
            routes = refl;
            resolves_replicas = refl;
          })
          h5 in
      (
        ap is_some s.local_side ∙ endpoint_value resolve true bad_listen cfg.listen local e,
        ap is_some s.replica_side
            ∙ endpoint_value resolve true bad_replica_listen cfg.replica_listen replica f,
        ap₂ (λ a b. is_some a || is_some b) s.local_side s.replica_side ∙ listens,
        s.routes,
        ap₂ (λ a b. not a || is_some b) s.routes s.local_side ∙ routed,
        s.resolves_replicas ∙ sym (ap₂ (λ a b. is_some a || b) s.replica_side s.routes),
      )

  new_redis_master_resolver-tracks :
      (cfg : Config) (r : NewResolver)
      → new_redis_master_resolver cfg ≡ value r
      → r.start.track_replicas ≡ str_set cfg.replica_listen
  unfolding new_redis_master_resolver
  new_redis_master_resolver-tracks cfg r h =
      let (name, _, h1) = value_of_bind (or_error _ cfg.master) _ h in
      let (sentinel, _, h2) = value_of_bind (or_error _ cfg.sentinel) _ h1 in
      let (retries, _, h3) = value_of_bind (or_error _ cfg.resolve_retries) _ h2 in
      ap (λ (n : NewResolver). n.start.track_replicas) (sym (value_inj h3))

  module _ (files : Files) (load_file : Bytes → Option Config) (parse_duration : Bytes → Option ℤ)
      (env : Bytes → Option Bytes) where
    -- A program that has started has a master endpoint or a replica endpoint, and it routes
    -- only with a master endpoint; it asks for replicas if and only if it has a replica endpoint or routes;
    -- and its resolver keeps track of the replicas if and only if there is a replica endpoint.
    pub start_up-serves :
        (visited : List (Bytes × FlagValue)) (config_file : Bytes) (made : NewResolver)
        (p : RedisSentinelProxy)
        → start_up resolve files load_file parse_duration env visited config_file ≡ value (made, p)
        → ((is_some p.local_addr || is_some p.replica_addr) ≡ true)
          × ((not p.router || is_some p.local_addr) ≡ true)
          × (p.has_replicas ≡ (is_some p.replica_addr || p.router))
          × (made.start.track_replicas ≡ is_some p.replica_addr)
    unfolding start_up run_proxying
    start_up-serves visited config_file made p h =
        let loaded =
          load files load_file parse_duration env (some (from_flags visited)) config_file in
        let (cfg, _, h1) = value_of_bind (stopped_by load_failed loaded) _ h in
        let (made1, e2, h2) =
          value_of_bind (stopped_by resolver_failed (new_redis_master_resolver cfg)) _ h1 in
        let (p1, e3, h3) =
          value_of_bind (stopped_by proxy_failed (new_redis_sentinel_proxy resolve true true cfg)) _
            h2 in
        let same_made = ap (λ (q : NewResolver × RedisSentinelProxy). q.0) (value_inj h3) in
        let same_p = ap (λ (q : NewResolver × RedisSentinelProxy). q.1) (value_inj h3) in
        let (_, on_replica, listens, _, routed, asks) = subst (Follows cfg) same_p (
          new_redis_sentinel_proxy-Follows cfg p1 (
            stopped_by_value proxy_failed (new_redis_sentinel_proxy resolve true true cfg) p1
              e3)) in
        let tracks =
          new_redis_master_resolver-tracks cfg made1
            (stopped_by_value resolver_failed (new_redis_master_resolver cfg) made1 e2) in
        (
          listens,
          routed,
          asks,
          ap (λ (n : NewResolver). n.start.track_replicas) (sym same_made)
              ∙ tracks
              ∙ sym on_replica,
        )
