-- ===== src/Proxy/Refusals.antt =====
-- pkg/proxy/proxy.go: why `NewRedisSentinelProxy` may refuse settings that `Load` returned.
use redis_sentinel_proxy.Base.{
  ◌≡◌, refl, sym, ap, subst, ◌∙◌, Bool, true, false, Bool-cases, Option-cases, ap₂, inl, inr, ◌||◌,
  ◌⊎◌, [], ◌∷◌, Option, none, some, Bytes,
}
use redis_sentinel_proxy.Base.Results.{
  caught, value, ◌>>=◌, require, caught_of_bind, caught_of_require, past_given, value_inj,
}
use redis_sentinel_proxy.Config.{Config, str_set, bool_set}
use redis_sentinel_proxy.Config.Complete.{Complete, Given, ReplicaEndpoint}
use redis_sentinel_proxy.Proxy.{
  RedisSentinelProxy, NewError, nil_setting, bad_listen, bad_replica_listen, router_without_listen,
  is_some, endpoint, with_replicas, require_endpoint, with_router, finish, bare, assemble,
  new_redis_sentinel_proxy,
}

-- What the user may have done: an address that does not resolve, or the router without the master
-- endpoint. `net.ResolveTCPAddr` is `resolve`.
pub data Reason (resolve : Bytes → Option Bytes) (cfg : Config) : NewError → Type 0 where
  unresolved :
      (addr : Bytes) → cfg.listen ≡ some addr → resolve addr ≡ none → Reason resolve cfg bad_listen
  unresolved_replica :
      (addr : Bytes)
      → cfg.replica_listen ≡ some addr
      → resolve addr ≡ none
      → Reason resolve cfg bad_replica_listen
  lonely_router :
      cfg.router ≡ some true → str_set cfg.listen ≡ false → Reason resolve cfg router_without_listen

true_of_bool_set : (o : Option Bool) → bool_set o ≡ true → o ≡ some true
true_of_bool_set none h = cc
true_of_bool_set (some b) h = ap some h

module _ (resolve : Bytes → Option Bytes) (refreshes : Bool) where
  pub endpoint_value :
      (e : NewError) (o a : Option Bytes)
      → endpoint resolve true refreshes e o ≡ value a
      → is_some a ≡ str_set o
  unfolding endpoint
  endpoint_value e none a h = ap is_some (sym (value_inj h))
  endpoint_value e (some []) a h = ap is_some (sym (value_inj h))
  endpoint_value e (some (c ∷ s)) a h = elim (Option-cases (resolve (c ∷ s))) [
    | inl n ↦ cc (rw (n, endpoint) at h)
    | inr (x, n) ↦ ap is_some (sym (value_inj (rw (n, endpoint) at h)))
  ]

  endpoint_caught :
      (e f : NewError) (o : Option Bytes)
      → endpoint resolve true refreshes e o ≡ caught f
      → (f ≡ e) × (addr : Bytes) × (o ≡ some addr) × (resolve addr ≡ none)
  unfolding endpoint
  endpoint_caught e f none h = cc
  endpoint_caught e f (some []) h = cc
  endpoint_caught e f (some (c ∷ s)) h = elim (Option-cases (resolve (c ∷ s))) [
    | inl n ↦ (cc (rw (n, endpoint) at h), c ∷ s, refl, n)
    | inr (x, n) ↦ cc (rw (n, endpoint) at h)
  ]

  require_endpoint_passes :
      (p : RedisSentinelProxy)
      → (is_some p.local_addr || is_some p.replica_addr) ≡ true
      → require_endpoint resolve true refreshes p ≡ value p
  unfolding require_endpoint
  require_endpoint_passes p h = elim (Bool-cases (is_some p.local_addr)) [
    | inl e ↦ rw (e, require_endpoint) refl
    | inr e ↦ rw (e, require_endpoint, rw e at h) refl
  ]

  with_router_caught :
      (on : Bool) (p : RedisSentinelProxy) (e : NewError)
      → with_router resolve true refreshes on p ≡ caught e
      → (e ≡ router_without_listen) × (on ≡ true) × (is_some p.local_addr ≡ false)
  unfolding with_router
  with_router_caught false p e h = cc
  with_router_caught true p e h =
      elim (caught_of_bind (require (is_some p.local_addr) router_without_listen) _ h) [
        | inl k ↦
            let (off, same) = caught_of_require (is_some p.local_addr) router_without_listen k in
            (same, refl, off)
        | inr (_, _, k) ↦ cc
      ]

  finish_caught :
      (cfg : Config) (p : RedisSentinelProxy) (e : NewError)
      → (is_some p.local_addr || is_some p.replica_addr) ≡ true
      → finish resolve true refreshes cfg p ≡ caught e
      → (e ≡ router_without_listen) × (bool_set cfg.router ≡ true) × (is_some p.local_addr ≡ false)
  unfolding finish
  finish_caught cfg p e some_one h = with_router_caught (bool_set cfg.router) p e (
      ap (λ m. m >>= with_router resolve true refreshes (bool_set cfg.router))
        (sym (require_endpoint_passes p some_one))
      ∙ h)

  with_replicas_passes :
      (a : Option Bytes) (p : RedisSentinelProxy) (fallback : Option Bytes)
      → p.replica_addr ≡ none
      → (a ≡ none) ⊎ Given fallback
      → (q : RedisSentinelProxy) × (with_replicas resolve true refreshes a p fallback ≡ value q)
        × (q.local_addr ≡ p.local_addr)
        × (is_some q.replica_addr ≡ is_some a)
  unfolding with_replicas
  with_replicas_passes none p fallback no_addr g = (p, refl, refl, ap is_some no_addr)
  with_replicas_passes (some a) p fallback no_addr (inl e) = cc
  with_replicas_passes (some a) p fallback no_addr (inr (w, e)) =
      (_, ap (λ o. with_replicas resolve true refreshes (some a) p o) e, refl, refl)

  -- The fallback is there where there is a replica address.
  fallback-Given :
      (cfg : Config) (a : Option Bytes)
      → ReplicaEndpoint cfg
      → is_some a ≡ str_set cfg.replica_listen
      → (a ≡ none) ⊎ Given cfg.replica_fallback
  fallback-Given cfg none endpoint_ok same = inl refl
  fallback-Given cfg (some a) (inl (off, _)) same = cc (same ∙ ap str_set off)
  fallback-Given cfg (some a) (inr (_, w, e, _)) same = inr (w, e)

  assemble_caught :
      (cfg : Config) (p : RedisSentinelProxy) (a : Option Bytes) (e : NewError)
      → Complete cfg
      → p.replica_addr ≡ none
      → is_some p.local_addr ≡ str_set cfg.listen
      → is_some a ≡ str_set cfg.replica_listen
      → assemble resolve true refreshes cfg p a ≡ caught e
      → Reason resolve cfg e
  unfolding assemble
  assemble_caught cfg p a e c no_addr local replica h =
      let (q, run, same_local, same_replica) =
        with_replicas_passes a p cfg.replica_fallback no_addr
          (fallback-Given cfg a c.replica_endpoint replica) in
      let is_local = ap is_some same_local ∙ local in
      let (is_e, on, off) =
        finish_caught cfg q e (ap₂ (λ x y. x || y) is_local (same_replica ∙ replica) ∙ c.listens)
          (ap (λ m. m >>= finish resolve true refreshes cfg) (sym run) ∙ h) in
      subst (Reason resolve cfg) (sym is_e)
        (lonely_router (true_of_bool_set cfg.router on) (sym is_local ∙ off))

  -- Settings that `Load` returned are refused for one of three reasons only: the address of one of the
  -- two endpoints does not resolve, or the router is on while there is no master endpoint. No nil
  -- pointer is followed.
  pub new_redis_sentinel_proxy-Reason :
      (cfg : Config) (e : NewError)
      → Complete cfg
      → new_redis_sentinel_proxy resolve true refreshes cfg ≡ caught e
      → Reason resolve cfg e
  unfolding new_redis_sentinel_proxy
  new_redis_sentinel_proxy-Reason cfg e c h =
      let (connections, _, h1) = past_given nil_setting cfg.max_connections _ c.max_connections h in
      let (idle, _, h2) = past_given nil_setting cfg.idle_timeout _ c.idle_timeout h1 in
      let (debug, _, h3) = past_given nil_setting cfg.debug _ c.debug h2 in
      elim (caught_of_bind (endpoint resolve true refreshes bad_listen cfg.listen) _ h3) [
        | inl k ↦
            let (is, addr, given, n) = endpoint_caught bad_listen e cfg.listen k in
            subst (Reason resolve cfg) (sym is) (unresolved addr given n)
        | inr (local, is_local, h4) ↦
            elim (caught_of_bind
              (endpoint resolve true refreshes bad_replica_listen cfg.replica_listen) _ h4) [
                | inl k ↦
                    let (is, addr, given, n) =
                      endpoint_caught bad_replica_listen e cfg.replica_listen k in
                    subst (Reason resolve cfg) (sym is) (unresolved_replica addr given n)
                | inr (a, is_replica, h5) ↦
                    assemble_caught cfg
                      (bare resolve true refreshes cfg connections idle debug local) a e c refl
                      (endpoint_value bad_listen cfg.listen local is_local)
                      (endpoint_value bad_replica_listen cfg.replica_listen a is_replica) h5
              ]
      ]
