-- ===== src/Resolver/Untracked.antt =====
-- pkg/master_resolver/master_resolver.go: a resolver that was made without a replica endpoint.
use redis_sentinel_proxy.Base.{
  ◌≡◌, refl, subst, Bool, false, inl, inr, List, [], ◌∷◌, Option, none, Bytes,
}
use redis_sentinel_proxy.Base.Results.{value, or_error, value_of_bind, value_inj}
use redis_sentinel_proxy.Io.Integer.{ℤ}
use redis_sentinel_proxy.Config.{Config, str_set}
use redis_sentinel_proxy.Resolver.Network.{Network}
use redis_sentinel_proxy.Resolver.Nodes.{resolve_master_address}
use redis_sentinel_proxy.Resolver.Addresses.{
  Resolver, set_master_address, update_replicas, update_master_address, replica_address,
}
use redis_sentinel_proxy.Resolver.Loops.{
  Wake, elapsed, cancelled, Status, starting, ticking, sleeping, returned, Loop, try_initial,
  try_update, wake, wake_all, update_master_address_loop,
}
use redis_sentinel_proxy.Resolver.Vouching.{Answer-cases}
use redis_sentinel_proxy.Resolver.New.{NewResolver, nil_setting, new_redis_master_resolver}

-- No replica is looked for, and none is known.
Untracked : Resolver → Type 0
Untracked s = (s.track_replicas ≡ false) × (s.replica_addrs ≡ [])

module _ (parse_ip : Bytes → Option Bool) {W : Type 0} (net : Network W) where
  update_replicas-Untracked :
      (s : Resolver) (w : W) → Untracked s → Untracked (update_replicas parse_ip net s w).0
  unfolding update_replicas Untracked
  update_replicas-Untracked s w (off, e) = rw (off, update_replicas) (off, e)

  update-Untracked :
      (s : Resolver) (w : W) → Untracked s → Untracked (update_master_address parse_ip net s w).1
  unfolding update_master_address Untracked set_master_address
  update-Untracked s w (off, e) =
      elim (Answer-cases (resolve_master_address parse_ip net s.master_name s.ptr_cache w).0) [
        | inl (x, f) ↦ rw (f, update_master_address) (off, e)
        | inr ((addr, name), f) ↦
            rw (f, update_master_address) (update_replicas-Untracked _ _ (off, e))
      ]

  module _ (retries : ℤ) where
    wake-Untracked :
        (k : Wake) (l : Loop W) (at : Status)
        → l.status ≡ at
        → Untracked l.resolver
        → Untracked (wake retries parse_ip net k l).resolver
    unfolding wake try_initial try_update Untracked
    wake-Untracked elapsed l (starting d count e) p h =
        rw (p, wake) (update-Untracked l.resolver l.world h)
    wake-Untracked elapsed l (ticking count e) p h =
        rw (p, wake) (update-Untracked l.resolver l.world h)
    wake-Untracked elapsed l (sleeping d count e) p h = rw (p, wake) h
    wake-Untracked elapsed l (returned e) p h = rw (p, wake) h
    wake-Untracked cancelled l (starting d count e) p h = rw (p, wake) h
    wake-Untracked cancelled l (ticking count e) p h = rw (p, wake) h
    wake-Untracked cancelled l (sleeping d count e) p h = rw (p, wake) h
    wake-Untracked cancelled l (returned e) p h = rw (p, wake) h

    wake_all-Untracked :
        (ks : List Wake) (l : Loop W)
        → Untracked l.resolver
        → Untracked (wake_all retries parse_ip net ks l).resolver
    unfolding wake_all
    wake_all-Untracked [] l h = h
    wake_all-Untracked (k ∷ ks) l h =
        wake_all-Untracked ks (wake retries parse_ip net k l) (wake-Untracked k l l.status refl h)

    loop-Untracked :
        (ks : List Wake) (s : Resolver) (w : W)
        → Untracked s
        → Untracked (update_master_address_loop retries parse_ip net ks s w).resolver
    unfolding update_master_address_loop try_initial Untracked
    loop-Untracked ks s w h =
        wake_all-Untracked ks (try_initial retries parse_ip net 0 s w) (update-Untracked s w h)

  new-Untracked :
      (cfg : Config) (r : NewResolver)
      → new_redis_master_resolver cfg ≡ value r
      → str_set cfg.replica_listen ≡ false
      → Untracked r.start
  unfolding new_redis_master_resolver Untracked
  new-Untracked cfg r h off =
      let (_, _, h1) = value_of_bind (or_error nil_setting cfg.master) _ h in
      let (_, _, h2) = value_of_bind (or_error nil_setting cfg.sentinel) _ h1 in
      let (_, _, h3) = value_of_bind (or_error nil_setting cfg.resolve_retries) _ h2 in
      subst (λ (x : NewResolver). Untracked x.start) (value_inj h3) (off, refl)

  no_replica_address :
      (s : Resolver)
      → s.replica_addrs ≡ []
      → ◌≡◌ {A = Option (Option Bytes)} (replica_address s).0 none
  unfolding replica_address
  no_replica_address s e = rw (e, replica_address) refl

  -- The router alone does not make the resolver look for replicas: with settings that make no replica
  -- endpoint, whether the router is on or not, no replica is ever known, whatever sentinel says and
  -- however long the update loop has run, and `ReplicaAddress` has none to give.
  pub replica_address-untracked :
      (cfg : Config) (r : NewResolver) (ks : List Wake) (w : W)
      → new_redis_master_resolver cfg ≡ value r
      → str_set cfg.replica_listen ≡ false
      → ◌≡◌ {A = Option (Option Bytes)}
          (replica_address
            (update_master_address_loop r.retries parse_ip net ks r.start w).resolver).0
          none
  unfolding Untracked
  replica_address-untracked cfg r ks w h off =
      no_replica_address (update_master_address_loop r.retries parse_ip net ks r.start w).resolver
        (loop-Untracked r.retries ks r.start w (new-Untracked cfg r h off)).1
