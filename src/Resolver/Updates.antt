-- ===== src/Resolver/Updates.antt =====
-- pkg/master_resolver/master_resolver.go: what `updateMasterAddress` leaves behind.
use redis_sentinel_proxy.Base.{
  ◌≡◌, refl, Bool, Bool-cases, ◌⊎◌, inl, inr, [], ◌∷◌, Option, none, some, Bytes, codes,
}
use redis_sentinel_proxy.Resolver.Network.{elements, Network, TcpAddr, ResolveError}
use redis_sentinel_proxy.Resolver.Nodes.{resolve_master_address, resolve_replica_addresses}
use redis_sentinel_proxy.Resolver.Addresses.{
  Resolver, set_replica_addresses, set_master_address, update_replicas, update_master_address,
}
use redis_sentinel_proxy.Resolver.Vouching.{Answer-cases, Vouched, resolve_master_address-Vouched}

-- Both snapshots are the same.
abbrev pub SameAddresses : Resolver → Resolver → Type 0
SameAddresses s t =
    (s.master_addr ≡ t.master_addr)
    × (s.replica_addrs ≡ t.replica_addrs)
    × (s.replica_idx ≡ t.replica_idx)

module _ (parse_ip : Bytes → Option Bool) {W : Type 0} (net : Network W) where
  pub update_replicas-master :
      (s : Resolver) (w : W) → (update_replicas parse_ip net s w).0.master_addr ≡ s.master_addr
  unfolding update_replicas set_replica_addresses
  update_replicas-master s w = elim (Bool-cases s.track_replicas) [
    | inr e ↦ rw (e, update_replicas) refl
    | inl e ↦
        elim (Answer-cases (resolve_replica_addresses parse_ip net s.master_name s.ptr_cache w).0) [
          | inl (x, f) ↦ rw (e, update_replicas, f) refl
          | inr (rs, f) ↦ rw (e, update_replicas, f) refl
        ]
  ]

  -- `updateMasterAddress` either reports an error and leaves the addresses of the master and of the
  -- replicas as they were, or it reports none, and then the new address of the master is one that
  -- sentinel named and whose node answered ROLE with "master", whether the replicas could be had or not.
  pub update_master_address_lem :
      (s : Resolver) (w : W)
      → ((x : ResolveError) × ((update_master_address parse_ip net s w).0 ≡ some x)
          × SameAddresses (update_master_address parse_ip net s w).1 s)
        ⊎ (((update_master_address parse_ip net s w).0 ≡ none)
            × (host : Bytes) × (port : Bytes) × (addr : TcpAddr) × ((net.master_addr s.master_name
                  w).0
                ≡ elements (host ∷ port ∷ []))
            × Vouched parse_ip net (codes "master") host port addr
            × ((update_master_address parse_ip net s w).1.master_addr ≡ addr.shown))
  unfolding update_master_address set_master_address
  update_master_address_lem s w =
      elim (Answer-cases (resolve_master_address parse_ip net s.master_name s.ptr_cache w).0) [
        | inl (x, e) ↦ inl (
          x,
          rw (e, update_master_address) refl,
          rw (e, update_master_address) (refl, refl, refl),
        )
        | inr ((addr, name), e) ↦
            let (host, port, said, v) =
              resolve_master_address-Vouched parse_ip net s.master_name s.ptr_cache w addr name e in
            inr (
              rw (e, update_master_address) refl,
              host,
              port,
              addr,
              said,
              v,
              rw (e, update_master_address) (update_replicas-master _ _),
            )
      ]
