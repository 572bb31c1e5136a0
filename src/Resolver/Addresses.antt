-- ===== src/Resolver/Addresses.antt =====
-- pkg/master_resolver/master_resolver.go: the addresses that a resolver holds, and the operations
-- on them. Each runs under a lock, so that it is one step of the state.
use redis_sentinel_proxy.Base.{
  ℕ, zero, suc, ◌+◌, ◌-◌, ◌%◌, ◌^◌, Bool, true, false, List, [], ◌∷◌, Option, none, some, map,
  Bytes, length, ltb, if◌then◌else◌,
}
use redis_sentinel_proxy.Resolver.Network.{Network, TcpAddr, ResolveError, found, failed}
use redis_sentinel_proxy.Resolver.PtrCache.{PtrCache, second}
use redis_sentinel_proxy.Resolver.Nodes.{Replica, resolve_master_address, resolve_replica_addresses}

-- `ready` is `initialMasterResolveLock`, closed. `last_refresh` is nothing for Go's zero time, which
-- is ages ago. `replica_idx` is a uint64.
pub record Resolver : Type 0 where
  pub master_name : Bytes
  pub track_replicas : Bool
  pub ready : Bool
  pub last_refresh : Option ℕ
  pub master_addr : Bytes
  pub master_display : Bytes
  pub replica_addrs : List Bytes
  pub replica_names : List Bytes
  pub replica_idx : ℕ
  pub ptr_cache : PtrCache

abbrev pub refresh_throttle : ℕ
refresh_throttle = second

-- `MasterAddress`, which waits while `ready` is false.
unfoldable pub master_address : Resolver → Option Bytes
master_address s = if s.ready then some s.master_addr else none

unfoldable pub set_master_address : TcpAddr → Bytes → Resolver → Resolver
set_master_address addr name s = record s { master_addr = addr.shown; master_display = name }

unfoldable pub set_replica_addresses : List Replica → Resolver → Resolver
set_replica_addresses reps s = record s {
  replica_addrs = map (λ r. r.addr) reps;
  replica_names = map (λ r. r.name) reps;
}

unfoldable pub get_elem? {ℓ} : {A : Type ℓ} → List A → ℕ → Option A
get_elem? [] n = none
get_elem? (x ∷ xs) zero = some x
get_elem? (x ∷ xs) (suc n) = get_elem? xs n

-- `none` is `ok == false`; the index that Go would panic on is `some none`.
unfoldable pub replica_address : Resolver → Option (Option Bytes) × Resolver
unfolding get_elem?
replica_address s =
    let next = (s.replica_idx + 1) % 2 ^ 64 in
    elim s.replica_addrs [
      | [] ↦ (none, s)
      | addr ∷ addrs ↦ (
        some (get_elem? (addr ∷ addrs) (((next + (2 ^ 64 - 1)) % 2 ^ 64) % length (addr ∷ addrs))),
        record s { replica_idx = next },
      )
    ]

abbrev pub throttled : ℕ → Option ℕ → Bool
throttled now none = false
throttled now (some last) = ltb (now - last) refresh_throttle

module _ (parse_ip : Bytes → Option Bool) {W : Type 0} (net : Network W) where
  -- The replicas behind a fresh master: none if they cannot be had.
  unfoldable pub update_replicas : Resolver → W → Resolver × W
  update_replicas s w = elim s.track_replicas [
    | false ↦ (s, w)
    | true ↦
        let (reps, cache, w1) =
          resolve_replica_addresses parse_ip net s.master_name s.ptr_cache w in
        elim reps [
          | failed e ↦ (set_replica_addresses [] (record s { ptr_cache = cache }), w1)
          | found rs ↦ (set_replica_addresses rs (record s { ptr_cache = cache }), w1)
        ]
  ]

  unfoldable pub update_master_address : Resolver → W → Option ResolveError × Resolver × W
  unfolding update_replicas set_master_address set_replica_addresses resolve_master_address
      resolve_replica_addresses
  update_master_address s w =
      let (m, cache, w1) = resolve_master_address parse_ip net s.master_name s.ptr_cache w in
      elim m [
        | failed e ↦ (some e, record s { ptr_cache = cache }, w1)
        | found (addr, name) ↦
            let (s1, w2) =
              update_replicas (set_master_address addr name (record s { ptr_cache = cache })) w1 in
            (none, s1, w2)
      ]

  unfoldable pub refresh_addresses : Resolver → W → Resolver × W
  unfolding update_master_address
  refresh_addresses s w = elim s.ready [
    | false ↦ (s, w)
    | true ↦
        let (now, w1) = net.clock w in
        elim (throttled now s.last_refresh) [
          | true ↦ (s, w1)
          | false ↦
              let (later, w2) = net.clock w1 in
              let (_, s1, w3) = update_master_address (record s { last_refresh = some later }) w2 in
              (s1, w3)
        ]
  ]
