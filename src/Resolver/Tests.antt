-- ===== src/Resolver/Tests.antt =====
-- The theorems on the resolver, at concrete answers of sentinel, of the nodes and of DNS.
use redis_sentinel_proxy.Base.{
  ltb, if◌then◌else◌, List, ℕ, ◌<◌, ◌*◌, ◌^◌, ◌⊎◌, Bool, true, false, [], ◌∷◌, Option, some, none,
  All, Bytes, codes, ◌≡◌, refl, arith,
}
use redis_sentinel_proxy.Io.Integer.{pos, negsuc}
use redis_sentinel_proxy.Resolver.Network.{
  SentinelReply, elements, unavailable, Fields, TcpAddr, Resolution, resolves, not_found, Network,
  text, ResolveError, found,
}
use redis_sentinel_proxy.Resolver.PtrCache.{second}
use redis_sentinel_proxy.Resolver.Nodes.{Replica, resolve_replica_addresses}
use redis_sentinel_proxy.Resolver.Addresses.{
  Resolver, get_elem?, replica_address, update_master_address,
}
use redis_sentinel_proxy.Resolver.Backoff.{
  resolve_failure_backoff, resolve_failure_backoff_cap, min_duration, resolve_failure_backoff_lem,
}
use redis_sentinel_proxy.Resolver.Loops.{
  elapsed, returned, starting, sentinel_not_ready_backoff, update_master_address_loop,
}
use redis_sentinel_proxy.Resolver.Retries.{WithinBudget, loop-WithinBudget}
use redis_sentinel_proxy.Resolver.Outages.{
  timers, Fails, update_master_address_loop-gives_up, update_master_address_loop-waits,
}
use redis_sentinel_proxy.Resolver.Turns.{calls, replica_address-in_turn}
use redis_sentinel_proxy.Resolver.Vouching.{Vouched, Healthy, resolve_replica_addresses-Healthy}
use redis_sentinel_proxy.Resolver.Updates.{SameAddresses, update_master_address_lem}

abbrev pub no_ip : Bytes → Option Bool
no_ip host = none

abbrev pub replica_fields : Fields
replica_fields =
    (codes "flags", codes "slave")
    ∷ (codes "master-link-status", codes "ok")
    ∷ (codes "ip", codes "r1")
    ∷ (codes "port", codes "6379")
    ∷ []

abbrev down_fields : Fields
down_fields =
    (codes "flags", codes "slave,s_down")
    ∷ (codes "ip", codes "r2")
    ∷ (codes "port", codes "6379")
    ∷ []

-- The outside: sentinel's answer, how names resolve, and the role of every node.
abbrev network : SentinelReply → Resolution → Bytes → Network (Unit {0})
network said resolution role = record {
  clock = λ w. (0, w);
  master_addr = λ name w. (said, w);
  replicas = λ name w. (some (replica_fields ∷ down_fields ∷ []), w);
  role = λ addr w. (some (text role ∷ []), w);
  resolve_tcp = λ addr w. (resolution, w);
  lookup_addr = λ ip w. (none, w);
}

abbrev node : TcpAddr
node = record { shown = codes "10.0.0.1:6379"; ip = codes "10.0.0.1" }

abbrev pub resolver : Resolver
resolver = record {
  master_name = codes "mymaster";
  track_replicas = true;
  ready = false;
  last_refresh = none;
  master_addr = [];
  master_display = [];
  replica_addrs = codes "a:1" ∷ codes "b:2" ∷ [];
  replica_names = [];
  replica_idx = 1;
  ptr_cache = [];
}

abbrev pub master_said : SentinelReply
master_said = elements (codes "m" ∷ codes "6379" ∷ [])

abbrev replicas_network : Network (Unit {0})
replicas_network = network master_said (resolves node) (codes "slave")

abbrev one_replica : Replica
one_replica = record { addr = codes "10.0.0.1:6379"; name = codes "r1:6379 (10.0.0.1)" }

one_replica_found :
    (resolve_replica_addresses no_ip replicas_network (codes "mymaster") [] tt).0
    ≡ found (one_replica ∷ [])
unfolding resolve_replica_addresses
one_replica_found = refl

resolve_replica_addresses-Healthy_example :
    (listed : List Fields) × ((replicas_network.replicas (codes "mymaster") tt).0 ≡ some listed)
    × All (Healthy no_ip replicas_network listed) (one_replica ∷ [])
resolve_replica_addresses-Healthy_example =
    resolve_replica_addresses-Healthy no_ip replicas_network (codes "mymaster") [] tt
      (one_replica ∷ []) one_replica_found

abbrev master_network : Network (Unit {0})
master_network = network master_said (resolves node) (codes "master")

update_master_address_lem_example :
    ((x : ResolveError) × ((update_master_address no_ip master_network resolver tt).0 ≡ some x)
      × SameAddresses (update_master_address no_ip master_network resolver tt).1 resolver)
    ⊎ (((update_master_address no_ip master_network resolver tt).0 ≡ none)
        × (host : Bytes) × (port : Bytes) × (addr : TcpAddr) × ((master_network.master_addr
              resolver.master_name tt).0
            ≡ elements (host ∷ port ∷ []))
        × Vouched no_ip master_network (codes "master") host port addr
        × ((update_master_address no_ip master_network resolver tt).1.master_addr ≡ addr.shown))
update_master_address_lem_example = update_master_address_lem no_ip master_network resolver tt

loop-WithinBudget_example :
    WithinBudget
      (pos 2)
      (update_master_address_loop
        (pos 2)
        no_ip
        master_network
        (elapsed ∷ elapsed ∷ [])
        resolver
        tt).status
loop-WithinBudget_example =
    loop-WithinBudget (pos 2) no_ip master_network (elapsed ∷ elapsed ∷ []) resolver tt

abbrev silent : Network (Unit {0})
silent = network unavailable not_found []

silent-Fails : Fails no_ip silent false
unfolding update_master_address_loop
silent-Fails s w = (_, refl, refl)

update_master_address_loop-gives_up_example :
    (x : ResolveError) × ((update_master_address_loop
        (pos 3)
        no_ip
        silent
        (timers 2)
        resolver
        tt).status
      ≡ (if ltb 2 3 then starting (resolve_failure_backoff (pos 3)) 3 x else returned (some x)))
update_master_address_loop-gives_up_example =
    update_master_address_loop-gives_up no_ip silent silent-Fails 3 2 resolver tt (omega arith)

abbrev restarting : Network (Unit {0})
restarting = network master_said not_found []

restarting-Fails : Fails no_ip restarting true
unfolding update_master_address_loop
restarting-Fails s w = (_, refl, refl)

update_master_address_loop-waits_example :
    (x : ResolveError) × ((update_master_address_loop
        (pos 0)
        no_ip
        restarting
        (timers 5)
        resolver
        tt).status
      ≡ starting sentinel_not_ready_backoff 0 x)
update_master_address_loop-waits_example =
    update_master_address_loop-waits no_ip restarting restarting-Fails (pos 0) 5 resolver tt

first_is_a : get_elem? resolver.replica_addrs 0 ≡ some (codes "a:1")
unfolding get_elem?
first_is_a = refl

replica_address-in_turn_example :
    (k : ℕ) × (k < 2)
    × (◌≡◌ {A = Option (Option Bytes)}
        (replica_address (calls k resolver)).0
        (some (some (codes "a:1"))))
replica_address-in_turn_example =
    replica_address-in_turn resolver 0 (codes "a:1") (omega arith) first_is_a

resolve_failure_backoff_lem_example :
    (resolve_failure_backoff (pos 3) ≡ min_duration (second * 2 ^ 2) resolve_failure_backoff_cap)
    × (resolve_failure_backoff (negsuc 2) ≡ second)
    × (resolve_failure_backoff (pos 0) ≡ second)
resolve_failure_backoff_lem_example = resolve_failure_backoff_lem 2
