-- ===== src/Resolver/ReachTests.antt =====
-- The theorems on the states that a resolver and its cache of names can come to, at concrete answers.
use redis_sentinel_proxy.Base.{
  ◌⊎◌, true, false, [], ◌∷◌, Option, some, none, Bytes, codes, ◌≡◌, subst, bytes_eq, if◌then◌else◌,
  refl,
}
use redis_sentinel_proxy.Io.Integer.{pos}
use redis_sentinel_proxy.Base.Results.{value}
use redis_sentinel_proxy.Config.{Config, default}
use redis_sentinel_proxy.Resolver.PtrCache.{lookup_name}
use redis_sentinel_proxy.Resolver.Names.{after_lookups, Current, lookup_name-Current}
use redis_sentinel_proxy.Resolver.New.{NewResolver, client_options, new_redis_master_resolver}
use redis_sentinel_proxy.Resolver.Untracked.{replica_address-untracked}
use redis_sentinel_proxy.Resolver.Reach.{
  Reach, here, later, updates, opens, KnownReplica, IsMaster, replica_address-known,
  master_address-known,
}
use redis_sentinel_proxy.Resolver.Network.{resolves, Network, text}
use redis_sentinel_proxy.Resolver.Addresses.{
  Resolver, master_address, replica_address, update_master_address,
}
use redis_sentinel_proxy.Resolver.Loops.{elapsed, update_master_address_loop}
use redis_sentinel_proxy.Resolver.Tests.{no_ip, replica_fields, resolver, master_said}

abbrev pub fresh_start : Resolver
fresh_start = record resolver { replica_addrs = []; replica_idx = 0 }

-- A node for which the name of the host tells whether it is the master.
abbrev pub two_nodes : Network (Unit {0})
two_nodes = record {
  clock = λ w. (0, w);
  master_addr = λ name w. (master_said, w);
  replicas = λ name w. (some (replica_fields ∷ []), w);
  role = λ addr w. (
    some (text (if bytes_eq addr (codes "m:6379") then codes "master" else codes "slave") ∷ []),
    w,
  );
  resolve_tcp = λ addr w. (resolves (record { shown = addr; ip = [] }), w);
  lookup_addr = λ ip w. (none, w);
}

abbrev pub updated : Resolver
updated = record fresh_start {
  master_addr = codes "m:6379";
  master_display = codes "m:6379 ()";
  replica_addrs = codes "r1:6379" ∷ [];
  replica_names = codes "r1:6379 ()" ∷ [];
}

updated_is : (update_master_address no_ip two_nodes fresh_start tt).1 ≡ updated
unfolding update_master_address
updated_is = refl

updated-Reach : Reach no_ip two_nodes fresh_start updated
updated-Reach = subst (Reach no_ip two_nodes fresh_start) updated_is (later here (updates tt))

replica_known :
    ◌≡◌ {A = Option (Option Bytes)} (replica_address updated).0 (some (some (codes "r1:6379")))
unfolding replica_address
replica_known = refl

replica_address-known_example :
    (addr : Bytes) × (some (codes "r1:6379") ≡ some addr)
    × KnownReplica no_ip two_nodes (codes "mymaster") addr
replica_address-known_example =
    replica_address-known no_ip two_nodes fresh_start updated (some (codes "r1:6379")) refl refl
      updated-Reach replica_known

abbrev opened : Resolver
opened = record updated { ready = true }

master_known : ◌≡◌ {A = Option Bytes} (master_address opened) (some (codes "m:6379"))
unfolding master_address
master_known = refl

master_address-known_example :
    (codes "m:6379" ≡ []) ⊎ IsMaster no_ip two_nodes (codes "mymaster") (codes "m:6379")
master_address-known_example =
    master_address-known no_ip two_nodes fresh_start opened (codes "m:6379") refl refl
      (later updated-Reach opens) master_known

abbrev pub routed_config : Config
routed_config = record default {
  listen = some (codes ":9999");
  replica_listen = none;
  router = some true;
}

abbrev untracked : Resolver
untracked = record fresh_start { track_replicas = false }

abbrev pub made_untracked : NewResolver
made_untracked = record {
  sentinel_options = client_options (codes ":26379") [] [] none;
  master_username = [];
  master_password = [];
  master_tls_conf = none;
  retries = pos 3;
  start = untracked;
}

pub made_is : new_redis_master_resolver routed_config ≡ value made_untracked
unfolding new_redis_master_resolver
made_is = refl

replica_address-untracked_example :
    ◌≡◌ {A = Option (Option Bytes)}
      (replica_address
        (update_master_address_loop
          (pos 3)
          no_ip
          two_nodes
          (elapsed ∷ elapsed ∷ [])
          untracked
          tt).resolver).0
      none
replica_address-untracked_example =
    replica_address-untracked no_ip two_nodes routed_config made_untracked (elapsed ∷ elapsed ∷ [])
      tt made_is refl

abbrev named : Network (Unit {0})
named = record two_nodes { lookup_addr = λ ip w. (some (codes "redis-0.redis." ∷ []), w) }

lookup_name-Current_example :
    Current named
      (codes "10.0.0.1")
      tt
      (lookup_name named
        (codes "10.0.0.1")
        (after_lookups named ((codes "10.0.0.1", tt) ∷ []))
        tt).0
lookup_name-Current_example =
    lookup_name-Current named ((codes "10.0.0.1", tt) ∷ []) (codes "10.0.0.1") tt
