-- ===== src/Server/Tests.antt =====
-- The theorems on the listeners and the connections, with a limit of one connection.
use redis_sentinel_proxy.Base.{
  ◌++◌, ◌+◌, ◌≤◌, ◌≡◌, ◌⊎◌, refl, Bool, true, false, [], ◌∷◌, none, some, Bytes, codes, length,
  bytes_eq,
}
use redis_sentinel_proxy.Io.Integer.{pos}
use redis_sentinel_proxy.Proxy.{Backends, RedisSentinelProxy}
use redis_sentinel_proxy.Server.{
  fails, master_side, replica_side, Server, idle_server, accept, Reach, starts, accepts,
  run_listeners,
}
use redis_sentinel_proxy.Server.Slots.{accept_within_limit}
use redis_sentinel_proxy.Server.Accounts.{count, ids_of, Reach-accounted}
use redis_sentinel_proxy.Server.Listeners.{Refused, served, undone, run_listeners-served}

abbrev limited : RedisSentinelProxy
limited = record {
  local_addr = some (codes ":9999");
  replica_addr = some (codes ":9998");
  limit = some 1;
  has_refresher = true;
  has_replicas = true;
  replica_fallback_master = true;
  router = false;
  tls_conf = none;
  master_tls_conf = none;
  idle_timeout = pos 30000000000;
  debug = false;
}

abbrev backends : Backends (Unit {0})
backends = record {
  master_address = λ w. (codes "m:6379", w);
  replica_address = λ w. (none, w);
  refresh_addresses = λ w. w;
  dial_redis = λ addr w. (true, w);
}

abbrev Same : Unit {0} → Unit {0} → Type 0
Same v w = v ≡ w

-- The second connection finds the only place taken and is closed.
abbrev crowded : Server
crowded = accept limited 8 replica_side (accept limited 7 master_side idle_server)

crowded-Reach : Reach backends limited Same tt (8 ∷ 7 ∷ []) crowded tt
crowded-Reach = accepts 8 replica_side (accepts 7 master_side starts)

accept_within_limit_example :
    (crowded.taken ≡ length crowded.running) × (length crowded.running ≤ 1)
accept_within_limit_example = accept_within_limit limited backends 1 refl crowded-Reach

Reach-accounted_example :
    count 8 (ids_of crowded.running) + count 8 crowded.closed ≡ count 8 (8 ∷ 7 ∷ [])
Reach-accounted_example = Reach-accounted limited backends 8 crowded-Reach

-- The port of the replica endpoint is in use.
abbrev listen_tcp : Bytes → Unit {0} → Bool × Unit {0}
listen_tcp addr w = (bytes_eq addr (codes ":9999"), w)

run_listeners-served_example :
    (((run_listeners listen_tcp limited tt).0 ≡ true)
      × ((run_listeners listen_tcp limited tt).1
          ≡ served master_side limited.local_addr ++ served replica_side limited.replica_addr))
    ⊎ (((run_listeners listen_tcp limited tt).0 ≡ false)
        × ((run_listeners listen_tcp limited tt).1 ≡ fails master_side ∷ [])
        × Refused listen_tcp limited.local_addr tt)
    ⊎ (((run_listeners listen_tcp limited tt).0 ≡ false)
        × ((run_listeners listen_tcp limited tt).1
            ≡ (served master_side limited.local_addr ++ fails replica_side ∷ [])
              ++ undone master_side limited.local_addr)
        × Refused listen_tcp limited.replica_addr tt)
run_listeners-served_example = run_listeners-served listen_tcp limited tt
