-- ===== src/Proxy/Tests.antt =====
-- The theorems on the endpoints and the choice of a backend, at concrete settings.
use redis_sentinel_proxy.Base.{◌≡◌, refl, Bool, true, false, Option, none, some, Bytes, codes}
use redis_sentinel_proxy.Io.Integer.{pos}
use redis_sentinel_proxy.Base.Results.{value}
use redis_sentinel_proxy.Config.{Config, default}
use redis_sentinel_proxy.Proxy.{
  Backends, RedisSentinelProxy, new_redis_sentinel_proxy, replica, connected, pick_replica,
  connect_backend,
}
use redis_sentinel_proxy.Proxy.Endpoints.{WellFormed, new_redis_sentinel_proxy-WellFormed}
use redis_sentinel_proxy.Proxy.Choice.{connect_backend-replica}

abbrev resolve : Bytes → Option Bytes
resolve a = some a

abbrev config : Config
config = record default {
  listen = some (codes ":9999");
  replica_listen = some (codes ":9998");
  replica_fallback = some (codes "reject");
  router = some true;
  max_connections = some (pos 10);
}

abbrev proxy : RedisSentinelProxy
proxy = record {
  local_addr = some (codes ":9999");
  replica_addr = some (codes ":9998");
  limit = some 10;
  has_refresher = true;
  has_replicas = true;
  replica_fallback_master = false;
  router = true;
  tls_conf = none;
  master_tls_conf = none;
  idle_timeout = pos 30000000000;
  debug = false;
}

proxy_made : new_redis_sentinel_proxy resolve true true config ≡ value proxy
unfolding new_redis_sentinel_proxy
proxy_made = refl

new_redis_sentinel_proxy-WellFormed_example : WellFormed proxy
new_redis_sentinel_proxy-WellFormed_example =
    new_redis_sentinel_proxy-WellFormed resolve true true config proxy proxy_made

-- The resolver knows no replica until it is asked to look again.
abbrev refreshed : Bool → Option Bytes
refreshed true = some (codes "10.0.0.2:6379")
refreshed false = none

abbrev backends : Backends Bool
backends = record {
  master_address = λ w. (codes "10.0.0.1:6379", w);
  replica_address = λ w. (refreshed w, w);
  refresh_addresses = λ w. true;
  dial_redis = λ addr w. (true, w);
}

second_try :
    (connect_backend backends proxy (pick_replica backends proxy) false).0
    ≡ connected (codes "10.0.0.2:6379") replica
unfolding connect_backend pick_replica
second_try = refl

connect_backend-replica_example :
    (v : Bool) × ((backends.replica_address v).0 ≡ some (codes "10.0.0.2:6379"))
    × ((backends.dial_redis (codes "10.0.0.2:6379") (backends.replica_address v).1).0 ≡ true)
    × (replica ≡ replica)
connect_backend-replica_example =
    connect_backend-replica backends proxy false (codes "10.0.0.2:6379") replica refl second_try
