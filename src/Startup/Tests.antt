-- ===== src/Startup/Tests.antt =====
-- The theorems on the whole program, at concrete settings and answers.
use redis_sentinel_proxy.Base.{
  ℕ, zero, suc, ◌≡◌, ◌≢◌, ◌⊎◌, ◌||◌, not, refl, Bool, true, false, List, [], ◌∷◌, Option, none,
  some, Bytes, codes, All,
}
use redis_sentinel_proxy.Base.Results.{caught, value}
use redis_sentinel_proxy.Io.Integer.{pos}
use redis_sentinel_proxy.Config.{Config, TlsConfig}
use redis_sentinel_proxy.Config.Flags.{FlagValue, text as text_value, from_flags}
use redis_sentinel_proxy.Config.Tls.{ConfigError, nil_pointer}
use redis_sentinel_proxy.Config.Load.{load}
use redis_sentinel_proxy.Config.Tests.{files, load_file, parse_duration, env}
use redis_sentinel_proxy.Resolver.Addresses.{Resolver, update_master_address}
use redis_sentinel_proxy.Resolver.New.{NewResolver, client_options}
use redis_sentinel_proxy.Resolver.Reach.{here, later, updates, opens, KnownMaster, KnownReplica}
use redis_sentinel_proxy.Resolver.Tests.{no_ip}
use redis_sentinel_proxy.Resolver.ReachTests.{two_nodes, routed_config, made_untracked, made_is}
use redis_sentinel_proxy.Proxy.{RedisSentinelProxy, NewError, bad_listen, is_some}
use redis_sentinel_proxy.Proxy.Refusals.{Reason}
use redis_sentinel_proxy.Server.{
  master_side, shaken, scheduled, Server, idle_server, dial_redis, accept, step, starts, accepts,
  steps,
}
use redis_sentinel_proxy.Server.Backing.{BackedJob}
use redis_sentinel_proxy.Startup.{load_failed, proxy_failed, resolver_backends, start_up}
use redis_sentinel_proxy.Startup.Outcomes.{start_up-refused}
use redis_sentinel_proxy.Startup.Started.{start_up-serves}
use redis_sentinel_proxy.Startup.Sessions.{sessions-Backed}

abbrev as_given : Bytes → Option Bytes
as_given addr = some addr

abbrev nowhere : Bytes → Option Bytes
nowhere addr = none

abbrev visited : List (Bytes × FlagValue)
visited =
    (codes "listen", text_value (codes ":9999"))
    ∷ (codes "replica-listen", text_value (codes ":9998"))
    ∷ []

abbrev made : NewResolver
made = record {
  sentinel_options = client_options (codes ":26379") [] [] none;
  master_username = [];
  master_password = [];
  master_tls_conf = none;
  retries = pos 3;
  start = record {
    master_name = codes "in_env";
    track_replicas = true;
    ready = false;
    last_refresh = none;
    master_addr = [];
    master_display = [];
    replica_addrs = [];
    replica_names = [];
    replica_idx = 0;
    ptr_cache = [];
  };
}

abbrev served : RedisSentinelProxy
served = record {
  local_addr = some (codes ":9999");
  replica_addr = some (codes ":9998");
  limit = some 100;
  has_refresher = true;
  has_replicas = true;
  replica_fallback_master = true;
  router = false;
  tls_conf = none;
  master_tls_conf = none;
  idle_timeout = pos 30000000000;
  debug = false;
}

starts_up : start_up as_given files load_file parse_duration env visited [] ≡ value (made, served)
unfolding start_up
starts_up = refl

start_up-serves_example :
    ((is_some served.local_addr || is_some served.replica_addr) ≡ true)
    × ((not served.router || is_some served.local_addr) ≡ true)
    × (served.has_replicas ≡ (is_some served.replica_addr || served.router))
    × (made.start.track_replicas ≡ is_some served.replica_addr)
start_up-serves_example =
    start_up-serves as_given files load_file parse_duration env visited [] made served starts_up

refused :
    start_up nowhere files load_file parse_duration env visited []
    ≡ caught (proxy_failed bad_listen)
unfolding start_up
refused = refl

start_up-refused_example :
    ((x : ConfigError) × (proxy_failed bad_listen ≡ load_failed x) × (x ≢ nil_pointer))
    ⊎ ((cfg : Config) × (n : NewError) × (load files load_file parse_duration env
            (some (from_flags visited))
            []
          ≡ value cfg)
        × (proxy_failed bad_listen ≡ proxy_failed n)
        × Reason nowhere cfg n)
start_up-refused_example =
    start_up-refused nowhere files load_file parse_duration env visited [] (proxy_failed bad_listen)
      refused

abbrev connects : Bytes → Unit {0} → Bool × Unit {0}
connects addr w = (true, w)

abbrev tls_connects : TlsConfig → Bytes → Unit {0} → Bool × Unit {0}
tls_connects conf addr w = (true, w)

abbrev nothing_else : Resolver → Unit {0} → Resolver × Unit {0}
nothing_else s w = (s, w)

abbrev first_update : Resolver → Unit {0} → Resolver × Unit {0}
first_update s w = (record ((update_master_address no_ip two_nodes s w).1) { ready = true }, w)

abbrev client_steps : ℕ → Server × (Resolver × Unit {0})
client_steps zero = (accept served 7 master_side idle_server, (made_untracked.start, tt))
client_steps (suc zero) =
    step
      (resolver_backends no_ip two_nodes (dial_redis connects tls_connects served) nothing_else
        first_update)
      served 0 (shaken true) (accept served 7 master_side idle_server) (made_untracked.start, tt)
client_steps (suc (suc n)) =
    let (s, p) = client_steps (suc n) in
    step
      (resolver_backends no_ip two_nodes (dial_redis connects tls_connects served) nothing_else
        first_update)
      served 0 scheduled s p

sessions-Backed_example :
    All
      (BackedJob served
        (KnownMaster no_ip two_nodes (codes "mymaster"))
        (KnownReplica no_ip two_nodes (codes "mymaster")))
      (client_steps 2).0.running
sessions-Backed_example =
    sessions-Backed no_ip two_nodes connects tls_connects nothing_else first_update (λ s w. here)
      (λ s w. later (later here (updates w)) opens) routed_config made_untracked served tt made_is
      (steps 0 scheduled (steps 0 (shaken true) (accepts 7 master_side starts)))
