-- ===== src/Server.antt =====
-- pkg/proxy/proxy.go and pkg/proxy/routing.go: the listeners, the limit on the connections, and what
-- each connection goes through: `Run`, `runListenLoop`, `proxy`, `routedProxy`.
--
-- A goroutine that handles a connection is a `Job`. It goes on by steps that may interleave with those
-- of the others in any order, so that a server is a step relation. The resolver, the network and the
-- client are outside.
pub mod Slots
pub mod Accounts
pub mod Backing
pub mod Listeners
pub mod Tests
use redis_sentinel_proxy.Base.{
  ℕ, zero, suc, ◌+◌, ◌-◌, Bool, true, false, ◌&&◌, List, [], ◌∷◌, ◌++◌, Option, none, some, Bytes,
  ltb, ◌==◌, if◌then◌else◌,
}
use redis_sentinel_proxy.Base.Results.{Try, caught, value}
use redis_sentinel_proxy.Config.{TlsConfig}
use redis_sentinel_proxy.Proxy.{
  Backends, RedisSentinelProxy, Label, Connection, connected, no_backend, pick_master, pick_replica,
  connect_backend, dial_replica_for_routing, is_some,
}

pub data Endpoint : Type 0 where
  master_side replica_side : Endpoint

-- How far a goroutine is: in the TLS handshake, before `connectBackend`, before
-- `dialReplicaForRouting`, or between a client and its backends, with one or with two.
pub data Phase : Type 0 where
  shaking picking : Phase
  linked : Bytes → Phase
  piped : Bytes → Label → Phase
  routing : Bytes → Option Bytes → Phase

pub record Job : Type 0 where
  pub id : ℕ
  pub endpoint : Endpoint
  pub phase : Phase

-- What a goroutine waits for: the end of the handshake, fine or not; that it is scheduled; the end of
-- the session.
pub data Event : Type 0 where
  shaken : Bool → Event
  scheduled hung_up : Event

-- `taken` is the number of elements in the channel `r.sem`; `closed` are the clients' connections that
-- were closed, the last first.
pub record Server : Type 0 where
  pub taken : ℕ
  pub running : List Job
  pub closed : List ℕ

abbrev pub idle_server : Server
idle_server = record { taken = 0; running = []; closed = [] }

-- `completeClientHandshake`: without TLS there is no handshake.
unfoldable pub complete_client_handshake : Option TlsConfig → Bool → Bool
complete_client_handshake none fine = true
complete_client_handshake (some _) fine = fine

-- `dialRedis`: plain, or with the TLS settings for the master.
unfoldable pub dial_redis :
    {W : Type 0}
    → (Bytes → W → Bool × W)
    → (TlsConfig → Bytes → W → Bool × W)
    → RedisSentinelProxy
    → Bytes
    → W
    → Bool × W
dial_redis tcp_connect tls_connect r addr w = elim r.master_tls_conf [
  | none ↦ tcp_connect addr w
  | some conf ↦ tls_connect conf addr w
]

-- The `routed` that `Run` gives to each listen loop.
abbrev pub is_routed : RedisSentinelProxy → Endpoint → Bool
is_routed r master_side = r.router
is_routed r replica_side = false

-- What `Run` does, in order: a listener is opened or cannot be, its listen loop is started with
-- `errGr.Go`, it is closed.
pub data Action : Type 0 where
  opens fails starts_loop closes : Endpoint → Action

-- The deferred function of `Run`: every listener that was opened is closed.
unfoldable pub close_opened : List Action → List Action
close_opened [] = []
close_opened (opens e ∷ actions) = closes e ∷ close_opened actions
close_opened (_ ∷ actions) = close_opened actions

module _ {W : Type 0} (listen_tcp : Bytes → W → Bool × W) where
  -- One endpoint: whether there was no error, and what was done. The loop starts at once, so that it
  -- may accept connections before the other endpoint is opened.
  unfoldable pub listen_on : Endpoint → Option Bytes → W → Bool × List Action × W
  listen_on e none w = (true, [], w)
  listen_on e (some addr) w =
      let (fine, w1) = listen_tcp addr w in
      (fine, (if fine then opens e ∷ starts_loop e ∷ [] else fails e ∷ []), w1)

  -- `Run`, up to its waiting: whether there was no error, and all that was done.
  unfoldable pub run_listeners : RedisSentinelProxy → W → Bool × List Action × W
  unfolding listen_on close_opened
  run_listeners r w =
      let (fine, first, w1) = listen_on master_side r.local_addr w in
      let (fine', second, w2) = listen_on replica_side r.replica_addr w1 in
      elim fine [
        | false ↦ (false, first ++ close_opened first, w1)
        | true ↦ elim fine' [
          | false ↦ (false, (first ++ second) ++ close_opened (first ++ second), w2)
          | true ↦ (true, first ++ second, w2)
        ]
      ]

-- The place in `r.sem`, if there is a limit: none is left, or one is taken.
unfoldable pub acquire : Option ℕ → ℕ → Option ℕ
acquire none taken = some taken
acquire (some limit) taken = if ltb taken limit then some (taken + 1) else none

unfoldable pub release : Option ℕ → ℕ → ℕ
release none taken = taken
release (some _) taken = taken - 1

-- What the listen loop does with a connection that it accepted.
unfoldable pub accept : RedisSentinelProxy → ℕ → Endpoint → Server → Server
unfolding acquire
accept r id endpoint s = elim (acquire r.limit s.taken) [
  | none ↦ record s { closed = id ∷ s.closed }
  | some taken ↦ record {
    taken = taken;
    running = record { id = id; endpoint = endpoint; phase = shaking } ∷ s.running;
    closed = s.closed;
  }
]

module _ {W : Type 0} (b : Backends W) (r : RedisSentinelProxy) where
  unfoldable pub pick : Endpoint → W → Option (Bytes × Label) × W
  pick master_side w = pick_master b r w
  pick replica_side w = pick_replica b r w

  -- A backend that was dialed for a session: none ends it.
  unfoldable pub link : Bool → Connection → Option Phase
  link routed no_backend = none
  link false (connected addr label) = some (piped addr label)
  link true (connected addr label) = some (linked addr)

  -- The part of `routedProxy` behind the dial of its master: the session goes on without a replica
  -- if none could be dialed.
  unfoldable pub dial_routed : Bytes → W → Option Phase × W
  unfolding dial_replica_for_routing
  dial_routed addr w =
      let (second, w1) = dial_replica_for_routing b r w in (some (routing addr second), w1)

  -- One step of `proxy` or `routedProxy`: the phase that follows, or nothing when the function
  -- returns. An event that the goroutine does not wait for changes nothing.
  unfoldable pub advance : Endpoint → Phase → Event → W → Option Phase × W
  unfolding complete_client_handshake link pick connect_backend dial_routed
  advance e shaking (shaken fine) w =
      ((if complete_client_handshake r.tls_conf fine then some picking else none), w)
  advance e picking scheduled w =
      let (c, w1) = connect_backend b r (pick e) w in (link (is_routed r e) c, w1)
  advance e (linked addr) scheduled w = dial_routed addr w
  advance e (piped addr label) hung_up w = (none, w)
  advance e (routing addr second) hung_up w = (none, w)
  advance e phase event w = (some phase, w)

  -- The goroutines after the `i`-th made a step, and the connection of it if it returned.
  unfoldable pub step_jobs : List Job → ℕ → Event → W → List Job × Option ℕ × W
  unfolding advance
  step_jobs [] i event w = ([], none, w)
  step_jobs (j ∷ js) zero event w =
      let (next, w1) = advance j.endpoint j.phase event w in
      elim next [
        | none ↦ (js, some j.id, w1)
        | some phase ↦ (record j { phase = phase } ∷ js, none, w1)
      ]
  step_jobs (j ∷ js) (suc i) event w =
      let (rest, ended, w1) = step_jobs js i event w in (j ∷ rest, ended, w1)

  -- A goroutine that returns closes its client's connection and gives its place back.
  unfoldable pub leave : Option ℕ → List Job → Server → Server
  unfolding release
  leave none running s = record s { running = running }
  leave (some id) running s = record {
    taken = release r.limit s.taken;
    running = running;
    closed = id ∷ s.closed;
  }

  unfoldable pub step : ℕ → Event → Server → W → Server × W
  unfolding step_jobs leave
  step i event s w =
      let (running, ended, w1) = step_jobs s.running i event w in (leave ended running s, w1)

  -- The servers that come up, with the connections that were accepted so far. Between two steps the
  -- outside may change as it can: `Change`.
  pub data Reach (Change : W → W → Type 0) (w0 : W) : List ℕ → Server → W → Type 0 where
    starts : Reach Change w0 [] idle_server w0
    accepts :
        {ids : List ℕ} {s : Server} {w : W} (id : ℕ) (e : Endpoint)
        → Reach Change w0 ids s w
        → Reach Change w0 (id ∷ ids) (accept r id e s) w
    steps :
        {ids : List ℕ} {s : Server} {w : W} (i : ℕ) (event : Event)
        → Reach Change w0 ids s w
        → Reach Change w0 ids (step i event s w).0 (step i event s w).1
    drifts :
        {ids : List ℕ} {s : Server} {w v : W}
        → Reach Change w0 ids s w
        → Change w v
        → Reach Change w0 ids s v
