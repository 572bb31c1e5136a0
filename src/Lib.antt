-- ===== src/Lib.antt =====
-- redis-sentinel-proxy: a TCP proxy in front of a Redis master and its replicas, which it finds by
-- asking sentinel. A client's connection is piped to the master or to a replica; in router mode the
-- proxy reads the client's commands and sends each to the backend that may serve it.
--
-- Parts, and the files that model them:
--   * Resp: pkg/proxy/resp.go, `readLine`, `parseRESPInt`, `readCommand`. Io holds what the Go
--     standard library gives to them: a buffered reader is the bytes still to come and the error
--     that follows them, a writer is the bytes written and how many it will take before it fails.
--     Io.Integer is `strconv.ParseInt`; signed numbers keep their 64 bits written out.
--   * Reply: `copyRESP` of the same file. Reply.Grammar is the grammar of replies, with no counter
--     and no loop, that it is compared with.
--   * Router: pkg/router/router.go, the table of read-only commands and `GetDirection`.
--   * Session: pkg/proxy/routing.go, `run`, `stateCommand` and `pin` on a session with a client, a
--     master and perhaps a replica. `serve` is one round of the loop, `route` the round behind
--     `readCommand`. It uses Resp, Reply and Router. Session.Talks describes a session as the turns
--     that a client and its backends see, which Session.Conversation compares `run` with.
--   * Config: pkg/config. Config is the settings with `Default` and `Merge`; Config.Env is `FromEnv`,
--     Config.Flags what `BindFlags` does with the flags that were set, Config.Tls the TLS settings of
--     tls.go, Config.Load `Load` with its checks and Config.Print `String`. A pointer is an Option, and
--     a nil pointer that is followed is an error of its own.
--   * Resolver: pkg/master_resolver. Resolver.Network is what it asks of the outside, each question
--     with a state of the outside that it may change; Resolver.Nodes goes from sentinel's answers to
--     usable addresses; Resolver.Addresses is the state and its operations; Resolver.Loops is
--     `UpdateMasterAddressLoop` as a machine moved on by timers and by the end of the context;
--     Resolver.New is `NewRedisMasterResolver`; Resolver.Reach is the states that a resolver can come
--     to when its operations are called in any order; Resolver.PtrCache is
--     pkg/master_resolver/ptr_cache.go.
--   * Proxy: pkg/proxy/proxy.go, `NewRedisSentinelProxy`, the choice of a backend and `connectBackend`,
--     and `dialReplicaForRouting` of routing.go, over the resolver as an interface. Proxy.Serving has
--     the contract of this interface.
--   * Server: pkg/proxy/proxy.go and routing.go, `Run`, `runListenLoop` with the connection limit, and
--     what a goroutine of `proxy` or `routedProxy` goes through, as a step relation. It uses Proxy.
--   * Idle: pkg/proxy/proxy.go, `idleConn`.
--   * Startup: main.go, from the settings to a resolver and a proxy. Startup.resolver_backends is the
--     resolver as the interface of the proxy; Startup.Wiring is about the contract of it, and
--     Startup.Sessions puts Resolver, Proxy and Server together.
--   * Base: the names and lemmas that all of them share; Base.Results has values that may be errors.
--
-- Bounds and fuel: `read_line` has fuel for 18 slices of the reader's buffer of 4096 bytes, one more
-- than it takes to pass the limit on a line; `copy_resp` has fuel for one round more than the stream
-- has bytes, and `run` for one round more than the client's stream has bytes; all three are shown to
-- be enough. `idle_read` is given its fuel: in a session that falls quiet, one round more than there
-- are nanoseconds until the last activity is a timeout ago is enough. The loops of the resolver go on
-- as long as there are wake-ups in the list that they are given, and a server as long as there are
-- steps.
--
-- Parameters: `strings.ToUpper` beyond ASCII, `net.ParseIP`, DNS, go-redis, the clock, listening and
-- dialing, the outcome of a TLS handshake, the YAML file, `time.ParseDuration`, the flags that the flag
-- package parsed, the files of certificates, and what other goroutines do to the resolver meanwhile.
-- Not modelled: signals, the log and the byte counters of the debug mode, build information, how the
-- listeners are closed when the context ends, the pause after a connection that could not be accepted.
-- A session of Server is over when the outside says so: what it does between is Session, for a routed
-- one. The connections of a session are modelled with streams that are fixed from the start: how the
-- peers' bytes depend on what was sent to them is left open, as is the timing of the two pipes.
pub mod Base
pub mod Io
pub mod Resp
pub mod Reply
pub mod Router
pub mod Session
pub mod Resolver
pub mod Proxy
pub mod Config
pub mod Startup
pub mod Server
pub mod Idle
