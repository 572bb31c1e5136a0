-- ===== src/Server/Backing.antt =====
-- pkg/proxy/proxy.go and pkg/proxy/routing.go: the backends of the sessions that run, when the resolver
-- keeps to its contract.
pub mod Phases
use redis_sentinel_proxy.Base.{
  ℕ, zero, suc, ◌≡◌, refl, sym, ap, subst, ◌∙◌, Bool, true, false, Bool-cases, Option-cases, inl,
  inr, ◌⊎◌, List, [], ◌∷◌, Option, none, some, Bytes, All, ltb, ◌==◌, if◌then◌else◌,
}
use redis_sentinel_proxy.Proxy.{
  Backends, RedisSentinelProxy, Label, master, replica, fallback, Connection, connected, no_backend,
  pick_master, pick_replica, connect_backend, dial_replica_for_routing,
}
use redis_sentinel_proxy.Proxy.Choice.{Connection-cases, connect_backend-Dialed}
use redis_sentinel_proxy.Proxy.Serving.{
  Contract, GoodFor, connect_backend-serves, dial_replica_for_routing-serves, connect_master-keeps,
  connect_replica-keeps, dial_replica_for_routing-keeps,
}
use redis_sentinel_proxy.Server.{
  Endpoint, master_side, replica_side, Phase, shaking, picking, linked, piped, routing, Job, Event,
  shaken, scheduled, hung_up, Server, acquire, accept, is_routed, complete_client_handshake, pick,
  link, advance, step_jobs, leave, step, Reach, starts, accepts, steps, drifts,
}
use Phases.{Backed, shakes, Follows, advance-Backed}

abbrev pub BackedJob : RedisSentinelProxy → (Bytes → Type 0) → (Bytes → Type 0) → Job → Type 0
BackedJob r Master Replica j = Backed r Master Replica j.endpoint j.phase

module _ {W : Type 0} (b : Backends W) (r : RedisSentinelProxy) {Inv : W → Type 0}
    {Master Replica : Bytes → Type 0} (contract : Contract b Inv Master Replica) where
  step_jobs-Backed :
      (js : List Job) (i : ℕ) (event : Event) (w : W)
      → All (BackedJob r Master Replica) js
      → Inv w
      → All (BackedJob r Master Replica) (step_jobs b r js i event w).0
        × Inv (step_jobs b r js i event w).2
  unfolding step_jobs
  step_jobs-Backed [] i event w h inv = (tt, inv)
  step_jobs-Backed (j ∷ js) zero event w h inv =
      let (kept, fit) = advance-Backed b r contract event w h.0 inv in
      elim (Option-cases (advance b r j.endpoint j.phase event w).0) [
        | inl e ↦ rw (e, step_jobs) (h.1, kept)
        | inr (p, e) ↦
            rw (e, step_jobs) ((subst (Follows b r contract j.endpoint) e fit, h.1), kept)
      ]
  step_jobs-Backed (j ∷ js) (suc i) event w h inv =
      let (rest, kept) = step_jobs-Backed js i event w h.1 inv in ((h.0, rest), kept)

  accept-Backed :
      (limit : Option ℕ) (id : ℕ) (e : Endpoint) (s : Server)
      → r.limit ≡ limit
      → All (BackedJob r Master Replica) s.running
      → All (BackedJob r Master Replica) (accept r id e s).running
  unfolding accept acquire
  accept-Backed none id e s is h = simp (is, accept, acquire) (shakes, h)
  accept-Backed (some limit) id e s is h = elim (Bool-cases (ltb s.taken limit)) [
    | inl f ↦ simp (is, accept, acquire, f) (shakes, h)
    | inr f ↦ simp (is, accept, acquire, f) h
  ]

  leave-running :
      (ended : Option ℕ) (running : List Job) (s : Server)
      → (leave b r ended running s).running ≡ running
  unfolding leave
  leave-running none running s = refl
  leave-running (some id) running s = refl

  pub Reach-Backed :
      (Change : W → W → Type 0) {w0 w : W} {ids : List ℕ} {s : Server}
      → ((v u : W) → Change v u → Inv v → Inv u)
      → Inv w0
      → Reach b r Change w0 ids s w
      → All (BackedJob r Master Replica) s.running × Inv w
  unfolding step
  Reach-Backed Change stays i starts = (tt, i)
  Reach-Backed Change stays i (accepts {s = s} id e t) =
      let (h, inv) = Reach-Backed Change stays i t in (accept-Backed r.limit id e s refl h, inv)
  Reach-Backed Change stays i (steps {s = s} {w = v} n event t) =
      let (h, inv) = Reach-Backed Change stays i t in
      let (running, kept) = step_jobs-Backed s.running n event v h inv in
      (subst (All (BackedJob r Master Replica)) (sym (leave-running _ _ s)) running, kept)
  Reach-Backed Change stays i (drifts {w = v} {v = u} t c) =
      let (h, inv) = Reach-Backed Change stays i t in (h, stays v u c inv)
