-- ===== src/Server/Slots.antt =====
-- pkg/proxy/proxy.go, `runListenLoop`: the limit on the number of connections.
use redis_sentinel_proxy.Base.{
  ℕ, zero, suc, ◌+◌, ◌≤◌, ◌≡◌, refl, Bool-cases, Option-cases, inl, inr, List, [], ◌∷◌, Option,
  none, some, length, ltb, arith,
}
use redis_sentinel_proxy.Proxy.{Backends, RedisSentinelProxy}
use redis_sentinel_proxy.Server.{
  Job, Event, Endpoint, Server, acquire, release, accept, advance, step_jobs, leave, step, Reach,
  starts, accepts, steps, drifts,
}

-- A place for each goroutine that runs, and no more places than there are.
abbrev pub Held : Option ℕ → Server → Type 0
Held none s = s.taken ≡ 0
Held (some limit) s = (s.taken ≡ length s.running) × (s.taken ≤ limit)

abbrev left_out : Option ℕ → ℕ
left_out none = 0
left_out (some _) = 1

module _ (r : RedisSentinelProxy) where
  accept-Held :
      (limit : Option ℕ) (id : ℕ) (e : Endpoint) (s : Server)
      → r.limit ≡ limit
      → Held limit s
      → Held limit (accept r id e s)
  unfolding accept acquire
  accept-Held none id e s is h = rw (is, accept) h
  accept-Held (some limit) id e s is h = elim (Bool-cases (ltb s.taken limit)) [
    | inl f ↦ rw (is, accept, f) (omega (arith, h.0), grind (arith, f, h.1))
    | inr f ↦ rw (is, accept, f) h
  ]

  module _ {W : Type 0} (b : Backends W) where
    step_jobs-length :
        (js : List Job) (i : ℕ) (event : Event) (w : W)
        → length (step_jobs b r js i event w).0 + left_out (step_jobs b r js i event w).1
          ≡ length js
    unfolding step_jobs
    step_jobs-length [] i event w = refl
    step_jobs-length (j ∷ js) zero event w =
        elim (Option-cases (advance b r j.endpoint j.phase event w).0) [
          | inl e ↦ rw (e, step_jobs) (omega arith)
          | inr (p, e) ↦ rw (e, step_jobs) (omega arith)
        ]
    step_jobs-length (j ∷ js) (suc i) event w = omega (arith, step_jobs-length js i event w)

    leave-Held :
        (limit ended : Option ℕ) (running : List Job) (s : Server)
        → r.limit ≡ limit
        → length running + left_out ended ≡ length s.running
        → Held limit s
        → Held limit (leave b r ended running s)
    unfolding leave release
    leave-Held none none running s is n h = h
    leave-Held none (some id) running s is n h = rw (is, leave, release) h
    leave-Held (some limit) none running s is n h = (omega (arith, h.0, n), h.1)
    leave-Held (some limit) (some id) running s is n h =
        rw (is, leave, release) (omega (arith, h.0, n), omega (arith, h.1))

    Reach-Held :
        {Change : W → W → Type 0} {w0 w : W} {ids : List ℕ} {s : Server} (limit : Option ℕ)
        → r.limit ≡ limit
        → Reach b r Change w0 ids s w
        → Held limit s
    unfolding step
    Reach-Held none is starts = refl
    Reach-Held (some limit) is starts = (refl, omega arith)
    Reach-Held limit is (accepts {s = s} id e t) =
        accept-Held limit id e s is (Reach-Held limit is t)
    Reach-Held limit is (steps {s = s} {w = v} i event t) =
        leave-Held limit (step_jobs b r s.running i event v).1 (step_jobs b r s.running i event v).0
          s is (step_jobs-length s.running i event v) (Reach-Held limit is t)
    Reach-Held limit is (drifts t c) = Reach-Held limit is t

    -- With a limit, however the goroutines interleave: the places that are taken are as many as the
    -- goroutines that handle a connection, so that each that returns gives its place back, and they are
    -- never more than the limit.
    pub accept_within_limit :
        {Change : W → W → Type 0} {w0 w : W} {ids : List ℕ} {s : Server} (limit : ℕ)
        → r.limit ≡ some limit
        → Reach b r Change w0 ids s w
        → (s.taken ≡ length s.running) × (length s.running ≤ limit)
    accept_within_limit limit is t =
        let h = Reach-Held (some limit) is t in (h.0, omega (arith, h.0, h.1))
