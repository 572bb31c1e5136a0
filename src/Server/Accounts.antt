-- ===== src/Server/Accounts.antt =====
-- pkg/proxy/proxy.go: no connection that was accepted is lost.
use redis_sentinel_proxy.Base.{
  ℕ, zero, suc, ◌+◌, ◌≡◌, refl, ap, ◌∙◌, Bool-cases, Option-cases, inl, inr, List, [], ◌∷◌, Option,
  none, some, map, ◌==◌, ltb, arith, if◌then◌else◌,
}
use redis_sentinel_proxy.Proxy.{Backends, RedisSentinelProxy}
use redis_sentinel_proxy.Server.{
  Job, Event, Endpoint, Server, acquire, accept, advance, step_jobs, leave, step, Reach, starts,
  accepts, steps, drifts,
}

abbrev if_same : ℕ → ℕ → ℕ
if_same x id = if x == id then 1 else 0

-- How many connections with this number there are.
unfoldable pub count : ℕ → List ℕ → ℕ
count x [] = 0
count x (id ∷ ids) = if_same x id + count x ids

abbrev pub ids_of : List Job → List ℕ
ids_of js = map (λ j. j.id) js

abbrev count_ended : ℕ → Option ℕ → ℕ
count_ended x none = 0
count_ended x (some id) = if_same x id

-- Those that are handled and those that are closed.
abbrev accounted : ℕ → Server → ℕ
accounted x s = count x (ids_of s.running) + count x s.closed

module _ (r : RedisSentinelProxy) where
  accounted-accept :
      (limit : Option ℕ) (x id : ℕ) (e : Endpoint) (s : Server)
      → r.limit ≡ limit
      → accounted x (accept r id e s) ≡ if_same x id + accounted x s
  unfolding accept acquire count
  accounted-accept none x id e s is = rw (is, accept, acquire) (omega arith)
  accounted-accept (some limit) x id e s is = elim (Bool-cases (ltb s.taken limit)) [
    | inl f ↦ rw (is, accept, f) (omega arith)
    | inr f ↦ rw (is, accept, f) (omega arith)
  ]

  module _ {W : Type 0} (b : Backends W) where
    count-step_jobs :
        (x : ℕ) (js : List Job) (i : ℕ) (event : Event) (w : W)
        → count x (ids_of (step_jobs b r js i event w).0)
            + count_ended x (step_jobs b r js i event w).1
          ≡ count x (ids_of js)
    unfolding step_jobs count
    count-step_jobs x [] i event w = refl
    count-step_jobs x (j ∷ js) zero event w =
        elim (Option-cases (advance b r j.endpoint j.phase event w).0) [
          | inl e ↦ rw (e, step_jobs) (omega arith)
          | inr (p, e) ↦ rw (e, step_jobs) (omega arith)
        ]
    count-step_jobs x (j ∷ js) (suc i) event w = omega (arith, count-step_jobs x js i event w)

    accounted-leave :
        (x : ℕ) (ended : Option ℕ) (running : List Job) (s : Server)
        → count x (ids_of running) + count_ended x ended ≡ count x (ids_of s.running)
        → accounted x (leave b r ended running s) ≡ accounted x s
    unfolding leave count
    accounted-leave x none running s n = omega (arith, n)
    accounted-leave x (some id) running s n = omega (arith, n)

    -- However the goroutines interleave: for each number, the connections with this number that were
    -- accepted are as many as those that a goroutine handles and those that were closed together. So
    -- no connection is lost, and none is closed twice.
    pub Reach-accounted :
        {Change : W → W → Type 0} {w0 w : W} {ids : List ℕ} {s : Server} (x : ℕ)
        → Reach b r Change w0 ids s w
        → count x (ids_of s.running) + count x s.closed ≡ count x ids
    unfolding step count
    Reach-accounted x starts = refl
    Reach-accounted x (accepts {s = s} id e t) =
        accounted-accept r.limit x id e s refl ∙ ap (λ n. if_same x id + n) (Reach-accounted x t)
    Reach-accounted x (steps {s = s} {w = v} i event t) =
        accounted-leave x (step_jobs b r s.running i event v).1
          (step_jobs b r s.running i event v).0 s (count-step_jobs x s.running i event v)
        ∙ Reach-accounted x t
    Reach-accounted x (drifts t c) = Reach-accounted x t
