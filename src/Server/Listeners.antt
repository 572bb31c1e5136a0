-- ===== src/Server/Listeners.antt =====
-- pkg/proxy/proxy.go, `Run`: which listeners are opened, served and closed.
use redis_sentinel_proxy.Base.{
  ◌≡◌, refl, Bool, true, false, Bool-cases, inl, inr, ◌⊎◌, List, [], ◌∷◌, ◌++◌, Option, none, some,
  Bytes,
}
use redis_sentinel_proxy.Proxy.{RedisSentinelProxy}
use redis_sentinel_proxy.Server.{
  Endpoint, master_side, replica_side, Action, opens, fails, starts_loop, closes, close_opened,
  listen_on, run_listeners,
}

-- What is done for an endpoint that is configured, and undone.
abbrev pub served : Endpoint → Option Bytes → List Action
served e none = []
served e (some _) = opens e ∷ starts_loop e ∷ []

abbrev pub undone : Endpoint → Option Bytes → List Action
undone e none = []
undone e (some _) = closes e ∷ []

module _ {W : Type 0} (listen_tcp : Bytes → W → Bool × W) where
  -- The endpoint is configured, and could not be listened on.
  abbrev pub Refused : Option Bytes → W → Type 0
  Refused o w = (addr : Bytes) × (o ≡ some addr) × ((listen_tcp addr w).0 ≡ false)

  listen_on-cases :
      (e : Endpoint) (o : Option Bytes) (w : W)
      → (((listen_on listen_tcp e o w).0 ≡ true) × ((listen_on listen_tcp e o w).1 ≡ served e o))
        ⊎ (((listen_on listen_tcp e o w).0 ≡ false)
            × ((listen_on listen_tcp e o w).1 ≡ fails e ∷ [])
            × Refused o w)
  unfolding listen_on
  listen_on-cases e none w = inl (refl, refl)
  listen_on-cases e (some addr) w = elim (Bool-cases (listen_tcp addr w).0) [
    | inl f ↦ inl (f, rw (f, listen_on) refl)
    | inr f ↦ inr (f, rw (f, listen_on) refl, (addr, refl, f))
  ]

  close_opened-master :
      (o : Option Bytes)
      → close_opened (served master_side o ++ fails replica_side ∷ []) ≡ undone master_side o
  unfolding close_opened
  close_opened-master none = refl
  close_opened-master (some addr) = refl

  -- `Run` has one of three outcomes. It opens the endpoints that are configured and starts the loop of
  -- each, the master's first; or the master endpoint cannot be listened on, and it does nothing else; or
  -- the replica endpoint cannot be, and then the master's listener is closed, whose loop, if that
  -- endpoint is configured, was started before the replica endpoint was tried.
  pub run_listeners-served :
      (r : RedisSentinelProxy) (w : W)
      → (((run_listeners listen_tcp r w).0 ≡ true)
          × ((run_listeners listen_tcp r w).1
              ≡ served master_side r.local_addr ++ served replica_side r.replica_addr))
        ⊎ (((run_listeners listen_tcp r w).0 ≡ false)
            × ((run_listeners listen_tcp r w).1 ≡ fails master_side ∷ [])
            × Refused r.local_addr w)
        ⊎ (((run_listeners listen_tcp r w).0 ≡ false)
            × ((run_listeners listen_tcp r w).1
                ≡ (served master_side r.local_addr ++ fails replica_side ∷ [])
                  ++ undone master_side r.local_addr)
            × Refused r.replica_addr (listen_on listen_tcp master_side r.local_addr w).2)
  unfolding run_listeners close_opened
  run_listeners-served r w = elim (listen_on-cases master_side r.local_addr w) [
    | inr (e, a, why) ↦ inr (inl (rw (e, run_listeners) refl, rw (e, run_listeners, a) refl, why))
    | inl (e, a) ↦
        elim (listen_on-cases replica_side r.replica_addr
          (listen_on listen_tcp master_side r.local_addr w).2) [
            | inl (f, b) ↦ inl (rw (e, run_listeners, f) refl, rw (e, run_listeners, f, a, b) refl)
            | inr (f, b, why) ↦ inr (
                inr (
                  rw (e, run_listeners, f) refl,
                  rw (e, run_listeners, f, a, b, close_opened-master r.local_addr) refl,
                  why,
                ))
          ]
  ]
