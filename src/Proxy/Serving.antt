-- ===== src/Proxy/Serving.antt =====
-- pkg/proxy: the contract between a proxy and its resolver, and what a proxy does for its clients when
-- the resolver keeps to it.
use redis_sentinel_proxy.Base.{
  some_inj, ◌≡◌, refl, subst, ◌∙◌, Bool-cases, Option-cases, inl, inr, ◌⊎◌, Option, none, some,
  Bytes,
}
use redis_sentinel_proxy.Proxy.{
  Backends, RedisSentinelProxy, Label, master, replica, fallback, connected, pick_master,
  pick_replica, dial, pick_and_dial, connect_backend, dial_known, dial_found,
  dial_replica_for_routing,
}
use redis_sentinel_proxy.Proxy.Choice.{Connection-cases, dial_lem}

-- The states of the outside that come up are those with `Inv`, and no operation leaves them; an
-- address that is given out for a master or for a replica is a good one.
pub record Contract {W : Type 0} (b : Backends W) (Inv : W → Type 0)
    (Master Replica : Bytes → Type 0) : Type 0 where
  pub master_keeps : (w : W) → Inv w → Inv (b.master_address w).1
  pub replica_keeps : (w : W) → Inv w → Inv (b.replica_address w).1
  pub refresh_keeps : (w : W) → Inv w → Inv (b.refresh_addresses w)
  pub dial_keeps : (addr : Bytes) (w : W) → Inv w → Inv (b.dial_redis addr w).1
  pub master_good : (w : W) → Inv w → Master (b.master_address w).0
  pub replica_good :
      (w : W) (addr : Bytes) → Inv w → (b.replica_address w).0 ≡ some addr → Replica addr

module _ {W : Type 0} (b : Backends W) {Inv : W → Type 0} {Master Replica : Bytes → Type 0}
    (contract : Contract b Inv Master Replica) where
  -- What a label says of the address that goes with it.
  abbrev pub GoodFor : Label → Bytes → Type 0
  GoodFor master addr = Master addr
  GoodFor replica addr = Replica addr
  GoodFor fallback addr = Master addr

  -- A way to pick a backend that stays within the invariant and picks good addresses.
  record GoodPick (pick : W → Option (Bytes × Label) × W) : Type 0 where
    pub keeps : (w : W) → Inv w → Inv (pick w).1
    pub good :
        (w : W) (addr : Bytes) (label : Label)
        → Inv w
        → ◌≡◌ {A = Option (Bytes × Label)} (pick w).0 (some (addr, label))
        → GoodFor label addr

  GoodFor-same :
      {a addr : Bytes} {l label : Label}
      → ◌≡◌ {A = Option (Bytes × Label)} (some (a, l)) (some (addr, label))
      → GoodFor l a
      → GoodFor label addr
  GoodFor-same e h = subst (λ (p : Bytes × Label). GoodFor p.1 p.0) (some_inj e) h

  pick_master-GoodPick : (r : RedisSentinelProxy) → GoodPick (pick_master b r)
  unfolding pick_master
  pick_master-GoodPick r = record {
    keeps = λ w i. contract.master_keeps w i;
    good = λ w addr label i e. GoodFor-same e (contract.master_good w i);
  }

  pick_replica-keeps : (r : RedisSentinelProxy) (w : W) → Inv w → Inv (pick_replica b r w).1
  unfolding pick_replica
  pick_replica-keeps r w i = elim (Option-cases (b.replica_address w).0) [
    | inr (a, n) ↦ rw (n, pick_replica) (contract.replica_keeps w i)
    | inl n ↦ elim (Bool-cases r.replica_fallback_master) [
      | inl f ↦ rw (n, pick_replica, f) (contract.master_keeps _ (contract.replica_keeps w i))
      | inr f ↦ rw (n, pick_replica, f) (contract.replica_keeps w i)
    ]
  ]

  pick_replica-good :
      (r : RedisSentinelProxy) (w : W) (addr : Bytes) (label : Label)
      → Inv w
      → ◌≡◌ {A = Option (Bytes × Label)} (pick_replica b r w).0 (some (addr, label))
      → GoodFor label addr
  unfolding pick_replica
  pick_replica-good r w addr label i e = elim (Option-cases (b.replica_address w).0) [
    | inr (a, n) ↦ GoodFor-same (rw (n, pick_replica) at e) (contract.replica_good w a i n)
    | inl n ↦ elim (Bool-cases r.replica_fallback_master) [
      | inl f ↦
          GoodFor-same (rw (n, pick_replica, f) at e)
            (contract.master_good (b.replica_address w).1 (contract.replica_keeps w i))
      | inr f ↦ cc (rw (n, pick_replica, f) at e)
    ]
  ]

  pick_replica-GoodPick : (r : RedisSentinelProxy) → GoodPick (pick_replica b r)
  pick_replica-GoodPick r = record { keeps = pick_replica-keeps r; good = pick_replica-good r }

  dial-keeps : (o : Option (Bytes × Label)) (w : W) → Inv w → Inv (dial b o w).1
  unfolding dial
  dial-keeps none w i = i
  dial-keeps (some (addr, label)) w i = contract.dial_keeps addr w i

  module _ (pick : W → Option (Bytes × Label) × W) (g : GoodPick pick) where
    pick_and_dial-keeps : (w : W) → Inv w → Inv (pick_and_dial b pick w).1
    unfolding pick_and_dial
    pick_and_dial-keeps w i = dial-keeps (pick w).0 (pick w).1 (g.keeps w i)

    pick_and_dial-good :
        (w : W) (addr : Bytes) (label : Label)
        → Inv w
        → (pick_and_dial b pick w).0 ≡ connected addr label
        → GoodFor label addr
    unfolding pick_and_dial
    pick_and_dial-good w addr label i h =
        g.good w addr label i (dial_lem b (pick w).0 (pick w).1 addr label h).0

    connect_backend-keeps :
        (r : RedisSentinelProxy) (w : W) → Inv w → Inv (connect_backend b r pick w).1
    unfolding connect_backend
    connect_backend-keeps r w i = elim (Connection-cases (pick_and_dial b pick w).0) [
      | inr (a, l, e) ↦ rw (e, connect_backend) (pick_and_dial-keeps w i)
      | inl e ↦ elim (Bool-cases r.has_refresher) [
        | inl f ↦
            rw (e, connect_backend, f)
              (pick_and_dial-keeps (b.refresh_addresses (pick_and_dial b pick w).1)
                (contract.refresh_keeps _ (pick_and_dial-keeps w i)))
        | inr f ↦ rw (e, connect_backend, f) (pick_and_dial-keeps w i)
      ]
    ]

    connect_backend-good :
        (r : RedisSentinelProxy) (w : W) (addr : Bytes) (label : Label)
        → Inv w
        → (connect_backend b r pick w).0 ≡ connected addr label
        → GoodFor label addr
    unfolding connect_backend
    connect_backend-good r w addr label i h = elim (Connection-cases (pick_and_dial b pick w).0) [
      | inr (a, l, e) ↦ pick_and_dial-good w addr label i (e ∙ (rw (e, connect_backend) at h))
      | inl e ↦ elim (Bool-cases r.has_refresher) [
        | inl f ↦
            pick_and_dial-good (b.refresh_addresses (pick_and_dial b pick w).1) addr label
              (contract.refresh_keeps _ (pick_and_dial-keeps w i)) (rw (e, connect_backend, f) at h)
        | inr f ↦ cc (rw (e, connect_backend, f) at h)
      ]
    ]

  -- A client of either endpoint is connected to a good backend only: to an address that is good for a
  -- replica if it is one, and otherwise to one that is good for the master.
  pub connect_backend-serves :
      (r : RedisSentinelProxy) (w : W) (addr : Bytes) (label : Label)
      → Inv w
      → ((connect_backend b r (pick_master b r) w).0 ≡ connected addr label)
        ⊎ ((connect_backend b r (pick_replica b r) w).0 ≡ connected addr label)
      → GoodFor label addr
  connect_backend-serves r w addr label i (inl h) =
      connect_backend-good (pick_master b r) (pick_master-GoodPick r) r w addr label i h
  connect_backend-serves r w addr label i (inr h) =
      connect_backend-good (pick_replica b r) (pick_replica-GoodPick r) r w addr label i h

  pub connect_master-keeps :
      (r : RedisSentinelProxy) (w : W) → Inv w → Inv (connect_backend b r (pick_master b r) w).1
  connect_master-keeps r = connect_backend-keeps (pick_master b r) (pick_master-GoodPick r) r

  pub connect_replica-keeps :
      (r : RedisSentinelProxy) (w : W) → Inv w → Inv (connect_backend b r (pick_replica b r) w).1
  connect_replica-keeps r = connect_backend-keeps (pick_replica b r) (pick_replica-GoodPick r) r

  dial_found-keeps : (o : Option Bytes) (w : W) → Inv w → Inv (dial_found b o w).1
  unfolding dial_found dial_known
  dial_found-keeps none w i = i
  dial_found-keeps (some a) w i = contract.dial_keeps a w i

  pub dial_replica_for_routing-keeps :
      (r : RedisSentinelProxy) (w : W) → Inv w → Inv (dial_replica_for_routing b r w).1
  unfolding dial_replica_for_routing dial_known
  dial_replica_for_routing-keeps r w i = elim (Option-cases (b.replica_address w).0) [
    | inr (a, n) ↦
        rw (n, dial_replica_for_routing) (contract.dial_keeps a _ (contract.replica_keeps w i))
    | inl n ↦ elim (Bool-cases r.has_refresher) [
      | inl f ↦
          rw (n, dial_replica_for_routing, f)
            (dial_found-keeps _ _
              (contract.replica_keeps _ (contract.refresh_keeps _ (contract.replica_keeps w i))))
      | inr f ↦ rw (n, dial_replica_for_routing, f) (contract.replica_keeps w i)
    ]
  ]

  dial_known-good :
      (a addr : Bytes) (w : W) → Replica a → (dial_known b a w).0 ≡ some addr → Replica addr
  unfolding dial_known
  dial_known-good a addr w good h = elim (Bool-cases (b.dial_redis a w).0) [
    | inl f ↦ subst Replica (some_inj (rw (f, dial_known) at h)) good
    | inr f ↦ cc (rw (f, dial_known) at h)
  ]

  dial_found-good :
      (o : Option Bytes) (addr : Bytes) (w : W)
      → ((a : Bytes) → o ≡ some a → Replica a)
      → (dial_found b o w).0 ≡ some addr
      → Replica addr
  unfolding dial_found
  dial_found-good none addr w good h = cc
  dial_found-good (some a) addr w good h = dial_known-good a addr w (good a refl) h

  -- A routed session's replica connection goes to an address that is good for a replica.
  pub dial_replica_for_routing-serves :
      (r : RedisSentinelProxy) (w : W) (addr : Bytes)
      → Inv w
      → (dial_replica_for_routing b r w).0 ≡ some addr
      → Replica addr
  unfolding dial_replica_for_routing
  dial_replica_for_routing-serves r w addr i h = elim (Option-cases (b.replica_address w).0) [
    | inr (a, n) ↦
        dial_known-good a addr (b.replica_address w).1 (contract.replica_good w a i n)
          (rw (n, dial_replica_for_routing) at h)
    | inl n ↦ elim (Bool-cases r.has_refresher) [
      | inl f ↦
          let w2 = b.refresh_addresses (b.replica_address w).1 in
          dial_found-good (b.replica_address w2).0 addr (b.replica_address w2).1
            (λ a e.
              contract.replica_good w2 a (contract.refresh_keeps _ (contract.replica_keeps w i)) e)
            (rw (n, dial_replica_for_routing, f) at h)
      | inr f ↦ cc (rw (n, dial_replica_for_routing, f) at h)
    ]
  ]
