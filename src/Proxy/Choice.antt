-- ===== src/Proxy/Choice.antt =====
-- pkg/proxy/proxy.go: the backend that a client is connected to.
use redis_sentinel_proxy.Base.{
  ◌≡◌, refl, sym, ap, subst, ◌∙◌, true, false, Bool-cases, Option-cases, inl, inr, ◌⊎◌, Option,
  none, some, Bytes,
}
use redis_sentinel_proxy.Proxy.{
  Backends, RedisSentinelProxy, Label, replica, Connection, connected, no_backend, pick_replica,
  dial, pick_and_dial, connect_backend,
}

pub Connection-cases :
    (c : Connection)
    → (c ≡ no_backend) ⊎ ((addr : Bytes) × (label : Label) × (c ≡ connected addr label))
Connection-cases no_backend = inl refl
Connection-cases (connected addr label) = inr (addr, label, refl)

same_connection :
    {a addr : Bytes} {l label : Label}
    → connected a l ≡ connected addr label
    → (a ≡ addr) × (l ≡ label)
same_connection h = (cc, cc)

same_pick :
    {a addr : Bytes} {l label : Label}
    → ◌≡◌ {A = Option (Bytes × Label)} (some (a, l)) (some (addr, label))
    → (a ≡ addr) × (l ≡ label)
same_pick h = (cc, cc)

module _ {W : Type 0} (b : Backends W) where
  -- The backend was picked at some time, and the dial that followed was answered.
  abbrev pub Dialed : (W → Option (Bytes × Label) × W) → Bytes → Label → Type 0
  Dialed pick addr label =
      (v : W) × (◌≡◌ {A = Option (Bytes × Label)} (pick v).0 (some (addr, label)))
      × ((b.dial_redis addr (pick v).1).0 ≡ true)

  dialed_there :
      (a : Bytes) (l : Label) (addr : Bytes) (label : Label) (w : W)
      → (b.dial_redis a w).0 ≡ true
      → (a ≡ addr) × (l ≡ label)
      → (◌≡◌ {A = Option (Bytes × Label)} (some (a, l)) (some (addr, label)))
        × ((b.dial_redis addr w).0 ≡ true)
  dialed_there a l addr label w e (p, q) =
      ((λ i. some (p i, q i)), subst (λ x. (b.dial_redis x w).0 ≡ true) p e)

  pub dial_lem :
      (o : Option (Bytes × Label)) (w : W) (addr : Bytes) (label : Label)
      → (dial b o w).0 ≡ connected addr label
      → (◌≡◌ {A = Option (Bytes × Label)} o (some (addr, label))) × ((b.dial_redis addr w).0 ≡ true)
  unfolding dial
  dial_lem none w addr label h = cc
  dial_lem (some (a, l)) w addr label h = elim (Bool-cases (b.dial_redis a w).0) [
    | inl e ↦ dialed_there a l addr label w e (same_connection (rw e at h))
    | inr e ↦ cc (rw e at h)
  ]

  pick_and_dial-Dialed :
      (pick : W → Option (Bytes × Label) × W) (w : W) (addr : Bytes) (label : Label)
      → (pick_and_dial b pick w).0 ≡ connected addr label
      → Dialed pick addr label
  unfolding pick_and_dial
  pick_and_dial-Dialed pick w addr label h =
      let (e, f) = dial_lem (pick w).0 (pick w).1 addr label h in (w, e, f)

  pub connect_backend-Dialed :
      (r : RedisSentinelProxy) (pick : W → Option (Bytes × Label) × W) (w : W) (addr : Bytes)
      (label : Label)
      → (connect_backend b r pick w).0 ≡ connected addr label
      → Dialed pick addr label
  unfolding connect_backend
  connect_backend-Dialed r pick w addr label h =
      elim (Connection-cases (pick_and_dial b pick w).0) [
        | inr (a, l, e) ↦
            pick_and_dial-Dialed pick w addr label (e ∙ (rw (e, connect_backend) at h))
        | inl e ↦ elim (Bool-cases r.has_refresher) [
          | inl f ↦
              pick_and_dial-Dialed pick (b.refresh_addresses (pick_and_dial b pick w).1) addr label
                (rw (e, connect_backend, f) at h)
          | inr f ↦ cc (rw (e, connect_backend, f) at h)
        ]
      ]

  pick_replica_lem :
      (r : RedisSentinelProxy) (v : W) (addr : Bytes) (label : Label)
      → r.replica_fallback_master ≡ false
      → ◌≡◌ {A = Option (Bytes × Label)} (pick_replica b r v).0 (some (addr, label))
      → ((b.replica_address v).0 ≡ some addr)
        × ((pick_replica b r v).1 ≡ (b.replica_address v).1)
        × (label ≡ replica)
  unfolding pick_replica
  pick_replica_lem r v addr label off h = elim (Option-cases (b.replica_address v).0) [
    | inl n ↦ cc (rw (n, pick_replica, off) at h)
    | inr (a, n) ↦
        let (p, q) = same_pick (rw (n, pick_replica) at h) in
        (n ∙ ap some p, rw (n, pick_replica) refl, sym q)
  ]

  -- Without the fallback, a client of the replica endpoint that gets a backend gets one that the
  -- resolver gave as a healthy replica, at an address that was then dialed: never the master's address
  -- in its place, neither at first nor on the second try.
  pub connect_backend-replica :
      (r : RedisSentinelProxy) (w : W) (addr : Bytes) (label : Label)
      → r.replica_fallback_master ≡ false
      → (connect_backend b r (pick_replica b r) w).0 ≡ connected addr label
      → (v : W) × ((b.replica_address v).0 ≡ some addr)
        × ((b.dial_redis addr (b.replica_address v).1).0 ≡ true)
        × (label ≡ replica)
  connect_backend-replica r w addr label off h =
      let (v, e, f) = connect_backend-Dialed r (pick_replica b r) w addr label h in
      let (found, same, is_replica) = pick_replica_lem r v addr label off e in
      (v, found, subst (λ x. (b.dial_redis addr x).0 ≡ true) same f, is_replica)
