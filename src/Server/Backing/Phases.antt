-- ===== src/Server/Backing/Phases.antt =====
-- pkg/proxy/proxy.go and pkg/proxy/routing.go: the backends of one goroutine, step by step.
use redis_sentinel_proxy.Base.{
  ◌≡◌, refl, sym, subst, Bool, true, false, Bool-cases, Option-cases, inl, inr, ◌⊎◌, Option, none,
  some, Bytes, if◌then◌else◌,
}
use redis_sentinel_proxy.Proxy.{
  Backends, RedisSentinelProxy, Label, master, replica, fallback, Connection, connected, no_backend,
  pick_master, pick_replica, connect_backend, dial_replica_for_routing,
}
use redis_sentinel_proxy.Proxy.Choice.{connect_backend-Dialed}
use redis_sentinel_proxy.Proxy.Serving.{
  Contract, GoodFor, connect_backend-serves, dial_replica_for_routing-serves, connect_master-keeps,
  connect_replica-keeps, dial_replica_for_routing-keeps,
}
use redis_sentinel_proxy.Server.{
  Endpoint, master_side, replica_side, Phase, shaking, picking, linked, piped, routing, Event,
  shaken, scheduled, hung_up, complete_client_handshake, pick, link, dial_routed, advance,
}

-- The backends of a connection to an endpoint: one to the master endpoint has the master, and with it
-- a replica only if the proxy routes; one to the replica endpoint has a replica, or the master in its
-- place if that is configured.
pub data Backed (r : RedisSentinelProxy) (Master Replica : Bytes → Type 0)
    : Endpoint → Phase → Type 0 where
  shakes : {e : Endpoint} → Backed r Master Replica e shaking
  picks : {e : Endpoint} → Backed r Master Replica e picking
  links :
      {addr : Bytes}
      → r.router ≡ true
      → Master addr
      → Backed r Master Replica master_side (linked addr)
  pipes :
      {addr : Bytes}
      → r.router ≡ false
      → Master addr
      → Backed r Master Replica master_side (piped addr master)
  pipes_replica :
      {addr : Bytes} → Replica addr → Backed r Master Replica replica_side (piped addr replica)
  pipes_fallback :
      {addr : Bytes}
      → r.replica_fallback_master ≡ true
      → Master addr
      → Backed r Master Replica replica_side (piped addr fallback)
  routes :
      {addr : Bytes}
      → r.router ≡ true
      → Master addr
      → Backed r Master Replica master_side (routing addr none)
  routes_both :
      {addr second : Bytes}
      → r.router ≡ true
      → Master addr
      → Replica second
      → Backed r Master Replica master_side (routing addr (some second))

pick_master_label :
    {W : Type 0} (b : Backends W) (r : RedisSentinelProxy) (w : W) (addr : Bytes) (label : Label)
    → ◌≡◌ {A = Option (Bytes × Label)} (pick_master b r w).0 (some (addr, label))
    → label ≡ master
unfolding pick_master
pick_master_label b r w addr label h = cc

pick_replica_label :
    {W : Type 0} (b : Backends W) (r : RedisSentinelProxy) (w : W) (addr : Bytes) (label : Label)
    → ◌≡◌ {A = Option (Bytes × Label)} (pick_replica b r w).0 (some (addr, label))
    → (label ≡ replica) ⊎ ((label ≡ fallback) × (r.replica_fallback_master ≡ true))
unfolding pick_replica
pick_replica_label b r w addr label h = elim (Option-cases (b.replica_address w).0) [
  | inr (a, n) ↦ inl cc (rw (n, pick_replica) at h)
  | inl n ↦ elim (Bool-cases r.replica_fallback_master) [
    | inl f ↦ inr (cc (rw (n, pick_replica, f) at h), f)
    | inr f ↦ cc (rw (n, pick_replica, f) at h)
  ]
]

module _ {W : Type 0} (b : Backends W) (r : RedisSentinelProxy) {Inv : W → Type 0}
    {Master Replica : Bytes → Type 0} (contract : Contract b Inv Master Replica) where
  -- The phase that follows, if any.
  abbrev pub Follows : Endpoint → Option Phase → Type 0
  Follows e none = Unit {0}
  Follows e (some p) = Backed r Master Replica e p

  link_connected :
      (routed : Bool) (addr : Bytes)
      → r.router ≡ routed
      → Master addr
      → Follows master_side (link b r routed (connected addr master))
  unfolding link
  link_connected false addr is good = pipes is good
  link_connected true addr is good = links is good

  link_master :
      (routed : Bool) (c : Connection) (w : W)
      → r.router ≡ routed
      → c ≡ (connect_backend b r (pick_master b r) w).0
      → Inv w
      → Follows master_side (link b r routed c)
  unfolding link
  link_master routed no_backend w is same i = tt
  link_master routed (connected addr label) w is same i =
      let (v, picked, _) = connect_backend-Dialed b r (pick_master b r) w addr label (sym same) in
      let is_master = pick_master_label b r v addr label picked in
      let good =
        subst (λ l. GoodFor b contract l addr) is_master
          (connect_backend-serves b contract r w addr label i (inl (sym same))) in
      subst (λ l. Follows master_side (link b r routed (connected addr l))) (sym is_master)
        (link_connected routed addr is good)

  link_replica :
      (c : Connection) (w : W)
      → c ≡ (connect_backend b r (pick_replica b r) w).0
      → Inv w
      → Follows replica_side (link b r false c)
  unfolding link
  link_replica no_backend w same i = tt
  link_replica (connected addr label) w same i =
      let (v, picked, _) = connect_backend-Dialed b r (pick_replica b r) w addr label (sym same) in
      let good = connect_backend-serves b contract r w addr label i (inr (sym same)) in
      elim (pick_replica_label b r v addr label picked) [
        | inl e ↦
            subst (λ l. Backed r Master Replica replica_side (piped addr l)) (sym e)
              (pipes_replica (subst (λ l. GoodFor b contract l addr) e good))
        | inr (e, on) ↦
            subst (λ l. Backed r Master Replica replica_side (piped addr l)) (sym e)
              (pipes_fallback on (subst (λ l. GoodFor b contract l addr) e good))
      ]

  routing-Backed :
      (addr : Bytes) (o : Option Bytes) (w : W)
      → o ≡ (dial_replica_for_routing b r w).0
      → r.router ≡ true
      → Master addr
      → Inv w
      → Backed r Master Replica master_side (routing addr o)
  routing-Backed addr none w same on good i = routes on good
  routing-Backed addr (some a) w same on good i =
      routes_both on good (dial_replica_for_routing-serves b contract r w a i (sym same))

  shaken-Follows : (e : Endpoint) (fine : Bool) → Follows e (if fine then some picking else none)
  shaken-Follows e false = tt
  shaken-Follows e true = picks

  -- A step of a goroutine leaves the invariant of the outside, and its backends are fit for what follows.
  pub advance-Backed :
      {e : Endpoint} {p : Phase} (event : Event) (w : W)
      → Backed r Master Replica e p
      → Inv w
      → Inv (advance b r e p event w).1 × Follows e (advance b r e p event w).0
  unfolding advance pick dial_routed
  advance-Backed (shaken fine) w (shakes {e}) i =
      (i, shaken-Follows e (complete_client_handshake r.tls_conf fine))
  advance-Backed scheduled w shakes i = (i, shakes)
  advance-Backed hung_up w shakes i = (i, shakes)
  advance-Backed scheduled w (picks {e = master_side}) i =
      (connect_master-keeps b contract r w i, link_master r.router _ w refl refl i)
  advance-Backed scheduled w (picks {e = replica_side}) i =
      (connect_replica-keeps b contract r w i, link_replica _ w refl i)
  advance-Backed (shaken fine) w picks i = (i, picks)
  advance-Backed hung_up w picks i = (i, picks)
  advance-Backed scheduled w (links {addr} on good) i =
      (dial_replica_for_routing-keeps b contract r w i, routing-Backed addr _ w refl on good i)
  advance-Backed (shaken fine) w (links on good) i = (i, links on good)
  advance-Backed hung_up w (links on good) i = (i, links on good)
  advance-Backed hung_up w (pipes on good) i = (i, tt)
  advance-Backed scheduled w (pipes on good) i = (i, pipes on good)
  advance-Backed (shaken fine) w (pipes on good) i = (i, pipes on good)
  advance-Backed hung_up w (pipes_replica good) i = (i, tt)
  advance-Backed scheduled w (pipes_replica good) i = (i, pipes_replica good)
  advance-Backed (shaken fine) w (pipes_replica good) i = (i, pipes_replica good)
  advance-Backed hung_up w (pipes_fallback on good) i = (i, tt)
  advance-Backed scheduled w (pipes_fallback on good) i = (i, pipes_fallback on good)
  advance-Backed (shaken fine) w (pipes_fallback on good) i = (i, pipes_fallback on good)
  advance-Backed hung_up w (routes on good) i = (i, tt)
  advance-Backed scheduled w (routes on good) i = (i, routes on good)
  advance-Backed (shaken fine) w (routes on good) i = (i, routes on good)
  advance-Backed hung_up w (routes_both on good fit) i = (i, tt)
  advance-Backed scheduled w (routes_both on good fit) i = (i, routes_both on good fit)
  advance-Backed (shaken fine) w (routes_both on good fit) i = (i, routes_both on good fit)
