-- ===== src/Resolver/Reach.antt =====
-- pkg/master_resolver/master_resolver.go: the states that a resolver can come to, and which addresses
-- it can hand out in them.
use native.Mathlib.Nat.{mod-lt}
use redis_sentinel_proxy.Base.{
  some_inj, ℕ, zero, suc, ◌+◌, ◌-◌, ◌%◌, ◌^◌, ◌≡◌, refl, sym, subst, ◌∙◌, Bool, true, Bool-cases,
  ◌⊎◌, inl, inr, List, [], ◌∷◌, Option, some, map, Bytes, codes, All, length, arith,
}
use redis_sentinel_proxy.Resolver.Network.{Network, Fields, elements, TcpAddr}
use redis_sentinel_proxy.Resolver.Nodes.{Replica, resolve_master_address, resolve_replica_addresses}
use redis_sentinel_proxy.Resolver.Addresses.{
  Resolver, master_address, set_replica_addresses, set_master_address, update_replicas,
  update_master_address, throttled, refresh_addresses, get_elem?, replica_address,
}
use redis_sentinel_proxy.Resolver.Vouching.{
  Answer-cases, Vouched, Healthy, resolve_master_address-Vouched, resolve_replica_addresses-Healthy,
}
use redis_sentinel_proxy.Resolver.Turns.{get_elem?_inside}
use redis_sentinel_proxy.Resolver.Updates.{update_replicas-master}

get_elem?-All {ℓ κ} :
    {A : Type ℓ} (P : A → Type κ) (xs : List A) (i : ℕ) (x : A)
    → get_elem? xs i ≡ some x
    → All P xs
    → P x
unfolding get_elem?
get_elem?-All P [] i x e h = cc
get_elem?-All P (y ∷ ys) zero x e h = subst P (some_inj e) h.0
get_elem?-All P (y ∷ ys) (suc i) x e h = get_elem?-All P ys i x e h.1

module _ (parse_ip : Bytes → Option Bool) {W : Type 0} (net : Network W) where
  -- What happens to a resolver, at any time and with any state of the outside: the update loop updates
  -- it, the initial resolve ends, a proxy has it refreshed or takes a replica.
  pub data Step : Resolver → Resolver → Type 0 where
    updates : {s : Resolver} (w : W) → Step s (update_master_address parse_ip net s w).1
    opens : {s : Resolver} → Step s (record s { ready = true })
    refreshes : {s : Resolver} (w : W) → Step s (refresh_addresses parse_ip net s w).0
    takes : {s : Resolver} → Step s (replica_address s).1

  pub data Reach (start : Resolver) : Resolver → Type 0 where
    here : Reach start start
    later : {s t : Resolver} → Reach start s → Step s t → Reach start t

  -- An address of a node that sentinel once listed as a healthy replica of the master, and that answered
  -- that it is a replica.
  abbrev pub KnownReplica : Bytes → Bytes → Type 0
  KnownReplica master_name a =
      (w : W) × (listed : List Fields) × ((net.replicas master_name w).0 ≡ some listed)
      × (name : Bytes) × Healthy parse_ip net listed (record { addr = a; name = name })

  -- An address of the node that sentinel once named as the master, and that answered that it is.
  abbrev pub IsMaster : Bytes → Bytes → Type 0
  IsMaster master_name a =
      (w : W) × (host : Bytes) × (port : Bytes) × (addr : TcpAddr) × ((net.master_addr master_name
          w).0
        ≡ elements (host ∷ port ∷ []))
      × Vouched parse_ip net (codes "master") host port addr
      × (a ≡ addr.shown)

  -- No address yet, or one of the master.
  abbrev pub KnownMaster : Bytes → Bytes → Type 0
  KnownMaster master_name a = (a ≡ []) ⊎ IsMaster master_name a

  pub record Known (name : Bytes) (s : Resolver) : Type 0 where
    pub same_name : s.master_name ≡ name
    pub master : KnownMaster name s.master_addr
    pub replicas : All (KnownReplica name) s.replica_addrs

  known_replicas :
      (master_name : Bytes) (w : W) (listed : List Fields) (reps : List Replica)
      → (net.replicas master_name w).0 ≡ some listed
      → All (Healthy parse_ip net listed) reps
      → All (KnownReplica master_name) (map (λ r. r.addr) reps)
  known_replicas master_name w listed [] e h = tt
  known_replicas master_name w listed (r ∷ rs) e h =
      ((w, listed, e, r.name, h.0), known_replicas master_name w listed rs e h.1)

  update_replicas-name :
      (s : Resolver) (w : W) → (update_replicas parse_ip net s w).0.master_name ≡ s.master_name
  unfolding update_replicas set_replica_addresses
  update_replicas-name s w = elim (Bool-cases s.track_replicas) [
    | inr e ↦ rw (e, update_replicas) refl
    | inl e ↦
        elim (Answer-cases (resolve_replica_addresses parse_ip net s.master_name s.ptr_cache w).0) [
          | inl (x, f) ↦ rw (e, update_replicas, f) refl
          | inr (rs, f) ↦ rw (e, update_replicas, f) refl
        ]
  ]

  update_replicas-Known :
      (s : Resolver) (w : W)
      → All (KnownReplica s.master_name) s.replica_addrs
      → All (KnownReplica s.master_name) (update_replicas parse_ip net s w).0.replica_addrs
  unfolding update_replicas set_replica_addresses
  update_replicas-Known s w h = elim (Bool-cases s.track_replicas) [
    | inr e ↦ rw (e, update_replicas) h
    | inl e ↦
        elim (Answer-cases (resolve_replica_addresses parse_ip net s.master_name s.ptr_cache w).0) [
          | inl (x, f) ↦ rw (e, update_replicas, f) tt
          | inr (rs, f) ↦
              let (listed, said, good) =
                resolve_replica_addresses-Healthy parse_ip net s.master_name s.ptr_cache w rs f in
              rw (e, update_replicas, f) (known_replicas s.master_name w listed rs said good)
        ]
  ]

  updated-Known :
      (s : Resolver) (w : W)
      → KnownMaster s.master_name s.master_addr
      → All (KnownReplica s.master_name) s.replica_addrs
      → Known s.master_name (update_master_address parse_ip net s w).1
  unfolding update_master_address set_master_address
  updated-Known s w m rs =
      elim (Answer-cases (resolve_master_address parse_ip net s.master_name s.ptr_cache w).0) [
        | inl (x, e) ↦
            rw (e, update_master_address) (record { same_name = refl; master = m; replicas = rs })
        | inr ((addr, name), e) ↦
            let (host, port, said, v) =
              resolve_master_address-Vouched parse_ip net s.master_name s.ptr_cache w addr name e in
            rw (e, update_master_address)
              (record {
                same_name = update_replicas-name _ _;
                master =
                    inr (w, host, port, addr, said, v, update_replicas-master parse_ip net _ _);
                replicas = update_replicas-Known _ _ rs;
              })
      ]

  update-Known :
      (name : Bytes) (s : Resolver) (w : W)
      → Known name s
      → Known name (update_master_address parse_ip net s w).1
  update-Known name s w k =
      subst (λ x. Known x (update_master_address parse_ip net s w).1) k.same_name
        (updated-Known s w (subst (λ x. KnownMaster x s.master_addr) (sym k.same_name) k.master)
          (subst (λ x. All (KnownReplica x) s.replica_addrs) (sym k.same_name) k.replicas))

  refresh-Known :
      (name : Bytes) (s : Resolver) (w : W)
      → Known name s
      → Known name (refresh_addresses parse_ip net s w).0
  unfolding refresh_addresses
  refresh-Known name s w k = elim (Bool-cases s.ready) [
    | inr e ↦ rw (e, refresh_addresses) k
    | inl e ↦ elim (Bool-cases (throttled (net.clock w).0 s.last_refresh)) [
      | inl f ↦ rw (e, refresh_addresses, f) k
      | inr f ↦
          rw (e, refresh_addresses, f)
            (update-Known name _ _
              (record { same_name = k.same_name; master = k.master; replicas = k.replicas }))
    ]
  ]

  takes-Known :
      (name : Bytes) (s : Resolver) (addrs : List Bytes)
      → s.replica_addrs ≡ addrs
      → Known name s
      → Known name (replica_address s).1
  unfolding replica_address
  takes-Known name s [] e k = rw (e, replica_address) k
  takes-Known name s (a ∷ rest) e k =
      rw (e, replica_address)
        (record { same_name = k.same_name; master = k.master; replicas = k.replicas })

  Step-Known : {s t : Resolver} (name : Bytes) → Step s t → Known name s → Known name t
  Step-Known name (updates {s} w) k = update-Known name s w k
  Step-Known name opens k = record {
    same_name = k.same_name;
    master = k.master;
    replicas = k.replicas;
  }
  Step-Known name (refreshes {s} w) k = refresh-Known name s w k
  Step-Known name (takes {s}) k = takes-Known name s s.replica_addrs refl k

  Reach-Known :
      {start s : Resolver}
      → start.master_addr ≡ []
      → start.replica_addrs ≡ []
      → Reach start s
      → Known start.master_name s
  Reach-Known {start} no_master no_replicas here = record {
    same_name = refl;
    master = inl no_master;
    replicas = subst (All (KnownReplica start.master_name)) (sym no_replicas) tt;
  }
  Reach-Known {start} no_master no_replicas (later r st) =
      Step-Known start.master_name st (Reach-Known no_master no_replicas r)

  answer_of_takes :
      (name : Bytes) (s : Resolver) (addrs : List Bytes) (answer : Option Bytes)
      → s.replica_addrs ≡ addrs
      → All (KnownReplica name) addrs
      → ◌≡◌ {A = Option (Option Bytes)} (replica_address s).0 (some answer)
      → (addr : Bytes) × (answer ≡ some addr) × KnownReplica name addr
  unfolding replica_address
  answer_of_takes name s [] answer e k h = cc (rw (e, replica_address) at h)
  answer_of_takes name s (a ∷ rest) answer e k h =
      let i = (((s.replica_idx + 1) % 2 ^ 64 + (2 ^ 64 - 1)) % 2 ^ 64) % suc (length rest) in
      let (x, inside) =
        get_elem?_inside (a ∷ rest) i (mod-lt _ {m = suc (length rest)} (omega arith)) in
      (
        x,
        sym (some_inj (rw (e, replica_address) at h)) ∙ inside,
        get_elem?-All (KnownReplica name) (a ∷ rest) i x inside k,
      )

  -- From a resolver that knows nothing yet, whatever happens and whatever the outside answers:
  -- `ReplicaAddress` never goes out of range, and an address that it gives is that of a node which
  -- sentinel once listed as a healthy replica of the resolver's master, and which answered that it is a
  -- replica.
  pub replica_address-known :
      (start s : Resolver) (answer : Option Bytes)
      → start.master_addr ≡ []
      → start.replica_addrs ≡ []
      → Reach start s
      → ◌≡◌ {A = Option (Option Bytes)} (replica_address s).0 (some answer)
      → (addr : Bytes) × (answer ≡ some addr) × KnownReplica start.master_name addr
  replica_address-known start s answer no_master no_replicas r h =
      answer_of_takes start.master_name s s.replica_addrs answer refl
        (Reach-Known no_master no_replicas r).replicas h

  pub Reach-KnownMaster :
      (start s : Resolver)
      → start.master_addr ≡ []
      → start.replica_addrs ≡ []
      → Reach start s
      → KnownMaster start.master_name s.master_addr
  Reach-KnownMaster start s no_master no_replicas r = (Reach-Known no_master no_replicas r).master

  -- From a resolver that knows nothing yet, whatever happens and whatever the outside answers: an
  -- address that `MasterAddress` gives is the empty one, as it is at the start, or that of the node
  -- which sentinel once named as the resolver's master, and which answered that it is the master.
  pub master_address-known :
      (start s : Resolver) (addr : Bytes)
      → start.master_addr ≡ []
      → start.replica_addrs ≡ []
      → Reach start s
      → ◌≡◌ {A = Option Bytes} (master_address s) (some addr)
      → (addr ≡ []) ⊎ IsMaster start.master_name addr
  unfolding master_address
  master_address-known start s addr no_master no_replicas r h = elim (Bool-cases s.ready) [
    | inl e ↦
        subst (KnownMaster start.master_name) (some_inj (rw (e, master_address) at h))
          (Reach-KnownMaster start s no_master no_replicas r)
    | inr e ↦ cc (rw (e, master_address) at h)
  ]
