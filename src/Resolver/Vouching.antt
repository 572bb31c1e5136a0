-- ===== src/Resolver/Vouching.antt =====
-- pkg/master_resolver/master_resolver.go: every address that a resolver hands out was resolved from
-- what sentinel said, and its node answered with the role wanted.
use mathlib.Core.List.{Memᴰ}
use redis_sentinel_proxy.Base.{
  ◌≡◌, refl, subst, Bool, true, false, Bool-cases, Option-cases, ◌⊎◌, inl, inr, ◌||◌, List, [], ◌∷◌,
  Option, none, some, Bytes, bytes_eq, codes, All,
}
use redis_sentinel_proxy.Io.Integer.{parse_int}
use redis_sentinel_proxy.Resolver.Network.{
  SentinelReply, elements, nil_reply, unavailable, Fields, TcpAddr, Resolution, resolves, not_found,
  unresolvable, Element, text, not_text, Network, ResolveError, Answer, found, failed,
}
use redis_sentinel_proxy.Resolver.PtrCache.{PtrCache}
use redis_sentinel_proxy.Resolver.Nodes.{
  Replica, is_empty, is_placeholder, in_port_range, join_host_port, resolution, usable_tcp_addr,
  role_error, check_role, probe, field, reported_healthy, gather, with_probed, insert, sort,
  text_leb, on_master_reply, resolve_master_address, resolve_replica_addresses,
}

pub Answer-cases {ℓ} :
    {A : Type ℓ} (o : Answer A) → ((x : ResolveError) × (o ≡ failed x)) ⊎ ((a : A) × (o ≡ found a))
Answer-cases (failed x) = inl (x, refl)
Answer-cases (found a) = inr (a, refl)

same_addr :
    {a b : TcpAddr} {n m : Bytes}
    → ◌≡◌ {A = Answer (TcpAddr × Bytes)} (found (b, m)) (found (a, n))
    → b ≡ a
same_addr h = cc

same_reps : {rs qs : List Replica} → ◌≡◌ {A = Answer (List Replica)} (found rs) (found qs) → rs ≡ qs
same_reps h = cc

module _ (parse_ip : Bytes → Option Bool) {W : Type 0} (net : Network W) where
  -- `host` and `port` name a node with the role `wanted` at `addr`: neither is empty, the host is not
  -- the placeholder, the port is in range, they resolved to `addr` at some time, and the node there
  -- answered with the role at some time.
  pub record Vouched (wanted host port : Bytes) (addr : TcpAddr) : Type 0 where
    pub named : (is_empty host || is_empty port) ≡ false
    pub no_placeholder : is_placeholder parse_ip net host ≡ false
    pub in_range : in_port_range (parse_int port) ≡ true
    pub asked : W
    pub resolved : (net.resolve_tcp (join_host_port host port) asked).0 ≡ resolves addr
    pub probed : W
    pub role : Bytes
    pub details : List Element
    pub answered : (net.role addr.shown probed).0 ≡ some (text role ∷ details)
    pub role_wanted : bytes_eq role wanted ≡ true

  resolution_found :
      (r : Resolution) (a : TcpAddr) → resolution parse_ip net r ≡ found a → r ≡ resolves a
  resolution_found (resolves b) a e = cc
  resolution_found not_found a e = cc
  resolution_found unresolvable a e = cc

  usable_tcp_addr-found :
      (host port : Bytes) (w : W) (a : TcpAddr)
      → (usable_tcp_addr parse_ip net host port w).0 ≡ found a
      → ((is_empty host || is_empty port) ≡ false)
        × (is_placeholder parse_ip net host ≡ false)
        × (in_port_range (parse_int port) ≡ true)
        × ((net.resolve_tcp (join_host_port host port) w).0 ≡ resolves a)
  unfolding usable_tcp_addr
  usable_tcp_addr-found host port w a h = elim (Bool-cases (is_empty host || is_empty port)) [
    | inl e ↦ cc (rw e at h)
    | inr e ↦ elim (Bool-cases (is_placeholder parse_ip net host)) [
      | inl p ↦ cc (rw (e, p) at h)
      | inr p ↦ elim (Bool-cases (in_port_range (parse_int port))) [
        | inl r ↦ (e, p, r, resolution_found _ a (rw (e, p, r) at h))
        | inr r ↦ cc (rw (e, p, r) at h)
      ]
    ]
  ]

  role_error-none :
      (wanted : Bytes) (o : Option (List Element))
      → role_error parse_ip net wanted o ≡ none
      → (role : Bytes) × (details : List Element) × (o ≡ some (text role ∷ details))
        × (bytes_eq role wanted ≡ true)
  unfolding role_error
  role_error-none wanted none h = cc
  role_error-none wanted (some []) h = cc
  role_error-none wanted (some (not_text ∷ rest)) h = cc
  role_error-none wanted (some (text role ∷ rest)) h = elim (Bool-cases (bytes_eq role wanted)) [
    | inl e ↦ (role, rest, refl, e)
    | inr e ↦ cc (rw e at h)
  ]

  check_role-none :
      (b : TcpAddr) (wanted : Bytes) (w : W)
      → (check_role parse_ip net b wanted w).0 ≡ none
      → (role : Bytes) × (details : List Element) × ((net.role b.shown w).0
          ≡ some (text role ∷ details))
        × (bytes_eq role wanted ≡ true)
  unfolding check_role
  check_role-none b wanted w h = role_error-none wanted (net.role b.shown w).0 h

  vouched :
      {wanted host port : Bytes} {w : W} {a : TcpAddr} (w' : W) (b : TcpAddr)
      → ((is_empty host || is_empty port) ≡ false)
        × (is_placeholder parse_ip net host ≡ false)
        × (in_port_range (parse_int port) ≡ true)
        × ((net.resolve_tcp (join_host_port host port) w).0 ≡ resolves b)
      → (check_role parse_ip net b wanted w').0 ≡ none
      → b ≡ a
      → Vouched wanted host port a
  vouched {wanted} {host} {port} {w} w' b (e, p, r, s) n same =
      let (role, details, answered, role_wanted) = check_role-none b wanted w' n in
      subst (Vouched wanted host port) same (record {
        named = e;
        no_placeholder = p;
        in_range = r;
        asked = w;
        resolved = s;
        probed = w';
        role = role;
        details = details;
        answered = answered;
        role_wanted = role_wanted;
      })

  probe-Vouched :
      (wanted host port : Bytes) (cache : PtrCache) (w : W) (a : TcpAddr) (name : Bytes)
      → (probe parse_ip net wanted host port cache w).0 ≡ found (a, name)
      → Vouched wanted host port a
  unfolding probe
  probe-Vouched wanted host port cache w a name h =
      elim (Answer-cases (usable_tcp_addr parse_ip net host port w).0) [
        | inl (x, e) ↦ cc (rw (e, probe) at h)
        | inr (b, e) ↦
            elim (Option-cases
              (check_role parse_ip net b wanted (usable_tcp_addr parse_ip net host port w).1).0) [
                | inl n ↦
                    vouched _ b (usable_tcp_addr-found host port w b e) n
                      (same_addr (rw (e, probe, n) at h))
                | inr (y, n) ↦ cc (rw (e, probe, n) at h)
              ]
      ]

  -- A replica of the list that sentinel gave: it was reported healthy, and its node is a slave.
  pub record Healthy (listed : List Fields) (r : Replica) : Type 0 where
    pub fields : Fields
    pub is_listed : Memᴰ fields listed
    pub good : reported_healthy fields ≡ true
    pub tcp_addr : TcpAddr
    pub vouched_for :
        Vouched (codes "slave") (field (codes "ip") fields) (field (codes "port") fields) tcp_addr
    pub shows : tcp_addr.shown ≡ r.addr

  with_probed-Healthy :
      (listed : List Fields) (fields : Fields) (o : Answer (TcpAddr × Bytes)) (reps : List Replica)
      → Memᴰ fields listed
      → reported_healthy fields ≡ true
      → ((a : TcpAddr) (name : Bytes)
          → o ≡ found (a, name)
          → Vouched (codes "slave") (field (codes "ip") fields) (field (codes "port") fields) a)
      → All (Healthy listed) reps
      → All (Healthy listed) (with_probed parse_ip net o reps)
  with_probed-Healthy listed fields (failed x) reps m good v h = h
  with_probed-Healthy listed fields (found (a, name)) reps m good v h = (
    record {
      fields = fields;
      is_listed = m;
      good = good;
      tcp_addr = a;
      vouched_for = v a name refl;
      shows = refl;
    },
    h,
  )

  -- The loop over `more`, which is a part of the list.
  gather-Healthy :
      (listed more : List Fields) (cache : PtrCache) (w : W)
      → ((fields : Fields) → Memᴰ fields more → Memᴰ fields listed)
      → All (Healthy listed) (gather parse_ip net more cache w).0
  unfolding gather
  gather-Healthy listed [] cache w part = tt
  gather-Healthy listed (fields ∷ more) cache w part = elim (Bool-cases (reported_healthy fields)) [
    | inl good ↦
        let p =
          probe parse_ip net (codes "slave") (field (codes "ip") fields)
            (field (codes "port") fields) cache w in
        rw (good, gather)
          (with_probed-Healthy listed fields p.0 (gather parse_ip net more p.1 p.2).0
            (part fields (Memᴰ.head refl)) good
            (probe-Vouched (codes "slave") (field (codes "ip") fields) (field (codes "port") fields)
              cache w)
            (gather-Healthy listed more p.1 p.2 (λ f m. part f (Memᴰ.tail m))))
    | inr bad ↦ rw (bad, gather) (gather-Healthy listed more cache w (λ f m. part f (Memᴰ.tail m)))
  ]

  insert-All :
      (P : Replica → Type 0) (r : Replica) (rs : List Replica)
      → P r
      → All P rs
      → All P (insert r rs)
  unfolding insert
  insert-All P r [] h hs = (h, tt)
  insert-All P r (q ∷ qs) h (hq, hs) = elim (Bool-cases (text_leb r.addr q.addr)) [
    | inl e ↦ rw e (h, (hq, hs))
    | inr e ↦ rw e (hq, insert-All P r qs h hs)
  ]

  sort-All : (P : Replica → Type 0) (rs : List Replica) → All P rs → All P (sort rs)
  unfolding sort
  sort-All P [] h = tt
  sort-All P (r ∷ rs) (h, hs) = insert-All P r (sort rs) h (sort-All P rs hs)

  -- Whenever `resolveReplicaAddresses` returns replicas, sentinel had answered with a list, and each of
  -- them is an entry of this list that is reported healthy, at an address that its host and port
  -- resolved to, whose node answered ROLE with "slave".
  pub resolve_replica_addresses-Healthy :
      (master_name : Bytes) (cache : PtrCache) (w : W) (reps : List Replica)
      → (resolve_replica_addresses parse_ip net master_name cache w).0 ≡ found reps
      → (listed : List Fields) × ((net.replicas master_name w).0 ≡ some listed)
        × All (Healthy listed) reps
  unfolding resolve_replica_addresses
  resolve_replica_addresses-Healthy master_name cache w reps h =
      elim (Option-cases (net.replicas master_name w).0) [
        | inl e ↦ cc (rw (e, resolve_replica_addresses) at h)
        | inr (listed, e) ↦
            let w1 = (net.replicas master_name w).1 in
            (
              listed,
              e,
              subst (All (Healthy listed)) (same_reps (rw (e, resolve_replica_addresses) at h)) (
                  sort-All (Healthy listed) (gather parse_ip net listed cache w1).0
                    (gather-Healthy listed listed cache w1 (λ f m. m))),
            )
      ]

  -- Whenever `resolveMasterAddress` returns an address, sentinel had answered with a host and a port,
  -- which are no placeholder and resolved to it, and the node there answered ROLE with "master".
  pub resolve_master_address-Vouched :
      (master_name : Bytes) (cache : PtrCache) (w : W) (a : TcpAddr) (name : Bytes)
      → (resolve_master_address parse_ip net master_name cache w).0 ≡ found (a, name)
      → (host : Bytes) × (port : Bytes) × ((net.master_addr master_name w).0
          ≡ elements (host ∷ port ∷ []))
        × Vouched (codes "master") host port a
  unfolding resolve_master_address on_master_reply
  resolve_master_address-Vouched master_name cache w a name h =
      of_reply (net.master_addr master_name w).0 refl h
    where
      of_reply :
          (o : SentinelReply)
          → (net.master_addr master_name w).0 ≡ o
          → (on_master_reply parse_ip net o cache (net.master_addr master_name w).1).0
            ≡ found (a, name)
          → (host : Bytes) × (port : Bytes) × ((net.master_addr master_name w).0
              ≡ elements (host ∷ port ∷ []))
            × Vouched (codes "master") host port a
      of_reply unavailable e k = cc
      of_reply nil_reply e k = cc
      of_reply (elements []) e k = cc
      of_reply (elements (x ∷ [])) e k = cc
      of_reply (elements (host ∷ port ∷ [])) e k = (
        host,
        port,
        e,
        probe-Vouched (codes "master") host port cache (net.master_addr master_name w).1 a name k,
      )
      of_reply (elements (x ∷ y ∷ z ∷ rest)) e k = cc
