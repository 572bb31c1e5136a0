-- ===== src/Resolver/Nodes.antt =====
-- pkg/master_resolver/master_resolver.go: from what sentinel says to the addresses that the proxy
-- may dial: `usableTCPAddr`, `checkRole`, `displayName`, `resolveMasterAddress`,
-- `resolveReplicaAddresses`.
--
-- `net.ParseIP` is the parameter `parse_ip`: for text that is an IP address, whether it is the
-- unspecified one.
use redis_sentinel_proxy.Base.{
  ℕ, Bool, true, false, ◌&&◌, ◌||◌, not, List, [], ◌∷◌, ◌++◌, Option, none, some, Bytes, codes,
  bytes_eq, ltb, leb, ◌==◌, if◌then◌else◌,
}
use redis_sentinel_proxy.Io.Integer.{ℤ, pos, parse_int}
use redis_sentinel_proxy.Resolver.Network.{
  SentinelReply, elements, nil_reply, unavailable, Element, text, not_text, Fields, TcpAddr,
  Resolution, resolves, not_found, unresolvable, Network, ResolveError, unknown_master,
  sentinel_failed, wrong_length, empty_address, placeholder, invalid_port, no_such_host, unresolved,
  role_failed, empty_role, role_not_text, wrong_role, Answer, found, failed,
}
use redis_sentinel_proxy.Resolver.PtrCache.{PtrCache, lookup, has_prefix, lookup_name}

abbrev pub is_empty : Bytes → Bool
is_empty [] = true
is_empty (_ ∷ _) = false

-- `1 <= portNum <= 65535`, for a port that `strconv.Atoi` reads.
abbrev pub in_port_range : Option ℤ → Bool
in_port_range (some (pos n)) = leb 1 n && leb n 65535
in_port_range _ = false

unfoldable pub has_byte : ℕ → Bytes → Bool
has_byte b [] = false
has_byte b (c ∷ s) = c == b || has_byte b s

-- `net.JoinHostPort`
unfoldable pub join_host_port : Bytes → Bytes → Bytes
unfolding has_byte
join_host_port host port =
    if has_byte b':' host
    then codes "[" ++ host ++ codes "]:" ++ port
    else host ++ codes ":" ++ port

-- `strings.Contains(s, sub)`
unfoldable pub contains_text : Bytes → Bytes → Bool
contains_text [] sub = is_empty sub
contains_text (c ∷ s) sub = has_prefix (c ∷ s) sub || contains_text s sub

-- A key that is missing reads as "".
unfoldable pub field : Bytes → Fields → Bytes
field key fields = elim (lookup key fields) [ none ↦ [] | some v ↦ v ]

-- The two `continue`s on what sentinel reports of a replica.
unfoldable pub reported_healthy : Fields → Bool
unfolding field lookup contains_text has_prefix bytes_eq
reported_healthy fields =
    let flags = field (codes "flags") fields in
    not (
      contains_text flags (codes "s_down")
      || contains_text flags (codes "o_down")
      || contains_text flags (codes "disconnected"))
    && elim (lookup (codes "master-link-status") fields) [
      | none ↦ true
      | some link ↦ bytes_eq link (codes "ok")
    ]

pub record Replica : Type 0 where
  pub addr : Bytes
  pub name : Bytes

-- `strings.Compare(a, b) <= 0`
unfoldable pub text_leb : Bytes → Bytes → Bool
text_leb [] _ = true
text_leb (x ∷ xs) [] = false
text_leb (x ∷ xs) (y ∷ ys) = ltb x y || (x == y && text_leb xs ys)

unfoldable pub insert : Replica → List Replica → List Replica
insert r [] = r ∷ []
insert r (q ∷ qs) =
    let later = q ∷ insert r qs in if text_leb r.addr q.addr then r ∷ q ∷ qs else later

-- `slices.SortFunc(reps, …)`: replicas with one address may come in any order.
unfoldable pub sort : List Replica → List Replica
unfolding insert
sort [] = []
sort (r ∷ rs) = insert r (sort rs)

module _ (parse_ip : Bytes → Option Bool) {W : Type 0} (net : Network W) where
  abbrev pub is_placeholder : Bytes → Bool
  is_placeholder host = elim (parse_ip host) [ none ↦ false | some unspecified ↦ unspecified ]

  abbrev pub resolution : Resolution → Answer TcpAddr
  resolution (resolves a) = found a
  resolution not_found = failed no_such_host
  resolution unresolvable = failed unresolved

  unfoldable pub usable_tcp_addr : Bytes → Bytes → W → Answer TcpAddr × W
  unfolding parse_int
  usable_tcp_addr host port w =
      if is_empty host || is_empty port
      then (failed empty_address, w)
      else if is_placeholder host
      then (failed placeholder, w)
      else if not (in_port_range (parse_int port))
      then (failed invalid_port, w)
      else let (r, w1) = net.resolve_tcp (join_host_port host port) w in (resolution r, w1)

  -- What is wrong with the answer to ROLE, if anything is.
  unfoldable pub role_error : Bytes → Option (List Element) → Option ResolveError
  role_error wanted none = some role_failed
  role_error wanted (some []) = some empty_role
  role_error wanted (some (not_text ∷ _)) = some role_not_text
  role_error wanted (some (text role ∷ _)) = if bytes_eq role wanted then none else some wrong_role

  unfoldable pub check_role : TcpAddr → Bytes → W → Option ResolveError × W
  unfolding role_error
  check_role addr wanted w =
      let (reply, w1) = net.role addr.shown w in (role_error wanted reply, w1)

  abbrev show_name : Bytes → Bytes → TcpAddr → Bytes
  show_name [] port addr = addr.shown
  show_name (c ∷ s) port addr = join_host_port (c ∷ s) port ++ codes " (" ++ addr.ip ++ codes ")"

  unfoldable pub display_name : Bytes → Bytes → TcpAddr → PtrCache → W → Bytes × PtrCache × W
  unfolding join_host_port lookup_name
  display_name host port addr cache w = elim (parse_ip host) [
    | none ↦ (show_name host port addr, cache, w)
    | some _ ↦
        let (name, cache1, w1) = lookup_name net addr.ip cache w in
        (show_name name port addr, cache1, w1)
  ]

  -- A node that sentinel names: its address and its name for the log, if it has the role wanted.
  unfoldable pub probe :
      Bytes → Bytes → Bytes → PtrCache → W → Answer (TcpAddr × Bytes) × PtrCache × W
  unfolding usable_tcp_addr check_role display_name
  probe wanted host port cache w =
      let (a, w1) = usable_tcp_addr host port w in
      elim a [
        | failed e ↦ (failed e, cache, w1)
        | found addr ↦
            let (wrong, w2) = check_role addr wanted w1 in
            elim wrong [
              | some e ↦ (failed e, cache, w2)
              | none ↦
                  let (name, cache1, w3) = display_name host port addr cache w2 in
                  (found (addr, name), cache1, w3)
            ]
      ]

  unfoldable pub on_master_reply :
      SentinelReply → PtrCache → W → Answer (TcpAddr × Bytes) × PtrCache × W
  on_master_reply unavailable cache w = (failed sentinel_failed, cache, w)
  on_master_reply nil_reply cache w = (failed unknown_master, cache, w)
  on_master_reply (elements (host ∷ port ∷ [])) cache w = probe (codes "master") host port cache w
  on_master_reply (elements _) cache w = (failed wrong_length, cache, w)

  unfoldable pub resolve_master_address :
      Bytes → PtrCache → W → Answer (TcpAddr × Bytes) × PtrCache × W
  unfolding on_master_reply probe
  resolve_master_address master_name cache w =
      let (reply, w1) = net.master_addr master_name w in on_master_reply reply cache w1

  abbrev pub with_probed : Answer (TcpAddr × Bytes) → List Replica → List Replica
  with_probed (failed _) reps = reps
  with_probed (found (addr, name)) reps = record { addr = addr.shown; name = name } ∷ reps

  -- The loop over the replicas that sentinel lists.
  unfoldable pub gather : List Fields → PtrCache → W → List Replica × PtrCache × W
  gather [] cache w = ([], cache, w)
  gather (fields ∷ more) cache w = elim (reported_healthy fields) [
    | false ↦ gather more cache w
    | true ↦
        let (probed, cache1, w1) =
          probe (codes "slave") (field (codes "ip") fields) (field (codes "port") fields) cache w in
        let (reps, cache2, w2) = gather more cache1 w1 in (with_probed probed reps, cache2, w2)
  ]

  unfoldable pub resolve_replica_addresses :
      Bytes → PtrCache → W → Answer (List Replica) × PtrCache × W
  unfolding gather sort probe reported_healthy
  resolve_replica_addresses master_name cache w =
      let (reply, w1) = net.replicas master_name w in
      elim reply [
        | none ↦ (failed sentinel_failed, cache, w1)
        | some listed ↦
            let (reps, cache1, w2) = gather listed cache w1 in (found (sort reps), cache1, w2)
      ]
