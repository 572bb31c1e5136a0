-- ===== src/Resolver/Network.antt =====
-- What pkg/master_resolver asks of the outside: sentinel and the nodes through go-redis, DNS, and
-- the clock. Each question may change the state `W` of the outside, so that the same question may
-- be answered differently later.
use redis_sentinel_proxy.Base.{ℕ, List, Option, Bytes}

-- The answer to SENTINEL GET-MASTER-ADDR-BY-NAME: its elements, the nil reply, or an error.
pub data SentinelReply : Type 0 where
  elements : List Bytes → SentinelReply
  nil_reply unavailable : SentinelReply

-- An element of a reply: a string, or a value of another type.
pub data Element : Type 0 where
  text : Bytes → Element
  not_text : Element

-- `fields["ip"]` and so on, for one replica.
abbrev pub Fields : Type 0
Fields = List (Bytes × Bytes)

-- A `*net.TCPAddr`: its `String()` and its `IP.String()`.
pub record TcpAddr : Type 0 where
  pub shown : Bytes
  pub ip : Bytes

-- The answer of `net.ResolveTCPAddr`: an address, a DNS error with `IsNotFound`, another error.
pub data Resolution : Type 0 where
  resolves : TcpAddr → Resolution
  not_found unresolvable : Resolution

pub record Network (W : Type 0) : Type 0 where
  pub clock : W → ℕ × W
  pub master_addr : Bytes → W → SentinelReply × W
  pub replicas : Bytes → W → Option (List Fields) × W
  pub role : Bytes → W → Option (List Element) × W
  pub resolve_tcp : Bytes → W → Resolution × W
  pub lookup_addr : Bytes → W → Option (List Bytes) × W

pub data ResolveError : Type 0 where
  unknown_master sentinel_failed wrong_length empty_address placeholder : ResolveError
  invalid_port no_such_host unresolved : ResolveError
  role_failed empty_role role_not_text wrong_role : ResolveError

pub data Answer {ℓ} (A : Type ℓ) : Type ℓ where
  found : A → Answer A
  failed : ResolveError → Answer A
