-- ===== src/Resolver/Loops.antt =====
-- pkg/master_resolver/master_resolver.go: `UpdateMasterAddressLoop` with
-- `initialMasterAddressResolve`, as a machine that sleeps, and that a wake-up moves on.
--
-- A wake-up is the timer that it sleeps on, or the end of the context. Everything between two sleeps
-- is one step. The error count is an int that starts at 0 and cannot overflow: it is at most one more
-- than the number of retries when the loops test it.
use redis_sentinel_proxy.Base.{
  ℕ, suc, ◌*◌, Bool, true, false, List, [], ◌∷◌, Option, none, some, Bytes, leb, if◌then◌else◌,
}
use redis_sentinel_proxy.Io.Integer.{ℤ, pos, negsuc}
use redis_sentinel_proxy.Resolver.Network.{Network, ResolveError, placeholder, no_such_host}
use redis_sentinel_proxy.Resolver.PtrCache.{second}
use redis_sentinel_proxy.Resolver.Backoff.{resolve_failure_backoff}
use redis_sentinel_proxy.Resolver.Addresses.{Resolver, update_master_address}

pub data Wake : Type 0 where
  elapsed cancelled : Wake

-- Where the loops stand: asleep between two attempts of the initial resolve, at the ticker, asleep
-- after a failed update, or returned. Each has the error count and the last error.
pub data Status : Type 0 where
  starting : ℕ → ℕ → ResolveError → Status
  ticking : ℕ → Option ResolveError → Status
  sleeping : ℕ → ℕ → ResolveError → Status
  returned : Option ResolveError → Status

pub record Loop (W : Type 0) : Type 0 where
  pub status : Status
  pub resolver : Resolver
  pub world : W

abbrev pub sentinel_not_ready_backoff : ℕ
sentinel_not_ready_backoff = 10 * second

-- `errors.Is(err, errSentinelNotReady)`
unfoldable pub is_not_ready : ResolveError → Bool
is_not_ready placeholder = true
is_not_ready no_such_host = true
is_not_ready _ = false

-- `errCount <= retries`
abbrev pub within : ℕ → ℤ → Bool
within n (pos m) = leb n m
within n (negsuc _) = false

-- The head of the `for` of `UpdateMasterAddressLoop`.
unfoldable pub enter : ℤ → ℕ → Option ResolveError → Status
enter retries count e = if within count retries then ticking count e else returned e

-- What the initial resolve does behind an attempt.
unfoldable pub after_initial : ℤ → ℕ → Option ResolveError → Status
unfolding enter is_not_ready resolve_failure_backoff
after_initial retries count none = enter retries 0 none
after_initial retries count (some e) =
    if is_not_ready e
    then starting sentinel_not_ready_backoff count e
    else if within (suc count) retries
    then starting (resolve_failure_backoff (pos (suc count))) (suc count) e
    else returned (some e)

-- What the update loop does behind an attempt.
unfoldable pub after_update : ℤ → ℕ → Option ResolveError → Status
unfolding enter is_not_ready resolve_failure_backoff
after_update retries count none = enter retries 0 none
after_update retries count (some e) =
    if is_not_ready e
    then sleeping sentinel_not_ready_backoff count e
    else sleeping (resolve_failure_backoff (pos (suc count))) (suc count) e

-- `defer close(r.initialMasterResolveLock)`: done when the initial resolve is over.
abbrev is_ready : Status → Bool
is_ready (starting _ _ _) = false
is_ready _ = true

module _ (retries : ℤ) (parse_ip : Bytes → Option Bool) {W : Type 0} (net : Network W) where
  unfoldable pub try_initial : ℕ → Resolver → W → Loop W
  unfolding after_initial update_master_address
  try_initial count s w =
      let (e, s1, w1) = update_master_address parse_ip net s w in
      let next = after_initial retries count e in
      record { status = next; resolver = record s1 { ready = is_ready next }; world = w1 }

  unfoldable pub try_update : ℕ → Resolver → W → Loop W
  unfolding after_update update_master_address
  try_update count s w =
      let (e, s1, w1) = update_master_address parse_ip net s w in
      record { status = after_update retries count e; resolver = s1; world = w1 }

  unfoldable pub wake : Wake → Loop W → Loop W
  unfolding enter
  wake elapsed l = elim l.status [
    | starting d count e ↦ try_initial count l.resolver l.world
    | ticking count e ↦ try_update count l.resolver l.world
    | sleeping d count e ↦ record l { status = enter retries count (some e) }
    | returned e ↦ l
  ]
  wake cancelled l = elim l.status [
    | starting d count e ↦ record l {
      status = returned (some e);
      resolver = record l.resolver { ready = true };
    }
    | ticking count e ↦ record l { status = returned none }
    | sleeping d count e ↦ record l { status = returned none }
    | returned e ↦ l
  ]

  unfoldable pub wake_all : List Wake → Loop W → Loop W
  wake_all [] l = l
  wake_all (k ∷ ks) l = wake_all ks (wake k l)

  -- `UpdateMasterAddressLoop`, after the wake-ups `ks`.
  unfoldable pub update_master_address_loop : List Wake → Resolver → W → Loop W
  unfolding wake_all wake try_initial try_update
  update_master_address_loop ks s w = wake_all ks (try_initial 0 s w)
