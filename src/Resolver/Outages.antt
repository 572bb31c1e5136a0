-- ===== src/Resolver/Outages.antt =====
-- pkg/master_resolver/master_resolver.go: the initial resolve when every resolve fails.
use redis_sentinel_proxy.Base.{
  ltb, lt→ltb, ℕ, zero, suc, ◌+◌, ◌≤◌, ◌≡◌, refl, ap, ◌∙◌, Bool, true, false, List, [], ◌∷◌, Option,
  some, Bytes, if◌then◌else◌, arith,
}
use redis_sentinel_proxy.Io.Integer.{ℤ, pos}
use redis_sentinel_proxy.Resolver.Network.{Network, ResolveError}
use redis_sentinel_proxy.Resolver.Backoff.{resolve_failure_backoff}
use redis_sentinel_proxy.Resolver.Addresses.{Resolver, update_master_address}
use redis_sentinel_proxy.Resolver.Loops.{
  Wake, Status, elapsed, starting, returned, Loop, within, sentinel_not_ready_backoff, is_not_ready,
  after_initial, try_initial, wake, wake_all, update_master_address_loop,
}

-- `n` timers, one after the other.
abbrev pub timers : ℕ → List Wake
timers zero = []
timers (suc n) = elapsed ∷ timers n

over_budget : (m : ℕ) → within (suc m) (pos m) ≡ false
over_budget m = ground arith

under_budget : (n m : ℕ) → n ≤ m → within n (pos m) ≡ true
under_budget n m h = ground arith

after_counted :
    (retries : ℤ) (count : ℕ) (x : ResolveError)
    → is_not_ready x ≡ false
    → after_initial retries count (some x) ≡ (
        if within (suc count) retries
        then starting (resolve_failure_backoff (pos (suc count))) (suc count) x
        else returned (some x))
unfolding after_initial
after_counted retries count x r = rw r refl

after_not_ready :
    (retries : ℤ) (count : ℕ) (x : ResolveError)
    → is_not_ready x ≡ true
    → after_initial retries count (some x) ≡ starting sentinel_not_ready_backoff count x
unfolding after_initial
after_not_ready retries count x r = rw r refl

module _ (parse_ip : Bytes → Option Bool) {W : Type 0} (net : Network W) where
  -- Every resolve fails, by an error that sentinel or the node will get over (`true`), or by one that
  -- counts (`false`).
  abbrev pub Fails : Bool → Type 0
  Fails kind =
      (s : Resolver) (w : W)
      → (x : ResolveError) × ((update_master_address parse_ip net s w).0 ≡ some x)
        × (is_not_ready x ≡ kind)

  try_initial-status :
      (retries : ℤ) (count : ℕ) (s : Resolver) (w : W) (x : ResolveError)
      → (update_master_address parse_ip net s w).0 ≡ some x
      → (try_initial retries parse_ip net count s w).status ≡ after_initial retries count (some x)
  unfolding try_initial
  try_initial-status retries count s w x e = ap (after_initial retries count) e

  wake_starting :
      (retries : ℤ) (l : Loop W) {d count : ℕ} {x : ResolveError}
      → l.status ≡ starting d count x
      → wake retries parse_ip net elapsed l
        ≡ try_initial retries parse_ip net count l.resolver l.world
  unfolding wake
  wake_starting retries l p = rw (p, wake) refl

  -- What the attempt behind `n` timers leaves: a wait for the next one, or the end.
  abbrev pub attempted : ℕ → ℕ → ResolveError → Status
  attempted m n x =
      if ltb n m
      then starting (resolve_failure_backoff (pos (suc n))) (suc n) x
      else returned (some x)

  after_attempt :
      (m n : ℕ) (x : ResolveError)
      → (if within (suc n) (pos m)
          then starting (resolve_failure_backoff (pos (suc n))) (suc n) x
          else returned (some x))
        ≡ attempted m n x
  after_attempt m n x = ground arith

  try_counted :
      (fails : Fails false) (m n : ℕ) (s : Resolver) (w : W)
      → (x : ResolveError) × ((try_initial (pos m) parse_ip net n s w).status ≡ attempted m n x)
  try_counted fails m n s w =
      let (x, e, r) = fails s w in
      (x, try_initial-status (pos m) n s w x e ∙ after_counted (pos m) n x r ∙ after_attempt m n x)

  gives_up :
      (fails : Fails false) (m j n : ℕ) (s : Resolver) (w : W)
      → n + j ≤ m
      → (x : ResolveError) × ((wake_all
            (pos m)
            parse_ip
            net
            (timers j)
            (try_initial (pos m) parse_ip net n s w)).status
          ≡ attempted m (n + j) x)
  unfolding wake_all
  gives_up fails m zero n s w h =
      let (x, e) = try_counted fails m n s w in
      let same : n ≡ n + 0 = omega arith in (x, e ∙ ap (λ k. attempted m k x) same)
  gives_up fails m (suc j) n s w h =
      let (x, e) = try_counted fails m n s w in
      let l = try_initial (pos m) parse_ip net n s w in
      let p =
        e
        ∙ ap
            (λ b.
              if b
              then starting (resolve_failure_backoff (pos (suc n))) (suc n) x
              else returned (some x))
            (lt→ltb n m (omega (arith, h))) in
      let (y, q) = gives_up fails m j (suc n) l.resolver l.world (omega (arith, h)) in
      let same : suc n + j ≡ n + suc j = omega arith in
      (
        y,
        ap (λ k. (wake_all (pos m) parse_ip net (timers j) k).status) (wake_starting (pos m) l p)
            ∙ q
            ∙ ap (λ k. attempted m k y) same,
      )

  waits :
      (fails : Fails true) (retries : ℤ) (j count : ℕ) (s : Resolver) (w : W)
      → (x : ResolveError) × ((wake_all retries parse_ip net
            (timers j)
            (try_initial retries parse_ip net count s w)).status
          ≡ starting sentinel_not_ready_backoff count x)
  unfolding wake_all
  waits fails retries zero count s w =
      let (x, e, r) = fails s w in
      (x, try_initial-status retries count s w x e ∙ after_not_ready retries count x r)
  waits fails retries (suc j) count s w =
      let (x, e, r) = fails s w in
      let l = try_initial retries parse_ip net count s w in
      let p = try_initial-status retries count s w x e ∙ after_not_ready retries count x r in
      let (y, q) = waits fails retries j count l.resolver l.world in
      (
        y,
        ap (λ k. (wake_all retries parse_ip net (timers j) k).status) (wake_starting retries l p)
            ∙ q,
      )

  -- With `m` retries, if every resolve fails by an error that counts: behind each of the first timers,
  -- up to the `m`-th, one more attempt has been made and failed. Before the `m`-th timer the loop waits
  -- for the next attempt, with one error more counted than there were timers and the wait for this
  -- count; behind the `m`-th it has returned the error.
  pub update_master_address_loop-gives_up :
      (fails : Fails false) (m n : ℕ) (s : Resolver) (w : W)
      → n ≤ m
      → (x : ResolveError) × ((update_master_address_loop
            (pos m)
            parse_ip
            net
            (timers n)
            s
            w).status
          ≡ (if ltb n m
              then starting (resolve_failure_backoff (pos (suc n))) (suc n) x
              else returned (some x)))
  unfolding update_master_address_loop
  update_master_address_loop-gives_up fails m n s w h =
      let (x, e) = gives_up fails m n 0 s w (omega (arith, h)) in
      let same : 0 + n ≡ n = omega arith in (x, e ∙ ap (λ k. attempted m k x) same)

  -- If every resolve fails by an error that sentinel or the node will get over, the initial resolve
  -- never gives up, whatever the number of retries: behind any number of timers it waits the ten
  -- seconds for the next attempt, with no error counted.
  pub update_master_address_loop-waits :
      (fails : Fails true) (retries : ℤ) (n : ℕ) (s : Resolver) (w : W)
      → (x : ResolveError) × ((update_master_address_loop retries parse_ip net
            (timers n)
            s
            w).status
          ≡ starting sentinel_not_ready_backoff 0 x)
  unfolding update_master_address_loop
  update_master_address_loop-waits fails retries n s w = waits fails retries n 0 s w
