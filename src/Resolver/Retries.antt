-- ===== src/Resolver/Retries.antt =====
-- pkg/master_resolver/master_resolver.go: how the loops spend their retries.
use redis_sentinel_proxy.Base.{
  ℕ, suc, ◌-◌, ◌≤◌, ◌≡◌, ◌⊎◌, inl, inr, refl, Bool, true, Bool-cases, List, [], ◌∷◌, Option, none,
  some, Bytes, arith,
}
use redis_sentinel_proxy.Io.Integer.{ℤ, pos, negsuc}
use redis_sentinel_proxy.Resolver.Network.{Network, ResolveError}
use redis_sentinel_proxy.Resolver.PtrCache.{second}
use redis_sentinel_proxy.Resolver.Backoff.{resolve_failure_backoff_cap, backoff_bounds}
use redis_sentinel_proxy.Resolver.Addresses.{Resolver, update_master_address}
use redis_sentinel_proxy.Resolver.Loops.{
  Wake, elapsed, cancelled, Status, starting, ticking, sleeping, returned, Loop, within,
  sentinel_not_ready_backoff, is_not_ready, enter, after_initial, after_update, try_initial,
  try_update, wake, wake_all, update_master_address_loop,
}

-- What the loops keep to: a wait is between one second and thirty; the count of an attempt to come
-- is within the retries, and at most one more behind a failed update. While the initial resolve
-- goes on, a count of 0 is that of errors that do not count.
pub WithinBudget : ℤ → Status → Type 0
WithinBudget retries (starting d count e) =
    (second ≤ d) × (d ≤ resolve_failure_backoff_cap) × ((count ≡ 0) ⊎ (within count retries ≡ true))
WithinBudget retries (ticking count e) = within count retries ≡ true
WithinBudget retries (sleeping d count e) =
    (second ≤ d) × (d ≤ resolve_failure_backoff_cap) × (within (count - 1) retries ≡ true)
WithinBudget retries (returned e) = Unit

within_less : (n k : ℕ) (z : ℤ) → k ≤ n → within n z ≡ true → within k z ≡ true
within_less n k (pos m) le h = ground arith
within_less n k (negsuc m) le h = ground arith

enter-WithinBudget :
    (retries : ℤ) (count : ℕ) (e : Option ResolveError)
    → WithinBudget retries (enter retries count e)
unfolding enter WithinBudget
enter-WithinBudget retries count e = elim (Bool-cases (within count retries)) [
  | inl h ↦ rw h h
  | inr h ↦ rw h tt
]

not_ready_wait :
    (second ≤ sentinel_not_ready_backoff)
    × (sentinel_not_ready_backoff ≤ resolve_failure_backoff_cap)
not_ready_wait = omega arith

after_initial-WithinBudget :
    (retries : ℤ) (count : ℕ) (e : Option ResolveError)
    → (count ≡ 0) ⊎ (within count retries ≡ true)
    → WithinBudget retries (after_initial retries count e)
unfolding after_initial WithinBudget
after_initial-WithinBudget retries count none h = enter-WithinBudget retries 0 none
after_initial-WithinBudget retries count (some x) h = elim (Bool-cases (is_not_ready x)) [
  | inl r ↦ rw r (not_ready_wait.0, not_ready_wait.1, h)
  | inr r ↦ elim (Bool-cases (within (suc count) retries)) [
    | inl b ↦
        rw (r, b)
          ((backoff_bounds (pos (suc count))).0, (backoff_bounds (pos (suc count))).1, inr b)
    | inr b ↦ rw (r, b) tt
  ]
]

after_update-WithinBudget :
    (retries : ℤ) (count : ℕ) (e : Option ResolveError)
    → within count retries ≡ true
    → WithinBudget retries (after_update retries count e)
unfolding after_update WithinBudget
after_update-WithinBudget retries count none h = enter-WithinBudget retries 0 none
after_update-WithinBudget retries count (some x) h = elim (Bool-cases (is_not_ready x)) [
  | inl r ↦
      rw r
        (not_ready_wait.0, not_ready_wait.1, within_less count (count - 1) retries (omega arith) h)
  | inr r ↦ rw r (
    (backoff_bounds (pos (suc count))).0,
    (backoff_bounds (pos (suc count))).1,
    within_less count (suc count - 1) retries (omega arith) h,
  )
]

module _ (retries : ℤ) (parse_ip : Bytes → Option Bool) {W : Type 0} (net : Network W) where
  try_initial-WithinBudget :
      (count : ℕ) (s : Resolver) (w : W)
      → (count ≡ 0) ⊎ (within count retries ≡ true)
      → WithinBudget retries (try_initial retries parse_ip net count s w).status
  unfolding try_initial
  try_initial-WithinBudget count s w h =
      after_initial-WithinBudget retries count (update_master_address parse_ip net s w).0 h

  wake-WithinBudget :
      (k : Wake) (l : Loop W) (at : Status)
      → l.status ≡ at
      → WithinBudget retries at
      → WithinBudget retries (wake retries parse_ip net k l).status
  unfolding wake WithinBudget try_update
  wake-WithinBudget elapsed l (starting d count e) p (_, _, h) =
      rw (p, wake) (try_initial-WithinBudget count l.resolver l.world h)
  wake-WithinBudget elapsed l (ticking count e) p h =
      rw (p, wake)
        (after_update-WithinBudget retries count
          (update_master_address parse_ip net l.resolver l.world).0 h)
  wake-WithinBudget elapsed l (sleeping d count e) p h =
      rw (p, wake) (enter-WithinBudget retries count (some e))
  wake-WithinBudget elapsed l (returned e) p h = rw (p, wake) (rw p tt)
  wake-WithinBudget cancelled l (starting d count e) p h = rw (p, wake) tt
  wake-WithinBudget cancelled l (ticking count e) p h = rw (p, wake) tt
  wake-WithinBudget cancelled l (sleeping d count e) p h = rw (p, wake) tt
  wake-WithinBudget cancelled l (returned e) p h = rw (p, wake) (rw p tt)

  wake_all-WithinBudget :
      (ks : List Wake) (l : Loop W)
      → WithinBudget retries l.status
      → WithinBudget retries (wake_all retries parse_ip net ks l).status
  unfolding wake_all
  wake_all-WithinBudget [] l h = h
  wake_all-WithinBudget (k ∷ ks) l h =
      wake_all-WithinBudget ks (wake retries parse_ip net k l)
        (wake-WithinBudget k l l.status refl h)

  -- Whatever the outside answers, and whenever the context ends: every wait behind a failed resolve is
  -- between one second and thirty; while the initial resolve goes on, the error count is 0 or within
  -- the retries; at the ticker it is within the retries; and behind a failed update it is at most one
  -- more than a count within the retries.
  pub loop-WithinBudget :
      (ks : List Wake) (s : Resolver) (w : W)
      → WithinBudget retries (update_master_address_loop retries parse_ip net ks s w).status
  unfolding update_master_address_loop
  loop-WithinBudget ks s w =
      wake_all-WithinBudget ks (try_initial retries parse_ip net 0 s w)
        (try_initial-WithinBudget 0 s w (inl refl))
