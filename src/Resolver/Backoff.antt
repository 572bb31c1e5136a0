-- ===== src/Resolver/Backoff.antt =====
-- pkg/master_resolver/master_resolver.go: `ResolveFailureBackoff`.
use redis_sentinel_proxy.Base.{
  ℕ, zero, suc, ◌-◌, ◌*◌, ◌%◌, ◌^◌, ◌≤◌, ◌<◌, ltb, if◌then◌else◌, ◌≡◌, refl, sym, ◌∙◌, arith,
}
use redis_sentinel_proxy.Io.Integer.{ℤ, pos, negsuc}
use redis_sentinel_proxy.Resolver.PtrCache.{second}

abbrev pub resolve_failure_backoff_cap : ℕ
resolve_failure_backoff_cap = 30 * second

abbrev pub min_duration : ℕ → ℕ → ℕ
min_duration a b = if ltb b a then b else a

-- In nanoseconds. The shift is one of an int64, of at most four places.
unfoldable pub resolve_failure_backoff : ℤ → ℕ
resolve_failure_backoff (negsuc n) = second
resolve_failure_backoff (pos n) =
    if ltb n 1
    then second
    else if ltb 5 n
    then resolve_failure_backoff_cap
    else min_duration ((second * 2 ^ (n - 1)) % 2 ^ 64) resolve_failure_backoff_cap

at_least_one : (n : ℕ) → 1 ≤ 2 ^ n
at_least_one zero = omega arith
at_least_one (suc n) = omega (arith, at_least_one n)

passed_cap :
    (m p : ℕ)
    → 1 ≤ m
    → p ≡ 32 * m
    → min_duration (second * p) resolve_failure_backoff_cap ≡ resolve_failure_backoff_cap
passed_cap m p h e = ground arith

capped :
    (n : ℕ)
    → min_duration (second * 2 ^ suc (suc (suc (suc (suc n))))) resolve_failure_backoff_cap
      ≡ resolve_failure_backoff_cap
capped n = passed_cap (2 ^ n) _ (at_least_one n) (omega arith)

long_wait : (m : ℕ) → 5 < m → resolve_failure_backoff (pos m) ≡ resolve_failure_backoff_cap
unfolding resolve_failure_backoff
long_wait m h = ground arith

between : (d : ℕ) → d ≡ second → (second ≤ d) × (d ≤ resolve_failure_backoff_cap)
between d e = ground arith

between_capped :
    (d m : ℕ)
    → 1 ≤ m
    → d ≡ min_duration (second * m) resolve_failure_backoff_cap
    → (second ≤ d) × (d ≤ resolve_failure_backoff_cap)
between_capped d m h e = ground arith

-- The wait after the first failure is one second and doubles with each further one, but never passes
-- thirty seconds; a count below one gives one second.
pub resolve_failure_backoff_lem :
    (n : ℕ)
    → (resolve_failure_backoff (pos (suc n))
        ≡ min_duration (second * 2 ^ n) resolve_failure_backoff_cap)
      × (resolve_failure_backoff (negsuc n) ≡ second)
      × (resolve_failure_backoff (pos 0) ≡ second)
unfolding resolve_failure_backoff
resolve_failure_backoff_lem zero = (refl, refl, refl)
resolve_failure_backoff_lem (suc zero) = (refl, refl, refl)
resolve_failure_backoff_lem (suc (suc zero)) = (refl, refl, refl)
resolve_failure_backoff_lem (suc (suc (suc zero))) = (refl, refl, refl)
resolve_failure_backoff_lem (suc (suc (suc (suc zero)))) = (refl, refl, refl)
resolve_failure_backoff_lem (suc (suc (suc (suc (suc n))))) =
    (long_wait (suc (suc (suc (suc (suc (suc n)))))) (omega arith) ∙ sym (capped n), refl, refl)

-- Whatever the count, the wait is between one second and thirty.
pub backoff_bounds :
    (z : ℤ)
    → (second ≤ resolve_failure_backoff z)
      × (resolve_failure_backoff z ≤ resolve_failure_backoff_cap)
backoff_bounds (negsuc n) = between _ (let (_, e, _) = resolve_failure_backoff_lem n in e)
backoff_bounds (pos zero) = between _ (let (_, _, e) = resolve_failure_backoff_lem 0 in e)
backoff_bounds (pos (suc n)) =
    between_capped (resolve_failure_backoff (pos (suc n))) (2 ^ n) (at_least_one n)
      (resolve_failure_backoff_lem n).0
