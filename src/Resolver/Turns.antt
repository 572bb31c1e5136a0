-- ===== src/Resolver/Turns.antt =====
-- pkg/master_resolver/master_resolver.go: `ReplicaAddress` takes the replicas in turn.
use native.Mathlib.Nat.{
  mul-suc, add-mod-mod, div-add-mod, mod-lt, mod-eq_of_lt, add-mul-mod_self_left,
}
use redis_sentinel_proxy.Base.{
  ℕ, zero, suc, ◌+◌, ◌-◌, ◌*◌, ◌/◌, ◌%◌, ◌^◌, ◌<◌, List, [], ◌∷◌, Option, some, Bytes, length, ◌≡◌,
  refl, sym, ap, ap₂, subst, ◌∙◌, arith,
}
use redis_sentinel_proxy.Resolver.Addresses.{Resolver, get_elem?, replica_address}

-- `k` calls of `ReplicaAddress`, in a row.
unfoldable pub calls : ℕ → Resolver → Resolver
calls zero s = s
calls (suc k) s = calls k (replica_address s).1

-- The index that a call uses is the counter before it.
wrapped : (n : ℕ) → n < 2 ^ 64 → ((n + 1) % 2 ^ 64 + (2 ^ 64 - 1)) % 2 ^ 64 ≡ n
wrapped n h = omega arith

pub get_elem?_inside {ℓ} :
    {A : Type ℓ} (xs : List A) (i : ℕ) → i < length xs → (x : A) × (get_elem? xs i ≡ some x)
unfolding get_elem?
get_elem?_inside [] i h = ground arith
get_elem?_inside (x ∷ xs) zero h = (x, refl)
get_elem?_inside (x ∷ xs) (suc i) h = get_elem?_inside xs i (omega (arith, h))

inside-get_elem? {ℓ} :
    {A : Type ℓ} (xs : List A) (i : ℕ) (x : A) → get_elem? xs i ≡ some x → i < length xs
unfolding get_elem?
inside-get_elem? [] i x h = cc
inside-get_elem? (y ∷ xs) zero x h = omega arith
inside-get_elem? (y ∷ xs) (suc i) x h = omega (arith, inside-get_elem? xs i x h)

one_call_of :
    (s : Resolver) (addrs : List Bytes)
    → s.replica_addrs ≡ addrs
    → 0 < length addrs
    → s.replica_idx < 2 ^ 64
    → (◌≡◌ {A = Option (Option Bytes)}
        (replica_address s).0
        (some (get_elem? addrs (s.replica_idx % length addrs))))
      × ((replica_address s).1.replica_addrs ≡ s.replica_addrs)
      × ((replica_address s).1.replica_idx ≡ (s.replica_idx + 1) % 2 ^ 64)
unfolding replica_address
one_call_of s [] e some_replica h = ground arith
one_call_of s (x ∷ xs) e some_replica h =
    rw (e, replica_address)
      (ap (λ n. some (get_elem? (x ∷ xs) (n % suc (length xs)))) (wrapped s.replica_idx h), e, refl)

-- A call, where the counter has not wrapped and there is a replica.
one_call :
    (s : Resolver)
    → 0 < length s.replica_addrs
    → s.replica_idx < 2 ^ 64
    → (◌≡◌ {A = Option (Option Bytes)}
        (replica_address s).0
        (some (get_elem? s.replica_addrs (s.replica_idx % length s.replica_addrs))))
      × ((replica_address s).1.replica_addrs ≡ s.replica_addrs)
      × ((replica_address s).1.replica_idx ≡ (s.replica_idx + 1) % 2 ^ 64)
one_call s some_replica h = one_call_of s s.replica_addrs refl some_replica h

calls_lem :
    (k : ℕ) (s : Resolver)
    → 0 < length s.replica_addrs
    → s.replica_idx + k < 2 ^ 64
    → ((calls k s).replica_addrs ≡ s.replica_addrs) × ((calls k s).replica_idx ≡ s.replica_idx + k)
unfolding calls
calls_lem zero s some_replica h = (refl, omega arith)
calls_lem (suc k) s some_replica h =
    let (_, a, b) = one_call s some_replica (omega arith) in
    let (c, d) =
      calls_lem k (replica_address s).1 (subst (λ xs. 0 < length xs) (sym a) some_replica)
        (omega (arith, b, h)) in
    (c ∙ a, d ∙ omega (arith, b, h))

ahead_by : (idx i n p q r : ℕ) → p + q ≡ idx → q < n → r ≡ p + n → idx + (i + n - q) ≡ i + r
ahead_by idx i n p q r e h f = omega arith

-- How far ahead of a counter at `q` the index `i` comes.
ahead : (idx i n t q : ℕ) → n * t + q ≡ idx → q < n → idx + (i + n - q) ≡ i + n * suc t
ahead idx i n t q e h = ahead_by idx i n (n * t) q (n * suc t) e h (mul-suc n t)

reached : (idx i n : ℕ) → i < n → (idx + (i + n - idx % n) % n) % n ≡ i
reached idx i n h =
    add-mod-mod idx (i + n - idx % n) n
    ∙ ap (λ x. x % n)
        (ahead idx i n (idx / n) (idx % n) (div-add-mod idx n) (mod-lt idx (omega arith)))
    ∙ add-mul-mod_self_left i n (suc (idx / n))
    ∙ mod-eq_of_lt h

nth_call :
    (s : Resolver) (i : ℕ) (addr : Bytes) (k : ℕ)
    → s.replica_idx + length s.replica_addrs < 2 ^ 64
    → i < length s.replica_addrs
    → get_elem? s.replica_addrs i ≡ some addr
    → k < length s.replica_addrs
    → (s.replica_idx + k) % length s.replica_addrs ≡ i
    → ◌≡◌ {A = Option (Option Bytes)} (replica_address (calls k s)).0 (some (some addr))
nth_call s i addr k h inside e fewer at =
    let (a, b) = calls_lem k s (omega (arith, inside)) (omega (arith, h, fewer)) in
    let (answer, _, _) =
      one_call (calls k s) (subst (λ xs. 0 < length xs) (sym a) (omega (arith, inside)))
        (omega (arith, b, h, fewer)) in
    answer
    ∙ ap some
        (ap₂ (λ xs n. get_elem? xs (n % length xs)) a b ∙ ap (get_elem? s.replica_addrs) at ∙ e)

-- The replicas are served in turn: while the 64-bit counter does not wrap, each of the `n` replicas
-- is the answer to one of the next `n` calls of `ReplicaAddress`.
pub replica_address-in_turn :
    (s : Resolver) (i : ℕ) (addr : Bytes)
    → s.replica_idx + length s.replica_addrs < 2 ^ 64
    → get_elem? s.replica_addrs i ≡ some addr
    → (k : ℕ) × (k < length s.replica_addrs)
      × (◌≡◌ {A = Option (Option Bytes)} (replica_address (calls k s)).0 (some (some addr)))
replica_address-in_turn s i addr h e =
    let n = length s.replica_addrs in
    let k = (i + n - s.replica_idx % n) % n in
    let inside = inside-get_elem? s.replica_addrs i addr e in
    let fewer = mod-lt (i + n - s.replica_idx % n) {m = n} (omega (arith, inside)) in
    (k, fewer, nth_call s i addr k h inside e fewer (reached s.replica_idx i n inside))
