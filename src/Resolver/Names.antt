-- ===== src/Resolver/Names.antt =====
-- pkg/master_resolver/ptr_cache.go: which names the cache gives.
use redis_sentinel_proxy.Base.{
  some_inj, ℕ, ◌-◌, ◌<◌, ◌≡◌, refl, sym, subst, ◌∙◌, Bool-cases, Option-cases, inl, inr, ◌⊎◌, List,
  [], ◌∷◌, Option, none, some, Bytes, bytes_eq, bytes_eq-true, All, ltb, ltb→lt,
}
use redis_sentinel_proxy.Resolver.Network.{Network}
use redis_sentinel_proxy.Resolver.PtrCache.{
  PtrEntry, PtrCache, lookup, ptr_cache_ttl, fresh, name_of_answer, ask, lookup_name,
}

lookup-All {ℓ κ} :
    {V : Type ℓ} (P : Bytes × V → Type κ) (key : Bytes) (xs : List (Bytes × V)) (v : V)
    → lookup key xs ≡ some v
    → All P xs
    → P (key, v)
unfolding lookup
lookup-All P key [] v h a = cc
lookup-All P key ((k, u) ∷ xs) v h a = elim (Bool-cases (bytes_eq key k)) [
  | inl e ↦
      subst (λ x. P (key, x)) (some_inj (rw (e, lookup) at h))
        (subst (λ x. P (x, u)) (sym (bytes_eq-true key k e)) a.0)
  | inr e ↦ lookup-All P key xs v (rw (e, lookup) at h) a.1
]

fresh-some :
    (now : ℕ) (o : Option PtrEntry) (name : Bytes)
    → fresh now o ≡ some name
    → (e : PtrEntry) × (o ≡ some e) × (e.name ≡ name) × (now - e.when < ptr_cache_ttl)
unfolding fresh
fresh-some now none name h = cc
fresh-some now (some e) name h = elim (Bool-cases (ltb (now - e.when) ptr_cache_ttl)) [
  | inl young ↦
      (e, refl, some_inj (rw (young, fresh) at h), ltb→lt (now - e.when) ptr_cache_ttl young)
  | inr old ↦ cc (rw (old, fresh) at h)
]

module _ {W : Type 0} (net : Network W) where
  -- The entry was made from an answer for its own address, and dated when the answer came.
  abbrev Made : Bytes × PtrEntry → Type 0
  Made (ip, e) =
      (v : W) × (e.name ≡ name_of_answer ip (net.lookup_addr ip v).0)
      × (e.when ≡ (net.clock (net.lookup_addr ip v).1).0)

  -- The cache after lookups, the last one first, each in some state of the outside.
  unfoldable pub after_lookups : List (Bytes × W) → PtrCache
  after_lookups [] = []
  after_lookups ((ip, w) ∷ asked) = (lookup_name net ip (after_lookups asked) w).1

  -- The name is that of an answer for this address: one that has just come, or one that is younger
  -- than the time to live.
  abbrev pub Current : Bytes → W → Bytes → Type 0
  Current ip w name =
      (v : W) × (name ≡ name_of_answer ip (net.lookup_addr ip v).0)
      × ((v ≡ (net.clock w).1)
          ⊎ ((net.clock w).0 - (net.clock (net.lookup_addr ip v).1).0 < ptr_cache_ttl))

  lookup_name-Made :
      (ip : Bytes) (cache : PtrCache) (w : W)
      → All Made cache
      → All Made (lookup_name net ip cache w).1 × Current ip w (lookup_name net ip cache w).0
  unfolding lookup_name ask
  lookup_name-Made ip cache w h = elim (Option-cases (fresh (net.clock w).0 (lookup ip cache))) [
    | inl e ↦
        rw (e, lookup_name) ((((net.clock w).1, refl, refl), h), ((net.clock w).1, refl, inl refl))
    | inr (name, e) ↦
        let (entry, found, named, young) = fresh-some (net.clock w).0 (lookup ip cache) name e in
        let (v, is, dated) = lookup-All Made ip cache entry found h in
        rw (e, lookup_name)
          (
            h,
            (v, sym named ∙ is, inr (subst (λ t. (net.clock w).0 - t < ptr_cache_ttl) dated young)),
          )
  ]

  after_lookups-Made : (asked : List (Bytes × W)) → All Made (after_lookups asked)
  unfolding after_lookups
  after_lookups-Made [] = tt
  after_lookups-Made ((ip, w) ∷ asked) =
      (lookup_name-Made ip (after_lookups asked) w (after_lookups-Made asked)).0

  -- Whatever was looked up before, and whenever: the name that `Lookup` gives for an address is picked from
  -- an answer for this very address, or stands for a failure to get one. The answer has just come, or it
  -- came less than the time to live ago.
  pub lookup_name-Current :
      (asked : List (Bytes × W)) (ip : Bytes) (w : W)
      → Current ip w (lookup_name net ip (after_lookups asked) w).0
  lookup_name-Current asked ip w =
      (lookup_name-Made ip (after_lookups asked) w (after_lookups-Made asked)).1
