-- ===== src/Resolver/PtrCache.antt =====
-- pkg/master_resolver/ptr_cache.go: names of addresses by reverse DNS, kept for a minute.
use redis_sentinel_proxy.Base.{
  ℕ, ◌-◌, ◌*◌, Bool, true, false, ◌&&◌, ◌||◌, List, [], ◌∷◌, ◌++◌, Option, none, some, map, Bytes,
  codes, bytes_eq, ltb, ◌==◌, if◌then◌else◌,
}
use redis_sentinel_proxy.Resolver.Network.{Network}

pub record PtrEntry : Type 0 where
  pub name : Bytes
  pub when : ℕ

-- A Go map: the entry written last stands first.
abbrev pub PtrCache : Type 0
PtrCache = List (Bytes × PtrEntry)

unfoldable pub lookup {ℓ} : {V : Type ℓ} → Bytes → List (Bytes × V) → Option V
lookup key [] = none
lookup key ((k, v) ∷ rest) = let later = lookup key rest in if bytes_eq key k then some v else later

abbrev pub second : ℕ
second = 1000000000

abbrev pub ptr_cache_ttl : ℕ
ptr_cache_ttl = 60 * second

-- `strings.HasPrefix(s, prefix)`
unfoldable pub has_prefix : Bytes → Bytes → Bool
has_prefix s [] = true
has_prefix [] (p ∷ prefix) = false
has_prefix (c ∷ s) (p ∷ prefix) = c == p && has_prefix s prefix

-- `strings.TrimSuffix(name, ".")`
unfoldable pub trim_dot : Bytes → Bytes
trim_dot [] = []
trim_dot (c ∷ []) = if c == b'.' then [] else c ∷ []
trim_dot (c ∷ d ∷ s) = c ∷ trim_dot (d ∷ s)

abbrev dash : ℕ → ℕ
dash c = if c == b'.' || c == b':' then b'-' else c

abbrev pub dashed : Bytes → Bytes
dashed ip = map dash ip ++ codes "."

abbrev or_else : Bytes → Bytes → Bytes
or_else [] name = name
or_else (c ∷ s) name = c ∷ s

-- The loop of `pickPTRName`, with `best` as it is before the round.
unfoldable pub pick_from : Bytes → Bytes → List Bytes → Bytes
pick_from prefix best [] = best
pick_from prefix best (name ∷ names) =
    let later = pick_from prefix (or_else best (trim_dot name)) names in
    if has_prefix (trim_dot name) prefix then later else trim_dot name

unfoldable pub pick_ptr_name : Bytes → List Bytes → Bytes
unfolding pick_from
pick_ptr_name ip names = pick_from (dashed ip) [] names

-- An entry that is still good at `now`.
unfoldable pub fresh : ℕ → Option PtrEntry → Option Bytes
fresh now none = none
fresh now (some e) = if ltb (now - e.when) ptr_cache_ttl then some e.name else none

abbrev pub name_of_answer : Bytes → Option (List Bytes) → Bytes
name_of_answer ip none = []
name_of_answer ip (some names) = pick_ptr_name ip names

module _ {W : Type 0} (net : Network W) where
  -- `Lookup` behind the test of the cache.
  unfoldable pub ask : Bytes → PtrCache → W → Bytes × PtrCache × W
  ask ip cache w =
      let (names, w1) = net.lookup_addr ip w in
      let (now, w2) = net.clock w1 in
      (
        name_of_answer ip names,
        (ip, record { name = name_of_answer ip names; when = now }) ∷ cache,
        w2,
      )

  -- `Lookup`
  unfoldable pub lookup_name : Bytes → PtrCache → W → Bytes × PtrCache × W
  unfolding ask
  lookup_name ip cache w =
      let (now, w1) = net.clock w in
      elim (fresh now (lookup ip cache)) [ none ↦ ask ip cache w1 | some name ↦ (name, cache, w1) ]
