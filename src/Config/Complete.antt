-- ===== src/Config/Complete.antt =====
-- pkg/config/config.go: what holds of the settings that `Load` returns.
mod Sides
use redis_sentinel_proxy.Base.{
  ◌*◌, Bool, true, false, not, ◌||◌, ◌&&◌, ◌⊎◌, inl, inr, [], ◌∷◌, Option, none, some, Bytes,
  bytes_eq, codes, if◌then◌else◌, ◌≡◌, refl, sym, ap, subst, ◌∙◌, Bool-cases,
}
use redis_sentinel_proxy.Base.Results.{
  Try, caught, value, ◌>>=◌, ◌>>◌, require, or_error, value_of_bind, value_of_require, value_inj,
}
use redis_sentinel_proxy.Io.Integer.{ℤ, pos}
use redis_sentinel_proxy.Config.{
  Config, BackendTls, TlsConfig, fill, default, merge, merge_sentinel_tls, merge_listen_tls,
  merge_master_tls, replica_fallback_master, replica_fallback_reject, str_set, bool_set,
}
use redis_sentinel_proxy.Config.Tls.{
  Files, ConfigError, nil_pointer, bad_replica_fallback, router_with_passthrough,
  passthrough_and_tls, Checked, deref, any_option, backend_tls_config, sentinel_tls_config,
  listen_tls_config, master_tls_config,
}
use redis_sentinel_proxy.Config.Load.{
  passes_through, check_replica_fallback, check_router, settle, with_tls, finish_load,
}
use Sides.{SidesOf, master_tls_config-SidesOf}

abbrev pub Given {ℓ} : {A : Type ℓ} → Option A → Type ℓ
Given {A = A} o = (x : A) × (o ≡ some x)

abbrev pub KnownFallback : Bytes → Type 0
KnownFallback w = (bytes_eq w replica_fallback_master || bytes_eq w replica_fallback_reject) ≡ true

-- The replica endpoint is off, with no fallback, or it is on and its fallback is one of the two.
abbrev pub ReplicaEndpoint : Config → Type 0
ReplicaEndpoint c =
    ((c.replica_listen ≡ none) × (c.replica_fallback ≡ none))
    ⊎ ((str_set c.replica_listen ≡ true)
        × (w : Bytes) × (c.replica_fallback ≡ some w)
        × KnownFallback w)

-- What the rest of the program relies on: there is an endpoint, the settings that it reads through
-- pointers are there, a routed connection is never passed through, and a connection that is passed
-- through is not wrapped in TLS, while any other has the settings of its probe or none.
pub record Complete (c : Config) : Type 0 where
  pub listens : (str_set c.listen || str_set c.replica_listen) ≡ true
  pub replica_endpoint : ReplicaEndpoint c
  pub sentinel : Given c.sentinel
  pub master : Given c.master
  pub resolve_retries : Given c.resolve_retries
  pub max_connections : Given c.max_connections
  pub idle_timeout : Given c.idle_timeout
  pub debug : Given c.debug
  pub router : (on : Bool) × (c.router ≡ some on) × ((on && passes_through c.master_tls) ≡ false)
  pub untouched : (passes_through c.master_tls ≡ false) ⊎ (c.tls.master_dial ≡ none)
  pub same_tls : (c.tls.master_dial ≡ none) ⊎ (c.tls.master_dial ≡ c.tls.master_probe)

pub fill-Given {ℓ} : {A : Type ℓ} (x : Option A) (d : A) → Given (fill x (some d))
fill-Given none d = (d, refl)
fill-Given (some x) d = (x, refl)

-- What `settle` makes of the endpoints.
abbrev Endpoints : Config → Type 0
Endpoints c = ((str_set c.listen || str_set c.replica_listen) ≡ true) × ReplicaEndpoint c

settled :
    (c : Config) (l r w : Bytes)
    → KnownFallback w
    → Endpoints
        (settle (record c { listen = some l; replica_listen = some r; replica_fallback = some w }))
unfolding settle
settled c [] [] w known = (refl, inl (refl, refl))
settled c (a ∷ l) [] w known = (refl, inl (refl, refl))
settled c [] (b ∷ r) w known = (refl, inr (refl, w, refl, known))
settled c (a ∷ l) (b ∷ r) w known = (refl, inr (refl, w, refl, known))

settle-Endpoints :
    (c : Config) (l r w : Bytes)
    → c.listen ≡ some l
    → c.replica_listen ≡ some r
    → c.replica_fallback ≡ some w
    → KnownFallback w
    → Endpoints (settle c)
settle-Endpoints c l r w el er ew known =
    subst (λ x. Endpoints (settle x))
      (sym (λ i. record c { listen = el i; replica_listen = er i; replica_fallback = ew i }))
      (settled c l r w known)

not-true : (b : Bool) → not b ≡ true → b ≡ false
not-true true h = cc
not-true false h = refl

module _ (files : Files) where
  -- The settings that `finish_load` is given: the defaults have filled in what it reads.
  pub record Filled (c : Config) : Type 0 where
    pub listen : Given c.listen
    pub replica_listen : Given c.replica_listen
    pub sentinel : Given c.sentinel
    pub master : Given c.master
    pub resolve_retries : Given c.resolve_retries
    pub max_connections : Given c.max_connections
    pub idle_timeout : Given c.idle_timeout
    pub debug : Given c.debug

  pub merge-Filled : (c : Config) → Filled (merge c default)
  unfolding merge
  merge-Filled c = record {
    listen = fill-Given c.listen (codes "");
    replica_listen = fill-Given c.replica_listen (codes "");
    sentinel = fill-Given c.sentinel (codes ":26379");
    master = fill-Given c.master (codes "mymaster");
    resolve_retries = fill-Given c.resolve_retries (pos 3);
    max_connections = fill-Given c.max_connections (pos 100);
    idle_timeout = fill-Given c.idle_timeout (pos (30 * 1000000000));
    debug = fill-Given c.debug false;
  }

  known_fallback :
      (c : Config) (u : Unit {0})
      → check_replica_fallback c ≡ value u
      → (w : Bytes) × (c.replica_fallback ≡ some w) × KnownFallback w
  unfolding check_replica_fallback
  known_fallback c u h = given_fallback c.replica_fallback refl h
    where
      given_fallback :
          (o : Option Bytes)
          → c.replica_fallback ≡ o
          → (deref o >>= (λ w.
              require
                (bytes_eq w replica_fallback_master || bytes_eq w replica_fallback_reject)
                bad_replica_fallback))
            ≡ value u
          → (w : Bytes) × (c.replica_fallback ≡ some w) × KnownFallback w
      given_fallback none e k = cc
      given_fallback (some w) e k = (w, e, value_of_require _ _ k)

  routable :
      (c : Config) (u : Unit {0})
      → check_router c ≡ value u
      → (on : Bool) × (c.router ≡ some on) × ((on && passes_through c.master_tls) ≡ false)
  unfolding check_router
  routable c u h = given_router c.router refl h
    where
      given_router :
          (o : Option Bool)
          → c.router ≡ o
          → (deref o
              >>= (λ on. require (not (on && passes_through c.master_tls)) router_with_passthrough))
            ≡ value u
          → (on : Bool) × (c.router ≡ some on) × ((on && passes_through c.master_tls) ≡ false)
      given_router none e k = cc
      given_router (some on) e k = (on, e, not-true _ (value_of_require _ _ k))

  with_tls-Complete :
      (c : Config) (sentinel_side listen_side : Option TlsConfig)
      (sides : Option TlsConfig × Option TlsConfig)
      → Filled c
      → (w : Bytes) × (c.replica_fallback ≡ some w) × KnownFallback w
      → (on : Bool) × (c.router ≡ some on) × ((on && passes_through c.master_tls) ≡ false)
      → SidesOf c.master_tls sides
      → Complete (with_tls sentinel_side listen_side sides c)
  unfolding with_tls settle SidesOf
  with_tls-Complete c sentinel_side listen_side sides f (w, ew, known) router (untouched, same) =
      let (listens, replica) =
        settle-Endpoints c f.listen.0 f.replica_listen.0 w f.listen.1 f.replica_listen.1 ew known in
      record {
        listens = listens;
        replica_endpoint = replica;
        sentinel = f.sentinel;
        master = f.master;
        resolve_retries = f.resolve_retries;
        max_connections = f.max_connections;
        idle_timeout = f.idle_timeout;
        debug = f.debug;
        router = router;
        untouched = untouched;
        same_tls = same;
      }

  pub finish_load-Complete :
      (load_file : Bytes → Option Config) (c d : Config)
      → Filled c
      → finish_load files load_file c ≡ value d
      → Complete d
  unfolding finish_load
  finish_load-Complete load_file c d f h =
      let (u1, e1, h1) = value_of_bind (check_replica_fallback c) _ h in
      let (u2, e2, h2) = value_of_bind (check_router c) _ h1 in
      let (sentinel_side, _, h3) = value_of_bind (sentinel_tls_config files c.sentinel_tls) _ h2 in
      let (listen_side, _, h4) = value_of_bind (listen_tls_config files c.listen_tls) _ h3 in
      let (sides, e5, h5) = value_of_bind (master_tls_config files c.master_tls) _ h4 in
      subst Complete (value_inj h5) (
        with_tls-Complete c sentinel_side listen_side sides f (known_fallback c u1 e1)
          (routable c u2 e2) (master_tls_config-SidesOf files c.master_tls sides e5))
