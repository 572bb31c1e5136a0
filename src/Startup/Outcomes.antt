-- ===== src/Startup/Outcomes.antt =====
-- main.go: how the start of the program can end.
use redis_sentinel_proxy.Base.{
  ◌≡◌, ◌≢◌, refl, ap, ◌∙◌, true, inl, inr, ◌⊎◌, List, Option, some, Bytes,
}
use redis_sentinel_proxy.Base.Results.{Try, caught, value, caught_of_bind, value_inj, past_given}
use redis_sentinel_proxy.Io.Integer.{ℤ}
use redis_sentinel_proxy.Config.{Config}
use redis_sentinel_proxy.Config.Tls.{Files, ConfigError, nil_pointer}
use redis_sentinel_proxy.Config.Flags.{FlagValue, from_flags}
use redis_sentinel_proxy.Config.Load.{load}
use redis_sentinel_proxy.Config.Complete.{Complete}
use redis_sentinel_proxy.Config.Sources.{load-Complete}
use redis_sentinel_proxy.Config.NoPanic.{load-ne-nil_pointer}
use redis_sentinel_proxy.Resolver.New.{
  SetupError, nil_setting as nil_resolver_setting, new_redis_master_resolver,
}
use redis_sentinel_proxy.Proxy.{NewError, new_redis_sentinel_proxy}
use redis_sentinel_proxy.Proxy.Refusals.{Reason, new_redis_sentinel_proxy-Reason}
use redis_sentinel_proxy.Startup.{
  StartError, load_failed, resolver_failed, proxy_failed, stopped_by, run_proxying, start_up,
}

stopped_by_caught {ℓ} :
    {A : Type ℓ} {E : Type 0} (wrap : E → StartError) (t : Try E A) (e : StartError)
    → stopped_by wrap t ≡ caught e
    → (x : E) × (t ≡ caught x) × (e ≡ wrap x)
stopped_by_caught wrap (caught x) e h = (x, refl, cc)
stopped_by_caught wrap (value x) e h = cc

pub stopped_by_value {ℓ} :
    {A : Type ℓ} {E : Type 0} (wrap : E → StartError) (t : Try E A) (x : A)
    → stopped_by wrap t ≡ value x
    → t ≡ value x
stopped_by_value wrap (caught e) x h = cc
stopped_by_value wrap (value y) x h = ap value (value_inj h)

-- Complete settings make a resolver.
new_redis_master_resolver_total :
    (cfg : Config) (e : SetupError) → Complete cfg → new_redis_master_resolver cfg ≢ caught e
unfolding new_redis_master_resolver
new_redis_master_resolver_total cfg e c h =
    let (name, _, h1) = past_given nil_resolver_setting cfg.master _ c.master h in
    let (sentinel, _, h2) = past_given nil_resolver_setting cfg.sentinel _ c.sentinel h1 in
    let (retries, _, h3) =
      past_given nil_resolver_setting cfg.resolve_retries _ c.resolve_retries h2 in
    cc

module _ (resolve : Bytes → Option Bytes) where
  run_proxying_caught :
      (cfg : Config) (e : StartError)
      → Complete cfg
      → run_proxying resolve cfg ≡ caught e
      → (n : NewError) × (e ≡ proxy_failed n) × Reason resolve cfg n
  unfolding run_proxying
  run_proxying_caught cfg e c h =
      elim (caught_of_bind (stopped_by resolver_failed (new_redis_master_resolver cfg)) _ h) [
        | inl k ↦
            let (x, is, _) =
              stopped_by_caught resolver_failed (new_redis_master_resolver cfg) e k in
            elim (new_redis_master_resolver_total cfg x c is) [ ]
        | inr (r, _, h1) ↦
            elim (caught_of_bind
              (stopped_by proxy_failed (new_redis_sentinel_proxy resolve true true cfg)) _ h1) [
                | inl k ↦
                    let (n, is, same) =
                      stopped_by_caught proxy_failed
                        (new_redis_sentinel_proxy resolve true true cfg) e k in
                    (n, same, new_redis_sentinel_proxy-Reason resolve true cfg n c is)
                | inr (p, _, h2) ↦ cc
              ]
      ]

  module _ (files : Files) (load_file : Bytes → Option Config) (parse_duration : Bytes → Option ℤ)
      (env : Bytes → Option Bytes) where
    -- The program never starts with a panic at a nil pointer: where it does not start, either `Load`
    -- reported an error, which is not that of a nil pointer, or the settings were loaded and the proxy was
    -- refused because the address of an endpoint does not resolve or the router has no master endpoint.
    pub start_up-refused :
        (visited : List (Bytes × FlagValue)) (config_file : Bytes) (e : StartError)
        → start_up resolve files load_file parse_duration env visited config_file ≡ caught e
        → ((x : ConfigError) × (e ≡ load_failed x) × (x ≢ nil_pointer))
          ⊎ ((cfg : Config) × (n : NewError) × (load files load_file parse_duration env
                  (some (from_flags visited))
                  config_file
                ≡ value cfg)
              × (e ≡ proxy_failed n)
              × Reason resolve cfg n)
    unfolding start_up
    start_up-refused visited config_file e h =
        let loaded =
          load files load_file parse_duration env (some (from_flags visited)) config_file in
        elim (caught_of_bind (stopped_by load_failed loaded) _ h) [
          | inl k ↦
              let (x, is, same) = stopped_by_caught load_failed loaded e k in
              inl (
                x,
                same,
                λ nil.
                    load-ne-nil_pointer files load_file parse_duration env
                      (some (from_flags visited)) config_file (is ∙ ap caught nil),
              )
          | inr (cfg, k, h1) ↦
              let is = stopped_by_value load_failed loaded cfg k in
              let (n, same, reason) =
                run_proxying_caught cfg e
                  (load-Complete files load_file parse_duration env (some (from_flags visited))
                    config_file cfg is)
                  h1 in
              inr (cfg, n, is, same, reason)
        ]
