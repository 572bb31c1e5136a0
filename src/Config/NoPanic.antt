-- ===== src/Config/NoPanic.antt =====
-- pkg/config: `Load` never follows a nil pointer.
pub mod Steps
use redis_sentinel_proxy.Base.{
  Bool, true, false, not, ◌||◌, ◌&&◌, inl, inr, [], ◌∷◌, Option, none, some, Bytes, codes,
  if◌then◌else◌, ◌≡◌, ◌≢◌, arith, refl, ap, ◌∙◌, Bool-cases,
}
use redis_sentinel_proxy.Base.Results.{
  Try, caught, value, ◌>>=◌, require, or_error, value_of_require,
}
use redis_sentinel_proxy.Io.Integer.{ℤ}
use redis_sentinel_proxy.Config.{
  Config, BackendTls, ListenTls, default, merge, merge_sentinel_tls, merge_master_tls,
  replica_fallback_master, str_set, bool_set, ensure_backend_tls,
}
use redis_sentinel_proxy.Config.Env.{from_env}
use redis_sentinel_proxy.Config.Tls.{
  Files, ConfigError, nil_pointer, bad_ca_file, bad_certificate, unpaired_certificate,
  passthrough_for_sentinel, sentinel_tls_off, listen_tls_off, listen_pair_missing,
  passthrough_and_tls, bad_config_file, bad_replica_fallback, router_with_passthrough, Checked,
  deref, paired, any_option, or_empty, load_cert_pool, optional_pool, key_pair, optional_pair,
  backend_tls_config, sentinel_tls_config, serve_tls_config, listen_tls_config, master_tls_config,
}
use redis_sentinel_proxy.Config.Load.{
  or_empty_config, env_error, check_replica_fallback, check_router, with_file, finish_load, load,
}
use redis_sentinel_proxy.Config.Complete.{Given, fill-Given}
use Steps.{
  is_nil, panics, Safe, Safe-then, Safe-or_error, Safe-sentinel_tls_config, Safe-master_tls_config,
  Safe-listen_tls_config, Safe-check_replica_fallback, Safe-check_router,
}

module _ (files : Files) where
  -- The defaults have filled in what `Load` follows in the TLS settings of a backend.
  FilledTls : Option BackendTls → Type 0
  FilledTls o = (t : BackendTls) × (o ≡ some t) × Given t.server_name × Given t.skip_verify

  merged-FilledTls :
      (c : Config)
      → FilledTls (merge c default).sentinel_tls × FilledTls (merge c default).master_tls
  unfolding merge merge_sentinel_tls merge_master_tls FilledTls
  merged-FilledTls c =
      let s = ensure_backend_tls c.sentinel_tls in
      let m = ensure_backend_tls c.master_tls in
      (
        (_, refl, fill-Given s.server_name (codes ""), fill-Given s.skip_verify false),
        (_, refl, fill-Given m.server_name (codes ""), fill-Given m.skip_verify false),
      )

  Safe-sentinel_side : (o : Option BackendTls) → FilledTls o → Safe (sentinel_tls_config files o)
  unfolding FilledTls
  Safe-sentinel_side o (t, e, name, skip) =
      ap (λ x. panics (sentinel_tls_config files x)) e ∙ Safe-sentinel_tls_config files t name skip

  Safe-master_side : (o : Option BackendTls) → FilledTls o → Safe (master_tls_config files o)
  unfolding FilledTls
  Safe-master_side o (t, e, name, skip) =
      ap (λ x. panics (master_tls_config files x)) e ∙ Safe-master_tls_config files t name skip

  Safe-merged :
      (load_file : Bytes → Option Config) (c : Config)
      → Safe (finish_load files load_file (merge c default))
  unfolding finish_load merge panics
  Safe-merged load_file c =
      let m = merge c default in
      Safe-then (check_replica_fallback m) _
        (Safe-check_replica_fallback files m
          (fill-Given c.replica_fallback replica_fallback_master))
        (λ _.
          Safe-then (check_router m) _ (Safe-check_router files m (fill-Given c.router false)) (λ _.
            Safe-then (sentinel_tls_config files m.sentinel_tls) _
              (Safe-sentinel_side m.sentinel_tls (merged-FilledTls c).0)
              (λ _.
                Safe-then (listen_tls_config files m.listen_tls) _
                  (Safe-listen_tls_config files m.listen_tls)
                  (λ _.
                    Safe-then (master_tls_config files m.master_tls) _
                      (Safe-master_side m.master_tls (merged-FilledTls c).1) (λ _. refl)))))

  Safe-with_file :
      (load_file : Bytes → Option Config) (path : Bytes) (c : Config)
      → Safe (with_file files load_file path c)
  unfolding with_file is_nil panics
  Safe-with_file load_file [] c = refl
  Safe-with_file load_file (b ∷ path) c =
      Safe-then (or_error bad_config_file (load_file (b ∷ path))) _
        (Safe-or_error bad_config_file _ refl) (λ _. refl)

  Safe-env_error {ℓ} : {A : Type ℓ} (o : Try Bytes A) → Safe (env_error o)
  unfolding panics is_nil
  Safe-env_error (caught name) = refl
  Safe-env_error (value x) = refl

  module _ (load_file : Bytes → Option Config) (parse_duration : Bytes → Option ℤ)
      (env : Bytes → Option Bytes) where
    Safe-load :
        (flags : Option Config) (path : Bytes)
        → Safe (load files load_file parse_duration env flags path)
    unfolding load
    Safe-load flags path =
        Safe-then (env_error (from_env parse_duration env)) _
          (Safe-env_error (from_env parse_duration env))
          (λ from.
            Safe-then (with_file files load_file path (merge (or_empty_config flags) from)) _
              (Safe-with_file load_file path (merge (or_empty_config flags) from))
              (λ c. Safe-merged load_file c))

    -- `Load` follows no nil pointer, whatever the flags, the environment and the file make and leave out.
    pub load-ne-nil_pointer :
        (flags : Option Config) (path : Bytes)
        → load files load_file parse_duration env flags path ≢ caught nil_pointer
    unfolding panics is_nil
    load-ne-nil_pointer flags path e = cc (ap panics e, Safe-load flags path)
