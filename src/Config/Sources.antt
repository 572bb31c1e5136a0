-- ===== src/Config/Sources.antt =====
-- pkg/config/config.go: `Load` as a whole: which source each setting comes from.
use redis_sentinel_proxy.Base.{
  Bool, true, false, [], ◌∷◌, Option, none, some, Bytes, ◌≡◌, refl, sym, ap, ◌∙◌,
}
use redis_sentinel_proxy.Base.Results.{
  Try, caught, value, or_error, value_of_bind, value_of_or_error, value_inj,
}
use redis_sentinel_proxy.Io.Integer.{ℤ}
use redis_sentinel_proxy.Config.{Config, TlsConfig, fill, empty_config, default, merge}
use redis_sentinel_proxy.Config.Env.{from_env}
use redis_sentinel_proxy.Config.Tls.{
  Files, bad_config_file, sentinel_tls_config, listen_tls_config, master_tls_config,
}
use redis_sentinel_proxy.Config.Load.{
  or_empty_config, env_error, check_replica_fallback, check_router, settle, with_tls, with_file,
  finish_load, load,
}
use redis_sentinel_proxy.Config.Settings.{
  Setting, made, made-merge, fill-none, fill_assoc, listen, replica_listen, replica_fallback,
  sentinel, master, username, password, master_username, master_password, router, resolve_retries,
  max_connections, idle_timeout, debug, sentinel_enabled, sentinel_ca, sentinel_cert, sentinel_key,
  sentinel_name, sentinel_skip, listen_enabled, listen_cert, listen_key, listen_clients,
  master_enabled, master_ca, master_cert, master_key, master_name, master_skip, master_pass,
}
use redis_sentinel_proxy.Config.Complete.{Complete, merge-Filled, finish_load-Complete}

-- The three settings that `Load` looks at once more when all sources are merged.
abbrev pub is_endpoint : Setting → Bool
is_endpoint listen = true
is_endpoint replica_listen = true
is_endpoint replica_fallback = true
is_endpoint _ = false

made-empty : (i : Setting) → made i empty_config ≡ none
unfolding made
made-empty listen = refl
made-empty replica_listen = refl
made-empty replica_fallback = refl
made-empty sentinel = refl
made-empty master = refl
made-empty username = refl
made-empty password = refl
made-empty master_username = refl
made-empty master_password = refl
made-empty router = refl
made-empty resolve_retries = refl
made-empty max_connections = refl
made-empty idle_timeout = refl
made-empty debug = refl
made-empty sentinel_enabled = refl
made-empty sentinel_ca = refl
made-empty sentinel_cert = refl
made-empty sentinel_key = refl
made-empty sentinel_name = refl
made-empty sentinel_skip = refl
made-empty listen_enabled = refl
made-empty listen_cert = refl
made-empty listen_key = refl
made-empty listen_clients = refl
made-empty master_enabled = refl
made-empty master_ca = refl
made-empty master_cert = refl
made-empty master_key = refl
made-empty master_name = refl
made-empty master_skip = refl
made-empty master_pass = refl

made-with_tls :
    (i : Setting) (sentinel_side listen_side : Option TlsConfig)
    (sides : Option TlsConfig × Option TlsConfig) (c : Config)
    → is_endpoint i ≡ false
    → made i (with_tls sentinel_side listen_side sides c) ≡ made i c
unfolding made with_tls settle
made-with_tls listen _ _ sides c h = cc
made-with_tls replica_listen _ _ sides c h = cc
made-with_tls replica_fallback _ _ sides c h = cc
made-with_tls sentinel _ _ sides c h = refl
made-with_tls master _ _ sides c h = refl
made-with_tls username _ _ sides c h = refl
made-with_tls password _ _ sides c h = refl
made-with_tls master_username _ _ sides c h = refl
made-with_tls master_password _ _ sides c h = refl
made-with_tls router _ _ sides c h = refl
made-with_tls resolve_retries _ _ sides c h = refl
made-with_tls max_connections _ _ sides c h = refl
made-with_tls idle_timeout _ _ sides c h = refl
made-with_tls debug _ _ sides c h = refl
made-with_tls sentinel_enabled _ _ sides c h = refl
made-with_tls sentinel_ca _ _ sides c h = refl
made-with_tls sentinel_cert _ _ sides c h = refl
made-with_tls sentinel_key _ _ sides c h = refl
made-with_tls sentinel_name _ _ sides c h = refl
made-with_tls sentinel_skip _ _ sides c h = refl
made-with_tls listen_enabled _ _ sides c h = refl
made-with_tls listen_cert _ _ sides c h = refl
made-with_tls listen_key _ _ sides c h = refl
made-with_tls listen_clients _ _ sides c h = refl
made-with_tls master_enabled _ _ sides c h = refl
made-with_tls master_ca _ _ sides c h = refl
made-with_tls master_cert _ _ sides c h = refl
made-with_tls master_key _ _ sides c h = refl
made-with_tls master_name _ _ sides c h = refl
made-with_tls master_skip _ _ sides c h = refl
made-with_tls master_pass _ _ sides c h = refl

module _ (files : Files) (load_file : Bytes → Option Config) where
  -- The settings of the file at `path`: none of them if no path is given.
  abbrev pub FileOf : Bytes → Config → Type 0
  FileOf [] file = file ≡ empty_config
  FileOf (b ∷ path) file = load_file (b ∷ path) ≡ some file

  finish_load_parts :
      (c d : Config)
      → finish_load files load_file c ≡ value d
      → (sentinel_side : Option TlsConfig) × (listen_side : Option TlsConfig) × (sides : Option
            TlsConfig
          × Option TlsConfig)
        × (with_tls sentinel_side listen_side sides c ≡ d)
  unfolding finish_load
  finish_load_parts c d h =
      let (_, _, h1) = value_of_bind (check_replica_fallback c) _ h in
      let (_, _, h2) = value_of_bind (check_router c) _ h1 in
      let (sentinel_side, _, h3) = value_of_bind (sentinel_tls_config files c.sentinel_tls) _ h2 in
      let (listen_side, _, h4) = value_of_bind (listen_tls_config files c.listen_tls) _ h3 in
      let (sides, _, h5) = value_of_bind (master_tls_config files c.master_tls) _ h4 in
      (sentinel_side, listen_side, sides, value_inj h5)

  -- A file fills in what is not made before it.
  made-with_file :
      (i : Setting) (path : Bytes) (c d : Config)
      → with_file files load_file path c ≡ value d
      → (file : Config) × FileOf path file × (made i d ≡ fill (made i c) (made i file))
  unfolding with_file
  made-with_file i [] c d h = (
    empty_config,
    refl,
    ap (made i) (sym (value_inj h))
        ∙ sym (ap (fill (made i c)) (made-empty i) ∙ fill-none (made i c)),
  )
  made-with_file i (b ∷ path) c d h =
      let (file, e, k) = value_of_bind (or_error bad_config_file (load_file (b ∷ path))) _ h in
      (
        file,
        value_of_or_error bad_config_file (load_file (b ∷ path)) e,
        ap (made i) (sym (value_inj k)) ∙ made-merge i c file,
      )

  env_error_value : (o : Try Bytes Config) (c : Config) → env_error o ≡ value c → o ≡ value c
  env_error_value (caught name) c h = cc
  env_error_value (value d) c h = ap value (value_inj h)

  module _ (parse_duration : Bytes → Option ℤ) (env : Bytes → Option Bytes) where
    -- Each setting but `listen`, `replica_listen`, `replica_fallback` and the `passthrough` of
    -- `sentinel_tls` is that of the first source that makes it: the flags, then the environment, then
    -- the file, then the defaults.
    pub load-made :
        (flags : Option Config) (path : Bytes) (c : Config) (i : Setting)
        → load files load_file parse_duration env flags path ≡ value c
        → is_endpoint i ≡ false
        → (from : Config) × (file : Config) × (from_env parse_duration env ≡ value from)
          × FileOf path file
          × (made i c
              ≡ fill
                  (made i (or_empty_config flags))
                  (fill (made i from) (fill (made i file) (made i default))))
    unfolding load
    load-made flags path c i h plain =
        let (from, e1, h1) = value_of_bind (env_error (from_env parse_duration env)) _ h in
        let (d, e2, h2) =
          value_of_bind (with_file files load_file path (merge (or_empty_config flags) from)) _
            h1 in
        let (sentinel_side, listen_side, sides, same) = finish_load_parts (merge d default) c h2 in
        let (file, is_file, k) = made-with_file i path (merge (or_empty_config flags) from) d e2 in
        (
          from,
          file,
          env_error_value (from_env parse_duration env) from e1,
          is_file,
          ap (made i) (sym same)
              ∙ made-with_tls i sentinel_side listen_side sides (merge d default) plain
              ∙ made-merge i d default
              ∙ ap (λ x. fill x (made i default))
                  (k ∙ ap (λ x. fill x (made i file)) (made-merge i (or_empty_config flags) from))
              ∙ fill_assoc (fill (made i (or_empty_config flags)) (made i from)) (made i file)
                  (made i default)
              ∙ fill_assoc (made i (or_empty_config flags)) (made i from)
                  (fill (made i file) (made i default)),
        )

    -- The settings that `Load` returns are complete: there is an endpoint, the settings that the rest of
    -- the program reads through pointers are there, the router is off if the master's connection is
    -- passed through, and a connection is wrapped in TLS with the settings of its probe or not at all,
    -- and never if it is passed through.
    pub load-Complete :
        (flags : Option Config) (path : Bytes) (c : Config)
        → load files load_file parse_duration env flags path ≡ value c
        → Complete c
    unfolding load
    load-Complete flags path c h =
        let (from, _, h1) = value_of_bind (env_error (from_env parse_duration env)) _ h in
        let (d, _, h2) =
          value_of_bind (with_file files load_file path (merge (or_empty_config flags) from)) _
            h1 in
        finish_load-Complete files load_file (merge d default) c (merge-Filled files d) h2
