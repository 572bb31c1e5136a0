-- ===== src/Config/NoPanic/Steps.antt =====
-- pkg/config: the steps of `Load` follow no nil pointer.
use redis_sentinel_proxy.Base.{
  Bool, true, false, not, ◌||◌, ◌&&◌, inl, inr, Option, none, some, Bytes, if◌then◌else◌, ◌≡◌,
  arith, refl, ap, Bool-cases,
}
use redis_sentinel_proxy.Base.Results.{caught, value, ◌>>=◌, require, or_error, value_of_require}
use redis_sentinel_proxy.Config.{Config, BackendTls, ListenTls, str_set, bool_set}
use redis_sentinel_proxy.Config.Tls.{
  Files, ConfigError, nil_pointer, bad_ca_file, bad_certificate, unpaired_certificate,
  passthrough_for_sentinel, sentinel_tls_off, listen_tls_off, listen_pair_missing,
  passthrough_and_tls, bad_replica_fallback, router_with_passthrough, Checked, deref, paired,
  any_option, or_empty, load_cert_pool, optional_pool, key_pair, optional_pair, backend_tls_config,
  sentinel_tls_config, serve_tls_config, listen_tls_config, master_tls_config,
}
use redis_sentinel_proxy.Config.Load.{check_replica_fallback, check_router}
use redis_sentinel_proxy.Config.Complete.{Given}

unfoldable pub is_nil : ConfigError → Bool
is_nil nil_pointer = true
is_nil _ = false

unfoldable pub panics {ℓ} : {A : Type ℓ} → Checked A → Bool
panics (caught e) = is_nil e
panics (value x) = false

abbrev pub Safe {ℓ} : {A : Type ℓ} → Checked A → Type 0
Safe m = panics m ≡ false

Safe-bind {ℓ κ} :
    {A : Type ℓ} {B : Type κ} (first : Checked A) (next : A → Checked B)
    → Safe first
    → ((x : A) → first ≡ value x → Safe (next x))
    → Safe (first >>= next)
unfolding panics
Safe-bind (caught e) next h k = h
Safe-bind (value x) next h k = k x refl

-- The usual step: an operation that is safe, whatever follows is.
pub Safe-then {ℓ κ} :
    {A : Type ℓ} {B : Type κ} (first : Checked A) (next : A → Checked B)
    → Safe first
    → ((x : A) → Safe (next x))
    → Safe (first >>= next)
Safe-then first next h k = Safe-bind first next h (λ x _. k x)

Safe-require : (b : Bool) (e : ConfigError) → is_nil e ≡ false → Safe (require b e)
unfolding panics
Safe-require false e h = h
Safe-require true e h = refl

pub Safe-or_error {ℓ} :
    {A : Type ℓ} (e : ConfigError) (o : Option A) → is_nil e ≡ false → Safe (or_error e o)
unfolding panics
Safe-or_error e none h = h
Safe-or_error e (some x) h = refl

Safe-deref {ℓ} : {A : Type ℓ} (o : Option A) → Given o → Safe (deref o)
unfolding panics
Safe-deref o (x, e) = ap (λ p. panics (deref p)) e

Safe-if {ℓ} :
    {A : Type ℓ} (b : Bool) (m k : Checked A) → Safe m → Safe k → Safe (if b then m else k)
Safe-if true m k h g = h
Safe-if false m k h g = g

Given-of_str_set : (o : Option Bytes) → str_set o ≡ true → Given o
Given-of_str_set none h = cc
Given-of_str_set (some s) h = (s, refl)

both_true : (a b : Bool) → (a && b) ≡ true → (a ≡ true) × (b ≡ true)
both_true a b h = ground arith

module _ (files : Files) where
  Safe-optional_pool : (ca_file : Option Bytes) → Safe (optional_pool files ca_file)
  unfolding optional_pool load_cert_pool panics is_nil
  Safe-optional_pool ca_file =
      Safe-if (str_set ca_file) _ _
        (Safe-then (load_cert_pool files (or_empty ca_file)) _
          (Safe-then (or_error bad_ca_file (files.read_file (or_empty ca_file))) _
            (Safe-or_error bad_ca_file _ refl)
            (λ pem.
              Safe-then (require (files.has_certificates pem) bad_ca_file) _
                (Safe-require _ bad_ca_file refl) (λ _. refl)))
          (λ _. refl))
        refl

  Safe-key_pair :
      (cert key : Option Bytes) → Given cert → Given key → Safe (key_pair files cert key)
  unfolding key_pair is_nil
  Safe-key_pair cert key c k = Safe-then (deref cert) _ (Safe-deref cert c) (λ cert_file.
      Safe-then (deref key) _ (Safe-deref key k)
        (λ key_file. Safe-or_error bad_certificate (files.load_key_pair cert_file key_file) refl))

  Safe-optional_pair :
      (cert key : Option Bytes) → paired cert key ≡ true → Safe (optional_pair files cert key)
  unfolding optional_pair panics
  Safe-optional_pair cert key h = elim (Bool-cases (str_set cert)) [
    | inl s ↦
        rw (s, optional_pair)
          (Safe-then (key_pair files cert key) _
            (Safe-key_pair cert key (Given-of_str_set cert s) (Given-of_str_set key (rw s at h)))
            (λ _. refl))
    | inr s ↦ rw (s, optional_pair) refl
  ]

  Safe-backend_tls_config :
      (t : BackendTls)
      → Given t.server_name
      → Given t.skip_verify
      → Safe (backend_tls_config files t)
  unfolding backend_tls_config is_nil panics
  Safe-backend_tls_config t name skip =
      Safe-then (deref t.server_name) _ (Safe-deref t.server_name name) (λ _.
        Safe-then (deref t.skip_verify) _ (Safe-deref t.skip_verify skip) (λ _.
          Safe-then (optional_pool files t.ca_file) _ (Safe-optional_pool t.ca_file) (λ _.
            Safe-bind (require (paired t.cert_file t.key_file) unpaired_certificate) _
              (Safe-require _ unpaired_certificate refl)
              (λ _ e.
                Safe-then (optional_pair files t.cert_file t.key_file) _
                  (Safe-optional_pair t.cert_file t.key_file
                    (value_of_require _ unpaired_certificate e))
                  (λ _. refl)))))

  pub Safe-sentinel_tls_config :
      (t : BackendTls)
      → Given t.server_name
      → Given t.skip_verify
      → Safe (sentinel_tls_config files (some t))
  unfolding sentinel_tls_config is_nil panics
  Safe-sentinel_tls_config t name skip =
      Safe-then (require (not (bool_set t.passthrough)) passthrough_for_sentinel) _
        (Safe-require _ passthrough_for_sentinel refl)
        (λ _.
          Safe-if (bool_set t.enabled) _ _
            (Safe-then (backend_tls_config files t) _ (Safe-backend_tls_config t name skip)
              (λ _. refl))
            (Safe-then (require (not (any_option t)) sentinel_tls_off) _
              (Safe-require _ sentinel_tls_off refl) (λ _. refl)))

  pub Safe-master_tls_config :
      (t : BackendTls)
      → Given t.server_name
      → Given t.skip_verify
      → Safe (master_tls_config files (some t))
  unfolding master_tls_config is_nil panics
  Safe-master_tls_config t name skip =
      let backend = Safe-backend_tls_config t name skip in
      Safe-then (require (not (bool_set t.passthrough && bool_set t.enabled)) passthrough_and_tls) _
        (Safe-require _ passthrough_and_tls refl)
        (λ _.
          Safe-if (bool_set t.passthrough) _ _
            (Safe-then (backend_tls_config files t) _ backend (λ _. refl))
            (Safe-if (bool_set t.enabled || any_option t) _ _
              (Safe-then (backend_tls_config files t) _ backend (λ _. refl)) refl))

  Safe-serve_tls_config : (t : ListenTls) → Safe (serve_tls_config files t)
  unfolding serve_tls_config is_nil panics
  Safe-serve_tls_config t =
      Safe-bind (require (str_set t.cert_file && str_set t.key_file) listen_pair_missing) _
        (Safe-require _ listen_pair_missing refl)
        (λ _ e.
          let both = both_true (str_set t.cert_file) _ (value_of_require _ listen_pair_missing e) in
          Safe-then (key_pair files t.cert_file t.key_file) _
            (Safe-key_pair t.cert_file t.key_file (Given-of_str_set t.cert_file both.0)
              (Given-of_str_set t.key_file both.1))
            (λ _.
              Safe-then (optional_pool files t.client_ca_file) _
                (Safe-optional_pool t.client_ca_file) (λ _. refl)))

  pub Safe-listen_tls_config : (o : Option ListenTls) → Safe (listen_tls_config files o)
  unfolding listen_tls_config is_nil panics
  Safe-listen_tls_config none = refl
  Safe-listen_tls_config (some t) =
      Safe-if (bool_set t.enabled) _ _
        (Safe-then (serve_tls_config files t) _ (Safe-serve_tls_config t) (λ _. refl))
        (Safe-then
          (require (not (str_set t.cert_file || str_set t.key_file || str_set t.client_ca_file))
            listen_tls_off)
          _ (Safe-require _ listen_tls_off refl) (λ _. refl))

  pub Safe-check_replica_fallback :
      (c : Config) → Given c.replica_fallback → Safe (check_replica_fallback c)
  unfolding check_replica_fallback is_nil
  Safe-check_replica_fallback c g =
      Safe-then (deref c.replica_fallback) _ (Safe-deref c.replica_fallback g)
        (λ w. Safe-require _ bad_replica_fallback refl)

  pub Safe-check_router : (c : Config) → Given c.router → Safe (check_router c)
  unfolding check_router is_nil
  Safe-check_router c g =
      Safe-then (deref c.router) _ (Safe-deref c.router g)
        (λ on. Safe-require _ router_with_passthrough refl)
