-- ===== src/Config/Complete/Sides.antt =====
-- pkg/config/tls.go: the two results of `masterTLSConfig`.
use redis_sentinel_proxy.Base.{
  false, not, ◌||◌, ◌&&◌, ◌⊎◌, inl, inr, Option, none, some, if◌then◌else◌, ◌≡◌, refl, sym, ap, ◌∙◌,
  Bool-cases,
}
use redis_sentinel_proxy.Base.Results.{value, ◌>>=◌, require, value_of_bind, value_inj}
use redis_sentinel_proxy.Config.{BackendTls, TlsConfig, bool_set}
use redis_sentinel_proxy.Config.Tls.{
  Files, passthrough_and_tls, any_option, backend_tls_config, master_tls_config,
}
use redis_sentinel_proxy.Config.Load.{passes_through}

abbrev Pair : Type 0
Pair = Option TlsConfig × Option TlsConfig

-- The settings of the probe and of the proxied connections: none for the latter where bytes are
-- passed through, and otherwise none or those of the probe.
unfoldable pub SidesOf : Option BackendTls → Pair → Type 0
SidesOf o s = ((passes_through o ≡ false) ⊎ (s.1 ≡ none)) × ((s.1 ≡ none) ⊎ (s.1 ≡ s.0))

module _ (files : Files) where
  one_side :
      (t : BackendTls) (s : Pair) (make : TlsConfig → Pair)
      → (backend_tls_config files t >>= (λ conf. value (make conf))) ≡ value s
      → (conf : TlsConfig) × (make conf ≡ s)
  one_side t s make h =
      let (conf, _, e) = value_of_bind (backend_tls_config files t) (λ conf. value (make conf)) h in
      (conf, value_inj e)

  sides_of :
      (t : BackendTls) (s : Pair)
      → (if bool_set t.passthrough
          then backend_tls_config files t >>= (λ conf. value (some conf, none))
          else if bool_set t.enabled || any_option t
          then backend_tls_config files t >>= (λ conf. value (some conf, some conf))
          else value (none, none))
        ≡ value s
      → SidesOf (some t) s
  unfolding SidesOf
  sides_of t s h = elim (Bool-cases (bool_set t.passthrough)) [
    | inl p ↦
        let (conf, e) = one_side t s (λ conf. (some conf, none)) (rw p at h) in
        (inr (ap (λ x. x.1) (sym e)), inl (ap (λ x. x.1) (sym e)))
    | inr p ↦ elim (Bool-cases (bool_set t.enabled || any_option t)) [
      | inl on ↦
          let (conf, e) = one_side t s (λ conf. (some conf, some conf)) (rw (p, on) at h) in
          (inl p, inr (ap (λ x. x.1) (sym e) ∙ ap (λ x. x.0) e))
      | inr off ↦
          let e = value_inj {x = (none, none)} {y = s} (rw (p, off) at h) in
          (inl p, inl (ap (λ x. x.1) (sym e)))
    ]
  ]

  pub master_tls_config-SidesOf :
      (o : Option BackendTls) (s : Pair) → master_tls_config files o ≡ value s → SidesOf o s
  unfolding master_tls_config SidesOf
  master_tls_config-SidesOf none s h =
      (inl refl, inl (ap (λ x. x.1) (sym (value_inj {x = (none, none)} {y = s} h))))
  master_tls_config-SidesOf (some t) s h =
      let (_, _, rest) =
        value_of_bind
          (require (not (bool_set t.passthrough && bool_set t.enabled)) passthrough_and_tls) _ h in
      sides_of t s rest
