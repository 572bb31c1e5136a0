-- ===== src/Config/Settings.antt =====
-- pkg/config/config.go: which source a setting is taken from.
use redis_sentinel_proxy.Base.{Option, none, some, ◌≡◌, refl, sym, ap, ◌∙◌}
use redis_sentinel_proxy.Config.{
  Config, fill, default, merge, merge_sentinel_tls, merge_listen_tls, merge_master_tls,
}
use redis_sentinel_proxy.Config.Flags.{FlagValue, text, truth, number, span}

-- The settings that every source can make. `sentinel_tls.passthrough` is none of them.
pub data Setting : Type 0 where
  listen replica_listen replica_fallback sentinel master : Setting
  username password master_username master_password : Setting
  router resolve_retries max_connections idle_timeout debug : Setting
  sentinel_enabled sentinel_ca sentinel_cert sentinel_key sentinel_name sentinel_skip : Setting
  listen_enabled listen_cert listen_key listen_clients : Setting
  master_enabled master_ca master_cert master_key master_name master_skip master_pass : Setting

abbrev pub mapped {ℓ κ} : {A : Type ℓ} {B : Type κ} → (A → B) → Option A → Option B
mapped f none = none
mapped f (some x) = some (f x)

-- A member of a struct behind a pointer.
abbrev pub under {ℓ κ} : {T : Type ℓ} {A : Type κ} → (T → Option A) → Option T → Option A
under member none = none
under member (some t) = member t

unfoldable pub made : Setting → Config → Option FlagValue
made listen c = mapped text c.listen
made replica_listen c = mapped text c.replica_listen
made replica_fallback c = mapped text c.replica_fallback
made sentinel c = mapped text c.sentinel
made master c = mapped text c.master
made username c = mapped text c.username
made password c = mapped text c.password
made master_username c = mapped text c.master_username
made master_password c = mapped text c.master_password
made router c = mapped truth c.router
made resolve_retries c = mapped number c.resolve_retries
made max_connections c = mapped number c.max_connections
made idle_timeout c = mapped span c.idle_timeout
made debug c = mapped truth c.debug
made sentinel_enabled c = mapped truth (under (λ t. t.enabled) c.sentinel_tls)
made sentinel_ca c = mapped text (under (λ t. t.ca_file) c.sentinel_tls)
made sentinel_cert c = mapped text (under (λ t. t.cert_file) c.sentinel_tls)
made sentinel_key c = mapped text (under (λ t. t.key_file) c.sentinel_tls)
made sentinel_name c = mapped text (under (λ t. t.server_name) c.sentinel_tls)
made sentinel_skip c = mapped truth (under (λ t. t.skip_verify) c.sentinel_tls)
made listen_enabled c = mapped truth (under (λ t. t.enabled) c.listen_tls)
made listen_cert c = mapped text (under (λ t. t.cert_file) c.listen_tls)
made listen_key c = mapped text (under (λ t. t.key_file) c.listen_tls)
made listen_clients c = mapped text (under (λ t. t.client_ca_file) c.listen_tls)
made master_enabled c = mapped truth (under (λ t. t.enabled) c.master_tls)
made master_ca c = mapped text (under (λ t. t.ca_file) c.master_tls)
made master_cert c = mapped text (under (λ t. t.cert_file) c.master_tls)
made master_key c = mapped text (under (λ t. t.key_file) c.master_tls)
made master_name c = mapped text (under (λ t. t.server_name) c.master_tls)
made master_skip c = mapped truth (under (λ t. t.skip_verify) c.master_tls)
made master_pass c = mapped truth (under (λ t. t.passthrough) c.master_tls)

mapped-fill {ℓ κ} :
    {A : Type ℓ} {B : Type κ} (f : A → B) (x y : Option A)
    → mapped f (fill x y) ≡ fill (mapped f x) (mapped f y)
mapped-fill f none y = refl
mapped-fill f (some x) y = refl

pub fill-none {ℓ} : {A : Type ℓ} (x : Option A) → fill x none ≡ x
fill-none none = refl
fill-none (some x) = refl

pub fill_assoc {ℓ} : {A : Type ℓ} (x y z : Option A) → fill (fill x y) z ≡ fill x (fill y z)
fill_assoc none y z = refl
fill_assoc (some x) y z = refl

-- Structs are joined member by member: the join of a struct with nothing, of nothing with a struct,
-- and of two structs.
module _ {ℓ κ μ} {T : Type ℓ} {A : Type κ} {B : Type μ} (f : A → B) (member : T → Option A) where
  nested :
      (join : Option T → Option T → Option T)
      → ((c : Option T) → join c none ≡ c)
      → ((o : T) → under member (join none (some o)) ≡ member o)
      → ((c o : T) → under member (join (some c) (some o)) ≡ fill (member c) (member o))
      → (c o : Option T)
      → mapped f (under member (join c o))
        ≡ fill (mapped f (under member c)) (mapped f (under member o))
  nested join alone new both c none =
      ap (λ x. mapped f (under member x)) (alone c) ∙ sym (fill-none (mapped f (under member c)))
  nested join alone new both none (some o) = ap (mapped f) (new o)
  nested join alone new both (some c) (some o) =
      ap (mapped f) (both c o) ∙ mapped-fill f (member c) (member o)

-- `Merge` fills in a setting just where it is nil, for every setting of the program.
pub made-merge : (i : Setting) (c o : Config) → made i (merge c o) ≡ fill (made i c) (made i o)
unfolding made merge
made-merge listen c o = mapped-fill text c.listen o.listen
made-merge replica_listen c o = mapped-fill text c.replica_listen o.replica_listen
made-merge replica_fallback c o = mapped-fill text c.replica_fallback o.replica_fallback
made-merge sentinel c o = mapped-fill text c.sentinel o.sentinel
made-merge master c o = mapped-fill text c.master o.master
made-merge username c o = mapped-fill text c.username o.username
made-merge password c o = mapped-fill text c.password o.password
made-merge master_username c o = mapped-fill text c.master_username o.master_username
made-merge master_password c o = mapped-fill text c.master_password o.master_password
made-merge router c o = mapped-fill truth c.router o.router
made-merge debug c o = mapped-fill truth c.debug o.debug
made-merge resolve_retries c o = mapped-fill number c.resolve_retries o.resolve_retries
made-merge max_connections c o = mapped-fill number c.max_connections o.max_connections
made-merge idle_timeout c o = mapped-fill span c.idle_timeout o.idle_timeout
made-merge sentinel_enabled c o =
    nested truth (λ t. t.enabled) merge_sentinel_tls (λ _. refl) (λ _. refl) (λ _ _. refl)
      c.sentinel_tls o.sentinel_tls
made-merge sentinel_ca c o =
    nested text (λ t. t.ca_file) merge_sentinel_tls (λ _. refl) (λ _. refl) (λ _ _. refl)
      c.sentinel_tls o.sentinel_tls
made-merge sentinel_cert c o =
    nested text (λ t. t.cert_file) merge_sentinel_tls (λ _. refl) (λ _. refl) (λ _ _. refl)
      c.sentinel_tls o.sentinel_tls
made-merge sentinel_key c o =
    nested text (λ t. t.key_file) merge_sentinel_tls (λ _. refl) (λ _. refl) (λ _ _. refl)
      c.sentinel_tls o.sentinel_tls
made-merge sentinel_name c o =
    nested text (λ t. t.server_name) merge_sentinel_tls (λ _. refl) (λ _. refl) (λ _ _. refl)
      c.sentinel_tls o.sentinel_tls
made-merge sentinel_skip c o =
    nested truth (λ t. t.skip_verify) merge_sentinel_tls (λ _. refl) (λ _. refl) (λ _ _. refl)
      c.sentinel_tls o.sentinel_tls
made-merge listen_enabled c o =
    nested truth (λ t. t.enabled) merge_listen_tls (λ _. refl) (λ _. refl) (λ _ _. refl)
      c.listen_tls o.listen_tls
made-merge listen_cert c o =
    nested text (λ t. t.cert_file) merge_listen_tls (λ _. refl) (λ _. refl) (λ _ _. refl)
      c.listen_tls o.listen_tls
made-merge listen_key c o =
    nested text (λ t. t.key_file) merge_listen_tls (λ _. refl) (λ _. refl) (λ _ _. refl)
      c.listen_tls o.listen_tls
made-merge listen_clients c o =
    nested text (λ t. t.client_ca_file) merge_listen_tls (λ _. refl) (λ _. refl) (λ _ _. refl)
      c.listen_tls o.listen_tls
made-merge master_enabled c o =
    nested truth (λ t. t.enabled) merge_master_tls (λ _. refl) (λ _. refl) (λ _ _. refl)
      c.master_tls o.master_tls
made-merge master_ca c o =
    nested text (λ t. t.ca_file) merge_master_tls (λ _. refl) (λ _. refl) (λ _ _. refl) c.master_tls
      o.master_tls
made-merge master_cert c o =
    nested text (λ t. t.cert_file) merge_master_tls (λ _. refl) (λ _. refl) (λ _ _. refl)
      c.master_tls o.master_tls
made-merge master_key c o =
    nested text (λ t. t.key_file) merge_master_tls (λ _. refl) (λ _. refl) (λ _ _. refl)
      c.master_tls o.master_tls
made-merge master_name c o =
    nested text (λ t. t.server_name) merge_master_tls (λ _. refl) (λ _. refl) (λ _ _. refl)
      c.master_tls o.master_tls
made-merge master_skip c o =
    nested truth (λ t. t.skip_verify) merge_master_tls (λ _. refl) (λ _. refl) (λ _ _. refl)
      c.master_tls o.master_tls
made-merge master_pass c o =
    nested truth (λ t. t.passthrough) merge_master_tls (λ _. refl) (λ _. refl) (λ _ _. refl)
      c.master_tls o.master_tls

-- So the sources in a chain of `Merge` take precedence in its order: a setting is that of the first
-- source that makes it.
pub made-chain :
    (i : Setting) (flags env file : Config)
    → made i (merge (merge (merge flags env) file) default)
      ≡ fill (made i flags) (fill (made i env) (fill (made i file) (made i default)))
made-chain i flags env file =
    made-merge i (merge (merge flags env) file) default
    ∙ ap (λ x. fill x (made i default))
        (made-merge i (merge flags env) file
          ∙ ap (λ x. fill x (made i file)) (made-merge i flags env))
    ∙ fill_assoc (fill (made i flags) (made i env)) (made i file) (made i default)
    ∙ fill_assoc (made i flags) (made i env) (fill (made i file) (made i default))
