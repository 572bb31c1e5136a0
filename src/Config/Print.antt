-- ===== src/Config/Print.antt =====
-- pkg/config/config.go: `String`, up to the YAML that it is printed as.
use redis_sentinel_proxy.Base.{
  ℕ, Bool, false, ◌||◌, [], ◌∷◌, Option, none, some, Bytes, codes, if◌then◌else◌, ◌≡◌, refl,
}
use redis_sentinel_proxy.Config.{Config, BackendTls, ListenTls, bool_set}

abbrev pub masked : Option Bytes → Option Bytes
masked none = none
masked (some []) = some []
masked (some (c ∷ s)) = some (codes "*****")

abbrev if_on_backend : Bool → Option BackendTls → Option BackendTls
if_on_backend extra none = none
if_on_backend extra (some t) = if bool_set t.enabled || extra then some t else none

abbrev if_on_listen : Option ListenTls → Option ListenTls
if_on_listen none = none
if_on_listen (some t) = if bool_set t.enabled then some t else none

abbrev shown_listen : Option Bytes → Option Bytes
shown_listen none = none
shown_listen (some []) = none
shown_listen (some (c ∷ s)) = some (c ∷ s)

abbrev if_passed : Option BackendTls → Bool
if_passed none = false
if_passed (some t) = bool_set t.passthrough

-- The copy of the settings that `String` prints.
unfoldable pub printed : Config → Config
printed c = record c {
  password = masked c.password;
  master_password = masked c.master_password;
  listen = shown_listen c.listen;
  listen_tls = if_on_listen c.listen_tls;
  master_tls = if_on_backend (if_passed c.master_tls) c.master_tls;
  sentinel_tls = if_on_backend false c.sentinel_tls;
}

-- What `String` prints does not depend on what the passwords are: settings that differ only in their
-- passwords, none of them empty, print alike.
pub printed-passwords :
    (c : Config) (x y x' y' : ℕ) (p q p' q' : Bytes)
    → printed (record c { password = some (x ∷ p); master_password = some (y ∷ q) })
      ≡ printed (record c { password = some (x' ∷ p'); master_password = some (y' ∷ q') })
unfolding printed
printed-passwords c x y x' y' p q p' q' = refl
