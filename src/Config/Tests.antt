-- ===== src/Config/Tests.antt =====
-- The theorems on the configuration, at concrete sources.
use redis_sentinel_proxy.Base.{
  ◌≡◌, ◌≢◌, refl, true, Option, none, some, Bytes, bytes_eq, codes, if◌then◌else◌,
}
use redis_sentinel_proxy.Base.Results.{caught, value}
use redis_sentinel_proxy.Io.Integer.{ℤ}
use redis_sentinel_proxy.Config.{Config, empty_config, default, fill}
use redis_sentinel_proxy.Config.Env.{from_env}
use redis_sentinel_proxy.Config.Tls.{Files, nil_pointer}
use redis_sentinel_proxy.Config.Load.{or_empty_config, load}
use redis_sentinel_proxy.Config.Settings.{made, master as master_setting}
use redis_sentinel_proxy.Config.Complete.{Complete}
use redis_sentinel_proxy.Config.Sources.{FileOf, load-made, load-Complete}
use redis_sentinel_proxy.Config.NoPanic.{load-ne-nil_pointer}

abbrev pub files : Files
files = record {
  read_file = λ path. some (codes "certificates");
  has_certificates = λ pem. true;
  load_key_pair = λ cert key. some (codes "pair");
}

abbrev from_file : Config
from_file = record empty_config {
  master = some (codes "in_file");
  replica_listen = some (codes ":9998");
}

abbrev pub load_file : Bytes → Option Config
load_file path = some from_file

abbrev pub parse_duration : Bytes → Option ℤ
parse_duration s = none

abbrev pub env : Bytes → Option Bytes
env name = if bytes_eq name (codes "RSP_MASTER") then some (codes "in_env") else none

abbrev flags : Option Config
flags = some (record empty_config { router = some true; listen = some (codes ":9999") })

-- What is loaded from these.
abbrev loaded : Config
loaded = record default {
  listen = some (codes ":9999");
  replica_listen = some (codes ":9998");
  master = some (codes "in_env");
  router = some true;
}

loads : load files load_file parse_duration env flags (codes "file.yaml") ≡ value loaded
unfolding load
loads = refl

load-made_example :
    (from : Config) × (file : Config) × (from_env parse_duration env ≡ value from)
    × FileOf files load_file (codes "file.yaml") file
    × (made master_setting loaded
        ≡ fill (made master_setting (or_empty_config flags)) (
            fill
              (made master_setting from)
              (fill (made master_setting file) (made master_setting default))))
load-made_example =
    load-made files load_file parse_duration env flags (codes "file.yaml") loaded master_setting
      loads refl

load-Complete_example : Complete loaded
load-Complete_example =
    load-Complete files load_file parse_duration env flags (codes "file.yaml") loaded loads

load-ne-nil_pointer_example :
    load files load_file parse_duration env flags (codes "file.yaml") ≢ caught nil_pointer
load-ne-nil_pointer_example =
    load-ne-nil_pointer files load_file parse_duration env flags (codes "file.yaml")
