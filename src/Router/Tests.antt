-- ===== src/Router/Tests.antt =====
-- The direction of concrete commands.
use redis_sentinel_proxy.Base.{Bytes, codes, ◌≡◌, refl}
use redis_sentinel_proxy.Router.{read, write, get_direction}
use redis_sentinel_proxy.Router.Laws.{get_direction-SameLetters}

abbrev no_unicode : Bytes → Bytes
no_unicode s = s

get_is_read : get_direction no_unicode (codes "get") ≡ read
unfolding get_direction
get_is_read = refl

set_is_write : get_direction no_unicode (codes "SET") ≡ write
unfolding get_direction
set_is_write = refl

get_direction-SameLetters_example :
    get_direction no_unicode (codes "hGet") ≡ get_direction no_unicode (codes "HGET")
get_direction-SameLetters_example =
    get_direction-SameLetters no_unicode (codes "hGet") (codes "HGET") refl refl
