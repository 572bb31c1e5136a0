-- ===== src/Router.antt =====
-- pkg/router/router.go: the table of read-only commands and `GetDirection`.
pub mod Laws
pub mod Tests
use Prim.Native.String.{String}
use redis_sentinel_proxy.Base.{
  Bool, true, false, ◌||◌, List, [], ◌∷◌, map, Bytes, codes, bytes_eq, if◌then◌else◌,
}
use redis_sentinel_proxy.Resp.{to_upper}

pub data Direction : Type 0 where
  read write : Direction

-- Membership in a Go map used as a set.
unfoldable pub contains : Bytes → List Bytes → Bool
contains name [] = false
contains name (c ∷ cs) = bytes_eq name c || contains name cs

abbrev read_only_names : List String
read_only_names =
    "PING" ∷ "ECHO" ∷ "SELECT" ∷ "AUTH" ∷ "HELLO" ∷ "QUIT" ∷ "EXISTS" ∷ "TYPE" ∷ "TTL" ∷ "PTTL"
    ∷ "EXPIRETIME" ∷ "PEXPIRETIME" ∷ "KEYS" ∷ "SCAN" ∷ "RANDOMKEY" ∷ "DUMP" ∷ "TOUCH" ∷ "OBJECT"
    ∷ "MEMORY" ∷ "GET" ∷ "MGET" ∷ "GETRANGE" ∷ "SUBSTR" ∷ "STRLEN" ∷ "LCS" ∷ "GETBIT" ∷ "BITCOUNT"
    ∷ "BITPOS" ∷ "BITFIELD_RO" ∷ "HGET" ∷ "HMGET" ∷ "HGETALL" ∷ "HKEYS" ∷ "HVALS" ∷ "HLEN"
    ∷ "HEXISTS" ∷ "HSTRLEN" ∷ "HSCAN" ∷ "HRANDFIELD" ∷ "HTTL" ∷ "HPTTL" ∷ "HEXPIRETIME"
    ∷ "HPEXPIRETIME" ∷ "LRANGE" ∷ "LLEN" ∷ "LINDEX" ∷ "LPOS" ∷ "SMEMBERS" ∷ "SISMEMBER"
    ∷ "SMISMEMBER" ∷ "SCARD" ∷ "SRANDMEMBER" ∷ "SSCAN" ∷ "SINTER" ∷ "SUNION" ∷ "SDIFF"
    ∷ "SINTERCARD" ∷ "ZRANGE" ∷ "ZRANGEBYSCORE" ∷ "ZRANGEBYLEX" ∷ "ZREVRANGE" ∷ "ZREVRANGEBYSCORE"
    ∷ "ZREVRANGEBYLEX" ∷ "ZCARD" ∷ "ZCOUNT" ∷ "ZLEXCOUNT" ∷ "ZSCORE" ∷ "ZMSCORE" ∷ "ZRANK"
    ∷ "ZREVRANK" ∷ "ZSCAN" ∷ "ZRANDMEMBER" ∷ "ZDIFF" ∷ "ZINTER" ∷ "ZUNION" ∷ "ZINTERCARD"
    ∷ "PFCOUNT" ∷ "GEOPOS" ∷ "GEODIST" ∷ "GEOHASH" ∷ "GEOSEARCH" ∷ "GEORADIUS_RO"
    ∷ "GEORADIUSBYMEMBER_RO" ∷ "XRANGE" ∷ "XREVRANGE" ∷ "XLEN" ∷ "XREAD" ∷ "XINFO" ∷ "XPENDING"
    ∷ "SORT_RO" ∷ "EVAL_RO" ∷ "EVALSHA_RO" ∷ "FCALL_RO" ∷ "SUBSCRIBE" ∷ "UNSUBSCRIBE" ∷ "PSUBSCRIBE"
    ∷ "PUNSUBSCRIBE" ∷ "SSUBSCRIBE" ∷ "SUNSUBSCRIBE" ∷ "PUBSUB" ∷ "INFO" ∷ "TIME" ∷ "DBSIZE"
    ∷ "COMMAND" ∷ "LASTSAVE" ∷ "LOLWUT" ∷ "JSON.GET" ∷ "JSON.MGET" ∷ "JSON.TYPE" ∷ "JSON.STRLEN"
    ∷ "JSON.ARRLEN" ∷ "JSON.ARRINDEX" ∷ "JSON.OBJKEYS" ∷ "JSON.OBJLEN" ∷ "JSON.DEBUG" ∷ "JSON.RESP"
    ∷ "FT.SEARCH" ∷ "FT.AGGREGATE" ∷ "FT.EXPLAIN" ∷ "FT.EXPLAINCLI" ∷ "FT.INFO" ∷ "FT.PROFILE"
    ∷ "FT.TAGVALS" ∷ "FT.SPELLCHECK" ∷ "FT.SUGGET" ∷ "FT.SUGLEN" ∷ "FT.DICTDUMP" ∷ "FT.SYNDUMP"
    ∷ "FT._LIST" ∷ "BF.EXISTS" ∷ "BF.MEXISTS" ∷ "BF.INFO" ∷ "BF.CARD" ∷ "BF.SCANDUMP" ∷ "CF.EXISTS"
    ∷ "CF.MEXISTS" ∷ "CF.COUNT" ∷ "CF.INFO" ∷ "CF.SCANDUMP" ∷ "CMS.QUERY" ∷ "CMS.INFO"
    ∷ "TOPK.QUERY" ∷ "TOPK.COUNT" ∷ "TOPK.LIST" ∷ "TOPK.INFO" ∷ "TDIGEST.QUANTILE" ∷ "TDIGEST.CDF"
    ∷ "TDIGEST.MIN" ∷ "TDIGEST.MAX" ∷ "TDIGEST.RANK" ∷ "TDIGEST.REVRANK" ∷ "TDIGEST.BYRANK"
    ∷ "TDIGEST.BYREVRANK" ∷ "TDIGEST.TRIMMED_MEAN" ∷ "TDIGEST.INFO" ∷ "TS.GET" ∷ "TS.MGET"
    ∷ "TS.RANGE" ∷ "TS.REVRANGE" ∷ "TS.MRANGE" ∷ "TS.MREVRANGE" ∷ "TS.INFO" ∷ "TS.QUERYINDEX"
    ∷ "GRAPH.RO_QUERY" ∷ "GRAPH.EXPLAIN" ∷ "GRAPH.LIST" ∷ "GRAPH.SLOWLOG" ∷ []

unfoldable pub read_only_commands : List Bytes
read_only_commands = map codes read_only_names

-- `strings.ToUpper` of text beyond ASCII is the parameter `unicode`.
unfoldable pub get_direction : (Bytes → Bytes) → Bytes → Direction
unfolding contains read_only_commands to_upper bytes_eq
get_direction unicode cmd =
    if contains (to_upper unicode cmd) read_only_commands then read else write
