-- ===== src/Session/Tests.antt =====
-- A routed session on concrete input.
use redis_sentinel_proxy.Base.{
  ℕ, ◌≤◌, ◌≢◌, true, false, inl, [], ◌∷◌, some, none, Bytes, codes, length, ◌≡◌, refl, sym,
  append-nil, arith,
}
use redis_sentinel_proxy.Io.{io, eof}
use redis_sentinel_proxy.Io.Integer.{pos, parse_int}
use redis_sentinel_proxy.Resp.{max_bulk_len, to_upper}
use redis_sentinel_proxy.Resp.Commands.{name_of}
use redis_sentinel_proxy.Resp.Samples.{word_command, word_command-IsCommand}
use redis_sentinel_proxy.Reply.Grammar.{scalar}
use redis_sentinel_proxy.Router.{read, write as to_master, contains, get_direction}
use redis_sentinel_proxy.Session.{
  Conn, Session, Ending, continue, stop, client_ended, pinned, out_of_fuel, pin_commands,
  state_commands, is_empty, count64, serve, run,
}
use redis_sentinel_proxy.Session.Relay.{with_sent, read_up_to, Request, Answer, IsPlain}
use redis_sentinel_proxy.Session.Exchange.{serve_read, serve_write, serve_state}
use redis_sentinel_proxy.Session.Pinning.{Piped, serve_pin, serve_inline, serve_nameless}
use redis_sentinel_proxy.Session.Replica.{Log, run-Log}
use redis_sentinel_proxy.Session.Run.{run-ne-out_of_fuel}

abbrev conn : Bytes → Conn
conn s = record {
  sink = record { written = codes ""; room = none; shut = false };
  reader = record { unread = s; fin = eof };
}

abbrev session : Bytes → Bytes → Bytes → Session
session client master replica = record {
  client = conn client;
  master = conn master;
  replica = conn replica;
  has_replica = true;
  reads = 0;
  writes = 0;
}

abbrev get_set : Bytes
get_set = codes "*2\r\n$3\r\nget\r\n$1\r\nk\r\n*3\r\n$3\r\nSET\r\n$1\r\nk\r\n$1\r\nv\r\n"

abbrev after : Session × Ending
after = run (λ s. s) (session get_set (codes "+OK\r\n") (codes "$1\r\nv\r\n"))

get_set_routed :
    (after.0.client.sink.written ≡ codes "$1\r\nv\r\n+OK\r\n")
    × (after.0.replica.sink.written ≡ codes "*2\r\n$3\r\nget\r\n$1\r\nk\r\n")
    × (after.0.master.sink.written ≡ codes "*3\r\n$3\r\nSET\r\n$1\r\nk\r\n$1\r\nv\r\n")
    × (after.0.reads ≡ 1)
    × (after.0.writes ≡ 1)
    × (after.1 ≡ client_ended (io eof))
unfolding run
get_set_routed = (refl, refl, refl, refl, refl, refl)

abbrev pub no_unicode : Bytes → Bytes
no_unicode s = s

-- A session whose client sends one command of one word, and whose backends each have one reply.
abbrev pub serving : Bytes → Session
serving client = session client (codes "+OK\r\n") (codes "+NO\r\n")

word_Request :
    (d : ℕ) (word : Bytes)
    → parse_int (d ∷ []) ≡ some (pos (length word))
    → d ≢ b'\n'
    → length word ≤ max_bulk_len
    → Request (serving (word_command d word [])) (word ∷ []) (word_command d word []) []
word_Request d word p h small = record {
  wanted = word_command-IsCommand d word [] p h small;
  splits = sym (append-nil (word_command d word []));
}

pub ok_Answer : Answer (conn (codes "+OK\r\n")) (codes "+OK\r\n") []
ok_Answer = record {
  value = scalar {m = b'+'} {text = codes "OK"} (inl refl) (record {
    starts = refl;
    marker = omega arith;
    no_newline = (omega arith, (omega arith, tt));
    fits = omega arith;
  });
  splits = refl;
  small = omega arith;
}

pub no_Answer : Answer (conn (codes "+NO\r\n")) (codes "+NO\r\n") []
no_Answer = record {
  value = scalar {m = b'+'} {text = codes "NO"} (inl refl) (record {
    starts = refl;
    marker = omega arith;
    no_newline = (omega arith, (omega arith, tt));
    fits = omega arith;
  });
  splits = refl;
  small = omega arith;
}

abbrev pub ping : Bytes
ping = word_command b'4' (codes "PING") []

ping-Request : Request (serving ping) (codes "PING" ∷ []) ping []
unfolding parse_int
ping-Request = word_Request b'4' (codes "PING") refl (omega arith) (omega arith)

abbrev pub name : Bytes → Bytes
name word = name_of no_unicode (word ∷ [])

pub ping_IsPlain : IsPlain no_unicode (name (codes "PING"))
unfolding run to_upper
ping_IsPlain = record { non_empty = refl; not_pin = refl; not_state = refl }

pub ping_is_read : get_direction no_unicode (name (codes "PING")) ≡ read
unfolding get_direction
ping_is_read = refl

serve_read_example :
    serve no_unicode (serving ping)
    ≡ continue (record (serving ping) {
      client = with_sent (read_up_to (serving ping).client []) (codes "+NO\r\n");
      replica = with_sent (read_up_to (serving ping).replica []) ping;
      reads = count64 0;
    })
serve_read_example =
    serve_read no_unicode (serving ping) (codes "PING" ∷ []) ping [] (codes "+NO\r\n") []
      ping-Request ping_IsPlain ping_is_read refl (refl, refl) (refl, refl) no_Answer

abbrev pub del : Bytes
del = word_command b'3' (codes "DEL") []

del-Request : Request (serving del) (codes "DEL" ∷ []) del []
unfolding parse_int
del-Request = word_Request b'3' (codes "DEL") refl (omega arith) (omega arith)

pub del_IsPlain : IsPlain no_unicode (name (codes "DEL"))
unfolding run to_upper
del_IsPlain = record { non_empty = refl; not_pin = refl; not_state = refl }

pub del_is_write : get_direction no_unicode (name (codes "DEL")) ≡ to_master
unfolding get_direction
del_is_write = refl

serve_write_example :
    serve no_unicode (serving del)
    ≡ continue (record (serving del) {
      client = with_sent (read_up_to (serving del).client []) (codes "+OK\r\n");
      master = with_sent (read_up_to (serving del).master []) del;
      writes = count64 0;
    })
serve_write_example =
    serve_write no_unicode (serving del) (codes "DEL" ∷ []) del [] (codes "+OK\r\n") [] del-Request
      del_IsPlain (inl del_is_write) (refl, refl) (refl, refl) ok_Answer

abbrev reset : Bytes
reset = word_command b'5' (codes "RESET") []

reset-Request : Request (serving reset) (codes "RESET" ∷ []) reset []
unfolding parse_int
reset-Request = word_Request b'5' (codes "RESET") refl (omega arith) (omega arith)

reset_IsState :
    (is_empty (name (codes "RESET")) ≡ false)
    × (contains (name (codes "RESET")) pin_commands ≡ false)
    × (contains (name (codes "RESET")) state_commands ≡ true)
unfolding run to_upper
reset_IsState = (refl, refl, refl)

serve_state_example :
    serve no_unicode (serving reset)
    ≡ continue (record (serving reset) {
      client = with_sent (read_up_to (serving reset).client []) (codes "+OK\r\n");
      master = with_sent (read_up_to (serving reset).master []) reset;
      replica = with_sent (read_up_to (serving reset).replica []) reset;
    })
serve_state_example =
    serve_state no_unicode (serving reset) (codes "RESET" ∷ []) reset [] (codes "+OK\r\n") []
      (codes "+NO\r\n") [] reset-Request reset_IsState.0 reset_IsState.1 reset_IsState.2 refl
      (refl, refl) (refl, refl) (refl, refl) ok_Answer no_Answer

abbrev multi : Bytes
multi = word_command b'5' (codes "MULTI") []

multi-Request : Request (serving multi) (codes "MULTI" ∷ []) multi []
unfolding parse_int
multi-Request = word_Request b'5' (codes "MULTI") refl (omega arith) (omega arith)

multi_pins :
    (is_empty (name (codes "MULTI")) ≡ false)
    × (contains (name (codes "MULTI")) pin_commands ≡ true)
unfolding run to_upper
multi_pins = (refl, refl)

serve_pin_example :
    (s' : Session) × (serve no_unicode (serving multi) ≡ stop s' pinned) × Piped (serving multi) s'
serve_pin_example =
    serve_pin no_unicode (serving multi) (codes "MULTI" ∷ []) multi [] multi-Request multi_pins.0
      multi_pins.1 (refl, refl) (refl, refl)

serve_inline_example :
    (s' : Session) × (serve no_unicode (serving (codes "PING\r\n")) ≡ stop s' pinned)
    × Piped (serving (codes "PING\r\n")) s'
serve_inline_example =
    serve_inline no_unicode (serving (codes "PING\r\n")) b'P' (codes "ING\r\n") refl (omega arith)
      (refl, refl) (refl, refl)

abbrev nameless : Bytes
nameless = word_command b'0' [] []

nameless-Request : Request (serving nameless) ([] ∷ []) nameless []
unfolding parse_int
nameless-Request = word_Request b'0' [] refl (omega arith) (omega arith)

no_name : name [] ≡ []
unfolding to_upper
no_name = refl

serve_nameless_example :
    serve no_unicode (serving nameless)
    ≡ continue (record (serving nameless) { client = read_up_to (serving nameless).client [] })
serve_nameless_example =
    serve_nameless no_unicode (serving nameless) ([] ∷ []) nameless [] nameless-Request no_name

run-Log_example :
    Log no_unicode []
      (run no_unicode
        (session get_set (codes "+OK\r\n") (codes "$1\r\nv\r\n"))).0.replica.sink.written
run-Log_example = run-Log no_unicode (session get_set (codes "+OK\r\n") (codes "$1\r\nv\r\n"))

run-ne-out_of_fuel_example :
    (run no_unicode (session get_set (codes "+OK\r\n") (codes "$1\r\nv\r\n"))).1 ≢ out_of_fuel
run-ne-out_of_fuel_example =
    run-ne-out_of_fuel no_unicode (session get_set (codes "+OK\r\n") (codes "$1\r\nv\r\n"))
