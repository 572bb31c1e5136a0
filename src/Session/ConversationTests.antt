-- ===== src/Session/ConversationTests.antt =====
-- The theorem on whole sessions, for a client that sends a PING and then a DEL.
use redis_sentinel_proxy.Base.{[], ◌∷◌, codes, refl, inl, arith}
use redis_sentinel_proxy.Io.Integer.{parse_int}
use redis_sentinel_proxy.Resp.Samples.{word_command, word_command-IsCommand}
use redis_sentinel_proxy.Session.{Session, run}
use redis_sentinel_proxy.Session.Relay.{Request, with_sent, read_up_to}
use redis_sentinel_proxy.Session.Tests.{
  no_unicode, serving, ping, del, ok_Answer, no_Answer, ping_IsPlain, ping_is_read, del_IsPlain,
  del_is_write,
}
use redis_sentinel_proxy.Session.Talks.{turn, Talks, over, reads, writes}
use redis_sentinel_proxy.Session.Conversation.{Carried, run-Carried}

abbrev start : Session
start = serving (word_command b'4' (codes "PING") del)

-- After the PING.
abbrev halfway : Session
halfway = record start {
  client = with_sent (read_up_to start.client del) (codes "+NO\r\n");
  replica = with_sent (read_up_to start.replica []) ping;
  reads = 1;
}

ping_first : Request start (codes "PING" ∷ []) ping del
unfolding parse_int
ping_first = record {
  wanted = word_command-IsCommand b'4' (codes "PING") del refl (omega arith) (omega arith);
  splits = refl;
}

del_second : Request halfway (codes "DEL" ∷ []) del []
unfolding parse_int
del_second = record {
  wanted = word_command-IsCommand b'3' (codes "DEL") [] refl (omega arith) (omega arith);
  splits = refl;
}

two_turns :
    Talks no_unicode start (turn (codes "+NO\r\n") [] ping ∷ turn (codes "+OK\r\n") del [] ∷ [])
two_turns =
    reads (codes "PING" ∷ []) ping del (codes "+NO\r\n") [] ping_first ping_IsPlain ping_is_read
      refl no_Answer
      (writes (codes "DEL" ∷ []) del [] (codes "+OK\r\n") [] del_second del_IsPlain
        (inl del_is_write) ok_Answer (over refl))

run-Carried_example :
    Carried no_unicode start
      (turn (codes "+NO\r\n") [] ping ∷ turn (codes "+OK\r\n") del [] ∷ [])
      (run no_unicode start)
run-Carried_example =
    run-Carried no_unicode start
      (turn (codes "+NO\r\n") [] ping ∷ turn (codes "+OK\r\n") del [] ∷ []) two_turns (refl, refl)
      (refl, refl) (refl, refl)
