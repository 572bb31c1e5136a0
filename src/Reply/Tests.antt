-- ===== src/Reply/Tests.antt =====
-- Runs of `copyRESP` on the inputs of pkg/proxy/resp_test.go.
use redis_sentinel_proxy.Base.{◌++◌, codes, Bytes, none, some, ◌≡◌, ◌≢◌, inl, refl, arith}
use redis_sentinel_proxy.Io.{
  Reader, Error, discard, eof, io, malformed_length, too_many_elements, bulk_too_long,
  unexpected_type,
}
use redis_sentinel_proxy.Io.{diverged, append_to}
use redis_sentinel_proxy.Reply.{copy_resp}
use redis_sentinel_proxy.Reply.Grammar.{Value, scalar}
use redis_sentinel_proxy.Reply.Copying.{copy_resp-Value}
use redis_sentinel_proxy.Reply.Consumed.{Value-of_copy_resp}
use redis_sentinel_proxy.Reply.Termination.{copy_resp-ne-diverged}

abbrev input : Bytes → Reader
input s = record { unread = s; fin = eof }

abbrev Relays : Bytes → Type 0
Relays s = copy_resp discard (input (s ++ codes "+NEXT\r\n")) ≡ record {
  sink = record discard { written = s };
  reader = input (codes "+NEXT\r\n");
  error = none;
}

nested : Relays (codes "*2\r\n*2\r\n$1\r\na\r\n:1\r\n$1\r\nb\r\n")
unfolding copy_resp
nested = refl

attribute_and_push : Relays (codes "|1\r\n$3\r\nttl\r\n:100\r\n>2\r\n+a\r\n+b\r\n:1\r\n")
unfolding copy_resp
attribute_and_push = refl

abbrev Fails : Bytes → Error → Type 0
Fails s e = (copy_resp discard (input s)).error ≡ some e

malformed :
    Fails (codes "?bogus\r\n") unexpected_type
    × Fails (codes "$notanumber\r\n") malformed_length
    × Fails (codes "+no terminator") (io eof)
    × Fails (codes "$999999999999\r\n") bulk_too_long
    × Fails (codes ">2000000\r\n") too_many_elements
    × Fails (codes "$5\r\nhel") (io eof)
unfolding copy_resp
malformed = (refl, refl, refl, refl, refl, refl)

abbrev ok_reply : Bytes
ok_reply = codes "+OK\r\n:1\r\n"

ok_reply-Value : Value ok_reply (codes ":1\r\n")
ok_reply-Value = scalar {m = b'+'} {text = codes "OK"} (inl refl) (record {
  starts = refl;
  marker = omega arith;
  no_newline = (omega arith, (omega arith, tt));
  fits = omega arith;
})

copy_resp-Value_example :
    (bytes : Bytes) × (ok_reply ≡ bytes ++ codes ":1\r\n")
    × (copy_resp discard (input ok_reply)
        ≡ record { sink = append_to discard bytes; reader = input (codes ":1\r\n"); error = none })
copy_resp-Value_example =
    copy_resp-Value discard ok_reply (codes ":1\r\n") eof (refl, refl) ok_reply-Value (omega arith)

ok_reply_copied : (copy_resp discard (input ok_reply)).error ≡ none
unfolding copy_resp
ok_reply_copied = refl

Value-of_copy_resp_example :
    let c = copy_resp discard (input ok_reply) in
    Value ok_reply c.reader.unread
    × ((bytes : Bytes) × (ok_reply ≡ bytes ++ c.reader.unread)
        × (c.sink.written ≡ discard.written ++ bytes))
Value-of_copy_resp_example = Value-of_copy_resp discard ok_reply eof (omega arith) ok_reply_copied

copy_resp-ne-diverged_example : (copy_resp discard (input ok_reply)).error ≢ some diverged
copy_resp-ne-diverged_example = copy_resp-ne-diverged discard (input ok_reply)
