-- ===== src/Resp/Tests.antt =====
-- Runs of `readCommand` on the inputs of pkg/proxy/resp_test.go, and the instances of the theorems.
use redis_sentinel_proxy.Base.{
  ℕ, [], ◌∷◌, ◌++◌, List, some, codes, Bytes, ◌≡◌, ◌≢◌, ◌↔◌, refl, arith,
}
use redis_sentinel_proxy.Io.{
  Reader, eof, ok, err, io, inline_command, malformed_line, malformed_length, too_many_elements,
  not_bulk_string, invalid_bulk_len, unexpected_eof,
}
use redis_sentinel_proxy.Io.{diverged}
use redis_sentinel_proxy.Io.Integer.{pos, parse_int}
use redis_sentinel_proxy.Resp.{Command, read_line, read_command}
use redis_sentinel_proxy.Resp.Lines.{Line, line_bytes, read_line_iff}
use redis_sentinel_proxy.Resp.Commands.{IsCommand, name_of, read_command_sound, read_command_exact}
use redis_sentinel_proxy.Resp.Termination.{read_line-ne-diverged}
use redis_sentinel_proxy.Resp.Samples.{word_command, word_command-IsCommand}

abbrev no_unicode : Bytes → Bytes
no_unicode s = s

abbrev input : Bytes → Reader
input s = record { unread = s; fin = eof }

ping :
    read_command no_unicode (input (codes "*1\r\n$4\r\nping\r\n*0\r\n"))
    ≡ ok
        (record { name = codes "PING"; raw = codes "*1\r\n$4\r\nping\r\n" }, input (codes "*0\r\n"))
unfolding read_command
ping = refl

malformed :
    (read_command no_unicode (input (codes "PING\r\n")) ≡ err inline_command)
    × (read_command no_unicode (input (codes "*2\r\n:1\r\n:2\r\n")) ≡ err not_bulk_string)
    × (read_command no_unicode (input (codes "*1\r\n$-1\r\n")) ≡ err invalid_bulk_len)
    × (read_command no_unicode (input (codes "*notanumber\r\n")) ≡ err malformed_length)
    × (read_command no_unicode (input (codes "*2000000\r\n")) ≡ err too_many_elements)
    × (read_command no_unicode (input (codes "*1\n$4\nPING\n")) ≡ err malformed_line)
    × (read_command no_unicode (input (codes "*1\r\n$4\r\nPI")) ≡ err (io unexpected_eof))
unfolding read_command
malformed = (refl, refl, refl, refl, refl, refl, refl)

read_line_iff_example :
    (read_line (input (codes "*1\r\n$4\r\n")) ≡ ok (codes "*1\r\n", input (codes "$4\r\n"))) ↔ (
      (m : ℕ) × (text : Bytes) × (codes "*1\r\n" ≡ line_bytes m text)
      × Line m text (codes "*1\r\n$4\r\n") (codes "$4\r\n")
      × (eof ≡ eof))
read_line_iff_example =
    read_line_iff (input (codes "*1\r\n$4\r\n")) (input (codes "$4\r\n")) (codes "*1\r\n")

read_line-ne-diverged_example : read_line (input (codes "*1\r\n")) ≢ err diverged
read_line-ne-diverged_example = read_line-ne-diverged (input (codes "*1\r\n"))

abbrev ping_command : Command
ping_command = record { name = codes "PING"; raw = codes "*1\r\n$4\r\nping\r\n" }

ping_read :
    read_command no_unicode (input (word_command b'4' (codes "ping") (codes "*0\r\n")))
    ≡ ok (ping_command, input (codes "*0\r\n"))
unfolding read_command
ping_read = refl

read_command_sound_example :
    (args : List Bytes) × IsCommand args
      (word_command b'4' (codes "ping") (codes "*0\r\n"))
      (codes "*0\r\n")
    × (codes "PING" ≡ name_of no_unicode args)
    × (word_command b'4' (codes "ping") (codes "*0\r\n") ≡ ping_command.raw ++ codes "*0\r\n")
    × (eof ≡ eof)
read_command_sound_example =
    read_command_sound no_unicode (input (word_command b'4' (codes "ping") (codes "*0\r\n")))
      (input (codes "*0\r\n")) ping_command ping_read

four : parse_int (codes "4") ≡ some (pos 4)
unfolding parse_int
four = refl

read_command_exact_example :
    (raw : Bytes) × (word_command b'4' (codes "ping") [] ≡ raw ++ [])
    × (read_command no_unicode (input (word_command b'4' (codes "ping") []))
        ≡ ok (record { name = name_of no_unicode (codes "ping" ∷ []); raw = raw }, input []))
read_command_exact_example =
    read_command_exact no_unicode (codes "ping" ∷ []) (word_command b'4' (codes "ping") []) [] eof
      (word_command-IsCommand b'4' (codes "ping") [] four (omega arith) (omega arith))
