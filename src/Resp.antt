-- ===== src/Resp.antt =====
-- pkg/proxy/resp.go: `readLine`, `parseRESPInt` and `readCommand`. The theorems are in the modules
-- below.
pub mod Lines
pub mod Commands
pub mod Termination
pub mod Samples
pub mod Tests
use redis_sentinel_proxy.Base.{
  ℕ, zero, suc, ◌+◌, ◌-◌, ◌*◌, Bool, true, false, not, ◌&&◌, ◌||◌, [], ◌∷◌, ◌++◌, map, none, some,
  Bytes, length, take, drop, ltb, leb, ◌==◌, if◌then◌else◌,
}
use redis_sentinel_proxy.Io.{
  Reader, Stop, delim, full, ended, io, inline_command, line_too_long, malformed_line,
  malformed_length, too_many_elements, not_bulk_string, invalid_bulk_len, diverged, Result, ok, err,
  ◌>>=◌, ◌>>◌, guard, buffer_size, read_slice, read_full,
}
use redis_sentinel_proxy.Io.Integer.{ℤ, pos_part, exceeds, is_negative, parse_int}

abbrev pub max_resp_elements : ℕ
max_resp_elements = 1024 * 1024

abbrev pub max_bulk_len : ℕ
max_bulk_len = 512 * 1024 * 1024

abbrev pub max_line_len : ℕ
max_line_len = 64 * 1024

abbrev pub byte_at : Bytes → ℕ → ℕ
byte_at [] i = 0
byte_at (c ∷ s) zero = c
byte_at (c ∷ s) (suc i) = byte_at s i

-- The test behind the loop of `readLine`.
unfoldable pub finish_line : Bytes → Result Bytes
finish_line line =
    if ltb (length line) 3 || not (byte_at line (length line - 2) == b'\r')
    then err malformed_line
    else ok line

-- A round of the loop of `readLine`, after `line = append(line, part...)`; `again` is the next
-- round.
unfoldable pub after_slice :
    (Bytes → Reader → Result (Bytes × Reader)) → Stop → Bytes → Reader → Result (Bytes × Reader)
unfolding finish_line
after_slice again delim line r = do l ← finish_line line; ok (l, r)
after_slice again ended line r = err (io r.fin)
after_slice again full line r =
    let rest = again line r in if ltb max_line_len (length line) then err line_too_long else rest

-- The loop of `readLine`; `line` is what it has so far.
unfoldable pub read_line_loop : ℕ → Bytes → Reader → Result (Bytes × Reader)
unfolding after_slice
read_line_loop zero line r = err diverged
read_line_loop (suc fuel) line r =
    let slice = read_slice buffer_size r.unread in
    after_slice (read_line_loop fuel) slice.stop (line ++ slice.part)
      (record r { unread = slice.rest })

-- A buffer full of bytes adds 4096 to the line, so the limit stops the loop in round 17.
abbrev pub line_fuel : ℕ
line_fuel = 18

unfoldable pub read_line : Reader → Result (Bytes × Reader)
unfolding read_line_loop read_slice
read_line r = read_line_loop line_fuel [] r

unfoldable pub parse_resp_int : Bytes → Result ℤ
parse_resp_int b = elim (parse_int b) [ none ↦ err malformed_length | some n ↦ ok n ]

-- `line[1 : len(line)-2]`
abbrev pub payload : Bytes → Bytes
payload line = drop 1 (take (length line - 2) line)

-- `strings.ToUpper` maps ASCII text byte by byte, and any other by the Unicode tables, which are
-- the parameter `unicode`.
abbrev pub upper_byte : ℕ → ℕ
upper_byte c = if leb b'a' c && leb c b'z' then c - 32 else c

abbrev pub is_ascii : Bytes → Bool
is_ascii [] = true
is_ascii (c ∷ s) = ltb c 128 && is_ascii s

unfoldable pub to_upper : (Bytes → Bytes) → Bytes → Bytes
to_upper unicode s = if is_ascii s then map upper_byte s else unicode s

-- `if l < 0 || l > maxBulkLen`, on success the length.
abbrev pub bulk_len : ℤ → Result ℕ
bulk_len l =
    if is_negative l || exceeds l max_bulk_len then err invalid_bulk_len else ok (pos_part l)

pub record Command : Type 0 where
  pub name : Bytes
  pub raw : Bytes

module _ (unicode : Bytes → Bytes) where
  -- One round of the loop of `readCommand`: the payload and the bytes read.
  unfoldable pub read_arg : Reader → Result ((Bytes × Bytes) × Reader)
  read_arg r = do
    (line, r1) ← read_line r
    guard (byte_at line 0 == b'$') not_bulk_string
    l ← parse_resp_int (payload line)
    n ← bulk_len l
    (body, r2) ← read_full (n + 2) r1
    ok ((take n body, line ++ body), r2)

  -- The loop of `readCommand` with `left` rounds to go; `first` is `i == 0`.
  unfoldable pub read_args : ℕ → Bool → Command → Reader → Result (Command × Reader)
  read_args zero first c r = ok (c, r)
  read_args (suc left) first c r = do
    ((arg, bytes), r1) ← read_arg r
    read_args left false
        (record { name = if first then to_upper unicode arg else c.name; raw = c.raw ++ bytes }) r1

  -- From the array header on.
  unfoldable pub read_array : Reader → Result (Command × Reader)
  read_array r = do
    (line, r1) ← read_line r
    n ← parse_resp_int (payload line)
    guard (not (exceeds n max_resp_elements)) too_many_elements
    read_args (pos_part n) true (record { name = []; raw = line }) r1

  -- `br.Peek(1)` and what follows.
  unfoldable pub peek_dispatch : Bytes → Reader → Result (Command × Reader)
  peek_dispatch [] r = err (io r.fin)
  peek_dispatch (c ∷ _) r = if c == b'*' then read_array r else err inline_command

  unfoldable pub read_command : Reader → Result (Command × Reader)
  unfolding peek_dispatch read_array read_args read_arg read_line parse_resp_int parse_int read_full
      to_upper
  read_command r = peek_dispatch r.unread r
