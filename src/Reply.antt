-- ===== src/Reply.antt =====
-- pkg/proxy/resp.go: `copyRESP`. The theorems are in the modules below.
--
-- `remaining` is an int64: it is kept as its 64-bit pattern, and `remaining > 0` is a test of that
-- pattern. After an error the reader stands where the failed step began, or behind what it took;
-- the program never reads it again.
pub mod Counts
pub mod Loop
pub mod Grammar
pub mod Copying
pub mod Consumed
pub mod Termination
pub mod Tests
use redis_sentinel_proxy.Base.{
  ℕ, zero, suc, ◌+◌, ◌-◌, ◌*◌, ◌%◌, ◌^◌, Bool, true, false, ◌&&◌, ◌||◌, [], ◌∷◌, ◌++◌, Option, none,
  some, Bytes, length, ltb, ◌==◌, if◌then◌else◌,
}
use redis_sentinel_proxy.Io.{
  Reader, Sink, Error, io, other, too_many_elements, bulk_too_long, unexpected_type, diverged, ok,
  err, Copied, write, copy_n,
}
use redis_sentinel_proxy.Io.Integer.{ℤ, pos, negsuc, pos_part, exceeds, parse_int}
use redis_sentinel_proxy.Resp.{
  max_resp_elements, max_bulk_len, byte_at, payload, read_line, parse_resp_int,
}

-- int64 arithmetic on 64-bit patterns.
abbrev pub add64 : ℕ → ℕ → ℕ
add64 r n = (r + n) % 2 ^ 64

abbrev pub dec64 : ℕ → ℕ
dec64 r = (r + (2 ^ 64 - 1)) % 2 ^ 64

abbrev pub is_positive : ℕ → Bool
is_positive r = ltb 0 r && ltb r (2 ^ 63)

pub record CopyState : Type 0 where
  pub remaining : ℕ
  pub sink : Sink
  pub reader : Reader

-- The cases of the `switch` on `line[0]`.
pub data Kind : Type 0 where
  single blob aggregate keyed attribute push unknown : Kind

unfoldable pub kind : ℕ → Kind
kind c =
    if c == b'+' || c == b'-' || c == b':' || c == b',' || c == b'#' || c == b'(' || c == b'_'
    then single
    else if c == b'$' || c == b'=' || c == b'!'
    then blob
    else if c == b'*' || c == b'~'
    then aggregate
    else if c == b'%'
    then keyed
    else if c == b'|'
    then attribute
    else if c == b'>'
    then push
    else unknown

-- A round of the loop: the state that it leaves, or its error.
pub record Round : Type 0 where
  pub state : CopyState
  pub error : Option Error

abbrev pub proceed : CopyState → Round
proceed s = record { state = s; error = none }

abbrev pub failed : CopyState → Error → Round
failed s e = record { state = s; error = some e }

-- `n, err := parseRESPInt(payload)` with the limit `limit`, then `next n`.
unfoldable pub with_count : Bytes → ℕ → Error → CopyState → (ℤ → Round) → Round
with_count text limit too_big s next = elim (parse_resp_int text) [
  | err e ↦ failed s e
  | ok n ↦ if exceeds n limit then failed s too_big else next n
]

-- `io.CopyN(w, br, n+2)` if the blob is not null, then `remaining--`.
copy_blob : CopyState → ℤ → Round
copy_blob s (pos n) =
    let c = copy_n (n + 2) s.sink s.reader in
    record {
      state = record { remaining = dec64 s.remaining; sink = c.sink; reader = c.reader };
      error = c.error;
    }
copy_blob s (negsuc n) = proceed (record s { remaining = dec64 s.remaining })

-- The `switch`, on the line's kind and payload.
unfoldable pub dispatch : Kind → Bytes → CopyState → Round
unfolding with_count copy_blob
dispatch single text s = proceed (record s { remaining = dec64 s.remaining })
dispatch blob text s = with_count text max_bulk_len bulk_too_long s (copy_blob s)
dispatch aggregate text s =
    with_count text max_resp_elements too_many_elements s
      λ n. proceed (record s { remaining = add64 (dec64 s.remaining) (pos_part n) })
dispatch keyed text s =
    with_count text max_resp_elements too_many_elements s
      λ n. proceed (record s { remaining = add64 (dec64 s.remaining) (2 * pos_part n) })
dispatch attribute text s =
    with_count text max_resp_elements too_many_elements s
      λ n. proceed (record s { remaining = add64 s.remaining (2 * pos_part n) })
dispatch push text s =
    with_count text max_resp_elements too_many_elements s
      λ n. proceed (record s { remaining = add64 s.remaining (pos_part n) })
dispatch unknown text s = failed s unexpected_type

-- The line is written before it is looked at.
unfoldable pub relay_line : CopyState → Bytes → Reader → Round
relay_line s line r =
    let (done, w) = write line s.sink in
    let s' = record s { sink = w; reader = r } in
    let next = dispatch (kind (byte_at line 0)) (payload line) s' in
    if done then next else failed s' (io other)

unfoldable pub copy_round : CopyState → Round
copy_round s = elim (read_line s.reader) [ err e ↦ failed s e | ok (line, r) ↦ relay_line s line r ]

abbrev pub copied : CopyState → Option Error → Copied
copied s e = record { sink = s.sink; reader = s.reader; error = e }

-- `if err != nil { return err }` behind a round, or the next one.
abbrev pub after_round : (CopyState → Copied) → CopyState → Option Error → Copied
after_round again s (some e) = copied s (some e)
after_round again s none = again s

-- `for remaining > 0`
unfoldable pub copy_loop : ℕ → CopyState → Copied
copy_loop zero s = copied s (some diverged)
copy_loop (suc fuel) s = elim (is_positive s.remaining) [
  | false ↦ copied s none
  | true ↦ let round = copy_round s in after_round (copy_loop fuel) round.state round.error
]

-- Each round takes a byte at least from the reader.
unfoldable pub copy_resp : Sink → Reader → Copied
unfolding copy_loop copy_round read_line relay_line dispatch kind write copy_n parse_resp_int
    parse_int
copy_resp w r = copy_loop (suc (length r.unread)) (record { remaining = 1; sink = w; reader = r })
