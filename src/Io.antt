-- ===== src/Io.antt =====
-- What the Go standard library gives to pkg/proxy: buffered readers (`bufio.Reader` over a
-- connection), writers, `io.ReadFull`, `io.CopyN`, `io.Copy`, and errors as values.
--
-- A reader is the bytes that will still arrive and the error that follows them; the bytes come
-- before the error, as they do from a connection. A writer keeps what was written and may fail
-- after any number of bytes; `none` stands for a writer that never fails.
pub mod Integer
pub mod Transfer
use redis_sentinel_proxy.Base.{
  ℕ, zero, suc, ◌+◌, ◌-◌, Bool, true, false, List, [], ◌∷◌, ◌++◌, Option, none, some, Bytes, length,
  take, drop, ltb, leb, ◌==◌, if◌then◌else◌, ◌≡◌, refl,
}

-- `io.EOF`, `io.ErrUnexpectedEOF`, `net.ErrClosed`, and any other error of a connection.
pub data IoError : Type 0 where
  eof unexpected_eof closed other : IoError

-- The errors of pkg/proxy/resp.go, one for each message, and those of the connection below.
-- `diverged` is no error of the program: it says that the model's fuel ran out.
pub data Error : Type 0 where
  io : IoError → Error
  inline_command line_too_long malformed_line malformed_length too_many_elements : Error
  not_bulk_string invalid_bulk_len bulk_too_long unexpected_type diverged : Error

pub data Result {ℓ} (A : Type ℓ) : Type ℓ where
  err : (e : Error) → Result A
  ok : (value : A) → Result A

-- What follows runs on the value of the first; an error of the first ends both.
infixl 5 ◌>>=◌
abbrev pub ◌>>=◌ {i j} : {A : Type i} {B : Type j} → Result A → (A → Result B) → Result B
err e >>= next = err e
ok x >>= next = next x

-- The same for a check, whose value says nothing.
infixl 5 ◌>>◌
abbrev pub ◌>>◌ {j} : {B : Type j} → Result (Unit {0}) → Result B → Result B
check >> next = check >>= λ _. next

-- `if !b { return err }`
abbrev pub guard : Bool → Error → Result (Unit {0})
guard true e = ok tt
guard false e = err e

pub bind-eq-ok {i j} :
    {A : Type i} {B : Type j} (first : Result A) (next : A → Result B) {y : B}
    → (first >>= next) ≡ ok y
    → (x : A) × (first ≡ ok x) × (next x ≡ ok y)
bind-eq-ok (err e) next same = cc
bind-eq-ok (ok x) next same = (x, refl, same)

pub record Reader : Type 0 where
  pub unread : Bytes
  pub fin : IoError

pub record Sink : Type 0 where
  pub written : Bytes
  pub room : Option ℕ
  pub shut : Bool  -- `CloseWrite` or `Close` was called

-- The default size of a `bufio.Reader`'s buffer.
abbrev pub buffer_size : ℕ
buffer_size = 4096

-- Why `ReadSlice` stopped: at the delimiter, on a full buffer (`bufio.ErrBufferFull`), or at the
-- error of the connection.
pub data Stop : Type 0 where
  delim full ended : Stop

pub record Slice : Type 0 where
  pub part : Bytes
  pub rest : Bytes
  pub stop : Stop

abbrev prepend : ℕ → Slice → Slice
prepend c s = record s { part = c ∷ s.part }

-- `br.ReadSlice('\n')` with a buffer of `n` bytes.
unfoldable pub read_slice : ℕ → Bytes → Slice
read_slice zero s = record { part = []; rest = s; stop = full }
read_slice (suc n) [] = record { part = []; rest = []; stop = ended }
read_slice (suc n) (c ∷ s) =
    let later = prepend c (read_slice n s) in
    if c == b'\n' then record { part = c ∷ []; rest = s; stop = delim } else later

-- `io.ReadFull` into a slice of `n` bytes.
short_read : Bytes → IoError → IoError
short_read (_ ∷ _) eof = unexpected_eof
short_read _ e = e

unfoldable pub read_full : ℕ → Reader → Result (Bytes × Reader)
unfolding short_read
read_full n r =
    if leb n (length r.unread)
    then ok (take n r.unread, record r { unread = drop n r.unread })
    else err (io (short_read r.unread r.fin))

-- `w.Write(b)`: whether it succeeded, and the writer afterwards.
pub write_into : Bytes → Sink → Option ℕ → Bool × Sink
write_into b w none = (true, record w { written = w.written ++ b })
write_into b w (some n) =
    if leb (length b) n
    then (true, record w { written = w.written ++ b; room = some (n - length b) })
    else (false, record w { written = w.written ++ take n b; room = some 0 })

unfoldable pub write : Bytes → Sink → Bool × Sink
unfolding write_into
write b w = if w.shut then (false, w) else write_into b w w.room

-- What a transfer from a reader to a writer leaves, and its error if it failed.
pub record Copied : Type 0 where
  pub sink : Sink
  pub reader : Reader
  pub error : Option Error

-- The reader ran dry, or the writer failed.
unfoldable pub copy_n : ℕ → Sink → Reader → Copied
unfolding write
copy_n n w r =
    let (done, w') = write (take n r.unread) w in
    let r' = record r { unread = drop n r.unread } in
    if done
    then if leb n (length r.unread)
      then record { sink = w'; reader = r'; error = none }
      else record { sink = w'; reader = r'; error = some (io r.fin) }
    else record { sink = w'; reader = r'; error = some (io other) }

-- `io.Discard`
abbrev pub discard : Sink
discard = record { written = []; room = none; shut = false }

-- A fresh writer that never fails.
abbrev pub IsOpen : Sink → Type 0
IsOpen w = (w.room ≡ none) × (w.shut ≡ false)

abbrev pub append_to : Sink → Bytes → Sink
append_to w b = record w { written = w.written ++ b }
