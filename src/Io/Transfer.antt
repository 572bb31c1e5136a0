-- ===== src/Io/Transfer.antt =====
-- What the transfers do with a writer that takes everything.
use redis_sentinel_proxy.Base.{
  ℕ, true, [], ◌++◌, none, some, Bytes, length, length-append, take, take-append, drop, drop-append,
  ◌≡◌, refl, arith, sym, append_assoc, append-nil, take-append-drop, le→leb, leb, Option,
  Bool-cases, inl, inr,
}
use redis_sentinel_proxy.Io.{Sink, IoError, IsOpen, append_to, write, write_into, copy_n}

pub write_open : (b : Bytes) (w : Sink) → IsOpen w → write b w ≡ (true, append_to w b)
unfolding write
write_open b w h = ground arith

pub append_to-append : (w : Sink) (a b : Bytes) → append_to (append_to w a) b ≡ append_to w (a ++ b)
append_to-append w a b = λ i. record w { written = append_assoc w.written a b i }

pub append_to_nil : (w : Sink) → append_to w [] ≡ w
append_to_nil w = λ i. record w { written = append-nil w.written i }

pub copy_n_open :
    (n : ℕ) (body t : Bytes) (w : Sink) (fin : IoError)
    → IsOpen w
    → length body ≡ n
    → copy_n n w (record { unread = body ++ t; fin = fin })
      ≡ record { sink = append_to w body; reader = record { unread = t; fin = fin }; error = none }
copy_n_open n body t w fin h e = rw (← e) (
    unfold copy_n in
    rw (
      take-append body t,
      drop-append body t,
      write_open body w h,
      le→leb (length body) (length (body ++ t)) (omega (arith, length-append body t)),
    ))

-- `b` is `a` with some first bytes of `raw` behind it.
abbrev pub Prefix : Bytes → Bytes → Bytes → Type 0
Prefix raw a b = (p : Bytes) × (q : Bytes) × (p ++ q ≡ raw) × (b ≡ a ++ p)

write_into-Prefix :
    (b : Bytes) (w : Sink) (room : Option ℕ) → Prefix b w.written (write_into b w room).1.written
unfolding write_into
write_into-Prefix b w none = (b, [], append-nil b, refl)
write_into-Prefix b w (some n) = elim (Bool-cases (leb (length b) n)) [
  | inl fits ↦ (b, [], append-nil b, simp fits)
  | inr over ↦ (take n b, drop n b, take-append-drop n b, simp over)
]

-- Whatever a writer does, it keeps some first bytes of what it is given, in order.
pub write-Prefix : (b : Bytes) (w : Sink) → Prefix b w.written (write b w).1.written
unfolding write
write-Prefix b w = elim (Bool-cases w.shut) [
  | inl shut ↦ simp shut ([], b, refl, sym (append-nil w.written))
  | inr open_ ↦ simp open_ (write_into-Prefix b w w.room)
]

-- A write that succeeded kept all of them.
pub write_whole :
    (b : Bytes) (w : Sink) → (write b w).0 ≡ true → (write b w).1.written ≡ w.written ++ b
unfolding write
write_whole b w h = ground arith
