-- ===== src/Resp/Termination.antt =====
-- The loop of `readLine` ends: eighteen rounds are never used up.
use redis_sentinel_proxy.Base.{
  ℕ, zero, suc, ◌+◌, ◌*◌, ◌≤◌, ◌++◌, [], ◌≢◌, Bytes, length, length-append, Bool-cases, inl, inr,
  ltb, ◌≡◌, refl, arith,
}
use redis_sentinel_proxy.Io.{
  Reader, Stop, delim, full, ended, Result, ok, err, diverged, ◌>>=◌, buffer_size, read_slice,
}
use redis_sentinel_proxy.Resp.{
  finish_line, after_slice, read_line_loop, read_line, line_fuel, max_line_len,
}
use redis_sentinel_proxy.Resp.Lines.{full_slice}

finish_line-ne-diverged : (line : Bytes) → finish_line line ≢ err diverged
unfolding finish_line
finish_line-ne-diverged line h = ground arith

bind_ne_diverged :
    (m : Result Bytes) (r : Reader)
    → m ≢ err diverged
    → ◌>>=◌ {B = Bytes × Reader} m (λ l. ok (l, r)) ≢ err diverged
bind_ne_diverged (ok a) r h e = cc
bind_ne_diverged (err x) r h e = h (cc)

after_slice-ne-diverged :
    (again : Bytes → Reader → Result (Bytes × Reader)) (stop : Stop) (line : Bytes) (r : Reader)
    → (stop ≡ full → length line ≤ max_line_len → again line r ≢ err diverged)
    → after_slice again stop line r ≢ err diverged
unfolding after_slice
after_slice-ne-diverged again delim line r h e =
    bind_ne_diverged (finish_line line) r (finish_line-ne-diverged line) e
after_slice-ne-diverged again ended line r h e = cc
after_slice-ne-diverged again full line r h e = elim (Bool-cases (ltb max_line_len (length line))) [
  | inl over ↦ cc (rw over at e)
  | inr within ↦ h refl (ground arith) (rw within at e)
]

read_line_loop-ne-diverged :
    (k j : ℕ) (line : Bytes) (r : Reader)
    → length line ≡ buffer_size * j
    → k + j ≡ line_fuel
    → length line ≤ max_line_len
    → read_line_loop k line r ≢ err diverged
unfolding read_line_loop
read_line_loop-ne-diverged zero j line r lj kj le h = omega arith
read_line_loop-ne-diverged (suc k) j line r lj kj le h =
    let slice = read_slice buffer_size r.unread in
    after_slice-ne-diverged (read_line_loop k) slice.stop (line ++ slice.part) _
      (λ e le'.
        read_line_loop-ne-diverged k (suc j) (line ++ slice.part) _
          (omega (arith, length-append line slice.part, full_slice buffer_size r.unread e))
          (omega arith) le')
      h

-- `readLine` returns a line or an error of the program on every stream: the model's bound on its
-- rounds is never met.
pub read_line-ne-diverged : (r : Reader) → read_line r ≢ err diverged
unfolding read_line
read_line-ne-diverged r = read_line_loop-ne-diverged line_fuel 0 [] r refl refl (omega arith)
