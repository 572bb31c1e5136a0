-- ===== src/Reply/Loop.antt =====
-- The loop of `copyRESP`, round by round, as equations.
use redis_sentinel_proxy.Base.{
  ℕ, zero, suc, none, some, true, false, Bytes, length, ◌≡◌, refl, ◌∙◌, ap,
}
use redis_sentinel_proxy.Io.{Reader, Sink, Error, ok, err, diverged}
use redis_sentinel_proxy.Resp.{read_line}
use redis_sentinel_proxy.Reply.{
  CopyState, failed, relay_line, copy_round, copied, copy_loop, copy_resp, after_round, is_positive,
}

pub copy_round_ok :
    (s : CopyState) (line : Bytes) (r : Reader)
    → read_line s.reader ≡ ok (line, r)
    → copy_round s ≡ relay_line s line r
unfolding copy_round
copy_round_ok s line r e = rw (e, copy_round)

pub copy_round_err :
    (s : CopyState) (x : Error) → read_line s.reader ≡ err x → copy_round s ≡ failed s x
unfolding copy_round
copy_round_err s x e = rw (e, copy_round)

pub copy_loop_out : (s : CopyState) → copy_loop zero s ≡ copied s (some diverged)
unfolding copy_loop
copy_loop_out s = refl

pub copy_loop_stopped :
    (fuel : ℕ) (s : CopyState)
    → is_positive s.remaining ≡ false
    → copy_loop (suc fuel) s ≡ copied s none
unfolding copy_loop
copy_loop_stopped fuel s h = rw (h, copy_loop)

copy_loop_round :
    (fuel : ℕ) (s : CopyState)
    → is_positive s.remaining ≡ true
    → copy_loop (suc fuel) s
      ≡ after_round (copy_loop fuel) (copy_round s).state (copy_round s).error
unfolding copy_loop
copy_loop_round fuel s h = rw (h, copy_loop)

pub copy_loop_next :
    (fuel : ℕ) (s : CopyState)
    → is_positive s.remaining ≡ true
    → (copy_round s).error ≡ none
    → copy_loop (suc fuel) s ≡ copy_loop fuel (copy_round s).state
copy_loop_next fuel s p e =
    copy_loop_round fuel s p ∙ ap (after_round (copy_loop fuel) (copy_round s).state) e

pub copy_loop_failed :
    (fuel : ℕ) (s : CopyState) (x : Error)
    → is_positive s.remaining ≡ true
    → (copy_round s).error ≡ some x
    → copy_loop (suc fuel) s ≡ copied (copy_round s).state (some x)
copy_loop_failed fuel s x p e =
    copy_loop_round fuel s p ∙ ap (after_round (copy_loop fuel) (copy_round s).state) e

pub copy_resp_loop :
    (w : Sink) (r : Reader)
    → copy_resp w r
      ≡ copy_loop (suc (length r.unread)) (record { remaining = 1; sink = w; reader = r })
unfolding copy_resp
copy_resp_loop w r = refl
