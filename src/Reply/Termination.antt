-- ===== src/Reply/Termination.antt =====
-- The loop of `copyRESP` ends: a round takes a line off the stream, so the model's bound on the
-- rounds is never met. Nothing is assumed of the stream, the writer or the counter.
use redis_sentinel_proxy.Base.{
  ℕ, zero, suc, ◌+◌, ◌≤◌, ◌<◌, ◌≢◌, Option, none, some, Bool-cases, Option-cases, inl, inr, Bytes,
  length, length-drop, ◌≡◌, refl, sym, ap, ◌∙◌, arith,
}
use redis_sentinel_proxy.Io.{Reader, Sink, Error, Copied, Result, ok, err, diverged, write, copy_n}
use redis_sentinel_proxy.Io.Integer.{ℤ, pos, negsuc}
use redis_sentinel_proxy.Resp.{byte_at, payload, read_line}
use redis_sentinel_proxy.Resp.Lines.{read_line_iff, length-Line}
use redis_sentinel_proxy.Resp.Termination.{read_line-ne-diverged}
use redis_sentinel_proxy.Reply.{
  Kind, single, blob, unknown, CopyState, Round, copy_blob, kind, relay_line, dispatch, copy_round,
  copy_loop, copy_resp, is_positive,
}
use redis_sentinel_proxy.Reply.Loop.{
  copy_round_ok, copy_round_err, copy_loop_stopped, copy_loop_next, copy_loop_failed,
  copy_resp_loop,
}
use redis_sentinel_proxy.Reply.Counts.{with_count_elim}

-- The round is no divergence, and leaves `n` unread bytes at most unless it failed.
abbrev Falls : ℕ → Round → Type 0
Falls n r = (r.error ≢ some diverged) × (r.error ≡ none → length r.state.reader.unread ≤ n)

copy_n-Falls :
    (n : ℕ) (w : Sink) (r : Reader)
    → ((copy_n n w r).error ≢ some diverged)
      × (length (copy_n n w r).reader.unread ≤ length r.unread)
unfolding copy_n write
copy_n-Falls n w r = (ground arith, ground (arith, length-drop n r.unread))

copy_blob-Falls : (s : CopyState) (z : ℤ) → Falls (length s.reader.unread) (copy_blob s z)
unfolding copy_blob
copy_blob-Falls s (pos n) =
    let (fine, shorter) = copy_n-Falls (n + 2) s.sink s.reader in (fine, λ _. shorter)
copy_blob-Falls s (negsuc n) = (λ e. cc, λ _. omega arith)

dispatch-Falls :
    (κ : Kind) (text : Bytes) (s : CopyState) → Falls (length s.reader.unread) (dispatch κ text s)
unfolding dispatch
dispatch-Falls single text s = (λ e. cc, λ _. omega arith)
dispatch-Falls unknown text s = (λ e. cc, λ e. cc)
dispatch-Falls blob text s =
    with_count_elim text _ _ _ _ (Falls (length s.reader.unread)) (λ e. cc, λ e. cc)
      (λ e. cc, λ e. cc) (copy_blob-Falls s)
dispatch-Falls _ text s =
    with_count_elim text _ _ _ _ (Falls (length s.reader.unread)) (λ e. cc, λ e. cc)
      (λ e. cc, λ e. cc) (λ z. (λ e. cc, λ _. omega arith))

relay_line-Falls :
    (s : CopyState) (line : Bytes) (r : Reader) → Falls (length r.unread) (relay_line s line r)
unfolding relay_line
relay_line-Falls s line r = elim (Bool-cases (write line s.sink).0) [
  | inl done ↦ rw done (dispatch-Falls (kind (byte_at line 0)) (payload line) _)
  | inr undone ↦ rw undone (λ e. cc, λ e. cc)
]

copy_round-Falls :
    (s : CopyState)
    → ((copy_round s).error ≢ some diverged)
      × ((copy_round s).error ≡ none
          → length (copy_round s).state.reader.unread < length s.reader.unread)
copy_round-Falls s = of_result (read_line s.reader) refl
  where
    of_result :
        (o : Result (Bytes × Reader))
        → read_line s.reader ≡ o
        → ((copy_round s).error ≢ some diverged)
          × ((copy_round s).error ≡ none
              → length (copy_round s).state.reader.unread < length s.reader.unread)
    of_result (err x) e =
        rw (copy_round_err s x e) (λ d. read_line-ne-diverged s.reader (e ∙ cc d), λ d. cc)
    of_result (ok (line, r)) e =
        let (fine, shorter) = relay_line-Falls s line r in
        let (m, text, l, is_line, f) = (read_line_iff s.reader r line).0 e in
        rw (copy_round_ok s line r e) (fine, λ d. omega (arith, shorter d, length-Line is_line))

abbrev error_of : Copied → Option Error
error_of c = c.error

copy_loop-ne-diverged :
    (fuel : ℕ) (s : CopyState)
    → length s.reader.unread < fuel
    → (copy_loop fuel s).error ≢ some diverged
copy_loop-ne-diverged zero s h e = absurd (omega arith)
copy_loop-ne-diverged (suc fuel) s h e = elim (Bool-cases (is_positive s.remaining)) [
  | inr stopped ↦ cc (ap error_of (copy_loop_stopped fuel s stopped), e)
  | inl goes_on ↦ elim (Option-cases (copy_round s).error) [
    | inl fine ↦
        copy_loop-ne-diverged fuel (copy_round s).state (omega (arith, (copy_round-Falls s).1 fine))
          (ap error_of (sym (copy_loop_next fuel s goes_on fine)) ∙ e)
    | inr (x, failed_) ↦
        (copy_round-Falls s).0
          (failed_ ∙ ap error_of (sym (copy_loop_failed fuel s x goes_on failed_)) ∙ e)
  ]
]

-- `copyRESP` comes to an end on every stream and every writer: one round of its loop more than the
-- stream has bytes is enough.
pub copy_resp-ne-diverged : (w : Sink) (r : Reader) → (copy_resp w r).error ≢ some diverged
copy_resp-ne-diverged w r e =
    copy_loop-ne-diverged (suc (length r.unread)) (record { remaining = 1; sink = w; reader = r })
      (omega arith) (ap error_of (sym (copy_resp_loop w r)) ∙ e)
