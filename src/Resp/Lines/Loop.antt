-- ===== src/Resp/Lines/Loop.antt =====
-- The loop of `readLine`: the rounds over full buffers, and the line that they end with.
use native.Mathlib.Decide.{dec_lt}
use redis_sentinel_proxy.Base.{
  ℕ, zero, suc, ◌+◌, ◌*◌, ◌≤◌, ◌<◌, [], ◌∷◌, ◌++◌, Bytes, length, length-append, length-take,
  length-drop, le→ltb, Bool-cases, inl, inr, take, drop, take-append-drop, append_assoc, ltb, ◌≡◌,
  refl, sym, ap, ◌∙◌, arith,
}
use redis_sentinel_proxy.Io.{
  IoError, Reader, Slice, Stop, delim, full, ended, Result, ok, bind-eq-ok, buffer_size, read_slice,
}
use redis_sentinel_proxy.Resp.{after_slice, finish_line, read_line_loop, line_fuel, max_line_len}
use redis_sentinel_proxy.Resp.Lines.Slices.{
  NoNewline, All-append, NoNewline-drop, Sliced, read_slice-Sliced, read_slice_found,
  read_slice_full,
}

-- The longest line accepted, its terminator included: 17 full buffers.
abbrev pub longest_line : ℕ
longest_line = 69632

module _ (fin : IoError) where
  abbrev pub reading : Bytes → Reader
  reading s = record { unread = s; fin = fin }

  -- One round, from what its slice is.
  loop_round :
      (k : ℕ) (line s : Bytes) (slice : Slice)
      → read_slice buffer_size s ≡ slice
      → read_line_loop (suc k) line (reading s)
        ≡ after_slice (read_line_loop k) slice.stop (line ++ slice.part) (reading slice.rest)
  unfolding read_line_loop
  loop_round k line s slice e =
      ap (λ (x : Slice). after_slice (read_line_loop k) x.stop (line ++ x.part) (reading x.rest)) e

  loop_found :
      (k : ℕ) (line body t : Bytes)
      → NoNewline body
      → length body < buffer_size
      → finish_line (line ++ (body ++ b'\n' ∷ [])) ≡ ok (line ++ (body ++ b'\n' ∷ []))
      → read_line_loop (suc k) line (reading (body ++ b'\n' ∷ t))
        ≡ ok (line ++ (body ++ b'\n' ∷ []), reading t)
  loop_found k line body t h lt f =
      loop_round k line _ _ (read_slice_found buffer_size body t h lt) ∙ unfold after_slice in rw f

  loop_full :
      (k : ℕ) (line body t : Bytes)
      → NoNewline body
      → buffer_size ≤ length body
      → length line + buffer_size ≤ max_line_len
      → read_line_loop (suc k) line (reading (body ++ b'\n' ∷ t))
        ≡ read_line_loop k
            (line ++ take buffer_size body)
            (reading (drop buffer_size body ++ b'\n' ∷ t))
  loop_full k line body t h le fits =
      loop_round k line _ _ (read_slice_full buffer_size body t h le)
      ∙ unfold after_slice in
        rw (
          le→ltb max_line_len (length (line ++ take buffer_size body)) (
            omega
              (arith, length-append line (take buffer_size body), length-take buffer_size body)))

  pub loop_accepts :
      (k j : ℕ) (line body t : Bytes)
      → NoNewline body
      → length line ≡ buffer_size * j
      → k + j ≡ line_fuel
      → length line + length body + 1 ≤ longest_line
      → finish_line (line ++ (body ++ b'\n' ∷ [])) ≡ ok (line ++ (body ++ b'\n' ∷ []))
      → read_line_loop k line (reading (body ++ b'\n' ∷ t))
        ≡ ok (line ++ (body ++ b'\n' ∷ []), reading t)
  loop_accepts zero j line body t h lj kj fits f = absurd (omega arith)
  loop_accepts (suc k) j line body t h lj kj fits f = elim (dec_lt (length body) buffer_size) [
    | yes lt ↦ loop_found k line body t h lt f
    | no ge ↦
        let first = take buffer_size body in
        let later = drop buffer_size body in
        let joined : (line ++ first) ++ (later ++ b'\n' ∷ []) ≡ line ++ (body ++ b'\n' ∷ []) =
          append_assoc line first _
          ∙ ap (λ x. line ++ x)
              (sym (append_assoc first later _)
                ∙ ap (λ x. x ++ b'\n' ∷ []) (take-append-drop buffer_size body)) in
        loop_full k line body t h (omega arith) (omega arith)
        ∙ loop_accepts k (suc j) (line ++ first) later t (NoNewline-drop buffer_size body h)
            (omega (arith, length-append line first, length-take buffer_size body)) (omega arith)
            (omega (
              arith,
              length-append line first,
              length-take buffer_size body,
              length-drop buffer_size body,
            ))
            (rw joined f)
        ∙ rw joined
  ]

-- What a run of the loop from `line` that returned `l` has read.
pub record Accepted (line s l : Bytes) (r : Reader) : Type 0 where
  pub body : Bytes
  pub no_newline : NoNewline body
  pub splits : s ≡ body ++ b'\n' ∷ r.unread
  pub whole : l ≡ line ++ (body ++ b'\n' ∷ [])
  pub checked : finish_line l ≡ ok l
  pub fits : length l ≤ longest_line

finish_line_self : (line : Bytes) {l : Bytes} → finish_line line ≡ ok l → l ≡ line
unfolding finish_line
finish_line_self line h = ground arith

Accepted-step :
    (line part rest l : Bytes) (r : Reader)
    → NoNewline part
    → Accepted (line ++ part) rest l r
    → Accepted line (part ++ rest) l r
Accepted-step line part rest l r h a = record {
  body = part ++ a.body;
  no_newline = All-append _ part a.body h a.no_newline;
  splits = ap (λ x. part ++ x) a.splits ∙ sym (append_assoc part a.body _);
  whole =
      a.whole ∙ append_assoc line part _ ∙ ap (λ x. line ++ x) (sym (append_assoc part a.body _));
  checked = a.checked;
  fits = a.fits;
}

module _ (fin : IoError) where
  -- A round that led to `l`, given what the rounds after a full buffer do.
  after_slice_sound :
      (again : Bytes → Reader → Result (Bytes × Reader)) (stop : Stop) (line s part rest l : Bytes)
      (r : Reader)
      → length line ≤ max_line_len
      → Sliced buffer_size s stop part rest
      → (length (line ++ part) ≤ max_line_len
          → length part ≡ buffer_size
          → again (line ++ part) (reading fin rest) ≡ ok (l, r)
          → Accepted (line ++ part) rest l r × (r.fin ≡ fin))
      → after_slice again stop (line ++ part) (reading fin rest) ≡ ok (l, r)
      → Accepted line s l r × (r.fin ≡ fin)
  unfolding after_slice
  after_slice_sound again ended line s part rest l r b sl ih h = cc
  after_slice_sound again full line s part rest l r b (nl, e, len) ih h =
      elim (Bool-cases (ltb max_line_len (length (line ++ part)))) [
        | inl over ↦ cc (rw over at h)
        | inr within ↦
            let (a, f) = ih (ground arith) len (rw within at h) in
            (rw e (Accepted-step line part rest l r nl a), f)
      ]
  after_slice_sound again delim line s part rest l r b (body, nl, e, p, lt) ih h =
      let (l', checked, same) =
        bind-eq-ok (finish_line (line ++ part)) (λ x. ok (x, reading fin rest)) h in
      let whole : l ≡ line ++ part = cc (finish_line_self (line ++ part) checked) in
      (
        record {
          body = body;
          no_newline = nl;
          splits = cc;
          whole = cc;
          checked = cc (finish_line_self (line ++ part) checked);
          fits = omega (
            arith,
            ap length whole,
            ap length p,
            length-append line part,
            length-append body (b'\n' ∷ []),
          );
        },
        cc,
      )

  pub loop_sound :
      (k j : ℕ) (line s l : Bytes) (r : Reader)
      → length line ≡ buffer_size * j
      → k + j ≡ line_fuel
      → length line ≤ max_line_len
      → read_line_loop k line (reading fin s) ≡ ok (l, r)
      → Accepted line s l r × (r.fin ≡ fin)
  loop_sound zero j line s l r lj kj b h = absurd (omega arith)
  loop_sound (suc k) j line s l r lj kj b h =
      let slice = read_slice buffer_size s in
      after_slice_sound (read_line_loop k) slice.stop line s slice.part slice.rest l r b
        (read_slice-Sliced buffer_size s)
        (λ b' len h'.
          loop_sound k (suc j) (line ++ slice.part) slice.rest l r
            (omega (arith, length-append line slice.part)) (omega arith) b' h')
        (sym (loop_round fin k line s slice refl) ∙ h)
