-- ===== src/Reply/Copying/Steps.antt =====
-- The loop of `copyRESP`, one line at a time, over a writer that takes everything.
use mathlib.Core.Path.{subst}
use redis_sentinel_proxy.Base.{
  ℕ, zero, suc, ◌+◌, ◌^◌, ◌≤◌, ◌<◌, [], ◌++◌, true, Bytes, length, length-append, append_assoc, ◌≡◌,
  refl, sym, ap, ◌∙◌, arith,
}
use redis_sentinel_proxy.Io.{Sink, IoError, Copied, IsOpen, append_to}
use redis_sentinel_proxy.Io.Transfer.{write_open, append_to_nil, append_to-append}
use redis_sentinel_proxy.Resp.Lines.{
  Line, line_bytes, payload-line_bytes, read_line_accepts, length-Line, Line-splits,
  length-line_bytes,
}
use redis_sentinel_proxy.Reply.{
  CopyState, Round, is_positive, proceed, kind, dispatch, relay_line, copy_round, copy_loop,
}
use redis_sentinel_proxy.Reply.Loop.{copy_loop_next}

module _ (fin : IoError) where
  abbrev pub state : ℕ → Sink → Bytes → CopyState
  state k w s = record { remaining = k; sink = w; reader = record { unread = s; fin = fin } }

  -- With any fuel above the unread bytes the loop ends so.
  abbrev pub Ends : CopyState → Copied → Type 0
  Ends s c = (fuel : ℕ) → length s.reader.unread < fuel → copy_loop fuel s ≡ c

  round_of_Line :
      (k : ℕ) (w : Sink) {m : ℕ} {text s t : Bytes}
      → IsOpen w
      → Line m text s t
      → copy_round (state k w s)
        ≡ dispatch (kind m) text (state k (append_to w (line_bytes m text)) t)
  unfolding copy_round
  round_of_Line k w {m} {text} {s} {t} h line =
      rw
        (
          read_line_accepts (record { unread = s; fin = fin }) (record { unread = t; fin = fin })
              (line_bytes m text) m text refl line refl,
          copy_round,
        )
        (unfold relay_line in rw (write_open (line_bytes m text) w h, payload-line_bytes m text))

  positive :
      (k : ℕ) (s : CopyState)
      → s.remaining ≡ suc k
      → suc k < 2 ^ 63
      → is_positive s.remaining ≡ true
  positive k s r small = ground arith

  loop_step :
      (k : ℕ) (s : CopyState) (c : Copied)
      → suc k < 2 ^ 63
      → s.remaining ≡ suc k
      → {s' : CopyState} → copy_round s ≡ proceed s'
      → length s'.reader.unread < length s.reader.unread
      → Ends s' c
      → Ends s c
  loop_step k s c small r e shorter ends zero lt = absurd (omega arith)
  loop_step k s c small r e shorter ends (suc fuel) lt =
      let going = positive k s r small in
      copy_loop_next fuel s going (ap (λ (x : Round). x.error) e)
      ∙ ap (λ (x : Round). copy_loop fuel x.state) e
      ∙ ends fuel (omega arith)

  Line-step :
      (k : ℕ) (w : Sink) (c : Copied) {m : ℕ} {text s t : Bytes}
      → IsOpen w
      → Line m text s t
      → suc k < 2 ^ 63
      → {s' : CopyState}
      → dispatch (kind m) text (state (suc k) (append_to w (line_bytes m text)) t) ≡ proceed s'
      → length s'.reader.unread ≤ length t
      → Ends s' c
      → Ends (state (suc k) w s) c
  Line-step k w c h line small e shorter ends =
      loop_step k _ c small refl (round_of_Line (suc k) w h line ∙ e)
        (omega (arith, shorter, length-Line line)) ends

  Ends-cong :
      (c : Copied) {k k' : ℕ} {w w' : Sink} {s s' : Bytes}
      → k ≡ k'
      → w ≡ w'
      → s ≡ s'
      → Ends (state k w s) c
      → Ends (state k' w' s') c
  Ends-cong c e f g = subst (λ x. Ends x c) (λ i. state (e i) (f i) (g i))

  -- A reply passes: the loop writes its bytes and counts one.
  pub record Passes (s t : Bytes) : Type 0 where
    pub bytes : Bytes
    pub splits : s ≡ bytes ++ t
    pub long : 3 ≤ length bytes
    pub passes :
        (k : ℕ) (w : Sink) (c : Copied)
        → IsOpen w
        → k + length bytes < 2 ^ 63
        → Ends (state k (append_to w bytes) t) c
        → Ends (state (suc k) w s) c

  -- So do `n` replies.
  pub record PassesAll (n : ℕ) (s t : Bytes) : Type 0 where
    pub bytes : Bytes
    pub splits : s ≡ bytes ++ t
    pub long : n ≤ length bytes
    pub passes :
        (k : ℕ) (w : Sink) (c : Copied)
        → IsOpen w
        → k + length bytes < 2 ^ 63
        → Ends (state k (append_to w bytes) t) c
        → Ends (state (n + k) w s) c

  pub PassesAll-finish : {s t : Bytes} → s ≡ t → PassesAll 0 s t
  PassesAll-finish e = record {
    bytes = [];
    splits = e;
    long = omega arith;
    passes = λ k w c h small ends. Ends-cong c (omega arith) (λ i. append_to_nil w i) (sym e) ends;
  }

  pub PassesAll-then :
      {k : ℕ} {s t u : Bytes} → Passes s t → PassesAll k t u → PassesAll (suc k) s u
  PassesAll-then {k} {s} {t} {u} p q = record {
    bytes = p.bytes ++ q.bytes;
    splits = p.splits ∙ ap (λ x. p.bytes ++ x) q.splits ∙ sym (append_assoc p.bytes q.bytes u);
    long = omega (arith, p.long, q.long, length-append p.bytes q.bytes);
    passes = λ j w c h small ends.
        let len = length-append p.bytes q.bytes in
        Ends-cong c (omega arith) refl refl (
          p.passes (k + j) w c h (omega (arith, q.long, small, len)) (
            q.passes j (append_to w p.bytes) c h (omega (arith, small, len))
              (Ends-cong c refl (sym (append_to-append w p.bytes q.bytes)) refl ends)));
  }

  -- A line that stands for one reply by itself.
  pub Passes-Line :
      {m : ℕ} {text s t : Bytes}
      → Line m text s t
      → ((w : Sink) (k : ℕ)
          → suc k < 2 ^ 63
          → dispatch (kind m) text (state (suc k) w t) ≡ proceed (state k w t))
      → Passes s t
  Passes-Line {m} {text} {s} {t} line step = record {
    bytes = line_bytes m text;
    splits = Line-splits line;
    long = omega (arith, length-line_bytes m text);
    passes = λ k w c h small ends.
        Line-step k w c h line (omega (arith, small, length-line_bytes m text))
          (step _ k (omega (arith, small, length-line_bytes m text))) (omega arith) ends;
  }

  -- A header that replaces the awaited reply by `n` others, or leaves it and adds `n`.
  pub Passes-header :
      {m n : ℕ} {text s t u : Bytes}
      → Line m text s t
      → PassesAll n t u
      → ((w : Sink) (k : ℕ)
          → n + k < 2 ^ 63
          → suc k < 2 ^ 63
          → dispatch (kind m) text (state (suc k) w t) ≡ proceed (state (n + k) w t))
      → Passes s u
  Passes-header {m} {n} {text} {s} {t} {u} line q step = record {
    bytes = line_bytes m text ++ q.bytes;
    splits =
        Line-splits line
        ∙ ap (λ x. line_bytes m text ++ x) q.splits
        ∙ sym (append_assoc (line_bytes m text) q.bytes u);
    long = omega (arith, length-line_bytes m text, length-append (line_bytes m text) q.bytes);
    passes = λ k w c h small ends.
        let len = length-append (line_bytes m text) q.bytes in
        let len' = length-line_bytes m text in
        Line-step k w c h line (omega (arith, small, len, len'))
          (step _ k (omega (arith, small, len, len', q.long)) (omega (arith, small, len, len')))
          (omega arith)
          (q.passes k (append_to w (line_bytes m text)) c h (omega (arith, small, len))
            (Ends-cong c refl (sym (append_to-append w (line_bytes m text) q.bytes)) refl ends));
  }

  -- A header whose `n` replies stand before the awaited one.
  pub Passes-before :
      {m n : ℕ} {text s t u v : Bytes}
      → Line m text s t
      → PassesAll n t u
      → Passes u v
      → ((w : Sink) (k : ℕ)
          → n + suc k < 2 ^ 63
          → dispatch (kind m) text (state (suc k) w t) ≡ proceed (state (n + suc k) w t))
      → Passes s v
  Passes-before {m} {n} {text} {s} {t} {u} {v} line q p step =
      let head = line_bytes m text in
      let tail_len = length-append q.bytes p.bytes in
      let len = length-append head (q.bytes ++ p.bytes) in
      let head_len = length-line_bytes m text in
      record {
        bytes = head ++ (q.bytes ++ p.bytes);
        splits =
            Line-splits line
            ∙ ap (λ x. head ++ x) (q.splits ∙ ap (λ x. q.bytes ++ x) p.splits)
            ∙ ap (λ x. head ++ x) (sym (append_assoc q.bytes p.bytes v))
            ∙ sym (append_assoc head (q.bytes ++ p.bytes) v);
        long = omega (arith, head_len, len);
        passes = λ k w c h small ends.
            Line-step k w c h line (omega (arith, small, len, head_len))
              (step _ k (omega (arith, small, len, head_len, tail_len, q.long))) (omega arith)
              (q.passes (suc k) (append_to w head) c h
                (omega (arith, small, len, head_len, tail_len))
                (p.passes k (append_to (append_to w head) q.bytes) c h
                  (omega (arith, small, len, tail_len))
                  (Ends-cong c refl
                    (sym (
                      ap (λ x. append_to x p.bytes) (append_to-append w head q.bytes)
                      ∙ append_to-append w (head ++ q.bytes) p.bytes
                      ∙ ap (append_to w) (append_assoc head q.bytes p.bytes)))
                    refl ends)));
      }

  -- A line with a payload of so many bytes behind it.
  pub Passes-blob :
      {m : ℕ} {text s t u : Bytes} (body : Bytes)
      → Line m text s t
      → t ≡ body ++ u
      → ((w : Sink) (k : ℕ)
          → IsOpen w
          → suc k < 2 ^ 63
          → dispatch (kind m) text (state (suc k) w t) ≡ proceed (state k (append_to w body) u))
      → Passes s u
  Passes-blob {m} {text} {s} {t} {u} body line e step =
      let head = line_bytes m text in
      let len = length-append head body in
      let head_len = length-line_bytes m text in
      record {
        bytes = head ++ body;
        splits = Line-splits line ∙ ap (λ x. head ++ x) e ∙ sym (append_assoc head body u);
        long = omega (arith, head_len, len);
        passes = λ k w c h small ends.
            Line-step k w c h line (omega (arith, small, len, head_len))
              (step _ k h (omega (arith, small, len, head_len)))
              (omega (arith, ap length e, length-append body u))
              (Ends-cong c refl (sym (append_to-append w head body)) refl ends);
      }
