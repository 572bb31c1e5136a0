-- ===== src/Reply/Copying.antt =====
-- `copyRESP` takes every reply of the grammar, and passes it on unchanged.
mod Steps
use mathlib.Core.Path.{subst}
use redis_sentinel_proxy.Base.{
  ℕ, zero, suc, ◌+◌, ◌*◌, ◌^◌, ◌≤◌, ◌<◌, ◌%◌, ◌-◌, [], ◌∷◌, ◌++◌, none, some, true, false, Bytes,
  length, length-append, ◌≡◌, refl, sym, ap, ◌∙◌, arith, le→ltb,
}
use redis_sentinel_proxy.Io.{Reader, Sink, IoError, Error, Copied, IsOpen, append_to, ok}
use redis_sentinel_proxy.Io.Integer.{ℤ, pos, negsuc, pos_part, exceeds, parse_int}
use redis_sentinel_proxy.Io.Transfer.{copy_n_open}
use redis_sentinel_proxy.Resp.{parse_resp_int, max_resp_elements, max_bulk_len}
use redis_sentinel_proxy.Resp.Lines.{Line}
use redis_sentinel_proxy.Reply.{
  Kind, single, blob, aggregate, keyed, attribute, push, CopyState, Round, proceed, failed, kind,
  with_count, dispatch, copy_loop, copy_resp, dec64, add64,
}
use redis_sentinel_proxy.Reply.Loop.{copy_loop_stopped, copy_resp_loop}
use redis_sentinel_proxy.Reply.Counts.{with_count_allowed}
use redis_sentinel_proxy.Reply.Grammar.{
  Value, Values, scalar, null, bulk, array, dictionary, attributed, pushed, finish, then, Announces,
  kind_single, kind_blob, kind_aggregate, kind_fixed,
}
use Steps.{
  state, Ends, Passes, PassesAll, PassesAll-finish, PassesAll-then, Passes-Line, Passes-header,
  Passes-before, Passes-blob,
}

dec64-suc : (k : ℕ) → suc k < 2 ^ 63 → dec64 (suc k) ≡ k
dec64-suc k h = omega arith

add64-dec64 : (n k : ℕ) → suc k < 2 ^ 63 → n + k < 2 ^ 63 → add64 (dec64 (suc k)) n ≡ n + k
add64-dec64 n k h g = omega arith

add64_small : (n k : ℕ) → n + suc k < 2 ^ 63 → add64 (suc k) n ≡ n + suc k
add64_small n k h = omega arith

module _ (fin : IoError) where
  single_step :
      (m : ℕ) (text t : Bytes)
      → kind m ≡ single
      → (w : Sink) (k : ℕ) → suc k < 2 ^ 63
      → dispatch (kind m) text (state fin (suc k) w t) ≡ proceed (state fin k w t)
  unfolding dispatch
  single_step m text t e w k small = rw e (ap (λ x. proceed (state fin x w t)) (dec64-suc k small))

  aggregate_step :
      (m n : ℕ) (text t : Bytes)
      → kind m ≡ aggregate
      → Announces text n
      → (w : Sink) (k : ℕ) → n + k < 2 ^ 63
      → suc k < 2 ^ 63
      → dispatch (kind m) text (state fin (suc k) w t) ≡ proceed (state fin (n + k) w t)
  unfolding dispatch
  aggregate_step m n text t e a w k room small = rw e (
      with_count_allowed text _ _ _ _ a.number a.parsed (omega (arith, a.count_is, a.allowed))
      ∙ ap (λ x. proceed (state fin x w t))
          (ap (add64 (dec64 (suc k))) (sym a.count_is) ∙ add64-dec64 n k small room))

  keyed_step :
      (n : ℕ) (text t : Bytes)
      → Announces text n
      → (w : Sink) (k : ℕ) → 2 * n + k < 2 ^ 63
      → suc k < 2 ^ 63
      → dispatch (kind b'%') text (state fin (suc k) w t) ≡ proceed (state fin (2 * n + k) w t)
  unfolding dispatch
  keyed_step n text t a w k room small = rw kind_fixed.0 (
      with_count_allowed text _ _ _ _ a.number a.parsed (omega (arith, a.count_is, a.allowed))
      ∙ ap (λ x. proceed (state fin x w t))
          (ap (λ x. add64 (dec64 (suc k)) (2 * x)) (sym a.count_is)
            ∙ add64-dec64 (2 * n) k small room))

  attribute_step :
      (n : ℕ) (text t : Bytes)
      → Announces text n
      → (w : Sink) (k : ℕ) → 2 * n + suc k < 2 ^ 63
      → dispatch (kind b'|') text (state fin (suc k) w t) ≡ proceed (state fin (2 * n + suc k) w t)
  unfolding dispatch
  attribute_step n text t a w k room = rw kind_fixed.1 (
      with_count_allowed text _ _ _ _ a.number a.parsed (omega (arith, a.count_is, a.allowed))
      ∙ ap (λ x. proceed (state fin x w t))
          (ap (λ x. add64 (suc k) (2 * x)) (sym a.count_is) ∙ add64_small (2 * n) k room))

  push_step :
      (n : ℕ) (text t : Bytes)
      → Announces text n
      → (w : Sink) (k : ℕ) → n + suc k < 2 ^ 63
      → dispatch (kind b'>') text (state fin (suc k) w t) ≡ proceed (state fin (n + suc k) w t)
  unfolding dispatch
  push_step n text t a w k room = rw kind_fixed.2 (
      with_count_allowed text _ _ _ _ a.number a.parsed (omega (arith, a.count_is, a.allowed))
      ∙ ap (λ x. proceed (state fin x w t))
          (ap (add64 (suc k)) (sym a.count_is) ∙ add64_small n k room))

  null_step :
      (m n : ℕ) (text t : Bytes)
      → kind m ≡ blob
      → parse_int text ≡ some (negsuc n)
      → (w : Sink) (k : ℕ) → suc k < 2 ^ 63
      → dispatch (kind m) text (state fin (suc k) w t) ≡ proceed (state fin k w t)
  unfolding dispatch
  null_step m n text t e p w k small = rw e (
      with_count_allowed text _ _ _ _ (negsuc n) p (omega arith)
      ∙ ap (λ x. proceed (state fin x w t)) (dec64-suc k small))

  bulk_step :
      (m n : ℕ) (text body u : Bytes)
      → kind m ≡ blob
      → parse_int text ≡ some (pos n)
      → n ≤ max_bulk_len
      → length body ≡ n + 2
      → (w : Sink) (k : ℕ) → IsOpen w
      → suc k < 2 ^ 63
      → dispatch (kind m) text (state fin (suc k) w (body ++ u))
        ≡ proceed (state fin k (append_to w body) u)
  unfolding dispatch
  bulk_step m n text body u e p le len w k h small = rw e (
      with_count_allowed text _ _ _ _ (pos n) p le
      ∙ rw (copy_n_open (n + 2) body u w fin h len)
          (ap (λ x. proceed (state fin x (append_to w body) u)) (dec64-suc k small)))

  mutual
    Value-Passes : {s t : Bytes} → Value s t → Passes fin s t
    Value-Passes (scalar {m} {text} {s} {t} one line) =
        Passes-Line fin line (single_step m text t (kind_single m one))
    Value-Passes (null {m} {n} {text} {s} {t} one line p) =
        Passes-Line fin line (null_step m n text t (kind_blob m one) p)
    Value-Passes (bulk {m} {n} {text} {s} {t} {u} body one line p le e len) =
        Passes-blob fin body line e
          (λ w k h small. rw e (bulk_step m n text body u (kind_blob m one) p le len w k h small))
    Value-Passes (array {m} {n} {text} {s} {t} one line a vs) =
        Passes-header fin line (values-PassesAll vs)
          (aggregate_step m n text t (kind_aggregate m one) a)
    Value-Passes (dictionary {n} {text} {s} {t} line a vs) =
        Passes-header fin line (values-PassesAll vs) (keyed_step n text t a)
    Value-Passes (attributed {n} {text} {s} {t} line a vs v) =
        Passes-before fin line (values-PassesAll vs) (Value-Passes v) (attribute_step n text t a)
    Value-Passes (pushed {n} {text} {s} {t} line a vs v) =
        Passes-before fin line (values-PassesAll vs) (Value-Passes v) (push_step n text t a)

    values-PassesAll : {n : ℕ} {s t : Bytes} → Values n s t → PassesAll fin n s t
    values-PassesAll (finish e) = PassesAll-finish fin e
    values-PassesAll (then v vs) = PassesAll-then fin (Value-Passes v) (values-PassesAll vs)

Ends-done :
    (w : Sink) (t : Bytes) (fin : IoError)
    → Ends fin
        (state fin 0 w t)
        (record { sink = w; reader = record { unread = t; fin = fin }; error = none })
Ends-done w t fin zero lt = absurd (omega arith)
Ends-done w t fin (suc fuel) lt = copy_loop_stopped fuel (state fin 0 w t) refl

-- On a stream of less than 2^63 bytes that begins with a reply, `copyRESP` writes exactly the bytes
-- of that reply to a writer that takes everything, reports no error, and leaves what follows unread.
pub copy_resp-Value :
    (w : Sink) (s t : Bytes) (fin : IoError)
    → IsOpen w
    → Value s t
    → length s < 2 ^ 63
    → (bytes : Bytes) × (s ≡ bytes ++ t)
      × (copy_resp w (record { unread = s; fin = fin }) ≡ record {
        sink = append_to w bytes;
        reader = record { unread = t; fin = fin };
        error = none;
      })
copy_resp-Value w s t fin h v small =
    let p = Value-Passes fin v in
    let fits : 0 + length p.bytes < 2 ^ 63 =
      omega (arith, small, ap length p.splits, length-append p.bytes t) in
    (
      p.bytes,
      p.splits,
      copy_resp_loop w (record { unread = s; fin = fin })
          ∙ p.passes 0 w _ h fits (Ends-done (append_to w p.bytes) t fin) (suc (length s))
              (omega arith),
    )
