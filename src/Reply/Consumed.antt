-- ===== src/Reply/Consumed.antt =====
-- What `copyRESP` has taken when it reports no error is one reply of the grammar, whatever the
-- writer is.
mod Rounds
use mathlib.Core.Path.{subst}
use redis_sentinel_proxy.Base.{
  ℕ, zero, suc, ◌+◌, ◌*◌, ◌^◌, ◌<◌, [], ◌++◌, ◌≢◌, none, some, true, false, Bool-cases,
  Option-cases, inl, inr, Bytes, length, append-nil, append_assoc, ◌≡◌, refl, sym, ap, ◌∙◌, arith,
}
use redis_sentinel_proxy.Io.{Reader, Sink, IoError, Copied}
use redis_sentinel_proxy.Reply.{
  CopyState, Round, copy_round, copied, copy_loop, copy_resp, after_round, is_positive,
}
use redis_sentinel_proxy.Reply.Loop.{
  copy_loop_out, copy_loop_stopped, copy_loop_next, copy_loop_failed, copy_resp_loop,
}
use redis_sentinel_proxy.Reply.Grammar.{Value, Values, finish, then}
use Rounds.{Took, copy_round_sound}

-- A run of the loop with `n` replies to go, from `s` unread bytes, that ended without an error.
record Consumed (n : ℕ) (w : Sink) (s : Bytes) (c : Copied) : Type 0 where
  bytes : Bytes
  splits : s ≡ bytes ++ c.reader.unread
  written : c.sink.written ≡ w.written ++ bytes
  values : Values n s c.reader.unread

copy_loop_fine :
    (fuel : ℕ) (s : CopyState)
    → is_positive s.remaining ≡ true
    → (copy_loop (suc fuel) s).error ≡ none
    → (copy_round s).error ≡ none
copy_loop_fine fuel s p h = elim (Option-cases (copy_round s).error) [
  | inl e ↦ e
  | inr (x, e) ↦ cc (ap (λ (c : Copied). c.error) (copy_loop_failed fuel s x p e), h)
]

abbrev state : ℕ → Sink → Bytes → IoError → CopyState
state n w s fin = record { remaining = n; sink = w; reader = record { unread = s; fin = fin } }

Consumed-round :
    (k : ℕ) (w : Sink) (s : Bytes) (fin : IoError) {after : CopyState} (c : Copied)
    → Took fin k w s after
    → Consumed after.remaining after.sink after.reader.unread c
    → Consumed (suc k) w s c
Consumed-round k w s fin c t d = record {
  bytes = t.bytes ++ d.bytes;
  splits =
      t.splits
      ∙ ap (λ x. t.bytes ++ x) d.splits
      ∙ sym (append_assoc t.bytes d.bytes c.reader.unread);
  written = d.written ∙ ap (λ x. x ++ d.bytes) t.written ∙ append_assoc w.written t.bytes d.bytes;
  values = t.closes c.reader.unread d.values;
}

copy_loop-Consumed :
    (fuel n : ℕ) (w : Sink) (s : Bytes) (fin : IoError)
    → n + 2 ^ 21 * length s < 2 ^ 63
    → (copy_loop fuel (state n w s fin)).error ≡ none
    → Consumed n w s (copy_loop fuel (state n w s fin))
copy_loop-Consumed zero n w s fin small h =
    cc (ap (λ (c : Copied). c.error) (copy_loop_out (state n w s fin)), h)
copy_loop-Consumed (suc fuel) zero w s fin small h =
    subst (Consumed zero w s) (sym (copy_loop_stopped fuel (state zero w s fin) refl)) (record {
      bytes = [];
      splits = refl;
      written = sym (append-nil w.written);
      values = finish refl;
    })
copy_loop-Consumed (suc fuel) (suc k) w s fin small h =
    let start = state (suc k) w s fin in
    let going : is_positive (suc k) ≡ true = ground arith in
    let fine = copy_loop_fine fuel start going h in
    let next = copy_loop_next fuel start going fine in
    let took = copy_round_sound fin k w s small fine in
    let after = (copy_round start).state in
    let later =
      copy_loop-Consumed fuel after.remaining after.sink after.reader.unread after.reader.fin
        (omega (arith, small, took.small)) (ap (λ (c : Copied). c.error) (sym next) ∙ h) in
    subst (Consumed (suc k) w s) (sym next) (Consumed-round k w s fin _ took later)

-- The one reply of `Values 1`.
only-Value : (n : ℕ) {s t : Bytes} → n ≡ 1 → Values n s t → Value s t
only-Value n e (finish _) = absurd (omega arith)
only-Value n {s} e (then v (finish end)) = subst (Value s) end v
only-Value n e (then v (then _ _)) = absurd (omega arith)

-- Whatever the writer is, if `copyRESP` reports no error on a stream of less than 2^42 bytes,
-- then it has taken exactly one reply off the stream, and has written exactly its bytes.
pub Value-of_copy_resp :
    (w : Sink) (s : Bytes) (fin : IoError)
    → length s < 2 ^ 42
    → (copy_resp w (record { unread = s; fin = fin })).error ≡ none
    → let c = copy_resp w (record { unread = s; fin = fin }) in
      Value s c.reader.unread
      × ((bytes : Bytes) × (s ≡ bytes ++ c.reader.unread) × (c.sink.written ≡ w.written ++ bytes))
Value-of_copy_resp w s fin small h =
    let eq = copy_resp_loop w (record { unread = s; fin = fin }) in
    let d = subst (Consumed 1 w s) (sym eq) (
      copy_loop-Consumed (suc (length s)) 1 w s fin (omega (arith, small))
        (ap (λ (c : Copied). c.error) (sym eq) ∙ h)) in
    (only-Value 1 refl d.values, (d.bytes, d.splits, d.written))
