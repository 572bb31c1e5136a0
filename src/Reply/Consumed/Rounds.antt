-- ===== src/Reply/Consumed/Rounds.antt =====
-- A round of `copyRESP` that reported no error took a line of the grammar.
use mathlib.Core.Path.{subst, ap₂}
use redis_sentinel_proxy.Base.{
  ℕ, zero, suc, ◌+◌, ◌*◌, ◌^◌, ◌≤◌, ◌<◌, ◌++◌, none, some, true, false, Bool-cases, inl, inr, Bytes,
  length, append_assoc, take, drop, take-append-drop, length-take, length-drop, ◌≡◌, refl, sym, ap,
  ◌∙◌, arith,
}
use redis_sentinel_proxy.Io.{Reader, Sink, IoError, io, other, Result, ok, err, write, copy_n}
use redis_sentinel_proxy.Io.Integer.{ℤ, pos, negsuc, pos_part, parse_int}
use redis_sentinel_proxy.Resp.{byte_at, payload, read_line, max_resp_elements, max_bulk_len}
use redis_sentinel_proxy.Resp.Lines.{
  Line, line_bytes, payload-line_bytes, read_line_iff, length-Line, Line-splits,
}
use redis_sentinel_proxy.Reply.{
  Kind, single, blob, aggregate, keyed, attribute, push, unknown, CopyState, Round, copy_blob, kind,
  relay_line, dispatch, copy_round, dec64,
}
use redis_sentinel_proxy.Reply.Loop.{copy_round_ok, copy_round_err}
use redis_sentinel_proxy.Reply.Counts.{with_count_sound}
use redis_sentinel_proxy.Reply.Grammar.{
  Value, Values, scalar, null, bulk, array, dictionary, attributed, pushed, finish, then, Announces,
  Marks, kind-Marks,
}

-- Elements, and what remains after them.
Values_split :
    (n k j : ℕ) {s u : Bytes} → j ≡ n + k → Values j s u → (t : Bytes) × Values n s t × Values k t u
Values_split zero k j {s} {u} e vs = (s, finish refl, subst (λ x. Values x s u) (omega arith) vs)
Values_split (suc n) k j e (finish _) = absurd (omega arith)
Values_split (suc n) k j e (then {k = j'} v vs) =
    let (t, first, rest) = Values_split n k j' (omega arith) vs in (t, then v first, rest)

copy_n_sound :
    (n : ℕ) (w : Sink) (r : Reader)
    → (copy_n n w r).error ≡ none
    → (n ≤ length r.unread)
      × ((copy_n n w r).sink.written ≡ w.written ++ take n r.unread)
      × ((copy_n n w r).reader ≡ record r { unread = drop n r.unread })
unfolding copy_n write
copy_n_sound n w r h = ground arith

-- A round that reported no error: the bytes it moved, and how the replies still awaited after it
-- make up those awaited before it.
pub record Took (fin : IoError) (k : ℕ) (w : Sink) (s : Bytes) (after : CopyState) : Type 0 where
  pub bytes : Bytes
  pub fin_is : after.reader.fin ≡ fin
  pub splits : s ≡ bytes ++ after.reader.unread
  pub written : after.sink.written ≡ w.written ++ bytes
  pub small : after.remaining + 2 ^ 21 * length after.reader.unread ≤ suc k + 2 ^ 21 * length s
  pub closes : (u : Bytes) → Values after.remaining after.reader.unread u → Values (suc k) s u

dec64-suc : (k : ℕ) → suc k < 2 ^ 63 → dec64 (suc k) ≡ k
dec64-suc k h = omega arith

awaited_of :
    {k : ℕ} (j : ℕ) {v u s : Bytes}
    → j ≡ suc k
    → Values j v u
    → ((x : Bytes) → Value v x → Value s x)
    → Values (suc k) s u
awaited_of j e (finish _) wrap = absurd (omega arith)
awaited_of j {u = u} e (then {k = i} {t = t} value vs) wrap =
    then (wrap t value) (subst (λ x. Values x t u) (omega arith) vs)

module _ (fin : IoError) (k : ℕ) (w : Sink) {m : ℕ} {text s t : Bytes}
    (line : Line m text s t) where
  -- The state after the line, before the `switch`.
  abbrev after_line : Sink → CopyState
  after_line w' = record { remaining = suc k; sink = w'; reader = record { unread = t; fin = fin } }

  -- A round that took the line alone and awaits `n` replies.
  Took-line :
      (w' : Sink) (n r : ℕ)
      → r ≡ n
      → w'.written ≡ w.written ++ line_bytes m text
      → n ≤ suc k + 2 ^ 21
      → ((u : Bytes) → Values n t u → Values (suc k) s u)
      → Took fin k w s
          (record { remaining = r; sink = w'; reader = record { unread = t; fin = fin } })
  Took-line w' n r e written room closes = record {
    bytes = line_bytes m text;
    fin_is = refl;
    splits = Line-splits line;
    written = written;
    small = omega (arith, room, length-Line line);
    closes = λ u vs. closes u (subst (λ x. Values x t u) e vs);
  }

  header_bound : (n : ℕ) → n ≤ max_resp_elements → (2 * n + suc k ≤ suc k + 2 ^ 21)
  header_bound n h = omega arith

  announced :
      (z : ℤ)
      → parse_int text ≡ some z
      → pos_part z ≤ max_resp_elements
      → Announces text (pos_part z)
  announced z p h = record { number = z; parsed = p; allowed = h; count_is = refl }

  -- The reply that a header stood before, and the others.
  awaited :
      {v u : Bytes}
      → Values (suc k) v u
      → ((x : Bytes) → Value v x → Value s x)
      → Values (suc k) s u
  awaited vs wrap = awaited_of (suc k) refl vs wrap

  copy_blob_sound :
      (w' : Sink) (z : ℤ)
      → Marks blob m
      → parse_int text ≡ some z
      → pos_part z ≤ max_bulk_len
      → w'.written ≡ w.written ++ line_bytes m text
      → suc k + 2 ^ 21 * length s < 2 ^ 63
      → (copy_blob (after_line w') z).error ≡ none
      → Took fin k w s (copy_blob (after_line w') z).state
  unfolding copy_blob
  copy_blob_sound w' (negsuc n) mark p le wr small h =
      Took-line w' k _ (omega arith) wr (omega arith) (λ u vs. then (null mark line p) vs)
  copy_blob_sound w' (pos n) mark p le wr small h =
      let (enough, out, left) = copy_n_sound (n + 2) w' (record { unread = t; fin = fin }) h in
      let c = copy_n (n + 2) w' (record { unread = t; fin = fin }) in
      let body = take (n + 2) t in
      let unread_is : c.reader.unread ≡ drop (n + 2) t = ap (λ (x : Reader). x.unread) left in
      let joined : body ++ drop (n + 2) t ≡ t = take-append-drop (n + 2) t in
      record {
        bytes = line_bytes m text ++ body;
        fin_is = ap (λ (x : Reader). x.fin) left;
        splits =
            Line-splits line
            ∙ ap (λ x. line_bytes m text ++ x) (sym joined ∙ ap (λ x. body ++ x) (sym unread_is))
            ∙ sym (append_assoc (line_bytes m text) body c.reader.unread);
        written = out ∙ ap (λ x. x ++ body) wr ∙ append_assoc w.written (line_bytes m text) body;
        small = omega (arith, small, length-Line line, ap length unread_is, length-drop (n + 2) t);
        closes = λ u vs.
            then
              (bulk body mark line p le (sym joined) (omega (arith, enough, length-take (n + 2) t)))
              (subst (λ x. Values x (drop (n + 2) t) u) (dec64-suc k (omega (arith, small)))
                (subst (λ x. Values (dec64 (suc k)) x u) unread_is vs));
      }

  dispatch_sound :
      (κ : Kind) (w' : Sink)
      → Marks κ m
      → w'.written ≡ w.written ++ line_bytes m text
      → suc k + 2 ^ 21 * length s < 2 ^ 63
      → (dispatch κ text (after_line w')).error ≡ none
      → Took fin k w s (dispatch κ text (after_line w')).state
  unfolding dispatch
  dispatch_sound single w' mark wr small h =
      Took-line w' k _ (omega arith) wr (omega arith) (λ u vs. then (scalar mark line) vs)
  dispatch_sound aggregate w' mark wr small h =
      let (z, p, le, e) = with_count_sound text _ _ _ _ h in
      subst (λ x. Took fin k w s x.state) (sym e)
        (Took-line w' (pos_part z + k) _ (omega (arith, small, le)) wr (omega (arith, le)) (λ u vs.
          let (v, elements, rest) = Values_split (pos_part z) k _ refl vs in
          then (array mark line (announced z p le) elements) rest))
  dispatch_sound keyed w' mark wr small h =
      let (z, p, le, e) = with_count_sound text _ _ _ _ h in
      subst (λ x. Took fin k w s x.state) (sym e)
        (Took-line w' (2 * pos_part z + k) _ (omega (arith, small, le)) wr (omega (arith, le))
          (λ u vs.
            let (v, elements, rest) = Values_split (2 * pos_part z) k _ refl vs in
            then (dictionary (subst (λ x. Line x text s t) mark line) (announced z p le) elements)
              rest))
  dispatch_sound attribute w' mark wr small h =
      let (z, p, le, e) = with_count_sound text _ _ _ _ h in
      subst (λ x. Took fin k w s x.state) (sym e)
        (Took-line w' (2 * pos_part z + suc k) _ (omega (arith, small, le)) wr (omega (arith, le))
          (λ u vs.
            let (v, elements, rest) = Values_split (2 * pos_part z) (suc k) _ refl vs in
            awaited rest (λ x value.
              attributed (subst (λ x. Line x text s t) mark line) (announced z p le) elements
                value)))
  dispatch_sound push w' mark wr small h =
      let (z, p, le, e) = with_count_sound text _ _ _ _ h in
      subst (λ x. Took fin k w s x.state) (sym e)
        (Took-line w' (pos_part z + suc k) _ (omega (arith, small, le)) wr (omega (arith, le))
          (λ u vs.
            let (v, elements, rest) = Values_split (pos_part z) (suc k) _ refl vs in
            awaited rest (λ x value.
              pushed (subst (λ x. Line x text s t) mark line) (announced z p le) elements value)))
  dispatch_sound blob w' mark wr small h =
      let (z, p, le, e) = with_count_sound text _ _ _ _ h in
      subst (λ x. Took fin k w s x.state) (sym e)
        (copy_blob_sound w' z mark p le wr small (ap (λ (x : Round). x.error) (sym e) ∙ h))
  dispatch_sound unknown w' mark wr small h = cc

write_sound : (b : Bytes) (w : Sink) → (write b w).0 ≡ true → (write b w).1.written ≡ w.written ++ b
unfolding write
write_sound b w h = ground arith

module _ (fin : IoError) (k : ℕ) (w : Sink) (s : Bytes) where
  abbrev before : CopyState
  before = record { remaining = suc k; sink = w; reader = record { unread = s; fin = fin } }

  relay_line_written :
      (line : Bytes) (r : Reader)
      → (write line w).0 ≡ true
      → relay_line before line r
        ≡ dispatch
            (kind (byte_at line 0))
            (payload line)
            (record { remaining = suc k; sink = (write line w).1; reader = r })
  unfolding relay_line
  relay_line_written line r h = rw h

  relay_line_unwritten :
      (line : Bytes) (r : Reader)
      → (write line w).0 ≡ false
      → (relay_line before line r).error ≡ some (io other)
  unfolding relay_line
  relay_line_unwritten line r h = rw h

  relay_line-dispatch :
      (line : Bytes) (r : Reader) (m : ℕ) (text : Bytes)
      → (write line w).0 ≡ true
      → line ≡ line_bytes m text
      → r.fin ≡ fin
      → relay_line before line r
        ≡ dispatch (kind m) text (record {
          remaining = suc k;
          sink = (write line w).1;
          reader = record { unread = r.unread; fin = fin };
        })
  relay_line-dispatch line r m text h l f =
      relay_line_written line r h
      ∙ ap₂
          (λ c p.
            dispatch (kind c) p (record { remaining = suc k; sink = (write line w).1; reader = r }))
          (ap (λ x. byte_at x 0) l) (ap payload l ∙ payload-line_bytes m text)
      ∙ λ i. dispatch (kind m) text (record {
        remaining = suc k;
        sink = (write line w).1;
        reader = record { unread = r.unread; fin = f i };
      })

  relay_line_sound :
      (line : Bytes) (r : Reader)
      → read_line before.reader ≡ ok (line, r)
      → suc k + 2 ^ 21 * length s < 2 ^ 63
      → (relay_line before line r).error ≡ none
      → Took fin k w s (relay_line before line r).state
  relay_line_sound line r e small h = elim (Bool-cases (write line w).0) [
    | inl done ↦
        let (m, text, l, is_line, f) = (read_line_iff before.reader r line).0 e in
        let eq = relay_line-dispatch line r m text done l f in
        subst (λ x. Took fin k w s x.state) (sym eq)
          (dispatch_sound fin k w is_line (kind m) (write line w).1 (kind-Marks m)
            (write_sound line w done ∙ ap (λ x. w.written ++ x) l) small
            (ap (λ (x : Round). x.error) (sym eq) ∙ h))
    | inr failed_ ↦ cc (relay_line_unwritten line r failed_, h)
  ]

  pub copy_round_sound :
      suc k + 2 ^ 21 * length s < 2 ^ 63
      → (copy_round before).error ≡ none
      → Took fin k w s (copy_round before).state
  copy_round_sound small h = of_result (read_line before.reader) refl
    where
      of_result :
          (o : Result (Bytes × Reader))
          → read_line before.reader ≡ o
          → Took fin k w s (copy_round before).state
      of_result (err x) e = cc (ap (λ (x : Round). x.error) (copy_round_err before x e), h)
      of_result (ok (line, r)) e =
          let eq = copy_round_ok before line r e in
          subst (λ x. Took fin k w s x.state) (sym eq)
            (relay_line_sound line r e small (ap (λ (x : Round). x.error) (sym eq) ∙ h))
