-- ===== src/Session/Run.antt =====
-- pkg/proxy/routing.go: every round of `run` takes bytes off the client's stream, so that it ends
-- once the client has sent what it will send.
use redis_sentinel_proxy.Base.{
  ℕ, zero, suc, ◌≤◌, ◌<◌, ◌≢◌, Bool-cases, Option-cases, inl, inr, List, ◌++◌, Bytes, length,
  length-append, ◌≡◌, refl, ap, ◌∙◌, arith,
}
use redis_sentinel_proxy.Io.{Reader, Result, ok, err, inline_command}
use redis_sentinel_proxy.Resp.{Command, read_command}
use redis_sentinel_proxy.Resp.Lines.{length-Line}
use redis_sentinel_proxy.Resp.Commands.{
  Bulk, Bulks, no_more, next_arg, IsCommand, read_command_sound,
}
use redis_sentinel_proxy.Router.{contains}
use redis_sentinel_proxy.Session.{
  Session, Outcome, Next, Ending, continue, stop, out_of_fuel, and_then, or_fail, if_replica,
  is_empty, state_commands, pin_commands, send_master, send_replica, relay_master, relay_replica,
  discard_replica, state_command, reads_from_replica, forward, route, on_command, serve, run_loop,
  run, count64,
}

-- The client's stream is left alone.
abbrev KeepsClient : Session → Outcome → Type 0
KeepsClient s o = o.session.client.reader ≡ s.client.reader

send_master-KeepsClient : (raw : Bytes) (s : Session) → KeepsClient s (send_master raw s)
unfolding send_master
send_master-KeepsClient raw s = ground arith

send_replica-KeepsClient : (raw : Bytes) (s : Session) → KeepsClient s (send_replica raw s)
unfolding send_replica
send_replica-KeepsClient raw s = ground arith

if_replica-KeepsClient :
    (act : Session → Outcome) (s : Session)
    → ((t : Session) → KeepsClient t (act t))
    → KeepsClient s (if_replica act s)
if_replica-KeepsClient act s k = elim (Bool-cases s.has_replica) [
  | inl e ↦ simp e (k s)
  | inr e ↦ simp e refl
]

relay_master-KeepsClient : (s : Session) → KeepsClient s (relay_master s)
unfolding relay_master
relay_master-KeepsClient s = refl

relay_replica-KeepsClient : (s : Session) → KeepsClient s (relay_replica s)
unfolding relay_replica
relay_replica-KeepsClient s = refl

discard_replica-KeepsClient : (s : Session) → KeepsClient s (discard_replica s)
unfolding discard_replica
discard_replica-KeepsClient s = refl

and_then-KeepsClient :
    (s : Session) (o : Outcome) (next : Session → Outcome)
    → KeepsClient s o
    → ((t : Session) → KeepsClient t (next t))
    → KeepsClient s (and_then o next)
and_then-KeepsClient s o next h k = elim (Option-cases o.error) [
  | inl e ↦ rw (e, and_then) (k o.session ∙ h)
  | inr (x, e) ↦ rw (e, and_then) h
]

state_command-KeepsClient : (raw : Bytes) (s : Session) → KeepsClient s (state_command raw s)
unfolding state_command
state_command-KeepsClient raw s =
    and_then-KeepsClient s (send_master raw s)
      (λ s1.
        and_then (if_replica (send_replica raw) s1)
          (λ s2. and_then (relay_master s2) (if_replica discard_replica)))
      (send_master-KeepsClient raw s)
      (λ s1.
        and_then-KeepsClient s1 (if_replica (send_replica raw) s1)
          (λ s2. and_then (relay_master s2) (if_replica discard_replica))
          (if_replica-KeepsClient (send_replica raw) s1 (send_replica-KeepsClient raw))
          (λ s2.
            and_then-KeepsClient s2 (relay_master s2) (if_replica discard_replica)
              (relay_master-KeepsClient s2)
              (λ t. if_replica-KeepsClient discard_replica t discard_replica-KeepsClient)))

length-Bulk : {arg s t : Bytes} → Bulk arg s t → length t ≤ length s
length-Bulk {arg} {s} {t} b =
    omega (arith, length-Line b.line, ap length b.splits, length-append (arg ++ b.crlf) t)

length-Bulks : {args : List Bytes} {s t : Bytes} → Bulks args s t → length t ≤ length s
length-Bulks (no_more e) = omega (arith, ap length e)
length-Bulks (next_arg b more) = omega (arith, length-Bulk b, length-Bulks more)

length-IsCommand : {args : List Bytes} {s t : Bytes} → IsCommand args s t → length t < length s
length-IsCommand c = omega (arith, length-Line c.line, length-Bulks c.bulks)

module _ (unicode : Bytes → Bytes) where
  forward-KeepsClient : (c : Command) (s : Session) → KeepsClient s (forward unicode c s)
  unfolding forward
  forward-KeepsClient c s = elim (Bool-cases (reads_from_replica unicode s c.name)) [
    | inl r ↦ rw r (
        and_then-KeepsClient s (send_replica c.raw (record s { reads = count64 s.reads }))
          relay_replica (send_replica-KeepsClient c.raw (record s { reads = count64 s.reads }))
          relay_replica-KeepsClient)
    | inr m ↦ rw m (
        and_then-KeepsClient s (send_master c.raw (record s { writes = count64 s.writes }))
          relay_master (send_master-KeepsClient c.raw (record s { writes = count64 s.writes }))
          relay_master-KeepsClient)
  ]

  -- If the session goes on, the client's stream is `r`.
  abbrev LeavesClient : Reader → Next → Type 0
  LeavesClient r (continue s) = s.client.reader ≡ r
  LeavesClient r (stop s e) = e ≢ out_of_fuel

  or_fail-LeavesClient :
      (s : Session) (o : Outcome) → KeepsClient s o → LeavesClient s.client.reader (or_fail o)
  or_fail-LeavesClient s o h = elim (Option-cases o.error) [
    | inl e ↦ rw (e, or_fail) h
    | inr (x, e) ↦ rw (e, or_fail) (λ k. cc)
  ]

  route-LeavesClient :
      (c : Command) (s : Session) → LeavesClient s.client.reader (route unicode c s)
  unfolding route
  route-LeavesClient c s = elim (Bool-cases (is_empty c.name)) [
    | inl empty ↦ simp empty refl
    | inr named ↦ elim (Bool-cases (contains c.name pin_commands)) [
      | inl pins ↦ simp (named, pins) (λ k. cc)
      | inr free ↦ elim (Bool-cases (contains c.name state_commands)) [
        | inl state ↦
            simp (named, free, state)
              (or_fail-LeavesClient s (state_command c.raw s) (state_command-KeepsClient c.raw s))
        | inr plain ↦
            simp (named, free, plain)
              (or_fail-LeavesClient s (forward unicode c s) (forward-KeepsClient c s))
      ]
    ]
  ]

  -- What is left of the client's stream gets shorter.
  abbrev pub Shortens : Session → Next → Type 0
  Shortens s (continue t) = length t.client.reader.unread < length s.client.reader.unread
  Shortens s (stop t e) = e ≢ out_of_fuel

  Shortens-of :
      (s : Session) (r : Reader) (n : Next)
      → length r.unread < length s.client.reader.unread
      → LeavesClient r n
      → Shortens s n
  Shortens-of s r (continue t) h e = omega (arith, h, ap (λ (x : Reader). length x.unread) e)
  Shortens-of s r (stop t e) h k = k

  on_command-Shortens :
      (o : Result (Command × Reader)) (s : Session)
      → read_command unicode s.client.reader ≡ o
      → Shortens s (on_command unicode o s)
  unfolding on_command
  on_command-Shortens (ok (c, r)) s e =
      let (args, wanted, _, _, _) = read_command_sound unicode s.client.reader r c e in
      Shortens-of s r
        (route unicode c (record s { client = record { sink = s.client.sink; reader = r } }))
        (length-IsCommand wanted)
        (route-LeavesClient c (record s { client = record { sink = s.client.sink; reader = r } }))
  on_command-Shortens (err inline_command) s e = λ k. cc
  on_command-Shortens (err _) s e = λ k. cc

  pub serve-Shortens : (s : Session) → Shortens s (serve unicode s)
  unfolding serve
  serve-Shortens s = on_command-Shortens (read_command unicode s.client.reader) s refl

  ends_after :
      (s : Session) (fuel : ℕ) (n : Next)
      → Shortens s n
      → ((t : Session)
          → length t.client.reader.unread < length s.client.reader.unread
          → (run_loop unicode fuel t).1 ≢ out_of_fuel)
      → (elim n as (λ _. Session × Ending) [
        | stop s' e ↦ (s', e)
        | continue s' ↦ run_loop unicode fuel s'
      ]).1
        ≢ out_of_fuel
  ends_after s fuel (stop s' e) h rest = h
  ends_after s fuel (continue s') h rest = rest s' h

  run_loop-ne-out_of_fuel :
      (fuel : ℕ) (s : Session)
      → length s.client.reader.unread < fuel
      → (run_loop unicode fuel s).1 ≢ out_of_fuel
  unfolding run_loop
  run_loop-ne-out_of_fuel zero s h = λ k. ground arith
  run_loop-ne-out_of_fuel (suc fuel) s h =
      ends_after s fuel (serve unicode s) (serve-Shortens s)
        (λ t shorter. run_loop-ne-out_of_fuel fuel t (omega (arith, h, shorter)))

  -- `run` always ends, for each of its rounds takes at least a byte off the client's stream: it ends
  -- with the client's stream, with a failed backend or by pinning, and never for want of rounds.
  pub run-ne-out_of_fuel : (s : Session) → (run unicode s).1 ≢ out_of_fuel
  unfolding run
  run-ne-out_of_fuel s =
      run_loop-ne-out_of_fuel (suc (length s.client.reader.unread)) s (omega arith)
